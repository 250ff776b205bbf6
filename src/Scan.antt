-- ===== src/Scan.antt =====
-- The operations of ssdb/t_kv.cpp, t_hash.cpp, t_zset.cpp and t_queue.cpp that walk the keys in
-- order: scan, rscan, hscan, hrscan, hclear, and the lists of names. A loop `while(it->next())` has
-- fuel for one turn more than the iterator's limit.
pub mod Range
pub mod Reverse
pub mod Pages
pub mod Names
pub mod Members
pub mod ScoreKeys
pub mod ByScore
pub mod FromScore
pub mod Fields
pub mod Kept
pub mod Clear
pub mod ClearAll
mod MemberTests
mod Tests
use php.Prelude.{
  ℕ, zero, suc, ◌+◌, ◌≡◌, Bool, true, false, Option, none, some, List, [], ◌∷◌, ◌++◌, map, ◌==◌,
  if◌then◌else◌,
}
use php.Prelude.Int.{ℤ, pos}
use php.Bytes.{Bytes, is_empty}
use php.Keys.{
  encode_kv_key, encode_hsize_key, encode_hash_key, encode_qsize_key, decode_hsize_key,
  decode_qsize_key,
}
use php.Keys.Zset.{encode_zsize_key, decode_zsize_key}
use php.Keys.DataType
use php.LevelDb.{LevelDb}
use php.LevelDb.Iterators.{Entry, Iterators}
use php.Binlog.{Ssdb, is_minus_one}
use php.Hash.{hdel}
use php.Iterator.{
  Iterator, iterator, rev_iterator, next, Seen, stop, ignored, taken, h_seen, typed_next, typed_all,
}

-- key_end: no bound where the end is empty.
abbrev pub key_end : (Bytes → Bytes) → Bytes → Bytes
key_end encode end = if is_empty end then [] else encode end

-- key_start of a reverse scan: `key_start.append(1, 255)` where the start is empty.
abbrev pub rev_key_start : (Bytes → Bytes) → Bytes → Bytes
rev_key_start encode start = if is_empty start then encode start ++ 255 ∷ [] else encode start

-- The body of the loops of get_hnames, get_znames and get_qnames: the name, and the value, which
-- they do not read.
unfoldable pub name_seen : ℕ → (Bytes → Option Bytes) → Entry → Seen Entry
name_seen type decode ([], vs) = stop
name_seen type decode (c ∷ ks, vs) =
    if c == type then elim (decode (c ∷ ks)) [ none ↦ ignored | some n ↦ taken (n, vs) ] else stop

-- The log type of the deletions of hclear, BinlogType::SYNC.
abbrev sync : ℕ
sync = 1

module _ (L : LevelDb) (I : Iterators L) where
  -- SSDBImpl::scan
  unfoldable pub scan : Ssdb L → Bytes → Bytes → ℕ → Iterator L I
  scan s start end limit = iterator L I s.db (encode_kv_key start) (key_end encode_kv_key end) limit

  -- SSDBImpl::rscan
  unfoldable pub rscan : Ssdb L → Bytes → Bytes → ℕ → Iterator L I
  rscan s start end limit =
      rev_iterator L I s.db (rev_key_start encode_kv_key start) (key_end encode_kv_key end) limit

  -- SSDBImpl::hscan
  unfoldable pub hscan : Ssdb L → Bytes → Bytes → Bytes → ℕ → Iterator L I
  hscan s name start end limit =
      iterator L I s.db (encode_hash_key name start) (key_end (encode_hash_key name) end) limit

  -- SSDBImpl::hrscan
  unfoldable pub hrscan : Ssdb L → Bytes → Bytes → Bytes → ℕ → Iterator L I
  hrscan s name start end limit =
      rev_iterator L I s.db (rev_key_start (encode_hash_key name) start)
        (key_end (encode_hash_key name) end) limit

  -- get_hnames, get_znames and get_qnames
  unfoldable pub get_names : ℕ → (Bytes → Option Bytes) → ℕ → Iterator L I → List Bytes
  unfolding name_seen typed_all
  get_names type decode fuel it = map (λ e. e.0) (typed_all (name_seen type decode) L I fuel it)

  -- SSDBImpl::hlist
  unfoldable pub hlist : Ssdb L → Bytes → Bytes → ℕ → List Bytes
  unfolding get_names
  hlist s name_s name_e limit =
      get_names DataType.hsize decode_hsize_key (suc limit)
        (iterator L I s.db (encode_hsize_key name_s) (key_end encode_hsize_key name_e) limit)

  -- SSDBImpl::hrlist
  unfoldable pub hrlist : Ssdb L → Bytes → Bytes → ℕ → List Bytes
  unfolding get_names
  hrlist s name_s name_e limit = get_names DataType.hsize decode_hsize_key (suc limit) (
      rev_iterator L I s.db (rev_key_start encode_hsize_key name_s)
        (key_end encode_hsize_key name_e) limit)

  -- SSDBImpl::zlist
  unfoldable pub zlist : Ssdb L → Bytes → Bytes → ℕ → List Bytes
  unfolding get_names
  zlist s name_s name_e limit =
      get_names DataType.zsize decode_zsize_key (suc limit)
        (iterator L I s.db (encode_zsize_key name_s) (key_end encode_zsize_key name_e) limit)

  -- SSDBImpl::zrlist
  unfoldable pub zrlist : Ssdb L → Bytes → Bytes → ℕ → List Bytes
  unfolding get_names
  zrlist s name_s name_e limit = get_names DataType.zsize decode_zsize_key (suc limit) (
      rev_iterator L I s.db (rev_key_start encode_zsize_key name_s)
        (key_end encode_zsize_key name_e) limit)

  -- SSDBImpl::qlist
  unfoldable pub qlist : Ssdb L → Bytes → Bytes → ℕ → List Bytes
  unfolding get_names
  qlist s name_s name_e limit =
      get_names DataType.qsize decode_qsize_key (suc limit)
        (iterator L I s.db (encode_qsize_key name_s) (key_end encode_qsize_key name_e) limit)

  -- SSDBImpl::qrlist
  unfoldable pub qrlist : Ssdb L → Bytes → Bytes → ℕ → List Bytes
  unfolding get_names
  qrlist s name_s name_e limit = get_names DataType.qsize decode_qsize_key (suc limit) (
      rev_iterator L I s.db (rev_key_start encode_qsize_key name_s)
        (key_end encode_qsize_key name_e) limit)

  -- The inner loop of hclear: num, or none where a deletion fails. The iterator reads the database
  -- as it was at hscan.
  unfoldable pub hclear_page : ℕ → Bytes → Iterator L I → ℕ → Ssdb L → Option ℕ × Ssdb L
  unfolding typed_next
  hclear_page zero name it num s = (some num, s)
  hclear_page (suc n) name it num s =
      let (a, u) = typed_next (h_seen name) L I (suc n) it in
      elim a [
        | none ↦ (some num, s)
        | some e ↦
            let (ret, t) = hdel L name e.0 sync s in
            let rest = hclear_page n name u (suc num) t in
            if is_minus_one ret then (none, t) else rest
      ]

  -- SSDBImpl::hclear, on fuel: none where it runs out.
  unfoldable pub hclear : ℕ → Bytes → ℕ → Ssdb L → Option ℤ × Ssdb L
  unfolding hclear_page hscan
  hclear zero name count s = (none, s)
  hclear (suc n) name count s =
      let (num, t) = hclear_page 1001 name (hscan s name [] [] 1000) 0 s in
      elim num [
        | none ↦ (some (pos 0), t)
        | some zero ↦ (some (pos count), t)
        | some (suc k) ↦ hclear n name (count + suc k) t
      ]
