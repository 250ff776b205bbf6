-- ===== src/Iterator.antt =====
-- ssdb/iterator.cpp and the iterators of ssdb/ssdb_impl.cpp: the entries of the database in order,
-- up to a bound on the key and one on their number, and those of one data type.
-- A typed iterator's `next` and the caller's `while(it->next())` run on fuel, the entries that may
-- still come. What it leaves in its fields when it returns false is not read by the callers.
pub mod Gives
pub mod Range
pub mod Typed
pub mod Section
use php.Prelude.{
  ℕ, zero, suc, ◌-◌, Bool, true, false, not, ◌&&◌, Option, none, some, List, [], ◌∷◌, ◌==◌,
  if◌then◌else◌,
}
use php.Bytes.{Bytes, eqb, is_empty}
use php.Bytes.Order.{lt}
use php.LevelDb.{LevelDb}
use php.LevelDb.Iterators.{Entry, Iterators}
use php.Keys.{decode_kv_key, decode_hash_key}
use php.Keys.Zset.{decode_zscore_key}
use php.Keys.DataType

-- Iterator::Direction
pub data Direction : Type 0 where
  forward backward : Direction

-- `!end.empty() && it->key().compare(end) > 0`, or `< 0` backwards.
unfoldable pub is_beyond : Direction → Bytes → Bytes → Bool
is_beyond forward end k = not (is_empty end) && lt end k
is_beyond backward end k = not (is_empty end) && lt k end

module _ (L : LevelDb) (I : Iterators L) where
  pub record Iterator : Type 0 where
    pub it : I.Iter
    pub end : Bytes
    pub limit : ℕ
    pub is_first : Bool
    pub direction : Direction

  -- Iterator::Iterator
  abbrev pub new : I.Iter → Bytes → ℕ → Direction → Iterator
  new it end limit direction = record {
    it = it;
    end = end;
    limit = limit;
    is_first = true;
    direction = direction;
  }

  -- it->Next() or it->Prev()
  unfoldable pub step : Direction → I.Iter → I.Iter
  step forward it = I.next it
  step backward it = I.prev it

  -- The tests of `next` on the place it moved to.
  unfoldable pub next_at : Option Entry → Iterator → Bool × Iterator
  unfolding is_beyond
  next_at none t = (false, record t { limit = 0 })
  next_at (some e) t =
      if is_beyond t.direction t.end e.0
      then (false, record t { limit = 0 })
      else (true, record t { limit = t.limit - 1 })

  -- Iterator::next
  unfoldable pub next : Iterator → Bool × Iterator
  unfolding next_at step
  next t =
      let place = if t.is_first then t.it else step t.direction t.it in
      if t.limit == 0
      then (false, t)
      else next_at (I.current place) (record t { it = place; is_first = false })

  -- Iterator::skip
  unfoldable pub skip : ℕ → Iterator → Bool × Iterator
  unfolding next
  skip zero t = (true, t)
  skip (suc offset) t =
      let (ok, u) = next t in let rest = skip offset u in if ok then rest else (false, u)

  -- `if(it->Valid() && it->key() == start){ it->Next(); }`
  unfoldable pub skip_start : Bytes → I.Iter → I.Iter
  skip_start start it = elim (I.current it) [
    | none ↦ it
    | some e ↦ if eqb e.0 start then I.next it else it
  ]

  -- SSDBImpl::iterator
  unfoldable pub iterator : L.Db → Bytes → Bytes → ℕ → Iterator
  unfolding skip_start
  iterator ldb start end limit =
      new (skip_start start (I.seek start (I.new_iterator ldb))) end limit forward

  -- `if(!it->Valid()){ it->SeekToLast(); }else{ it->Prev(); }`
  unfoldable pub step_back : I.Iter → I.Iter
  step_back it = elim (I.current it) [ none ↦ I.seek_to_last it | some e ↦ I.prev it ]

  -- SSDBImpl::rev_iterator
  unfoldable pub rev_iterator : L.Db → Bytes → Bytes → ℕ → Iterator
  unfolding step_back
  rev_iterator ldb start end limit =
      new (step_back (I.seek start (I.new_iterator ldb))) end limit backward

-- What a typed iterator does at an entry: return false, continue, or return true with what it read.
pub data Seen {ℓ} (A : Type ℓ) : Type ℓ where
  stop ignored : Seen A
  taken : A → Seen A

-- The body of KIterator::next: the key and the value.
unfoldable pub k_seen : Entry → Seen (Bytes × Bytes)
k_seen ([], vs) = stop
k_seen (c ∷ ks, vs) =
    if c == DataType.kv
    then elim (decode_kv_key (c ∷ ks)) [ none ↦ ignored | some key ↦ taken (key, vs) ]
    else stop

-- The body of HIterator::next: the key and the value.
unfoldable pub h_seen : Bytes → Entry → Seen (Bytes × Bytes)
h_seen name ([], vs) = stop
h_seen name (c ∷ ks, vs) =
    if c == DataType.hash
    then elim (decode_hash_key (c ∷ ks)) [
      | none ↦ ignored
      | some nk ↦ if eqb nk.0 name then taken (nk.1, vs) else stop
    ]
    else stop

-- The body of ZIterator::next, which does not test the name: the key and the score.
unfoldable pub z_seen : Entry → Seen (Bytes × Bytes)
unfolding decode_zscore_key
z_seen ([], vs) = stop
z_seen (c ∷ ks, vs) =
    if c == DataType.zscore
    then elim (decode_zscore_key (c ∷ ks)) [ none ↦ ignored | some r ↦ taken (r.1, r.2) ]
    else stop

module _ {ℓ} {A : Type ℓ} (seen : Entry → Seen A) (L : LevelDb) (I : Iterators L) where
  -- The loop of KIterator::next, HIterator::next and ZIterator::next.
  unfoldable pub typed_next : ℕ → Iterator L I → Option A × Iterator L I
  unfolding next
  typed_next zero t = (none, t)
  typed_next (suc n) t =
      let (ok, u) = next L I t in
      let rest = typed_next n u in
      if ok
      then elim (I.current u.it) [
        | none ↦ (none, u)
        | some e ↦ elim (seen e) [ stop ↦ (none, u) | ignored ↦ rest | taken a ↦ (some a, u) ]
      ]
      else (none, u)

  -- `while(it->next())`, with what each turn reads.
  unfoldable pub typed_all : ℕ → Iterator L I → List A
  unfolding typed_next
  typed_all zero t = []
  typed_all (suc n) t =
      let (a, u) = typed_next (suc n) t in
      let rest = typed_all n u in elim a [ none ↦ [] | some x ↦ x ∷ rest ]
