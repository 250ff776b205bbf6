-- ===== src/Expiration.antt =====
-- ssdb/ttl.cpp: when keys expire. What time_ms() gives is an argument of the operations that call
-- it. The thread, which calls expire_loop again and again, is not modelled.
pub mod Bounds
pub mod Loop
pub mod Values
pub mod ReadBack
mod Tests
use php.Prelude.{
  ℕ, zero, suc, ◌+◌, ◌-◌, ◌*◌, ◌/◌, ◌^◌, Bool, true, false, not, ◌&&◌, Option, none, some, List, [],
  ◌∷◌, length, ltb, ◌==◌, if◌then◌else◌,
}
use php.Prelude.Int.{ℤ, pos, negsuc, ◌+ℤ◌, pos_part, neg_part, sub_ℕ, ltb_ℤ, leb_ℤ, i64}
use php.Bytes.{Bytes}
use php.Strings.Number.{str, str_to_int64}
use php.LevelDb.{LevelDb, Got, failed, missing, found}
use php.LevelDb.Iterators.{Entry, Iterators}
use php.Binlog.{Ssdb, minus_one, is_minus_one}
use php.Kv
use php.Zset.{zset, zdel, zget}
use php.Iterator.{Iterator, z_seen, typed_all}
use php.Scan.Members.{zscan}
use php.SortedSet
use php.SortedSet.{SortedSet, is_empty_set, max_score}

-- EXPIRATION_LIST_KEY
abbrev pub list_name : Bytes
list_name =
    255 ∷ 255 ∷ 255 ∷ 255 ∷ 255 ∷ b'|' ∷ b'E' ∷ b'X' ∷ b'P' ∷ b'I' ∷ b'R' ∷ b'E' ∷ b'_' ∷ b'L'
    ∷ b'I' ∷ b'S' ∷ b'T' ∷ b'|' ∷ b'K' ∷ b'V' ∷ []

-- BATCH_SIZE
abbrev pub batch_size : ℕ
batch_size = 1000

-- INT64_MAX
abbrev int64_max : ℤ
int64_max = pos (2 ^ 63 - 1)

-- The log type of the writes, BinlogType::SYNC.
abbrev sync : ℕ
sync = 1

-- z * 1000
abbrev pub thousand_times : ℤ → ℤ
thousand_times z = sub_ℕ (pos_part z * 1000) (neg_part z * 1000)

-- z / 1000, towards zero.
abbrev pub thousandth : ℤ → ℤ
thousandth z = sub_ℕ (pos_part z / 1000) (neg_part z / 1000)

-- class ExpirationHandler, less the thread, its flag, the name of the list and the database.
pub record ExpirationHandler : Type 0 where
  pub first_timeout : ℤ
  pub fast_keys : SortedSet

-- The lines of set_ttl on fast_keys.
unfoldable pub set_fast : Bytes → ℤ → SortedSet → SortedSet
set_fast key expired fast =
    let added = (SortedSet.add key expired fast).1 in
    if not (is_empty_set fast) && leb_ℤ expired (max_score fast)
    then (if ltb batch_size (length added.sorted_set) then (SortedSet.pop_back added).1 else added)
    else (SortedSet.del key fast).1

-- The loop of load_expiration_keys_from_db: scores below 2000000000 are seconds.
unfoldable pub load_keys : List Entry → SortedSet → SortedSet
load_keys [] fast = fast
load_keys (e ∷ es) fast =
    let score = (str_to_int64 e.1).0 in
    let ms = if ltb_ℤ score (pos 2000000000) then i64 (thousand_times score) else score in
    load_keys es (SortedSet.add e.0 ms fast).1

module _ (L : LevelDb) where
  -- ExpirationHandler::set_ttl
  unfoldable pub set_ttl :
      ℤ → Bytes → ℤ → ExpirationHandler → Ssdb L → ℤ × ExpirationHandler × Ssdb L
  unfolding set_fast
  set_ttl time_ms key ttl h s =
      let expired = i64 (time_ms +ℤ thousand_times ttl) in
      let (ret, t) = zset L list_name key (str expired) sync s in
      let first = if ltb_ℤ expired h.first_timeout then expired else h.first_timeout in
      if is_minus_one ret then (minus_one, h, t) else (
        pos 0,
        record { first_timeout = first; fast_keys = set_fast key expired h.fast_keys },
        t,
      )

  -- ExpirationHandler::del_ttl
  unfoldable pub del_ttl : Bytes → ExpirationHandler → Ssdb L → ℤ × ExpirationHandler × Ssdb L
  del_ttl key h s =
      if not (SortedSet.eqb_ℤ h.first_timeout int64_max)
      then (
        pos 0,
        record h { fast_keys = (SortedSet.del key h.fast_keys).1 },
        (zdel L list_name key sync s).1,
      )
      else (pos 0, h, s)

  -- ExpirationHandler::get_ttl
  unfoldable pub get_ttl : ℤ → Bytes → Ssdb L → ℤ
  get_ttl time_ms key s = elim (zget L s list_name key) [
    | failed ↦ minus_one
    | missing ↦ minus_one
    | found score ↦
        let ex = (str_to_int64 score).0 in
        thousandth (i64 (sub_ℕ (pos_part ex + neg_part time_ms) (neg_part ex + pos_part time_ms)))
  ]

  module _ (I : Iterators L) where
    -- ExpirationHandler::load_expiration_keys_from_db
    unfoldable pub load_expiration_keys_from_db : ℕ → ExpirationHandler → Ssdb L → ExpirationHandler
    unfolding load_keys
    load_expiration_keys_from_db num h s =
        let it = zscan L I s list_name [] [] [] num in
        record h { fast_keys = load_keys (typed_all z_seen L I (suc num) it) h.fast_keys }

    -- The end of expire_loop: the first key, if it has expired.
    unfoldable pub expire_front : ℤ → ExpirationHandler → Ssdb L → ExpirationHandler × Ssdb L
    expire_front time_ms h s = elim (SortedSet.front h.fast_keys) [
      | none ↦ (h, s)
      | some item ↦
          let t = (Kv.del L item.key sync s).1 in
          let u = (zdel L list_name item.key sync t).1 in
          if leb_ℤ item.score time_ms
          then (
            record { first_timeout = item.score; fast_keys = (SortedSet.pop_front h.fast_keys).1 },
            u,
          )
          else (record h { first_timeout = item.score }, s)
    ]

    -- ExpirationHandler::expire_loop
    unfoldable pub expire_loop : ℤ → ExpirationHandler → Ssdb L → ExpirationHandler × Ssdb L
    unfolding expire_front load_expiration_keys_from_db
    expire_loop time_ms h s =
        let loaded =
          if is_empty_set h.fast_keys then load_expiration_keys_from_db batch_size h s else h in
        if is_empty_set loaded.fast_keys
        then (record loaded { first_timeout = int64_max }, s)
        else expire_front time_ms loaded s
