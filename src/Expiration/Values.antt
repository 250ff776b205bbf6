-- ===== src/Expiration/Values.antt =====
-- set_ttl, del_ttl and expire_loop, and the values of the keys.
use php.Prelude.{
  ◌≡◌, refl, ◌∙◌, Bool, true, false, ◌&&◌, Option, none, some, arith, if◌then◌else◌, Bool-cases,
  Option-cases, inl, inr,
}
use php.Prelude.Int.{ℤ, ◌+ℤ◌, i64, leb_ℤ}
use php.Bytes.{Bytes, eqb}
use php.Strings.Number.{str}
use php.Keys.{encode_kv_key}
use php.LevelDb.{LevelDb}
use php.LevelDb.Laws.{IsHealthy}
use php.LevelDb.Iterators.{Iterators}
use php.Binlog.{Ssdb}
use php.Kv
use php.Kv.Refine.{del-Represents}
use php.Zset.Frame.{zset-kv, zdel-kv}
use php.SortedSet
use php.SortedSet.{SortedSet, Item, is_empty_set}
use php.Expiration.{
  ExpirationHandler, batch_size, list_name, thousand_times, sync, set_ttl, del_ttl,
  load_expiration_keys_from_db, expire_front, expire_loop, int64_max,
}

-- The first key of the set is this one, and its time has come.
abbrev is_due : ℤ → Option Item → Bytes → Bool
is_due time_ms none j = false
is_due time_ms (some item) j = leb_ℤ item.score time_ms && eqb item.key j

abbrev pub has_expired : ℤ → SortedSet → Bytes → Bool
has_expired time_ms keys j = is_due time_ms (SortedSet.front keys) j

module _ (L : LevelDb) (j : Bytes) (healthy : (d : L.Db) → IsHealthy L d) where
  del-kv :
      (key : Bytes) (s : Ssdb L)
      → L.content (Kv.del L key sync s).1.db (encode_kv_key j)
        ≡ (if eqb key j then none else L.content s.db (encode_kv_key j))
  del-kv key s =
      (del-Represents L sync s (healthy s.db) (λ i. L.content s.db (encode_kv_key i)) (λ i. refl)
          key).1
        j

  module _ (I : Iterators L) (time_ms : ℤ) where
    front-kv :
        (h : ExpirationHandler) (s : Ssdb L)
        → L.content (expire_front L I time_ms h s).1.db (encode_kv_key j)
          ≡ (if has_expired time_ms h.fast_keys j then none else L.content s.db (encode_kv_key j))
    unfolding expire_front
    front-kv h s = elim (Option-cases (SortedSet.front h.fast_keys)) [
      | inl e ↦ rw (expire_front, e) refl
      | inr (x, e) ↦ elim (Bool-cases (leb_ℤ x.score time_ms)) [
        | inl y ↦
            let t = (Kv.del L x.key sync s).1 in
            rw (expire_front, e, y) (zdel-kv L j list_name x.key healthy sync t ∙ del-kv x.key s)
        | inr y ↦ rw (expire_front, e, y) refl
      ]
    ]

    empty_expired :
        (keys : SortedSet) → is_empty_set keys ≡ true → has_expired time_ms keys j ≡ false
    unfolding SortedSet.front
    empty_expired keys e = ground (arith)

    -- expire_loop after the keys are loaded.
    loaded-kv :
        (h : ExpirationHandler) (s : Ssdb L)
        → L.content
            (if is_empty_set h.fast_keys
              then (record h { first_timeout = int64_max }, s)
              else expire_front L I time_ms h s).1.db
            (encode_kv_key j)
          ≡ (if has_expired time_ms h.fast_keys j then none else L.content s.db (encode_kv_key j))
    loaded-kv h s = elim (Bool-cases (is_empty_set h.fast_keys)) [
      | inl e ↦ rw (e, empty_expired h.fast_keys e) refl
      | inr e ↦ rw e (front-kv h s)
    ]

    set_ttl-kv :
        (key : Bytes) (ttl : ℤ) (h : ExpirationHandler) (s : Ssdb L)
        → L.content (set_ttl L time_ms key ttl h s).2.db (encode_kv_key j)
          ≡ L.content s.db (encode_kv_key j)
    unfolding set_ttl
    set_ttl-kv key ttl h s =
        let expired = str (i64 (time_ms +ℤ thousand_times ttl)) in
        ground (arith, zset-kv L j list_name key healthy expired sync s)

    del_ttl-kv :
        (key : Bytes) (h : ExpirationHandler) (s : Ssdb L)
        → L.content (del_ttl L key h s).2.db (encode_kv_key j) ≡ L.content s.db (encode_kv_key j)
    unfolding del_ttl
    del_ttl-kv key h s = ground (arith, zdel-kv L j list_name key healthy sync s)

-- Without I/O errors, set_ttl and del_ttl change no value. expire_loop deletes the value of the
-- key that comes first in the set of those that expire, where its time has come, and it changes no
-- other value; the set is fast_keys, or what load_expiration_keys_from_db makes of it where it is
-- empty.
pub expire_loop-values :
    (L : LevelDb) (I : Iterators L) (time_ms ttl : ℤ) (key j : Bytes) (h : ExpirationHandler)
    (s : Ssdb L)
    → ((d : L.Db) → IsHealthy L d)
    → let value : Ssdb L → Option Bytes = λ t. L.content t.db (encode_kv_key j) in
      let m = load_expiration_keys_from_db L I batch_size h s in
      let keys = (if is_empty_set h.fast_keys then m else h).fast_keys in
      (value (set_ttl L time_ms key ttl h s).2 ≡ value s)
      × (value (del_ttl L key h s).2 ≡ value s)
      × (value (expire_loop L I time_ms h s).1
          ≡ (if has_expired time_ms keys j then none else value s))
unfolding expire_loop
expire_loop-values L I time_ms ttl key j h s healthy =
    let m = load_expiration_keys_from_db L I batch_size h s in
    let start : ExpirationHandler = if is_empty_set h.fast_keys then m else h in
    (
      set_ttl-kv L j healthy I time_ms key ttl h s,
      del_ttl-kv L j healthy I time_ms key h s,
      loaded-kv L j healthy I time_ms start s,
    )
