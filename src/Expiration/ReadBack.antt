-- ===== src/Expiration/ReadBack.antt =====
-- set_ttl, and what get_ttl answers later.
use php.Prelude.{ℕ, ◌+◌, ◌-◌, ◌*◌, ◌/◌, ◌^◌, ◌<◌, ◌≤◌, ◌≡◌, refl, ap, ◌∙◌, arith, length}
use php.Prelude.Int.{pos, i64, ◌+ℤ◌, sub_ℕ}
use php.Bytes.{Bytes}
use php.Strings.Number.{str, str_to_int64-str}
use php.Keys.Distinct.{eqb_refl}
use php.LevelDb.{LevelDb, found}
use php.LevelDb.Laws.{IsHealthy}
use php.Binlog.{Ssdb}
use php.Hash.Branches.{IsValid}
use php.Hash.Fields.{Fields, put, lookup-put}
use php.Zset.{zset, zget, filter_score}
use php.Zset.Model.{Holds}
use php.Zset.Refine.{zset-Holds, zget-Holds}
use php.Expiration.{
  ExpirationHandler, list_name, thousand_times, thousandth, sync, set_ttl, get_ttl,
}

-- The text that zset keeps for a score that is a number.
filter_score-str : (n : ℕ) → n < 2 ^ 63 → filter_score (str (pos n)) ≡ str (pos n)
unfolding filter_score
filter_score-str n b = ap (λ p. str p.0) (str_to_int64-str (pos n) (omega (arith, b), omega arith))

-- When a key expires that lives for ttl seconds.
expired_lem :
    (time ttl : ℕ)
    → time + ttl * 1000 < 2 ^ 63
    → i64 (pos time +ℤ thousand_times (pos ttl)) ≡ pos (time + ttl * 1000)
expired_lem time ttl b = ground (arith, b)

-- What is left, in seconds.
left_lem :
    (time ttl later : ℕ)
    → time + ttl * 1000 < 2 ^ 63
    → later ≤ ttl * 1000
    → thousandth (i64 (sub_ℕ (time + ttl * 1000 + 0) (0 + (time + later))))
      ≡ pos ((ttl * 1000 - later) / 1000)
left_lem time ttl later b le = ground (arith)

module _ (L : LevelDb) (healthy : (d : L.Db) → IsHealthy L d) (s : Ssdb L) (m : Fields)
    (key : Bytes) (valid : IsValid list_name key) (h : Holds (L.content s.db) list_name m)
    (room : length m + 1 < 2 ^ 63) where
  zget-zset :
      (n : ℕ)
      → n < 2 ^ 63
      → zget L (zset L list_name key (str (pos n)) sync s).1 list_name key ≡ found (str (pos n))
  zget-zset n b =
      let score = str (pos n) in
      let t = (zset L list_name key score sync s).1 in
      let after = (zset-Holds L s list_name m key score sync (healthy s.db) h valid room).1 in
      (zget-Holds L t list_name (put m key (filter_score score)) key (healthy t.db) after
        (omega (arith, valid.key_fits))).0
      ∙ rw (filter_score-str n b, lookup-put m key score key, eqb_refl key) refl

  set_ttl_lem :
      (time ttl : ℕ) (e : ExpirationHandler)
      → time + ttl * 1000 < 2 ^ 63
      → let done = set_ttl L (pos time) key (pos ttl) e s in
        (done.0 ≡ pos 0)
        × (done.2 ≡ (zset L list_name key (str (pos (time + ttl * 1000))) sync s).1)
  unfolding set_ttl
  set_ttl_lem time ttl e b =
      let score = str (pos (time + ttl * 1000)) in
      let ret = (zset-Holds L s list_name m key score sync (healthy s.db) h valid room).0 in
      rw (expired_lem time ttl b, ret) (refl, refl)

  get_ttl_lem :
      (time ttl later : ℕ) (t : Ssdb L)
      → time + ttl * 1000 < 2 ^ 63
      → later ≤ ttl * 1000
      → zget L t list_name key ≡ found (str (pos (time + ttl * 1000)))
      → get_ttl L (pos (time + later)) key t ≡ pos ((ttl * 1000 - later) / 1000)
  unfolding get_ttl
  get_ttl_lem time ttl later t b le e =
      rw (get_ttl, e, str_to_int64-str (pos (time + ttl * 1000)) (omega (arith, b), omega arith))
        (left_lem time ttl later b le)

-- Without I/O errors, where the list of expirations holds a sorted set and has room, set_ttl of a
-- key that is given and fits returns 0 and get_ttl, asked later but before the key expires,
-- answers the whole seconds that are left. The time of expiration must fit an int64_t.
pub get_ttl-set_ttl :
    (L : LevelDb) (s : Ssdb L) (m : Fields) (key : Bytes) (time ttl later : ℕ)
    (e : ExpirationHandler)
    → ((d : L.Db) → IsHealthy L d)
    → Holds (L.content s.db) list_name m
    → IsValid list_name key
    → length m + 1 < 2 ^ 63
    → time + ttl * 1000 < 2 ^ 63
    → later ≤ ttl * 1000
    → let done = set_ttl L (pos time) key (pos ttl) e s in
      (done.0 ≡ pos 0)
      × (get_ttl L (pos (time + later)) key done.2 ≡ pos ((ttl * 1000 - later) / 1000))
get_ttl-set_ttl L s m key time ttl later e healthy h valid room b le =
    let (ret, same) = set_ttl_lem L healthy s m key valid h room time ttl e b in
    let t = (set_ttl L (pos time) key (pos ttl) e s).2 in
    let at : zget L t list_name key ≡ found (str (pos (time + ttl * 1000))) =
      ap (λ u. zget L u list_name key) same
      ∙ zget-zset L healthy s m key valid h room (time + ttl * 1000) b in
    (ret, get_ttl_lem L healthy s m key valid h room time ttl later t b le at)
