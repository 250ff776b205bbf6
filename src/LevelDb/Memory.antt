-- ===== src/LevelDb/Memory.antt =====
-- A database in memory, without I/O errors: the interface can be met, and tests run. It holds the
-- history of its updates.
use php.Prelude.{
  ◌≡◌, ◌≢◌, refl, true, Option, none, some, List, ◌++◌, arith, if◌then◌else◌, Bool-cases, inl, inr,
}
use php.Bytes.{Bytes, eqb}
use php.LevelDb.{LevelDb, Got, failed, missing, found, Update, updated}
use php.LevelDb.Laws.{reading, updated-append, IsHealthy}

abbrev pub content : List Update → Bytes → Option Bytes
content d k = updated d k none

pub found_lem : (o : Option Bytes) (v : Bytes) → reading o ≡ found v → o ≡ some v
found_lem o v h = ground arith

pub missing_lem : (o : Option Bytes) → reading o ≡ missing → o ≡ none
missing_lem o h = ground arith

not_failed : (o : Option Bytes) → reading o ≢ failed
not_failed o h = ground arith

abbrev pub memory : LevelDb
memory = record {
  Db = List Update;
  get = λ d k. reading (content d k);
  write = λ d b. (true, d ++ b);
  content = content;
  get_found = λ d k v h. found_lem (content d k) v h;
  get_missing = λ d k h. missing_lem (content d k) h;
  content-write = λ d b h k. updated-append d b k none;
}

pub memory-IsHealthy : (d : List Update) → IsHealthy memory d
memory-IsHealthy d = record { reads = λ k. not_failed (content d k); writes = λ b. refl }

-- The same database, except that every read of one key fails.
abbrev pub failing_get : Bytes → List Update → Bytes → Got Bytes
failing_get bad d k = if eqb bad k then failed else reading (content d k)

pub failing_found :
    (bad : Bytes) (d : List Update) (k v : Bytes)
    → failing_get bad d k ≡ found v
    → content d k ≡ some v
failing_found bad d k v h = elim (Bool-cases (eqb bad k)) [
  | inl e ↦ cc (rw e at h)
  | inr e ↦ found_lem (content d k) v (rw e at h)
]

pub failing_missing :
    (bad : Bytes) (d : List Update) (k : Bytes) → failing_get bad d k ≡ missing → content d k ≡ none
failing_missing bad d k h = elim (Bool-cases (eqb bad k)) [
  | inl e ↦ cc (rw e at h)
  | inr e ↦ missing_lem (content d k) (rw e at h)
]

abbrev pub failing : Bytes → LevelDb
failing bad = record {
  Db = List Update;
  get = failing_get bad;
  write = λ d b. (true, d ++ b);
  content = content;
  get_found = failing_found bad;
  get_missing = failing_missing bad;
  content-write = λ d b h k. updated-append d b k none;
}
