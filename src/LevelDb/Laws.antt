-- ===== src/LevelDb/Laws.antt =====
-- Reads and writes of a database without I/O errors.
use php.Prelude.{◌≡◌, ◌≢◌, refl, true, Option, none, some, List, [], ◌∷◌, ◌++◌}
use php.Bytes.{Bytes}
use php.LevelDb.{LevelDb, Got, failed, missing, found, Update, updated, updated_one}

-- No read of the database fails, and no write to it.
pub record IsHealthy (L : LevelDb) (d : L.Db) : Type 0 where
  pub reads : (k : Bytes) → L.get d k ≢ failed
  pub writes : (b : List Update) → (L.write d b).0 ≡ true

abbrev pub reading : Option Bytes → Got Bytes
reading none = missing
reading (some v) = found v

get_cases :
    (g : Got Bytes) (o : Option Bytes)
    → g ≢ failed
    → (g ≡ missing → o ≡ none)
    → ((v : Bytes) → g ≡ found v → o ≡ some v)
    → g ≡ reading o
get_cases failed o h m f = absurd (h refl)
get_cases missing o h m f = let e : o ≡ none = m refl in rw e
get_cases (found v) o h m f = let e : o ≡ some v = f v refl in rw e

-- A read of a healthy database answers what it holds.
pub get-content :
    (L : LevelDb) {d : L.Db} → IsHealthy L d → (k : Bytes) → L.get d k ≡ reading (L.content d k)
get-content L {d} h k =
    get_cases (L.get d k) (L.content d k) (h.reads k) (L.get_missing d k) (L.get_found d k)

pub updated-append :
    (b c : List Update) (k : Bytes) (o : Option Bytes)
    → updated (b ++ c) k o ≡ updated c k (updated b k o)
updated-append [] c k o = refl
updated-append (u ∷ b) c k o = updated-append b c k (updated_one u k o)
