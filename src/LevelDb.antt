-- ===== src/LevelDb.antt =====
-- What SSDB uses of leveldb (ssdb-master/deps, not modelled), as an interface. `content` is what
-- the database holds; it is read only by the laws. The laws are leveldb's documentation: a read
-- that succeeds tells what is held, and a write that succeeds applies its batch, in order, whole.
pub mod Memory
pub mod Laws
pub mod Iterators
pub mod Ordered
pub mod SortedMemory
use php.Prelude.{ℕ, ◌≡◌, Bool, true, Option, none, some, List, [], ◌∷◌, if◌then◌else◌}
use php.Bytes.{Bytes, eqb}

-- leveldb::Status of a read and the value read: IsNotFound() is `missing`, !ok() is `failed`.
pub data Got {ℓ} (A : Type ℓ) : Type ℓ where
  failed missing : Got A
  found : A → Got A

-- An entry of leveldb::WriteBatch.
pub data Update : Type 0 where
  put : Bytes → Bytes → Update
  delete : Bytes → Update

-- What a key holds after a batch, from what it held.
abbrev pub updated_one : Update → Bytes → Option Bytes → Option Bytes
updated_one (put j v) k o = if eqb j k then some v else o
updated_one (delete j) k o = if eqb j k then none else o

abbrev pub updated : List Update → Bytes → Option Bytes → Option Bytes
updated [] k o = o
updated (u ∷ b) k o = updated b k (updated_one u k o)

pub record LevelDb : Type 1 where
  pub Db : Type 0
  -- DB::Get
  pub get : Db → Bytes → Got Bytes
  -- DB::Write: whether the status is ok, and the database afterwards.
  pub write : Db → List Update → Bool × Db
  pub content : Db → Bytes → Option Bytes
  pub get_found : (d : Db) (k v : Bytes) → get d k ≡ found v → content d k ≡ some v
  pub get_missing : (d : Db) (k : Bytes) → get d k ≡ missing → content d k ≡ none
  pub content-write :
      (d : Db) (b : List Update)
      → (write d b).0 ≡ true
      → (k : Bytes) → content (write d b).1 k ≡ updated b k (content d k)
