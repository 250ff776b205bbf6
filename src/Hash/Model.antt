-- ===== src/Hash/Model.antt =====
-- When a database holds a hash, and what the batches of t_hash.cpp make of it.
use php.Prelude.{
  ℕ, suc, ◌+◌, ◌^◌, ◌<◌, ◌≡◌, refl, ap, ◌∙◌, Option, none, some, ◌∷◌, arith, length, if◌then◌else◌,
}
use php.Prelude.Int.{ℤ, pos, negsuc}
use php.Bytes.{Bytes, eqb}
use php.Keys.{encode_hsize_key, encode_hash_key}
use php.Keys.Distinct.{eqb-cons, eqb-prefix, eqb_head}
use php.LevelDb.{LevelDb}
use php.LevelDb.Laws.{IsHealthy, reading, get-content}
use php.Binlog.{BinlogQueue, Ssdb, put_batch, delete_batch}
use php.Binlog.Command
use php.Binlog.Pending.{
  pending, pending-put, pending-delete, pending-add_log, hash-IsData, hsize-IsData,
}
pub use php.SizeRecord.Laws.{size_record}
use php.SizeRecord.Laws.{read_size_lem, incr_size-up, incr_size-down, incr_size-other}
use php.Hash.{put_field, delete_field, hsize, hget, incr_hsize}
use php.Hash.Fields.{Fields, lookup, AreDistinct}

-- A database with content `c` holds under the name a hash of the fields m.
pub record Holds (c : Bytes → Option Bytes) (name : Bytes) (m : Fields) : Type 0 where
  pub distinct : AreDistinct m
  pub bounded : length m < 2 ^ 63
  pub fields : (k : Bytes) → c (encode_hash_key name k) ≡ lookup m k
  pub size : c (encode_hsize_key name) ≡ size_record (length m)

pub eqb-hash_key : (n k j : Bytes) → eqb (encode_hash_key n k) (encode_hash_key n j) ≡ eqb k j
eqb-hash_key n k j =
    eqb-cons _ _ _ ∙ eqb-cons _ _ _ ∙ eqb-prefix n (b'=' ∷ k) (b'=' ∷ j) ∙ eqb-cons _ _ _

module _ (q : BinlogQueue) (n k v : Bytes) (t : ℕ) where
  pub put_field-field :
      (j : Bytes) (o : Option Bytes)
      → pending (put_field q n k v t) (encode_hash_key n j) o
        ≡ (if eqb k j then some v else pending q (encode_hash_key n j) o)
  unfolding put_field
  put_field-field j o =
      pending-add_log (put_batch q (encode_hash_key n k) v) t Command.hset (encode_hash_key n k)
        (encode_hash_key n j) o (hash-IsData n j)
      ∙ pending-put q (encode_hash_key n k) v (encode_hash_key n j) o
      ∙ ap (λ b. if b then some v else pending q (encode_hash_key n j) o) (eqb-hash_key n k j)

  pub put_field-size :
      (o : Option Bytes)
      → pending (put_field q n k v t) (encode_hsize_key n) o ≡ pending q (encode_hsize_key n) o
  unfolding put_field
  put_field-size o =
      pending-add_log (put_batch q (encode_hash_key n k) v) t Command.hset (encode_hash_key n k)
        (encode_hsize_key n) o (hsize-IsData n)
      ∙ pending-put q (encode_hash_key n k) v (encode_hsize_key n) o
      ∙ ap (λ b. if b then some v else pending q (encode_hsize_key n) o)
          (eqb_head _ _ _ _ (omega arith))

module _ (q : BinlogQueue) (n k : Bytes) (t : ℕ) where
  pub delete_field-field :
      (j : Bytes) (o : Option Bytes)
      → pending (delete_field q n k t) (encode_hash_key n j) o
        ≡ (if eqb k j then none else pending q (encode_hash_key n j) o)
  unfolding delete_field
  delete_field-field j o =
      pending-add_log (delete_batch q (encode_hash_key n k)) t Command.hdel (encode_hash_key n k)
        (encode_hash_key n j) o (hash-IsData n j)
      ∙ pending-delete q (encode_hash_key n k) (encode_hash_key n j) o
      ∙ ap (λ b. if b then none else pending q (encode_hash_key n j) o) (eqb-hash_key n k j)

module _ (L : LevelDb) (s : Ssdb L) (healthy : IsHealthy L s.db) (name : Bytes) where
  pub hsize_lem :
      (n : ℕ)
      → n < 2 ^ 63
      → L.content s.db (encode_hsize_key name) ≡ size_record n
      → hsize L s name ≡ pos n
  unfolding hsize
  hsize_lem n h e = read_size_lem L s (encode_hsize_key name) healthy n h e

  pub hget_lem : (k : Bytes) → hget L s name k ≡ reading (L.content s.db (encode_hash_key name k))
  unfolding hget
  hget_lem k = get-content L healthy (encode_hash_key name k)

-- What incr_hsize does to the batch.
module _ (L : LevelDb) (s : Ssdb L) (name : Bytes) where
  pub incr_hsize-up :
      (n : ℕ) (o : Option Bytes)
      → hsize L s name ≡ pos n
      → n + 1 < 2 ^ 63
      → pending (incr_hsize L s name (pos 1)).logs (encode_hsize_key name) o ≡ size_record (n + 1)
  unfolding incr_hsize hsize
  incr_hsize-up n o at h = incr_size-up L s (encode_hsize_key name) n o at h

  pub incr_hsize-down :
      (n : ℕ) (o : Option Bytes)
      → hsize L s name ≡ pos (suc n)
      → suc n < 2 ^ 63
      → pending (incr_hsize L s name (negsuc 0)).logs (encode_hsize_key name) o ≡ size_record n
  unfolding incr_hsize hsize
  incr_hsize-down n o at h = incr_size-down L s (encode_hsize_key name) n o at h

  pub incr_hsize-field :
      (z : ℤ) (j : Bytes) (o : Option Bytes)
      → pending (incr_hsize L s name z).logs (encode_hash_key name j) o
        ≡ pending s.logs (encode_hash_key name j) o
  unfolding incr_hsize
  incr_hsize-field z j o =
      incr_size-other L s (encode_hsize_key name) z (encode_hash_key name j) o
        (eqb_head _ _ _ _ (omega arith))

  pub incr_hsize-db : (z : ℤ) → (incr_hsize L s name z).db ≡ s.db
  unfolding incr_hsize
  incr_hsize-db z = refl
