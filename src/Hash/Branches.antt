-- ===== src/Hash/Branches.antt =====
-- The branches of hset and hdel in t_hash.cpp.
use php.Prelude.{ℕ, ◌≤◌, ◌≡◌, refl, false, arith, length, if◌then◌else◌}
use php.Prelude.Int.{pos, negsuc}
use php.Bytes.{Bytes, eqb, is_empty}
use php.LevelDb.{LevelDb, found, missing}
use php.Binlog.{Ssdb, commit_or_fail}
use php.Hash.{
  put_field, delete_field, hget, incr_hsize, hset_one, hset_write, hdel_one, hdel_write,
  hash_finish, hset_body, hdel_body, key_len_max,
}

-- The names and keys that hset and hdel take.
pub record IsValid (name key : Bytes) : Type 0 where
  pub name_given : is_empty name ≡ false
  pub key_given : is_empty key ≡ false
  pub name_fits : length name ≤ key_len_max
  pub key_fits : length key ≤ key_len_max

module _ (L : LevelDb) (s : Ssdb L) (name k v : Bytes) (t : ℕ) (valid : IsValid name k) where
  hset_one_lem : hset_one L name k v t s ≡ hset_write L (hget L s name k) name k v t s
  unfolding hset_one
  hset_one_lem = ground (arith, valid.name_given, valid.key_given, valid.name_fits, valid.key_fits)

  hdel_one_lem : hdel_one L name k t s ≡ hdel_write L (hget L s name k) name k t s
  unfolding hdel_one
  hdel_one_lem = ground (arith, valid.name_fits, valid.key_fits)

-- The branches of hset and hdel, by what is read.
module _ (L : LevelDb) (s : Ssdb L) (name k v : Bytes) (t : ℕ) (valid : IsValid name k) where
  abbrev pub putting : Ssdb L
  putting = record s { logs = put_field s.logs name k v t }

  abbrev pub deleting : Ssdb L
  deleting = record s { logs = delete_field s.logs name k t }

  pub hset_body-missing :
      hget L s name k ≡ missing
      → hset_body L name k v t s ≡ commit_or_fail L (pos 1) (incr_hsize L putting name (pos 1))
  unfolding hset_body hset_write hash_finish
  hset_body-missing e = rw (hset_body, hset_one_lem L s name k v t valid, e) refl

  pub hset_body-found :
      (old : Bytes)
      → hget L s name k ≡ found old
      → hset_body L name k v t s ≡ commit_or_fail L (pos 0) (if eqb old v then s else putting)
  unfolding hset_body hset_write hash_finish
  hset_body-found old e = rw (hset_body, hset_one_lem L s name k v t valid, e) refl

  pub hdel_body-missing :
      hget L s name k ≡ missing → hdel_body L name k t s ≡ commit_or_fail L (pos 0) s
  unfolding hdel_body hdel_write hash_finish
  hdel_body-missing e = rw (hdel_body, hdel_one_lem L s name k v t valid, e) refl

  pub hdel_body-found :
      (old : Bytes)
      → hget L s name k ≡ found old
      → hdel_body L name k t s ≡ commit_or_fail L (pos 1) (incr_hsize L deleting name (negsuc 0))
  unfolding hdel_body hdel_write hash_finish
  hdel_body-found old e = rw (hdel_body, hdel_one_lem L s name k v t valid, e) refl
