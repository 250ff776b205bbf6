-- ===== src/Zset/Branches.antt =====
-- The branches of zset and zdel in t_zset.cpp.
use php.Prelude.{ℕ, ◌≡◌, refl, arith, false, true}
use php.Prelude.Int.{pos, negsuc}
use php.Bytes.{Bytes, eqb}
use php.LevelDb.{LevelDb, found, missing}
use php.Binlog.{Ssdb, commit_or_fail}
use php.Hash.Branches.{IsValid}
use php.Zset.{
  put_member, delete_score, delete_member, zget, incr_zsize, filter_score, zset_one, zset_write,
  zset_finish, zset_body, zdel_one, zdel_write, zdel_body,
}

module _ (L : LevelDb) (s : Ssdb L) (name k score : Bytes) (t : ℕ) (valid : IsValid name k) where
  pub zset_one_lem :
      zset_one L name k score t s ≡ zset_write L (zget L s name k) name k (filter_score score) t s
  unfolding zset_one
  zset_one_lem = ground (arith, valid.name_given, valid.key_given, valid.name_fits, valid.key_fits)

  zdel_one_lem : zdel_one L name k t s ≡ zdel_write L (zget L s name k) name k t s
  unfolding zdel_one
  zdel_one_lem = ground (arith, valid.name_fits, valid.key_fits)

  abbrev pub adding : Ssdb L
  adding = record s { logs = put_member s.logs name k (filter_score score) t }

  abbrev pub moving : Bytes → Ssdb L
  moving old = record s {
    logs = put_member (delete_score s.logs name k old) name k (filter_score score) t;
  }

  abbrev pub removing : Bytes → Ssdb L
  removing old = record s { logs = delete_member s.logs name k old t }

  pub zset_body-missing :
      zget L s name k ≡ missing
      → zset_body L name k score t s ≡ commit_or_fail L (pos 1) (incr_zsize L adding name (pos 1))
  unfolding zset_body zset_write zset_finish
  zset_body-missing e = rw (zset_body, zset_one_lem, e) refl

  pub zset_body-same :
      (old : Bytes)
      → zget L s name k ≡ found old
      → eqb old (filter_score score) ≡ true
      → zset_body L name k score t s ≡ commit_or_fail L (pos 0) s
  unfolding zset_body zset_write zset_finish
  zset_body-same old e f = rw (zset_body, zset_one_lem, e, f) refl

  pub zset_body-moved :
      (old : Bytes)
      → zget L s name k ≡ found old
      → eqb old (filter_score score) ≡ false
      → zset_body L name k score t s ≡ commit_or_fail L (pos 0) (moving old)
  unfolding zset_body zset_write zset_finish
  zset_body-moved old e f = rw (zset_body, zset_one_lem, e, f) refl

  pub zdel_body-missing :
      zget L s name k ≡ missing → zdel_body L name k t s ≡ commit_or_fail L (pos 0) s
  unfolding zdel_body zdel_write zset_finish
  zdel_body-missing e = rw (zdel_body, zdel_one_lem, e) refl

  pub zdel_body-found :
      (old : Bytes)
      → zget L s name k ≡ found old
      → zdel_body L name k t s
        ≡ commit_or_fail L (pos 1) (incr_zsize L (removing old) name (negsuc 0))
  unfolding zdel_body zdel_write zset_finish
  zdel_body-found old e = rw (zdel_body, zdel_one_lem, e) refl
