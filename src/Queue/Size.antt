-- ===== src/Queue/Size.antt =====
-- What incr_qsize does to the batch.
use php.Prelude.{ℕ, suc, ◌+◌, ◌^◌, ◌<◌, ◌≡◌, arith}
use php.Prelude.Int.{pos, negsuc}
use php.Bytes.{Bytes}
use php.Bytes.Words.{u64_bytes}
use php.Keys.{encode_qsize_key}
use php.LevelDb.{LevelDb}
use php.Binlog.{Ssdb, put_batch, delete_batch}
use php.Queue.{qsize, incr_qsize, qdel_one}
use php.Queue.Const.{qfront_seq, qback_seq}

module _ (L : LevelDb) (s : Ssdb L) (name : Bytes) where
  pub incr_qsize_up :
      (n : ℕ)
      → qsize L s name ≡ pos n
      → n + 1 < 2 ^ 63
      → incr_qsize L s name (pos 1) ≡ (
        pos (n + 1),
        record s { logs = put_batch s.logs (encode_qsize_key name) (u64_bytes (n + 1)) },
      )
  unfolding incr_qsize
  incr_qsize_up n e h = rw e ground arith

  pub incr_qsize_down :
      (n : ℕ)
      → qsize L s name ≡ pos (suc (suc n))
      → suc (suc n) < 2 ^ 63
      → incr_qsize L s name (negsuc 0) ≡ (
        pos (suc n),
        record s { logs = put_batch s.logs (encode_qsize_key name) (u64_bytes (suc n)) },
      )
  unfolding incr_qsize
  incr_qsize_down n e h = rw e ground arith

  pub incr_qsize_last :
      qsize L s name ≡ pos 1
      → incr_qsize L s name (negsuc 0) ≡ (
        pos 0,
        record s {
          logs =
              qdel_one
                (qdel_one (delete_batch s.logs (encode_qsize_key name)) name qfront_seq)
                name
                qback_seq;
        },
      )
  unfolding incr_qsize
  incr_qsize_last e = rw e ground arith
