-- ===== src/Queue/Commit.antt =====
-- Reads do not depend on the batch of the open transaction.
use php.Prelude.{ℕ, ◌≡◌, refl}
use php.Bytes.{Bytes}
use php.LevelDb.{LevelDb}
use php.Binlog.{BinlogQueue, Ssdb}
pub use php.Binlog.Pending.{commit_or_fail-result, commit_or_fail-content}
use php.Queue.{qget_by_seq, qget_uint64, qsize}

module _ (L : LevelDb) (s : Ssdb L) (name : Bytes) where
  pub qsize-logs : (q : BinlogQueue) → qsize L (record s { logs = q }) name ≡ qsize L s name
  unfolding qsize
  qsize-logs q = refl

  pub qget_uint64-logs :
      (q : BinlogQueue) (seq : ℕ)
      → qget_uint64 L (record s { logs = q }) name seq ≡ qget_uint64 L s name seq
  unfolding qget_uint64
  qget_uint64-logs q seq = refl

  pub qget_by_seq-logs :
      (q : BinlogQueue) (seq : ℕ)
      → qget_by_seq L (record s { logs = q }) name seq ≡ qget_by_seq L s name seq
  unfolding qget_by_seq
  qget_by_seq-logs q seq = refl
