-- ===== src/Binlog.antt =====
-- ssdb/binlog.h and binlog.cpp: a log record, and the queue of log records with the batch of the
-- open transaction.
pub mod Record
pub mod Command
pub mod Pending
pub mod Log
pub mod Cleaner
pub mod CleanerLaws
pub mod SeqOrder
pub mod FindNext
mod CleanerTests
use php.Prelude.{ℕ, ◌+◌, ◌^◌, ◌%◌, ◌==◌, Bool, true, false, List, [], ◌∷◌, ◌++◌, if◌then◌else◌}
use php.Prelude.Int.{u64, ℤ, pos, negsuc}
use php.Bytes.{Bytes}
use php.Keys.{encode_seq_key}
use php.LevelDb.{LevelDb, Update, put, delete}
use php.Binlog.Record.{Binlog, repr}

-- The result -1 of the source.
abbrev pub minus_one : ℤ
minus_one = negsuc 0

-- Tests for -1.
abbrev pub is_minus_one : ℤ → Bool
is_minus_one (pos n) = false
is_minus_one (negsuc n) = n == 0

-- The fields of BinlogQueue. `db` is the database of the state, and the mutex is held from begin
-- to rollback, so that a transaction is one step.
pub record BinlogQueue : Type 0 where
  pub min_seq : ℕ
  pub last_seq : ℕ
  pub tran_seq : ℕ
  pub capacity : ℕ
  pub enabled : Bool
  pub batch : List Update

-- BinlogQueue::begin
unfoldable pub begin : BinlogQueue → BinlogQueue
begin q = record q { tran_seq = q.last_seq; batch = [] }

-- BinlogQueue::rollback
unfoldable pub rollback : BinlogQueue → BinlogQueue
rollback q = record q { tran_seq = 0 }

-- BinlogQueue::Put
unfoldable pub put_batch : BinlogQueue → Bytes → Bytes → BinlogQueue
put_batch q key value = record q { batch = q.batch ++ put key value ∷ [] }

-- BinlogQueue::Delete
unfoldable pub delete_batch : BinlogQueue → Bytes → BinlogQueue
delete_batch q key = record q { batch = q.batch ++ delete key ∷ [] }

-- BinlogQueue::add_log
unfoldable pub add_log : BinlogQueue → ℕ → ℕ → Bytes → BinlogQueue
add_log q type cmd key =
    if q.enabled
    then (let seq = u64 (q.tran_seq + 1) in
        record q {
          tran_seq = seq;
          batch = q.batch ++ put (encode_seq_key seq) (repr (Record.binlog seq type cmd key)) ∷ [];
        })
    else q

-- SSDBImpl: the database and the log queue.
pub record Ssdb (L : LevelDb) : Type 0 where
  pub db : L.Db
  pub logs : BinlogQueue

module _ (L : LevelDb) where
  -- BinlogQueue::commit: whether the write succeeded, and the state.
  unfoldable pub commit : Ssdb L → Bool × Ssdb L
  commit s =
      let (ok, d) = L.write s.db s.logs.batch in
      (
        ok,
        record s {
          db = d;
          logs = if ok then record s.logs { last_seq = s.logs.tran_seq; tran_seq = 0 } else s.logs;
        },
      )

  -- The end of the operations: commit, and the result where it succeeds.
  unfoldable pub commit_or_fail : ℤ → Ssdb L → ℤ × Ssdb L
  commit_or_fail r s = let (ok, t) = commit s in (if ok then r else minus_one, t)

  -- class Transaction: the constructor begins, and the destructor rolls back on every return.
  unfoldable pub transaction {ℓ} : {A : Type ℓ} → (Ssdb L → A × Ssdb L) → Ssdb L → A × Ssdb L
  transaction body s =
      let (r, t) = body (record s { logs = begin s.logs }) in
      (r, record t { logs = rollback t.logs })
