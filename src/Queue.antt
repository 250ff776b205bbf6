-- ===== src/Queue.antt =====
-- ssdb/t_queue.h and t_queue.cpp: queues over the database. A queue has its size, its first and
-- its last sequence number, and an item under each sequence number between them.
-- The helpers that only add to the batch (qset_one, qdel_one) always return 0 in the source, so
-- the tests of their result are left out here.
use php.Prelude.{
  ℕ, zero, suc, ◌+◌, ◌-◌, ◌^◌, ◌%◌, ◌/◌, Bool, true, false, ◌||◌, not, Option, none, some, List, [],
  ◌∷◌, ◌++◌, length, ltb, leb, ◌==◌, if◌then◌else◌,
}
use php.Prelude.Int.{ℤ, pos, negsuc, ◌+ℤ◌, leb_ℤ, ltb_ℤ, u64, i64, signed64, word64}
use php.Bytes.{Bytes}
use php.Bytes.Words.{u64_bytes, le_word}
use php.Keys.{encode_qsize_key, encode_qitem_key}
use php.LevelDb.{LevelDb, Got, failed, missing, found}
use php.Binlog.{BinlogQueue, Ssdb, put_batch, delete_batch, add_log, commit, transaction}
pub mod Const
pub mod Pop
pub mod Access
pub mod Model
pub mod Size
pub mod Commit
pub mod Push
pub mod PushModel
pub mod Atomic
pub mod Take
pub mod PopModel
pub mod First
pub mod Deque
pub mod Run
pub mod AccessModel
pub mod SetModel
pub mod Frame
mod Tests
pub use php.Binlog.{minus_one, is_minus_one, commit_or_fail}
use Const.{qfront_seq, qback_seq, qitem_min_seq, qitem_max_seq, qitem_seq_init}
use php.Binlog.Command

abbrev word_of : Bytes → Got ℕ
word_of val = if length val == 8 then found (le_word val) else failed

-- qdel_one
unfoldable pub qdel_one : BinlogQueue → Bytes → ℕ → BinlogQueue
qdel_one q name seq = delete_batch q (encode_qitem_key name seq)

-- qset_one
unfoldable pub qset_one : BinlogQueue → Bytes → ℕ → Bytes → BinlogQueue
qset_one q name seq item = put_batch q (encode_qitem_key name seq) item

module _ (L : LevelDb) where
  -- qget_by_seq: missing, failed and found are the results 0, -1 and 1.
  unfoldable pub qget_by_seq : Ssdb L → Bytes → ℕ → Got Bytes
  qget_by_seq s name seq = L.get s.db (encode_qitem_key name seq)

  -- qget_uint64. The output is 0 where the item is missing.
  unfoldable pub qget_uint64 : Ssdb L → Bytes → ℕ → Got ℕ
  unfolding qget_by_seq
  qget_uint64 s name seq = elim (qget_by_seq s name seq) [
    | failed ↦ failed
    | missing ↦ missing
    | found val ↦ word_of val
  ]

  -- SSDBImpl::qsize
  unfoldable pub qsize : Ssdb L → Bytes → ℤ
  qsize s name = elim (L.get s.db (encode_qsize_key name)) [
    | failed ↦ minus_one
    | missing ↦ pos 0
    | found val ↦ if length val == 8 then signed64 (le_word val) else minus_one
  ]

  -- incr_qsize: the new size, and the batch.
  unfoldable pub incr_qsize : Ssdb L → Bytes → ℤ → ℤ × Ssdb L
  unfolding qdel_one
  incr_qsize s name incr =
      let old = qsize s name in
      let size = i64 (old +ℤ incr) in
      if is_minus_one old
      then (minus_one, s)
      else if leb_ℤ size (pos 0)
      then (
        size,
        record s {
          logs =
              qdel_one (qdel_one (delete_batch s.logs (encode_qsize_key name)) name qfront_seq) name
                qback_seq;
        },
      )
      else (
        size,
        record s { logs = put_batch s.logs (encode_qsize_key name) (u64_bytes (word64 size)) },
      )

  -- _qpush after the ends are set: the bound, the item, the log, the size.
  unfoldable pub qpush_item : Bytes → Bytes → ℕ → ℕ → ℕ → Ssdb L → ℤ × Ssdb L
  qpush_item name item side log_type seq s =
      if leb seq qitem_min_seq || leb qitem_max_seq seq
      then (minus_one, s)
      else (let q = qset_one s.logs name seq item in
          let cmd = if side == qfront_seq then Command.qpush_front else Command.qpush_back in
          let logged = add_log q log_type cmd (encode_qitem_key name seq) in
          let (size, t) = incr_qsize (record s { logs = logged }) name (pos 1) in
          if is_minus_one size then (minus_one, t) else commit_or_fail L size t)

  -- The sequence number next to seq, outwards from the side.
  abbrev pub seq_outwards : ℕ → ℕ → ℕ
  seq_outwards side seq = if side == qfront_seq then u64 (seq + (2 ^ 64 - 1)) else u64 (seq + 1)

  -- The sequence number next to seq, inwards from the side.
  abbrev pub seq_inwards : ℕ → ℕ → ℕ
  seq_inwards side seq = if side == qfront_seq then u64 (seq + 1) else u64 (seq + (2 ^ 64 - 1))

  -- _qpush after the end on its side is read: a queue that is missing starts in the middle.
  unfoldable pub qpush_from : Got ℕ → Bytes → Bytes → ℕ → ℕ → Ssdb L → ℤ × Ssdb L
  qpush_from failed name item side log_type s = (minus_one, s)
  qpush_from missing name item side log_type s =
      let seq = u64_bytes qitem_seq_init in
      let q = qset_one (qset_one s.logs name qfront_seq seq) name qback_seq seq in
      qpush_item name item side log_type qitem_seq_init (record s { logs = q })
  qpush_from (found end) name item side log_type s =
      let seq = seq_outwards side end in
      let q = qset_one s.logs name side (u64_bytes seq) in
      qpush_item name item side log_type seq (record s { logs = q })

  -- SSDBImpl::_qpush, inside its transaction.
  unfoldable pub qpush_body : Bytes → Bytes → ℕ → ℕ → Ssdb L → ℤ × Ssdb L
  qpush_body name item side log_type s =
      qpush_from (qget_uint64 s name side) name item side log_type s

  -- SSDBImpl::_qpush
  unfoldable pub qpush : Bytes → Bytes → ℕ → ℕ → Ssdb L → ℤ × Ssdb L
  qpush name item side log_type = transaction L (qpush_body name item side log_type)

  unfoldable pub qpush_front : Bytes → Bytes → ℕ → Ssdb L → ℤ × Ssdb L
  qpush_front name item log_type = qpush name item qfront_seq log_type

  unfoldable pub qpush_back : Bytes → Bytes → ℕ → Ssdb L → ℤ × Ssdb L
  qpush_back name item log_type = qpush name item qback_seq log_type
