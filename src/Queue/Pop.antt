-- ===== src/Queue/Pop.antt =====
-- ssdb/t_queue.cpp: taking an item off either end.
use php.Prelude.{ℕ, Option, none, some, ◌==◌, if◌then◌else◌}
use php.Prelude.Int.{ℤ, pos, negsuc, ltb_ℤ}
use php.Bytes.{Bytes}
use php.Bytes.Words.{u64_bytes}
use php.LevelDb.{LevelDb, Got, failed, missing, found}
use php.Binlog.{Ssdb, add_log, transaction}
use php.Binlog.Command
use php.Queue.{
  minus_one, is_minus_one, qdel_one, qset_one, qget_by_seq, qget_uint64, incr_qsize, commit_or_fail,
  seq_inwards,
}
use php.Queue.Const.{qfront_seq, qback_seq}

module _ (L : LevelDb) where
  -- _qpop after the size is updated: the end is moved where items are left.
  unfoldable pub qpop_finish : Bytes → ℕ → ℕ → ℤ → Ssdb L → ℤ × Ssdb L
  qpop_finish name side seq size s =
      if ltb_ℤ (pos 0) size
      then commit_or_fail L (pos 1)
          (record s { logs = qset_one s.logs name side (u64_bytes (seq_inwards L side seq)) })
      else commit_or_fail L (pos 1) s

  -- _qpop after the item at the end is read. The output `*item` is what was read, whatever the
  -- result.
  unfoldable pub qpop_item : Got Bytes → Bytes → ℕ → ℕ → ℕ → Ssdb L → (ℤ × Option Bytes) × Ssdb L
  qpop_item failed name side log_type seq s = ((minus_one, none), s)
  qpop_item missing name side log_type seq s = ((pos 0, none), s)
  qpop_item (found item) name side log_type seq s =
      let deleted = qdel_one s.logs name seq in
      let cmd = if side == qfront_seq then Command.qpop_front else Command.qpop_back in
      let (size, t) =
        incr_qsize L (record s { logs = add_log deleted log_type cmd name }) name (negsuc 0) in
      if is_minus_one size
      then ((minus_one, some item), t)
      else (let (r, u) = qpop_finish name side seq size t in ((r, some item), u))

  -- _qpop after the end on its side is read.
  unfoldable pub qpop_from : Got ℕ → Bytes → ℕ → ℕ → Ssdb L → (ℤ × Option Bytes) × Ssdb L
  qpop_from failed name side log_type s = ((minus_one, none), s)
  qpop_from missing name side log_type s = ((pos 0, none), s)
  qpop_from (found seq) name side log_type s =
      qpop_item (qget_by_seq L s name seq) name side log_type seq s

  -- SSDBImpl::_qpop, inside its transaction.
  unfoldable pub qpop_body : Bytes → ℕ → ℕ → Ssdb L → (ℤ × Option Bytes) × Ssdb L
  qpop_body name side log_type s = qpop_from (qget_uint64 L s name side) name side log_type s

  -- SSDBImpl::_qpop
  unfoldable pub qpop : Bytes → ℕ → ℕ → Ssdb L → (ℤ × Option Bytes) × Ssdb L
  qpop name side log_type = transaction L (qpop_body name side log_type)

  unfoldable pub qpop_front : Bytes → ℕ → Ssdb L → (ℤ × Option Bytes) × Ssdb L
  qpop_front name log_type = qpop name qfront_seq log_type

  unfoldable pub qpop_back : Bytes → ℕ → Ssdb L → (ℤ × Option Bytes) × Ssdb L
  qpop_back name log_type = qpop name qback_seq log_type
