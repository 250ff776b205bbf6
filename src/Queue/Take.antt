-- ===== src/Queue/Take.antt =====
-- What a pop leaves under each key, where items are left and where none is.
use php.Prelude.{ℕ, suc, ◌^◌, ◌<◌, ◌≡◌, ◌∙◌, none, some, arith, ◌==◌, if◌then◌else◌}
use php.Prelude.Int.{pos}
use php.Bytes.{Bytes, eqb}
use php.Bytes.Words.{u64_bytes}
use php.Keys.{encode_qsize_key, encode_qitem_key}
use php.Keys.Distinct.{eqb_refl, eqb-qitem_self, eqb-qsize-qitem, eqb-qitem-qsize}
use php.LevelDb.{LevelDb, found}
use php.LevelDb.Laws.{IsHealthy}
use php.Binlog.{BinlogQueue, Ssdb, begin, put_batch, delete_batch, add_log, transaction}
use php.Binlog.Command
use php.Binlog.Pending.{
  IsData, qsize-IsData, qitem-IsData, pending-begin, pending-put, pending-delete, pending-add_log,
}
use php.Queue.{qset_one, qdel_one, qsize, qget_uint64, qget_by_seq, commit_or_fail, seq_inwards}
use php.Queue.Const.{qfront_seq, qback_seq}
use php.Queue.Commit.{
  qsize-logs, commit_or_fail-result, commit_or_fail-content, qget_uint64-logs, qget_by_seq-logs,
}
use php.Queue.Pop.{qpop, qpop_body, qpop_from, qpop_item, qpop_finish}
use php.Queue.Model.{IsVacant}
use php.Queue.Size.{incr_qsize_down, incr_qsize_last}

module _ (L : LevelDb) (s : Ssdb L) (healthy : IsHealthy L s.db) (name item : Bytes)
    (side ty end : ℕ) (at_side : qget_uint64 L s name side ≡ found end)
    (at_end : qget_by_seq L s name end ≡ found item) where
  abbrev cmd : ℕ
  cmd = if side == qfront_seq then Command.qpop_front else Command.qpop_back

  -- The batch with the item's deletion and the log record.
  abbrev logged : BinlogQueue
  logged = add_log (qdel_one (begin s.logs) name end) ty cmd name

  module _ (n : ℕ) (size : qsize L s name ≡ pos (suc (suc n))) (fits : suc (suc n) < 2 ^ 63) where
    -- The batch where items are left.
    abbrev moved : BinlogQueue
    moved =
        qset_one (put_batch logged (encode_qsize_key name) (u64_bytes (suc n))) name side
          (u64_bytes (seq_inwards L side end))

    finish : Ssdb L
    finish = (commit_or_fail L (pos 1) (record s { logs = moved })).1

    pub qpop_lem : (qpop L name side ty s).0 ≡ (pos 1, some item)
    unfolding qpop qpop_body qpop_from qpop_item qpop_finish transaction
    qpop_lem = ground (
      arith,
      qget_uint64-logs L s name (begin s.logs) side,
      qget_by_seq-logs L s name (begin s.logs) end,
      incr_qsize_down L (record s { logs = logged }) name n (qsize-logs L s name logged ∙ size)
          fits,
      commit_or_fail-result L (pos 1) (record s { logs = moved }) healthy,
    )

    qpop-db : (qpop L name side ty s).1.db ≡ finish.db
    unfolding qpop qpop_body qpop_from qpop_item qpop_finish transaction finish
    qpop-db = ground (
      arith,
      qget_uint64-logs L s name (begin s.logs) side,
      qget_by_seq-logs L s name (begin s.logs) end,
      incr_qsize_down L (record s { logs = logged }) name n (qsize-logs L s name logged ∙ size)
          fits,
    )

    -- The end on the side moves inwards, the size falls, and the item goes.
    pub qpop-content :
        (k : Bytes)
        → IsData k
        → L.content (qpop L name side ty s).1.db k ≡ (
            if eqb (encode_qitem_key name side) k
            then some (u64_bytes (seq_inwards L side end))
            else if eqb (encode_qsize_key name) k
            then some (u64_bytes (suc n))
            else if eqb (encode_qitem_key name end) k
            then none
            else L.content s.db k)
    unfolding finish qset_one qdel_one
    qpop-content k data_key = rw (
      qpop-db,
      commit_or_fail-content L (pos 1) (record s { logs = moved }) healthy k,
      pending-put,
      pending-put,
      pending-add_log _ ty cmd name k _ data_key,
      pending-delete,
      pending-begin,
    )

    pub qpop-content_size :
        L.content (qpop L name side ty s).1.db (encode_qsize_key name) ≡ some (u64_bytes (suc n))
    qpop-content_size = rw (
      qpop-content (encode_qsize_key name) (qsize-IsData name),
      eqb-qitem-qsize name name side,
      eqb_refl (encode_qsize_key name),
    )

    pub qpop-content_item :
        (a : ℕ)
        → side < 2 ^ 64
        → end < 2 ^ 64
        → a < 2 ^ 64
        → L.content (qpop L name side ty s).1.db (encode_qitem_key name a) ≡ (
            if side == a
            then some (u64_bytes (seq_inwards L side end))
            else if end == a
            then none
            else L.content s.db (encode_qitem_key name a))
    qpop-content_item a p q r = rw (
      qpop-content (encode_qitem_key name a) (qitem-IsData name a),
      eqb-qitem_self name side a p r,
      eqb-qsize-qitem name name a,
      eqb-qitem_self name end a q r,
    )

  module _ (size : qsize L s name ≡ pos 1) where
    -- The batch where no item is left.
    abbrev cleared : BinlogQueue
    cleared =
        qdel_one (qdel_one (delete_batch logged (encode_qsize_key name)) name qfront_seq) name
          qback_seq

    finish_last : Ssdb L
    finish_last = (commit_or_fail L (pos 1) (record s { logs = cleared })).1

    pub qpop_last_lem : (qpop L name side ty s).0 ≡ (pos 1, some item)
    unfolding qpop qpop_body qpop_from qpop_item qpop_finish transaction
    qpop_last_lem = ground (
      arith,
      qget_uint64-logs L s name (begin s.logs) side,
      qget_by_seq-logs L s name (begin s.logs) end,
      incr_qsize_last L (record s { logs = logged }) name (qsize-logs L s name logged ∙ size),
      commit_or_fail-result L (pos 1) (record s { logs = cleared }) healthy,
    )

    qpop_last-db : (qpop L name side ty s).1.db ≡ finish_last.db
    unfolding qpop qpop_body qpop_from qpop_item qpop_finish transaction finish_last
    qpop_last-db = ground (
      arith,
      qget_uint64-logs L s name (begin s.logs) side,
      qget_by_seq-logs L s name (begin s.logs) end,
      incr_qsize_last L (record s { logs = logged }) name (qsize-logs L s name logged ∙ size),
    )

    -- Both ends, the size and the item go.
    pub qpop_last-content :
        (k : Bytes)
        → IsData k
        → L.content (qpop L name side ty s).1.db k ≡ (
            if eqb (encode_qitem_key name qback_seq) k
            then none
            else if eqb (encode_qitem_key name qfront_seq) k
            then none
            else if eqb (encode_qsize_key name) k
            then none
            else if eqb (encode_qitem_key name end) k
            then none
            else L.content s.db k)
    unfolding finish_last qdel_one
    qpop_last-content k data_key = rw (
      qpop_last-db,
      commit_or_fail-content L (pos 1) (record s { logs = cleared }) healthy k,
      pending-delete,
      pending-delete,
      pending-delete,
      pending-add_log _ ty cmd name k _ data_key,
      pending-delete,
      pending-begin,
    )

    pub qpop_last-IsVacant : IsVacant (L.content (qpop L name side ty s).1.db) name
    qpop_last-IsVacant = record {
      no_size = ground (
        arith,
        qpop_last-content (encode_qsize_key name) (qsize-IsData name),
        eqb_refl (encode_qsize_key name),
      );
      no_front = ground (
        arith,
        qpop_last-content (encode_qitem_key name 2) (qitem-IsData name 2),
        eqb_refl (encode_qitem_key name 2),
      );
      no_back = ground (
        arith,
        qpop_last-content (encode_qitem_key name 3) (qitem-IsData name 3),
        eqb_refl (encode_qitem_key name 3),
      );
    }
