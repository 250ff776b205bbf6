-- ===== src/Queue/Push.antt =====
-- qpush_front and qpush_back put an item at an end of the queue.
use php.Prelude.{ℕ, ◌+◌, ◌^◌, ◌<◌, ◌≡◌, ◌∙◌, some, arith, ◌==◌, if◌then◌else◌}
use php.Prelude.Int.{pos}
use php.Bytes.{Bytes, eqb}
use php.Bytes.Words.{u64_bytes}
use php.Keys.{encode_qsize_key, encode_qitem_key}
use php.Keys.Distinct.{eqb_refl, eqb-qitem_self, eqb-qsize-qitem}
use php.LevelDb.{LevelDb, found}
use php.LevelDb.Laws.{IsHealthy}
use php.Binlog.{BinlogQueue, Ssdb, begin, put_batch, add_log, transaction}
use php.Binlog.Command
use php.Binlog.Pending.{
  pending, IsData, qsize-IsData, qitem-IsData, pending-begin, pending-put, pending-add_log,
}
use php.Queue.{
  qset_one, qsize, qget_uint64, commit_or_fail, seq_outwards, qpush_item, qpush_from, qpush_body,
  qpush,
}
use php.Queue.Const.{qfront_seq, qitem_min_seq, qitem_max_seq}
use php.Queue.Size.{incr_qsize_up}
use php.Queue.Commit.{qsize-logs, commit_or_fail-result, commit_or_fail-content, qget_uint64-logs}

module _ (L : LevelDb) (s : Ssdb L) (healthy : IsHealthy L s.db) (name item : Bytes)
    (side ty seq n : ℕ) (size : qsize L s name ≡ pos n) (fits : n + 1 < 2 ^ 63)
    (low : qitem_min_seq < seq) (high : seq < qitem_max_seq) where
  abbrev cmd : ℕ
  cmd = if side == qfront_seq then Command.qpush_front else Command.qpush_back

  abbrev logged : BinlogQueue
  logged = add_log (qset_one s.logs name seq item) ty cmd (encode_qitem_key name seq)

  abbrev counted : BinlogQueue
  counted = put_batch logged (encode_qsize_key name) (u64_bytes (n + 1))

  qpush_item_lem :
      qpush_item L name item side ty seq s
      ≡ commit_or_fail L (pos (n + 1)) (record s { logs = counted })
  unfolding qpush_item
  qpush_item_lem = ground (
    arith,
    incr_qsize_up L (record s { logs = logged }) name n (qsize-logs L s name logged ∙ size) fits,
  )

  pub qpush_item-result : (qpush_item L name item side ty seq s).0 ≡ pos (n + 1)
  qpush_item-result =
      rw qpush_item_lem
        (commit_or_fail-result L (pos (n + 1)) (record s { logs = counted }) healthy)

  pub qpush_item-content :
      (k : Bytes)
      → IsData k
      → L.content (qpush_item L name item side ty seq s).1.db k ≡ (
          if eqb (encode_qsize_key name) k
          then some (u64_bytes (n + 1))
          else if eqb (encode_qitem_key name seq) k
          then some item
          else pending s.logs k (L.content s.db k))
  unfolding qset_one
  qpush_item-content k data_key = rw (
    qpush_item_lem,
    commit_or_fail-content L (pos (n + 1)) (record s { logs = counted }) healthy k,
    pending-put,
    pending-add_log _ ty cmd (encode_qitem_key name seq) k _ data_key,
    pending-put,
  )

module _ (L : LevelDb) (s : Ssdb L) (healthy : IsHealthy L s.db) (name item : Bytes)
    (side ty end n : ℕ) (at_side : qget_uint64 L s name side ≡ found end)
    (size : qsize L s name ≡ pos n) (fits : n + 1 < 2 ^ 63) where
  abbrev seq : ℕ
  seq = seq_outwards L side end

  abbrev started : Ssdb L
  started = record s { logs = qset_one (begin s.logs) name side (u64_bytes seq) }

  qpush_lem : (qpush L name item side ty s).0 ≡ (qpush_item L name item side ty seq started).0
  unfolding qpush qpush_body qpush_from transaction
  qpush_lem = ground (arith, qget_uint64-logs L s name (begin s.logs) side)

  qpush-db : (qpush L name item side ty s).1.db ≡ (qpush_item L name item side ty seq started).1.db
  unfolding qpush qpush_body qpush_from transaction
  qpush-db = ground (arith, qget_uint64-logs L s name (begin s.logs) side)

  module _ (low : qitem_min_seq < seq_outwards L side end)
      (high : seq_outwards L side end < qitem_max_seq) where
    pub qpush-result : (qpush L name item side ty s).0 ≡ pos (n + 1)
    qpush-result =
        qpush_lem
        ∙ qpush_item-result L started healthy name item side ty seq n
            (qsize-logs L s name started.logs ∙ size) fits low high

    pub qpush-content :
        (k : Bytes)
        → IsData k
        → L.content (qpush L name item side ty s).1.db k ≡ (
            if eqb (encode_qsize_key name) k
            then some (u64_bytes (n + 1))
            else if eqb (encode_qitem_key name (seq_outwards L side end)) k
            then some item
            else if eqb (encode_qitem_key name side) k
            then some (u64_bytes (seq_outwards L side end))
            else L.content s.db k)
    unfolding qset_one
    qpush-content k data_key = rw (
      qpush-db,
      qpush_item-content L started healthy name item side ty seq n
          (qsize-logs L s name started.logs ∙ size) fits low high k data_key,
      pending-put,
      pending-begin,
    )

    pub qpush-content_size :
        L.content (qpush L name item side ty s).1.db (encode_qsize_key name)
        ≡ some (u64_bytes (n + 1))
    qpush-content_size = rw (
      qpush-content (encode_qsize_key name) (qsize-IsData name),
      eqb_refl (encode_qsize_key name),
    )

    pub qpush-content_item :
        (a : ℕ)
        → side < 2 ^ 64
        → a < 2 ^ 64
        → L.content (qpush L name item side ty s).1.db (encode_qitem_key name a) ≡ (
            if seq_outwards L side end == a
            then some item
            else if side == a
            then some (u64_bytes (seq_outwards L side end))
            else L.content s.db (encode_qitem_key name a))
    qpush-content_item a p q = rw (
      qpush-content (encode_qitem_key name a) (qitem-IsData name a),
      eqb-qsize-qitem name name a,
      eqb-qitem_self name (seq_outwards L side end) a (omega arith) q,
      eqb-qitem_self name side a p q,
    )
