-- ===== src/Queue/Frame.antt =====
-- The operations on a queue leave every key of another queue, and of the other types, as it is.
use php.Prelude.{ℕ, ◌≡◌, ◌≢◌, refl, sym, ap, ◌∙◌, false, Option, arith, if◌then◌else◌, ◌==◌}
use php.Prelude.Int.{ℤ, pos, negsuc, ◌+ℤ◌, i64, word64}
use php.Bytes.{Bytes, eqb}
use php.Bytes.Words.{u64_bytes}
use php.Keys.{encode_qsize_key, encode_qitem_key}
use php.Keys.Distinct.{eqb-qsize_ne, eqb-qsize-qitem, eqb-qitem-qsize, eqb-qitem_names}
use php.LevelDb.{LevelDb, Got, failed, missing, found}
use php.LevelDb.Laws.{IsHealthy}
use php.Binlog.{BinlogQueue, Ssdb, begin, add_log, put_batch, delete_batch, transaction}
use php.Binlog.Command
use php.Binlog.Pending.{
  pending, IsData, qsize-IsData, qitem-IsData, pending-begin, pending-put, pending-delete,
  pending-add_log,
}
use php.Queue.{
  minus_one, is_minus_one, qset_one, qdel_one, qsize, qget_uint64, qget_by_seq, incr_qsize,
  commit_or_fail, seq_outwards, seq_inwards, qpush_item, qpush_from, qpush_body, qpush,
}
use php.Queue.Const.{qfront_seq, qback_seq, qitem_seq_init}
use php.Queue.Atomic.{incr_qsize-db}
use php.Queue.Commit.{commit_or_fail-content}
use php.Queue.Pop.{qpop, qpop_body, qpop_from, qpop_item, qpop_finish}

-- A key of data that is no key of the queue of the name.
pub record IsForeign (name k : Bytes) : Type 0 where
  pub is_data : IsData k
  pub no_size : eqb (encode_qsize_key name) k ≡ false
  pub no_item : (a : ℕ) → eqb (encode_qitem_key name a) k ≡ false

qsize-IsForeign : (n m : Bytes) → n ≢ m → IsForeign n (encode_qsize_key m)
qsize-IsForeign n m ne = record {
  is_data = qsize-IsData m;
  no_size = eqb-qsize_ne n m ne;
  no_item = λ a. eqb-qitem-qsize n m a;
}

qitem-IsForeign : (n m : Bytes) (b : ℕ) → n ≢ m → IsForeign n (encode_qitem_key m b)
qitem-IsForeign n m b ne = record {
  is_data = qitem-IsData m b;
  no_size = eqb-qsize-qitem n m b;
  no_item = λ a. eqb-qitem_names n m a b ne;
}

module _ (L : LevelDb) (name k : Bytes) (foreign : IsForeign name k) where
  -- What the database would hold under the key, were the batch committed now.
  abbrev view : Ssdb L → Option Bytes
  view s = pending s.logs k (L.content s.db k)

  view-set :
      (s : Ssdb L) (seq : ℕ) (item : Bytes)
      → view (record s { logs = qset_one s.logs name seq item }) ≡ view s
  unfolding qset_one
  view-set s seq item = rw (pending-put, foreign.no_item seq)

  view-del : (s : Ssdb L) (seq : ℕ) → view (record s { logs = qdel_one s.logs name seq }) ≡ view s
  unfolding qdel_one
  view-del s seq = rw (pending-delete, foreign.no_item seq)

  view-log :
      (s : Ssdb L) (ty cmd : ℕ) (key : Bytes)
      → view (record s { logs = add_log s.logs ty cmd key }) ≡ view s
  view-log s ty cmd key = pending-add_log s.logs ty cmd key k _ foreign.is_data

  quiet_put :
      (q : BinlogQueue) (v : Bytes) (o : Option Bytes)
      → pending (put_batch q (encode_qsize_key name) v) k o ≡ pending q k o
  quiet_put q v o = rw (pending-put, foreign.no_size)

  quiet_clear :
      (q : BinlogQueue) (o : Option Bytes)
      → pending
          (qdel_one
            (qdel_one (delete_batch q (encode_qsize_key name)) name qfront_seq)
            name
            qback_seq)
          k
          o
        ≡ pending q k o
  unfolding qdel_one
  quiet_clear q o = rw (
    pending-delete,
    foreign.no_item qback_seq,
    pending-delete,
    foreign.no_item qfront_seq,
    pending-delete,
    foreign.no_size,
  )

  view-incr : (s : Ssdb L) (by : ℤ) → view (incr_qsize L s name by).1 ≡ view s
  unfolding incr_qsize
  view-incr s by = ground (
    arith,
    quiet_put s.logs (u64_bytes (word64 (i64 (qsize L s name +ℤ by)))) (L.content s.db k),
    quiet_clear s.logs (L.content s.db k),
  )

  module _ (reliable : (d : L.Db) → IsHealthy L d) where
    view-commit : (r : ℤ) (s : Ssdb L) → L.content (commit_or_fail L r s).1.db k ≡ view s
    view-commit r s = commit_or_fail-content L r s (reliable s.db) k

    -- Nothing was written, or a batch that leaves the key alone.
    same_after :
        (r : ℤ) (s t : Ssdb L) (d : L.Db)
        → t.db ≡ d
        → view t ≡ L.content d k
        → L.content (if is_minus_one r then (minus_one, t) else commit_or_fail L r t).1.db k
          ≡ L.content d k
    same_after r s t d e v = ground (arith, view-commit r t ∙ v, ap (λ x. L.content x k) e)

    module _ (item : Bytes) (side ty : ℕ) where
      qpush_item-frame :
          (s : Ssdb L) (seq : ℕ)
          → view s ≡ L.content s.db k
          → L.content (qpush_item L name item side ty seq s).1.db k ≡ L.content s.db k
      unfolding qpush_item
      qpush_item-frame s seq v =
          let cmd = if side == qfront_seq then Command.qpush_front else Command.qpush_back in
          let stored : Ssdb L = record s { logs = qset_one s.logs name seq item } in
          let logged : Ssdb L = record stored {
            logs = add_log stored.logs ty cmd (encode_qitem_key name seq);
          } in
          let (size, t) = incr_qsize L logged name (pos 1) in
          ground (
            arith,
            same_after size s t s.db (incr_qsize-db L logged name (pos 1)) (
                view-incr logged (pos 1)
                ∙ view-log stored ty cmd (encode_qitem_key name seq)
                ∙ view-set s seq item
                ∙ v),
          )

      qpush_from-frame :
          (g : Got ℕ) (s : Ssdb L)
          → view s ≡ L.content s.db k
          → L.content (qpush_from L g name item side ty s).1.db k ≡ L.content s.db k
      unfolding qpush_from
      qpush_from-frame failed s v = refl
      qpush_from-frame missing s v =
          let init = u64_bytes qitem_seq_init in
          let one : Ssdb L = record s { logs = qset_one s.logs name qfront_seq init } in
          let two : Ssdb L = record one { logs = qset_one one.logs name qback_seq init } in
          qpush_item-frame two qitem_seq_init
            (view-set one qback_seq init ∙ view-set s qfront_seq init ∙ v)
      qpush_from-frame (found end) s v =
          let seq = seq_outwards L side end in
          qpush_item-frame (record s { logs = qset_one s.logs name side (u64_bytes seq) }) seq
            (view-set s side (u64_bytes seq) ∙ v)

      pub qpush-frame :
          (s : Ssdb L) → L.content (qpush L name item side ty s).1.db k ≡ L.content s.db k
      unfolding qpush qpush_body transaction
      qpush-frame s =
          qpush_from-frame (qget_uint64 L (record s { logs = begin s.logs }) name side)
            (record s { logs = begin s.logs }) (pending-begin s.logs k (L.content s.db k))

    module _ (side ty : ℕ) where
      qpop_finish-frame :
          (seq : ℕ) (size : ℤ) (s : Ssdb L)
          → view s ≡ L.content s.db k
          → L.content (qpop_finish L name side seq size s).1.db k ≡ L.content s.db k
      unfolding qpop_finish
      qpop_finish-frame seq size s v =
          let next = u64_bytes (seq_inwards L side seq) in
          let moved : Ssdb L = record s { logs = qset_one s.logs name side next } in
          ground
            (arith, view-commit (pos 1) moved ∙ view-set s side next ∙ v, view-commit (pos 1) s ∙ v)

      qpop_item-frame :
          (g : Got Bytes) (seq : ℕ) (s : Ssdb L)
          → view s ≡ L.content s.db k
          → L.content (qpop_item L g name side ty seq s).1.db k ≡ L.content s.db k
      unfolding qpop_item
      qpop_item-frame failed seq s v = refl
      qpop_item-frame missing seq s v = refl
      qpop_item-frame (found item) seq s v =
          let cmd = if side == qfront_seq then Command.qpop_front else Command.qpop_back in
          let deleted : Ssdb L = record s { logs = qdel_one s.logs name seq } in
          let logged : Ssdb L = record deleted { logs = add_log deleted.logs ty cmd name } in
          let (size, t) = incr_qsize L logged name (negsuc 0) in
          let same : t.db ≡ s.db = incr_qsize-db L logged name (negsuc 0) in
          let v' : view t ≡ L.content s.db k =
            view-incr logged (negsuc 0) ∙ view-log deleted ty cmd name ∙ view-del s seq ∙ v in
          let here : L.content t.db k ≡ L.content s.db k = ap (λ x. L.content x k) same in
          let after : L.content (qpop_finish L name side seq size t).1.db k ≡ L.content s.db k =
            qpop_finish-frame seq size t (v' ∙ sym here) ∙ here in
          ground (arith)

      qpop_from-frame :
          (g : Got ℕ) (s : Ssdb L)
          → view s ≡ L.content s.db k
          → L.content (qpop_from L g name side ty s).1.db k ≡ L.content s.db k
      unfolding qpop_from
      qpop_from-frame failed s v = refl
      qpop_from-frame missing s v = refl
      qpop_from-frame (found seq) s v = qpop_item-frame (qget_by_seq L s name seq) seq s v

      pub qpop-frame : (s : Ssdb L) → L.content (qpop L name side ty s).1.db k ≡ L.content s.db k
      unfolding qpop qpop_body transaction
      qpop-frame s =
          qpop_from-frame (qget_uint64 L (record s { logs = begin s.logs }) name side)
            (record s { logs = begin s.logs }) (pending-begin s.logs k (L.content s.db k))

-- Without I/O errors, pushes and pops on one queue change nothing under the keys of another.
pub other_queue :
    (L : LevelDb) (name other item : Bytes) (side ty seq : ℕ) (s : Ssdb L)
    → name ≢ other
    → ((d : L.Db) → IsHealthy L d)
    → let c = L.content s.db in
      let pushed = L.content (qpush L name item side ty s).1.db in
      let popped = L.content (qpop L name side ty s).1.db in
      (pushed (encode_qsize_key other) ≡ c (encode_qsize_key other))
      × (pushed (encode_qitem_key other seq) ≡ c (encode_qitem_key other seq))
      × (popped (encode_qsize_key other) ≡ c (encode_qsize_key other))
      × (popped (encode_qitem_key other seq) ≡ c (encode_qitem_key other seq))
other_queue L name other item side ty seq s ne reliable =
    let size = qsize-IsForeign name other ne in
    let at = qitem-IsForeign name other seq ne in
    (
      qpush-frame L name (encode_qsize_key other) size reliable item side ty s,
      qpush-frame L name (encode_qitem_key other seq) at reliable item side ty s,
      qpop-frame L name (encode_qsize_key other) size reliable side ty s,
      qpop-frame L name (encode_qitem_key other seq) at reliable side ty s,
    )
