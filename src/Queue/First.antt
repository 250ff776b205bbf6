-- ===== src/Queue/First.antt =====
-- The first push makes a queue of one item, in the middle of the sequence numbers; a push past the
-- last sequence number is refused.
use php.Prelude.{
  ℕ, ◌+◌, ◌-◌, ◌^◌, ◌≤◌, ◌<◌, ◌≡◌, ◌∙◌, ◌⊎◌, inl, inr, some, List, [], ◌∷◌, arith, length, ◌==◌,
  if◌then◌else◌,
}
use php.Prelude.Int.{pos}
use php.Bytes.{Bytes, eqb}
use php.Bytes.Words.{u64_bytes}
use php.Keys.{encode_qsize_key, encode_qitem_key}
use php.Keys.Distinct.{eqb_refl, eqb-qitem_self, eqb-qsize-qitem}
use php.LevelDb.{LevelDb, missing, found}
use php.LevelDb.Laws.{IsHealthy}
use php.Binlog.{Ssdb, begin, transaction}
use php.Binlog.Pending.{IsData, qsize-IsData, qitem-IsData, pending-begin, pending-put}
use php.Queue.{
  minus_one, qset_one, qsize, qget_uint64, seq_outwards, qpush_item, qpush_from, qpush_body, qpush,
  qpush_front, qpush_back,
}
use php.Queue.Const.{qfront_seq, qback_seq, qitem_min_seq, qitem_max_seq, qitem_seq_init}
use php.Queue.Commit.{qsize-logs, qget_uint64-logs}
use php.Queue.Model.{Holds, IsVacant, qget_uint64-missing, qsize-zero}
use php.Queue.Push.{qpush_item-result, qpush_item-content}
use php.Queue.PushModel.{Holds-singleton, at_back, at_front, back_seq, front_seq}

module _ (L : LevelDb) (s : Ssdb L) (healthy : IsHealthy L s.db) (name item : Bytes)
    (side ty : ℕ) where
  abbrev init_bytes : Bytes
  init_bytes = u64_bytes qitem_seq_init

  abbrev started : Ssdb L
  started = record s {
    logs = qset_one (qset_one (begin s.logs) name qfront_seq init_bytes) name qback_seq init_bytes;
  }

  module _ (absent : qget_uint64 L s name side ≡ missing) (size : qsize L s name ≡ pos 0) where
    first_lem :
        ((qpush L name item side ty s).0
          ≡ (qpush_item L name item side ty qitem_seq_init started).0)
        × ((qpush L name item side ty s).1.db
            ≡ (qpush_item L name item side ty qitem_seq_init started).1.db)
    unfolding qpush qpush_body qpush_from transaction
    first_lem = ground (arith, qget_uint64-logs L s name (begin s.logs) side)

    first-content :
        (k : Bytes)
        → IsData k
        → L.content (qpush L name item side ty s).1.db k ≡ (
            if eqb (encode_qsize_key name) k
            then some (u64_bytes 1)
            else if eqb (encode_qitem_key name qitem_seq_init) k
            then some item
            else if eqb (encode_qitem_key name qback_seq) k
            then some init_bytes
            else if eqb (encode_qitem_key name qfront_seq) k
            then some init_bytes
            else L.content s.db k)
    unfolding qset_one
    first-content k data_key = rw (
      first_lem.1,
      qpush_item-content L started healthy name item side ty qitem_seq_init 0
          (qsize-logs L s name started.logs ∙ size) (omega arith) (omega arith) (omega arith) k
          data_key,
      pending-put,
      pending-put,
      pending-begin,
    )

    first-content_item :
        (a : ℕ)
        → a < 2 ^ 64
        → L.content (qpush L name item side ty s).1.db (encode_qitem_key name a) ≡ (
            if qitem_seq_init == a
            then some item
            else if qback_seq == a
            then some init_bytes
            else if qfront_seq == a
            then some init_bytes
            else L.content s.db (encode_qitem_key name a))
    first-content_item a q = rw (
      first-content (encode_qitem_key name a) (qitem-IsData name a),
      eqb-qsize-qitem name name a,
      eqb-qitem_self name qitem_seq_init a (omega arith) q,
      eqb-qitem_self name qback_seq a (omega arith) q,
      eqb-qitem_self name qfront_seq a (omega arith) q,
    )

    first_push :
        ((qpush L name item side ty s).0 ≡ pos 1)
        × Holds (L.content (qpush L name item side ty s).1.db) name qitem_seq_init (item ∷ [])
    first_push = (
      first_lem.0
          ∙ qpush_item-result L started healthy name item side ty qitem_seq_init 0
              (qsize-logs L s name started.logs ∙ size) (omega arith) (omega arith) (omega arith),
      Holds-singleton _ name item
          (rw (
            first-content (encode_qsize_key name) (qsize-IsData name),
            eqb_refl (encode_qsize_key name),
          ))
          (first-content_item qfront_seq (omega arith)) (first-content_item qback_seq (omega arith))
          (first-content_item qitem_seq_init (omega arith)),
    )

-- In a database without I/O errors, where no queue of the name is held, a push at either end
-- returns 1 and makes a queue of the one item, half way through the sequence numbers.
pub qpush-IsVacant :
    (L : LevelDb) (s : Ssdb L) (name item : Bytes) (ty : ℕ)
    → IsHealthy L s.db
    → IsVacant (L.content s.db) name
    → ((qpush_back L name item ty s).0 ≡ pos 1)
      × Holds (L.content (qpush_back L name item ty s).1.db) name qitem_seq_init (item ∷ [])
      × ((qpush_front L name item ty s).0 ≡ pos 1)
      × Holds (L.content (qpush_front L name item ty s).1.db) name qitem_seq_init (item ∷ [])
unfolding qpush_back qpush_front
qpush-IsVacant L s name item ty healthy v =
    let size = qsize-zero L s healthy name v.no_size in
    let (r, held) =
      first_push L s healthy name item qback_seq ty
        (qget_uint64-missing L s healthy name qback_seq v.no_back) size in
    let (r', held') =
      first_push L s healthy name item qfront_seq ty
        (qget_uint64-missing L s healthy name qfront_seq v.no_front) size in
    (r, held, r', held')

module _ (L : LevelDb) (s : Ssdb L) (healthy : IsHealthy L s.db) (name item : Bytes) (ty f : ℕ)
    (xs : List Bytes) (h : Holds (L.content s.db) name f xs) where
  refused :
      (side end : ℕ)
      → qget_uint64 L s name side ≡ found end
      → (seq_outwards L side end ≤ qitem_min_seq) ⊎ (qitem_max_seq ≤ seq_outwards L side end)
      → ((qpush L name item side ty s).0 ≡ minus_one) × ((qpush L name item side ty s).1.db ≡ s.db)
  unfolding qpush qpush_body qpush_from qpush_item transaction
  refused side end at out = ground (arith, qget_uint64-logs L s name (begin s.logs) side)

  -- Without I/O errors, where the last sequence number is used up, a push at the back returns -1 and
  -- writes nothing.
  pub qpush_back_full :
      f + length xs ≡ qitem_max_seq
      → ((qpush_back L name item ty s).0 ≡ minus_one) × ((qpush_back L name item ty s).1.db ≡ s.db)
  unfolding qpush_back
  qpush_back_full full =
      refused qback_seq (f + length xs - 1) (at_back L s healthy name item ty f xs h)
        (inr (rw (back_seq L s healthy name item ty f xs h) (omega arith)))

  -- Without I/O errors, where the first sequence number is used up, a push at the front returns -1
  -- and writes nothing.
  pub qpush_front_full :
      f ≡ qitem_min_seq + 1
      → ((qpush_front L name item ty s).0 ≡ minus_one)
        × ((qpush_front L name item ty s).1.db ≡ s.db)
  unfolding qpush_front
  qpush_front_full full =
      refused qfront_seq f (at_front L s healthy name item ty f xs h)
        (inl (rw (front_seq L s healthy name item ty f xs h) (omega arith)))
