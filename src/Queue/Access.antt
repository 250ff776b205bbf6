-- ===== src/Queue/Access.antt =====
-- ssdb/t_queue.cpp: reading and replacing items in place.
use php.Prelude.{ℕ, zero, suc, ◌+◌, ◌-◌, ◌||◌, ◌&&◌, List, [], ◌∷◌, ltb, if◌then◌else◌}
use php.Prelude.Int.{ℤ, pos, leb_ℤ, ltb_ℤ, sub_ℕ, pos_part, neg_part, u64, word64}
use php.Bytes.{Bytes}
use php.Keys.{encode_qitem_key}
use php.LevelDb.{LevelDb, Got, failed, missing, found}
use php.Binlog.{Ssdb, add_log, transaction}
use php.Binlog.Command
use php.Queue.{minus_one, is_minus_one, qset_one, qget_by_seq, qget_uint64, qsize, commit_or_fail}
use php.Queue.Const.{qfront_seq, qback_seq}

abbrev pub neg_ℤ : ℤ → ℤ
neg_ℤ z = sub_ℕ (neg_part z) (pos_part z)

module _ (L : LevelDb) where
  -- The end of qfront, qback and qget.
  unfoldable pub qpeek : Ssdb L → Bytes → Got ℕ → Got Bytes
  qpeek s name end = elim end [
    | failed ↦ failed
    | missing ↦ missing
    | found seq ↦ qget_by_seq L s name seq
  ]

  -- SSDBImpl::qfront
  unfoldable pub qfront : Ssdb L → Bytes → Got Bytes
  qfront s name = qpeek s name (qget_uint64 L s name qfront_seq)

  -- SSDBImpl::qback
  unfoldable pub qback : Ssdb L → Bytes → Got Bytes
  qback s name = qpeek s name (qget_uint64 L s name qback_seq)

  -- The sequence number of an index: from the front, or for a negative one from the back.
  unfoldable pub seq_at : Ssdb L → Bytes → ℤ → Got ℕ
  seq_at s name index =
      if leb_ℤ (pos 0) index
      then (elim (qget_uint64 L s name qfront_seq) [
        | failed ↦ failed
        | missing ↦ missing
        | found seq ↦ found (u64 (seq + word64 index))
      ])
      else (elim (qget_uint64 L s name qback_seq) [
        | failed ↦ failed
        | missing ↦ missing
        | found seq ↦ found (u64 (seq + word64 index + 1))
      ])

  -- SSDBImpl::qget
  unfoldable pub qget : Ssdb L → Bytes → ℤ → Got Bytes
  qget s name index = qpeek s name (seq_at s name index)

  -- The write of qset and qset_by_seq.
  unfoldable pub qset_item : Bytes → ℕ → Bytes → ℕ → Ssdb L → ℤ × Ssdb L
  qset_item name seq item log_type s =
      let q = qset_one s.logs name seq item in
      commit_or_fail L (pos 1)
        (record s { logs = add_log q log_type Command.qset (encode_qitem_key name seq) })

  -- SSDBImpl::qset, inside its transaction: 0 where the index is out of range.
  unfoldable pub qset_body : Bytes → ℤ → Bytes → ℕ → Ssdb L → ℤ × Ssdb L
  qset_body name index item log_type s =
      let size = qsize L s name in
      if is_minus_one size
      then (minus_one, s)
      else if leb_ℤ size index || ltb_ℤ index (neg_ℤ size)
      then (pos 0, s)
      else (elim (seq_at s name index) [
        | failed ↦ (minus_one, s)
        | missing ↦ (pos 0, s)
        | found seq ↦ qset_item name seq item log_type s
      ])

  unfoldable pub qset : Bytes → ℤ → Bytes → ℕ → Ssdb L → ℤ × Ssdb L
  qset name index item log_type = transaction L (qset_body name index item log_type)

  -- SSDBImpl::qset_by_seq after the first sequence number is read: `max_seq = min_seq + size`.
  unfoldable pub qset_within : Bytes → ℕ → Bytes → ℕ → ℕ → ℤ → Ssdb L → ℤ × Ssdb L
  qset_within name seq item log_type min_seq size s =
      let max_seq = u64 (min_seq + word64 size) in
      if ltb seq min_seq || ltb max_seq seq then (pos 0, s) else qset_item name seq item log_type s

  -- SSDBImpl::qset_by_seq, inside its transaction. A missing first number counts as 0.
  unfoldable pub qset_by_seq_body : Bytes → ℕ → Bytes → ℕ → Ssdb L → ℤ × Ssdb L
  qset_by_seq_body name seq item log_type s =
      let size = qsize L s name in
      if is_minus_one size then (minus_one, s) else (elim (qget_uint64 L s name qfront_seq) [
        | failed ↦ (minus_one, s)
        | missing ↦ qset_within name seq item log_type 0 size s
        | found min_seq ↦ qset_within name seq item log_type min_seq size s
      ])

  unfoldable pub qset_by_seq : Bytes → ℕ → Bytes → ℕ → Ssdb L → ℤ × Ssdb L
  qset_by_seq name seq item log_type = transaction L (qset_by_seq_body name seq item log_type)

  -- The loop of qslice, by the number of rounds left: it stops at the first item that is missing
  -- or cannot be read. What it has read stays in the list.
  unfoldable pub qslice_loop : ℕ → Ssdb L → Bytes → ℕ → ℤ × List Bytes
  qslice_loop zero s name seq = (pos 0, [])
  qslice_loop (suc n) s name seq = elim (qget_by_seq L s name seq) [
    | failed ↦ (minus_one, [])
    | missing ↦ (pos 0, [])
    | found item ↦ (let (r, items) = qslice_loop n s name (seq + 1) in (r, item ∷ items))
  ]

  -- The first and last sequence number of a slice, by the signs of the indexes: both from the
  -- front, both from the back, or one from each, where both ends are read first.
  unfoldable pub slice_bounds : Ssdb L → Bytes → ℤ → ℤ → Got (ℕ × ℕ)
  slice_bounds s name begin end =
      if leb_ℤ (pos 0) begin && leb_ℤ (pos 0) end
      then (elim (qget_uint64 L s name qfront_seq) [
        | failed ↦ failed
        | missing ↦ missing
        | found tmp ↦ found (u64 (tmp + word64 begin), u64 (tmp + word64 end))
      ])
      else if ltb_ℤ begin (pos 0) && ltb_ℤ end (pos 0)
      then (elim (qget_uint64 L s name qback_seq) [
        | failed ↦ failed
        | missing ↦ missing
        | found tmp ↦ found (u64 (tmp + word64 begin + 1), u64 (tmp + word64 end + 1))
      ])
      else (elim (qget_uint64 L s name qfront_seq) [
        | failed ↦ failed
        | missing ↦ missing
        | found f ↦ elim (qget_uint64 L s name qback_seq) [
          | failed ↦ failed
          | missing ↦ missing
          | found b ↦ found (
            (if leb_ℤ (pos 0) begin then u64 (f + word64 begin) else u64 (b + word64 begin + 1)),
            (if leb_ℤ (pos 0) end then u64 (f + word64 end) else u64 (b + word64 end + 1)),
          )
        ]
      ])

  -- SSDBImpl::qslice
  unfoldable pub qslice : Ssdb L → Bytes → ℤ → ℤ → ℤ × List Bytes
  qslice s name begin end = elim (slice_bounds s name begin end) [
    | failed ↦ (minus_one, [])
    | missing ↦ (pos 0, [])
    | found (seq_begin, seq_end) ↦ qslice_loop (seq_end + 1 - seq_begin) s name seq_begin
  ]
