-- ===== src/Queue/Atomic.antt =====
-- A queue operation that returns -1 or 0 has written nothing.
use mathlib.Core.Path.{subst}
use php.Prelude.{ℕ, ◌≡◌, refl, sym, ◌∙◌, false, arith, ◌==◌, if◌then◌else◌}
use php.Prelude.Int.{ℤ, pos}
use php.Bytes.{Bytes}
use php.Keys.{encode_qitem_key}
use php.LevelDb.{LevelDb, Got, failed, missing, found}
use php.LevelDb.Laws.{IsHealthy}
use php.Binlog.{Ssdb, begin, add_log, transaction}
use php.Binlog.Command
use php.Queue.{
  minus_one, is_minus_one, qset_one, qget_uint64, incr_qsize, commit_or_fail, seq_outwards,
  qpush_item, qpush_from, qpush_body, qpush,
}
use php.Queue.Const.{qfront_seq, qitem_seq_init}
use php.Queue.Commit.{commit_or_fail-result}

module _ (L : LevelDb) where
  -- The number of a size counts only if it is not -1.
  not_minus_one : (z : ℤ) → is_minus_one z ≡ false → z ≡ minus_one → ⊥
  not_minus_one z h e = ground arith

  pub incr_qsize-db : (s : Ssdb L) (name : Bytes) (by : ℤ) → (incr_qsize L s name by).1.db ≡ s.db
  unfolding incr_qsize
  incr_qsize-db s name by = ground arith

  commit_failed :
      (r : ℤ) (s : Ssdb L)
      → IsHealthy L s.db
      → is_minus_one r ≡ false
      → (commit_or_fail L r s).0 ≡ minus_one
      → ⊥
  commit_failed r s healthy n e =
      not_minus_one r n
        (let c : (commit_or_fail L r s).0 ≡ r = commit_or_fail-result L r s healthy in sym c ∙ e)

  -- The batch of a push, and the size that it counts.
  abbrev pushed : Ssdb L → Bytes → Bytes → ℕ → ℕ → ℕ → ℤ × Ssdb L
  pushed s name item side ty seq =
      let q = qset_one s.logs name seq item in
      let cmd = if side == qfront_seq then Command.qpush_front else Command.qpush_back in
      incr_qsize L (record s { logs = add_log q ty cmd (encode_qitem_key name seq) }) name (pos 1)

  pushed-db :
      (s : Ssdb L) (name item : Bytes) (side ty seq : ℕ)
      → (pushed s name item side ty seq).1.db ≡ s.db
  pushed-db s name item side ty seq =
      let cmd = if side == qfront_seq then Command.qpush_front else Command.qpush_back in
      incr_qsize-db
        (record s {
          logs = add_log (qset_one s.logs name seq item) ty cmd (encode_qitem_key name seq);
        })
        name (pos 1)

  qpush_item_fail :
      (s : Ssdb L) (name item : Bytes) (side ty seq : ℕ)
      → IsHealthy L s.db
      → (qpush_item L name item side ty seq s).0 ≡ minus_one
      → (qpush_item L name item side ty seq s).1.db ≡ s.db
  unfolding qpush_item
  qpush_item_fail s name item side ty seq healthy e =
      let (size, t) = pushed s name item side ty seq in
      let same : t.db ≡ s.db = pushed-db s name item side ty seq in
      ground (arith, same, commit_failed size t (subst (IsHealthy L) (sym same) healthy))

  qpush_from_fail :
      (g : Got ℕ) (s : Ssdb L) (name item : Bytes) (side ty : ℕ)
      → IsHealthy L s.db
      → (qpush_from L g name item side ty s).0 ≡ minus_one
      → (qpush_from L g name item side ty s).1.db ≡ s.db
  unfolding qpush_from
  qpush_from_fail failed s name item side ty healthy e = refl
  qpush_from_fail missing s name item side ty healthy e =
      qpush_item_fail _ name item side ty qitem_seq_init healthy e
  qpush_from_fail (found end) s name item side ty healthy e =
      qpush_item_fail _ name item side ty (seq_outwards L side end) healthy e

  -- Without I/O errors, a push that returns -1 leaves the database as it was.
  pub qpush_fail :
      (s : Ssdb L) (name item : Bytes) (side ty : ℕ)
      → IsHealthy L s.db
      → (qpush L name item side ty s).0 ≡ minus_one
      → (qpush L name item side ty s).1.db ≡ s.db
  unfolding qpush qpush_body transaction
  qpush_fail s name item side ty healthy e =
      qpush_from_fail (qget_uint64 L (record s { logs = begin s.logs }) name side)
        (record s { logs = begin s.logs }) name item side ty healthy e
