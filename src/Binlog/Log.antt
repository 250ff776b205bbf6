-- ===== src/Binlog/Log.antt =====
-- The log records that a batch of binlog.cpp adds, under the keys of their sequence numbers.
use php.Prelude.{
  ℕ, ◌+◌, ◌^◌, ◌<◌, ◌≤◌, ◌≡◌, refl, sym, ap, ◌∙◌, true, false, Option, some, List, [], ◌∷◌, arith,
  length, ◌==◌, Bool-cases, inl, inr, if◌then◌else◌,
}
use php.Prelude.Int.{u64, ℤ}
use php.Bytes.{Bytes, eqb}
use php.Keys.{encode_seq_key, decode_seq_key}
use php.Keys.Distinct.{eqb_refl, eqb_ne}
use php.Keys.RoundTrip.{decode_seq_key-encode}
use php.LevelDb.{LevelDb, put}
use php.LevelDb.Laws.{updated-append, IsHealthy}
use php.Binlog.{
  BinlogQueue, begin, rollback, put_batch, delete_batch, add_log, Ssdb, commit, commit_or_fail,
  transaction,
}
use php.Binlog.Record.{repr, binlog}
use php.Binlog.Pending.{pending, pending-put, pending-delete}

-- What stands under sequence number n after the records of the commands and keys, the oldest first,
-- were added behind `last`.
abbrev pub after_logs : ℕ → ℕ → List (ℕ × Bytes) → ℕ → Option Bytes → Option Bytes
after_logs type last [] n o = o
after_logs type last ((cmd, key) ∷ later) n o =
    let rest = after_logs type (last + 1) later n o in
    if last + 1 == n then some (repr (binlog (last + 1) type cmd key)) else rest

-- A number that was used up before keeps its record.
pub after_logs-old :
    (type last : ℕ) (logs : List (ℕ × Bytes)) (n : ℕ) (o : Option Bytes)
    → n ≤ last
    → after_logs type last logs n o ≡ o
after_logs-old type last [] n o h = refl
after_logs-old type last ((cmd, key) ∷ later) n o h =
    ground (arith, after_logs-old type (last + 1) later n o (omega arith))

pub eqb-seq_key :
    (a b : ℕ) → a < 2 ^ 64 → b < 2 ^ 64 → eqb (encode_seq_key a) (encode_seq_key b) ≡ (a == b)
eqb-seq_key a b p q = elim (Bool-cases (a == b)) [
  | inl e ↦ let same : a ≡ b = ground arith in rw (e, same) (eqb_refl (encode_seq_key b))
  | inr e ↦ rw e (
      eqb_ne (encode_seq_key a) (encode_seq_key b) (λ h.
        let same : a ≡ b =
          sym (decode_seq_key-encode a p) ∙ ap decode_seq_key h ∙ decode_seq_key-encode b q in
        ground arith))
]

-- A batch over q with the records added, over what the database holds under their keys.
pub record Adds (type : ℕ) (q r : BinlogQueue) (logs : List (ℕ × Bytes)) : Type 0 where
  pub counted : r.tran_seq ≡ q.tran_seq + length logs
  pub still : r.enabled ≡ true
  pub records :
      (n : ℕ)
      → n < 2 ^ 64
      → (o : Option Bytes)
      → pending r (encode_seq_key n) o
        ≡ after_logs type q.tran_seq logs n (pending q (encode_seq_key n) o)

pub add_log-Adds :
    (type cmd : ℕ) (key : Bytes) (q : BinlogQueue)
    → q.enabled ≡ true
    → q.tran_seq + 1 < 2 ^ 64
    → Adds type q (add_log q type cmd key) ((cmd, key) ∷ [])
unfolding add_log
add_log-Adds type cmd key q on room = record {
  counted = ground (arith, on);
  still = ground (arith, on);
  records = λ n p o.
      (let seq = q.tran_seq + 1 in
        let e : u64 seq ≡ seq = omega arith in
        rw (on, e)
          (updated-append q.batch (put (encode_seq_key seq) (repr (binlog seq type cmd key)) ∷ [])
              (encode_seq_key n) o
            ∙ rw (eqb-seq_key seq n room p) refl));
}

pub Adds-nothing : (type : ℕ) (q : BinlogQueue) → q.enabled ≡ true → Adds type q q []
Adds-nothing type q on = record { counted = omega arith; still = on; records = λ n p o. refl }

-- A record stands before what follows it.
after_logs_first :
    (type last : ℕ) (logs : List (ℕ × Bytes)) (n : ℕ) (v o : Option Bytes)
    → after_logs type (last + 1) logs n (if last + 1 == n then v else o)
      ≡ (if last + 1 == n then v else after_logs type (last + 1) logs n o)
after_logs_first type last logs n v o = elim (Bool-cases (last + 1 == n)) [
  | inl e ↦ rw e (after_logs-old type (last + 1) logs n v (ground arith))
  | inr e ↦ rw e refl
]

-- One record, and what follows it.
pub Adds-then :
    (type : ℕ) (q r t : BinlogQueue) (cmd : ℕ) (key : Bytes) (logs : List (ℕ × Bytes))
    → q.tran_seq + 1 < 2 ^ 64
    → Adds type q r ((cmd, key) ∷ [])
    → Adds type r t logs
    → Adds type q t ((cmd, key) ∷ logs)
Adds-then type q r t cmd key logs room a b = record {
  counted = omega (arith, a.counted, b.counted);
  still = b.still;
  records = λ n p o.
      (let one : r.tran_seq ≡ q.tran_seq + 1 = a.counted in
        let first = a.records n p o in
        let rest = b.records n p o in
        rest
        ∙ rw (one, first)
            (after_logs_first type q.tran_seq logs n
              (some (repr (binlog (q.tran_seq + 1) type cmd key))) _));
}

-- Puts and deletes of data keys add no record.
pub Adds-put :
    (type : ℕ) (q r : BinlogQueue) (k v : Bytes) (logs : List (ℕ × Bytes))
    → ((n : ℕ) → eqb k (encode_seq_key n) ≡ false)
    → Adds type (put_batch q k v) r logs
    → Adds type q r logs
unfolding put_batch
Adds-put type q r k v logs data_key a = record {
  counted = a.counted;
  still = a.still;
  records = λ n p o.
      a.records n p o
      ∙ ap (after_logs type q.tran_seq logs n)
          (pending-put q k v (encode_seq_key n) o ∙ rw (data_key n) refl);
}

pub Adds-delete :
    (type : ℕ) (q r : BinlogQueue) (k : Bytes) (logs : List (ℕ × Bytes))
    → ((n : ℕ) → eqb k (encode_seq_key n) ≡ false)
    → Adds type (delete_batch q k) r logs
    → Adds type q r logs
unfolding delete_batch
Adds-delete type q r k logs data_key a = record {
  counted = a.counted;
  still = a.still;
  records = λ n p o.
      a.records n p o
      ∙ ap (after_logs type q.tran_seq logs n)
          (pending-delete q k (encode_seq_key n) o ∙ rw (data_key n) refl);
}

-- A database where the records follow those that were there before.
pub record Logged (L : LevelDb) (s t : Ssdb L) (type : ℕ) (logs : List (ℕ × Bytes)) : Type 0 where
  pub last : t.logs.last_seq ≡ s.logs.last_seq + length logs
  pub log :
      (n : ℕ)
      → n < 2 ^ 64
      → L.content t.db (encode_seq_key n)
        ≡ after_logs type s.logs.last_seq logs n (L.content s.db (encode_seq_key n))

-- A transaction that commits the batch.
pub transaction-Logged :
    (L : LevelDb) (s : Ssdb L) (answer : ℤ) (type : ℕ) (r : BinlogQueue) (logs : List (ℕ × Bytes))
    (body : Ssdb L → ℤ × Ssdb L)
    → IsHealthy L s.db
    → body (record s { logs = begin s.logs }) ≡ commit_or_fail L answer (record s { logs = r })
    → Adds type (begin s.logs) r logs
    → Logged L s (transaction L body s).1 type logs
unfolding transaction commit_or_fail commit rollback begin
transaction-Logged L s answer type r logs body healthy e a =
    let ok = healthy.writes r.batch in
    rw (transaction, e)
      (record {
        last = rw ok a.counted;
        log = λ n p. L.content-write s.db r.batch ok (encode_seq_key n) ∙ a.records n p _;
      })
