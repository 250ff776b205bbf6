-- ===== src/Binlog/Pending.antt =====
-- What the batch of the open transaction will make of a key of data.
use php.Prelude.{ℕ, ◌+◌, ◌≡◌, refl, true, false, Option, none, some, [], ◌∷◌, arith, if◌then◌else◌}
use php.Prelude.Int.{u64, ℤ}
use php.Bytes.{Bytes, eqb}
use php.Keys.{
  encode_seq_key, encode_qsize_key, encode_qitem_key, encode_kv_key, encode_hsize_key,
  encode_hash_key,
}
use php.Keys.Distinct.{eqb_head}
use php.LevelDb.{LevelDb, put, delete, updated}
use php.LevelDb.Laws.{updated-append, IsHealthy}
use php.Binlog.{BinlogQueue, begin, put_batch, delete_batch, add_log, Ssdb, commit, commit_or_fail}
use php.Binlog.Record.{repr, binlog}

abbrev pub pending : BinlogQueue → Bytes → Option Bytes → Option Bytes
pending q k o = updated q.batch k o

-- No log record is kept under the key.
abbrev pub IsData : Bytes → Type 0
IsData k = (n : ℕ) → eqb (encode_seq_key n) k ≡ false

pub qsize-IsData : (n : Bytes) → IsData (encode_qsize_key n)
qsize-IsData n i = eqb_head _ _ _ _ (omega arith)

pub qitem-IsData : (n : Bytes) (a : ℕ) → IsData (encode_qitem_key n a)
qitem-IsData n a i = eqb_head _ _ _ _ (omega arith)

pub kv-IsData : (k : Bytes) → IsData (encode_kv_key k)
kv-IsData k i = eqb_head _ _ _ _ (omega arith)

pub hsize-IsData : (k : Bytes) → IsData (encode_hsize_key k)
hsize-IsData k i = eqb_head _ _ _ _ (omega arith)

pub hash-IsData : (n k : Bytes) → IsData (encode_hash_key n k)
hash-IsData n k i = eqb_head _ _ _ _ (omega arith)

pub pending-begin : (q : BinlogQueue) (k : Bytes) (o : Option Bytes) → pending (begin q) k o ≡ o
unfolding begin
pending-begin q k o = refl

pub pending-put :
    (q : BinlogQueue) (j v k : Bytes) (o : Option Bytes)
    → pending (put_batch q j v) k o ≡ (if eqb j k then some v else pending q k o)
unfolding put_batch
pending-put q j v k o = updated-append q.batch (put j v ∷ []) k o

pub pending-delete :
    (q : BinlogQueue) (j k : Bytes) (o : Option Bytes)
    → pending (delete_batch q j) k o ≡ (if eqb j k then none else pending q k o)
unfolding delete_batch
pending-delete q j k o = updated-append q.batch (delete j ∷ []) k o

pub pending-add_log :
    (q : BinlogQueue) (t c : ℕ) (key k : Bytes) (o : Option Bytes)
    → IsData k
    → pending (add_log q t c key) k o ≡ pending q k o
unfolding add_log
pending-add_log q t c key k o h = ground (
  arith,
  h (u64 (q.tran_seq + 1)),
  updated-append q.batch
      (put (encode_seq_key (u64 (q.tran_seq + 1))) (repr (binlog (u64 (q.tran_seq + 1)) t c key))
        ∷ [])
      k o,
)

-- A commit that succeeds makes of every key what the batch says.
pub content-commit :
    (L : LevelDb) (s : Ssdb L)
    → (commit L s).0 ≡ true
    → (k : Bytes) → L.content (commit L s).1.db k ≡ pending s.logs k (L.content s.db k)
unfolding commit
content-commit L s h k = L.content-write s.db s.logs.batch h k

pub commit-IsHealthy : (L : LevelDb) (s : Ssdb L) → IsHealthy L s.db → (commit L s).0 ≡ true
unfolding commit
commit-IsHealthy L s h = h.writes s.logs.batch

module _ (L : LevelDb) (r : ℤ) (s : Ssdb L) (healthy : IsHealthy L s.db) where
  pub commit_or_fail-result : (commit_or_fail L r s).0 ≡ r
  unfolding commit_or_fail
  commit_or_fail-result = ground (arith, commit-IsHealthy L s healthy)

  pub commit_or_fail-content :
      (k : Bytes) → L.content (commit_or_fail L r s).1.db k ≡ pending s.logs k (L.content s.db k)
  unfolding commit_or_fail
  commit_or_fail-content k = content-commit L s (commit-IsHealthy L s healthy) k
