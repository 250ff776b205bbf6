-- ===== src/Kv/Log.antt =====
-- The log records of the changes of t_kv.cpp, which a slave replays.
use php.Prelude.{
  ℕ, ◌+◌, ◌^◌, ◌<◌, ◌≡◌, refl, true, false, some, List, [], ◌∷◌, arith, length, false,
}
use php.Prelude.Int.{pos}
use php.Bytes.{Bytes, eqb}
use php.Keys.{encode_kv_key, encode_seq_key}
use php.Keys.Distinct.{eqb_head}
use php.LevelDb.{LevelDb}
use php.LevelDb.Laws.{IsHealthy}
use php.Binlog.{BinlogQueue, Ssdb, begin, put_batch, delete_batch}
use php.Binlog.Command
use php.Binlog.Log.{
  Adds, add_log-Adds, Adds-nothing, Adds-then, Adds-put, Adds-delete, Logged, transaction-Logged,
}
use php.Kv.Map.{has_empty}
use php.Kv.{
  put_kv, del_kv, multi_set_loop, multi_del_loop, multi_set, multi_set_body, multi_del,
  multi_del_body,
}

kv_of_log : (k : Bytes) (n : ℕ) → eqb (encode_kv_key k) (encode_seq_key n) ≡ false
kv_of_log k n = eqb_head _ _ _ _ (omega arith)

-- The records of keys that are set, and of keys that are deleted.
abbrev pub set_logs : List (Bytes × Bytes) → List (ℕ × Bytes)
set_logs [] = []
set_logs ((key, val) ∷ kvs) = (Command.kset, encode_kv_key key) ∷ set_logs kvs

abbrev pub del_logs : List Bytes → List (ℕ × Bytes)
del_logs [] = []
del_logs (key ∷ keys) = (Command.kdel, encode_kv_key key) ∷ del_logs keys

module _ (t : ℕ) where
  put_kv-Adds :
      (q : BinlogQueue) (k v : Bytes)
      → q.enabled ≡ true
      → q.tran_seq + 1 < 2 ^ 64
      → Adds t q (put_kv q k v t) ((Command.kset, encode_kv_key k) ∷ [])
  unfolding put_kv put_batch
  put_kv-Adds q k v on room =
      Adds-put t q (put_kv q k v t) (encode_kv_key k) v _ (kv_of_log k)
        (add_log-Adds t Command.kset (encode_kv_key k) (put_batch q (encode_kv_key k) v) on room)

  del_kv-Adds :
      (q : BinlogQueue) (k : Bytes)
      → q.enabled ≡ true
      → q.tran_seq + 1 < 2 ^ 64
      → Adds t q (del_kv q k t) ((Command.kdel, encode_kv_key k) ∷ [])
  unfolding del_kv delete_batch
  del_kv-Adds q k on room =
      Adds-delete t q (del_kv q k t) (encode_kv_key k) _ (kv_of_log k)
        (add_log-Adds t Command.kdel (encode_kv_key k) (delete_batch q (encode_kv_key k)) on room)

  multi_del_loop-Adds :
      (keys : List Bytes) (q : BinlogQueue)
      → q.enabled ≡ true
      → q.tran_seq + length keys < 2 ^ 64
      → Adds t q (multi_del_loop q keys t) (del_logs keys)
  unfolding multi_del_loop
  multi_del_loop-Adds [] q on room = Adds-nothing t q on
  multi_del_loop-Adds (k ∷ keys) q on room =
      let one = del_kv-Adds q k on (omega arith) in
      Adds-then t q (del_kv q k t) (multi_del_loop (del_kv q k t) keys t) Command.kdel
        (encode_kv_key k) (del_logs keys) (omega arith) one
        (multi_del_loop-Adds keys (del_kv q k t) one.still (omega (arith, one.counted)))

  multi_set_loop-Adds :
      (kvs : List (Bytes × Bytes)) (q : BinlogQueue)
      → q.enabled ≡ true
      → q.tran_seq + length kvs < 2 ^ 64
      → has_empty kvs ≡ false
      → (r : BinlogQueue) × (multi_set_loop q kvs t ≡ some r) × Adds t q r (set_logs kvs)
  unfolding multi_set_loop
  multi_set_loop-Adds [] q on room e = (q, refl, Adds-nothing t q on)
  multi_set_loop-Adds ((k, v) ∷ kvs) q on room e =
      let one = put_kv-Adds q k v on (omega arith) in
      let (r, next, rest) =
        multi_set_loop-Adds kvs (put_kv q k v t) one.still (omega (arith, one.counted))
          (ground arith) in
      (
        r,
        ground arith,
        Adds-then t q (put_kv q k v t) r Command.kset (encode_kv_key k) (set_logs kvs) (omega arith)
            one rest,
      )

module _ (L : LevelDb) (s : Ssdb L) (healthy : IsHealthy L s.db) (t : ℕ)
    (on : s.logs.enabled ≡ true) where
  -- Without I/O errors, and with the log enabled and numbers left, multi_set of keys that are not
  -- empty adds behind the last sequence number one record for each pair, in their order, with the
  -- command of a set and the key; every other record stays. The last number grows by their count.
  pub multi_set-Logged :
      (kvs : List (Bytes × Bytes))
      → has_empty kvs ≡ false
      → s.logs.last_seq + length kvs < 2 ^ 64
      → Logged L s (multi_set L kvs t s).1 t (set_logs kvs)
  unfolding multi_set multi_set_body begin
  multi_set-Logged kvs full room =
      let (r, e, adds) = multi_set_loop-Adds t kvs (begin s.logs) on room full in
      transaction-Logged L s (pos (length kvs)) t r (set_logs kvs) (multi_set_body L kvs t) healthy
        (rw (multi_set_body, e) refl) adds

  -- Without I/O errors, and with the log enabled and numbers left, multi_del adds behind the last
  -- sequence number one record for each key, in their order, with the command of a deletion and the
  -- key; every other record stays. The last number grows by their count.
  pub multi_del-Logged :
      (keys : List Bytes)
      → s.logs.last_seq + length keys < 2 ^ 64
      → Logged L s (multi_del L keys t s).1 t (del_logs keys)
  unfolding multi_del multi_del_body begin
  multi_del-Logged keys room =
      transaction-Logged L s (pos (length keys)) t (multi_del_loop (begin s.logs) keys t)
        (del_logs keys) (multi_del_body L keys t) healthy refl
        (multi_del_loop-Adds t keys (begin s.logs) on room)
