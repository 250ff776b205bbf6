-- ===== src/Kv.antt =====
-- ssdb/t_kv.cpp: keys with one value each.
-- A value is read as `Got Bytes`: missing, failed and found are the results 0, -1 and 1 of the
-- source's `get`. The vectors of multi_set and multi_del are the lists from `offset` on, that of
-- multi_set in pairs, since its callers refuse an odd number.
pub mod Bits
mod ByteBits
mod SetBit
pub mod GetBit
pub mod Map
pub mod Pending
pub mod Call
pub mod Refine
pub mod Log
mod Tests
use php.Prelude.{
  ℕ, ◌+◌, Bool, true, false, Option, none, some, List, [], ◌∷◌, length, if◌then◌else◌,
}
use php.Prelude.Int.{ℤ, pos, negsuc, ◌+ℤ◌, i64}
use php.Bytes.{Bytes, is_empty}
use php.Strings.Number.{str, str_to_int64}
use php.Keys.{encode_kv_key}
use php.LevelDb.{LevelDb, Got, failed, missing, found}
use php.Binlog.{
  BinlogQueue, Ssdb, put_batch, delete_batch, add_log, transaction, minus_one, commit_or_fail,
}
use php.Binlog.Command

-- The result of a read: 1, 0 or -1.
abbrev pub code {ℓ} : {A : Type ℓ} → Got A → ℤ
code failed = minus_one
code missing = pos 0
code (found val) = pos 1

-- The lines `binlogs->Put(buf, val); binlogs->add_log(log_type, BinlogCommand::KSET, buf);`
unfoldable pub put_kv : BinlogQueue → Bytes → Bytes → ℕ → BinlogQueue
put_kv q key val log_type =
    let buf = encode_kv_key key in add_log (put_batch q buf val) log_type Command.kset buf

-- The lines `binlogs->Delete(buf); binlogs->add_log(log_type, BinlogCommand::KDEL, buf);`
unfoldable pub del_kv : BinlogQueue → Bytes → ℕ → BinlogQueue
del_kv q key log_type =
    let buf = encode_kv_key key in add_log (delete_batch q buf) log_type Command.kdel buf

-- The loop of multi_set: none at an empty key.
unfoldable pub multi_set_loop : BinlogQueue → List (Bytes × Bytes) → ℕ → Option BinlogQueue
multi_set_loop q [] log_type = some q
multi_set_loop q ((key, val) ∷ kvs) log_type =
    let rest = multi_set_loop (put_kv q key val log_type) kvs log_type in
    if is_empty key then none else rest

-- The loop of multi_del.
unfoldable pub multi_del_loop : BinlogQueue → List Bytes → ℕ → BinlogQueue
multi_del_loop q [] log_type = q
multi_del_loop q (key ∷ keys) log_type = multi_del_loop (del_kv q key log_type) keys log_type

module _ (L : LevelDb) where
  -- SSDBImpl::get
  unfoldable pub get : Ssdb L → Bytes → Got Bytes
  get s key = L.get s.db (encode_kv_key key)

  -- Put, add_log and commit, with the result r where they succeed.
  unfoldable pub write_kv : ℤ → Bytes → Bytes → ℕ → Ssdb L → ℤ × Ssdb L
  write_kv r key val log_type s =
      commit_or_fail L r (record s { logs = put_kv s.logs key val log_type })

  -- SSDBImpl::set
  unfoldable pub set : Bytes → Bytes → ℕ → Ssdb L → ℤ × Ssdb L
  set key val log_type s =
      if is_empty key then (pos 0, s) else transaction L (write_kv (pos 1) key val log_type) s

  -- SSDBImpl::setnx: any result of the read but 0 ends it.
  unfoldable pub setnx_body : Bytes → Bytes → ℕ → Ssdb L → ℤ × Ssdb L
  setnx_body key val log_type s = elim (get s key) [
    | failed ↦ (pos 0, s)
    | missing ↦ write_kv (pos 1) key val log_type s
    | found old ↦ (pos 0, s)
  ]

  unfoldable pub setnx : Bytes → Bytes → ℕ → Ssdb L → ℤ × Ssdb L
  setnx key val log_type s =
      if is_empty key then (pos 0, s) else transaction L (setnx_body key val log_type) s

  -- SSDBImpl::getset: the result, and what was read; it writes even where the read failed.
  unfoldable pub getset_body : Bytes → Bytes → ℕ → Ssdb L → (ℤ × Got Bytes) × Ssdb L
  getset_body key newval log_type s =
      let val = get s key in let (r, t) = write_kv (code val) key newval log_type s in ((r, val), t)

  unfoldable pub getset : Bytes → Bytes → ℕ → Ssdb L → (ℤ × Got Bytes) × Ssdb L
  getset key newval log_type s =
      if is_empty key
      then ((pos 0, missing), s)
      else transaction L (getset_body key newval log_type) s

  -- SSDBImpl::del
  unfoldable pub del_body : Bytes → ℕ → Ssdb L → ℤ × Ssdb L
  del_body key log_type s =
      commit_or_fail L (pos 1) (record s { logs = del_kv s.logs key log_type })

  unfoldable pub del : Bytes → ℕ → Ssdb L → ℤ × Ssdb L
  del key log_type = transaction L (del_body key log_type)

  -- SSDBImpl::incr: the result and *new_val. The sum wraps, and what stood there before stays
  -- where the value is no number.
  unfoldable pub incr_body : Bytes → ℤ → ℕ → Ssdb L → (ℤ × ℤ) × Ssdb L
  incr_body key by log_type s =
      let write : ℤ → (ℤ × ℤ) × Ssdb L = λ new_val.
        (let (r, t) = write_kv (pos 1) key (str new_val) log_type s in ((r, new_val), t)) in
      elim (get s key) [
        | failed ↦ ((minus_one, pos 0), s)
        | missing ↦ write by
        | found old ↦
            let (n, ok) = str_to_int64 old in
            let new_val = i64 (n +ℤ by) in if ok then write new_val else ((pos 0, new_val), s)
      ]

  unfoldable pub incr : Bytes → ℤ → ℕ → Ssdb L → (ℤ × ℤ) × Ssdb L
  incr key by log_type = transaction L (incr_body key by log_type)

  -- SSDBImpl::multi_set: an empty key ends it with 0, and what was put so far is dropped.
  unfoldable pub multi_set_body : List (Bytes × Bytes) → ℕ → Ssdb L → ℤ × Ssdb L
  multi_set_body kvs log_type s = elim (multi_set_loop s.logs kvs log_type) [
    | none ↦ (pos 0, s)
    | some q ↦ commit_or_fail L (pos (length kvs)) (record s { logs = q })
  ]

  unfoldable pub multi_set : List (Bytes × Bytes) → ℕ → Ssdb L → ℤ × Ssdb L
  multi_set kvs log_type = transaction L (multi_set_body kvs log_type)

  -- SSDBImpl::multi_del
  unfoldable pub multi_del_body : List Bytes → ℕ → Ssdb L → ℤ × Ssdb L
  multi_del_body keys log_type s =
      commit_or_fail L (pos (length keys)) (record s { logs = multi_del_loop s.logs keys log_type })

  unfoldable pub multi_del : List Bytes → ℕ → Ssdb L → ℤ × Ssdb L
  multi_del keys log_type = transaction L (multi_del_body keys log_type)
