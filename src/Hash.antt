-- ===== src/Hash.antt =====
-- ssdb/t_hash.cpp: hashes, which map fields to values under a name, with a record of their size.
pub mod Fields
pub mod Model
pub mod Branches
pub mod Refine
pub mod Lost
mod Tests
use php.Prelude.{
  ℕ, zero, suc, ◌+◌, ◌-◌, ◌^◌, ◌%◌, Bool, true, false, ◌||◌, Option, none, some, List, [], ◌∷◌, not,
  length, ltb, leb, ◌==◌, if◌then◌else◌,
}
use php.Prelude.Int.{ℤ, pos, negsuc, ◌+ℤ◌, leb_ℤ, ltb_ℤ, i64, signed64, word64}
use php.Bytes.{Bytes, eqb, is_empty}
use php.Bytes.Words.{u64_bytes, le_word}
use php.Strings.Number.{str, str_to_int64}
use php.Keys.{encode_hsize_key, encode_hash_key}
use php.LevelDb.{LevelDb, Got, failed, missing, found}
use php.Binlog.{
  BinlogQueue, Ssdb, put_batch, delete_batch, add_log, transaction, minus_one, is_minus_one,
  commit_or_fail,
}
use php.Binlog.Command
use php.SizeRecord.{read_size, incr_size, negated}

-- SSDB_KEY_LEN_MAX
abbrev pub key_len_max : ℕ
key_len_max = 255

-- The lines that put a field and log it.
unfoldable pub put_field : BinlogQueue → Bytes → Bytes → Bytes → ℕ → BinlogQueue
put_field q name key val log_type =
    let hkey = encode_hash_key name key in add_log (put_batch q hkey val) log_type Command.hset hkey

unfoldable pub delete_field : BinlogQueue → Bytes → Bytes → ℕ → BinlogQueue
delete_field q name key log_type =
    let hkey = encode_hash_key name key in add_log (delete_batch q hkey) log_type Command.hdel hkey

module _ (L : LevelDb) where
  -- SSDBImpl::hget
  unfoldable pub hget : Ssdb L → Bytes → Bytes → Got Bytes
  hget s name key = L.get s.db (encode_hash_key name key)

  -- SSDBImpl::hsize
  unfoldable pub hsize : Ssdb L → Bytes → ℤ
  unfolding read_size
  hsize s name = read_size L s (encode_hsize_key name)

  -- incr_hsize
  unfoldable pub incr_hsize : Ssdb L → Bytes → ℤ → Ssdb L
  unfolding incr_size
  incr_hsize s name incr = incr_size L s (encode_hsize_key name) incr

  -- hset_one after the tests of the name and the key, from what hget reads.
  unfoldable pub hset_write : Got Bytes → Bytes → Bytes → Bytes → ℕ → Ssdb L → ℤ × Ssdb L
  hset_write missing name key val log_type s =
      (pos 1, record s { logs = put_field s.logs name key val log_type })
  hset_write failed name key val log_type s =
      (pos 0, if eqb [] val then s else record s { logs = put_field s.logs name key val log_type })
  hset_write (found old) name key val log_type s =
      (pos 0, if eqb old val then s else record s { logs = put_field s.logs name key val log_type })

  -- hset_one
  unfoldable pub hset_one : Bytes → Bytes → Bytes → ℕ → Ssdb L → ℤ × Ssdb L
  hset_one name key val log_type s =
      if is_empty name || is_empty key
      then (minus_one, s)
      else if ltb key_len_max (length name)
      then (minus_one, s)
      else if ltb key_len_max (length key)
      then (minus_one, s)
      else hset_write (hget s name key) name key val log_type s

  -- hdel_one after the tests of the lengths: it deletes after a failed read, too.
  unfoldable pub hdel_write : Got Bytes → Bytes → Bytes → ℕ → Ssdb L → ℤ × Ssdb L
  hdel_write missing name key log_type s = (pos 0, s)
  hdel_write failed name key log_type s =
      (pos 1, record s { logs = delete_field s.logs name key log_type })
  hdel_write (found old) name key log_type s =
      (pos 1, record s { logs = delete_field s.logs name key log_type })

  -- hdel_one
  unfoldable pub hdel_one : Bytes → Bytes → ℕ → Ssdb L → ℤ × Ssdb L
  hdel_one name key log_type s =
      if ltb key_len_max (length name)
      then (minus_one, s)
      else if ltb key_len_max (length key)
      then (minus_one, s)
      else hdel_write (hget s name key) name key log_type s

  -- The end of hset, hdel and hincr: for a result ret >= 0, the size grows by incr where ret > 0,
  -- and the batch is committed; the result is `answer`.
  unfoldable pub hash_finish : ℤ → ℤ → ℤ → Bytes → Ssdb L → ℤ × Ssdb L
  hash_finish ret incr answer name s =
      if ltb_ℤ ret (pos 0)
      then (ret, s)
      else commit_or_fail L answer (if ltb_ℤ (pos 0) ret then incr_hsize s name incr else s)

  -- SSDBImpl::hset
  unfoldable pub hset_body : Bytes → Bytes → Bytes → ℕ → Ssdb L → ℤ × Ssdb L
  hset_body name key val log_type s =
      let (ret, t) = hset_one name key val log_type s in hash_finish ret ret ret name t

  unfoldable pub hset : Bytes → Bytes → Bytes → ℕ → Ssdb L → ℤ × Ssdb L
  hset name key val log_type = transaction L (hset_body name key val log_type)

  -- SSDBImpl::hdel
  unfoldable pub hdel_body : Bytes → Bytes → ℕ → Ssdb L → ℤ × Ssdb L
  hdel_body name key log_type s =
      let (ret, t) = hdel_one name key log_type s in hash_finish ret (negated ret) ret name t

  unfoldable pub hdel : Bytes → Bytes → ℕ → Ssdb L → ℤ × Ssdb L
  hdel name key log_type = transaction L (hdel_body name key log_type)

  abbrev hincr_write : Bytes → Bytes → ℤ → ℕ → Ssdb L → (ℤ × ℤ) × Ssdb L
  hincr_write name key new_val log_type s =
      let (ret, t) = hset_one name key (str new_val) log_type s in
      let (r, u) = hash_finish ret ret (pos 1) name t in ((r, new_val), u)

  -- SSDBImpl::hincr: the result and *new_val.
  unfoldable pub hincr_body : Bytes → Bytes → ℤ → ℕ → Ssdb L → (ℤ × ℤ) × Ssdb L
  unfolding hset_one hash_finish
  hincr_body name key by log_type s = elim (hget s name key) [
    | failed ↦ ((minus_one, pos 0), s)
    | missing ↦ hincr_write name key by log_type s
    | found old ↦
        let (n, ok) = str_to_int64 old in
        let new_val = i64 (n +ℤ by) in
        if ok then hincr_write name key new_val log_type s else ((pos 0, new_val), s)
  ]

  unfoldable pub hincr : Bytes → Bytes → ℤ → ℕ → Ssdb L → (ℤ × ℤ) × Ssdb L
  hincr name key by log_type = transaction L (hincr_body name key by log_type)
