-- ===== src/Zset.antt =====
-- ssdb/t_zset.cpp: sorted sets. A member has its score under its own key, and a key for the score
-- that holds nothing, in whose order the set is walked.
pub mod Model
pub mod Branches
pub mod Entries
pub mod Batch
pub mod Refine
pub mod Frame
pub mod Broken
mod Tests
use php.Prelude.{◌+◌, ◌||◌, true, false, [], ltb, length, ℕ, if◌then◌else◌}
use php.Prelude.Int.{ℤ, pos, negsuc, ◌+ℤ◌, ltb_ℤ, i64}
use php.Bytes.{Bytes, eqb, is_empty}
use php.Strings.Number.{str, str_to_int64}
use php.Keys.Zset.{encode_zsize_key, encode_zset_key, encode_zscore_key}
use php.LevelDb.{LevelDb, Got, failed, missing, found}
use php.Binlog.{
  BinlogQueue, Ssdb, put_batch, delete_batch, add_log, transaction, minus_one, commit_or_fail,
}
use php.Binlog.Command
use php.SizeRecord.{read_size, incr_size, negated}
use php.Hash.{key_len_max}

-- filter_score
unfoldable pub filter_score : Bytes → Bytes
filter_score score = str (str_to_int64 score).0

-- The lines of zset_one that add the score's key and the member's, and log the change.
unfoldable pub put_member : BinlogQueue → Bytes → Bytes → Bytes → ℕ → BinlogQueue
put_member q name key score log_type =
    let k0 = encode_zset_key name key in
    add_log (put_batch (put_batch q (encode_zscore_key name key score) []) k0 score) log_type
      Command.zset k0

-- The line that deletes the key of the old score.
unfoldable pub delete_score : BinlogQueue → Bytes → Bytes → Bytes → BinlogQueue
delete_score q name key old_score = delete_batch q (encode_zscore_key name key old_score)

-- The lines of zdel_one that delete both keys, and log the change.
unfoldable pub delete_member : BinlogQueue → Bytes → Bytes → Bytes → ℕ → BinlogQueue
unfolding delete_score
delete_member q name key old_score log_type =
    let k0 = encode_zset_key name key in
    add_log (delete_batch (delete_score q name key old_score) k0) log_type Command.zdel k0

module _ (L : LevelDb) where
  -- SSDBImpl::zget
  unfoldable pub zget : Ssdb L → Bytes → Bytes → Got Bytes
  zget s name key = L.get s.db (encode_zset_key name key)

  -- SSDBImpl::zsize
  unfoldable pub zsize : Ssdb L → Bytes → ℤ
  unfolding read_size
  zsize s name = read_size L s (encode_zsize_key name)

  -- incr_zsize
  unfoldable pub incr_zsize : Ssdb L → Bytes → ℤ → Ssdb L
  unfolding incr_size
  incr_zsize s name incr = incr_size L s (encode_zsize_key name) incr

  -- zset_one from what zget reads, where the score differs from the old one: after a failed read
  -- the old score is the empty text.
  abbrev pub zset_move : Bytes → Bytes → Bytes → Bytes → ℕ → Ssdb L → ℤ × Ssdb L
  zset_move old_score name key new_score log_type s =
      if eqb old_score new_score then (pos 0, s) else (
        pos 0,
        record s {
          logs = put_member (delete_score s.logs name key old_score) name key new_score log_type;
        },
      )

  unfoldable pub zset_write : Got Bytes → Bytes → Bytes → Bytes → ℕ → Ssdb L → ℤ × Ssdb L
  zset_write missing name key new_score log_type s =
      (pos 1, record s { logs = put_member s.logs name key new_score log_type })
  zset_write failed name key new_score log_type s = zset_move [] name key new_score log_type s
  zset_write (found old_score) name key new_score log_type s =
      zset_move old_score name key new_score log_type s

  -- zset_one. A name or key that is empty gives 0.
  unfoldable pub zset_one : Bytes → Bytes → Bytes → ℕ → Ssdb L → ℤ × Ssdb L
  zset_one name key score log_type s =
      if is_empty name || is_empty key
      then (pos 0, s)
      else if ltb key_len_max (length name)
      then (minus_one, s)
      else if ltb key_len_max (length key)
      then (minus_one, s)
      else zset_write (zget s name key) name key (filter_score score) log_type s

  -- zdel_one after the tests of the lengths: after a failed read it answers 0.
  unfoldable pub zdel_write : Got Bytes → Bytes → Bytes → ℕ → Ssdb L → ℤ × Ssdb L
  zdel_write missing name key log_type s = (pos 0, s)
  zdel_write failed name key log_type s = (pos 0, s)
  zdel_write (found old_score) name key log_type s =
      (pos 1, record s { logs = delete_member s.logs name key old_score log_type })

  -- zdel_one
  unfoldable pub zdel_one : Bytes → Bytes → ℕ → Ssdb L → ℤ × Ssdb L
  zdel_one name key log_type s =
      if ltb key_len_max (length name)
      then (minus_one, s)
      else if ltb key_len_max (length key)
      then (minus_one, s)
      else zdel_write (zget s name key) name key log_type s

  -- The end of zset, zdel and zincr: for a result ret >= 0, the size grows by incr where ret > 0,
  -- and the batch is committed; the result is `answer`.
  unfoldable pub zset_finish : ℤ → ℤ → ℤ → Bytes → Ssdb L → ℤ × Ssdb L
  zset_finish ret incr answer name s =
      if ltb_ℤ ret (pos 0)
      then (ret, s)
      else commit_or_fail L answer (if ltb_ℤ (pos 0) ret then incr_zsize s name incr else s)

  -- SSDBImpl::zset
  unfoldable pub zset_body : Bytes → Bytes → Bytes → ℕ → Ssdb L → ℤ × Ssdb L
  zset_body name key score log_type s =
      let (ret, t) = zset_one name key score log_type s in zset_finish ret ret ret name t

  unfoldable pub zset : Bytes → Bytes → Bytes → ℕ → Ssdb L → ℤ × Ssdb L
  zset name key score log_type = transaction L (zset_body name key score log_type)

  -- SSDBImpl::zdel
  unfoldable pub zdel_body : Bytes → Bytes → ℕ → Ssdb L → ℤ × Ssdb L
  zdel_body name key log_type s =
      let (ret, t) = zdel_one name key log_type s in zset_finish ret (negated ret) ret name t

  unfoldable pub zdel : Bytes → Bytes → ℕ → Ssdb L → ℤ × Ssdb L
  zdel name key log_type = transaction L (zdel_body name key log_type)

  abbrev zincr_write : Bytes → Bytes → ℤ → ℕ → Ssdb L → (ℤ × ℤ) × Ssdb L
  zincr_write name key new_val log_type s =
      let (ret, t) = zset_one name key (str new_val) log_type s in
      let (r, u) = zset_finish ret ret (pos 1) name t in ((r, new_val), u)

  -- SSDBImpl::zincr: the result and *new_val. Unlike hincr, it does not test errno.
  unfoldable pub zincr_body : Bytes → Bytes → ℤ → ℕ → Ssdb L → (ℤ × ℤ) × Ssdb L
  unfolding zset_one zset_finish
  zincr_body name key by log_type s = elim (zget s name key) [
    | failed ↦ ((minus_one, pos 0), s)
    | missing ↦ zincr_write name key by log_type s
    | found old ↦ zincr_write name key (i64 ((str_to_int64 old).0 +ℤ by)) log_type s
  ]

  unfoldable pub zincr : Bytes → Bytes → ℤ → ℕ → Ssdb L → (ℤ × ℤ) × Ssdb L
  zincr name key by log_type = transaction L (zincr_body name key by log_type)
