-- ===== src/SizeRecord.antt =====
-- The record of the number of fields of a hash, or of members of a sorted set: hsize and incr_hsize
-- of ssdb/t_hash.cpp, zsize and incr_zsize of ssdb/t_zset.cpp are the same code for two keys.
pub mod Laws
use php.Prelude.{Bool, false, ◌==◌, length, ℕ, zero, suc, ◌+◌, if◌then◌else◌}
use php.Prelude.Int.{is_zero, ℤ, pos, negsuc, ◌+ℤ◌, ltb_ℤ, i64, signed64, word64}
use php.Bytes.{Bytes}
use php.Bytes.Words.{u64_bytes, le_word}
use php.LevelDb.{LevelDb, failed, missing, found}
use php.Binlog.{Ssdb, put_batch, delete_batch, minus_one}

-- The growth of the size by -ret.
abbrev pub negated : ℤ → ℤ
negated (pos zero) = pos 0
negated (pos (suc n)) = negsuc n
negated (negsuc n) = pos (n + 1)

module _ (L : LevelDb) where
  -- A record of another length, or a negative one, counts as 0.
  unfoldable pub read_size : Ssdb L → Bytes → ℤ
  read_size s size_key = elim (L.get s.db size_key) [
    | failed ↦ minus_one
    | missing ↦ pos 0
    | found val ↦
        if length val == 8
        then (let ret = signed64 (le_word val) in if ltb_ℤ ret (pos 0) then pos 0 else ret)
        else pos 0
  ]

  -- The result is always 0 in the source, so only the state is kept. A failed read of the size is
  -- not told apart from the size -1.
  unfoldable pub incr_size : Ssdb L → Bytes → ℤ → Ssdb L
  unfolding read_size
  incr_size s size_key incr =
      let size = i64 (read_size s size_key +ℤ incr) in
      record s {
        logs =
            if is_zero size
            then delete_batch s.logs size_key
            else put_batch s.logs size_key (u64_bytes (word64 size));
      }
