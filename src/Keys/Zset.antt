-- ===== src/Keys/Zset.antt =====
-- ssdb/t_zset.h: the keys of sorted sets. `encode_score` and `decode_score` are big_endian.
pub mod Laws
use php.Prelude.{ℕ, ◌+◌, ◌%◌, ◌^◌, Option, none, some, List, [], ◌∷◌, ◌++◌, length, if◌then◌else◌}
use php.Prelude.Int.{ℤ, pos, negsuc, word64, signed64}
use php.Bytes.{Bytes}
use php.Bytes.Words.{big_endian, u64_bytes}
use php.Bytes.Decoder.{skip, read_uint64, read_data, read_8_data, ◌>>=◌}
use php.Strings.Number.{str, str_to_int64}
use php.Keys.DataType.{zset, zscore, zsize}

abbrev pub encode_zsize_key : Bytes → Bytes
encode_zsize_key name = zsize ∷ name

-- decode_zsize_key
unfoldable pub decode_zsize_key : Bytes → Option Bytes
unfolding skip read_data
decode_zsize_key slice = do p ← skip 1 slice; (name, p') ← read_data p; some name

abbrev pub encode_zset_key : Bytes → Bytes → Bytes
encode_zset_key name key = zset ∷ (length name % 2 ^ 8) ∷ (name ++ (length key % 2 ^ 8) ∷ key)

unfoldable pub decode_zset_key : Bytes → Option (Bytes × Bytes)
unfolding skip read_8_data
decode_zset_key slice = do
  p ← skip 1 slice
  (name, p1) ← read_8_data p
  (key, p2) ← read_8_data p1
  some (name, key)

abbrev pub sign : ℤ → ℕ
sign (pos n) = b'='
sign (negsuc n) = b'-'

-- The key for a score that has been read as an integer.
abbrev pub zscore_key : Bytes → Bytes → ℤ → Bytes
zscore_key name key s =
    zscore
    ∷ (length name % 2 ^ 8)
    ∷ (name ++ sign s ∷ (u64_bytes (big_endian (word64 s)) ++ b'=' ∷ key))

-- `score.Int64()` is the number that the text starts with, and 0 where there is none.
unfoldable pub encode_zscore_key : Bytes → Bytes → Bytes → Bytes
encode_zscore_key name key score = zscore_key name key (str_to_int64 score).0

-- The name, the key and the score's text.
unfoldable pub decode_zscore_key : Bytes → Option (Bytes × Bytes × Bytes)
unfolding skip read_8_data read_uint64 read_data
decode_zscore_key slice = do
  p ← skip 1 slice
  (name, p1) ← read_8_data p
  p2 ← skip 1 p1
  (s, p3) ← read_uint64 p2
  p4 ← skip 1 p3
  (key, p5) ← read_data p4
  some (name, key, str (signed64 (big_endian s)))
