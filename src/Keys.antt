-- ===== src/Keys.antt =====
-- ssdb/const.h and the key codecs of ssdb/t_kv.h, t_hash.h, t_queue.h and binlog.cpp.
-- A key of the database is a type byte and the encoded name, key or sequence number.
pub mod RoundTrip
pub mod Distinct
pub mod Order
mod Tests
pub mod DataType
pub mod Zset
use php.Prelude.{
  ℕ, ◌+◌, ◌-◌, ◌%◌, ◌^◌, ◌/◌, ◌≡◌, Option, none, some, List, [], ◌∷◌, ◌++◌, length, take, drop, ltb,
  ◌==◌, if◌then◌else◌, Bool, ◌&&◌,
}
use php.Bytes.{Bytes}
use php.Bytes.Words.{big_endian, u64_bytes, le_word}
use php.Bytes.Decoder.{skip, read_uint64, read_data, read_8_data, ◌>>=◌}
-- const.h `DataType`.

use DataType.{synclog, kv, hash, hsize, queue, qsize}

-- encode_kv_key
abbrev pub encode_kv_key : Bytes → Bytes
encode_kv_key key = kv ∷ key

-- decode_kv_key, decode_hsize_key and decode_qsize_key are the same code.
unfoldable pub decode_kv_key : Bytes → Option Bytes
unfolding skip read_data
decode_kv_key slice = do p ← skip 1 slice; (key, p') ← read_data p; some key

-- encode_hsize_key
abbrev pub encode_hsize_key : Bytes → Bytes
encode_hsize_key name = hsize ∷ name

unfoldable pub decode_hsize_key : Bytes → Option Bytes
unfolding skip read_data
decode_hsize_key slice = do p ← skip 1 slice; (name, p') ← read_data p; some name

-- encode_hash_key: the length byte is `(uint8_t)name.size()`.
abbrev pub encode_hash_key : Bytes → Bytes → Bytes
encode_hash_key name key = hash ∷ (length name % 2 ^ 8) ∷ (name ++ b'=' ∷ key)

unfoldable pub decode_hash_key : Bytes → Option (Bytes × Bytes)
unfolding skip read_data read_8_data
decode_hash_key slice = do
  p ← skip 1 slice
  (name, p1) ← read_8_data p
  p2 ← skip 1 p1
  (key, p3) ← read_data p2
  some (name, key)

-- encode_qsize_key
abbrev pub encode_qsize_key : Bytes → Bytes
encode_qsize_key name = qsize ∷ name

pub decode_qsize_key : Bytes → Option Bytes
unfolding skip read_data
decode_qsize_key slice = do p ← skip 1 slice; (name, p') ← read_data p; some name

-- encode_qitem_key
abbrev pub encode_qitem_key : Bytes → ℕ → Bytes
encode_qitem_key name seq = queue ∷ (length name % 2 ^ 8) ∷ (name ++ u64_bytes (big_endian seq))

-- decode_qitem_key
pub decode_qitem_key : Bytes → Option (Bytes × ℕ)
unfolding skip read_uint64 read_8_data
decode_qitem_key slice = do
  p ← skip 1 slice
  (name, p1) ← read_8_data p
  (seq, p2) ← read_uint64 p1
  some (name, big_endian seq)

-- binlog.cpp encode_seq_key
abbrev pub encode_seq_key : ℕ → Bytes
encode_seq_key seq = synclog ∷ u64_bytes (big_endian seq)

-- binlog.cpp decode_seq_key: 0 for a key of another shape.
pub decode_seq_key : Bytes → ℕ
decode_seq_key [] = 0
decode_seq_key (t ∷ p) = if length p == 8 && t == synclog then big_endian (le_word p) else 0
