-- ===== src/Keys/RoundTrip.antt =====
-- Decoding a key gives back what was encoded.
use php.Prelude.{ℕ, ◌^◌, ◌%◌, ◌<◌, ◌≡◌, some, [], ◌∷◌, ◌++◌, arith, length, length-append}
use php.Bytes.{Bytes}
use php.Bytes.Words.{
  big_endian, big_endian-big_endian, big_endian-lt, u64_bytes, le_bytes, le_word-u64_bytes,
  length-le_bytes,
}
use php.Bytes.Decoder.{read_uint64, read_8_data, take-append, drop-append}
use php.Keys.{
  encode_kv_key, decode_kv_key, encode_hsize_key, decode_hsize_key, encode_hash_key,
  decode_hash_key, encode_qsize_key, decode_qsize_key, encode_qitem_key, decode_qitem_key,
  encode_seq_key, decode_seq_key,
}

-- A length byte and its string are read back, and what follows is left.
pub read_8_data-append :
    (n s : Bytes) → length n < 256 → read_8_data ((length n % 2 ^ 8) ∷ (n ++ s)) ≡ some (n, s)
unfolding read_8_data
read_8_data-append n s h =
    let e : length n % 2 ^ 8 ≡ length n = omega arith in
    rw e (ground (arith, length-append {0} n s, take-append n s, drop-append n s))

read_uint64-bytes : (v : ℕ) → v < 2 ^ 64 → read_uint64 (u64_bytes v) ≡ some (v, [])
unfolding read_uint64 le_bytes
read_uint64-bytes v h = ground (arith, le_word-u64_bytes v h)

-- The keys of values and of sizes are decoded to their names.
pub decode-name :
    (n : Bytes)
    → (decode_kv_key (encode_kv_key n) ≡ some n)
      × (decode_hsize_key (encode_hsize_key n) ≡ some n)
      × (decode_qsize_key (encode_qsize_key n) ≡ some n)
unfolding decode_kv_key decode_hsize_key decode_qsize_key
decode-name n = ground arith

-- The key of a field of a hash is decoded to the name and the field, for a name of at most 255 bytes.
pub decode_hash_key-encode :
    (n k : Bytes) → length n < 256 → decode_hash_key (encode_hash_key n k) ≡ some (n, k)
unfolding decode_hash_key
decode_hash_key-encode n k h = ground (arith, read_8_data-append n (b'=' ∷ k) h)

-- The key of an item of a queue is decoded to the name and the sequence number, for a name of at
-- most 255 bytes and a 64-bit number.
pub decode_qitem_key-encode :
    (n : Bytes) (a : ℕ)
    → length n < 256
    → a < 2 ^ 64
    → decode_qitem_key (encode_qitem_key n a) ≡ some (n, a)
unfolding decode_qitem_key
decode_qitem_key-encode n a h p = ground (
  arith,
  read_8_data-append n (u64_bytes (big_endian a)) h,
  read_uint64-bytes (big_endian a) (big_endian-lt a),
  big_endian-big_endian a p,
)

-- The key of a log record is decoded to its sequence number.
pub decode_seq_key-encode : (a : ℕ) → a < 2 ^ 64 → decode_seq_key (encode_seq_key a) ≡ a
unfolding decode_seq_key
decode_seq_key-encode a p = ground (
  arith,
  length-le_bytes 8 (big_endian a),
  le_word-u64_bytes (big_endian a) (big_endian-lt a),
  big_endian-big_endian a p,
)
