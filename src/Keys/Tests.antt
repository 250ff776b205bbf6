-- ===== src/Keys/Tests.antt =====
-- The theorems on keys at concrete names.
use php.Prelude.{◌≡◌, [], ◌∷◌, arith}
use php.Bytes
use php.Bytes.{Bytes}
use php.Keys.{encode_kv_key, encode_hsize_key, encode_qsize_key, encode_seq_key, decode_seq_key}
use php.Keys.RoundTrip.{decode_seq_key-encode}
use php.Keys.Order.{compare-name}
use php.Prelude.Int.{pos, negsuc}
use php.Keys.Zset.{zscore_key}
use php.Keys.Zset.Laws.{compare-zscore_key}
use Prim.Native.Nat.{Ordering}

abbrev user : Bytes
user = b'u' ∷ b'=' ∷ []

abbrev field : Bytes
field = b'=' ∷ b'f' ∷ []

decode_seq_key-encode_example : decode_seq_key (encode_seq_key 258) ≡ 258
decode_seq_key-encode_example = decode_seq_key-encode 258 (omega arith)

compare-name_example :
    (Bytes.compare (encode_kv_key user) (encode_kv_key field) ≡ Bytes.compare user field)
    × (Bytes.compare (encode_hsize_key user) (encode_hsize_key field) ≡ Bytes.compare user field)
    × (Bytes.compare (encode_qsize_key user) (encode_qsize_key field) ≡ Bytes.compare user field)
compare-name_example = compare-name user field

compare-zscore_key_example :
    Bytes.compare (zscore_key user field (negsuc 0)) (zscore_key user user (pos 0)) ≡ Ordering.lt
compare-zscore_key_example =
    compare-zscore_key user field user (negsuc 0) (pos 0) (omega arith) (omega arith)
