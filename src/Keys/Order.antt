-- ===== src/Keys/Order.antt =====
-- The order of the keys, which is that of the database's iterators, is the order of what they encode.
use Prim.Native.Nat.{compare as compare_ℕ, Ordering}
use php.Prelude.{ℕ, ◌^◌, ◌<◌, ◌≡◌, ◌%◌, refl, sym, ◌∙◌, length, [], ◌∷◌, ◌++◌, arith}
use php.Bytes.{Bytes, or_else}
use php.Bytes
use php.Bytes.Compare.{lex, compare-eq-lex}
use php.Bytes.Words.{big_endian, u64_bytes, u64_bytes-big_endian, lex-be_bytes}
use php.Keys.{encode_qitem_key, encode_seq_key, encode_kv_key, encode_hsize_key, encode_qsize_key}

pub compare_refl : (x : ℕ) → compare_ℕ x x ≡ Ordering.eq
compare_refl x = ground arith

-- A common prefix does not count.
pub lex_prefix : (n a b : Bytes) → lex (n ++ a) (n ++ b) ≡ lex a b
lex_prefix [] a b = refl
lex_prefix (x ∷ n) a b = rw (compare_refl x) (lex_prefix n a b)

pub lex-words :
    (a b : ℕ)
    → a < 2 ^ 64
    → b < 2 ^ 64
    → lex (u64_bytes (big_endian a)) (u64_bytes (big_endian b)) ≡ compare_ℕ a b
lex-words a b p q =
    let ea : a % 2 ^ 64 ≡ a = omega arith in
    let eb : b % 2 ^ 64 ≡ b = omega arith in
    rw (u64_bytes-big_endian a p, u64_bytes-big_endian b q, lex-be_bytes 8 a b, ea, eb)

-- The items of one queue lie in the order of their sequence numbers, and the log records too.
pub compare-seq :
    (n : Bytes) (a b : ℕ)
    → a < 2 ^ 64
    → b < 2 ^ 64
    → (Bytes.compare (encode_qitem_key n a) (encode_qitem_key n b) ≡ compare_ℕ a b)
      × (Bytes.compare (encode_seq_key a) (encode_seq_key b) ≡ compare_ℕ a b)
compare-seq n a b p q = (
  compare-eq-lex (encode_qitem_key n a) (encode_qitem_key n b)
      ∙ rw (compare_refl (length n % 2 ^ 8), lex_prefix n) (lex-words a b p q),
  compare-eq-lex (encode_seq_key a) (encode_seq_key b) ∙ lex-words a b p q,
)

-- The keys of values, of hash sizes and of queue sizes lie in the order of their names.
pub compare-name :
    (a b : Bytes)
    → (Bytes.compare (encode_kv_key a) (encode_kv_key b) ≡ Bytes.compare a b)
      × (Bytes.compare (encode_hsize_key a) (encode_hsize_key b) ≡ Bytes.compare a b)
      × (Bytes.compare (encode_qsize_key a) (encode_qsize_key b) ≡ Bytes.compare a b)
compare-name a b =
    let e = sym (compare-eq-lex a b) in
    (
      compare-eq-lex (encode_kv_key a) (encode_kv_key b) ∙ e,
      compare-eq-lex (encode_hsize_key a) (encode_hsize_key b) ∙ e,
      compare-eq-lex (encode_qsize_key a) (encode_qsize_key b) ∙ e,
    )
