-- ===== src/Keys/Zset/Laws.antt =====
-- The keys of sorted sets: what decoding gives, which keys differ, and their order.
use php.Prelude.{
  ℕ, suc, ◌-◌, ◌%◌, ◌^◌, ◌<◌, ◌≡◌, refl, ap, sym, ◌∙◌, Bool, true, false, ◌&&◌, some, [], ◌∷◌, ◌++◌,
  arith, length, drop, append-nil, Bool-cases, inl, inr, ◌↔◌, ◌==◌,
}
use Prim.Native.Nat.{compare as compare_ℕ, Ordering}
use php.Prelude.Int.{ℤ, pos, negsuc, word64, InInt64, signed64-word64, word64-lt}
use php.Bytes
use php.Bytes.{Bytes, or_else, eqb}
use php.Bytes.Compare.{lex, compare-eq-lex, lex-eq_iff, eqb_iff}
use php.Keys.Distinct.{eqb_refl, eqb_ne, eqb-cons, eqb-prefix}
use php.Bytes.Words.{
  big_endian, big_endian-big_endian, big_endian-lt, u64_bytes, le_bytes, le_word-u64_bytes,
  length-le_bytes,
}
use php.Bytes.Decoder.{read_8_data, read_uint64}
use php.Strings.Number.{str, str_to_int64-str}
use php.Keys.RoundTrip.{read_8_data-append}
use php.Keys.Order.{compare_refl, lex_prefix, lex-words}
use php.Keys.Zset.{
  encode_zset_key, decode_zset_key, zscore_key, sign, encode_zscore_key, decode_zscore_key,
}

read_8_data_all : (k : Bytes) → length k < 256 → read_8_data ((length k % 2 ^ 8) ∷ k) ≡ some (k, [])
read_8_data_all k h = rw (append-nil k) at (read_8_data-append k [] h)

read_uint64-append : (v : ℕ) (s : Bytes) → v < 2 ^ 64 → read_uint64 (u64_bytes v ++ s) ≡ some (v, s)
unfolding read_uint64 le_bytes
read_uint64-append v s h = ground (arith, le_word-u64_bytes v h)

-- The key of a member is decoded to the set's name and the member, for at most 255 bytes each.
pub decode_zset_key-encode :
    (n k : Bytes)
    → length n < 256
    → length k < 256
    → decode_zset_key (encode_zset_key n k) ≡ some (n, k)
unfolding decode_zset_key
decode_zset_key-encode n k h p =
    ground (arith, read_8_data-append n ((length k % 2 ^ 8) ∷ k) h, read_8_data_all k p)

-- The key of a score is decoded to the set's name, the member and the score's text, for a name of
-- at most 255 bytes and a 64-bit score.
pub decode_zscore_key-encode :
    (n k : Bytes) (z : ℤ)
    → length n < 256
    → InInt64 z
    → decode_zscore_key (encode_zscore_key n k (str z)) ≡ some (n, k, str z)
unfolding decode_zscore_key encode_zscore_key
decode_zscore_key-encode n k z h p =
    let w = big_endian (word64 z) in
    rw (str_to_int64-str z p) (
      ground (
        arith,
        read_8_data-append n (sign z ∷ (u64_bytes w ++ b'=' ∷ k)) h,
        read_uint64-append w (b'=' ∷ k) (big_endian-lt (word64 z)),
        big_endian-big_endian (word64 z) (word64-lt z),
        signed64-word64 z p,
      ))

-- Strings that begin with as many bytes are compared by these first.
lex-append :
    (a b s t : Bytes) → length a ≡ length b → lex (a ++ s) (b ++ t) ≡ or_else (lex a b) (lex s t)
lex-append [] [] s t e = refl
lex-append [] (y ∷ b) s t e = absurd (omega (arith, e))
lex-append (x ∷ a) [] s t e = absurd (omega (arith, e))
lex-append (x ∷ a) (y ∷ b) s t e = ground (arith, lex-append a b s t)

abbrev pub compare_ℤ : ℤ → ℤ → Ordering
compare_ℤ (pos a) (pos b) = compare_ℕ a b
compare_ℤ (pos a) (negsuc b) = Ordering.gt
compare_ℤ (negsuc a) (pos b) = Ordering.lt
compare_ℤ (negsuc a) (negsuc b) = compare_ℕ b a

abbrev score_bytes : ℤ → Bytes
score_bytes z = sign z ∷ u64_bytes (big_endian (word64 z))

lex-score : (z w : ℤ) → InInt64 z → InInt64 w → lex (score_bytes z) (score_bytes w) ≡ compare_ℤ z w
lex-score (pos a) (pos b) p q =
    ground (arith, lex-words (a % 2 ^ 64) (b % 2 ^ 64) (omega arith) (omega arith))
lex-score (pos a) (negsuc b) p q = refl
lex-score (negsuc a) (pos b) p q = refl
lex-score (negsuc a) (negsuc b) p q = ground (
  arith,
  lex-words (2 ^ 64 - 1 - a % 2 ^ 64) (2 ^ 64 - 1 - b % 2 ^ 64) (omega arith) (omega arith),
)

length-score_bytes : (z w : ℤ) → length (score_bytes z) ≡ length (score_bytes w)
length-score_bytes z w =
    ap suc
      (length-le_bytes 8 (big_endian (word64 z)) ∙ sym (length-le_bytes 8 (big_endian (word64 w))))

-- The score keys of one set lie in the order of the scores, negative ones before the others, and of
-- the members where the scores are equal.
pub compare-zscore_key :
    (n j k : Bytes) (z w : ℤ)
    → InInt64 z
    → InInt64 w
    → Bytes.compare (zscore_key n j z) (zscore_key n k w)
      ≡ or_else (compare_ℤ z w) (Bytes.compare j k)
compare-zscore_key n j k z w p q =
    compare-eq-lex (zscore_key n j z) (zscore_key n k w)
    ∙ rw (compare_refl (length n % 2 ^ 8), lex_prefix n)
        (lex-append (score_bytes z) (score_bytes w) (b'=' ∷ j) (b'=' ∷ k) (length-score_bytes z w)
          ∙ rw (lex-score z w p q, compare-eq-lex j k) refl)

abbrev pub eqb_ℤ : ℤ → ℤ → Bool
eqb_ℤ (pos a) (pos b) = a == b
eqb_ℤ (pos a) (negsuc b) = false
eqb_ℤ (negsuc a) (pos b) = false
eqb_ℤ (negsuc a) (negsuc b) = a == b

pub eqb_ℤ_iff : (z w : ℤ) → (eqb_ℤ z w ≡ true) ↔ (z ≡ w)
eqb_ℤ_iff (pos a) (pos b) = ground arith
eqb_ℤ_iff (pos a) (negsuc b) = ground arith
eqb_ℤ_iff (negsuc a) (pos b) = ground arith
eqb_ℤ_iff (negsuc a) (negsuc b) = ground arith

compare_ℤ_eq : (z w : ℤ) → compare_ℤ z w ≡ Ordering.eq → z ≡ w
compare_ℤ_eq (pos a) (pos b) e = ground arith
compare_ℤ_eq (pos a) (negsuc b) e = cc
compare_ℤ_eq (negsuc a) (pos b) e = cc
compare_ℤ_eq (negsuc a) (negsuc b) e = ground arith

or_else_eq : (p q : Ordering) → or_else p q ≡ Ordering.eq → (p ≡ Ordering.eq) × (q ≡ Ordering.eq)
or_else_eq Ordering.lt q e = cc
or_else_eq Ordering.eq q e = (refl, e)
or_else_eq Ordering.gt q e = cc

pub zscore_key-injective :
    (n j k : Bytes) (z w : ℤ)
    → InInt64 z
    → InInt64 w
    → zscore_key n j z ≡ zscore_key n k w
    → (j ≡ k) × (z ≡ w)
zscore_key-injective n j k z w p q e =
    let a = zscore_key n j z in
    let b = zscore_key n k w in
    let same : Bytes.compare a b ≡ Ordering.eq = compare-eq-lex a b ∙ (lex-eq_iff a b).1 e in
    let (s, m) =
      or_else_eq (compare_ℤ z w) (Bytes.compare j k)
        (sym (compare-zscore_key n j k z w p q) ∙ same) in
    ((lex-eq_iff j k).0 (sym (compare-eq-lex j k) ∙ m), compare_ℤ_eq z w s)

-- Score keys of one set are equal for equal members and scores only.
pub eqb-zscore_key :
    (n j k : Bytes) (z w : ℤ)
    → InInt64 z
    → InInt64 w
    → eqb (zscore_key n j z) (zscore_key n k w) ≡ (eqb j k && eqb_ℤ z w)
eqb-zscore_key n j k z w p q = elim (Bool-cases (eqb j k && eqb_ℤ z w)) [
  | inl e ↦
      let (ej, ez) : (eqb j k ≡ true) × (eqb_ℤ z w ≡ true) = ground arith in
      rw (e, (eqb_iff j k).0 ej, (eqb_ℤ_iff z w).0 ez) (eqb_refl (zscore_key n k w))
  | inr e ↦ rw e (
      eqb_ne (zscore_key n j z) (zscore_key n k w) (λ h.
        let (ek, ez) = zscore_key-injective n j k z w p q h in
        let tj = (eqb_iff j k).1 ek in let tz = (eqb_ℤ_iff z w).1 ez in ground (arith, tj, tz, e)))
]

pub eqb-zset_key :
    (n j k : Bytes)
    → length j < 256
    → length k < 256
    → eqb (encode_zset_key n j) (encode_zset_key n k) ≡ eqb j k
eqb-zset_key n j k p q = elim (Bool-cases (eqb j k)) [
  | inl e ↦ rw (e, (eqb_iff j k).0 e) (eqb_refl (encode_zset_key n k))
  | inr e ↦ rw e (
      eqb_ne (encode_zset_key n j) (encode_zset_key n k) (λ h.
        let t =
          eqb-cons _ _ _
          ∙ eqb-cons _ _ _
          ∙ eqb-prefix n ((length j % 2 ^ 8) ∷ j) ((length k % 2 ^ 8) ∷ k) in
        let s : (length j % 2 ^ 8) ∷ j ≡ (length k % 2 ^ 8) ∷ k =
          (eqb_iff _ _).0 (sym t ∙ (eqb_iff (encode_zset_key n j) (encode_zset_key n k)).1 h) in
        ground (arith, (eqb_iff j k).1 (ap (drop 1) s), e)))
]
