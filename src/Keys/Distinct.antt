-- ===== src/Keys/Distinct.antt =====
-- Keys of different kinds, of different names and of different items are different keys.
use php.Prelude.{
  ℕ, ◌<◌, ◌^◌, ◌≡◌, ◌≢◌, refl, ap, true, false, [], ◌∷◌, ◌++◌, arith, length, length-append, ◌==◌,
  ==_iff, Bool-cases, inl, inr, sym, ◌∙◌, drop,
}
use php.Bytes.{Bytes, eqb}
use php.Bytes.Compare.{eqb_iff}
use php.Bytes.Words.{
  big_endian, u64_bytes, u64_bytes-big_endian, be_bytes-injective, length-le_bytes,
}
use php.Keys.{encode_qsize_key, encode_qitem_key}

pub eqb_refl : (a : Bytes) → eqb a a ≡ true
eqb_refl a = (eqb_iff a a).1 refl

pub eqb_ne : (a b : Bytes) → a ≢ b → eqb a b ≡ false
eqb_ne a b h = elim (Bool-cases (eqb a b)) [ inl e ↦ absurd (h ((eqb_iff a b).0 e)) | inr e ↦ e ]

-- Strings that differ in the first byte.
pub eqb_head : (x y : ℕ) (a b : Bytes) → x ≢ y → eqb (x ∷ a) (y ∷ b) ≡ false
eqb_head x y a b h = eqb_ne (x ∷ a) (y ∷ b) (λ e. h (cc))

-- Two splittings of a string with tails of one length are the same splitting.
append-injective : (a b s t : Bytes) → length s ≡ length t → a ++ s ≡ b ++ t → (a ≡ b) × (s ≡ t)
append-injective [] [] s t h e = (refl, e)
append-injective [] (y ∷ b) s t h e = absurd (omega (arith, ap length e, length-append {0} b t))
append-injective (x ∷ a) [] s t h e = absurd (omega (arith, ap length e, length-append {0} a s))
append-injective (x ∷ a) (y ∷ b) s t h e = ground (arith, append-injective a b s t)

word_in_key-injective :
    (a b : ℕ)
    → a < 2 ^ 64
    → b < 2 ^ 64
    → u64_bytes (big_endian a) ≡ u64_bytes (big_endian b)
    → a ≡ b
word_in_key-injective a b p q e =
    be_bytes-injective a b p q (sym (u64_bytes-big_endian a p) ∙ e ∙ u64_bytes-big_endian b q)

-- The key of a queue's item determines the queue and the sequence number, whatever the name's length.
pub encode_qitem_key-injective :
    (n m : Bytes) (a b : ℕ)
    → a < 2 ^ 64
    → b < 2 ^ 64
    → encode_qitem_key n a ≡ encode_qitem_key m b
    → (n ≡ m) × (a ≡ b)
encode_qitem_key-injective n m a b p q e =
    let (names, words) =
      append-injective n m (u64_bytes (big_endian a)) (u64_bytes (big_endian b))
        (length-le_bytes 8 (big_endian a) ∙ sym (length-le_bytes 8 (big_endian b)))
        (ap (drop 2) e) in
    (names, word_in_key-injective a b p q words)

pub eqb-qitem_self :
    (n : Bytes) (a b : ℕ)
    → a < 2 ^ 64
    → b < 2 ^ 64
    → eqb (encode_qitem_key n a) (encode_qitem_key n b) ≡ (a == b)
eqb-qitem_self n a b p q = elim (Bool-cases (a == b)) [
  | inl e ↦ rw (e, (==_iff a b).0 e) (eqb_refl (encode_qitem_key n b))
  | inr e ↦ rw e (eqb_ne _ _ (λ k. ground (arith, (encode_qitem_key-injective n n a b p q k).1)))
]

-- Different names have different keys, whatever the sequence numbers.
pub eqb-qitem_names :
    (n m : Bytes) (a b : ℕ) → n ≢ m → eqb (encode_qitem_key n a) (encode_qitem_key m b) ≡ false
eqb-qitem_names n m a b h = eqb_ne _ _ λ k.
    h
      (append-injective n m (u64_bytes (big_endian a)) (u64_bytes (big_endian b))
        (length-le_bytes 8 (big_endian a) ∙ sym (length-le_bytes 8 (big_endian b)))
        (ap (drop 2) k)).0

pub eqb-qsize_ne : (n m : Bytes) → n ≢ m → eqb (encode_qsize_key n) (encode_qsize_key m) ≡ false
eqb-qsize_ne n m h = eqb_ne _ _ (λ k. h (ap (drop 1) k))

-- Keys of different kinds differ in their first byte.
pub eqb-qsize-qitem :
    (n m : Bytes) (a : ℕ) → eqb (encode_qsize_key n) (encode_qitem_key m a) ≡ false
eqb-qsize-qitem n m a = eqb_head _ _ _ _ (omega arith)

pub eqb-qitem-qsize :
    (n m : Bytes) (a : ℕ) → eqb (encode_qitem_key n a) (encode_qsize_key m) ≡ false
eqb-qitem-qsize n m a = eqb_head _ _ _ _ (omega arith)

-- A common first byte does not count.
pub eqb-cons : (x : ℕ) (a b : Bytes) → eqb (x ∷ a) (x ∷ b) ≡ eqb a b
eqb-cons x a b = elim (Bool-cases (eqb a b)) [
  | inl e ↦ let p : a ≡ b = (eqb_iff a b).0 e in rw (e, p) (eqb_refl (x ∷ b))
  | inr e ↦ rw e (eqb_ne (x ∷ a) (x ∷ b) (λ p. ground (arith, (eqb_iff a b).1 (ap (drop 1) p))))
]

pub eqb-prefix : (n a b : Bytes) → eqb (n ++ a) (n ++ b) ≡ eqb a b
eqb-prefix [] a b = refl
eqb-prefix (x ∷ n) a b = eqb-cons x (n ++ a) (n ++ b) ∙ eqb-prefix n a b
