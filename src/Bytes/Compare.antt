-- ===== src/Bytes/Compare.antt =====
-- `Bytes::compare` is the lexicographic order, and decides equality.
use Prim.Native.Nat.{compare as compare_ℕ, Ordering}
use php.Prelude.{ℕ, suc, ◌≡◌, refl, ◌↔◌, true, [], ◌∷◌, arith, length, ltb, if◌then◌else◌}
use php.Bytes.{Bytes, compare, or_else, eqb}

-- The lexicographic order, by recursion on both strings.
abbrev pub lex : Bytes → Bytes → Ordering
lex [] [] = Ordering.eq
lex [] (y ∷ b) = Ordering.lt
lex (x ∷ a) [] = Ordering.gt
lex (x ∷ a) (y ∷ b) = or_else (compare_ℕ x y) (lex a b)

min_len-suc :
    (a b : ℕ) → (if ltb (suc a) (suc b) then suc a else suc b) ≡ suc (if ltb a b then a else b)
min_len-suc a b = ground arith

-- The two-step comparison of the source, by memcmp and then by length, is the lexicographic order.
pub compare-eq-lex : (a b : Bytes) → compare a b ≡ lex a b
unfolding compare
compare-eq-lex [] [] = refl
compare-eq-lex [] (y ∷ b) = ground arith
compare-eq-lex (x ∷ a) [] = ground arith
compare-eq-lex (x ∷ a) (y ∷ b) =
    rw (min_len-suc (length a) (length b)) (ground (arith, compare-eq-lex a b))

-- The comparison answers 0 exactly for equal strings.
pub lex-eq_iff : (a b : Bytes) → (lex a b ≡ Ordering.eq) ↔ (a ≡ b)
lex-eq_iff [] [] = ground arith
lex-eq_iff [] (y ∷ b) = ground arith
lex-eq_iff (x ∷ a) [] = ground arith
lex-eq_iff (x ∷ a) (y ∷ b) = ground (arith, lex-eq_iff a b)

pub eqb_iff : (a b : Bytes) → (eqb a b ≡ true) ↔ (a ≡ b)
unfolding eqb
eqb_iff [] [] = ground arith
eqb_iff [] (y ∷ b) = ground arith
eqb_iff (x ∷ a) [] = ground arith
eqb_iff (x ∷ a) (y ∷ b) = ground (arith, eqb_iff a b)
