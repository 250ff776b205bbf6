-- ===== src/Bytes/Order.antt =====
-- The order of strings of bytes as a Boolean test, and strings with a common prefix.
use Prim.Native.Nat.{Ordering}
use php.Prelude.{
  ◌≡◌, refl, Bool, true, false, Option, none, some, [], ◌∷◌, ◌++◌, arith, ◌==◌, if◌then◌else◌,
  Bool-cases, inl, inr,
}
use php.Bytes.{Bytes, eqb}
use php.Bytes.Compare.{lex, eqb_iff}

abbrev pub is_lt : Ordering → Bool
is_lt Ordering.lt = true
is_lt _ = false

-- a stands before b.
abbrev pub lt : Bytes → Bytes → Bool
lt a b = is_lt (lex a b)

pub lt_irrefl : (a : Bytes) → lt a a ≡ false
lt_irrefl [] = refl
lt_irrefl (x ∷ a) = ground (arith, lt_irrefl a)

pub lt_trans : (a b c : Bytes) → lt a b ≡ true → lt b c ≡ true → lt a c ≡ true
lt_trans [] [] c p q = cc
lt_trans [] (y ∷ b) [] p q = cc
lt_trans [] (y ∷ b) (z ∷ c) p q = refl
lt_trans (x ∷ a) [] c p q = cc
lt_trans (x ∷ a) (y ∷ b) [] p q = cc
lt_trans (x ∷ a) (y ∷ b) (z ∷ c) p q = ground (arith, lt_trans a b c)

-- Two strings of which neither stands before the other are equal.
pub lt_total : (a b : Bytes) → lt a b ≡ false → lt b a ≡ false → a ≡ b
lt_total [] [] p q = refl
lt_total [] (y ∷ b) p q = cc
lt_total (x ∷ a) [] p q = cc
lt_total (x ∷ a) (y ∷ b) p q = ground (arith, lt_total a b)

pub lt_asym : (a b : Bytes) → lt a b ≡ true → lt b a ≡ false
lt_asym a b p = elim (Bool-cases (lt b a)) [
  | inl q ↦ cc (lt_trans a b a p q, lt_irrefl a)
  | inr q ↦ q
]

pub lt-eqb : (a b : Bytes) → lt a b ≡ true → eqb a b ≡ false
lt-eqb a b p = elim (Bool-cases (eqb a b)) [
  | inl e ↦ let same : a ≡ b = (eqb_iff a b).0 e in cc (rw same at p, lt_irrefl b)
  | inr e ↦ e
]

pub lt_prefix : (p a b : Bytes) → lt (p ++ a) (p ++ b) ≡ lt a b
lt_prefix [] a b = refl
lt_prefix (x ∷ p) a b = ground (arith, lt_prefix p a b)

-- What follows the prefix, where the string has it.
abbrev pub strip : Bytes → Bytes → Option Bytes
strip [] s = some s
strip (x ∷ p) [] = none
strip (x ∷ p) (y ∷ s) = let rest = strip p s in if x == y then rest else none

pub strip-append : (p s : Bytes) → strip p (p ++ s) ≡ some s
strip-append [] s = refl
strip-append (x ∷ p) s = ground (arith, strip-append p s)

pub append-strip : (p s t : Bytes) → strip p s ≡ some t → s ≡ p ++ t
append-strip [] s t e = ground arith
append-strip (x ∷ p) [] t e = cc
append-strip (x ∷ p) (y ∷ s) t e = ground (arith, append-strip p s t)

-- The strings with a prefix lie together: what stands between two of them has it.
pub strip_between :
    (p a s b : Bytes)
    → lt (p ++ a) s ≡ true
    → lt s (p ++ b) ≡ true
    → strip p s ≡ none
    → false ≡ true
strip_between [] a s b h k e = cc
strip_between (x ∷ p) a [] b h k e = cc
strip_between (x ∷ p) a (y ∷ s) b h k e = ground (arith, strip_between p a s b)
