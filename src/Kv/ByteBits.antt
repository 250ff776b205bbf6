-- ===== src/Kv/ByteBits.antt =====
-- The bits of a byte: the one that setbit writes, and the others.
use php.Prelude.{
  ℕ, zero, suc, ◌+◌, ◌-◌, ◌*◌, ◌/◌, ◌%◌, ◌^◌, ◌≤◌, ◌<◌, ◌≡◌, ◌≢◌, refl, sym, ap, ◌∙◌, true, false,
  arith, ◌==◌, if◌then◌else◌, Bool-cases, inl, inr,
}
use native.Mathlib.Nat.{div-div-eq-div-mul, zero-div}
use php.Prelude.Int.{ℤ}
use php.Kv.Bits.{is_one, bit_on, bit_off, masked}

-- The bit b of a byte.
abbrev pub bit_of : ℕ → ℕ → ℕ
bit_of c b = c / 2 ^ b % 2

bit_on_lem : (c b : ℕ) → b < 8 → bit_of (bit_on c b) b ≡ 1
bit_on_lem c zero h = ground arith
bit_on_lem c (suc zero) h = ground arith
bit_on_lem c (suc (suc zero)) h = ground arith
bit_on_lem c (suc (suc (suc zero))) h = ground arith
bit_on_lem c (suc (suc (suc (suc zero)))) h = ground arith
bit_on_lem c (suc (suc (suc (suc (suc zero))))) h = ground arith
bit_on_lem c (suc (suc (suc (suc (suc (suc zero)))))) h = ground arith
bit_on_lem c (suc (suc (suc (suc (suc (suc (suc zero))))))) h = ground arith
bit_on_lem c (suc (suc (suc (suc (suc (suc (suc (suc b)))))))) h = absurd (omega (arith, h))

bit_off_lem : (c b : ℕ) → b < 8 → bit_of (bit_off c b) b ≡ 0
bit_off_lem c zero h = ground arith
bit_off_lem c (suc zero) h = ground arith
bit_off_lem c (suc (suc zero)) h = ground arith
bit_off_lem c (suc (suc (suc zero))) h = ground arith
bit_off_lem c (suc (suc (suc (suc zero)))) h = ground arith
bit_off_lem c (suc (suc (suc (suc (suc zero))))) h = ground arith
bit_off_lem c (suc (suc (suc (suc (suc (suc zero)))))) h = ground arith
bit_off_lem c (suc (suc (suc (suc (suc (suc (suc zero))))))) h = ground arith
bit_off_lem c (suc (suc (suc (suc (suc (suc (suc (suc b)))))))) h = absurd (omega (arith, h))

two_pow : (b : ℕ) → 0 < 2 ^ b
two_pow zero = omega arith
two_pow (suc b) = omega (arith, two_pow b)

pub pow_pos : (b : ℕ) → (2 ^ b == 0) ≡ false
pow_pos b = ground (arith, two_pow b)

pub masked_on : (c p : ℕ) → (masked (bit_on c (p % 8)) (p % 8) == 0) ≡ false
masked_on c p = rw (bit_on_lem c (p % 8) (omega arith)) (pow_pos (p % 8))

pub masked_off : (c p : ℕ) → (masked (bit_off c (p % 8)) (p % 8) == 0) ≡ true
masked_off c p = rw (bit_off_lem c (p % 8) (omega arith)) refl

pub masked_zero : (b : ℕ) → b < 8 → masked 0 b ≡ 0
masked_zero zero h = ground arith
masked_zero (suc zero) h = ground arith
masked_zero (suc (suc zero)) h = ground arith
masked_zero (suc (suc (suc zero))) h = ground arith
masked_zero (suc (suc (suc (suc zero)))) h = ground arith
masked_zero (suc (suc (suc (suc (suc zero))))) h = ground arith
masked_zero (suc (suc (suc (suc (suc (suc zero)))))) h = ground arith
masked_zero (suc (suc (suc (suc (suc (suc (suc zero))))))) h = ground arith
masked_zero (suc (suc (suc (suc (suc (suc (suc (suc b)))))))) h = absurd (omega (arith, h))

half : (c b : ℕ) → c / 2 ^ suc b ≡ c / 2 / 2 ^ b
half c b =
    let double : 2 ^ suc b ≡ 2 * 2 ^ b = omega arith in
    ap (λ m. c / m) double ∙ sym (div-div-eq-div-mul c 2 (2 ^ b))

bit_of-suc : (c b : ℕ) → bit_of c (suc b) ≡ bit_of (c / 2) b
bit_of-suc c b = ap (λ m. m % 2) (half c b)

-- A bit that is not there is added and leaves the others.
bit_of-add : (c a b : ℕ) → a ≢ b → bit_of c b ≡ 0 → bit_of (c + 2 ^ b) a ≡ bit_of c a
bit_of-add c zero zero ne e = absurd (ne refl)
bit_of-add c zero (suc b) ne e =
    let double : 2 ^ suc b ≡ 2 * 2 ^ b = omega arith in omega (arith, double)
bit_of-add c (suc a) zero ne e =
    let same : (c + 1) / 2 ≡ c / 2 = omega (arith, e) in
    bit_of-suc (c + 1) a ∙ ap (λ m. bit_of m a) same ∙ sym (bit_of-suc c a)
bit_of-add c (suc a) (suc b) ne e =
    let double : 2 ^ suc b ≡ 2 * 2 ^ b = omega arith in
    let same : (c + 2 ^ suc b) / 2 ≡ c / 2 + 2 ^ b = omega (arith, double) in
    bit_of-suc (c + 2 ^ suc b) a
    ∙ ap (λ m. bit_of m a) same
    ∙ bit_of-add (c / 2) a b (λ f. ne (ap suc f)) (sym (bit_of-suc c b) ∙ e)
    ∙ sym (bit_of-suc c a)

bit_of-large : (c b : ℕ) → bit_of c b ≡ 1 → 2 ^ b ≤ c
bit_of-large c zero e = omega (arith, e)
bit_of-large c (suc b) e = omega (arith, bit_of-large (c / 2) b (sym (bit_of-suc c b) ∙ e))

bit_on-other : (c a b : ℕ) → a ≢ b → bit_of (bit_on c b) a ≡ bit_of c a
bit_on-other c a b ne = elim (Bool-cases (bit_of c b == 1)) [
  | inl e ↦ rw e refl
  | inr e ↦ rw e (bit_of-add c a b ne (ground arith))
]

bit_off-other : (c a b : ℕ) → b < 8 → a ≢ b → bit_of (bit_off c b) a ≡ bit_of c a
bit_off-other c a b h ne = elim (Bool-cases (bit_of c b == 1)) [
  | inl e ↦
      let large : 2 ^ b ≤ c = bit_of-large c b (ground (arith, e)) in
      let back : c - 2 ^ b + 2 ^ b ≡ c = omega arith in
      let off : bit_of (c - 2 ^ b) b ≡ 0 = rw e at (bit_off_lem c b h) in
      rw e (sym (bit_of-add (c - 2 ^ b) a b ne off) ∙ ap (λ m. bit_of m a) back)
  | inr e ↦ rw e refl
]

pub zero_bit : (b : ℕ) → bit_of 0 b ≡ 0
zero_bit b = ap (λ m. m % 2) (zero-div (2 ^ b))

pub written-other :
    (c a b : ℕ) (on : ℤ)
    → b < 8
    → a ≢ b
    → bit_of (if is_one on then bit_on c b else bit_off c b) a ≡ bit_of c a
written-other c a b on h ne = elim (Bool-cases (is_one on)) [
  | inl e ↦ rw e (bit_on-other c a b ne)
  | inr e ↦ rw e (bit_off-other c a b h ne)
]
