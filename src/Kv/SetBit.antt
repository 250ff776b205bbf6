-- ===== src/Kv/SetBit.antt =====
-- t_kv.cpp: what is read of a value after the bit that setbit writes.
use php.Prelude.{
  ℕ, zero, suc, ◌+◌, ◌-◌, ◌/◌, ◌%◌, ◌^◌, ◌≤◌, ◌<◌, ◌≡◌, ◌≢◌, refl, sym, ap, ◌∙◌, [], ◌∷◌, ◌++◌,
  arith, length, leb, ◌==◌, if◌then◌else◌, get_or, set, leb→le, Bool-cases, inl, inr, length-set,
  length-append,
}
use native.Mathlib.Decide.{ℕ_discrete}
use php.Prelude.Int.{ℤ}
use php.Bytes.{Bytes}
use php.Kv.Bits.{is_one, with_bit, bit_at, bit_on, bit_off, masked, resized, zeros}
use php.Kv.ByteBits.{bit_of, pow_pos, masked_on, masked_off, masked_zero, zero_bit, written-other}

get_or-set : (xs : Bytes) (i d : ℕ) → i < length xs → get_or (set xs i d) i 0 ≡ d
get_or-set [] i d h = elim h [ ]
get_or-set (x ∷ xs) zero d h = refl
get_or-set (x ∷ xs) (suc i) d h = get_or-set xs i d (omega arith)

length-zeros : (n : ℕ) → length (zeros n) ≡ n
length-zeros zero = refl
length-zeros (suc n) = ap suc (length-zeros n)

get_or-zeros : (n i : ℕ) → get_or (zeros n) i 0 ≡ 0
get_or-zeros zero i = refl
get_or-zeros (suc n) zero = refl
get_or-zeros (suc n) (suc i) = get_or-zeros n i

get_or-resized : (xs : Bytes) (n i : ℕ) → length xs ≤ i → get_or (xs ++ zeros n) i 0 ≡ 0
get_or-resized [] n i h = get_or-zeros n i
get_or-resized (x ∷ xs) n zero h = absurd (omega (arith, h))
get_or-resized (x ∷ xs) n (suc i) h = get_or-resized xs n i (omega arith)

length-resized : (xs : Bytes) (n : ℕ) → length xs ≤ n → length (resized xs n) ≡ n
length-resized xs n h =
    length-append {0} xs (zeros (n - length xs))
    ∙ ap (λ k. length xs + k) (length-zeros (n - length xs))
    ∙ omega arith

-- The value after a write of the byte of the bit.
bit_at-set :
    (val : Bytes) (p d : ℕ)
    → p / 8 < length val
    → bit_at (set val (p / 8) d) p ≡ (if masked d (p % 8) == 0 then 0 else 1)
unfolding bit_at
bit_at-set val p d h = ground (arith, length-set {0} val (p / 8) d, get_or-set val (p / 8) d h)

-- The byte that setbit changes, in a value that it has lengthened where the byte was past its end.
abbrev grown : Bytes → ℕ → Bytes
grown old p = if leb (length old) (p / 8) then resized old (p / 8 + 1) else old

grown_lem :
    (old : Bytes) (p : ℕ)
    → (p / 8 < length (grown old p))
      × (bit_at old p ≡ (if masked (get_or (grown old p) (p / 8) 0) (p % 8) == 0 then 0 else 1))
unfolding bit_at
grown_lem old p = elim (Bool-cases (leb (length old) (p / 8))) [
  | inl e ↦
      let h : length old ≤ p / 8 = leb→le (length old) (p / 8) e in
      let z = get_or-resized old (p / 8 + 1 - length old) (p / 8) h in
      rw e (
        omega (arith, length-resized old (p / 8 + 1) (omega arith)),
        rw (z, masked_zero (p % 8) (omega arith)) refl,
      )
  | inr e ↦ rw e (ground arith, refl)
]

-- Whatever the value was and however short: the bit that is set, and the one that was there.
pub bit_at-with_bit :
    (old : Bytes) (p : ℕ) (on : ℤ)
    → (bit_at (with_bit old p on).0 p ≡ (if is_one on then 1 else 0))
      × ((with_bit old p on).1 ≡ (if bit_at old p == 0 then 0 else 2 ^ (p % 8)))
unfolding with_bit
bit_at-with_bit old p on =
    let (h, e) = grown_lem old p in
    let c = get_or (grown old p) (p / 8) 0 in
    let d = if is_one on then bit_on c (p % 8) else bit_off c (p % 8) in
    (
      bit_at-set (grown old p) p d h ∙ ground (arith, masked_on c p, masked_off c p),
      rw e (ground (arith, pow_pos (p % 8))),
    )

get_or_past : (xs : Bytes) (i : ℕ) → length xs ≤ i → get_or xs i 0 ≡ 0
get_or_past [] i h = refl
get_or_past (x ∷ xs) zero h = absurd (omega (arith, h))
get_or_past (x ∷ xs) (suc i) h = get_or_past xs i (omega arith)

get_or-append_zeros : (xs : Bytes) (n i : ℕ) → get_or (xs ++ zeros n) i 0 ≡ get_or xs i 0
get_or-append_zeros [] n i = get_or-zeros n i
get_or-append_zeros (x ∷ xs) n zero = refl
get_or-append_zeros (x ∷ xs) n (suc i) = get_or-append_zeros xs n i

get_or-grown : (old : Bytes) (p i : ℕ) → get_or (grown old p) i 0 ≡ get_or old i 0
get_or-grown old p i = elim (Bool-cases (leb (length old) (p / 8))) [
  | inl e ↦ rw e (get_or-append_zeros old (p / 8 + 1 - length old) i)
  | inr e ↦ rw e refl
]

get_or-set_other : (xs : Bytes) (i j d : ℕ) → j ≢ i → get_or (set xs i d) j 0 ≡ get_or xs j 0
get_or-set_other [] i j d h = refl
get_or-set_other (x ∷ xs) zero zero d h = absurd (h refl)
get_or-set_other (x ∷ xs) zero (suc j) d h = refl
get_or-set_other (x ∷ xs) (suc i) zero d h = refl
get_or-set_other (x ∷ xs) (suc i) (suc j) d h = get_or-set_other xs i j d (λ e. h (ap suc e))

-- What getbit answers is the bit of a byte, where a byte past the end is 0.
bit_at_lem : (val : Bytes) (q : ℕ) → bit_at val q ≡ bit_of (get_or val (q / 8) 0) (q % 8)
unfolding bit_at
bit_at_lem val q = elim (Bool-cases (leb (length val) (q / 8))) [
  | inl e ↦ rw (e, get_or_past val (q / 8) (leb→le (length val) (q / 8) e)) (sym (zero_bit (q % 8)))
  | inr e ↦ rw e (ground (arith, pow_pos (q % 8)))
]

-- The other bits are read as before.
pub bit_at-with_bit_other :
    (old : Bytes) (p q : ℕ) (on : ℤ) → q ≢ p → bit_at (with_bit old p on).0 q ≡ bit_at old q
unfolding with_bit
bit_at-with_bit_other old p q on ne =
    let c = get_or (grown old p) (p / 8) 0 in
    let d = if is_one on then bit_on c (p % 8) else bit_off c (p % 8) in
    bit_at_lem (set (grown old p) (p / 8) d) q
    ∙ elim (ℕ_discrete (q / 8) (p / 8)) [
      | yes e ↦
          let others : q % 8 ≢ p % 8 = λ f. ne (omega (arith, e, f)) in
          let at : get_or (set (grown old p) (p / 8) d) (q / 8) 0 ≡ d =
            ap (λ i. get_or (set (grown old p) (p / 8) d) i 0) e
            ∙ get_or-set (grown old p) (p / 8) d (grown_lem old p).0 in
          let before : c ≡ get_or old (q / 8) 0 =
            get_or-grown old p (p / 8) ∙ ap (λ i. get_or old i 0) (sym e) in
          ap (λ x. bit_of x (q % 8)) at
          ∙ written-other c (q % 8) (p % 8) on (omega arith) others
          ∙ ap (λ x. bit_of x (q % 8)) before
      | no e ↦
          ap (λ x. bit_of x (q % 8))
            (get_or-set_other (grown old p) (p / 8) (q / 8) d e ∙ get_or-grown old p (q / 8))
    ]
    ∙ sym (bit_at_lem old q)
