-- ===== src/Iterator/Section.antt =====
-- The keys of one kind, which begin with the same bytes, and what a typed iterator that stops at a
-- key without that prefix reads of them.
use php.Prelude.{
  ℕ, zero, suc, ◌≡◌, refl, sym, ap, ◌∙◌, Bool, true, none, some, List, [], ◌∷◌, ◌++◌, arith, take,
  if◌then◌else◌, Bool-cases, Option-cases, inl, inr,
}
use php.Bytes.{Bytes, is_empty}
use php.Bytes.Order.{lt, lt_prefix, strip, append-strip, strip_between}
use php.LevelDb.Iterators.{Entry, AllAfter, IsSorted}
use php.Iterator.{Seen, stop, taken}
use php.Iterator.Range.{in_range}
use php.Iterator.Range.Keep.{keep, keep-IsSorted}
use php.Iterator.Typed.{collect}

-- An entry whose key has the prefix is read, less the prefix, and another one stops.
abbrev pub reading : Bytes → Entry → Seen Entry
reading p e = elim (strip p e.0) [ none ↦ stop | some t ↦ taken (t, e.1) ]

-- The entries whose keys have the prefix, less the prefix.
abbrev pub section : Bytes → List Entry → List Entry
section p [] = []
section p (e ∷ es) =
    let rest = section p es in elim (strip p e.0) [ none ↦ rest | some t ↦ (t, e.1) ∷ rest ]

pub section-out :
    (p : Bytes) (e : Entry) (es : List Entry)
    → strip p e.0 ≡ none
    → section p (e ∷ es) ≡ section p es
section-out p e es x = rw (x, section) refl

pub section-in :
    (p : Bytes) (e : Entry) (es : List Entry) (t : Bytes)
    → strip p e.0 ≡ some t
    → section p (e ∷ es) ≡ (t, e.1) ∷ section p es
section-in p e es t x = rw (x, section) refl

-- At each of the entries, `seen` is `reading p`.
abbrev pub Reads : (Entry → Seen Entry) → Bytes → List Entry → Type 0
Reads seen p [] = Unit
Reads seen p (e ∷ es) = (seen e ≡ reading p e) × Reads seen p es

pub keep-Reads :
    (seen : Entry → Seen Entry) (p : Bytes) (q : Bytes → Bool) (es : List Entry)
    → Reads seen p es
    → Reads seen p (keep q es)
keep-Reads seen p q [] r = r
keep-Reads seen p q (e ∷ es) (h, r) = elim (Bool-cases (q e.0)) [
  | inl x ↦ rw x (h, keep-Reads seen p q es r)
  | inr x ↦ rw x (keep-Reads seen p q es r)
]

pub collect-take :
    (seen : Entry → Seen Entry) (p : Bytes) (n : ℕ) (es : List Entry)
    → Reads seen p es
    → collect seen (take n es) ≡ take n (collect (reading p) es)
collect-take seen p zero es r = refl
collect-take seen p (suc n) [] r = refl
collect-take seen p (suc n) (e ∷ es) (h, r) = elim (Option-cases (strip p e.0)) [
  | inl x ↦ rw (h, collect, x) refl
  | inr (t, x) ↦ rw (h, collect, x) (ap (λ l. (t, e.1) ∷ l) (collect-take seen p n es r))
]

section-none :
    (p a s : Bytes) (es : List Entry)
    → lt (p ++ a) s ≡ true
    → strip p s ≡ none
    → AllAfter s es
    → section p es ≡ []
section-none p a s [] h x b = refl
section-none p a s (e ∷ es) h x (k, b) = elim (Option-cases (strip p e.0)) [
  | inl y ↦ rw (y, section) (section-none p a s es h x b)
  | inr (t, y) ↦
      let at : e.0 ≡ p ++ t = append-strip p e.0 t y in
      cc (strip_between p a s t h (rw (sym at) k) x)
]

collect-section :
    (p a : Bytes) (es : List Entry)
    → IsSorted es
    → AllAfter (p ++ a) es
    → collect (reading p) es ≡ section p es
collect-section p a [] s b = refl
collect-section p a (e ∷ es) (c, s) (h, b) = elim (Option-cases (strip p e.0)) [
  | inl x ↦ rw (x, collect, section) (sym (section-none p a e.0 es h x c))
  | inr (t, x) ↦ rw (x, collect, section) (ap (λ l. (t, e.1) ∷ l) (collect-section p a es s b))
]

-- The bound on the keys, from a bound on what follows the prefix; [] is none.
abbrev pub bound : Bytes → Bytes → Bytes
bound p end = if is_empty end then [] else p ++ end

in_range-prefix :
    (c : ℕ) (p start end t : Bytes)
    → in_range ((c ∷ p) ++ start) (bound (c ∷ p) end) ((c ∷ p) ++ t) ≡ in_range start end t
in_range-prefix c p start [] t = rw (lt_prefix (c ∷ p) start t) refl
in_range-prefix c p start (x ∷ end) t =
    rw (lt_prefix (c ∷ p) start t, lt_prefix (c ∷ p) (x ∷ end) t) refl

pub section-keep :
    (p : Bytes) (q r : Bytes → Bool) (es : List Entry)
    → ((t : Bytes) → q (p ++ t) ≡ r t)
    → section p (keep q es) ≡ keep r (section p es)
section-keep p q r [] h = refl
section-keep p q r (e ∷ es) h = elim (Option-cases (strip p e.0)) [
  | inl x ↦ elim (Bool-cases (q e.0)) [
    | inl y ↦ rw y (
        section-out p e (keep q es) x
        ∙ section-keep p q r es h
        ∙ ap (keep r) (sym (section-out p e es x)))
    | inr y ↦ rw y (section-keep p q r es h ∙ ap (keep r) (sym (section-out p e es x)))
  ]
  | inr (t, x) ↦
      let at : q e.0 ≡ r t = ap q (append-strip p e.0 t x) ∙ h t in
      elim (Bool-cases (r t)) [
        | inl y ↦
            rw (at, y, section-in p e es t x, y)
              (section-in p e (keep q es) t x ∙ ap (λ l. (t, e.1) ∷ l) (section-keep p q r es h))
        | inr y ↦ rw (at, y, section-in p e es t x, y) (section-keep p q r es h)
      ]
]

pub keep_after :
    (k : Bytes) (q : Bytes → Bool) (es : List Entry)
    → ((j : Bytes) → q j ≡ true → lt k j ≡ true)
    → AllAfter k (keep q es)
keep_after k q [] h = tt
keep_after k q (e ∷ es) h = elim (Bool-cases (q e.0)) [
  | inl x ↦ rw x (h e.0 x, keep_after k q es h)
  | inr x ↦ rw x (keep_after k q es h)
]

-- What a typed iterator reads of the first n entries of a range of its keys: the first n of the
-- range among the entries of its kind.
pub collect-range :
    (seen : Entry → Seen Entry) (c : ℕ) (p start end : Bytes) (n : ℕ) (es : List Entry)
    → IsSorted es
    → Reads seen (c ∷ p) es
    → collect seen (take n (keep (in_range ((c ∷ p) ++ start) (bound (c ∷ p) end)) es))
      ≡ take n (keep (in_range start end) (section (c ∷ p) es))
collect-range seen c p start end n es s r =
    let q : Bytes → Bool = in_range ((c ∷ p) ++ start) (bound (c ∷ p) end) in
    collect-take seen (c ∷ p) n (keep q es) (keep-Reads seen (c ∷ p) q es r)
    ∙ ap (take n) (
        collect-section (c ∷ p) start (keep q es) (keep-IsSorted q es s)
          (keep_after ((c ∷ p) ++ start) q es (λ j h. ground (arith, h)))
        ∙ section-keep (c ∷ p) q (in_range start end) es (in_range-prefix c p start end))
