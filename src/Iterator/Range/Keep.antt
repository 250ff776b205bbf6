-- ===== src/Iterator/Range/Keep.antt =====
-- Sorted entries, filtered by key: what the bounds of an iterator leave of them.
use php.Prelude.{
  ◌≡◌, refl, sym, ap, Bool, true, false, not, ◌&&◌, ◌||◌, List, [], ◌∷◌, arith, if◌then◌else◌,
  Bool-cases, inl, inr,
}
use php.Bytes.{Bytes, eqb, is_empty}
use php.Bytes.Compare.{eqb_iff}
use php.Bytes.Order.{lt, lt_trans, lt_total, lt_irrefl, lt_asym}
use php.LevelDb.Iterators.{Entry, AllAfter, IsSorted, from, before}
use php.Iterator.{forward, is_beyond}
use php.Iterator.Gives.{until}

-- The entries whose keys pass the test.
abbrev pub keep : (Bytes → Bool) → List Entry → List Entry
keep p [] = []
keep p (e ∷ es) = let rest = keep p es in if p e.0 then e ∷ rest else rest

-- The entries last first, before `acc`.
abbrev pub reversed : List Entry → List Entry → List Entry
reversed acc [] = acc
reversed acc (e ∷ es) = reversed (e ∷ acc) es

-- `from`, less an entry with the key itself.
abbrev pub drop_same : Bytes → List Entry → List Entry
drop_same k [] = []
drop_same k (e ∷ es) = if eqb e.0 k then es else e ∷ es

keep_none :
    (p : Bytes → Bool) (k : Bytes) (es : List Entry)
    → AllAfter k es
    → ((j : Bytes) → lt k j ≡ true → p j ≡ false)
    → keep p es ≡ []
keep_none p k [] a h = refl
keep_none p k (e ∷ es) (b, a) h = rw (h e.0 b) (keep_none p k es a h)

pub keep_all :
    (p : Bytes → Bool) (k : Bytes) (es : List Entry)
    → AllAfter k es
    → ((j : Bytes) → lt k j ≡ true → p j ≡ true)
    → keep p es ≡ es
keep_all p k [] a h = refl
keep_all p k (e ∷ es) (b, a) h = rw (h e.0 b) (ap (λ l. e ∷ l) (keep_all p k es a h))

pub drop_same-from :
    (k : Bytes) (es : List Entry) → IsSorted es → drop_same k (from k es) ≡ keep (λ j. lt k j) es
drop_same-from k [] s = refl
drop_same-from k (e ∷ es) (a, s) = elim (Bool-cases (lt e.0 k)) [
  | inl x ↦ rw (x, lt_asym e.0 k x) (drop_same-from k es s)
  | inr x ↦ elim (Bool-cases (eqb e.0 k)) [
    | inl y ↦
        let same : e.0 ≡ k = (eqb_iff e.0 k).0 y in
        let b : AllAfter k es = rw same at a in
        rw (x, y, same, lt_irrefl k) (sym (keep_all (λ j. lt k j) k es b (λ j h. h)))
    | inr y ↦
        let above : lt k e.0 ≡ true = elim (Bool-cases (lt k e.0)) [
          | inl z ↦ z
          | inr z ↦ cc (y, (eqb_iff e.0 k).1 (lt_total e.0 k x z))
        ] in
        let others : keep (λ j. lt k j) es ≡ es =
          keep_all (λ j. lt k j) e.0 es a (λ j h. lt_trans k e.0 j above h) in
        rw (x, y, above, others) refl
  ]
]

pub before-keep :
    (k : Bytes) (acc es : List Entry)
    → IsSorted es
    → before k acc es ≡ reversed acc (keep (λ j. lt j k) es)
before-keep k acc [] s = refl
before-keep k acc (e ∷ es) (a, s) = elim (Bool-cases (lt e.0 k)) [
  | inl x ↦ rw x (before-keep k (e ∷ acc) es s)
  | inr x ↦
      let above : (j : Bytes) → lt e.0 j ≡ true → lt j k ≡ false =
        λ j h. elim (Bool-cases (lt j k)) [ inl z ↦ cc (x, lt_trans e.0 j k h z) | inr z ↦ z ] in
      let none_left : keep (λ j. lt j k) es ≡ [] = keep_none (λ j. lt j k) e.0 es a above in
      rw (x, none_left) refl
]

pub keep-keep :
    (p q : Bytes → Bool) (es : List Entry) → keep p (keep q es) ≡ keep (λ j. q j && p j) es
keep-keep p q [] = refl
keep-keep p q (e ∷ es) = elim (Bool-cases (q e.0)) [
  | inl x ↦ rw (x, keep-keep p q es) refl
  | inr x ↦ rw (x, keep-keep p q es) refl
]

pub keep-AllAfter :
    (p : Bytes → Bool) (k : Bytes) (es : List Entry) → AllAfter k es → AllAfter k (keep p es)
keep-AllAfter p k [] a = a
keep-AllAfter p k (e ∷ es) (b, a) = elim (Bool-cases (p e.0)) [
  | inl x ↦ rw x (b, keep-AllAfter p k es a)
  | inr x ↦ rw x (keep-AllAfter p k es a)
]

pub keep-IsSorted : (p : Bytes → Bool) (es : List Entry) → IsSorted es → IsSorted (keep p es)
keep-IsSorted p [] s = s
keep-IsSorted p (e ∷ es) (a, s) = elim (Bool-cases (p e.0)) [
  | inl x ↦ rw x (keep-AllAfter p e.0 es a, keep-IsSorted p es s)
  | inr x ↦ rw x (keep-IsSorted p es s)
]

-- Not after the end, where there is one.
abbrev pub up_to : Bytes → Bytes → Bool
up_to end k = is_empty end || not (lt end k)

up_to_lem : (end k : Bytes) → is_beyond forward end k ≡ not (up_to end k)
unfolding is_beyond
up_to_lem end k = ground arith

-- The end bound, going forward: what follows an entry beyond it is beyond it.
pub until-forward :
    (end : Bytes) (es : List Entry) → IsSorted es → until forward end es ≡ keep (up_to end) es
until-forward end [] s = refl
until-forward end (e ∷ es) (a, s) = elim (Bool-cases (up_to end e.0)) [
  | inl x ↦ rw (up_to_lem end e.0, x, until-forward end es s) refl
  | inr x ↦
      let later : (j : Bytes) → lt e.0 j ≡ true → up_to end j ≡ false =
        λ j h. ground (arith, x, lt_trans end e.0 j) in
      rw (up_to_lem end e.0, x, keep_none (up_to end) e.0 es a later) refl
]
