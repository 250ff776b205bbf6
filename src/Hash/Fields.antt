-- ===== src/Hash/Fields.antt =====
-- What a hash promises: a finite map, as a list of fields with different keys.
use php.Prelude.{
  ℕ, ◌+◌, ◌-◌, ◌≡◌, refl, ap, sym, ◌∙◌, true, false, Option, none, some, List, [], ◌∷◌, arith,
  length, if◌then◌else◌, Bool-cases, inl, inr,
}
use php.Bytes.{Bytes, eqb}
use php.Bytes.Compare.{eqb_iff}
use php.Keys.Distinct.{eqb_ne}

abbrev pub Fields : Type 0
Fields = List (Bytes × Bytes)

unfoldable pub lookup : Fields → Bytes → Option Bytes
lookup [] k = none
lookup ((j, w) ∷ m) k = let rest = lookup m k in if eqb j k then some w else rest

unfoldable pub put : Fields → Bytes → Bytes → Fields
put [] k v = (k, v) ∷ []
put ((j, w) ∷ m) k v = let rest = put m k v in if eqb j k then (j, v) ∷ m else (j, w) ∷ rest

unfoldable pub erase : Fields → Bytes → Fields
erase [] k = []
erase ((j, w) ∷ m) k = let rest = erase m k in if eqb j k then m else (j, w) ∷ rest

unfoldable pub AreDistinct : Fields → Type 0
AreDistinct [] = Unit
AreDistinct ((j, w) ∷ m) = (lookup m j ≡ none) × AreDistinct m

abbrev pub count_of : Option Bytes → ℕ
count_of none = 0
count_of (some v) = 1

eqb_eq : (a b : Bytes) → eqb a b ≡ true → a ≡ b
eqb_eq a b e = (eqb_iff a b).0 e

eqb_step : (j k i : Bytes) → eqb j k ≡ true → eqb j i ≡ eqb k i
eqb_step j k i e = ap (λ a. eqb a i) (eqb_eq j k e)

not_both : (j k i : Bytes) → eqb j k ≡ false → eqb j i ≡ true → eqb k i ≡ false
not_both j k i n e = eqb_ne k i (λ p. cc (n, (eqb_iff j k).1 (eqb_eq j i e ∙ sym p)))

pub lookup-put :
    (m : Fields) (k v i : Bytes) → lookup (put m k v) i ≡ (if eqb k i then some v else lookup m i)
unfolding lookup put
lookup-put [] k v i = refl
lookup-put ((j, w) ∷ m) k v i = ground (arith, lookup-put m k v i, eqb_step j k i, not_both j k i)

pub length-put :
    (m : Fields) (k v : Bytes) → length (put m k v) ≡ length m + (1 - count_of (lookup m k))
unfolding lookup put
length-put [] k v = refl
length-put ((j, w) ∷ m) k v = ground (arith, length-put m k v)

pub length-erase : (m : Fields) (k : Bytes) → length (erase m k) + count_of (lookup m k) ≡ length m
unfolding lookup erase
length-erase [] k = refl
length-erase ((j, w) ∷ m) k = ground (arith, length-erase m k)

pub lookup-erase :
    (m : Fields) (k i : Bytes)
    → AreDistinct m
    → lookup (erase m k) i ≡ (if eqb k i then none else lookup m i)
unfolding lookup erase AreDistinct
lookup-erase [] k i d = ground arith
lookup-erase ((j, w) ∷ m) k i (n, d) = elim (Bool-cases (eqb j k)) [
  | inl e ↦ ground (arith, lookup-erase m k i d, eqb_step j k i e, n, eqb_eq j k e, eqb_eq j i)
  | inr e ↦ ground (arith, lookup-erase m k i d, not_both j k i e)
]

eqb_flip : (j k : Bytes) → eqb j k ≡ false → eqb k j ≡ false
eqb_flip j k e = eqb_ne k j (λ p. cc (e, (eqb_iff j k).1 (sym p)))

pub AreDistinct-put : (m : Fields) (k v : Bytes) → AreDistinct m → AreDistinct (put m k v)
unfolding lookup put AreDistinct
AreDistinct-put [] k v d = (refl, tt)
AreDistinct-put ((j, w) ∷ m) k v (n, d) = elim (Bool-cases (eqb j k)) [
  | inl e ↦ rw e (n, d)
  | inr e ↦ rw e (rw (lookup-put m k v j, eqb_flip j k e) n, AreDistinct-put m k v d)
]

pub AreDistinct-erase : (m : Fields) (k : Bytes) → AreDistinct m → AreDistinct (erase m k)
unfolding lookup erase AreDistinct
AreDistinct-erase [] k d = tt
AreDistinct-erase ((j, w) ∷ m) k (n, d) = elim (Bool-cases (eqb j k)) [
  | inl e ↦ rw e d
  | inr e ↦ rw e (lookup-erase m k j d ∙ rw (eqb_flip j k e) n, AreDistinct-erase m k d)
]

-- What changes nothing.
pub erase_absent : (m : Fields) (k : Bytes) → lookup m k ≡ none → erase m k ≡ m
unfolding lookup erase
erase_absent [] k e = refl
erase_absent ((j, w) ∷ m) k e = ground (arith, erase_absent m k)

pub put_same : (m : Fields) (k v : Bytes) → lookup m k ≡ some v → put m k v ≡ m
unfolding lookup put
put_same [] k v e = cc
put_same ((j, w) ∷ m) k v e = ground (arith, put_same m k v)
