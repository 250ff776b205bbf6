-- ===== src/LevelDb/Ordered.antt =====
-- A sorted list of entries under puts and deletes, for the database in memory.
use php.Prelude.{
  ◌≡◌, refl, sym, ap, ◌∙◌, true, false, none, some, List, [], ◌∷◌, arith, if◌then◌else◌, Bool-cases,
  inl, inr,
}
use php.Bytes.{Bytes, eqb}
use php.Bytes.Compare.{eqb_iff}
use php.Bytes.Order.{lt, lt_trans, lt_total, lt-eqb}
use php.LevelDb.{Update, put, delete, updated, updated_one}
use php.LevelDb.Iterators.{Entry, AllAfter, IsSorted, find}

abbrev pub insert : Bytes → Bytes → List Entry → List Entry
insert k v [] = (k, v) ∷ []
insert k v (e ∷ es) =
    let rest = insert k v es in
    if lt k e.0 then (k, v) ∷ e ∷ es else if eqb e.0 k then (k, v) ∷ es else e ∷ rest

abbrev pub remove : Bytes → List Entry → List Entry
remove k [] = []
remove k (e ∷ es) = let rest = remove k es in if eqb e.0 k then es else e ∷ rest

AllAfter-trans : (j k : Bytes) (es : List Entry) → lt j k ≡ true → AllAfter k es → AllAfter j es
AllAfter-trans j k [] h a = a
AllAfter-trans j k (e ∷ es) h (p, a) = (lt_trans j k e.0 h p, AllAfter-trans j k es h a)

insert-AllAfter :
    (j k v : Bytes) (es : List Entry) → lt j k ≡ true → AllAfter j es → AllAfter j (insert k v es)
insert-AllAfter j k v [] h a = (h, a)
insert-AllAfter j k v (e ∷ es) h (p, a) = elim (Bool-cases (lt k e.0)) [
  | inl x ↦ rw x (h, (p, a))
  | inr x ↦ elim (Bool-cases (eqb e.0 k)) [
    | inl y ↦ rw (x, y) (h, a)
    | inr y ↦ rw (x, y) (p, insert-AllAfter j k v es h a)
  ]
]

insert-IsSorted : (k v : Bytes) (es : List Entry) → IsSorted es → IsSorted (insert k v es)
insert-IsSorted k v [] s = (tt, tt)
insert-IsSorted k v (e ∷ es) (a, s) = elim (Bool-cases (lt k e.0)) [
  | inl x ↦ rw x ((x, AllAfter-trans k e.0 es x a), (a, s))
  | inr x ↦ elim (Bool-cases (eqb e.0 k)) [
    | inl y ↦ let same : e.0 ≡ k = (eqb_iff e.0 k).0 y in rw (x, y) (rw same at a, s)
    | inr y ↦
        let above : lt e.0 k ≡ true = elim (Bool-cases (lt e.0 k)) [
          | inl z ↦ z
          | inr z ↦ cc (y, (eqb_iff e.0 k).1 (lt_total e.0 k z x))
        ] in
        rw (x, y) (insert-AllAfter e.0 k v es above a, insert-IsSorted k v es s)
  ]
]

remove-AllAfter : (j k : Bytes) (es : List Entry) → AllAfter j es → AllAfter j (remove k es)
remove-AllAfter j k [] a = a
remove-AllAfter j k (e ∷ es) (p, a) = elim (Bool-cases (eqb e.0 k)) [
  | inl y ↦ rw y a
  | inr y ↦ rw y (p, remove-AllAfter j k es a)
]

remove-IsSorted : (k : Bytes) (es : List Entry) → IsSorted es → IsSorted (remove k es)
remove-IsSorted k [] s = s
remove-IsSorted k (e ∷ es) (a, s) = elim (Bool-cases (eqb e.0 k)) [
  | inl y ↦ rw y s
  | inr y ↦ rw y (remove-AllAfter e.0 k es a, remove-IsSorted k es s)
]

pub find-AllAfter : (k : Bytes) (es : List Entry) → AllAfter k es → find es k ≡ none
find-AllAfter k [] a = refl
find-AllAfter k (e ∷ es) (p, a) =
    let other : eqb e.0 k ≡ false = elim (Bool-cases (eqb e.0 k)) [
      | inl y ↦ cc (lt-eqb k e.0 p, (eqb_iff k e.0).1 (sym ((eqb_iff e.0 k).0 y)))
      | inr y ↦ y
    ] in
    rw other (find-AllAfter k es a)

find-insert :
    (k v j : Bytes) (es : List Entry)
    → find (insert k v es) j ≡ (if eqb k j then some v else find es j)
find-insert k v j [] = refl
find-insert k v j (e ∷ es) = elim (Bool-cases (lt k e.0)) [
  | inl x ↦ rw x refl
  | inr x ↦ elim (Bool-cases (eqb e.0 k)) [
    | inl y ↦ let same : e.0 ≡ k = (eqb_iff e.0 k).0 y in rw (x, y, same) (ground arith)
    | inr y ↦ elim (Bool-cases (eqb e.0 j)) [
      | inl z ↦
          let same : e.0 ≡ j = (eqb_iff e.0 j).0 z in
          let other : eqb k j ≡ false = elim (Bool-cases (eqb k j)) [
            | inl w ↦ cc (y, (eqb_iff e.0 k).1 (same ∙ sym ((eqb_iff k j).0 w)))
            | inr w ↦ w
          ] in
          rw (x, y, z, other) refl
      | inr z ↦ rw (x, y, z) (find-insert k v j es)
    ]
  ]
]

find-remove :
    (k j : Bytes) (es : List Entry)
    → IsSorted es
    → find (remove k es) j ≡ (if eqb k j then none else find es j)
find-remove k j [] s = ground arith
find-remove k j (e ∷ es) (a, s) = elim (Bool-cases (eqb e.0 k)) [
  | inl y ↦
      let same : e.0 ≡ k = (eqb_iff e.0 k).0 y in
      elim (Bool-cases (eqb k j)) [
        | inl w ↦
            let at : k ≡ j = (eqb_iff k j).0 w in
            rw (y, w) (find-AllAfter j es (rw (same ∙ at) at a))
        | inr w ↦ rw (y, w, same, w) refl
      ]
  | inr y ↦ elim (Bool-cases (eqb e.0 j)) [
    | inl z ↦
        let same : e.0 ≡ j = (eqb_iff e.0 j).0 z in
        let other : eqb k j ≡ false = elim (Bool-cases (eqb k j)) [
          | inl w ↦ cc (y, (eqb_iff e.0 k).1 (same ∙ sym ((eqb_iff k j).0 w)))
          | inr w ↦ w
        ] in
        rw (y, z, other) refl
    | inr z ↦ rw (y, z) (find-remove k j es s)
  ]
]

abbrev pub apply : Update → List Entry → List Entry
apply (put k v) es = insert k v es
apply (delete k) es = remove k es

abbrev pub apply_all : List Update → List Entry → List Entry
apply_all [] es = es
apply_all (u ∷ us) es = apply_all us (apply u es)

apply-IsSorted : (u : Update) (es : List Entry) → IsSorted es → IsSorted (apply u es)
apply-IsSorted (put k v) es s = insert-IsSorted k v es s
apply-IsSorted (delete k) es s = remove-IsSorted k es s

pub apply_all-IsSorted :
    (us : List Update) (es : List Entry) → IsSorted es → IsSorted (apply_all us es)
apply_all-IsSorted [] es s = s
apply_all-IsSorted (u ∷ us) es s = apply_all-IsSorted us (apply u es) (apply-IsSorted u es s)

find-apply :
    (u : Update) (es : List Entry) (j : Bytes)
    → IsSorted es
    → find (apply u es) j ≡ updated_one u j (find es j)
find-apply (put k v) es j s = find-insert k v j es
find-apply (delete k) es j s = find-remove k j es s

pub find-apply_all :
    (us : List Update) (es : List Entry) (j : Bytes)
    → IsSorted es
    → find (apply_all us es) j ≡ updated us j (find es j)
find-apply_all [] es j s = refl
find-apply_all (u ∷ us) es j s =
    find-apply_all us (apply u es) j (apply-IsSorted u es s)
    ∙ ap (updated us j) (find-apply u es j s)

abbrev pub Each : (Entry → Type 0) → List Entry → Type 0
Each P [] = Unit
Each P (e ∷ es) = P e × Each P es

-- Sorted entries are each found.
pub found-Each :
    (P : Entry → Type 0) (es : List Entry)
    → IsSorted es
    → ((k v : Bytes) → find es k ≡ some v → P (k, v))
    → Each P es
found-Each P [] s h = tt
found-Each P (e ∷ es) (a, s) h =
    let here : eqb e.0 e.0 ≡ true = (eqb_iff e.0 e.0).1 refl in
    (
      h e.0 e.1 (rw here refl),
      found-Each P es s (λ k v x. elim (Bool-cases (eqb e.0 k)) [
        | inl y ↦
            let b : AllAfter k es = rw ((eqb_iff e.0 k).0 y) at a in cc (find-AllAfter k es b, x)
        | inr y ↦ h k v (rw y x)
      ]),
    )
