-- ===== src/SortedSet/Pop.antt =====
-- front, back, pop_front and pop_back of a SortedSet whose map and set are in step.
use php.Prelude.{
  ℕ, ◌≡◌, refl, sym, ap, ◌∙◌, true, false, none, some, List, [], ◌∷◌, if◌then◌else◌, Bool-cases,
  inl, inr,
}
use php.Bytes.{Bytes, eqb}
use php.Bytes.Compare.{eqb_iff}
use php.SortedSet.{Item, SortedSet, item_lt, last, front, back, pop, pop_front, pop_back}
use php.SortedSet.Items.{get, AllAbove, AreSorted, AreDistinct, item_lt_irrefl, item_lt_trans}
use php.SortedSet.InStep.{InStep, without-InStep}

-- An item of an ordered list is none below the first and none above the last.
AllAbove-get :
    (x y : Item) (items : List Item) (j : Bytes)
    → AllAbove x items
    → get items j ≡ some y
    → item_lt x y ≡ true
AllAbove-get x y [] j a h = cc h
AllAbove-get x y (z ∷ items) j (p, a) h = elim (Bool-cases (eqb z.key j)) [
  | inl e ↦ let own : z ≡ y = cc (rw e at h) in rw (sym own) p
  | inr e ↦ AllAbove-get x y items j a (rw e at h)
]

item_lt_asym : (a b : Item) → item_lt a b ≡ true → item_lt b a ≡ false
item_lt_asym a b h = elim (Bool-cases (item_lt b a)) [
  | inl e ↦ cc (item_lt_trans a b a h e, item_lt_irrefl a)
  | inr e ↦ e
]

least :
    (x y : Item) (items : List Item) (j : Bytes)
    → AreSorted (x ∷ items)
    → get (x ∷ items) j ≡ some y
    → item_lt y x ≡ false
least x y items j (a, s) h = elim (Bool-cases (eqb x.key j)) [
  | inl e ↦ let own : x ≡ y = cc (rw e at h) in rw own (item_lt_irrefl y)
  | inr e ↦ item_lt_asym x y (AllAbove-get x y items j a (rw e at h))
]

last-AllAbove :
    (a x : Item) (items : List Item) → AllAbove a items → last items ≡ some x → item_lt a x ≡ true
last-AllAbove a x [] s h = cc h
last-AllAbove a x (y ∷ []) (p, s) h = let own : y ≡ x = cc h in rw (sym own) p
last-AllAbove a x (y ∷ z ∷ items) (p, s) h = last-AllAbove a x (z ∷ items) s h

last-greatest :
    (x y : Item) (items : List Item) (j : Bytes)
    → AreSorted items
    → last items ≡ some x
    → get items j ≡ some y
    → item_lt x y ≡ false
last-greatest x y [] j s l h = cc l
last-greatest x y (a ∷ []) j s l h = elim (Bool-cases (eqb a.key j)) [
  | inl e ↦
      let own : a ≡ y = cc (rw e at h) in
      let top : a ≡ x = cc l in rw (sym own, sym top) (item_lt_irrefl a)
  | inr e ↦ cc (rw e at h)
]
last-greatest x y (a ∷ b ∷ items) j (p, s) l h = elim (Bool-cases (eqb a.key j)) [
  | inl e ↦
      let own : a ≡ y = cc (rw e at h) in
      rw (sym own) (item_lt_asym a x (last-AllAbove a x (b ∷ items) p l))
  | inr e ↦ last-greatest x y (b ∷ items) j s l (rw e at h)
]

absent_last :
    (k : Bytes) (x : Item) (items : List Item)
    → get items k ≡ none
    → get items x.key ≡ some x
    → eqb k x.key ≡ false
absent_last k x items h g = elim (Bool-cases (eqb k x.key)) [
  | inl e ↦ cc (rw ((eqb_iff k x.key).0 e) at h, g)
  | inr e ↦ e
]

pub get-last :
    (x : Item) (items : List Item)
    → AreDistinct items
    → last items ≡ some x
    → get items x.key ≡ some x
get-last x [] d h = cc h
get-last x (y ∷ []) d h =
    let own : y ≡ x = cc h in
    let self : eqb x.key x.key ≡ true = (eqb_iff x.key x.key).1 refl in rw (own, self) refl
get-last x (y ∷ z ∷ items) (a, d) h =
    let rest : get (z ∷ items) x.key ≡ some x = get-last x (z ∷ items) d h in
    rw (absent_last y.key x (z ∷ items) a rest) rest

pub get-first : (x : Item) (items : List Item) → get (x ∷ items) x.key ≡ some x
get-first x items = let self : eqb x.key x.key ≡ true = (eqb_iff x.key x.key).1 refl in rw self refl

front-least :
    (x y : Item) (items : List Item) (j : Bytes)
    → AreSorted items
    → (elim items [ [] ↦ none | a ∷ rest ↦ some a ]) ≡ some x
    → get items j ≡ some y
    → (get items x.key ≡ some x) × (item_lt y x ≡ false)
front-least x y [] j s f h = cc f
front-least x y (a ∷ items) j s f h =
    let own : a ≡ x = cc f in rw (sym own) (get-first a items, least a y items j s h)

module _ (s : SortedSet) (h : InStep s) (x y : Item) (j : Bytes) (e : s.existed j ≡ some y) where
  -- What the removal of an item of the set makes of it.
  abbrev Popped : ℕ × SortedSet → Type 0
  Popped r = (r.0 ≡ 1) × InStep r.1 × (r.1.existed j ≡ (if eqb x.key j then none else some y))

  pop-Popped : get s.sorted_set x.key ≡ some x → Popped (pop (some x) s)
  pop-Popped g = (
    refl,
    without-InStep s h x.key x (h.agree x.key ∙ g),
    ap (λ o. if eqb x.key j then none else o) e,
  )

-- Where the map and the set are in step, pop_front and pop_back keep them so and return 1, and take
-- away the keys of the items of front and of back; no key of the set has an item below that of
-- front or above that of back.
pub pops-InStep :
    (s : SortedSet) (x z y : Item) (j : Bytes)
    → InStep s
    → front s ≡ some x
    → back s ≡ some z
    → s.existed j ≡ some y
    → (((pop_front s).0 ≡ 1)
        × InStep (pop_front s).1
        × ((pop_front s).1.existed j ≡ (if eqb x.key j then none else some y)))
      × (((pop_back s).0 ≡ 1)
          × InStep (pop_back s).1
          × ((pop_back s).1.existed j ≡ (if eqb z.key j then none else some y)))
      × (item_lt y x ≡ false)
      × (item_lt z y ≡ false)
unfolding front back pop_front pop_back
pops-InStep s x z y j h f b e =
    let at : get s.sorted_set j ≡ some y = sym (h.agree j) ∙ e in
    let (first, below) = front-least x y s.sorted_set j h.sorted f at in
    let top : get s.sorted_set z.key ≡ some z = get-last z s.sorted_set h.distinct b in
    let go_front : pop_front s ≡ pop (some x) s = ap (λ o. pop o s) f in
    let go_back : pop_back s ≡ pop (some z) s = ap (λ o. pop o s) b in
    (
      rw go_front (pop-Popped s h x y j e first),
      rw go_back (pop-Popped s h z y j e top),
      below,
      last-greatest z y s.sorted_set j h.sorted b at,
    )
