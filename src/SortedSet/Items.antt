-- ===== src/SortedSet/Items.antt =====
-- The order of the items, and lists of items in order with one item for a key.
use php.Prelude.{
  ◌≡◌, refl, sym, ap, ◌∙◌, Bool, true, false, not, ◌&&◌, Option, none, some, List, [], ◌∷◌, arith,
  if◌then◌else◌, Bool-cases, inl, inr,
}
use php.Bytes.{Bytes, eqb}
use php.Bytes.Compare.{eqb_iff}
use php.Bytes.Order.{lt_irrefl, lt_trans, lt_total}
use php.SortedSet.{Item, item_lt, insert, erase}

pub item_lt_irrefl : (a : Item) → item_lt a a ≡ false
unfolding item_lt
item_lt_irrefl a = ground (arith, lt_irrefl a.key)

pub item_lt_trans : (a b c : Item) → item_lt a b ≡ true → item_lt b c ≡ true → item_lt a c ≡ true
unfolding item_lt
item_lt_trans a b c p q = ground (arith, lt_trans a.key b.key c.key)

pub item_lt_total : (a b : Item) → item_lt a b ≡ false → item_lt b a ≡ false → a.key ≡ b.key
unfolding item_lt
item_lt_total a b p q = ground (arith, lt_total a.key b.key)

-- The item with a key.
abbrev pub get : List Item → Bytes → Option Item
get [] k = none
get (x ∷ items) k = let rest = get items k in if eqb x.key k then some x else rest

abbrev pub AllAbove : Item → List Item → Type 0
AllAbove a [] = Unit
AllAbove a (x ∷ items) = (item_lt a x ≡ true) × AllAbove a items

abbrev pub AreSorted : List Item → Type 0
AreSorted [] = Unit
AreSorted (x ∷ items) = AllAbove x items × AreSorted items

-- No two items have one key.
abbrev pub AreDistinct : List Item → Type 0
AreDistinct [] = Unit
AreDistinct (x ∷ items) = (get items x.key ≡ none) × AreDistinct items

AllAbove-trans :
    (a b : Item) (items : List Item) → item_lt a b ≡ true → AllAbove b items → AllAbove a items
AllAbove-trans a b [] h s = tt
AllAbove-trans a b (x ∷ items) h (p, s) = (item_lt_trans a b x h p, AllAbove-trans a b items h s)

insert-AllAbove :
    (a item : Item) (items : List Item)
    → item_lt a item ≡ true
    → AllAbove a items
    → AllAbove a (insert item items)
insert-AllAbove a item [] h s = (h, tt)
insert-AllAbove a item (x ∷ items) h (p, s) = elim (Bool-cases (item_lt item x)) [
  | inl y ↦ rw y (h, (p, s))
  | inr y ↦ elim (Bool-cases (item_lt x item)) [
    | inl z ↦ rw (y, z) (p, insert-AllAbove a item items h s)
    | inr z ↦ rw (y, z) (p, s)
  ]
]

pub insert-AreSorted :
    (item : Item) (items : List Item) → AreSorted items → AreSorted (insert item items)
insert-AreSorted item [] s = (tt, tt)
insert-AreSorted item (x ∷ items) (a, s) = elim (Bool-cases (item_lt item x)) [
  | inl y ↦ rw y ((y, AllAbove-trans item x items y a), (a, s))
  | inr y ↦ elim (Bool-cases (item_lt x item)) [
    | inl z ↦ rw (y, z) (insert-AllAbove x item items z a, insert-AreSorted item items s)
    | inr z ↦ rw (y, z) (a, s)
  ]
]

abbrev same : Item → Item → Bool
same x item = not (item_lt x item) && not (item_lt item x)

erase-AllAbove :
    (a item : Item) (items : List Item) → AllAbove a items → AllAbove a (erase item items)
erase-AllAbove a item [] s = tt
erase-AllAbove a item (x ∷ items) (p, s) = elim (Bool-cases (same x item)) [
  | inl y ↦ rw y s
  | inr y ↦ rw y (p, erase-AllAbove a item items s)
]

pub erase-AreSorted :
    (item : Item) (items : List Item) → AreSorted items → AreSorted (erase item items)
erase-AreSorted item [] s = tt
erase-AreSorted item (x ∷ items) (a, s) = elim (Bool-cases (same x item)) [
  | inl y ↦ rw y s
  | inr y ↦ rw y (erase-AllAbove x item items a, erase-AreSorted item items s)
]

other_key :
    (a b : Item) (j : Bytes) → eqb a.key b.key ≡ false → eqb b.key j ≡ true → eqb a.key j ≡ false
other_key a b j h e = let at : b.key ≡ j = (eqb_iff b.key j).0 e in sym (ap (eqb a.key) at) ∙ h

same-key : (a b : Item) → same a b ≡ true → eqb a.key b.key ≡ true
same-key a b h = (eqb_iff a.key b.key).1 (item_lt_total a b (ground (arith, h)) (ground (arith, h)))

same_self : (a : Item) → same a a ≡ true
same_self a = rw (item_lt_irrefl a) refl

-- The keys after an item is put in, where there is none with its key.
pub get-insert :
    (item : Item) (items : List Item) (j : Bytes)
    → get items item.key ≡ none
    → get (insert item items) j ≡ (if eqb item.key j then some item else get items j)
get-insert item [] j h = refl
get-insert item (x ∷ items) j h = elim (Bool-cases (eqb x.key item.key)) [
  | inl y ↦ cc (rw y at h)
  | inr y ↦
      let rest : get items item.key ≡ none = rw y at h in
      elim (Bool-cases (item_lt item x)) [
        | inl z ↦ rw z refl
        | inr z ↦ elim (Bool-cases (item_lt x item)) [
          | inl w ↦ elim (Bool-cases (eqb item.key j)) [
            | inl e ↦ rw (z, w, get-insert item items j rest, e, other_key x item j y e) refl
            | inr e ↦ rw (z, w, get-insert item items j rest, e) refl
          ]
          | inr w ↦ cc (y, (eqb_iff x.key item.key).1 (item_lt_total x item w z))
        ]
      ]
]

flip : (a b : Bytes) → eqb a b ≡ false → eqb b a ≡ false
flip a b h = elim (Bool-cases (eqb b a)) [
  | inl y ↦ cc (h, (eqb_iff a b).1 (sym ((eqb_iff b a).0 y)))
  | inr y ↦ y
]

pub insert-AreDistinct :
    (item : Item) (items : List Item)
    → get items item.key ≡ none
    → AreDistinct items
    → AreDistinct (insert item items)
insert-AreDistinct item [] h d = (refl, tt)
insert-AreDistinct item (x ∷ items) h (a, d) = elim (Bool-cases (eqb x.key item.key)) [
  | inl y ↦ cc (rw y at h)
  | inr y ↦
      let rest : get items item.key ≡ none = rw y at h in
      elim (Bool-cases (item_lt item x)) [
        | inl z ↦ rw z (rw y rest, (a, d))
        | inr z ↦ elim (Bool-cases (item_lt x item)) [
          | inl w ↦
              let absent : get (insert item items) x.key ≡ none =
                get-insert item items x.key rest ∙ rw (flip x.key item.key y) a in
              rw (z, w) (absent, insert-AreDistinct item items rest d)
          | inr w ↦ rw (z, w) (a, d)
        ]
      ]
]

-- The keys after an item of the list is taken out.
pub get-erase :
    (item : Item) (items : List Item) (j : Bytes)
    → get items item.key ≡ some item
    → AreDistinct items
    → get (erase item items) j ≡ (if eqb item.key j then none else get items j)
get-erase item [] j h d = cc h
get-erase item (x ∷ items) j h (a, d) = elim (Bool-cases (eqb x.key item.key)) [
  | inl y ↦
      let own : x ≡ item = cc (rw y at h) in
      let all : same x item ≡ true = rw own (same_self item) in
      elim (Bool-cases (eqb item.key j)) [
        | inl e ↦
            let at : x.key ≡ j = ap (λ i. i.key) own ∙ (eqb_iff item.key j).0 e in
            let gone : get items j ≡ none = ap (get items) (sym at) ∙ a in rw (all, e) gone
        | inr e ↦ let other : eqb x.key j ≡ false = rw own e in rw (all, e, other) refl
      ]
  | inr y ↦
      let rest : get items item.key ≡ some item = rw y at h in
      let differs : same x item ≡ false = elim (Bool-cases (same x item)) [
        | inl z ↦ cc (y, same-key x item z)
        | inr z ↦ z
      ] in
      elim (Bool-cases (eqb item.key j)) [
        | inl e ↦
            rw (differs, e, other_key x item j y e) (get-erase item items j rest d ∙ rw e refl)
        | inr e ↦ rw (differs, e, get-erase item items j rest d, e) refl
      ]
]

pub erase-AreDistinct :
    (item : Item) (items : List Item)
    → get items item.key ≡ some item
    → AreDistinct items
    → AreDistinct (erase item items)
erase-AreDistinct item [] h d = d
erase-AreDistinct item (x ∷ items) h (a, d) = elim (Bool-cases (eqb x.key item.key)) [
  | inl y ↦
      let own : x ≡ item = cc (rw y at h) in
      let all : same x item ≡ true = rw own (same_self item) in rw all d
  | inr y ↦
      let rest : get items item.key ≡ some item = rw y at h in
      let differs : same x item ≡ false = elim (Bool-cases (same x item)) [
        | inl z ↦ cc (y, same-key x item z)
        | inr z ↦ z
      ] in
      let absent : get (erase item items) x.key ≡ none =
        get-erase item items x.key rest d ∙ rw (flip x.key item.key y) a in
      rw differs (absent, erase-AreDistinct item items rest d)
]
