-- ===== src/Expiration/Bounds.antt =====
-- The keys that an ExpirationHandler holds in memory: their number, and their two indexes.
use php.Prelude.{
  suc, ◌≤◌, ◌≡◌, refl, ap, ◌∙◌, false, not, ◌&&◌, none, some, List, [], ◌∷◌, arith, length, ltb,
  Bool-cases, Option-cases, inl, inr,
}
use php.Prelude.Int.{ℤ, pos, leb_ℤ}
use php.Bytes.{Bytes, eqb}
use php.SortedSet
use php.SortedSet.{SortedSet, Item, insert, erase, last, item_lt, add_item, pop, is_empty_set}
use php.SortedSet.Items.{get, item_lt_irrefl}
use php.SortedSet.InStep.{InStep, add-InStep, del-InStep, without-InStep}
use php.SortedSet.Pop.{get-last}
use php.Expiration.{batch_size, set_fast}

length-insert : (item : Item) (items : List Item) → length (insert item items) ≤ suc (length items)
length-insert item [] = omega arith
length-insert item (x ∷ items) = ground (arith, length-insert item items)

length-erase : (item : Item) (items : List Item) → length (erase item items) ≤ length items
length-erase item [] = omega arith
length-erase item (x ∷ items) = ground (arith, length-erase item items)

-- An item of the list is taken out.
length-erase_own :
    (item : Item) (items : List Item)
    → get items item.key ≡ some item
    → suc (length (erase item items)) ≡ length items
length-erase_own item [] h = cc h
length-erase_own item (x ∷ items) h = elim (Bool-cases (eqb x.key item.key)) [
  | inl y ↦
      let own : x ≡ item = cc (rw y at h) in
      let low : item_lt x item ≡ false = rw own (item_lt_irrefl item) in
      let high : item_lt item x ≡ false = rw own (item_lt_irrefl item) in rw (low, high) refl
  | inr y ↦
      let rest : get items item.key ≡ some item = rw y at h in
      ground (arith, length-erase_own item items rest, erase)
]

-- The map and the set are in step and hold at most one batch.
abbrev pub IsBounded : SortedSet → Type 0
IsBounded fast = InStep fast × (length fast.sorted_set ≤ batch_size)

pub length-add :
    (key : Bytes) (v : ℤ) (s : SortedSet)
    → length (SortedSet.add key v s).1.sorted_set ≤ suc (length s.sorted_set)
unfolding SortedSet.add add_item
length-add key v s = elim (Option-cases (s.existed key)) [
  | inl e ↦ rw (SortedSet.add, e) (length-insert (record { key = key; score = v }) s.sorted_set)
  | inr (it, e) ↦ elim (Bool-cases (SortedSet.eqb_ℤ it.score v)) [
    | inl y ↦ rw (SortedSet.add, e, y) (omega arith)
    | inr y ↦
        rw (SortedSet.add, e, y)
          (omega (
            arith,
            length-insert (record { key = key; score = v }) (erase it s.sorted_set),
            length-erase it s.sorted_set,
          ))
  ]
]

length-del :
    (key : Bytes) (s : SortedSet) → length (SortedSet.del key s).1.sorted_set ≤ length s.sorted_set
unfolding SortedSet.del
length-del key s = elim (Option-cases (s.existed key)) [
  | inl e ↦ rw (SortedSet.del, e) (omega arith)
  | inr (it, e) ↦ rw (SortedSet.del, e) (length-erase it s.sorted_set)
]

-- An item that front or back gives is popped.
pub popped :
    (s : SortedSet) (x : Item)
    → InStep s
    → get s.sorted_set x.key ≡ some x
    → InStep (pop (some x) s).1 × (suc (length (pop (some x) s).1.sorted_set) ≡ length s.sorted_set)
popped s x h g = (without-InStep s h x.key x (h.agree x.key ∙ g), length-erase_own x s.sorted_set g)

last_none : (items : List Item) → last items ≡ none → length items ≡ 0
last_none [] h = refl
last_none (x ∷ []) h = cc h
last_none (x ∷ y ∷ items) h = absurd (omega (arith, last_none (y ∷ items) h))

pop_back-InStep :
    (s : SortedSet)
    → InStep s
    → length s.sorted_set ≤ suc batch_size
    → IsBounded (SortedSet.pop_back s).1
unfolding SortedSet.pop_back SortedSet.back
pop_back-InStep s h n = elim (Option-cases (last s.sorted_set)) [
  | inl e ↦
      let go : SortedSet.pop_back s ≡ (0, s) = ap (λ o. pop o s) e in
      rw go (h, omega (arith, last_none s.sorted_set e))
  | inr (x, e) ↦
      let go : SortedSet.pop_back s ≡ pop (some x) s = ap (λ o. pop o s) e in
      let (st, m) = popped s x h (get-last x s.sorted_set h.distinct e) in
      rw go (st, omega (arith, m, n))
]

pub del-IsBounded : (key : Bytes) (s : SortedSet) → IsBounded s → IsBounded (SortedSet.del key s).1
del-IsBounded key s (h, n) =
    ((del-InStep s h key (pos 0) key).0, omega (arith, length-del key s, n))

pub set_fast-IsBounded :
    (key : Bytes) (expired : ℤ) (s : SortedSet) → IsBounded s → IsBounded (set_fast key expired s)
unfolding set_fast
set_fast-IsBounded key expired s (h, n) =
    let added = (SortedSet.add key expired s).1 in
    let st : InStep added = (add-InStep s h key expired key).0 in
    let m : length added.sorted_set ≤ suc (length s.sorted_set) = length-add key expired s in
    elim (Bool-cases (not (is_empty_set s) && leb_ℤ expired (SortedSet.max_score s))) [
      | inl y ↦ elim (Bool-cases (ltb batch_size (length added.sorted_set))) [
        | inl z ↦ rw (set_fast, y, z) (pop_back-InStep added st (omega (arith, m, n)))
        | inr z ↦ rw (set_fast, y, z) (st, ground (arith, z))
      ]
      | inr y ↦ rw (set_fast, y) (del-IsBounded key s (h, n))
    ]
