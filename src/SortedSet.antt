-- ===== src/SortedSet.antt =====
-- util/sorted_set.cpp: keys in the order of their scores, as a std::map and a std::set. The set is
-- the list of its items in order, and an iterator into it, which the map holds, is the item.
pub mod Items
pub mod InStep
pub mod Pop
mod Tests
use php.Prelude.{
  ℕ, zero, suc, ◌+◌, Bool, true, false, not, ◌&&◌, ◌||◌, Option, none, some, List, [], ◌∷◌, length,
  ltb, ◌==◌, if◌then◌else◌,
}
use php.Prelude.Int.{ℤ, pos, pos_part, neg_part, ltb_ℤ}
use php.Bytes.{Bytes, eqb}
use php.Bytes.Order.{lt}

-- SortedSet::Item
pub record Item : Type 0 where
  pub key : Bytes
  pub score : ℤ

abbrev pub eqb_ℤ : ℤ → ℤ → Bool
eqb_ℤ a b = pos_part a + neg_part b == pos_part b + neg_part a

-- Item::operator<
unfoldable pub item_lt : Item → Item → Bool
item_lt a b = ltb_ℤ a.score b.score || (eqb_ℤ a.score b.score && lt a.key b.key)

-- std::set::insert: nothing changes where an equal item is there.
abbrev pub insert : Item → List Item → List Item
insert item [] = item ∷ []
insert item (x ∷ items) =
    let rest = insert item items in
    if item_lt item x then item ∷ x ∷ items else if item_lt x item then x ∷ rest else x ∷ items

-- std::set::erase of an iterator: the item at it.
abbrev pub erase : Item → List Item → List Item
erase item [] = []
erase item (x ∷ items) =
    let rest = erase item items in
    if not (item_lt x item) && not (item_lt item x) then items else x ∷ rest

-- rbegin
abbrev pub last : List Item → Option Item
last [] = none
last (x ∷ []) = some x
last (x ∷ y ∷ items) = last (y ∷ items)

pub record SortedSet : Type 0 where
  pub existed : Bytes → Option Item
  pub sorted_set : List Item

-- The map with and without a key.
abbrev pub mapped : (Bytes → Option Item) → Bytes → Option Item → Bytes → Option Item
mapped existed key o j = if eqb key j then o else existed j

-- SortedSet::empty
abbrev pub is_empty_set : SortedSet → Bool
is_empty_set s = length s.sorted_set == 0

-- The end of SortedSet::add: the item is put in.
unfoldable pub add_item : Item → ℕ → List Item → SortedSet → ℕ × SortedSet
add_item item ret items s = (
  ret,
  record { existed = mapped s.existed item.key (some item); sorted_set = insert item items },
)

-- SortedSet::add
unfoldable pub add : Bytes → ℤ → SortedSet → ℕ × SortedSet
unfolding add_item
add key score s =
    let item : Item = record { key = key; score = score } in
    elim (s.existed key) [
      | none ↦ add_item item 1 s.sorted_set s
      | some it2 ↦
          if eqb_ℤ it2.score score then (0, s) else add_item item 0 (erase it2 s.sorted_set) s
    ]

-- SortedSet::del
unfoldable pub del : Bytes → SortedSet → ℕ × SortedSet
del key s = elim (s.existed key) [
  | none ↦ (0, s)
  | some it ↦
      (1, record { existed = mapped s.existed key none; sorted_set = erase it s.sorted_set })
]

-- SortedSet::front
unfoldable pub front : SortedSet → Option Item
front s = elim s.sorted_set [ [] ↦ none | x ∷ items ↦ some x ]

-- SortedSet::back
unfoldable pub back : SortedSet → Option Item
back s = last s.sorted_set

-- SortedSet::max_score
unfoldable pub max_score : SortedSet → ℤ
unfolding back
max_score s = elim (back s) [ none ↦ pos 0 | some item ↦ item.score ]

-- The lines that pop_front and pop_back share.
abbrev pub pop : Option Item → SortedSet → ℕ × SortedSet
pop none s = (0, s)
pop (some item) s =
    (1, record { existed = mapped s.existed item.key none; sorted_set = erase item s.sorted_set })

-- SortedSet::pop_front
unfoldable pub pop_front : SortedSet → ℕ × SortedSet
unfolding front
pop_front s = pop (front s) s

-- SortedSet::pop_back
unfoldable pub pop_back : SortedSet → ℕ × SortedSet
unfolding back
pop_back s = pop (back s) s
