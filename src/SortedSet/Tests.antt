-- ===== src/SortedSet/Tests.antt =====
-- The theorems on a sorted set in memory, at concrete keys.
use php.Prelude.{◌+◌, ◌≡◌, refl, none, some, [], ◌∷◌, false, if◌then◌else◌}
use php.Prelude.Int.{pos, negsuc}
use php.Bytes.{Bytes, eqb}
use php.SortedSet.{Item, SortedSet, item_lt, add, add_item, del, front, back, pop_front, pop_back}
use php.SortedSet.InStep.{InStep, is_new, score_of, add-InStep, del-InStep}
use php.SortedSet.Pop.{pops-InStep}

abbrev a : Bytes
a = b'a' ∷ []

abbrev b : Bytes
b = b'b' ∷ []

abbrev empty : SortedSet
empty = record { existed = λ k. none; sorted_set = [] }

empty-InStep : InStep empty
empty-InStep = record { sorted = tt; distinct = tt; agree = λ k. refl }

abbrev one : SortedSet
one = (add a (pos 5) empty).1

one-InStep : InStep one
one-InStep = (add-InStep empty empty-InStep a (pos 5) a).0

add-InStep_example :
    InStep (add b (negsuc 1) one).1
    × ((add b (negsuc 1) one).0 ≡ is_new (one.existed b))
    × (score_of (add b (negsuc 1) one).1 a ≡ (if eqb b a then some (negsuc 1) else score_of one a))
add-InStep_example = add-InStep one one-InStep b (negsuc 1) a

del-InStep_example :
    InStep (del a one).1
    × ((del a one).0 + is_new (one.existed a) ≡ 1)
    × (score_of (del a one).1 b ≡ (if eqb a b then none else score_of one b))
del-InStep_example = del-InStep one one-InStep a (pos 0) b

abbrev two : SortedSet
two = (add b (negsuc 1) one).1

abbrev low : Item
low = record { key = b; score = negsuc 1 }

abbrev high : Item
high = record { key = a; score = pos 5 }

front_two : front two ≡ some low
unfolding front add add_item item_lt eqb
front_two = refl

back_two : back two ≡ some high
unfolding back add add_item item_lt eqb
back_two = refl

existed_two : two.existed a ≡ some high
unfolding add add_item eqb
existed_two = refl

pops-InStep_example :
    (((pop_front two).0 ≡ 1)
      × InStep (pop_front two).1
      × ((pop_front two).1.existed a ≡ (if eqb b a then none else some high)))
    × (((pop_back two).0 ≡ 1)
        × InStep (pop_back two).1
        × ((pop_back two).1.existed a ≡ (if eqb a a then none else some high)))
    × (item_lt high low ≡ false)
    × (item_lt high high ≡ false)
pops-InStep_example =
    pops-InStep two low high high a (add-InStep one one-InStep b (negsuc 1) a).0 front_two back_two
      existed_two
