-- ===== src/LevelDb/SortedMemory.antt =====
-- The iterators of the database in memory, on its entries in order: the interface can be met.
use php.Prelude.{◌≡◌, refl, sym, ap, List, [], ◌∷◌, Bool-cases, inl, inr}
use php.Bytes.{Bytes}
use php.Bytes.Order.{lt}
use php.LevelDb.{Update}
use php.LevelDb.Memory.{memory}
use php.LevelDb.Iterators.{Entry, from, before, head, at_last, Iterators, IsIterable}
use php.LevelDb.Ordered.{apply_all, apply_all-IsSorted, find-apply_all}

-- All entries, and the two sides of the place.
abbrev pub Zipper : Type 0
Zipper = List Entry × (List Entry × List Entry)

abbrev pub forward : List Entry × List Entry → List Entry × List Entry
forward (bs, []) = (bs, [])
forward (bs, e ∷ es) = (e ∷ bs, es)

abbrev pub backward : List Entry × List Entry → List Entry × List Entry
backward ([], es) = ([], [])
backward (b ∷ bs, es) = (bs, b ∷ es)

abbrev pub reversed : List Entry → List Entry → List Entry
reversed acc [] = acc
reversed acc (e ∷ es) = reversed (e ∷ acc) es

before-reversed :
    (k : Bytes) (acc es : List Entry) → from k es ≡ [] → before k acc es ≡ reversed acc es
before-reversed k acc [] h = refl
before-reversed k acc (e ∷ es) h = elim (Bool-cases (lt e.0 k)) [
  | inl x ↦ rw x (before-reversed k (e ∷ acc) es (rw x at h))
  | inr x ↦ cc (rw x at h)
]

abbrev pub sorted_memory : Iterators memory
sorted_memory = record {
  entries = λ d. apply_all d [];
  entries-IsSorted = λ d. apply_all-IsSorted d [] tt;
  find-entries = λ d k. find-apply_all d [] k tt;
  Iter = Zipper;
  new_iterator = λ d. (apply_all d [], ([], []));
  seek = λ k it. (it.0, (before k [] it.0, from k it.0));
  seek_to_last = λ it. (it.0, at_last (reversed [] it.0));
  next = λ it. (it.0, forward it.1);
  prev = λ it. (it.0, backward it.1);
  current = λ it. head it.1.1;
  position = λ it. it.1;
  current-position = λ it. refl;
  next-position = λ it bs e es h. ap forward h;
  prev-position = λ it b bs e es h. ap backward h;
  prev-first = λ it e es h. ap (λ p. (backward p).1) h;
}

pub sorted_memory-IsIterable : (d : List Update) → IsIterable memory sorted_memory d
sorted_memory-IsIterable d = record {
  seeks = λ k. refl;
  seeks_last = λ k h. ap at_last (sym (before-reversed k [] (apply_all d []) h));
}
