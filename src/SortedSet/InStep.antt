-- ===== src/SortedSet/InStep.antt =====
-- The invariant of a SortedSet, and its operations add and del.
use php.Prelude.{
  ℕ, ◌+◌, ◌≡◌, refl, sym, ap, ◌∙◌, true, Option, none, some, List, [], ◌∷◌, arith, if◌then◌else◌,
  Bool-cases, Option-cases, inl, inr,
}
use php.Prelude.Int.{ℤ, pos, negsuc}
use php.Bytes.{Bytes, eqb}
use php.Bytes.Compare.{eqb_iff}
use php.SortedSet.{Item, SortedSet, eqb_ℤ, erase, mapped, add, add_item, del}
use php.SortedSet.Items.{
  get, AreSorted, AreDistinct, insert-AreSorted, erase-AreSorted, insert-AreDistinct,
  erase-AreDistinct, get-insert, get-erase,
}

-- The set is in order and has one item for a key, and the map gives for a key its item.
pub record InStep (s : SortedSet) : Type 0 where
  pub sorted : AreSorted s.sorted_set
  pub distinct : AreDistinct s.sorted_set
  pub agree : (k : Bytes) → s.existed k ≡ get s.sorted_set k

abbrev pub score : Option Item → Option ℤ
score none = none
score (some item) = some item.score

-- The score of a key, if it is there.
abbrev pub score_of : SortedSet → Bytes → Option ℤ
score_of s k = score (s.existed k)

key-get : (items : List Item) (k : Bytes) (it : Item) → get items k ≡ some it → it.key ≡ k
key-get [] k it h = cc h
key-get (x ∷ items) k it h = elim (Bool-cases (eqb x.key k)) [
  | inl y ↦ let own : x ≡ it = cc (rw y at h) in sym (ap (λ i. i.key) own) ∙ (eqb_iff x.key k).0 y
  | inr y ↦ key-get items k it (rw y at h)
]

module _ (s : SortedSet) (h : InStep s) where
  abbrev without : Bytes → Item → SortedSet
  without k it = record { existed = mapped s.existed k none; sorted_set = erase it s.sorted_set }

  own-key : (k : Bytes) (it : Item) → s.existed k ≡ some it → it.key ≡ k
  own-key k it e = key-get s.sorted_set k it (sym (h.agree k) ∙ e)

  pub own-get : (k : Bytes) (it : Item) → s.existed k ≡ some it → get s.sorted_set it.key ≡ some it
  own-get k it e = ap (get s.sorted_set) (own-key k it e) ∙ sym (h.agree k) ∙ e

  without-agree :
      (k : Bytes) (it : Item)
      → s.existed k ≡ some it
      → (j : Bytes) → mapped s.existed k none j ≡ get (erase it s.sorted_set) j
  without-agree k it e j =
      ap (λ o. if eqb k j then none else o) (h.agree j)
      ∙ ap (λ b. if eqb b j then none else get s.sorted_set j) (sym (own-key k it e))
      ∙ sym (get-erase it s.sorted_set j (own-get k it e) h.distinct)

  pub without-InStep : (k : Bytes) (it : Item) → s.existed k ≡ some it → InStep (without k it)
  without-InStep k it e = record {
    sorted = erase-AreSorted it s.sorted_set h.sorted;
    distinct = erase-AreDistinct it s.sorted_set (own-get k it e) h.distinct;
    agree = without-agree k it e;
  }

  -- An item put in among items that have none with its key.
  put-InStep :
      (item : Item) (ret : ℕ) (items : List Item)
      → AreSorted items
      → AreDistinct items
      → ((j : Bytes) → mapped s.existed item.key none j ≡ get items j)
      → InStep (add_item item ret items s).1
  unfolding add_item
  put-InStep item ret items sorted distinct agree =
      let self : eqb item.key item.key ≡ true = (eqb_iff item.key item.key).1 refl in
      let absent : get items item.key ≡ none = sym (agree item.key) ∙ rw self refl in
      record {
        sorted = insert-AreSorted item items sorted;
        distinct = insert-AreDistinct item items absent distinct;
        agree = λ j. elim (Bool-cases (eqb item.key j)) [
          | inl y ↦ rw (y, get-insert item items j absent, y) refl
          | inr y ↦
              let same : s.existed j ≡ get items j = (let m = agree j in rw y at m) in
              rw (y, get-insert item items j absent, y) same
        ];
      }

  absent-agree :
      (k : Bytes)
      → s.existed k ≡ none
      → (j : Bytes) → mapped s.existed k none j ≡ get s.sorted_set j
  absent-agree k e j = elim (Bool-cases (eqb k j)) [
    | inl y ↦ rw y (sym e ∙ ap s.existed ((eqb_iff k j).0 y) ∙ h.agree j)
    | inr y ↦ rw y (h.agree j)
  ]

eqb_ℤ-eq : (a b : ℤ) → eqb_ℤ a b ≡ true → a ≡ b
eqb_ℤ-eq (pos a) (pos b) h = ground (arith, h)
eqb_ℤ-eq (pos a) (negsuc b) h = ground (arith, h)
eqb_ℤ-eq (negsuc a) (pos b) h = ground (arith, h)
eqb_ℤ-eq (negsuc a) (negsuc b) h = ground (arith, h)

-- 1 for a new key, and 0 for one that is there.
abbrev pub is_new : Option Item → ℕ
is_new none = 1
is_new (some item) = 0

module _ (s : SortedSet) (h : InStep s) (key : Bytes) (v : ℤ) (j : Bytes) where
  -- A state and result that `add` may end in.
  abbrev Added : ℕ × SortedSet → Type 0
  Added x =
      InStep x.1
      × (x.0 ≡ is_new (s.existed key))
      × (score_of x.1 j ≡ (if eqb key j then some v else score_of s j))

  abbrev item : Item
  item = record { key = key; score = v }

  put-score :
      (ret : ℕ) (items : List Item)
      → score_of (add_item item ret items s).1 j ≡ (if eqb key j then some v else score_of s j)
  unfolding add_item
  put-score ret items = elim (Bool-cases (eqb key j)) [ inl y ↦ rw y refl | inr y ↦ rw y refl ]

  -- `add` keeps the map and the set in step, returns 1 for a new key and 0 for an old one, and
  -- afterwards the key has the score and every other key what it had.
  pub add-InStep : Added (add key v s)
  unfolding add
  add-InStep = elim (Option-cases (s.existed key)) [
    | inl e ↦
        let go : add key v s ≡ add_item item 1 s.sorted_set s = rw (add, e) refl in
        let n : is_new (s.existed key) ≡ 1 = ap is_new e in
        rw go (
          put-InStep s h item 1 s.sorted_set h.sorted h.distinct (absent-agree s h key e),
          sym n,
          put-score 1 s.sorted_set,
        )
    | inr (it, e) ↦
        let n : is_new (s.existed key) ≡ 0 = ap is_new e in
        elim (Bool-cases (eqb_ℤ it.score v)) [
          | inl y ↦
              let go : add key v s ≡ (0, s) = rw (add, e, y) refl in
              let same : it.score ≡ v = eqb_ℤ-eq it.score v y in
              let kept : score_of s j ≡ (if eqb key j then some v else score_of s j) =
                elim (Bool-cases (eqb key j)) [
                  | inl z ↦ rw z (
                      ap (score_of s) (sym ((eqb_iff key j).0 z))
                      ∙ ap score e
                      ∙ ap (λ a. some a) same)
                  | inr z ↦ rw z refl
                ] in
              rw go (h, sym n, kept)
          | inr y ↦
              let go : add key v s ≡ add_item item 0 (erase it s.sorted_set) s =
                rw (add, e, y) refl in
              let out : InStep (without s h key it) = without-InStep s h key it e in
              rw go (
                put-InStep s h item 0 (erase it s.sorted_set) out.sorted out.distinct out.agree,
                sym n,
                put-score 0 (erase it s.sorted_set),
              )
        ]
  ]

  -- `del` keeps the map and the set in step, returns 1 for a key that is there and 0 for another,
  -- and afterwards the key is gone and every other key has what it had.
  pub del-InStep :
      InStep (del key s).1
      × ((del key s).0 + is_new (s.existed key) ≡ 1)
      × (score_of (del key s).1 j ≡ (if eqb key j then none else score_of s j))
  unfolding del
  del-InStep = elim (Option-cases (s.existed key)) [
    | inl e ↦
        let go : del key s ≡ (0, s) = rw (del, e) refl in
        let n : is_new (s.existed key) ≡ 1 = ap is_new e in
        let kept : score_of s j ≡ (if eqb key j then none else score_of s j) =
          elim (Bool-cases (eqb key j)) [
            | inl z ↦ rw z (ap (score_of s) (sym ((eqb_iff key j).0 z)) ∙ ap score e)
            | inr z ↦ rw z refl
          ] in
        rw go (h, omega (arith, n), kept)
    | inr (it, e) ↦
        let go : del key s ≡ (1, without s h key it) = rw (del, e) refl in
        let n : is_new (s.existed key) ≡ 0 = ap is_new e in
        let kept : score_of (without s h key it) j ≡ (if eqb key j then none else score_of s j) =
          elim (Bool-cases (eqb key j)) [ inl z ↦ rw z refl | inr z ↦ rw z refl ] in
        rw go (without-InStep s h key it e, omega (arith, n), kept)
  ]
