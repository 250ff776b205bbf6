-- ===== src/Iterator/Typed.antt =====
-- KIterator::next, HIterator::next and ZIterator::next: what a caller's loop reads.
use php.Prelude.{
  ℕ, zero, suc, ◌<◌, ◌≡◌, refl, sym, ap, ◌∙◌, true, Option, none, some, List, [], ◌∷◌, arith,
  length,
}
use php.LevelDb.{LevelDb}
use php.LevelDb.Iterators.{Entry, Iterators}
use php.Iterator.{Iterator, next, Seen, stop, ignored, taken, typed_next, typed_all}
use php.Iterator.Gives.{Gives}

module _ {ℓ} {A : Type ℓ} (seen : Entry → Seen A) where
  -- What is read of some entries, up to the first stop.
  abbrev pub collect : List Entry → List A
  collect [] = []
  collect (e ∷ l) =
      let rest = collect l in elim (seen e) [ stop ↦ [] | ignored ↦ rest | taken a ↦ a ∷ rest ]

  module _ (L : LevelDb) (I : Iterators L) where
    -- What a result of typed_next means where the entries l lie ahead.
    abbrev pub Follows : Option A × Iterator L I → List Entry → Type ℓ
    Follows (none, u) l = collect l ≡ []
    Follows (some a, u) l =
        (rest : List Entry) × (Gives L I u rest
          × ((collect l ≡ a ∷ collect rest) × (length rest < length l)))

    -- One entry read.
    abbrev turn : Seen A → Option A × Iterator L I → Iterator L I → Option A × Iterator L I
    turn s rest u = elim s [ stop ↦ (none, u) | ignored ↦ rest | taken a ↦ (some a, u) ]

    turn-Follows :
        (e : Entry) (l : List Entry) (s : Seen A) (r : Option A × Iterator L I) (u : Iterator L I)
        → seen e ≡ s
        → Gives L I u l
        → Follows r l
        → Follows (turn s r u) (e ∷ l)
    turn-Follows e l stop r u h g f = let c : collect (e ∷ l) ≡ [] = rw (h, collect) refl in c
    turn-Follows e l ignored (none, v) u h g f =
        let c : collect (e ∷ l) ≡ collect l = rw (h, collect) refl in c ∙ f
    turn-Follows e l ignored (some a, v) u h g (rest, (k, (c, less))) =
        let d : collect (e ∷ l) ≡ collect l = rw (h, collect) refl in
        (rest, (k, (d ∙ c, omega (arith, less))))
    turn-Follows e l (taken a) r u h g f =
        let c : collect (e ∷ l) ≡ a ∷ collect l = rw (h, collect) refl in (l, (g, (c, omega arith)))

    typed_next-turn :
        (n : ℕ) (t : Iterator L I) (e : Entry)
        → (next L I t).0 ≡ true
        → I.current (next L I t).1.it ≡ some e
        → typed_next seen L I (suc n) t
          ≡ turn (seen e) (typed_next seen L I n (next L I t).1) (next L I t).1
    unfolding typed_next
    typed_next-turn n t e h c = rw (h, c) refl

    pub typed_next-Follows :
        (n : ℕ) (t : Iterator L I) (l : List Entry)
        → Gives L I t l
        → length l < n
        → Follows (typed_next seen L I n t) l
    unfolding typed_next
    typed_next-Follows zero t l g h = absurd (omega (arith, h))
    typed_next-Follows (suc n) t [] (f, z) h = rw f refl
    typed_next-Follows (suc n) t (e ∷ l) (f, (c, g)) h = rw (typed_next-turn n t e f c) (
        turn-Follows e l (seen e) (typed_next seen L I n (next L I t).1) (next L I t).1 refl g
          (typed_next-Follows n (next L I t).1 l g (omega (arith, h))))

    all_after :
        (n : ℕ) (r : Option A × Iterator L I) (l : List Entry)
        → ((u : Iterator L I) (rest : List Entry)
            → Gives L I u rest
            → length rest < n
            → typed_all seen L I n u ≡ collect rest)
        → Follows r l
        → length l < suc n
        → (elim r.0 [ none ↦ [] | some x ↦ x ∷ typed_all seen L I n r.1 ]) ≡ collect l
    all_after n (none, u) l ih f h = sym f
    all_after n (some a, u) l ih (rest, (g, (c, less))) h =
        ap (λ r. a ∷ r) (ih u rest g (omega (arith, h, less))) ∙ sym c

    -- The caller's loop reads what `collect` does of what the iterator gives, where the fuel is
    -- more than the number of entries.
    pub typed_all-collect :
        (n : ℕ) (t : Iterator L I) (l : List Entry)
        → Gives L I t l
        → length l < n
        → typed_all seen L I n t ≡ collect l
    unfolding typed_all
    typed_all-collect zero t l g h = absurd (omega (arith, h))
    typed_all-collect (suc n) t l g h =
        all_after n (typed_next seen L I (suc n) t) l (typed_all-collect n)
          (typed_next-Follows (suc n) t l g h) h
