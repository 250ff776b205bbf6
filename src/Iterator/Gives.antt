-- ===== src/Iterator/Gives.antt =====
-- What the calls of Iterator::next give, one after the other.
use php.Prelude.{
  ℕ, zero, suc, ◌-◌, ◌≡◌, refl, ap, ◌∙◌, true, false, none, some, List, [], ◌∷◌, arith, take,
  if◌then◌else◌, ◌==◌, Bool-cases, inl, inr,
}
use php.Bytes.{Bytes}
use php.LevelDb.{LevelDb}
use php.LevelDb.Iterators.{Entry, Iterators, head}
use php.Iterator.{Direction, forward, backward, is_beyond, Iterator, new, step, next_at, next}

-- The entries before the first one beyond the end.
abbrev pub until : Direction → Bytes → List Entry → List Entry
until dir end [] = []
until dir end (e ∷ es) =
    let rest = until dir end es in if is_beyond dir end e.0 then [] else e ∷ rest

module _ (L : LevelDb) (I : Iterators L) where
  -- The calls of `next` give the entries l, then false.
  abbrev pub Gives : Iterator L I → List Entry → Type 0
  Gives t [] = ((next L I t).0 ≡ false) × ((next L I t).1.limit ≡ 0)
  Gives t (e ∷ l) =
      ((next L I t).0 ≡ true) × ((I.current (next L I t).1.it ≡ some e) × Gives (next L I t).1 l)

  -- An iterator stands at an entry, with the entries es on the far side in the direction.
  abbrev pub StandsAt : Direction → I.Iter → Entry → List Entry → Type 0
  StandsAt forward it e es = (bs : List Entry) × (I.position it ≡ (bs, e ∷ es))
  StandsAt backward it e es = (fs : List Entry) × (I.position it ≡ (es, e ∷ fs))

  pub current-StandsAt :
      (dir : Direction) (it : I.Iter) (e : Entry) (es : List Entry)
      → StandsAt dir it e es
      → I.current it ≡ some e
  current-StandsAt forward it e es (bs, h) = I.current-position it ∙ ap (λ p. head p.1) h
  current-StandsAt backward it e es (fs, h) = I.current-position it ∙ ap (λ p. head p.1) h

  step-StandsAt :
      (dir : Direction) (it : I.Iter) (e x : Entry) (es : List Entry)
      → StandsAt dir it e (x ∷ es)
      → StandsAt dir (step L I dir it) x es
  unfolding step
  step-StandsAt forward it e x es (bs, h) = (e ∷ bs, I.next-position it bs e (x ∷ es) h)
  step-StandsAt backward it e x es (fs, h) = (e ∷ fs, I.prev-position it x es e fs h)

  step_last :
      (dir : Direction) (it : I.Iter) (e : Entry)
      → StandsAt dir it e []
      → I.current (step L I dir it) ≡ none
  unfolding step
  step_last forward it e (bs, h) =
      I.current-position (I.next it) ∙ ap (λ p. head p.1) (I.next-position it bs e [] h)
  step_last backward it e (fs, h) =
      I.current-position (I.prev it) ∙ ap head (I.prev-first it e fs h)

  -- An iterator after the first call.
  abbrev going : I.Iter → Bytes → ℕ → Direction → Iterator L I
  going it end n dir = record (new L I it end n dir) { is_first = false }

  -- A call that moves to a place where there is nothing, or an entry.
  module _ (t : Iterator L I) (place : I.Iter) (end : Bytes) (n : ℕ) (dir : Direction)
      (moves : next L I t ≡ next_at L I (I.current place) (going place end (suc n) dir)) where
    nothing-Gives : I.current place ≡ none → Gives t []
    unfolding next_at
    nothing-Gives h =
        let e : next L I t ≡ (false, going place end 0 dir) =
          moves ∙ ap (λ c. next_at L I c (going place end (suc n) dir)) h in
        rw e (refl, refl)

    something-Gives :
        (e : Entry) (es : List Entry)
        → I.current place ≡ some e
        → Gives (going place end n dir) (take n (until dir end es))
        → Gives t (take (suc n) (until dir end (e ∷ es)))
    unfolding next_at
    something-Gives e es h rest =
        let m : next L I t ≡ next_at L I (some e) (going place end (suc n) dir) =
          moves ∙ ap (λ c. next_at L I c (going place end (suc n) dir)) h in
        let less : suc n - 1 ≡ n = omega arith in
        elim (Bool-cases (is_beyond dir end e.0)) [
          | inl b ↦
              let a : next L I t ≡ (false, going place end 0 dir) = m ∙ rw b refl in
              rw (b, a) (refl, refl)
          | inr b ↦
              let a : next L I t ≡ (true, going place end n dir) = m ∙ rw (b, less) refl in
              rw (b, a) (refl, (h, rest))
        ]

  suc_ne : (n : ℕ) → (suc n == 0) ≡ false
  suc_ne n = ground arith

  next-going :
      (dir : Direction) (end : Bytes) (n : ℕ) (it : I.Iter)
      → next L I (going it end (suc n) dir)
        ≡ next_at L I (I.current (step L I dir it)) (going (step L I dir it) end (suc n) dir)
  unfolding next
  next-going dir end n it = rw (suc_ne n) refl

  next-new :
      (dir : Direction) (end : Bytes) (n : ℕ) (it : I.Iter)
      → next L I (new L I it end (suc n) dir)
        ≡ next_at L I (I.current it) (going it end (suc n) dir)
  unfolding next
  next-new dir end n it = rw (suc_ne n) refl

  going-Gives :
      (dir : Direction) (end : Bytes) (n : ℕ) (it : I.Iter) (e : Entry) (es : List Entry)
      → StandsAt dir it e es
      → Gives (going it end n dir) (take n (until dir end es))
  unfolding next
  going-Gives dir end zero it e es h = (refl, refl)
  going-Gives dir end (suc n) it e [] h =
      nothing-Gives (going it end (suc n) dir) (step L I dir it) end n dir (next-going dir end n it)
        (step_last dir it e h)
  going-Gives dir end (suc n) it e (x ∷ es) h =
      let there : StandsAt dir (step L I dir it) x es = step-StandsAt dir it e x es h in
      something-Gives (going it end (suc n) dir) (step L I dir it) end n dir
        (next-going dir end n it) x es (current-StandsAt dir (step L I dir it) x es there)
        (going-Gives dir end n (step L I dir it) x es there)

  -- A new iterator at nothing, and at an entry.
  pub new-Gives_nothing :
      (dir : Direction) (end : Bytes) (n : ℕ) (it : I.Iter)
      → I.current it ≡ none
      → Gives (new L I it end n dir) []
  unfolding next
  new-Gives_nothing dir end zero it h = (refl, refl)
  new-Gives_nothing dir end (suc n) it h =
      nothing-Gives (new L I it end (suc n) dir) it end n dir (next-new dir end n it) h

  pub new-Gives :
      (dir : Direction) (end : Bytes) (n : ℕ) (it : I.Iter) (e : Entry) (es : List Entry)
      → StandsAt dir it e es
      → Gives (new L I it end n dir) (take n (until dir end (e ∷ es)))
  unfolding next
  new-Gives dir end zero it e es h = (refl, refl)
  new-Gives dir end (suc n) it e es h =
      something-Gives (new L I it end (suc n) dir) it end n dir (next-new dir end n it) e es
        (current-StandsAt dir it e es h) (going-Gives dir end n it e es h)
