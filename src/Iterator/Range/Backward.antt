-- ===== src/Iterator/Range/Backward.antt =====
-- SSDBImpl::rev_iterator, and the entries of a range of keys in the opposite order.
use php.Prelude.{
  ℕ, ◌≡◌, refl, sym, ap, ◌∙◌, Bool, true, false, not, ◌&&◌, ◌||◌, none, some, List, [], ◌∷◌, arith,
  take, Bool-cases, inl, inr,
}
use php.Bytes.{Bytes, is_empty}
use php.Bytes.Order.{lt, lt_trans}
use php.LevelDb.{LevelDb}
use php.LevelDb.Iterators.{
  Entry, AllAfter, IsSorted, from, before, head, at_last, Iterators, IsIterable,
}
use php.Iterator.{backward, is_beyond, new, step_back, rev_iterator}
use php.Iterator.Gives.{until, Gives, new-Gives, new-Gives_nothing}
use php.Iterator.Range.{take-nil}
use php.Iterator.Range.Keep.{keep, reversed, before-keep, keep-keep, keep-IsSorted}

-- Every key comes before k.
abbrev pub AllBelow : Bytes → List Entry → Type 0
AllBelow k [] = Unit
AllBelow k (e ∷ es) = (lt e.0 k ≡ true) × AllBelow k es

abbrev pub IsDescending : List Entry → Type 0
IsDescending [] = Unit
IsDescending (e ∷ es) = AllBelow e.0 es × IsDescending es

AllBelow-trans : (j k : Bytes) (es : List Entry) → lt j k ≡ true → AllBelow j es → AllBelow k es
AllBelow-trans j k [] h a = a
AllBelow-trans j k (e ∷ es) h (p, a) = (lt_trans e.0 j k p h, AllBelow-trans j k es h a)

-- The keys of es come after those of acc, which descend.
abbrev pub Follows : List Entry → List Entry → Type 0
Follows [] es = Unit
Follows (a ∷ acc) es = AllAfter a.0 es

pub reversed-IsDescending :
    (acc es : List Entry)
    → IsDescending acc
    → IsSorted es
    → Follows acc es
    → IsDescending (reversed acc es)
reversed-IsDescending acc [] d s f = d
reversed-IsDescending [] (e ∷ es) d (a, s) f = reversed-IsDescending (e ∷ []) es (tt, tt) s a
reversed-IsDescending (b ∷ acc) (e ∷ es) (p, d) (a, s) (f, g) =
    reversed-IsDescending (e ∷ b ∷ acc) es ((f, AllBelow-trans b.0 e.0 acc f p), (p, d)) s a

keep-reversed :
    (p : Bytes → Bool) (acc es : List Entry)
    → keep p (reversed acc es) ≡ reversed (keep p acc) (keep p es)
keep-reversed p acc [] = refl
keep-reversed p acc (e ∷ es) = elim (Bool-cases (p e.0)) [
  | inl x ↦ keep-reversed p (e ∷ acc) es ∙ rw x refl
  | inr x ↦ keep-reversed p (e ∷ acc) es ∙ rw x refl
]

keep_below :
    (p : Bytes → Bool) (k : Bytes) (es : List Entry)
    → AllBelow k es
    → ((j : Bytes) → lt j k ≡ true → p j ≡ false)
    → keep p es ≡ []
keep_below p k [] a h = refl
keep_below p k (e ∷ es) (b, a) h = rw (h e.0 b) (keep_below p k es a h)

-- Not before the end, where there is one.
abbrev pub down_to : Bytes → Bytes → Bool
down_to end k = is_empty end || not (lt k end)

down_to_lem : (end k : Bytes) → is_beyond backward end k ≡ not (down_to end k)
unfolding is_beyond
down_to_lem end k = ground arith

-- The end bound, going backward.
until-backward :
    (end : Bytes) (es : List Entry)
    → IsDescending es
    → until backward end es ≡ keep (down_to end) es
until-backward end [] s = refl
until-backward end (e ∷ es) (a, s) = elim (Bool-cases (down_to end e.0)) [
  | inl x ↦ rw (down_to_lem end e.0, x, until-backward end es s) refl
  | inr x ↦
      let later : (j : Bytes) → lt j e.0 ≡ true → down_to end j ≡ false =
        λ j h. ground (arith, x, lt_trans j e.0 end) in
      rw (down_to_lem end e.0, x, keep_below (down_to end) e.0 es a later) refl
]

-- Before the start and not before the end, where there is one.
abbrev pub in_rev_range : Bytes → Bytes → Bytes → Bool
in_rev_range start end k = lt k start && down_to end k

module _ (L : LevelDb) (I : Iterators L) where
  -- At the last entry.
  last-Gives :
      (end : Bytes) (n : ℕ) (it : I.Iter) (bs : List Entry)
      → I.position it ≡ at_last bs
      → Gives L I (new L I it end n backward) (take n (until backward end bs))
  last-Gives end n it [] h =
      rw (take-nil {A = Entry} n)
        (new-Gives_nothing L I backward end n it (I.current-position it ∙ ap (λ p. head p.1) h))
  last-Gives end n it (b ∷ bs) h = new-Gives L I backward end n it b bs ([], h)

  -- One entry back from an entry.
  prev-Gives :
      (end : Bytes) (n : ℕ) (it : I.Iter) (bs : List Entry) (e : Entry) (es : List Entry)
      → I.position it ≡ (bs, e ∷ es)
      → Gives L I (new L I (I.prev it) end n backward) (take n (until backward end bs))
  prev-Gives end n it [] e es h = rw (take-nil {A = Entry} n) (
      new-Gives_nothing L I backward end n (I.prev it)
        (I.current-position (I.prev it) ∙ ap head (I.prev-first it e es h)))
  prev-Gives end n it (b ∷ bs) e es h =
      new-Gives L I backward end n (I.prev it) b bs (e ∷ es, I.prev-position it b bs e es h)

  step_back-Gives :
      (end : Bytes) (n : ℕ) (it : I.Iter) (bs es : List Entry)
      → I.position it ≡ (bs, es)
      → (es ≡ [] → I.position (I.seek_to_last it) ≡ at_last bs)
      → Gives L I (new L I (step_back L I it) end n backward) (take n (until backward end bs))
  unfolding step_back
  step_back-Gives end n it bs [] h last =
      let c : I.current it ≡ none = I.current-position it ∙ ap (λ p. head p.1) h in
      rw (c, step_back) (last-Gives end n (I.seek_to_last it) bs (last refl))
  step_back-Gives end n it bs (e ∷ es) h last =
      let c : I.current it ≡ some e = I.current-position it ∙ ap (λ p. head p.1) h in
      rw (c, step_back) (prev-Gives end n it bs e es h)

  module _ (d : L.Db) (ok : IsIterable L I d) (start end : Bytes) (n : ℕ) where
    -- On a database whose iterators meet no error, the calls of next on
    -- rev_iterator(start, end, limit) give, in the opposite order of the keys, the first `limit`
    -- entries before start and not before end, and then false.
    pub rev_iterator-Gives :
        Gives L I
          (rev_iterator L I d start end n)
          (take n (reversed [] (keep (in_rev_range start end) (I.entries d))))
    unfolding rev_iterator
    rev_iterator-Gives =
        let es = I.entries d in
        let sorted : IsSorted es = I.entries-IsSorted d in
        let below = keep (λ j. lt j start) es in
        let bounded : until backward end (before start [] es)
            ≡ reversed [] (keep (in_rev_range start end) es) =
          ap (until backward end) (before-keep start [] es sorted)
          ∙ until-backward end (reversed [] below)
              (reversed-IsDescending [] below tt (keep-IsSorted _ es sorted) tt)
          ∙ keep-reversed _ [] below
          ∙ ap (reversed []) (keep-keep _ _ es) in
        rw (sym bounded) (
          step_back-Gives end n (I.seek start (I.new_iterator d)) (before start [] es)
            (from start es) (ok.seeks start) (ok.seeks_last start))
