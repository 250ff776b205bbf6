-- ===== src/Iterator/Range.antt =====
-- SSDBImpl::iterator, and the entries of a range of keys.
pub mod Keep
pub mod Backward
use php.Prelude.{
  ℕ, zero, suc, ◌≡◌, refl, sym, ap, ◌∙◌, Bool, true, false, ◌&&◌, Option, none, some, List, [], ◌∷◌,
  take, Bool-cases, inl, inr,
}
use php.Bytes.{Bytes, eqb}
use php.Bytes.Order.{lt}
use php.LevelDb.{LevelDb}
use php.LevelDb.Iterators.{Entry, IsSorted, from, before, head, Iterators, IsIterable}
use php.Iterator.{Direction, forward, Iterator, new, skip_start, iterator}
use php.Iterator.Gives.{until, Gives, new-Gives, new-Gives_nothing}
use php.Iterator.Range.Keep.{
  keep, up_to, drop_same, drop_same-from, keep-keep, until-forward, keep-IsSorted,
}

-- After the start and not after the end, where there is one.
abbrev pub in_range : Bytes → Bytes → Bytes → Bool
in_range start end k = lt start k && up_to end k

pub take-nil {ℓ} : {A : Type ℓ} (n : ℕ) → take {A = A} n [] ≡ []
take-nil zero = refl
take-nil (suc n) = refl

module _ (L : LevelDb) (I : Iterators L) where
  -- A new forward iterator, by the entries that lie ahead of its place.
  placed-Gives :
      (end : Bytes) (n : ℕ) (it : I.Iter) (bs es : List Entry)
      → I.position it ≡ (bs, es)
      → Gives L I (new L I it end n forward) (take n (until forward end es))
  placed-Gives end n it bs [] h =
      rw (take-nil {A = Entry} n)
        (new-Gives_nothing L I forward end n it (I.current-position it ∙ ap (λ p. head p.1) h))
  placed-Gives end n it bs (e ∷ es) h = new-Gives L I forward end n it e es (bs, h)

  skip_start-Gives :
      (start end : Bytes) (n : ℕ) (it : I.Iter) (bs es : List Entry)
      → I.position it ≡ (bs, es)
      → Gives L I
          (new L I (skip_start L I start it) end n forward)
          (take n (until forward end (drop_same start es)))
  unfolding skip_start
  skip_start-Gives start end n it bs [] h =
      let c : I.current it ≡ none = I.current-position it ∙ ap (λ p. head p.1) h in
      rw (c, skip_start) (placed-Gives end n it bs [] h)
  skip_start-Gives start end n it bs (e ∷ es) h =
      let c : I.current it ≡ some e = I.current-position it ∙ ap (λ p. head p.1) h in
      elim (Bool-cases (eqb e.0 start)) [
        | inl x ↦
            rw (c, skip_start, x)
              (placed-Gives end n (I.next it) (e ∷ bs) es (I.next-position it bs e es h))
        | inr x ↦ rw (c, skip_start, x) (placed-Gives end n it bs (e ∷ es) h)
      ]

  module _ (d : L.Db) (ok : IsIterable L I d) (start end : Bytes) (n : ℕ) where
    -- On a database whose iterators meet no error, the calls of next on
    -- iterator(start, end, limit) give, in the order of the keys, the first `limit` entries after
    -- start and not beyond end, and then false.
    pub iterator-Gives :
        Gives L I (iterator L I d start end n) (take n (keep (in_range start end) (I.entries d)))
    unfolding iterator
    iterator-Gives =
        let es = I.entries d in
        let sorted : IsSorted es = I.entries-IsSorted d in
        let after : drop_same start (from start es) ≡ keep (λ j. lt start j) es =
          drop_same-from start es sorted in
        let bounded : until forward end (drop_same start (from start es))
            ≡ keep (in_range start end) es =
          ap (until forward end) after
          ∙ until-forward end (keep (λ j. lt start j) es) (keep-IsSorted _ es sorted)
          ∙ keep-keep _ _ es in
        rw (sym bounded) (
          skip_start-Gives start end n (I.seek start (I.new_iterator d)) (before start [] es)
            (from start es) (ok.seeks start))
