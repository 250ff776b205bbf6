-- ===== src/Scan/Reverse.antt =====
-- What a reverse scan of the keys of one type gives, and SSDBImpl::rscan.
use php.Prelude.{
  ℕ, suc, ◌≡◌, refl, sym, ap, ◌∙◌, Bool, true, none, List, [], ◌∷◌, ◌++◌, arith, take,
  if◌then◌else◌, Option-cases, Bool-cases, inl, inr,
}
use php.Bytes.{Bytes, is_empty}
use php.Bytes.Order.{lt, lt_prefix, strip, append-strip, strip_between}
use php.Keys.DataType
use php.LevelDb.{LevelDb}
use php.LevelDb.Iterators.{Entry, IsSorted, Iterators, IsIterable}
use php.Binlog.{Ssdb}
use php.Iterator.{rev_iterator, Seen, k_seen, typed_all}
use php.Iterator.Range.Keep.{keep, reversed, keep-IsSorted}
use php.Iterator.Range.Backward.{
  in_rev_range, AllBelow, IsDescending, reversed-IsDescending, rev_iterator-Gives,
}
use php.Iterator.Typed.{collect, typed_all-collect}
use php.Iterator.Section.{reading, section, bound, Reads, keep-Reads, collect-take, section-keep}
use php.Scan.{rscan}
use php.Scan.Range.{length-take_lt, values, Reads-all, k_seen-reading}

reversed-Reads :
    (seen : Entry → Seen Entry) (p : Bytes) (acc es : List Entry)
    → Reads seen p acc
    → Reads seen p es
    → Reads seen p (reversed acc es)
reversed-Reads seen p acc [] a r = a
reversed-Reads seen p acc (e ∷ es) a (h, r) = reversed-Reads seen p (e ∷ acc) es (h, a) r

section-reversed :
    (p : Bytes) (acc es : List Entry)
    → section p (reversed acc es) ≡ reversed (section p acc) (section p es)
section-reversed p acc [] = refl
section-reversed p acc (e ∷ es) = elim (Option-cases (strip p e.0)) [
  | inl x ↦ section-reversed p (e ∷ acc) es ∙ rw (x, section) refl
  | inr (t, x) ↦ section-reversed p (e ∷ acc) es ∙ rw (x, section) refl
]

section-none :
    (p a s : Bytes) (es : List Entry)
    → lt s (p ++ a) ≡ true
    → strip p s ≡ none
    → AllBelow s es
    → section p es ≡ []
section-none p a s [] h x b = refl
section-none p a s (e ∷ es) h x (k, b) = elim (Option-cases (strip p e.0)) [
  | inl y ↦ rw (y, section) (section-none p a s es h x b)
  | inr (t, y) ↦
      let at : e.0 ≡ p ++ t = append-strip p e.0 t y in
      cc (strip_between p t s a (rw (sym at) k) h x)
]

collect-section :
    (p a : Bytes) (es : List Entry)
    → IsDescending es
    → AllBelow (p ++ a) es
    → collect (reading p) es ≡ section p es
collect-section p a [] s b = refl
collect-section p a (e ∷ es) (c, s) (h, b) = elim (Option-cases (strip p e.0)) [
  | inl x ↦ rw (x, collect, section) (sym (section-none p a e.0 es h x c))
  | inr (t, x) ↦ rw (x, collect, section) (ap (λ l. (t, e.1) ∷ l) (collect-section p a es s b))
]

reversed-AllBelow :
    (k : Bytes) (acc es : List Entry)
    → AllBelow k acc
    → AllBelow k es
    → AllBelow k (reversed acc es)
reversed-AllBelow k acc [] a b = a
reversed-AllBelow k acc (e ∷ es) a (h, b) = reversed-AllBelow k (e ∷ acc) es (h, a) b

keep_below :
    (k : Bytes) (q : Bytes → Bool) (es : List Entry)
    → ((j : Bytes) → q j ≡ true → lt j k ≡ true)
    → AllBelow k (keep q es)
keep_below k q [] h = tt
keep_below k q (e ∷ es) h = elim (Bool-cases (q e.0)) [
  | inl x ↦ rw x (h e.0 x, keep_below k q es h)
  | inr x ↦ rw x (keep_below k q es h)
]

in_rev_range-prefix :
    (c : ℕ) (p start end t : Bytes)
    → in_rev_range ((c ∷ p) ++ start) (bound (c ∷ p) end) ((c ∷ p) ++ t) ≡ in_rev_range start end t
in_rev_range-prefix c p start [] t = rw (lt_prefix (c ∷ p) t start) refl
in_rev_range-prefix c p start (x ∷ end) t =
    rw (lt_prefix (c ∷ p) t start, lt_prefix (c ∷ p) t (x ∷ end)) refl

module _ (L : LevelDb) (I : Iterators L) (d : L.Db) (ok : IsIterable L I d)
    (seen : Entry → Seen Entry) (c : ℕ) (p : Bytes) (reads : Reads seen (c ∷ p) (I.entries d)) where
  -- The range of a reverse scan below a prefix.
  pub rev_range :
      (start end : Bytes) (limit : ℕ)
      → typed_all seen L I
          (suc limit)
          (rev_iterator L I d ((c ∷ p) ++ start) (bound (c ∷ p) end) limit)
        ≡ take limit (reversed [] (keep (in_rev_range start end) (section (c ∷ p) (I.entries d))))
  rev_range start end limit =
      let q : Bytes → Bool = in_rev_range ((c ∷ p) ++ start) (bound (c ∷ p) end) in
      let es : List Entry = keep q (I.entries d) in
      let sorted : IsSorted es = keep-IsSorted q (I.entries d) (I.entries-IsSorted d) in
      let below : AllBelow ((c ∷ p) ++ start) es =
        keep_below ((c ∷ p) ++ start) q (I.entries d) (λ j h. ground (arith, h)) in
      typed_all-collect seen L I (suc limit)
        (rev_iterator L I d ((c ∷ p) ++ start) (bound (c ∷ p) end) limit)
        (take limit (reversed [] es))
        (rev_iterator-Gives L I d ok ((c ∷ p) ++ start) (bound (c ∷ p) end) limit)
        (length-take_lt limit (reversed [] es))
      ∙ collect-take seen (c ∷ p) limit (reversed [] es)
          (reversed-Reads seen (c ∷ p) [] es tt (keep-Reads seen (c ∷ p) q (I.entries d) reads))
      ∙ ap (take limit) (
          collect-section (c ∷ p) start (reversed [] es) (reversed-IsDescending [] es tt sorted tt)
            (reversed-AllBelow ((c ∷ p) ++ start) [] es tt below)
          ∙ section-reversed (c ∷ p) [] es
          ∙ ap (reversed []) (
              section-keep (c ∷ p) q (in_rev_range start end) (I.entries d)
                (in_rev_range-prefix c p start end)))

-- Where a reverse scan starts: below the string of one byte 255, where no start is given.
abbrev pub rev_start : Bytes → Bytes
rev_start start = if is_empty start then 255 ∷ [] else start

module _ (L : LevelDb) (I : Iterators L) (s : Ssdb L) where
  -- On a database whose iterators meet no error, a loop over rscan(start, end, limit) reads in
  -- descending order, with their values, the first `limit` of the keys before start and not before
  -- end; an empty end is no bound, and an empty start stands for the string of one byte 255, so
  -- that a key that begins with this byte is not read.
  pub rscan-values :
      IsIterable L I s.db
      → (start end : Bytes) (limit : ℕ)
      → typed_all k_seen L I (suc limit) (rscan L I s start end limit)
        ≡ take limit (reversed [] (keep (in_rev_range (rev_start start) end) (values L I s.db)))
  unfolding rscan
  rscan-values ok [] end limit =
      rev_range L I s.db ok k_seen DataType.kv []
        (Reads-all k_seen (DataType.kv ∷ []) (I.entries s.db) k_seen-reading) (255 ∷ []) end limit
  rscan-values ok (x ∷ start) end limit =
      rev_range L I s.db ok k_seen DataType.kv []
        (Reads-all k_seen (DataType.kv ∷ []) (I.entries s.db) k_seen-reading) (x ∷ start) end limit
