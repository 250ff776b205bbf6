-- ===== src/Scan/Range.antt =====
-- What a forward scan of the keys of one type gives, and SSDBImpl::scan.
use php.Prelude.{
  ℕ, suc, ◌<◌, ◌≡◌, refl, sym, ap, ◌∙◌, Bool, true, false, none, if◌then◌else◌, List, [], ◌∷◌, ◌++◌,
  arith, take, length, length-take, Option-cases, Bool-cases, inl, inr,
}
use php.Bytes.{Bytes, eqb}
use php.Bytes.Compare.{eqb_iff}
use php.Bytes.Order.{lt, lt_prefix, strip, strip-append, append-strip}
use php.Keys.{encode_kv_key}
use php.Keys.RoundTrip.{decode-name}
use php.Keys.Distinct.{eqb-prefix}
use php.Keys.DataType
use php.LevelDb.{LevelDb}
use php.LevelDb.Iterators.{Entry, AllAfter, IsSorted, find, Iterators, IsIterable}
use php.Binlog.{Ssdb}
use php.Iterator.{iterator, Seen, k_seen, typed_all}
use php.Iterator.Range.{in_range, iterator-Gives}
use php.Iterator.Range.Keep.{keep}
use php.Iterator.Typed.{typed_all-collect}
use php.Iterator.Section.{reading, section, bound, Reads, collect-range}
use php.Scan.{scan}

pub section-AllAfter :
    (p a : Bytes) (es : List Entry) → AllAfter (p ++ a) es → AllAfter a (section p es)
section-AllAfter p a [] b = tt
section-AllAfter p a (e ∷ es) (h, b) = elim (Option-cases (strip p e.0)) [
  | inl x ↦ rw (x, section) (section-AllAfter p a es b)
  | inr (t, x) ↦
      let after : lt a t ≡ true =
        sym (lt_prefix p a t) ∙ ap (lt (p ++ a)) (sym (append-strip p e.0 t x)) ∙ h in
      rw (x, section) (after, section-AllAfter p a es b)
]

-- The entries of a kind are sorted by what follows the prefix, and each is what the database holds.
pub section-IsSorted : (p : Bytes) (es : List Entry) → IsSorted es → IsSorted (section p es)
section-IsSorted p [] s = tt
section-IsSorted p (e ∷ es) (a, s) = elim (Option-cases (strip p e.0)) [
  | inl x ↦ rw (x, section) (section-IsSorted p es s)
  | inr (t, x) ↦
      let b : AllAfter (p ++ t) es = rw (sym (append-strip p e.0 t x)) a in
      rw (x, section) (section-AllAfter p t es b, section-IsSorted p es s)
]

pub find-section : (p k : Bytes) (es : List Entry) → find (section p es) k ≡ find es (p ++ k)
find-section p k [] = refl
find-section p k (e ∷ es) = elim (Option-cases (strip p e.0)) [
  | inl x ↦
      let other : eqb e.0 (p ++ k) ≡ false = elim (Bool-cases (eqb e.0 (p ++ k))) [
        | inl y ↦
            let same : e.0 ≡ p ++ k = (eqb_iff e.0 (p ++ k)).0 y in
            cc (rw same at x, strip-append p k)
        | inr y ↦ y
      ] in
      rw (x, section, other) (find-section p k es)
  | inr (t, x) ↦
      let same : eqb e.0 (p ++ k) ≡ eqb t k =
        ap (λ s. eqb s (p ++ k)) (append-strip p e.0 t x) ∙ eqb-prefix p t k in
      rw (x, section, same, find-section p k es) refl
]

pub find-keep :
    (q : Bytes → Bool) (k : Bytes) (es : List Entry)
    → find (keep q es) k ≡ (if q k then find es k else none)
find-keep q k [] = elim (Bool-cases (q k)) [ inl x ↦ rw x refl | inr x ↦ rw x refl ]
find-keep q k (e ∷ es) = elim (Bool-cases (eqb e.0 k)) [
  | inl y ↦
      let same : q e.0 ≡ q k = ap q ((eqb_iff e.0 k).0 y) in
      elim (Bool-cases (q k)) [
        | inl x ↦ rw (same, x, y) refl
        | inr x ↦ rw (same, x) (find-keep q k es ∙ rw x refl)
      ]
  | inr y ↦ elim (Bool-cases (q e.0)) [
    | inl x ↦ rw (x, y) (find-keep q k es)
    | inr x ↦ rw (x, y) (find-keep q k es)
  ]
]

pub Reads-all :
    (seen : Entry → Seen Entry) (p : Bytes) (es : List Entry)
    → ((e : Entry) → seen e ≡ reading p e)
    → Reads seen p es
Reads-all seen p [] h = tt
Reads-all seen p (e ∷ es) h = (h e, Reads-all seen p es h)

pub length-take_lt {ℓ} : {A : Type ℓ} (n : ℕ) (l : List A) → length (take n l) < suc n
length-take_lt n l = omega (arith, length-take n l)

module _ (L : LevelDb) (I : Iterators L) (d : L.Db) (ok : IsIterable L I d)
    (seen : Entry → Seen Entry) (c : ℕ) (p : Bytes) (reads : Reads seen (c ∷ p) (I.entries d)) where
  -- The range of a forward scan below a prefix.
  pub scan_range :
      (start end : Bytes) (limit : ℕ)
      → typed_all seen L I (suc limit) (iterator L I d ((c ∷ p) ++ start) (bound (c ∷ p) end) limit)
        ≡ take limit (keep (in_range start end) (section (c ∷ p) (I.entries d)))
  scan_range start end limit =
      let l : List Entry = keep (in_range ((c ∷ p) ++ start) (bound (c ∷ p) end)) (I.entries d) in
      typed_all-collect seen L I (suc limit)
        (iterator L I d ((c ∷ p) ++ start) (bound (c ∷ p) end) limit) (take limit l)
        (iterator-Gives L I d ok ((c ∷ p) ++ start) (bound (c ∷ p) end) limit)
        (length-take_lt limit l)
      ∙ collect-range seen c p start end limit (I.entries d) (I.entries-IsSorted d) reads

pub k_seen-reading : (e : Entry) → k_seen e ≡ reading (DataType.kv ∷ []) e
unfolding k_seen
k_seen-reading ([], v) = refl
k_seen-reading (c ∷ k, v) = ground (arith, (decode-name k).0)

module _ (L : LevelDb) (I : Iterators L) (d : L.Db) where
  -- The keys and values of the database, in order.
  abbrev pub values : List Entry
  values = section (DataType.kv ∷ []) (I.entries d)

  pub find-values : (k : Bytes) → find values k ≡ L.content d (encode_kv_key k)
  find-values k =
      find-section (DataType.kv ∷ []) k (I.entries d) ∙ I.find-entries d (encode_kv_key k)

  pub values-IsSorted : IsSorted values
  values-IsSorted = section-IsSorted (DataType.kv ∷ []) (I.entries d) (I.entries-IsSorted d)

module _ (L : LevelDb) (I : Iterators L) (s : Ssdb L) where
  -- On a database whose iterators meet no error, a loop over scan(start, end, limit) reads the
  -- first `limit` of the keys after start and up to end, end included (of all, where end is empty),
  -- in order, with their values: the list of all keys it takes them from is sorted and gives for a
  -- key k what the database holds for it.
  pub scan-values :
      IsIterable L I s.db
      → (start end : Bytes) (limit : ℕ) (k : Bytes)
      → (typed_all k_seen L I (suc limit) (scan L I s start end limit)
          ≡ take limit (keep (in_range start end) (values L I s.db)))
        × IsSorted (values L I s.db)
        × (find (values L I s.db) k ≡ L.content s.db (encode_kv_key k))
  unfolding scan
  scan-values ok start end limit k = (
    scan_range L I s.db ok k_seen DataType.kv []
        (Reads-all k_seen (DataType.kv ∷ []) (I.entries s.db) k_seen-reading) start end limit,
    values-IsSorted L I s.db,
    find-values L I s.db k,
  )
