-- ===== src/Scan/ByScore.antt =====
-- The members of a sorted set in a range of scores, and what an iterator over them reads.
use php.Prelude.{
  ℕ, suc, ◌%◌, ◌^◌, ◌<◌, ◌≡◌, refl, sym, ap, ◌∙◌, Bool, true, false, ◌&&◌, not, Option, none, some,
  List, [], ◌∷◌, ◌++◌, arith, take, length, map, if◌then◌else◌, Option-cases, Bool-cases, inl, inr,
}
use php.Prelude.Int.{ℤ, InInt64}
use php.Bytes.{Bytes}
use php.Bytes.Order.{lt, strip, strip-append, append-strip, strip_between, lt_total}
use php.Keys.DataType
use php.Keys.Zset.{zscore_key}
use php.LevelDb.{LevelDb}
use php.LevelDb.Iterators.{Entry, find, Iterators, IsIterable}
use php.LevelDb.Ordered.{Each, found-Each}
use php.Hash.Fields.{Fields, lookup}
use php.Zset.Model.{Holds, score_entry}
use php.Iterator.{z_seen, typed_all, iterator}
use php.Iterator.Range.{in_range, iterator-Gives}
use php.Iterator.Range.Keep.{keep, keep-IsSorted}
use php.Iterator.Typed.{collect, typed_all-collect}
use php.Scan.Range.{length-take_lt, find-keep}
use php.Scan.ScoreKeys.{
  IsScoreKey, HasScoreKeys, Member, precedes, Ascends, has, shown, read_back, is_some, lt-precedes,
  score_prefix, same_name, AreScores, members, collect-members, read_back-members, members-Ascends,
  has-members,
}

-- What lies after one string with the prefix and not after another has the prefix.
range_prefix :
    (p a b s : Bytes)
    → lt (p ++ a) s ≡ true
    → lt (p ++ b) s ≡ false
    → (t : Bytes) × (strip p s ≡ some t)
range_prefix p a b s h k = elim (Option-cases (strip p s)) [
  | inl x ↦ elim (Bool-cases (lt s (p ++ b))) [
    | inl y ↦ cc (strip_between p a s b h y x)
    | inr y ↦
        let same : p ++ b ≡ s = lt_total (p ++ b) s k y in
        cc (strip-append p b, ap (strip p) same, x)
  ]
  | inr (t, x) ↦ (t, x)
]

module _ (name : Bytes) (short : length name < 256) (a b : Member) where
  -- The range of the keys of scores after a and up to b.
  abbrev pub between : Bytes → Bool
  between = in_range (zscore_key name a.0 a.1) (zscore_key name b.0 b.1)

  abbrev KeyIsScore : Entry → Type 0
  KeyIsScore e = (j : Bytes) → e.0 ≡ DataType.zscore ∷ j → IsScoreKey (DataType.zscore ∷ j)

  bounds :
      (j : Bytes)
      → between j ≡ true
      → (lt (zscore_key name a.0 a.1) j ≡ true) × (lt (zscore_key name b.0 b.1) j ≡ false)
  bounds j h = ground (arith, h)

  between-AreScores : (es : List Entry) → Each KeyIsScore es → AreScores name (keep between es)
  between-AreScores [] h = tt
  between-AreScores (e ∷ es) (f, h) = elim (Bool-cases (between e.0)) [
    | inl y ↦
        let (after, upto) = bounds e.0 y in
        let (t, x) = range_prefix (score_prefix name) _ _ e.0 after upto in
        let at : e.0 ≡ score_prefix name ++ t = append-strip (score_prefix name) e.0 t x in
        let (n, k, z, key, fits, p) = f ((length name % 2 ^ 8) ∷ (name ++ t)) at in
        let same : n ≡ name = same_name name n k t z short fits (sym key) in
        rw y ((k, z, at ∙ key ∙ ap (λ i. zscore_key i k z) same, p), between-AreScores es h)
    | inr y ↦ rw y (between-AreScores es h)
  ]

  between-precedes :
      (k : Bytes) (z : ℤ)
      → InInt64 a.1
      → InInt64 b.1
      → InInt64 z
      → between (zscore_key name k z) ≡ (precedes a (k, z) && not (precedes b (k, z)))
  between-precedes k z p q r =
      rw (lt-precedes name a.0 k a.1 z p r, lt-precedes name b.0 k b.1 z q r) refl

is_some-if : (c : Bool) (o : Option Bytes) → is_some (if c then o else none) ≡ (is_some o && c)
is_some-if c none = ground arith
is_some-if c (some v) = ground arith

module _ (L : LevelDb) (I : Iterators L) (name : Bytes) where
  -- The members after a and up to b, from the keys of their scores.
  abbrev pub ranks : L.Db → Member → Member → List Member
  ranks d a b = map read_back (
      collect z_seen
        (keep (in_range (zscore_key name a.0 a.1) (zscore_key name b.0 b.1)) (I.entries d)))

  module _ (d : L.Db) (short : length name < 256) (keys : HasScoreKeys (L.content d))
      (a b : Member) where
    abbrev es : List Entry
    es = keep (between name short a b) (I.entries d)

    scores : AreScores name es
    scores = between-AreScores name short a b (I.entries d) (
        found-Each (KeyIsScore name short a b) (I.entries d) (I.entries-IsSorted d)
          (λ k v x j at. keys j v (ap (L.content d) (sym at) ∙ sym (I.find-entries d k) ∙ x)))

    ranks-members : ranks d a b ≡ members name es scores
    ranks-members = read_back-members name short es scores

    pub iterator-ranks :
        IsIterable L I d
        → (limit : ℕ)
        → typed_all z_seen L I
            (suc limit)
            (iterator L I d (zscore_key name a.0 a.1) (zscore_key name b.0 b.1) limit)
          ≡ map shown (take limit (ranks d a b))
    iterator-ranks ok limit =
        typed_all-collect z_seen L I (suc limit)
          (iterator L I d (zscore_key name a.0 a.1) (zscore_key name b.0 b.1) limit) (take limit es)
          (iterator-Gives L I d ok (zscore_key name a.0 a.1) (zscore_key name b.0 b.1) limit)
          (length-take_lt limit es)
        ∙ collect-members name short limit es scores
        ∙ ap (λ l. map shown (take limit l)) (sym ranks-members)

    pub ranks-Ascends : Ascends (ranks d a b)
    ranks-Ascends = rw ranks-members (
        members-Ascends name es scores
          (keep-IsSorted (between name short a b) (I.entries d) (I.entries-IsSorted d)))

    pub has-ranks :
        (m : Fields) (k : Bytes) (z : ℤ)
        → Holds (L.content d) name m
        → InInt64 a.1
        → InInt64 b.1
        → InInt64 z
        → has (ranks d a b) k z
          ≡ (is_some (score_entry (lookup m k) z) && (precedes a (k, z) && not (precedes b (k, z))))
    has-ranks m k z holds p q r =
        let key = zscore_key name k z in
        let inside = precedes a (k, z) && not (precedes b (k, z)) in
        let at : find es key ≡ (if inside then score_entry (lookup m k) z else none) =
          find-keep (between name short a b) key (I.entries d)
          ∙ ap (λ c. if c then find (I.entries d) key else none)
              (between-precedes name short a b k z p q r)
          ∙ ap (λ o. if inside then o else none) (I.find-entries d key ∙ holds.scores k z r) in
        ap (λ l. has l k z) ranks-members
        ∙ has-members name es scores k z r
        ∙ ap is_some at
        ∙ is_some-if inside (score_entry (lookup m k) z)
