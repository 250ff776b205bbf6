-- ===== src/Scan/ScoreKeys.antt =====
-- The entries of score keys, and the members and scores that ZIterator reads of them.
use php.Prelude.{
  ℕ, zero, suc, ◌%◌, ◌^◌, ◌<◌, ◌≡◌, refl, sym, ap, ◌∙◌, Bool, true, false, ◌&&◌, Option, none, some,
  List, [], ◌∷◌, ◌++◌, take, length, map, drop, if◌then◌else◌, Bool-cases, inl, inr,
}
use php.Prelude.Int.{ℤ, InInt64, word64}
use php.Bytes
use php.Bytes.{Bytes, eqb, or_else}
use php.Bytes.Words.{big_endian, u64_bytes}
use php.Bytes.Decoder.{read_8_data}
use php.Bytes.Compare.{compare-eq-lex}
use php.Bytes.Order.{lt, is_lt}
use php.Strings.Number.{str, str_to_int64, str_to_int64-str}
use php.Keys.DataType
use php.Keys.RoundTrip.{read_8_data-append}
use php.Keys.Zset.{zscore_key, encode_zscore_key, decode_zscore_key, sign}
use php.Keys.Zset.Laws.{
  decode_zscore_key-encode, compare_ℤ, compare-zscore_key, eqb_ℤ, eqb-zscore_key,
}
use php.LevelDb.Iterators.{Entry, AllAfter, IsSorted, find}
use php.Iterator.{z_seen, taken}
use php.Iterator.Typed.{collect}

-- Every key of a score in the database is one that encode_zscore_key makes, of a name of at most
-- 255 bytes.
abbrev pub IsScoreKey : Bytes → Type 0
IsScoreKey j =
    (n : Bytes) × (k : Bytes) × (z : ℤ) × (j ≡ zscore_key n k z) × (length n < 256) × InInt64 z

abbrev pub HasScoreKeys : (Bytes → Option Bytes) → Type 0
HasScoreKeys c = (j v : Bytes) → c (DataType.zscore ∷ j) ≡ some v → IsScoreKey (DataType.zscore ∷ j)

-- A member with its score.
abbrev pub Member : Type 0
Member = Bytes × ℤ

-- The order of the members: by score, and by name where the scores are equal.
abbrev pub precedes : Member → Member → Bool
precedes a b = is_lt (or_else (compare_ℤ a.1 b.1) (Bytes.compare a.0 b.0))

abbrev pub AllPreceded : Member → List Member → Type 0
AllPreceded a [] = Unit
AllPreceded a (b ∷ l) = (precedes a b ≡ true) × AllPreceded a l

abbrev pub Ascends : List Member → Type 0
Ascends [] = Unit
Ascends (a ∷ l) = AllPreceded a l × Ascends l

abbrev pub has : List Member → Bytes → ℤ → Bool
has [] k z = false
has (a ∷ l) k z = let rest = has l k z in if eqb a.0 k && eqb_ℤ a.1 z then true else rest

-- A member as it is read, with the text of its score.
abbrev pub shown : Member → Bytes × Bytes
shown a = (a.0, str a.1)

-- The member of what is read.
abbrev pub read_back : Bytes × Bytes → Member
read_back a = (a.0, (str_to_int64 a.1).0)

abbrev pub is_some : Option Bytes → Bool
is_some none = false
is_some (some v) = true

pub lt-precedes :
    (n j k : Bytes) (z w : ℤ)
    → InInt64 z
    → InInt64 w
    → lt (zscore_key n j z) (zscore_key n k w) ≡ precedes (j, z) (k, w)
lt-precedes n j k z w p q =
    ap is_lt (
      sym (compare-eq-lex (zscore_key n j z) (zscore_key n k w)) ∙ compare-zscore_key n j k z w p q)

z_seen-key :
    (n k v : Bytes) (z : ℤ)
    → length n < 256
    → InInt64 z
    → z_seen (zscore_key n k z, v) ≡ taken (k, str z)
unfolding z_seen encode_zscore_key
z_seen-key n k v z h p =
    let at : zscore_key n k z ≡ encode_zscore_key n k (str z) =
      ap (λ r. zscore_key n k r.0) (sym (str_to_int64-str z p)) in
    rw (ap decode_zscore_key at ∙ decode_zscore_key-encode n k z h p) refl

-- The bytes before the score in the keys of a set.
abbrev pub score_prefix : Bytes → Bytes
score_prefix name = DataType.zscore ∷ (length name % 2 ^ 8) ∷ name

pub same_name :
    (name n k t : Bytes) (z : ℤ)
    → length name < 256
    → length n < 256
    → zscore_key n k z ≡ score_prefix name ++ t
    → n ≡ name
same_name name n k t z short h e =
    let rest = sign z ∷ (u64_bytes (big_endian (word64 z)) ++ b'=' ∷ k) in
    let read : some (n, rest) ≡ some (name, t) =
      sym (read_8_data-append n rest h)
      ∙ ap read_8_data (ap (drop 1) e)
      ∙ read_8_data-append name t short in
    cc read

module _ (name : Bytes) where
  -- The entries are score keys of the set.
  abbrev pub AreScores : List Entry → Type 0
  AreScores [] = Unit
  AreScores (e ∷ es) =
      ((k : Bytes) × (z : ℤ) × (e.0 ≡ zscore_key name k z) × InInt64 z) × AreScores es

  abbrev pub members : (es : List Entry) → AreScores es → List Member
  members [] h = []
  members (e ∷ es) ((k, z, at, p), h) = (k, z) ∷ members es h

  module _ (short : length name < 256) where
    seen_lem :
        (e : Entry) (k : Bytes) (z : ℤ)
        → e.0 ≡ zscore_key name k z
        → InInt64 z
        → z_seen e ≡ taken (k, str z)
    seen_lem e k z at p = ap (λ j. z_seen (j, e.1)) at ∙ z_seen-key name k e.1 z short p

    pub collect-members :
        (n : ℕ) (es : List Entry) (h : AreScores es)
        → collect z_seen (take n es) ≡ map shown (take n (members es h))
    collect-members zero es h = refl
    collect-members (suc n) [] h = refl
    collect-members (suc n) (e ∷ es) ((k, z, at, p), h) =
        rw (seen_lem e k z at p, collect) (ap (λ l. (k, str z) ∷ l) (collect-members n es h))

    pub read_back-members :
        (es : List Entry) (h : AreScores es) → map read_back (collect z_seen es) ≡ members es h
    read_back-members [] h = refl
    read_back-members (e ∷ es) ((k, z, at, p), h) =
        rw (seen_lem e k z at p, collect, str_to_int64-str z p)
          (ap (λ l. (k, z) ∷ l) (read_back-members es h))

  members-AllPreceded :
      (k : Bytes) (z : ℤ) (es : List Entry) (h : AreScores es)
      → InInt64 z
      → AllAfter (zscore_key name k z) es
      → AllPreceded (k, z) (members es h)
  members-AllPreceded k z [] h p a = tt
  members-AllPreceded k z (e ∷ es) ((j, w, at, q), h) p (b, a) = (
    sym (lt-precedes name k j z w p q) ∙ ap (lt (zscore_key name k z)) (sym at) ∙ b,
    members-AllPreceded k z es h p a,
  )

  pub members-Ascends : (es : List Entry) (h : AreScores es) → IsSorted es → Ascends (members es h)
  members-Ascends [] h s = tt
  members-Ascends (e ∷ es) ((k, z, at, p), h) (a, s) =
      (members-AllPreceded k z es h p (rw at at a), members-Ascends es h s)

  pub has-members :
      (es : List Entry) (h : AreScores es) (k : Bytes) (z : ℤ)
      → InInt64 z
      → has (members es h) k z ≡ is_some (find es (zscore_key name k z))
  has-members [] h k z p = refl
  has-members (e ∷ es) ((j, w, at, q), h) k z p =
      let same : eqb e.0 (zscore_key name k z) ≡ (eqb j k && eqb_ℤ w z) =
        ap (λ i. eqb i (zscore_key name k z)) at ∙ eqb-zscore_key name j k w z q p in
      rw same (elim (Bool-cases (eqb j k && eqb_ℤ w z)) [
        | inl y ↦ rw y refl
        | inr y ↦ rw y (has-members es h k z p)
      ])
