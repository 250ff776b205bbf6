-- ===== src/Scan/FromScore.antt =====
-- SSDBImpl::zscan: the members of a sorted set from a score on.
use php.Prelude.{
  ℕ, suc, ◌-◌, ◌^◌, ◌<◌, ◌≡◌, ◌≢◌, refl, sym, ap, ◌∙◌, false, ◌&&◌, not, none, some, [], ◌∷◌, take,
  length, map, if◌then◌else◌, Option-cases, inl, inr,
}
use php.Prelude.Int.{ℤ, pos, negsuc, InInt64}
use php.Bytes.{Bytes, is_empty}
use php.Strings.Number.{str_to_int64, str_to_int64-InInt64, strtoll, str, decimal_ne_nil}
use php.Keys.Zset.{encode_zset_key, encode_zscore_key}
use php.LevelDb.{LevelDb}
use php.LevelDb.Laws.{IsHealthy, get-content, reading}
use php.LevelDb.Iterators.{Iterators, IsIterable}
use php.Binlog.{Ssdb}
use php.Hash.Fields.{Fields, lookup}
use php.Zset.{zget}
use php.Zset.Model.{Holds, score_entry}
use php.Iterator.{z_seen, typed_all}
use php.Scan.Members.{zscan, ziterator, start_score, or_default, score_min, score_max}
use php.Scan.ScoreKeys.{HasScoreKeys, Member, precedes, Ascends, has, shown, is_some}
use php.Scan.ByScore.{ranks, iterator-ranks, ranks-Ascends, has-ranks}

-- The number that a text begins with.
abbrev pub number : Bytes → ℤ
number s = (str_to_int64 s).0

-- The score from which the members are listed: the one that is given, or that of the member that is
-- given, and otherwise the least one.
abbrev pub first_score : Fields → Bytes → Bytes → ℤ
first_score m key score_start =
    if not (is_empty score_start)
    then number score_start
    else if is_empty key
    then negsuc (2 ^ 63 - 1)
    else (elim (lookup m key) [ none ↦ negsuc (2 ^ 63 - 1) | some score ↦ number score ])

-- The score up to which they are listed.
abbrev pub last_score : Bytes → ℤ
last_score score_end = if is_empty score_end then pos (2 ^ 63 - 1) else number score_end

number-min : number score_min ≡ negsuc (2 ^ 63 - 1)
unfolding str_to_int64 strtoll
number-min = refl

number-max : number score_max ≡ pos (2 ^ 63 - 1)
unfolding str_to_int64 strtoll
number-max = refl

last_score_lem :
    (score_end : Bytes) → number (or_default score_max score_end) ≡ last_score score_end
last_score_lem [] = number-max
last_score_lem (c ∷ s) = refl

default-number : (w : Bytes) → is_empty w ≡ false → number (or_default score_min w) ≡ number w
default-number w h = rw h refl

not_empty : (s : Bytes) → s ≢ [] → is_empty s ≡ false
not_empty [] h = absurd (h refl)
not_empty (c ∷ s) h = refl

-- The text of a number is not empty.
str-given : (z : ℤ) → is_empty (str z) ≡ false
unfolding str
str-given (negsuc n) = refl
str-given (pos n) = not_empty (str (pos n)) (decimal_ne_nil n n)

module _ (L : LevelDb) (I : Iterators L) (s : Ssdb L) (name : Bytes) (m : Fields)
    (healthy : IsHealthy L s.db) (holds : Holds (L.content s.db) name m) where
  zget_lem : (key : Bytes) → length key < 256 → zget L s name key ≡ reading (lookup m key)
  unfolding zget
  zget_lem key fits =
      get-content L healthy (encode_zset_key name key) ∙ ap reading (holds.members key fits)

  first_score_lem :
      (key score_start : Bytes)
      → length key < 256
      → number (or_default score_min (start_score L I s name key score_start))
        ≡ first_score m key score_start
  unfolding start_score
  first_score_lem [] [] fits = number-min
  first_score_lem [] (c ∷ score) fits = refl
  first_score_lem (k ∷ key) (c ∷ score) fits = refl
  first_score_lem (k ∷ key) [] fits = elim (Option-cases (lookup m (k ∷ key))) [
    | inl e ↦ rw (zget_lem (k ∷ key) fits ∙ ap reading e, start_score, e) number-min
    | inr (w, e) ↦
        let (z, _, at) = holds.numbers (k ∷ key) w e in
        let given : is_empty w ≡ false = ap is_empty at ∙ str-given z in
        rw (zget_lem (k ∷ key) fits ∙ ap reading e, start_score, e) (default-number w given)
  ]

-- On a database whose reads and iterators meet no error, whose keys of scores are well formed and which holds
-- the sorted set m under a name of at most 255 bytes, a loop over
-- zscan(name, key, score_start, score_end, limit) reads the first `limit` members of a list: it
-- ascends by score, and by name where scores are equal, and has a member k with the score z just
-- where m has it and the pair lies after the given key at the first score, and not after the member
-- of one byte 255 at the last score. The first score is the given one, or else that of the key in m,
-- or else the least of int64_t; the last one is the given one or else the greatest.
pub zscan-members :
    (L : LevelDb) (I : Iterators L) (s : Ssdb L) (name : Bytes) (m : Fields)
    (key score_start score_end : Bytes) (limit : ℕ) (k : Bytes) (z : ℤ)
    → IsIterable L I s.db
    → IsHealthy L s.db
    → length name < 256
    → length key < 256
    → HasScoreKeys (L.content s.db)
    → Holds (L.content s.db) name m
    → InInt64 z
    → let first = first_score m key score_start in
      let last = last_score score_end in
      let l = ranks L I name s.db (key, first) (255 ∷ [], last) in
      (typed_all z_seen L I (suc limit) (zscan L I s name key score_start score_end limit)
        ≡ map shown (take limit l))
      × Ascends l
      × (has l k z ≡ (
          is_some (score_entry (lookup m k) z)
          && (precedes (key, first) (k, z) && not (precedes (255 ∷ [], last) (k, z)))))
unfolding zscan ziterator encode_zscore_key
zscan-members L I s name m key score_start score_end limit k z ok healthy short fits keys holds r =
    let low = or_default score_min (start_score L I s name key score_start) in
    let high = or_default score_max score_end in
    let a : Member = (key, (str_to_int64 low).0) in
    let b : Member = (255 ∷ [], (str_to_int64 high).0) in
    rw
      (
        sym (first_score_lem L I s name m healthy holds key score_start fits),
        sym (last_score_lem score_end),
      )
      (
        iterator-ranks L I name s.db short keys a b ok limit,
        ranks-Ascends L I name s.db short keys a b,
        has-ranks L I name s.db short keys a b m k z holds (str_to_int64-InInt64 low)
            (str_to_int64-InInt64 high) r,
      )
