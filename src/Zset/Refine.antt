-- ===== src/Zset/Refine.antt =====
-- The operations of t_zset.cpp keep the two indexes and the number of members in step.
use php.Prelude.{
  ℕ, ◌+◌, ◌-◌, ◌^◌, ◌<◌, ◌≡◌, ap, ◌∙◌, some, [], length, Bool-cases, Option-cases, inl, inr,
}
use php.Prelude.Int.{pos}
use php.Bytes.{Bytes, eqb}
use php.Bytes.Compare.{eqb_iff}
use php.Strings.Number.{str}
use php.LevelDb.{LevelDb}
use php.LevelDb.Laws.{IsHealthy, reading}
use php.Binlog.{Ssdb, transaction}
use php.Hash.Branches.{IsValid}
use php.Hash.Fields.{Fields, lookup, put, erase, count_of, erase_absent, put_same}
use php.Zset.{zget, zsize, incr_zsize, filter_score, zset, zdel}
use php.Zset.Model.{Holds}
use php.Zset.Branches.{
  zset_body-missing, zset_body-same, zset_body-moved, zdel_body-missing, zdel_body-found,
}
use php.Zset.Batch.{
  begun, begun-Makes, commit-Holds, score_read, size_read, short, zset_new, zset_moved, zdel_gone,
}

-- Without I/O errors, on a database that holds under the name a sorted set of the members m: zget
-- answers the score of a member of at most 255 bytes, and zsize the number of members.
pub zget-Holds :
    (L : LevelDb) (s : Ssdb L) (name : Bytes) (m : Fields) (k : Bytes)
    → IsHealthy L s.db
    → Holds (L.content s.db) name m
    → length k < 256
    → (zget L s name k ≡ reading (lookup m k)) × (zsize L s name ≡ pos (length m))
unfolding zget zsize
zget-Holds L s name m k healthy h p =
    (score_read L s healthy name m h k p, size_read L s healthy name m h s.logs)

-- Without I/O errors, zset of a key and name that are given and fit returns 1 for a new member and
-- 0 for an old one. Afterwards the set is the old one with the member at the score that the text
-- begins with: the key of the old score is gone, that of the new one is there, no other member
-- changes, and the size record is the number of members.
pub zset-Holds :
    (L : LevelDb) (s : Ssdb L) (name : Bytes) (m : Fields) (k score : Bytes) (t : ℕ)
    → IsHealthy L s.db
    → Holds (L.content s.db) name m
    → IsValid name k
    → length m + 1 < 2 ^ 63
    → ((zset L name k score t s).0 ≡ pos (1 - count_of (lookup m k)))
      × Holds (L.content (zset L name k score t s).1.db) name (put m k (filter_score score))
unfolding zset transaction filter_score incr_zsize
zset-Holds L s name m k score t healthy h valid room = elim (Option-cases (lookup m k)) [
  | inl e ↦
      rw (zset_body-missing L b name k score t valid (at ∙ ap reading e), e)
        (commit-Holds L s healthy name m h (pos 1) _ _
          (zset_new L s healthy name m h k score t valid e room))
  | inr (old, e) ↦
      let (z, p, w) = h.numbers k old e in
      let e' : lookup m k ≡ some (str z) = e ∙ ap some w in
      elim (Bool-cases (eqb old (filter_score score))) [
        | inl same ↦
            let q : old ≡ filter_score score = (eqb_iff old (filter_score score)).0 same in
            rw
              (
                zset_body-same L b name k score t valid old (at ∙ ap reading e) same,
                e,
                put_same m k (filter_score score) (e ∙ ap some q),
              )
              (commit-Holds L s healthy name m h (pos 0) _ _ (begun-Makes L s healthy name m h))
        | inr moved ↦
            rw
              (
                zset_body-moved L b name k score t valid (str z) (at ∙ ap reading e')
                    (rw w at moved),
                e',
              )
              (commit-Holds L s healthy name m h (pos 0) _ _
                (zset_moved L s healthy name m h k score t valid z p e'))
      ]
]
  where
    b : Ssdb L
    b = begun L s healthy name m h

    at : zget L b name k ≡ reading (lookup m k)
    at = score_read L s healthy name m h k (short L s healthy name m h k score t valid)

-- Without I/O errors, zdel of a key and name that are given and fit returns 1 for a member and 0
-- otherwise. Afterwards the set is the old one without the member: its two keys are gone, no other
-- member changes, and the size record is the number of members, and gone with the last one.
pub zdel-Holds :
    (L : LevelDb) (s : Ssdb L) (name : Bytes) (m : Fields) (k : Bytes) (t : ℕ)
    → IsHealthy L s.db
    → Holds (L.content s.db) name m
    → IsValid name k
    → ((zdel L name k t s).0 ≡ pos (count_of (lookup m k)))
      × Holds (L.content (zdel L name k t s).1.db) name (erase m k)
unfolding zdel transaction incr_zsize
zdel-Holds L s name m k t healthy h valid = elim (Option-cases (lookup m k)) [
  | inl e ↦
      rw (zdel_body-missing L b name k [] t valid (at ∙ ap reading e), e, erase_absent m k e)
        (commit-Holds L s healthy name m h (pos 0) _ _ (begun-Makes L s healthy name m h))
  | inr (old, e) ↦
      let (z, p, w) = h.numbers k old e in
      let e' : lookup m k ≡ some (str z) = e ∙ ap some w in
      rw (zdel_body-found L b name k [] t valid (str z) (at ∙ ap reading e'), e')
        (commit-Holds L s healthy name m h (pos 1) _ _
          (zdel_gone L s healthy name m h k [] t valid z p e'))
]
  where
    b : Ssdb L
    b = begun L s healthy name m h

    at : zget L b name k ≡ reading (lookup m k)
    at = score_read L s healthy name m h k (short L s healthy name m h k [] t valid)
