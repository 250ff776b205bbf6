-- ===== src/Zset/Entries.antt =====
-- What happens to the key of a score when members change, as equations of finite maps.
use php.Prelude.{
  ◌≡◌, refl, ap, sym, true, ◌&&◌, none, some, [], arith, if◌then◌else◌, Bool-cases, inl, inr,
}
use php.Prelude.Int.{ℤ, InInt64}
use php.Bytes.{Bytes, eqb}
use php.Bytes.Compare.{eqb_iff}
use php.Strings.Number.{str}
use php.Keys.Zset.Laws.{eqb_ℤ}
use php.Hash.Fields.{Fields, lookup, put, erase, AreDistinct, lookup-put, lookup-erase}
use php.Zset.Model.{score_entry, eqb-str}

module _ (m : Fields) (k j : Bytes) (z : ℤ) (r : InInt64 z) where
  at_same : eqb k j ≡ true → lookup m j ≡ lookup m k
  at_same e = ap (lookup m) (sym ((eqb_iff k j).0 e))

  module _ (new : ℤ) (p : InInt64 new) where
    pub entry-added :
        lookup m k ≡ none
        → (if eqb k j && eqb_ℤ new z then some [] else score_entry (lookup m j) z)
          ≡ score_entry (lookup (put m k (str new)) j) z
    entry-added absent = rw (lookup-put m k (str new) j) (elim (Bool-cases (eqb k j)) [
      | inl e ↦ rw (e, at_same e, absent, eqb-str new z p r) refl
      | inr e ↦ rw e refl
    ])

    pub entry-moved :
        (old : ℤ)
        → InInt64 old
        → lookup m k ≡ some (str old)
        → (if eqb k j && eqb_ℤ new z
            then some []
            else if eqb k j && eqb_ℤ old z
            then none
            else score_entry (lookup m j) z)
          ≡ score_entry (lookup (put m k (str new)) j) z
    entry-moved old q there = rw (lookup-put m k (str new) j) (elim (Bool-cases (eqb k j)) [
      | inl e ↦ rw (e, at_same e, there, eqb-str new z p r, eqb-str old z q r) (ground arith)
      | inr e ↦ rw e refl
    ])

  pub entry-erased :
      (old : ℤ)
      → InInt64 old
      → AreDistinct m
      → lookup m k ≡ some (str old)
      → (if eqb k j && eqb_ℤ old z then none else score_entry (lookup m j) z)
        ≡ score_entry (lookup (erase m k) j) z
  entry-erased old q d there = rw (lookup-erase m k j d) (elim (Bool-cases (eqb k j)) [
    | inl e ↦ rw (e, at_same e, there, eqb-str old z q r) (ground arith)
    | inr e ↦ rw e refl
  ])
