-- ===== src/Zset/Model.antt =====
-- When a database holds a sorted set, and what the batches of t_zset.cpp make of it.
use php.Prelude.{
  ℕ, ◌^◌, ◌<◌, ◌≡◌, refl, ap, sym, ◌∙◌, false, ◌&&◌, Option, none, some, [], arith, length,
  if◌then◌else◌, Bool-cases, inl, inr,
}
use php.Prelude.Int.{ℤ, InInt64}
use php.Bytes.{Bytes, eqb}
use php.Strings.Number.{str, str_to_int64, str_to_int64-str}
use php.Keys.Distinct.{eqb_head, eqb_refl, eqb_ne}
use php.Keys.Zset.{encode_zsize_key, encode_zset_key, encode_zscore_key, zscore_key}
use php.Keys.Zset.Laws.{eqb-zset_key, eqb-zscore_key, eqb_ℤ, eqb_ℤ_iff}
use php.Binlog.{BinlogQueue, put_batch, delete_batch}
use php.Binlog.Command
use php.Binlog.Pending.{pending, pending-put, pending-delete, pending-add_log, IsData}
use php.SizeRecord.Laws.{size_record}
use php.Hash.Fields.{Fields, lookup, AreDistinct}
use php.Zset.{put_member, delete_score, delete_member}

-- What the key of a score holds, from the member's score.
abbrev pub score_entry : Option Bytes → ℤ → Option Bytes
score_entry none z = none
score_entry (some w) z = if eqb w (str z) then some [] else none

-- A database with content `c` holds under the name the sorted set m of members with their scores'
-- texts: the two indexes agree, since a key of a score is there exactly for a member that has it.
pub record Holds (c : Bytes → Option Bytes) (name : Bytes) (m : Fields) : Type 0 where
  pub distinct : AreDistinct m
  pub bounded : length m < 2 ^ 63
  pub members : (k : Bytes) → length k < 256 → c (encode_zset_key name k) ≡ lookup m k
  pub scores :
      (k : Bytes) (z : ℤ) → InInt64 z → c (zscore_key name k z) ≡ score_entry (lookup m k) z
  pub numbers : (k w : Bytes) → lookup m k ≡ some w → (z : ℤ) × InInt64 z × (w ≡ str z)
  pub size : c (encode_zsize_key name) ≡ size_record (length m)

pub eqb-str : (z w : ℤ) → InInt64 z → InInt64 w → eqb (str z) (str w) ≡ eqb_ℤ z w
eqb-str z w p q = elim (Bool-cases (eqb_ℤ z w)) [
  | inl e ↦ rw (e, (eqb_ℤ_iff z w).0 e) (eqb_refl (str w))
  | inr e ↦ rw e (
      eqb_ne (str z) (str w) (λ h.
        let same : z ≡ w =
          ap (λ r. r.0) (sym (str_to_int64-str z p) ∙ ap str_to_int64 h ∙ str_to_int64-str w q) in
        cc (e, (eqb_ℤ_iff z w).1 same)))
]

-- A key of a kind that is not one of the log's.
zset-IsData : (n k : Bytes) → IsData (encode_zset_key n k)
zset-IsData n k i = eqb_head _ _ _ _ (omega arith)

zscore-IsData : (n k : Bytes) (z : ℤ) → IsData (zscore_key n k z)
zscore-IsData n k z i = eqb_head _ _ _ _ (omega arith)

zsize-IsData : (n : Bytes) → IsData (encode_zsize_key n)
zsize-IsData n i = eqb_head _ _ _ _ (omega arith)

pub encode_zscore_key-str :
    (n k : Bytes) (z : ℤ) → InInt64 z → encode_zscore_key n k (str z) ≡ zscore_key n k z
unfolding encode_zscore_key
encode_zscore_key-str n k z p = ap (λ r. zscore_key n k r.0) (str_to_int64-str z p)

module _ (q : BinlogQueue) (n k : Bytes) (z : ℤ) (p : InInt64 z) (t : ℕ) where
  put_member_lem :
      (j : Bytes) (o : Option Bytes)
      → IsData j
      → pending (put_member q n k (str z) t) j o ≡ (
          if eqb (encode_zset_key n k) j
          then some (str z)
          else if eqb (zscore_key n k z) j
          then some []
          else pending q j o)
  unfolding put_member
  put_member_lem j o d =
      let k0 = encode_zset_key n k in
      let q1 = put_batch q (encode_zscore_key n k (str z)) [] in
      pending-add_log (put_batch q1 k0 (str z)) t Command.zset k0 j o d
      ∙ pending-put q1 k0 (str z) j o
      ∙ ap (λ x. if eqb k0 j then some (str z) else x)
          (pending-put q (encode_zscore_key n k (str z)) [] j o
            ∙ ap (λ x. if eqb x j then some [] else pending q j o) (encode_zscore_key-str n k z p))

  pub put_member-member :
      (j : Bytes) (o : Option Bytes)
      → length k < 256
      → length j < 256
      → pending (put_member q n k (str z) t) (encode_zset_key n j) o
        ≡ (if eqb k j then some (str z) else pending q (encode_zset_key n j) o)
  put_member-member j o a b =
      let e : eqb (zscore_key n k z) (encode_zset_key n j) ≡ false =
        eqb_head _ _ _ _ (omega arith) in
      put_member_lem (encode_zset_key n j) o (zset-IsData n j) ∙ rw (eqb-zset_key n k j a b, e) refl

  pub put_member-score :
      (j : Bytes) (w : ℤ) (o : Option Bytes)
      → InInt64 w
      → pending (put_member q n k (str z) t) (zscore_key n j w) o
        ≡ (if eqb k j && eqb_ℤ z w then some [] else pending q (zscore_key n j w) o)
  put_member-score j w o r =
      let e : eqb (encode_zset_key n k) (zscore_key n j w) ≡ false =
        eqb_head _ _ _ _ (omega arith) in
      put_member_lem (zscore_key n j w) o (zscore-IsData n j w)
      ∙ rw (eqb-zscore_key n k j z w p r, e) refl

  pub put_member-size :
      (o : Option Bytes)
      → pending (put_member q n k (str z) t) (encode_zsize_key n) o
        ≡ pending q (encode_zsize_key n) o
  put_member-size o =
      let e : eqb (encode_zset_key n k) (encode_zsize_key n) ≡ false =
        eqb_head _ _ _ _ (omega arith) in
      let e' : eqb (zscore_key n k z) (encode_zsize_key n) ≡ false =
        eqb_head _ _ _ _ (omega arith) in
      put_member_lem (encode_zsize_key n) o (zsize-IsData n) ∙ rw (e, e') refl

  delete_score_lem :
      (j : Bytes) (o : Option Bytes)
      → pending (delete_score q n k (str z)) j o
        ≡ (if eqb (zscore_key n k z) j then none else pending q j o)
  unfolding delete_score
  delete_score_lem j o =
      pending-delete q (encode_zscore_key n k (str z)) j o
      ∙ ap (λ x. if eqb x j then none else pending q j o) (encode_zscore_key-str n k z p)

  pub delete_score-member :
      (j : Bytes) (o : Option Bytes)
      → pending (delete_score q n k (str z)) (encode_zset_key n j) o
        ≡ pending q (encode_zset_key n j) o
  delete_score-member j o =
      let e : eqb (zscore_key n k z) (encode_zset_key n j) ≡ false =
        eqb_head _ _ _ _ (omega arith) in
      delete_score_lem (encode_zset_key n j) o ∙ rw e refl

  pub delete_score-score :
      (j : Bytes) (w : ℤ) (o : Option Bytes)
      → InInt64 w
      → pending (delete_score q n k (str z)) (zscore_key n j w) o
        ≡ (if eqb k j && eqb_ℤ z w then none else pending q (zscore_key n j w) o)
  delete_score-score j w o r =
      delete_score_lem (zscore_key n j w) o ∙ rw (eqb-zscore_key n k j z w p r) refl

  pub delete_score-size :
      (o : Option Bytes)
      → pending (delete_score q n k (str z)) (encode_zsize_key n) o
        ≡ pending q (encode_zsize_key n) o
  delete_score-size o =
      let e : eqb (zscore_key n k z) (encode_zsize_key n) ≡ false =
        eqb_head _ _ _ _ (omega arith) in
      delete_score_lem (encode_zsize_key n) o ∙ rw e refl

-- What deleting a member makes of the keys.
module _ (q : BinlogQueue) (n k : Bytes) (z : ℤ) (p : InInt64 z) (t : ℕ) where
  delete_member_lem :
      (j : Bytes) (o : Option Bytes)
      → IsData j
      → pending (delete_member q n k (str z) t) j o ≡ (
          if eqb (encode_zset_key n k) j
          then none
          else if eqb (zscore_key n k z) j
          then none
          else pending q j o)
  unfolding delete_member
  delete_member_lem j o d =
      let k0 = encode_zset_key n k in
      let q1 = delete_score q n k (str z) in
      pending-add_log (delete_batch q1 k0) t Command.zdel k0 j o d
      ∙ pending-delete q1 k0 j o
      ∙ ap (λ x. if eqb k0 j then none else x) (delete_score_lem q n k z p t j o)

  pub delete_member-member :
      (j : Bytes) (o : Option Bytes)
      → length k < 256
      → length j < 256
      → pending (delete_member q n k (str z) t) (encode_zset_key n j) o
        ≡ (if eqb k j then none else pending q (encode_zset_key n j) o)
  delete_member-member j o a b =
      let e : eqb (zscore_key n k z) (encode_zset_key n j) ≡ false =
        eqb_head _ _ _ _ (omega arith) in
      delete_member_lem (encode_zset_key n j) o (zset-IsData n j)
      ∙ rw (eqb-zset_key n k j a b, e) refl

  pub delete_member-score :
      (j : Bytes) (w : ℤ) (o : Option Bytes)
      → InInt64 w
      → pending (delete_member q n k (str z) t) (zscore_key n j w) o
        ≡ (if eqb k j && eqb_ℤ z w then none else pending q (zscore_key n j w) o)
  delete_member-score j w o r =
      let e : eqb (encode_zset_key n k) (zscore_key n j w) ≡ false =
        eqb_head _ _ _ _ (omega arith) in
      delete_member_lem (zscore_key n j w) o (zscore-IsData n j w)
      ∙ rw (eqb-zscore_key n k j z w p r, e) refl
