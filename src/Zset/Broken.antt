-- ===== src/Zset/Broken.antt =====
-- zset_one in t_zset.cpp takes a failed read of the old score for an empty old score.
use php.Prelude.{
  ℕ, ◌≡◌, ◌≢◌, ◌↔◌, refl, sym, ap, ◌∙◌, Bool-cases, inl, inr, true, false, ◌&&◌, Option, none, some,
  [], List, arith, if◌then◌else◌,
}
use php.Prelude.Int.{ℤ, pos, negsuc, InInt64}
use php.Bytes.{Bytes, eqb}
use php.Strings.Number.{
  decimal_ne_nil, str, strtoll, skip_spaces, str_to_int64, str_to_int64-InInt64,
}
use php.Keys.Zset.{encode_zset_key, zscore_key, encode_zscore_key}
use php.Keys.Distinct.{eqb_refl, eqb_ne}
use php.Keys.Zset.Laws.{eqb_ℤ_iff, eqb_ℤ, eqb-zscore_key, zscore_key-injective}
use php.LevelDb.{LevelDb, Update, failed}
use php.Binlog.{BinlogQueue, Ssdb, begin, commit, commit_or_fail, transaction}
use php.Binlog.Pending.{pending, pending-begin, pending-delete, content-commit}
use php.Hash.Branches.{IsValid}
use php.Zset.{
  zget, zset, zset_body, zset_write, zset_finish, filter_score, delete_score, put_member,
}
use php.Zset.Model.{put_member-score}
use php.Zset.Branches.{zset_one_lem}

-- The empty text is no number's.
str_ne_nil : (z : ℤ) → eqb [] (str z) ≡ false
unfolding str eqb
str_ne_nil (pos n) = eqb_ne [] (str (pos n)) (λ e. decimal_ne_nil n n (sym e))
str_ne_nil (negsuc n) = eqb_ne [] (str (negsuc n)) (λ e. cc)

empty_score : (n k : Bytes) → encode_zscore_key n k [] ≡ zscore_key n k (pos 0)
unfolding encode_zscore_key str_to_int64 strtoll skip_spaces
empty_score n k = refl

-- The keys of two scores of a member are the same where the scores are.
zscore_key-same :
    (n k : Bytes) (y z : ℤ)
    → InInt64 y
    → InInt64 z
    → (zscore_key n k y ≡ zscore_key n k z) ↔ (y ≡ z)
zscore_key-same n k y z p q =
    (λ e. (zscore_key-injective n k k y z p q e).1, λ e. ap (zscore_key n k) e)

module _ (L : LevelDb) (s : Ssdb L) (name k score : Bytes) (t : ℕ) (valid : IsValid name k) where
  -- What is committed: the key of the empty score, which reads as 0, is the one that is deleted.
  abbrev moved : BinlogQueue
  moved = put_member (delete_score s.logs name k []) name k (filter_score score) t

  after_failure :
      L.get s.db (encode_zset_key name k) ≡ failed
      → zset_body L name k score t s ≡ commit_or_fail L (pos 0) (record s { logs = moved })
  unfolding zset_body zset_write zset_finish zget filter_score
  after_failure e =
      rw
        (
          zset_body,
          zset_one_lem L s name k score t valid,
          zget,
          e,
          str_ne_nil (str_to_int64 score).0,
        )
        refl

  commit_zero :
      (q : BinlogQueue) (j : Bytes)
      → ((b : List Update) → (L.write s.db b).0 ≡ true)
      → let c = commit_or_fail L (pos 0) (record s { logs = q }) in
        (c.0 ≡ pos 0) × (L.content c.1.db j ≡ pending q j (L.content s.db j))
  unfolding commit_or_fail commit
  commit_zero q j ok =
      (rw (ok q.batch) refl, content-commit L (record s { logs = q }) (ok q.batch) j)

  moved-score :
      (z : ℤ) (o : Option Bytes)
      → InInt64 z
      → eqb_ℤ (pos 0) z ≡ false
      → pending s.logs (zscore_key name k z) o ≡ some []
      → pending moved (zscore_key name k z) o ≡ some []
  unfolding filter_score delete_score
  moved-score z o p n e =
      let new = (str_to_int64 score).0 in
      let q = delete_score s.logs name k [] in
      let del : pending q (zscore_key name k z) o ≡ some [] =
        pending-delete s.logs (encode_zscore_key name k []) (zscore_key name k z) o
        ∙ ap
            (λ x.
              if eqb x (zscore_key name k z) then none else pending s.logs (zscore_key name k z) o)
            (empty_score name k)
        ∙ rw (eqb-zscore_key name k k (pos 0) z (omega arith) p, n, eqb_refl k) e in
      put_member-score q name k new (str_to_int64-InInt64 score) t k z o p
      ∙ ap (λ x. if eqb k k && eqb_ℤ new z then some [] else x) del
      ∙ ground arith

  moved-new :
      (o : Option Bytes) → pending moved (zscore_key name k (str_to_int64 score).0) o ≡ some []
  unfolding filter_score
  moved-new o =
      let new = (str_to_int64 score).0 in
      put_member-score (delete_score s.logs name k []) name k new (str_to_int64-InInt64 score) t k
        new o (str_to_int64-InInt64 score)
      ∙ rw (eqb_refl k, (eqb_ℤ_iff new new).1 refl) refl

-- For a name and a key that are given and fit: where the read of the member's score fails, and the
-- write succeeds, zset returns 0 and adds the key of the new score, while the key of an old score
-- that is not 0 stays; the two keys are the same only where the scores are, so a member that gets
-- another score has then two.
pub zset_left_score :
    (L : LevelDb) (s : Ssdb L) (name k score : Bytes) (t : ℕ) (z : ℤ)
    → IsValid name k
    → L.get s.db (encode_zset_key name k) ≡ failed
    → ((b : List Update) → (L.write s.db b).0 ≡ true)
    → InInt64 z
    → z ≢ pos 0
    → L.content s.db (zscore_key name k z) ≡ some []
    → let after = zset L name k score t s in
      (after.0 ≡ pos 0)
      × (L.content after.1.db (zscore_key name k z) ≡ some [])
      × (L.content after.1.db (zscore_key name k (str_to_int64 score).0) ≡ some [])
      × ((zscore_key name k z ≡ zscore_key name k (str_to_int64 score).0)
          ↔ (z ≡ (str_to_int64 score).0))
unfolding zset transaction
zset_left_score L s name k score t z valid e ok p ne there =
    let b : Ssdb L = record s { logs = begin s.logs } in
    let q = moved L b name k score t valid in
    let n : eqb_ℤ (pos 0) z ≡ false = elim (Bool-cases (eqb_ℤ (pos 0) z)) [
      | inl f ↦ absurd (ne (sym ((eqb_ℤ_iff (pos 0) z).0 f)))
      | inr f ↦ f
    ] in
    rw (after_failure L b name k score t valid e) (
      (commit_zero L b name k score t valid q [] ok).0,
      (commit_zero L b name k score t valid q (zscore_key name k z) ok).1
          ∙ moved-score L b name k score t valid z _ p n
              (pending-begin s.logs (zscore_key name k z) _ ∙ there),
      (commit_zero L b name k score t valid q (zscore_key name k (str_to_int64 score).0) ok).1
          ∙ moved-new L b name k score t valid _,
      zscore_key-same name k z (str_to_int64 score).0 p (str_to_int64-InInt64 score),
    )
