-- ===== src/Scan/Kept.antt =====
-- hdel and the keys of other fields.
use php.Prelude.{
  ℕ, ◌≡◌, refl, sym, ap, ◌∙◌, Option, none, some, [], ◌∷◌, arith, ◌⊎◌, inl, inr, if◌then◌else◌,
  Bool-cases, Option-cases,
}
use php.Prelude.Int.{pos, negsuc}
use php.Bytes.{Bytes, eqb}
use php.Keys.{encode_hsize_key, encode_hash_key}
use php.Keys.DataType
use php.Keys.Distinct.{eqb_head}
use php.LevelDb.{LevelDb}
use php.LevelDb.Laws.{IsHealthy, reading}
use php.Binlog.{Ssdb, begin, transaction, delete_batch}
use php.Binlog.Command
use php.Binlog.Pending.{
  IsData, pending, pending-begin, pending-delete, pending-add_log, commit_or_fail-content,
}
use php.SizeRecord.Laws.{incr_size-other}
use php.Hash.{hdel, hdel_body, delete_field, incr_hsize}
use php.Hash.Model.{hget_lem, incr_hsize-db}
use php.Hash.Branches.{IsValid, deleting, hdel_body-missing, hdel_body-found}
use php.Scan.Fields.{HasHashKeys, IsHashKey}

hash_any-IsData : (j : Bytes) → IsData (DataType.hash ∷ j)
hash_any-IsData j n = eqb_head _ _ _ _ (omega arith)

module _ (L : LevelDb) (s : Ssdb L) (name k j : Bytes) (t : ℕ) (healthy : IsHealthy L s.db)
    (valid : IsValid name k) where
  abbrev begun : Ssdb L
  begun = record s { logs = begin s.logs }

  abbrev old : Option Bytes
  old = L.content s.db (DataType.hash ∷ j)

  incr_other :
      (u : Ssdb L)
      → pending (incr_hsize L u name (negsuc 0)).logs (DataType.hash ∷ j) old
        ≡ pending u.logs (DataType.hash ∷ j) old
  unfolding incr_hsize
  incr_other u =
      incr_size-other L u (encode_hsize_key name) (negsuc 0) (DataType.hash ∷ j) old
        (eqb_head _ _ _ _ (omega arith))

  deleted :
      pending (delete_field (begin s.logs) name k t) (DataType.hash ∷ j) old
      ≡ (if eqb (encode_hash_key name k) (DataType.hash ∷ j) then none else old)
  unfolding delete_field
  deleted =
      pending-add_log (delete_batch (begin s.logs) (encode_hash_key name k)) t Command.hdel
        (encode_hash_key name k) (DataType.hash ∷ j) old (hash_any-IsData j)
      ∙ pending-delete (begin s.logs) (encode_hash_key name k) (DataType.hash ∷ j) old
      ∙ ap (λ o. if eqb (encode_hash_key name k) (DataType.hash ∷ j) then none else o)
          (pending-begin s.logs (DataType.hash ∷ j) old)

  -- A key of a field is gone or as before.
  pub hdel-kept :
      (L.content (hdel L name k t s).1.db (DataType.hash ∷ j) ≡ none)
      ⊎ (L.content (hdel L name k t s).1.db (DataType.hash ∷ j) ≡ old)
  unfolding hdel transaction
  hdel-kept = elim (Option-cases (L.content s.db (encode_hash_key name k))) [
    | inl e ↦
        let r = hget_lem L begun healthy name k ∙ ap reading e in
        rw (hdel_body-missing L begun name k [] t valid r) (
          inr (
            commit_or_fail-content L (pos 0) begun healthy (DataType.hash ∷ j)
            ∙ pending-begin s.logs (DataType.hash ∷ j) old))
    | inr (v, e) ↦
        let r = hget_lem L begun healthy name k ∙ ap reading e in
        let u = incr_hsize L (deleting L begun name k [] t valid) name (negsuc 0) in
        let same : u.db ≡ s.db =
          incr_hsize-db L (deleting L begun name k [] t valid) name (negsuc 0) in
        let ok : IsHealthy L u.db = rw same healthy in
        let content : L.content (hdel_body L name k t begun).1.db (DataType.hash ∷ j)
            ≡ (if eqb (encode_hash_key name k) (DataType.hash ∷ j) then none else old) =
          ap (λ x. L.content x.1.db (DataType.hash ∷ j))
            (hdel_body-found L begun name k [] t valid v r)
          ∙ commit_or_fail-content L (pos 1) u ok (DataType.hash ∷ j)
          ∙ ap (λ d. pending u.logs (DataType.hash ∷ j) (L.content d (DataType.hash ∷ j))) same
          ∙ incr_other (deleting L begun name k [] t valid)
          ∙ deleted in
        elim (Bool-cases (eqb (encode_hash_key name k) (DataType.hash ∷ j))) [
          | inl y ↦ inl (content ∙ rw y refl)
          | inr y ↦ inr (content ∙ rw y refl)
        ]
  ]

  pub hdel-HasHashKeys_one :
      (v : Bytes)
      → HasHashKeys (L.content s.db)
      → L.content (hdel L name k t s).1.db (DataType.hash ∷ j) ≡ some v
      → IsHashKey (DataType.hash ∷ j)
  hdel-HasHashKeys_one v h e = elim hdel-kept [ inl x ↦ cc (x, e) | inr x ↦ h j v (sym x ∙ e) ]

pub hdel-HasHashKeys :
    (L : LevelDb) (s : Ssdb L) (name k : Bytes) (t : ℕ)
    → IsHealthy L s.db
    → IsValid name k
    → HasHashKeys (L.content s.db)
    → HasHashKeys (L.content (hdel L name k t s).1.db)
hdel-HasHashKeys L s name k t healthy valid h j v e =
    hdel-HasHashKeys_one L s name k j t healthy valid v h e
