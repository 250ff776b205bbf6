-- ===== src/Hash/Refine.antt =====
-- The operations of t_hash.cpp keep the fields and their number.
use php.Prelude.{
  ℕ, suc, ◌+◌, ◌-◌, ◌^◌, ◌<◌, ◌≡◌, refl, ap, sym, ◌∙◌, Option, none, some, [], arith, length,
  if◌then◌else◌, Bool-cases, Option-cases, inl, inr,
}
use php.Prelude.Int.{ℤ, pos, negsuc}
use php.Bytes.{Bytes, eqb}
use php.Bytes.Compare.{eqb_iff}
use php.Keys.{encode_hsize_key, encode_hash_key}
use php.LevelDb.{LevelDb}
use php.LevelDb.Laws.{IsHealthy, reading}
use php.Binlog.{BinlogQueue, Ssdb, begin, commit_or_fail, transaction}
use php.Binlog.Pending.{pending, pending-begin, commit_or_fail-result, commit_or_fail-content}
use php.Hash.{put_field, delete_field, hsize, hget, incr_hsize, hset, hset_body, hdel, hdel_body}
use php.Hash.Fields.{
  Fields, lookup, put, erase, AreDistinct, count_of, lookup-put, length-put, length-erase,
  lookup-erase, AreDistinct-put, AreDistinct-erase,
}
use php.Hash.Model.{
  Holds, size_record, put_field-field, put_field-size, delete_field-field, hsize_lem, hget_lem,
  incr_hsize-up, incr_hsize-down, incr_hsize-field, incr_hsize-db,
}
use php.Hash.Branches.{
  IsValid, putting, deleting, hset_body-missing, hset_body-found, hdel_body-missing,
  hdel_body-found,
}

module _ (L : LevelDb) (s : Ssdb L) (healthy : IsHealthy L s.db) (name : Bytes) (m : Fields)
    (h : Holds (L.content s.db) name m) where
  abbrev begun : Ssdb L
  begun = record s { logs = begin s.logs }

  field_read : (k : Bytes) → hget L begun name k ≡ reading (lookup m k)
  field_read k = hget_lem L begun healthy name k ∙ ap reading (h.fields k)

  size_read : (q : BinlogQueue) → hsize L (record s { logs = q }) name ≡ pos (length m)
  size_read q = hsize_lem L (record s { logs = q }) healthy name (length m) h.bounded h.size

  -- A commit of a batch that makes of the keys what m' says.
  commit-Holds :
      (r : ℤ) (u : Ssdb L) (m' : Fields)
      → u.db ≡ s.db
      → AreDistinct m'
      → length m' < 2 ^ 63
      → ((j : Bytes)
          → pending u.logs (encode_hash_key name j) (L.content s.db (encode_hash_key name j))
            ≡ lookup m' j)
      → pending u.logs (encode_hsize_key name) (L.content s.db (encode_hsize_key name))
        ≡ size_record (length m')
      → ((commit_or_fail L r u).0 ≡ r) × Holds (L.content (commit_or_fail L r u).1.db) name m'
  commit-Holds r u m' same d b fields size =
      let ok : IsHealthy L u.db = rw same healthy in
      let at : (k : Bytes) → L.content u.db k ≡ L.content s.db k =
        λ k. ap (λ x. L.content x k) same in
      (
        commit_or_fail-result L r u ok,
        record {
          distinct = d;
          bounded = b;
          fields = λ j.
              commit_or_fail-content L r u ok (encode_hash_key name j)
              ∙ ap (pending u.logs (encode_hash_key name j)) (at (encode_hash_key name j))
              ∙ fields j;
          size =
              commit_or_fail-content L r u ok (encode_hsize_key name)
              ∙ ap (pending u.logs (encode_hsize_key name)) (at (encode_hsize_key name))
              ∙ size;
        },
      )

  abbrev at_field : Bytes → Option Bytes
  at_field j = L.content s.db (encode_hash_key name j)

  begun_field : (j : Bytes) → pending begun.logs (encode_hash_key name j) (at_field j) ≡ lookup m j
  begun_field j = pending-begin s.logs (encode_hash_key name j) (at_field j) ∙ h.fields j

  begun_size :
      pending begun.logs (encode_hsize_key name) (L.content s.db (encode_hsize_key name))
      ≡ size_record (length m)
  begun_size = pending-begin s.logs (encode_hsize_key name) _ ∙ h.size

  module _ (k v : Bytes) (t : ℕ) where
    put_fields :
        (j : Bytes)
        → pending (put_field begun.logs name k v t) (encode_hash_key name j) (at_field j)
          ≡ lookup (put m k v) j
    put_fields j =
        put_field-field begun.logs name k v t j (at_field j)
        ∙ ap (λ o. if eqb k j then some v else o) (begun_field j)
        ∙ sym (lookup-put m k v j)

    put_same : lookup m k ≡ some v → (j : Bytes) → lookup m j ≡ lookup (put m k v) j
    put_same e j =
        let w : lookup m j ≡ (if eqb k j then some v else lookup m j) =
          elim (Bool-cases (eqb k j)) [
            | inl p ↦ rw p (rw ((eqb_iff k j).0 p) at e)
            | inr p ↦ rw p refl
          ] in
        w ∙ sym (lookup-put m k v j)

    -- Putting a field counts it where it is new.
    pub hset_body-Holds :
        IsValid name k
        → length m + 1 < 2 ^ 63
        → ((hset_body L name k v t begun).0 ≡ pos (1 - count_of (lookup m k)))
          × Holds (L.content (hset_body L name k v t begun).1.db) name (put m k v)
    hset_body-Holds valid room = elim (Option-cases (lookup m k)) [
      | inl e ↦
          let u = putting L begun name k v t valid in
          let n : length (put m k v) ≡ length m + 1 = length-put m k v ∙ rw e refl in
          let o = L.content s.db (encode_hsize_key name) in
          rw (hset_body-missing L begun name k v t valid (field_read k ∙ ap reading e), e)
            (commit-Holds (pos 1) (incr_hsize L u name (pos 1)) (put m k v)
              (incr_hsize-db L u name (pos 1)) (AreDistinct-put m k v h.distinct) (rw n room)
              (λ j. incr_hsize-field L u name (pos 1) j (at_field j) ∙ put_fields j)
              (rw n (incr_hsize-up L u name (length m) o (size_read u.logs) room)))
      | inr (old, e) ↦
          let u = putting L begun name k v t valid in
          let n : length (put m k v) ≡ length m = length-put m k v ∙ rw e (omega arith) in
          let body = hset_body-found L begun name k v t valid old (field_read k ∙ ap reading e) in
          elim (Bool-cases (eqb old v)) [
            | inl p ↦
                let q : old ≡ v = (eqb_iff old v).0 p in
                rw (body, e, p)
                  (commit-Holds (pos 0) begun (put m k v) refl (AreDistinct-put m k v h.distinct)
                    (rw n h.bounded) (λ j. begun_field j ∙ put_same (e ∙ ap some q) j)
                    (rw n begun_size))
            | inr p ↦
                rw (body, e, p)
                  (commit-Holds (pos 0) u (put m k v) refl (AreDistinct-put m k v h.distinct)
                    (rw n h.bounded) put_fields
                    (put_field-size begun.logs name k v t _ ∙ rw n begun_size))
          ]
    ]

    del_fields :
        (j : Bytes)
        → pending (delete_field begun.logs name k t) (encode_hash_key name j) (at_field j)
          ≡ lookup (erase m k) j
    del_fields j =
        delete_field-field begun.logs name k t j (at_field j)
        ∙ ap (λ o. if eqb k j then none else o) (begun_field j)
        ∙ sym (lookup-erase m k j h.distinct)

    erase_same : lookup m k ≡ none → (j : Bytes) → lookup m j ≡ lookup (erase m k) j
    erase_same e j =
        let w : lookup m j ≡ (if eqb k j then none else lookup m j) = elim (Bool-cases (eqb k j)) [
          | inl p ↦ rw p (rw ((eqb_iff k j).0 p) at e)
          | inr p ↦ rw p refl
        ] in
        w ∙ sym (lookup-erase m k j h.distinct)

    -- Deleting a field counts it where it was there.
    pub hdel_body-Holds :
        IsValid name k
        → ((hdel_body L name k t begun).0 ≡ pos (count_of (lookup m k)))
          × Holds (L.content (hdel_body L name k t begun).1.db) name (erase m k)
    hdel_body-Holds valid = elim (Option-cases (lookup m k)) [
      | inl e ↦
          let n : length (erase m k) ≡ length m = omega (arith, length-erase m k, ap count_of e) in
          rw (hdel_body-missing L begun name k v t valid (field_read k ∙ ap reading e), e)
            (commit-Holds (pos 0) begun (erase m k) refl (AreDistinct-erase m k h.distinct)
              (rw n h.bounded) (λ j. begun_field j ∙ erase_same e j) (rw n begun_size))
      | inr (old, e) ↦
          let u = deleting L begun name k v t valid in
          let n : suc (length (erase m k)) ≡ length m =
            omega (arith, length-erase m k, ap count_of e) in
          let b : length (erase m k) < 2 ^ 63 = omega (arith, h.bounded) in
          let o = L.content s.db (encode_hsize_key name) in
          rw (hdel_body-found L begun name k v t valid old (field_read k ∙ ap reading e), e)
            (commit-Holds (pos 1) (incr_hsize L u name (negsuc 0)) (erase m k)
              (incr_hsize-db L u name (negsuc 0)) (AreDistinct-erase m k h.distinct) b
              (λ j. incr_hsize-field L u name (negsuc 0) j (at_field j) ∙ del_fields j)
              (incr_hsize-down L u name (length (erase m k)) o (size_read u.logs ∙ ap pos (sym n))
                (omega (arith, h.bounded))))
    ]

-- Without I/O errors, on a database that holds under the name a hash of the fields m: hget answers
-- the field's value, and hsize the number of fields.
pub hget-Holds :
    (L : LevelDb) (s : Ssdb L) (name : Bytes) (m : Fields) (k : Bytes)
    → IsHealthy L s.db
    → Holds (L.content s.db) name m
    → (hget L s name k ≡ reading (lookup m k)) × (hsize L s name ≡ pos (length m))
hget-Holds L s name m k healthy h = (
  hget_lem L s healthy name k ∙ ap reading (h.fields k),
  hsize_lem L s healthy name (length m) h.bounded h.size,
)

-- Without I/O errors, hset of a key and name that are given and fit returns 1 for a new field and 0
-- for an old one, and the hash is afterwards the old one with the field put into it: no other field
-- changes, and the size record is the number of fields.
pub hset-Holds :
    (L : LevelDb) (s : Ssdb L) (name : Bytes) (m : Fields) (k v : Bytes) (t : ℕ)
    → IsHealthy L s.db
    → Holds (L.content s.db) name m
    → IsValid name k
    → length m + 1 < 2 ^ 63
    → ((hset L name k v t s).0 ≡ pos (1 - count_of (lookup m k)))
      × Holds (L.content (hset L name k v t s).1.db) name (put m k v)
unfolding hset transaction
hset-Holds L s name m k v t healthy h valid room =
    hset_body-Holds L s healthy name m h k v t valid room

-- Without I/O errors, hdel of a key and name that are given and fit returns 1 for a field that is
-- there and 0 otherwise, and the hash is afterwards the old one without the field: no other field
-- changes, and the size record is the number of fields, and gone with the last one.
pub hdel-Holds :
    (L : LevelDb) (s : Ssdb L) (name : Bytes) (m : Fields) (k : Bytes) (t : ℕ)
    → IsHealthy L s.db
    → Holds (L.content s.db) name m
    → IsValid name k
    → ((hdel L name k t s).0 ≡ pos (count_of (lookup m k)))
      × Holds (L.content (hdel L name k t s).1.db) name (erase m k)
unfolding hdel transaction
hdel-Holds L s name m k t healthy h valid = hdel_body-Holds L s healthy name m h k [] t valid
