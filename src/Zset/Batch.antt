-- ===== src/Zset/Batch.antt =====
-- What the batches of zset and zdel make of a sorted set.
use php.Prelude.{
  ℕ, suc, ◌+◌, ◌^◌, ◌<◌, ◌≡◌, refl, ap, sym, ◌∙◌, ◌&&◌, none, some, [], arith, length,
  if◌then◌else◌, Bool-cases, inl, inr,
}
use php.Prelude.Int.{ℤ, pos, negsuc, InInt64}
use php.Bytes.{Bytes, eqb}
use php.Strings.Number.{str, str_to_int64, str_to_int64-InInt64}
use php.Keys.Zset.{encode_zsize_key, encode_zset_key, zscore_key}
use php.Keys.Zset.Laws.{eqb_ℤ}
use php.Keys.Distinct.{eqb_head}
use php.LevelDb.{LevelDb}
use php.LevelDb.Laws.{IsHealthy, reading, get-content}
use php.Binlog.{BinlogQueue, Ssdb, begin, commit_or_fail}
use php.Binlog.Pending.{pending, pending-begin, commit_or_fail-result, commit_or_fail-content}
use php.SizeRecord.Laws.{size_record, read_size_lem, incr_size-up, incr_size-down, incr_size-other}
use php.Hash.Branches.{IsValid}
use php.Hash.Fields.{
  Fields, lookup, put, erase, AreDistinct, count_of, lookup-put, length-put, length-erase,
  lookup-erase, AreDistinct-put, AreDistinct-erase,
}
use php.Zset.{put_member, delete_score, delete_member, zget, zsize, incr_zsize, filter_score}
use php.Zset.Model.{
  Holds, score_entry, put_member-member, put_member-score, put_member-size, delete_score-member,
  delete_score-score, delete_score-size, delete_member-member, delete_member-score,
}
use php.Zset.Entries.{entry-added, entry-moved, entry-erased}
use php.Zset.Branches.{adding, moving, removing}

-- Every score is a number's text.
abbrev pub AreNumbers : Fields → Type 0
AreNumbers m = (k w : Bytes) → lookup m k ≡ some w → (z : ℤ) × InInt64 z × (w ≡ str z)

AreNumbers-put :
    (m : Fields) (k : Bytes) (z : ℤ) → InInt64 z → AreNumbers m → AreNumbers (put m k (str z))
AreNumbers-put m k z p h j w e =
    let e' = sym (lookup-put m k (str z) j) ∙ e in
    elim (Bool-cases (eqb k j)) [
      | inl t ↦ (z, p, ground (arith, rw t at e'))
      | inr t ↦ h j w (rw t at e')
    ]

AreNumbers-erase : (m : Fields) (k : Bytes) → AreDistinct m → AreNumbers m → AreNumbers (erase m k)
AreNumbers-erase m k d h j w e =
    let e' = sym (lookup-erase m k j d) ∙ e in
    elim (Bool-cases (eqb k j)) [ inl t ↦ cc (rw t at e') | inr t ↦ h j w (rw t at e') ]

module _ (L : LevelDb) (s : Ssdb L) (healthy : IsHealthy L s.db) (name : Bytes) (m : Fields)
    (h : Holds (L.content s.db) name m) where
  abbrev pub begun : Ssdb L
  begun = record s { logs = begin s.logs }

  pub score_read : (k : Bytes) → length k < 256 → zget L begun name k ≡ reading (lookup m k)
  unfolding zget
  score_read k q = get-content L healthy (encode_zset_key name k) ∙ ap reading (h.members k q)

  pub size_read : (q : BinlogQueue) → zsize L (record s { logs = q }) name ≡ pos (length m)
  unfolding zsize
  size_read q =
      read_size_lem L (record s { logs = q }) (encode_zsize_key name) healthy (length m) h.bounded
        h.size

  -- A batch that makes of the keys the set m'.
  pub record Makes (q : BinlogQueue) (m' : Fields) : Type 0 where
    pub distinct : AreDistinct m'
    pub bounded : length m' < 2 ^ 63
    pub members :
        (j : Bytes)
        → length j < 256
        → pending q (encode_zset_key name j) (L.content s.db (encode_zset_key name j)) ≡ lookup m' j
    pub scores :
        (j : Bytes) (z : ℤ)
        → InInt64 z
        → pending q (zscore_key name j z) (L.content s.db (zscore_key name j z))
          ≡ score_entry (lookup m' j) z
    pub numbers : AreNumbers m'
    pub size :
        pending q (encode_zsize_key name) (L.content s.db (encode_zsize_key name))
        ≡ size_record (length m')

  pub commit-Holds :
      (r : ℤ) (q : BinlogQueue) (m' : Fields)
      → Makes q m'
      → let c = commit_or_fail L r (record s { logs = q }) in
        (c.0 ≡ r) × Holds (L.content c.1.db) name m'
  commit-Holds r q m' g =
      let u : Ssdb L = record s { logs = q } in
      (
        commit_or_fail-result L r u healthy,
        record {
          distinct = g.distinct;
          bounded = g.bounded;
          members =
              λ j l. commit_or_fail-content L r u healthy (encode_zset_key name j) ∙ g.members j l;
          scores =
              λ j z p. commit_or_fail-content L r u healthy (zscore_key name j z) ∙ g.scores j z p;
          numbers = g.numbers;
          size = commit_or_fail-content L r u healthy (encode_zsize_key name) ∙ g.size;
        },
      )

  pub begun-Makes : Makes begun.logs m
  begun-Makes = record {
    distinct = h.distinct;
    bounded = h.bounded;
    members = λ j l. pending-begin s.logs (encode_zset_key name j) _ ∙ h.members j l;
    scores = λ j z p. pending-begin s.logs (zscore_key name j z) _ ∙ h.scores j z p;
    numbers = h.numbers;
    size = pending-begin s.logs (encode_zsize_key name) _ ∙ h.size;
  }

  -- The size record does not touch the members and the scores.
  counted :
      (q : BinlogQueue) (by : ℤ) (m' : Fields)
      → AreDistinct m'
      → length m' < 2 ^ 63
      → AreNumbers m'
      → ((j : Bytes)
          → length j < 256
          → pending q (encode_zset_key name j) (L.content s.db (encode_zset_key name j))
            ≡ lookup m' j)
      → ((j : Bytes) (z : ℤ)
          → InInt64 z
          → pending q (zscore_key name j z) (L.content s.db (zscore_key name j z))
            ≡ score_entry (lookup m' j) z)
      → pending
          (incr_zsize L (record s { logs = q }) name by).logs
          (encode_zsize_key name)
          (L.content s.db (encode_zsize_key name))
        ≡ size_record (length m')
      → Makes (incr_zsize L (record s { logs = q }) name by).logs m'
  unfolding incr_zsize
  counted q by m' d b n members scores size =
      let u : Ssdb L = record s { logs = q } in
      let key = encode_zsize_key name in
      record {
        distinct = d;
        bounded = b;
        members = λ j l.
            incr_size-other L u key by (encode_zset_key name j) _ (eqb_head _ _ _ _ (omega arith))
            ∙ members j l;
        scores = λ j z p.
            incr_size-other L u key by (zscore_key name j z) _ (eqb_head _ _ _ _ (omega arith))
            ∙ scores j z p;
        numbers = n;
        size = size;
      }

  module _ (k score : Bytes) (t : ℕ) (valid : IsValid name k) where
    abbrev pub new : ℤ
    new = (str_to_int64 score).0

    new-InInt64 : InInt64 new
    new-InInt64 = str_to_int64-InInt64 score

    pub short : length k < 256
    short = omega (arith, valid.key_fits)

    pub zset_new :
        lookup m k ≡ none
        → length m + 1 < 2 ^ 63
        → Makes
            (incr_zsize L (adding L begun name k score t valid) name (pos 1)).logs
            (put m k (str new))
    unfolding filter_score incr_zsize zsize
    zset_new e room =
        let q = put_member begun.logs name k (str new) t in
        let n : length (put m k (str new)) ≡ length m + 1 = length-put m k (str new) ∙ rw e refl in
        counted q (pos 1) (put m k (str new)) (AreDistinct-put m k (str new) h.distinct) (rw n room)
          (AreNumbers-put m k new new-InInt64 h.numbers)
          (λ j l.
            put_member-member begun.logs name k new new-InInt64 t j _ short l
            ∙ ap (λ o. if eqb k j then some (str new) else o) (begun-Makes.members j l)
            ∙ sym (lookup-put m k (str new) j))
          (λ j z p.
            put_member-score begun.logs name k new new-InInt64 t j z _ p
            ∙ ap (λ o. if eqb k j && eqb_ℤ new z then some [] else o) (begun-Makes.scores j z p)
            ∙ entry-added m k j z p new new-InInt64 e)
          (rw n (
            incr_size-up L (record s { logs = q }) (encode_zsize_key name) (length m) _
              (size_read q) room))

    pub zset_moved :
        (old : ℤ)
        → InInt64 old
        → lookup m k ≡ some (str old)
        → Makes (moving L begun name k score t valid (str old)).logs (put m k (str new))
    unfolding filter_score
    zset_moved old r e =
        let q = delete_score begun.logs name k (str old) in
        let n : length (put m k (str new)) ≡ length m =
          length-put m k (str new) ∙ rw e (omega arith) in
        record {
          distinct = AreDistinct-put m k (str new) h.distinct;
          bounded = rw n h.bounded;
          members = λ j l.
              put_member-member q name k new new-InInt64 t j _ short l
              ∙ ap (λ o. if eqb k j then some (str new) else o)
                  (delete_score-member begun.logs name k old r t j _ ∙ begun-Makes.members j l)
              ∙ sym (lookup-put m k (str new) j);
          scores = λ j z p.
              put_member-score q name k new new-InInt64 t j z _ p
              ∙ ap (λ o. if eqb k j && eqb_ℤ new z then some [] else o)
                  (delete_score-score begun.logs name k old r t j z _ p
                    ∙ ap (λ o. if eqb k j && eqb_ℤ old z then none else o)
                        (begun-Makes.scores j z p))
              ∙ entry-moved m k j z p new new-InInt64 old r e;
          numbers = AreNumbers-put m k new new-InInt64 h.numbers;
          size =
              put_member-size q name k new new-InInt64 t _
              ∙ delete_score-size begun.logs name k old r t _
              ∙ rw n begun-Makes.size;
        }

    pub zdel_gone :
        (old : ℤ)
        → InInt64 old
        → lookup m k ≡ some (str old)
        → Makes
            (incr_zsize L (removing L begun name k score t valid (str old)) name (negsuc 0)).logs
            (erase m k)
    unfolding incr_zsize zsize
    zdel_gone old r e =
        let q = delete_member begun.logs name k (str old) t in
        let n : suc (length (erase m k)) ≡ length m =
          omega (arith, length-erase m k, ap count_of e) in
        counted q (negsuc 0) (erase m k) (AreDistinct-erase m k h.distinct)
          (omega (arith, h.bounded, n)) (AreNumbers-erase m k h.distinct h.numbers)
          (λ j l.
            delete_member-member begun.logs name k old r t j _ short l
            ∙ ap (λ o. if eqb k j then none else o) (begun-Makes.members j l)
            ∙ sym (lookup-erase m k j h.distinct))
          (λ j z p.
            delete_member-score begun.logs name k old r t j z _ p
            ∙ ap (λ o. if eqb k j && eqb_ℤ old z then none else o) (begun-Makes.scores j z p)
            ∙ entry-erased m k j z p old r h.distinct e)
          (incr_size-down L (record s { logs = q }) (encode_zsize_key name) (length (erase m k)) _
            (size_read q ∙ ap pos (sym n)) (omega (arith, h.bounded)))
