-- ===== src/Zset/Frame.antt =====
-- zset and zdel, and the keys of single values.
use php.Prelude.{ℕ, ◌≡◌, refl, ap, ◌∙◌, false, Option, [], arith, Bool-cases, inl, inr}
use php.Prelude.Int.{ℤ, pos, ltb_ℤ}
use php.Bytes.{Bytes, eqb}
use php.Keys.{encode_kv_key}
use php.Keys.Zset.{encode_zsize_key, encode_zset_key, encode_zscore_key}
use php.Keys.Distinct.{eqb_head}
use php.LevelDb.{LevelDb, Got, failed, missing, found}
use php.LevelDb.Laws.{IsHealthy}
use php.Binlog.{Ssdb, BinlogQueue, begin, transaction, put_batch, delete_batch}
use php.Binlog.Command
use php.Binlog.Pending.{
  pending, pending-begin, pending-put, pending-delete, pending-add_log, commit_or_fail-content,
  kv-IsData,
}
use php.SizeRecord.{negated}
use php.SizeRecord.Laws.{incr_size-other}
use php.Zset.{
  zset, zset_body, zset_one, zset_write, zset_move, put_member, filter_score, zdel, zdel_body,
  zdel_one, zdel_write, zset_finish, zget, incr_zsize, delete_member, delete_score,
}

module _ (L : LevelDb) (j : Bytes) where
  abbrev k : Bytes
  k = encode_kv_key j

  -- What the database would hold under the key, were the batch committed now.
  abbrev view : BinlogQueue → L.Db → Option Bytes
  view q d = pending q k (L.content d k)

  put-frame :
      (q : BinlogQueue) (key v : Bytes) (d : L.Db)
      → eqb key k ≡ false
      → view (put_batch q key v) d ≡ view q d
  put-frame q key v d e = rw (pending-put q key v k (L.content d k), e) refl

  delete-frame :
      (q : BinlogQueue) (key : Bytes) (d : L.Db)
      → eqb key k ≡ false
      → view (delete_batch q key) d ≡ view q d
  delete-frame q key d e = rw (pending-delete q key k (L.content d k), e) refl

  module _ (name key : Bytes) where
    delete_score-frame :
        (q : BinlogQueue) (score : Bytes) (d : L.Db)
        → view (delete_score q name key score) d ≡ view q d
    unfolding delete_score encode_zscore_key
    delete_score-frame q score d = delete-frame q _ d (eqb_head _ _ _ _ (omega arith))

    delete_member-frame :
        (q : BinlogQueue) (score : Bytes) (t : ℕ) (d : L.Db)
        → view (delete_member q name key score t) d ≡ view q d
    unfolding delete_member
    delete_member-frame q score t d =
        let k0 = encode_zset_key name key in
        let one = delete_score q name key score in
        pending-add_log (delete_batch one k0) t Command.zdel k0 k (L.content d k) (kv-IsData j)
        ∙ delete-frame one k0 d (eqb_head _ _ _ _ (omega arith))
        ∙ delete_score-frame q score d

    put_member-frame :
        (q : BinlogQueue) (score : Bytes) (t : ℕ) (d : L.Db)
        → view (put_member q name key score t) d ≡ view q d
    unfolding put_member encode_zscore_key
    put_member-frame q score t d =
        let k0 = encode_zset_key name key in
        let one = put_batch q (encode_zscore_key name key score) [] in
        pending-add_log (put_batch one k0 score) t Command.zset k0 k (L.content d k) (kv-IsData j)
        ∙ put-frame one k0 score d (eqb_head _ _ _ _ (omega arith))
        ∙ put-frame q _ [] d (eqb_head _ _ _ _ (omega arith))

    -- The step changes neither the database nor what it will hold.
    abbrev IsQuiet : Ssdb L → Ssdb L → Type 0
    IsQuiet s t = (t.db ≡ s.db) × (view t.logs s.db ≡ view s.logs s.db)

    zdel_write-IsQuiet :
        (g : Got Bytes) (t : ℕ) (s : Ssdb L) → IsQuiet s (zdel_write L g name key t s).1
    unfolding zdel_write
    zdel_write-IsQuiet failed t s = (refl, refl)
    zdel_write-IsQuiet missing t s = (refl, refl)
    zdel_write-IsQuiet (found old) t s = (refl, delete_member-frame s.logs old t s.db)

    zdel_one-IsQuiet : (t : ℕ) (s : Ssdb L) → IsQuiet s (zdel_one L name key t s).1
    unfolding zdel_one
    zdel_one-IsQuiet t s = let (a, b) = zdel_write-IsQuiet (zget L s name key) t s in ground (arith)

    zset_move-IsQuiet :
        (old score : Bytes) (t : ℕ) (s : Ssdb L) → IsQuiet s (zset_move L old name key score t s).1
    zset_move-IsQuiet old score t s = elim (Bool-cases (eqb old score)) [
      | inl e ↦ rw e (refl, refl)
      | inr e ↦ rw e (
        refl,
        put_member-frame (delete_score s.logs name key old) score t s.db
            ∙ delete_score-frame s.logs old s.db,
      )
    ]

    zset_write-IsQuiet :
        (g : Got Bytes) (score : Bytes) (t : ℕ) (s : Ssdb L)
        → IsQuiet s (zset_write L g name key score t s).1
    unfolding zset_write
    zset_write-IsQuiet failed score t s = zset_move-IsQuiet [] score t s
    zset_write-IsQuiet missing score t s = (refl, put_member-frame s.logs score t s.db)
    zset_write-IsQuiet (found old) score t s = zset_move-IsQuiet old score t s

    zset_one-IsQuiet :
        (score : Bytes) (t : ℕ) (s : Ssdb L) → IsQuiet s (zset_one L name key score t s).1
    unfolding zset_one
    zset_one-IsQuiet score t s =
        let (a, b) = zset_write-IsQuiet (zget L s name key) (filter_score score) t s in
        ground (arith)

    module _ (healthy : (d : L.Db) → IsHealthy L d) where
      zset_finish-frame :
          (ret incr answer : ℤ) (s t : Ssdb L)
          → IsQuiet s t
          → view s.logs s.db ≡ L.content s.db k
          → L.content (zset_finish L ret incr answer name t).1.db k ≡ L.content s.db k
      unfolding zset_finish incr_zsize
      zset_finish-frame ret incr answer s t (e, v) w =
          let o = L.content t.db k in
          let after = incr_zsize L t name incr in
          let here : o ≡ L.content s.db k = ap (λ d. L.content d k) e in
          let stays : view t.logs t.db ≡ L.content s.db k = ap (view t.logs) e ∙ v ∙ w in
          let other : view after.logs t.db ≡ view t.logs t.db =
            incr_size-other L t (encode_zsize_key name) incr k o (eqb_head _ _ _ _ (omega arith)) in
          elim (Bool-cases (ltb_ℤ ret (pos 0))) [
            | inl y ↦ rw y here
            | inr y ↦ elim (Bool-cases (ltb_ℤ (pos 0) ret)) [
              | inl z ↦
                  rw (y, z)
                    (commit_or_fail-content L answer after (healthy after.db) k ∙ other ∙ stays)
              | inr z ↦ rw (y, z) (commit_or_fail-content L answer t (healthy t.db) k ∙ stays)
            ]
          ]

      pub zdel-kv : (t : ℕ) (s : Ssdb L) → L.content (zdel L name key t s).1.db k ≡ L.content s.db k
      unfolding zdel zdel_body transaction
      zdel-kv t s =
          let b : Ssdb L = record s { logs = begin s.logs } in
          let (ret, u) = zdel_one L name key t b in
          zset_finish-frame ret (negated ret) ret b u (zdel_one-IsQuiet t b)
            (pending-begin s.logs k (L.content s.db k))

      pub zset-kv :
          (score : Bytes) (t : ℕ) (s : Ssdb L)
          → L.content (zset L name key score t s).1.db k ≡ L.content s.db k
      unfolding zset zset_body transaction
      zset-kv score t s =
          let b : Ssdb L = record s { logs = begin s.logs } in
          let (ret, u) = zset_one L name key score t b in
          zset_finish-frame ret ret ret b u (zset_one-IsQuiet score t b)
            (pending-begin s.logs k (L.content s.db k))
