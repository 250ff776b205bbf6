-- ===== src/Kv/Refine.antt =====
-- The operations of t_kv.cpp answer as the map does.
use php.Prelude.{
  ℕ, ◌≡◌, refl, ap, ◌∙◌, Option, none, some, List, length, Bool-cases, inl, inr, Option-cases,
}
use php.Prelude.Int.{ℤ, pos, ◌+ℤ◌, i64}
use php.Bytes.{Bytes, is_empty}
use php.Strings.Number.{str, str_to_int64}
use php.Keys.{encode_kv_key}
use php.LevelDb.{LevelDb, missing, found}
use php.LevelDb.Laws.{IsHealthy, reading, get-content}
use php.Binlog.{BinlogQueue, Ssdb, begin, transaction, commit_or_fail}
use php.Binlog.Pending.{pending-begin, commit_or_fail-result, commit_or_fail-content}
use php.Kv
use php.Kv.{put_kv, del_kv, multi_set_loop, multi_del_loop, write_kv}
use php.Kv.Map.{
  Map, insert, remove, insert_all, remove_all, has_empty, Request, Reply, status, value, swapped,
  counted, answer, presence,
}
use php.Kv.Map
use php.Kv.Pending.{Pends, Pends-put, Pends-del, Pends-del_all, multi_set_loop-empty, Pends-put_all}
use php.Kv.Call.{
  call, value_of, setnx_body-missing, setnx_body-found, getset_body_lem, incr_body-missing,
  incr_body-found, multi_set_body-none, multi_set_body-some,
}

module _ (L : LevelDb) (t : ℕ) where
  -- The values of a database are those of the map.
  abbrev pub Represents : L.Db → Map → Type 0
  Represents d m = (j : Bytes) → L.content d (encode_kv_key j) ≡ m j

  -- A result and what holds of it.
  pub via :
      {x y : ℤ × Ssdb L} {r : ℤ} {n : Map}
      → x ≡ y
      → (y.0 ≡ r) × Represents y.1.db n
      → (x.0 ≡ r) × Represents x.1.db n
  via e h = rw e h

  value_of-reading : (o : Option Bytes) → value_of (reading o) ≡ o
  value_of-reading none = refl
  value_of-reading (some v) = refl

  module _ (s : Ssdb L) (healthy : IsHealthy L s.db) (m : Map) where
    abbrev pub begun : Ssdb L
    begun = record s { logs = begin s.logs }

    get-Represents : Represents s.db m → (k : Bytes) → Kv.get L s k ≡ reading (m k)
    unfolding Kv.get
    get-Represents h k = get-content L healthy (encode_kv_key k) ∙ ap reading (h k)

    begun-Pends : Represents s.db m → Pends (L.content s.db) begun.logs m
    begun-Pends h j =
        pending-begin s.logs (encode_kv_key j) (L.content s.db (encode_kv_key j)) ∙ h j

    -- A commit of a batch that pends n leaves n.
    commit-Represents :
        (r : ℤ) (q : BinlogQueue) (n : Map)
        → Pends (L.content s.db) q n
        → let c = commit_or_fail L r (record s { logs = q }) in (c.0 ≡ r) × Represents c.1.db n
    commit-Represents r q n h = (
      commit_or_fail-result L r (record s { logs = q }) healthy,
      λ j. commit_or_fail-content L r (record s { logs = q }) healthy (encode_kv_key j) ∙ h j,
    )

    pub write-Represents :
        Represents s.db m
        → (r : ℤ) (k v : Bytes)
        → ((write_kv L r k v t begun).0 ≡ r)
          × Represents (write_kv L r k v t begun).1.db (insert m k v)
    unfolding write_kv
    write-Represents h r k v =
        commit-Represents r (put_kv begun.logs k v t) (insert m k v)
          (Pends-put (L.content s.db) begun.logs m k v t (begun-Pends h))

    pub set-Represents :
        Represents s.db m
        → (k v : Bytes)
        → ((call L t s (Map.set k v)).0 ≡ (answer m (Map.set k v)).0)
          × Represents (call L t s (Map.set k v)).1.db (answer m (Map.set k v)).1
    unfolding Kv.set transaction
    set-Represents h k v = elim (Bool-cases (is_empty k)) [
      | inl e ↦ rw e (refl, h)
      | inr e ↦
          rw e (ap status (write-Represents h (pos 1) k v).0, (write-Represents h (pos 1) k v).1)
    ]

    pub begun-get : Represents s.db m → (k : Bytes) → Kv.get L begun k ≡ reading (m k)
    unfolding Kv.get
    begun-get h k = get-content L healthy (encode_kv_key k) ∙ ap reading (h k)

    pub setnx-Represents :
        Represents s.db m
        → (k v : Bytes)
        → ((call L t s (Map.setnx k v)).0 ≡ (answer m (Map.setnx k v)).0)
          × Represents (call L t s (Map.setnx k v)).1.db (answer m (Map.setnx k v)).1
    unfolding Kv.setnx transaction
    setnx-Represents h k v = elim (Bool-cases (is_empty k)) [
      | inl e ↦ rw e (refl, h)
      | inr e ↦ elim (Option-cases (m k)) [
        | inl p ↦
            let (r, after) =
              via (setnx_body-missing L t begun k v (begun-get h k ∙ ap reading p))
                (write-Represents h (pos 1) k v) in
            rw (e, p) (ap status r, after)
        | inr (old, p) ↦
            let (r, after) =
              via (setnx_body-found L t begun k v old (begun-get h k ∙ ap reading p)) (refl, h) in
            rw (e, p) (ap status r, after)
      ]
    ]

    pub getset-Represents :
        Represents s.db m
        → (k v : Bytes)
        → ((call L t s (Map.getset k v)).0 ≡ (answer m (Map.getset k v)).0)
          × Represents (call L t s (Map.getset k v)).1.db (answer m (Map.getset k v)).1
    unfolding Kv.getset transaction
    getset-Represents h k v = elim (Bool-cases (is_empty k)) [
      | inl e ↦ rw e (refl, h)
      | inr e ↦
          let g = getset_body_lem L t begun k v (m k) (begun-get h k) in
          let (r, after) = write-Represents h (presence (m k)) k v in
          rw e (
            ap (λ z. swapped z.0.0 (value_of z.0.1)) g
                ∙ ap (λ z. swapped z (value_of (reading (m k)))) r
                ∙ ap (swapped (presence (m k))) (value_of-reading (m k)),
            λ j. ap (λ z. L.content z.1.db (encode_kv_key j)) g ∙ after j,
          )
    ]

    pub incr-Represents :
        Represents s.db m
        → (k : Bytes) (by : ℤ)
        → ((call L t s (Map.incr k by)).0 ≡ (answer m (Map.incr k by)).0)
          × Represents (call L t s (Map.incr k by)).1.db (answer m (Map.incr k by)).1
    unfolding Kv.incr transaction
    incr-Represents h k by = elim (Option-cases (m k)) [
      | inl p ↦
          let g = incr_body-missing L t begun k by (begun-get h k ∙ ap reading p) in
          let (r, after) = write-Represents h (pos 1) k (str by) in
          rw p (
            ap (λ z. counted z.0.0 z.0.1) g ∙ ap (λ z. counted z by) r,
            λ j. ap (λ z. L.content z.1.db (encode_kv_key j)) g ∙ after j,
          )
      | inr (old, p) ↦
          let sum = i64 ((str_to_int64 old).0 +ℤ by) in
          let g = incr_body-found L t begun k by old (begun-get h k ∙ ap reading p) in
          let (r, after) = write-Represents h (pos 1) k (str sum) in
          elim (Bool-cases (str_to_int64 old).1) [
            | inl e ↦
                let g' = rw e at g in
                rw (p, e)
                  (
                    ap (λ z. counted z.0.0 z.0.1) g' ∙ ap (λ z. counted z sum) r,
                    λ j. ap (λ z. L.content z.1.db (encode_kv_key j)) g' ∙ after j,
                  )
            | inr e ↦
                let g' = rw e at g in
                rw (p, e)
                  (
                    ap (λ z. counted z.0.0 z.0.1) g',
                    λ j. ap (λ z. L.content z.1.db (encode_kv_key j)) g' ∙ h j,
                  )
          ]
    ]

    pub del-Represents :
        Represents s.db m
        → (k : Bytes)
        → ((call L t s (Map.del k)).0 ≡ (answer m (Map.del k)).0)
          × Represents (call L t s (Map.del k)).1.db (answer m (Map.del k)).1
    unfolding Kv.del Kv.del_body transaction
    del-Represents h k =
        let (r, after) =
          commit-Represents (pos 1) (del_kv begun.logs k t) (remove m k)
            (Pends-del (L.content s.db) begun.logs m k t (begun-Pends h)) in
        (ap status r, after)

    pub multi_set-Represents :
        Represents s.db m
        → (kvs : List (Bytes × Bytes))
        → ((call L t s (Map.multi_set kvs)).0 ≡ (answer m (Map.multi_set kvs)).0)
          × Represents (call L t s (Map.multi_set kvs)).1.db (answer m (Map.multi_set kvs)).1
    unfolding Kv.multi_set transaction
    multi_set-Represents h kvs = elim (Bool-cases (has_empty kvs)) [
      | inl e ↦
          let (r, after) =
            via (multi_set_body-none L t begun kvs (multi_set_loop-empty begun.logs kvs t e))
              (refl, h) in
          rw e (ap status r, after)
      | inr e ↦
          let (q, l, g) = Pends-put_all (L.content s.db) begun.logs m kvs t (begun-Pends h) e in
          let (r, after) = commit-Represents (pos (length kvs)) q (insert_all m kvs) g in
          let (r', after') = via (multi_set_body-some L t begun kvs q l) (r, after) in
          rw e (ap status r', after')
    ]

    pub multi_del-Represents :
        Represents s.db m
        → (ks : List Bytes)
        → ((call L t s (Map.multi_del ks)).0 ≡ (answer m (Map.multi_del ks)).0)
          × Represents (call L t s (Map.multi_del ks)).1.db (answer m (Map.multi_del ks)).1
    unfolding Kv.multi_del Kv.multi_del_body transaction
    multi_del-Represents h ks =
        let (r, after) =
          commit-Represents (pos (length ks)) (multi_del_loop begun.logs ks t) (remove_all m ks)
            (Pends-del_all (L.content s.db) begun.logs m ks t (begun-Pends h)) in
        (ap status r, after)

    -- Without I/O errors, every request is answered as the map answers it, and what the database
    -- holds afterwards is the map afterwards.
    pub call-Represents :
        Represents s.db m
        → (r : Request)
        → ((call L t s r).0 ≡ (answer m r).0) × Represents (call L t s r).1.db (answer m r).1
    call-Represents h (Map.get k) = elim (Option-cases (m k)) [
      | inl p ↦
          let g : Kv.get L s k ≡ missing = get-Represents h k ∙ ap reading p in rw (p, g) (refl, h)
      | inr (v, p) ↦
          let g : Kv.get L s k ≡ found v = get-Represents h k ∙ ap reading p in rw (p, g) (refl, h)
    ]
    call-Represents h (Map.set k v) = set-Represents h k v
    call-Represents h (Map.setnx k v) = setnx-Represents h k v
    call-Represents h (Map.getset k v) = getset-Represents h k v
    call-Represents h (Map.del k) = del-Represents h k
    call-Represents h (Map.incr k by) = incr-Represents h k by
    call-Represents h (Map.multi_set kvs) = multi_set-Represents h kvs
    call-Represents h (Map.multi_del ks) = multi_del-Represents h ks
