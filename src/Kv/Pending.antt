-- ===== src/Kv/Pending.antt =====
-- What the batches of t_kv.cpp make of the values.
use php.Prelude.{
  ℕ, ◌≡◌, refl, ap, ◌∙◌, true, false, Option, none, some, List, [], ◌∷◌, arith, if◌then◌else◌,
}
use php.Bytes.{Bytes, eqb}
use php.Keys.{encode_kv_key}
use php.Keys.Distinct.{eqb-cons}
use php.Binlog.{BinlogQueue, put_batch, delete_batch}
use php.Binlog.Command
use php.Binlog.Pending.{pending, pending-put, pending-delete, pending-add_log, kv-IsData}
use php.Kv.{put_kv, del_kv, multi_set_loop, multi_del_loop}
use php.Kv.Map.{Map, insert, remove, insert_all, remove_all, has_empty}

pending-put_kv :
    (q : BinlogQueue) (k v : Bytes) (t : ℕ) (j : Bytes) (o : Option Bytes)
    → pending (put_kv q k v t) (encode_kv_key j) o
      ≡ (if eqb k j then some v else pending q (encode_kv_key j) o)
unfolding put_kv
pending-put_kv q k v t j o =
    pending-add_log (put_batch q (encode_kv_key k) v) t Command.kset (encode_kv_key k)
      (encode_kv_key j) o (kv-IsData j)
    ∙ pending-put q (encode_kv_key k) v (encode_kv_key j) o
    ∙ ap (λ b. if b then some v else pending q (encode_kv_key j) o) (eqb-cons 107 k j)

pending-del_kv :
    (q : BinlogQueue) (k : Bytes) (t : ℕ) (j : Bytes) (o : Option Bytes)
    → pending (del_kv q k t) (encode_kv_key j) o
      ≡ (if eqb k j then none else pending q (encode_kv_key j) o)
unfolding del_kv
pending-del_kv q k t j o =
    pending-add_log (delete_batch q (encode_kv_key k)) t Command.kdel (encode_kv_key k)
      (encode_kv_key j) o (kv-IsData j)
    ∙ pending-delete q (encode_kv_key k) (encode_kv_key j) o
    ∙ ap (λ b. if b then none else pending q (encode_kv_key j) o) (eqb-cons 107 k j)

-- What the database would hold, were the batch committed now.
abbrev pub Pends : (Bytes → Option Bytes) → BinlogQueue → Map → Type 0
Pends c q m = (j : Bytes) → pending q (encode_kv_key j) (c (encode_kv_key j)) ≡ m j

pub Pends-put :
    (c : Bytes → Option Bytes) (q : BinlogQueue) (m : Map) (k v : Bytes) (t : ℕ)
    → Pends c q m
    → Pends c (put_kv q k v t) (insert m k v)
Pends-put c q m k v t h j = rw (pending-put_kv q k v t j (c (encode_kv_key j)), h j) refl

pub Pends-del :
    (c : Bytes → Option Bytes) (q : BinlogQueue) (m : Map) (k : Bytes) (t : ℕ)
    → Pends c q m
    → Pends c (del_kv q k t) (remove m k)
Pends-del c q m k t h j = rw (pending-del_kv q k t j (c (encode_kv_key j)), h j) refl

pub Pends-del_all :
    (c : Bytes → Option Bytes) (q : BinlogQueue) (m : Map) (ks : List Bytes) (t : ℕ)
    → Pends c q m
    → Pends c (multi_del_loop q ks t) (remove_all m ks)
unfolding multi_del_loop
Pends-del_all c q m [] t h = h
Pends-del_all c q m (k ∷ ks) t h =
    Pends-del_all c (del_kv q k t) (remove m k) ks t (Pends-del c q m k t h)

pub multi_set_loop-empty :
    (q : BinlogQueue) (kvs : List (Bytes × Bytes)) (t : ℕ)
    → has_empty kvs ≡ true
    → multi_set_loop q kvs t ≡ none
unfolding multi_set_loop
multi_set_loop-empty q [] t h = cc
multi_set_loop-empty q ((k, v) ∷ kvs) t h =
    ground (arith, multi_set_loop-empty (put_kv q k v t) kvs t)

pub Pends-put_all :
    (c : Bytes → Option Bytes) (q : BinlogQueue) (m : Map) (kvs : List (Bytes × Bytes)) (t : ℕ)
    → Pends c q m
    → has_empty kvs ≡ false
    → (p : BinlogQueue) × (multi_set_loop q kvs t ≡ some p) × Pends c p (insert_all m kvs)
unfolding multi_set_loop
Pends-put_all c q m [] t h e = (q, refl, h)
Pends-put_all c q m ((k, v) ∷ kvs) t h e =
    let (p, l, g) =
      Pends-put_all c (put_kv q k v t) (insert m k v) kvs t (Pends-put c q m k v t h)
        (ground arith) in
    (p, ground arith, g)
