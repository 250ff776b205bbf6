-- ===== src/Queue/SetModel.antt =====
-- qset and qset_by_seq replace an item in place.
use native.Mathlib.Decide.{ℕ_discrete}
use php.Prelude.{
  ℕ, ◌+◌, ◌^◌, ◌≤◌, ◌<◌, ◌≡◌, ◌∙◌, some, List, arith, length, get_elem?, set, length-set,
  get_elem?-set_self, get_elem?-set_ne, ◌==◌, if◌then◌else◌,
}
use php.Prelude.Int.{ℤ, pos, negsuc}
use php.Bytes.{Bytes, eqb}
use php.Keys.{encode_qitem_key, encode_qsize_key}
use php.Keys.Distinct.{eqb-qitem_self, eqb-qitem-qsize}
use php.LevelDb.{LevelDb}
use php.LevelDb.Laws.{IsHealthy}
use php.Binlog.{BinlogQueue, Ssdb, begin, add_log, transaction}
use php.Binlog.Command
use php.Binlog.Pending.{
  IsData, qsize-IsData, qitem-IsData, pending, pending-begin, pending-put, pending-add_log,
}
use php.Queue.{qsize, qset_one}
use php.Queue.Const.{qfront_seq, qback_seq}
use php.Queue.Commit.{qsize-logs, commit_or_fail-result, commit_or_fail-content}
use php.Queue.Access.{qset_item, qset_body, qset, qset_within, qset_by_seq_body, qset_by_seq}
use php.Queue.Model.{Content, Holds, qsize-pos}
use php.Queue.AccessModel.{position, InRange, position-lt, seq_at-Holds, front_is}

-- The item at a position is another one, and the rest is as it was.
Holds-set :
    (c d : Content) (name item : Bytes) (f i : ℕ) (xs : List Bytes)
    → Holds c name f xs
    → i < length xs
    → d (encode_qsize_key name) ≡ c (encode_qsize_key name)
    → ((a : ℕ)
        → a < 2 ^ 64
        → d (encode_qitem_key name a)
          ≡ (if f + i == a then some item else c (encode_qitem_key name a)))
    → Holds d name f (set xs i item)
Holds-set c d name item f i xs h p size at = record {
  nonempty = omega (arith, h.nonempty, length-set xs i item);
  low = h.low;
  high = omega (arith, h.high, length-set xs i item);
  size = rw (length-set xs i item) (size ∙ h.size);
  front = ground (arith, at 2 (omega arith), h.front, h.low);
  back = rw (length-set xs i item) (ground (arith, at 3 (omega arith), h.back, h.low));
  items = set_item;
}
  where
    set_item :
        (j : ℕ)
        → j < length (set xs i item)
        → d (encode_qitem_key name (f + j)) ≡ get_elem? (set xs i item) j
    set_item j q = elim (ℕ_discrete i j) [
      | yes e ↦ ground (
        arith,
        at (f + j) (omega (arith, h.high, length-set xs i item)),
        get_elem?-set_self xs i item p,
      )
      | no ne ↦ ground (
        arith,
        at (f + j) (omega (arith, h.high, length-set xs i item)),
        h.items j (omega (arith, length-set xs i item)),
        get_elem?-set_ne xs item ne,
      )
    ]

-- Contents that agree on the keys of a queue.
Holds-same :
    (c d : Content) (name : Bytes) (f : ℕ) (xs : List Bytes)
    → Holds c name f xs
    → d (encode_qsize_key name) ≡ c (encode_qsize_key name)
    → ((a : ℕ) → a < f + length xs → d (encode_qitem_key name a) ≡ c (encode_qitem_key name a))
    → Holds d name f xs
Holds-same c d name f xs h size at = record {
  nonempty = h.nonempty;
  low = h.low;
  high = h.high;
  size = size ∙ h.size;
  front = at qfront_seq (omega (arith, h.low)) ∙ h.front;
  back = at qback_seq (omega (arith, h.low)) ∙ h.back;
  items = λ i p. at (f + i) (omega arith) ∙ h.items i p;
}

module _ (L : LevelDb) (s : Ssdb L) (healthy : IsHealthy L s.db) (name item : Bytes)
    (seq ty : ℕ) where
  abbrev logged : BinlogQueue
  logged = add_log (qset_one s.logs name seq item) ty Command.qset (encode_qitem_key name seq)

  qset_item-result : (qset_item L name seq item ty s).0 ≡ pos 1
  unfolding qset_item
  qset_item-result = commit_or_fail-result L (pos 1) (record s { logs = logged }) healthy

  qset_item-content :
      (k : Bytes)
      → IsData k
      → pending s.logs k (L.content s.db k) ≡ L.content s.db k
      → L.content (qset_item L name seq item ty s).1.db k
        ≡ (if eqb (encode_qitem_key name seq) k then some item else L.content s.db k)
  unfolding qset_item qset_one
  qset_item-content k data_key quiet = rw (
    commit_or_fail-content L (pos 1) (record s { logs = logged }) healthy k,
    pending-add_log _ ty Command.qset (encode_qitem_key name seq) k _ data_key,
    pending-put,
    quiet,
  )

module _ (L : LevelDb) (s : Ssdb L) (healthy : IsHealthy L s.db) (name item : Bytes) (ty f : ℕ)
    (xs : List Bytes) (h : Holds (L.content s.db) name f xs) where
  abbrev begun : Ssdb L
  begun = record s { logs = begin s.logs }

  size_after :
      (i : ℕ)
      → L.content (qset_item L name (f + i) item ty begun).1.db (encode_qsize_key name)
        ≡ L.content s.db (encode_qsize_key name)
  size_after i = rw (
    qset_item-content L begun healthy name item (f + i) ty (encode_qsize_key name)
        (qsize-IsData name) (pending-begin s.logs (encode_qsize_key name) _),
    eqb-qitem-qsize name name (f + i),
  )

  item_after :
      (i a : ℕ)
      → f + i < 2 ^ 64
      → a < 2 ^ 64
      → L.content (qset_item L name (f + i) item ty begun).1.db (encode_qitem_key name a)
        ≡ (if f + i == a then some item else L.content s.db (encode_qitem_key name a))
  item_after i a small q = rw (
    qset_item-content L begun healthy name item (f + i) ty (encode_qitem_key name a)
        (qitem-IsData name a) (pending-begin s.logs (encode_qitem_key name a) _),
    eqb-qitem_self name (f + i) a small q,
  )

  written :
      (i : ℕ)
      → i < length xs
      → Holds (L.content (qset_item L name (f + i) item ty begun).1.db) name f (set xs i item)
  written i p =
      Holds-set (L.content s.db) _ name item f i xs h p (size_after i)
        (λ a q. item_after i a (omega (arith, h.high)) q)

  size_is : qsize L s name ≡ pos (length xs)
  size_is = qsize-pos L s healthy name (length xs) (omega (arith, h.high)) h.size

  size_begun : qsize L begun name ≡ pos (length xs)
  size_begun = qsize-logs L s name (begin s.logs) ∙ size_is

  qset_body_lem :
      (z : ℤ)
      → InRange (length xs) z
      → qset_body L name z item ty begun
        ≡ qset_item L name (f + position (length xs) z) item ty begun
  unfolding qset_body
  qset_body_lem (pos i) p =
      ground (arith, size_begun, seq_at-Holds L begun healthy name f xs h (pos i) p)
  qset_body_lem (negsuc i) p =
      ground (arith, size_begun, seq_at-Holds L begun healthy name f xs h (negsuc i) p, h.high)

  -- Without I/O errors, qset at an index in range, from the front or from the back, returns 1 and
  -- replaces the item there.
  pub qset-Holds :
      (z : ℤ)
      → InRange (length xs) z
      → ((qset L name z item ty s).0 ≡ pos 1)
        × Holds
            (L.content (qset L name z item ty s).1.db)
            name
            f
            (set xs (position (length xs) z) item)
  unfolding qset transaction
  qset-Holds z p =
      let i = position (length xs) z in
      (
        rw (qset_body_lem z p) (qset_item-result L begun healthy name item (f + i) ty),
        rw (qset_body_lem z p) (written i (position-lt (length xs) z p)),
      )

  -- Without I/O errors, qset at an index that is out of range returns 0 and writes nothing.
  pub qset_out_of_range :
      (z : ℤ)
      → ¬ InRange (length xs) z
      → ((qset L name z item ty s).0 ≡ pos 0) × ((qset L name z item ty s).1.db ≡ s.db)
  unfolding qset qset_body transaction
  qset_out_of_range (pos i) p = ground (arith, size_begun, h.high)
  qset_out_of_range (negsuc i) p = ground (arith, size_begun, h.high)

  qset_by_seq_lem :
      (i : ℕ)
      → i ≤ length xs
      → qset_by_seq_body L name (f + i) item ty begun ≡ qset_item L name (f + i) item ty begun
  unfolding qset_by_seq_body qset_within
  qset_by_seq_lem i p = ground (arith, size_begun, front_is L begun healthy name f xs h, h.high)

  -- Without I/O errors, qset_by_seq at the sequence number of an item returns 1 and replaces it.
  pub qset_by_seq-Holds :
      (i : ℕ)
      → i < length xs
      → ((qset_by_seq L name (f + i) item ty s).0 ≡ pos 1)
        × Holds (L.content (qset_by_seq L name (f + i) item ty s).1.db) name f (set xs i item)
  unfolding qset_by_seq transaction
  qset_by_seq-Holds i p = (
    rw (qset_by_seq_lem i (omega arith)) (qset_item-result L begun healthy name item (f + i) ty),
    rw (qset_by_seq_lem i (omega arith)) (written i p),
  )

  -- Without I/O errors, qset_by_seq at the first sequence number past the back returns 1 as well: it
  -- writes the item there, and the queue stays the list that it was, without the item.
  pub qset_by_seq_past_back :
      ((qset_by_seq L name (f + length xs) item ty s).0 ≡ pos 1)
      × (L.content
            (qset_by_seq L name (f + length xs) item ty s).1.db
            (encode_qitem_key name (f + length xs))
          ≡ some item)
      × Holds (L.content (qset_by_seq L name (f + length xs) item ty s).1.db) name f xs
  unfolding qset_by_seq transaction
  qset_by_seq_past_back =
      let n = length xs in
      let e = qset_by_seq_lem n (omega arith) in
      (
        rw e (qset_item-result L begun healthy name item (f + n) ty),
        rw e (item_after n (f + n) (omega (arith, h.high)) (omega (arith, h.high)) ∙ ground arith),
        rw e (
            Holds-same (L.content s.db) _ name f xs h (size_after n) (λ a q.
              item_after n a (omega (arith, h.high)) (omega (arith, h.high)) ∙ ground arith)),
      )
