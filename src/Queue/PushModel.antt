-- ===== src/Queue/PushModel.antt =====
-- A push puts its item at its end of the list that the queue represents.
use native.Mathlib.Decide.{dec_lt}
use php.Prelude.{
  ℕ, zero, suc, ◌+◌, ◌-◌, ◌^◌, ◌<◌, ◌≡◌, refl, some, List, [], ◌∷◌, ◌++◌, arith, length, get_elem?,
  if◌then◌else◌, ◌==◌,
}
use php.Prelude.Int.{pos}
use php.Bytes.{Bytes}
use php.Bytes.Words.{u64_bytes}
use php.Keys.{encode_qsize_key, encode_qitem_key}
use php.LevelDb.{LevelDb, found}
use php.LevelDb.Laws.{IsHealthy}
use php.Binlog.{Ssdb}
use php.Queue.{qsize, qget_uint64, seq_outwards, qpush_front, qpush_back}
use php.Queue.Const.{qfront_seq, qback_seq, qitem_min_seq, qitem_max_seq, qitem_seq_init}
use php.Queue.Model.{Content, Holds, qget_uint64-found, qsize-pos}
use php.Queue.Push.{qpush-result, qpush-content_size, qpush-content_item}

pub get_elem?-append :
    (xs ys : List Bytes) (i : ℕ) → i < length xs → get_elem? (xs ++ ys) i ≡ get_elem? xs i
get_elem?-append [] ys i h = elim h [ ]
get_elem?-append (x ∷ xs) ys zero h = refl
get_elem?-append (x ∷ xs) ys (suc i) h = get_elem?-append xs ys i (omega arith)

pub length-snoc : (xs : List Bytes) (y : Bytes) → length (xs ++ y ∷ []) ≡ length xs + 1
length-snoc [] y = refl
length-snoc (x ∷ xs) y = omega (arith, length-snoc xs y)

pub get_elem?-snoc : (xs : List Bytes) (y : Bytes) → get_elem? (xs ++ y ∷ []) (length xs) ≡ some y
get_elem?-snoc [] y = refl
get_elem?-snoc (x ∷ xs) y = get_elem?-snoc xs y

-- A content that is the old one but for the size, the new item and the moved end.
module _ (c d : Content) (name item : Bytes) (f : ℕ) (xs : List Bytes) (h : Holds c name f xs) where
  Holds-snoc :
      f + length xs < qitem_max_seq
      → ((d (encode_qsize_key name)) ≡ some (u64_bytes (length xs + 1)))
      → ((a : ℕ)
          → a < 2 ^ 64
          → d (encode_qitem_key name a) ≡ (
              if f + length xs == a
              then some item
              else if qback_seq == a
              then some (u64_bytes (f + length xs))
              else c (encode_qitem_key name a)))
      → Holds d name f (xs ++ item ∷ [])
  Holds-snoc room size at = record {
    nonempty = omega (arith, length-snoc xs item);
    low = h.low;
    high = omega (arith, length-snoc xs item);
    size = rw (length-snoc xs item) size;
    front = ground (arith, at 2 (omega arith), h.front, h.low);
    back =
        let e : f + length (xs ++ item ∷ []) - 1 ≡ f + length xs =
          omega (arith, length-snoc xs item) in
        rw e (ground (arith, at 3 (omega arith), h.low));
    items = snoc_item;
  }
    where
      at_item : (i : ℕ) → i < length (xs ++ item ∷ []) → f + i < 2 ^ 64
      at_item i p = omega (arith, length-snoc xs item)

      snoc_item :
          (i : ℕ)
          → i < length (xs ++ item ∷ [])
          → d (encode_qitem_key name (f + i)) ≡ get_elem? (xs ++ item ∷ []) i
      snoc_item i p = elim (dec_lt i (length xs)) [
        | yes q ↦ ground (
          arith,
          at (f + i) (at_item i p),
          h.items i q,
          h.low,
          get_elem?-append xs (item ∷ []) i q,
        )
        | no q ↦
            (let e : i ≡ length xs = omega (arith, length-snoc xs item) in
              rw e (ground (arith, at (f + length xs) (omega arith), get_elem?-snoc xs item)))
      ]

  Holds-cons :
      qitem_min_seq < f - 1
      → ((d (encode_qsize_key name)) ≡ some (u64_bytes (length xs + 1)))
      → ((a : ℕ)
          → a < 2 ^ 64
          → d (encode_qitem_key name a) ≡ (
              if f - 1 == a
              then some item
              else if qfront_seq == a
              then some (u64_bytes (f - 1))
              else c (encode_qitem_key name a)))
      → Holds d name (f - 1) (item ∷ xs)
  Holds-cons room size at = record {
    nonempty = omega arith;
    low = room;
    high = omega (arith, h.high);
    size = let e : suc (length xs) ≡ length xs + 1 = omega arith in rw e size;
    front = ground (arith, at 2 (omega arith), h.low);
    back =
        let e : f - 1 + suc (length xs) - 1 ≡ f + length xs - 1 = omega arith in
        rw e (ground (arith, at 3 (omega arith), h.back, h.low));
    items = cons_item;
  }
    where
      cons_item :
          (i : ℕ)
          → i < length (item ∷ xs)
          → d (encode_qitem_key name (f - 1 + i)) ≡ get_elem? (item ∷ xs) i
      cons_item zero p =
          let e : f - 1 + 0 ≡ f - 1 = omega arith in
          rw e (ground (arith, at (f - 1) (omega (arith, h.high))))
      cons_item (suc i) p =
          let e : f - 1 + suc i ≡ f + i = omega (arith, h.low) in
          rw e (ground (arith, at (f + i) (omega (arith, h.high)), h.items i (omega arith), h.low))

-- A queue of one item, at the first sequence number that is given out.
pub Holds-singleton :
    (d : Content) (name item : Bytes)
    → d (encode_qsize_key name) ≡ some (u64_bytes 1)
    → d (encode_qitem_key name qfront_seq) ≡ some (u64_bytes qitem_seq_init)
    → d (encode_qitem_key name qback_seq) ≡ some (u64_bytes qitem_seq_init)
    → d (encode_qitem_key name qitem_seq_init) ≡ some item
    → Holds d name qitem_seq_init (item ∷ [])
Holds-singleton d name item size front back at = record {
  nonempty = omega arith;
  low = omega arith;
  high = omega arith;
  size = size;
  front = front;
  back = back;
  items = only_item;
}
  where
    only_item :
        (i : ℕ)
        → i < length (item ∷ [])
        → d (encode_qitem_key name (qitem_seq_init + i)) ≡ get_elem? (item ∷ []) i
    only_item zero p = at
    only_item (suc i) p = absurd (omega arith)

module _ (L : LevelDb) (s : Ssdb L) (healthy : IsHealthy L s.db) (name item : Bytes) (ty f : ℕ)
    (xs : List Bytes) (h : Holds (L.content s.db) name f xs) where
  pub back_seq : seq_outwards L qback_seq (f + length xs - 1) ≡ f + length xs
  back_seq = omega (arith, h.nonempty, h.high)

  pub front_seq : seq_outwards L qfront_seq f ≡ f - 1
  front_seq = omega (arith, h.low, h.high)

  pub at_back : qget_uint64 L s name qback_seq ≡ found (f + length xs - 1)
  at_back = qget_uint64-found L s healthy name qback_seq _ (omega (arith, h.high)) h.back

  pub at_front : qget_uint64 L s name qfront_seq ≡ found f
  at_front = qget_uint64-found L s healthy name qfront_seq f (omega (arith, h.high)) h.front

  size_is : qsize L s name ≡ pos (length xs)
  size_is = qsize-pos L s healthy name (length xs) (omega (arith, h.high)) h.size

  -- In a database without I/O errors, pushing at the back of a queue that has room there returns
  -- the new size, and the queue is the old list with the item at its end.
  pub qpush_back-Holds :
      f + length xs < qitem_max_seq
      → ((qpush_back L name item ty s).0 ≡ pos (length xs + 1))
        × Holds (L.content (qpush_back L name item ty s).1.db) name f (xs ++ item ∷ [])
  unfolding qpush_back
  qpush_back-Holds room = (
    qpush-result L s healthy name item qback_seq ty _ (length xs) at_back size_is
        (omega (arith, h.high)) low room',
    Holds-snoc (L.content s.db) _ name item f xs h room
        (qpush-content_size L s healthy name item qback_seq ty _ (length xs) at_back size_is
          (omega (arith, h.high)) low room')
        (λ a p. rw (
          qpush-content_item L s healthy name item qback_seq ty _ (length xs) at_back size_is
              (omega (arith, h.high)) low room' a (omega arith) p,
          back_seq,
        )),
  )
    where
      low : qitem_min_seq < seq_outwards L qback_seq (f + length xs - 1)
      low = rw back_seq (omega (arith, h.low))

      room' : seq_outwards L qback_seq (f + length xs - 1) < qitem_max_seq
      room' = rw back_seq room

  -- In a database without I/O errors, pushing at the front of a queue that has room there returns
  -- the new size, and the queue is the item followed by the old list.
  pub qpush_front-Holds :
      qitem_min_seq + 1 < f
      → ((qpush_front L name item ty s).0 ≡ pos (length xs + 1))
        × Holds (L.content (qpush_front L name item ty s).1.db) name (f - 1) (item ∷ xs)
  unfolding qpush_front
  qpush_front-Holds room = (
    qpush-result L s healthy name item qfront_seq ty f (length xs) at_front size_is
        (omega (arith, h.high)) low room',
    Holds-cons (L.content s.db) _ name item f xs h (omega arith)
        (qpush-content_size L s healthy name item qfront_seq ty f (length xs) at_front size_is
          (omega (arith, h.high)) low room')
        (λ a p. rw (
          qpush-content_item L s healthy name item qfront_seq ty f (length xs) at_front size_is
              (omega (arith, h.high)) low room' a (omega arith) p,
          front_seq,
        )),
  )
    where
      low : qitem_min_seq < seq_outwards L qfront_seq f
      low = rw front_seq (omega arith)

      room' : seq_outwards L qfront_seq f < qitem_max_seq
      room' = rw front_seq (omega (arith, h.high, h.nonempty))
