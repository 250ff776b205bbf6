-- ===== src/Queue/PopModel.antt =====
-- A pop takes the item at its end off the list that the queue represents.
use php.Prelude.{
  ℕ, suc, ◌+◌, ◌-◌, ◌^◌, ◌<◌, ◌≡◌, ap, ◌∙◌, none, some, List, [], ◌∷◌, ◌++◌, arith, length,
  if◌then◌else◌, ◌==◌,
}
use php.Prelude.Int.{pos}
use php.Bytes.{Bytes}
use php.Bytes.Words.{u64_bytes}
use php.Keys.{encode_qsize_key, encode_qitem_key}
use php.LevelDb.{LevelDb, found, missing}
use php.LevelDb.Laws.{IsHealthy, reading}
use php.Binlog.{Ssdb, begin, transaction}
use php.Queue.{qsize, qget_uint64, qget_by_seq, seq_inwards}
use php.Queue.Const.{qfront_seq, qback_seq}
use php.Queue.Pop.{qpop, qpop_body, qpop_from, qpop_front, qpop_back}
use php.Queue.Model.{
  Content, Holds, Represents, qget_by_seq-content, qget_uint64-found, qget_uint64-missing,
  qsize-pos,
}
use php.Queue.PushModel.{length-snoc, get_elem?-append, get_elem?-snoc}
use php.Queue.Take.{
  qpop_lem, qpop-content_size, qpop-content_item, qpop_last_lem, qpop_last-IsVacant,
}

module _ (c d : Content) (name x : Bytes) (f : ℕ) (xs : List Bytes) (left : 0 < length xs) where
  Holds-tail :
      Holds c name f (x ∷ xs)
      → d (encode_qsize_key name) ≡ some (u64_bytes (length xs))
      → ((a : ℕ)
          → a < 2 ^ 64
          → d (encode_qitem_key name a) ≡ (
              if qfront_seq == a
              then some (u64_bytes (f + 1))
              else if f == a
              then none
              else c (encode_qitem_key name a)))
      → Holds d name (f + 1) xs
  Holds-tail h size at = record {
    nonempty = left;
    low = omega (arith, h.low);
    high = omega (arith, h.high);
    size = size;
    front = ground (arith, at 2 (omega arith));
    back =
        let e : f + 1 + length xs - 1 ≡ f + suc (length xs) - 1 = omega arith in
        rw e (ground (arith, at 3 (omega arith), h.back, h.low));
    items = λ i p.
        let e : f + 1 + i ≡ f + suc i = omega arith in
        rw e (
          ground
            (arith, at (f + suc i) (omega (arith, h.high)), h.items (suc i) (omega arith), h.low));
  }

  Holds-init :
      Holds c name f (xs ++ x ∷ [])
      → d (encode_qsize_key name) ≡ some (u64_bytes (length xs))
      → ((a : ℕ)
          → a < 2 ^ 64
          → d (encode_qitem_key name a) ≡ (
              if qback_seq == a
              then some (u64_bytes (f + length xs - 1))
              else if f + length xs == a
              then none
              else c (encode_qitem_key name a)))
      → Holds d name f xs
  Holds-init h size at = record {
    nonempty = left;
    low = h.low;
    high = omega (arith, h.high, length-snoc xs x);
    size = size;
    front = ground (arith, at 2 (omega arith), h.front, h.low);
    back = ground (arith, at 3 (omega arith), h.low);
    items = λ i p. ground (
      arith,
      at (f + i) (omega (arith, h.high, length-snoc xs x)),
      h.items i (omega (arith, length-snoc xs x)),
      h.low,
      get_elem?-append xs (x ∷ []) i p,
    );
  }

module _ (L : LevelDb) (s : Ssdb L) (healthy : IsHealthy L s.db) (name : Bytes) (ty : ℕ) where
  -- A pop finds nothing at either end of a queue that is not there: the result is 0.
  pub qpop-IsVacant :
      (side : ℕ)
      → L.content s.db (encode_qitem_key name side) ≡ none
      → ((qpop L name side ty s).0 ≡ (pos 0, none)) × ((qpop L name side ty s).1.db ≡ s.db)
  unfolding qpop qpop_body qpop_from transaction
  qpop-IsVacant side e =
      let m : qget_uint64 L (record s { logs = begin s.logs }) name side ≡ missing =
        qget_uint64-missing L (record s { logs = begin s.logs }) healthy name side e in
      ground arith

  module _ (f : ℕ) (x : Bytes) (xs : List Bytes) (h : Holds (L.content s.db) name f (x ∷ xs)) where
    at_front : qget_uint64 L s name qfront_seq ≡ found f
    at_front = qget_uint64-found L s healthy name qfront_seq f (omega (arith, h.high)) h.front

    first_item : qget_by_seq L s name f ≡ found x
    first_item =
        let e : f + 0 ≡ f = omega arith in
        qget_by_seq-content L s healthy name f ∙ ap reading (rw e at (h.items 0 (omega arith)))

    size_is : qsize L s name ≡ pos (suc (length xs))
    size_is = qsize-pos L s healthy name (suc (length xs)) (omega (arith, h.high)) h.size

    after_front : seq_inwards L qfront_seq f ≡ f + 1
    after_front = omega (arith, h.high)

  module _ (f : ℕ) (x : Bytes) (xs : List Bytes)
      (h : Holds (L.content s.db) name f (xs ++ x ∷ [])) where
    at_back : qget_uint64 L s name qback_seq ≡ found (f + length xs)
    at_back =
        let e : f + length (xs ++ x ∷ []) - 1 ≡ f + length xs = omega (arith, length-snoc xs x) in
        qget_uint64-found L s healthy name qback_seq (f + length xs)
          (omega (arith, h.high, length-snoc xs x)) (rw e at h.back)

    last_item : qget_by_seq L s name (f + length xs) ≡ found x
    last_item =
        qget_by_seq-content L s healthy name (f + length xs)
        ∙ ap reading (h.items (length xs) (omega (arith, length-snoc xs x)) ∙ get_elem?-snoc xs x)

    size_back : qsize L s name ≡ pos (length xs + 1)
    size_back =
        qsize-pos L s healthy name (length xs + 1) (omega (arith, h.high, length-snoc xs x))
          (rw (length-snoc xs x) at h.size)

    after_back : seq_inwards L qback_seq (f + length xs) ≡ f + length xs - 1
    after_back = omega (arith, h.low, h.high, length-snoc xs x)

  pub qpop_front-Holds :
      (f : ℕ) (x y : Bytes) (ys : List Bytes)
      → Holds (L.content s.db) name f (x ∷ y ∷ ys)
      → ((qpop_front L name ty s).0 ≡ (pos 1, some x))
        × Holds (L.content (qpop_front L name ty s).1.db) name (f + 1) (y ∷ ys)
  unfolding qpop_front
  qpop_front-Holds f x y ys h =
      let at = at_front f x (y ∷ ys) h in
      let it = first_item f x (y ∷ ys) h in
      let size = size_is f x (y ∷ ys) h in
      let fits : suc (suc (length ys)) < 2 ^ 63 = omega (arith, h.high) in
      (
        qpop_lem L s healthy name x qfront_seq ty f at it (length ys) size fits,
        Holds-tail (L.content s.db) _ name x f (y ∷ ys) (omega arith) h
            (qpop-content_size L s healthy name x qfront_seq ty f at it (length ys) size fits)
            (λ a p. rw (
              qpop-content_item L s healthy name x qfront_seq ty f at it (length ys) size fits a
                  (omega arith) (omega (arith, h.high)) p,
              after_front f x (y ∷ ys) h,
            )),
      )

  -- In a database without I/O errors, popping the front of a queue answers its first item and
  -- leaves the rest, which is no queue at all after the last item.
  pub qpop_front-Represents :
      (x : Bytes) (xs : List Bytes)
      → Represents (L.content s.db) name (x ∷ xs)
      → ((qpop_front L name ty s).0 ≡ (pos 1, some x))
        × Represents (L.content (qpop_front L name ty s).1.db) name xs
  unfolding qpop_front
  qpop_front-Represents x [] (f, h) = (
    qpop_last_lem L s healthy name x qfront_seq ty f (at_front f x [] h) (first_item f x [] h)
        (size_is f x [] h),
    qpop_last-IsVacant L s healthy name x qfront_seq ty f (at_front f x [] h) (first_item f x [] h)
        (size_is f x [] h),
  )
  qpop_front-Represents x (y ∷ ys) (f, h) =
      let (r, held) = qpop_front-Holds f x y ys h in (r, (f + 1, held))

  pub qpop_back-Holds :
      (f : ℕ) (x y : Bytes) (ys : List Bytes)
      → Holds (L.content s.db) name f ((y ∷ ys) ++ x ∷ [])
      → ((qpop_back L name ty s).0 ≡ (pos 1, some x))
        × Holds (L.content (qpop_back L name ty s).1.db) name f (y ∷ ys)
  unfolding qpop_back
  qpop_back-Holds f x y ys h =
      let n = length ys in
      let at = at_back f x (y ∷ ys) h in
      let it = last_item f x (y ∷ ys) h in
      let e : suc n + 1 ≡ suc (suc n) = omega arith in
      let size = rw e at (size_back f x (y ∷ ys) h) in
      let fits : suc (suc n) < 2 ^ 63 = omega (arith, h.high, length-snoc ys x) in
      (
        qpop_lem L s healthy name x qback_seq ty (f + suc n) at it n size fits,
        Holds-init (L.content s.db) _ name x f (y ∷ ys) (omega arith) h
            (qpop-content_size L s healthy name x qback_seq ty (f + suc n) at it n size fits)
            (λ a p. rw (
              qpop-content_item L s healthy name x qback_seq ty (f + suc n) at it n size fits a
                  (omega arith) (omega (arith, h.high, length-snoc ys x)) p,
              after_back f x (y ∷ ys) h,
            )),
      )

  -- In a database without I/O errors, popping the back of a queue answers its last item and leaves
  -- the items before it.
  pub qpop_back-Represents :
      (xs : List Bytes) (x : Bytes)
      → Represents (L.content s.db) name (xs ++ x ∷ [])
      → ((qpop_back L name ty s).0 ≡ (pos 1, some x))
        × Represents (L.content (qpop_back L name ty s).1.db) name xs
  unfolding qpop_back
  qpop_back-Represents [] x (f, h) =
      let e : f + 0 ≡ f = omega arith in
      let at = rw e at (at_back f x [] h) in
      let it = rw e at (last_item f x [] h) in
      (
        qpop_last_lem L s healthy name x qback_seq ty f at it (size_back f x [] h),
        qpop_last-IsVacant L s healthy name x qback_seq ty f at it (size_back f x [] h),
      )
  qpop_back-Represents (y ∷ ys) x (f, h) =
      let (r, held) = qpop_back-Holds f x y ys h in (r, (f, held))
