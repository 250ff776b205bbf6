-- ===== src/Queue/AccessModel.antt =====
-- Reading by index: qget and qslice answer the items of the list that the queue represents.
use php.Prelude.{
  ℕ, zero, suc, ◌+◌, ◌-◌, ◌≤◌, ◌<◌, ◌≡◌, refl, ap, ◌∙◌, some, List, [], ◌∷◌, arith, length,
  get_elem?, take, drop,
}
use php.Prelude.Int.{ℤ, pos, negsuc}
use php.Bytes.{Bytes}
use php.LevelDb.{LevelDb, found}
use php.LevelDb.Laws.{IsHealthy, reading}
use php.Binlog.{Ssdb}
use php.Queue.{qget_uint64, qget_by_seq}
use php.Queue.Const.{qfront_seq, qback_seq}
use php.Queue.Access.{qpeek, qfront, qback, seq_at, qget, slice_bounds, qslice_loop, qslice}
use php.Queue.Model.{Holds, qget_by_seq-content, qget_uint64-found}

-- The position that an index names in a list of n items, and when it names one.
abbrev pub position : ℕ → ℤ → ℕ
position n (pos i) = i
position n (negsuc i) = n - 1 - i

abbrev pub InRange : ℕ → ℤ → Type 0
InRange n (pos i) = i < n
InRange n (negsuc i) = i < n

pub position-lt : (n : ℕ) (z : ℤ) → InRange n z → position n z < n
position-lt n (pos i) h = h
position-lt n (negsuc i) h = omega arith

pub get_elem?-is_some :
    (xs : List Bytes) (i : ℕ) → i < length xs → (x : Bytes) × (get_elem? xs i ≡ some x)
get_elem?-is_some [] i h = elim h [ ]
get_elem?-is_some (x ∷ xs) zero h = (x, refl)
get_elem?-is_some (x ∷ xs) (suc i) h = get_elem?-is_some xs i (omega arith)

take-drop :
    (xs : List Bytes) (n i : ℕ) (x : Bytes)
    → get_elem? xs i ≡ some x
    → take (suc n) (drop i xs) ≡ x ∷ take n (drop (suc i) xs)
take-drop [] n i x h = cc
take-drop (y ∷ ys) n zero x h = ground arith
take-drop (y ∷ ys) n (suc i) x h = take-drop ys n i x h

module _ (L : LevelDb) (s : Ssdb L) (healthy : IsHealthy L s.db) (name : Bytes) (f : ℕ)
    (xs : List Bytes) (h : Holds (L.content s.db) name f xs) where
  pub front_is : qget_uint64 L s name qfront_seq ≡ found f
  front_is = qget_uint64-found L s healthy name qfront_seq f (omega (arith, h.high)) h.front

  pub back_is : qget_uint64 L s name qback_seq ≡ found (f + length xs - 1)
  back_is =
      qget_uint64-found L s healthy name qback_seq (f + length xs - 1) (omega (arith, h.high))
        h.back

  pub item_is : (i : ℕ) → i < length xs → qget_by_seq L s name (f + i) ≡ reading (get_elem? xs i)
  item_is i p = qget_by_seq-content L s healthy name (f + i) ∙ ap reading (h.items i p)

  pub seq_at-Holds :
      (z : ℤ) → InRange (length xs) z → seq_at L s name z ≡ found (f + position (length xs) z)
  unfolding seq_at
  seq_at-Holds (pos i) p = ground (arith, front_is, h.high)
  seq_at-Holds (negsuc i) p = ground (arith, back_is, h.high, h.low)

  -- Without I/O errors, qget answers the item at the index, which counts from the back where it is
  -- negative; qfront and qback answer the first and the last item.
  pub qget-Holds :
      (z : ℤ)
      → InRange (length xs) z
      → (qget L s name z ≡ reading (get_elem? xs (position (length xs) z)))
        × (qfront L s name ≡ reading (get_elem? xs 0))
        × (qback L s name ≡ reading (get_elem? xs (length xs - 1)))
  unfolding qget qpeek qfront qback
  qget-Holds z p =
      let e : f + length xs - 1 ≡ f + (length xs - 1) = omega (arith, h.nonempty) in
      let e' : f + 0 ≡ f = omega arith in
      (
        ground (
          arith,
          seq_at-Holds z p,
          item_is (position (length xs) z) (position-lt (length xs) z p),
        ),
        ground (arith, front_is, rw e' at (item_is 0 h.nonempty)),
        ground (arith, back_is, e, item_is (length xs - 1) (omega (arith, h.nonempty))),
      )

  slice_bounds-Holds :
      (b e : ℤ)
      → InRange (length xs) b
      → InRange (length xs) e
      → slice_bounds L s name b e ≡ found (f + position (length xs) b, f + position (length xs) e)
  unfolding slice_bounds
  slice_bounds-Holds (pos b) (pos e) p q = ground (arith, front_is, h.high)
  slice_bounds-Holds (pos b) (negsuc e) p q = ground (arith, front_is, back_is, h.high, h.low)
  slice_bounds-Holds (negsuc b) (pos e) p q = ground (arith, front_is, back_is, h.high, h.low)
  slice_bounds-Holds (negsuc b) (negsuc e) p q = ground (arith, back_is, h.high, h.low)

  qslice_loop-Holds :
      (n i : ℕ) → i + n ≤ length xs → qslice_loop L n s name (f + i) ≡ (pos 0, take n (drop i xs))
  unfolding qslice_loop
  qslice_loop-Holds zero i p = refl
  qslice_loop-Holds (suc n) i p =
      let (x, e) = get_elem?-is_some xs i (omega arith) in
      let next : f + i + 1 ≡ f + suc i = omega arith in
      let rest : qslice_loop L n s name (f + i + 1) ≡ (pos 0, take n (drop (suc i) xs)) =
        rw next (qslice_loop-Holds n (suc i) (omega arith)) in
      ground (arith, item_is i (omega arith), take-drop xs n i x e)

  -- Without I/O errors, for two indexes in range, of either sign, qslice answers 0 and the items
  -- from the first index to the second, both included; none, where the second lies before the first.
  pub qslice-Holds :
      (b e : ℤ)
      → InRange (length xs) b
      → InRange (length xs) e
      → qslice L s name b e ≡ (
        pos 0,
        take
            (position (length xs) e + 1 - position (length xs) b)
            (drop (position (length xs) b) xs),
      )
  unfolding qslice
  qslice-Holds b e p q =
      let i = position (length xs) b in
      let j = position (length xs) e in
      let n : f + j + 1 - (f + i) ≡ j + 1 - i = omega arith in
      let within : i + (j + 1 - i) ≤ length xs =
        omega (arith, position-lt (length xs) b p, position-lt (length xs) e q) in
      let items : qslice_loop L (f + j + 1 - (f + i)) s name (f + i)
          ≡ (pos 0, take (j + 1 - i) (drop i xs)) =
        rw n (qslice_loop-Holds (j + 1 - i) i within) in
      ground (arith, slice_bounds-Holds b e p q)
