-- ===== src/Binlog/CleanerLaws.antt =====
-- del_range, its batches, and the content of the log keys.
use php.Prelude.{
  ℕ, zero, suc, ◌+◌, ◌-◌, ◌^◌, ◌≤◌, ◌<◌, ◌≡◌, refl, sym, ap, ◌∙◌, true, false, ◌&&◌, Option, none,
  some, List, arith, leb, ltb, ◌==◌, if◌then◌else◌, leb→le, Bool-cases, inl, inr,
}
use php.Prelude.Int.{ℤ, pos, u64}
use php.Bytes.{Bytes, eqb}
use php.Bytes.Compare.{eqb_iff}
use php.Keys.{encode_seq_key, decode_seq_key}
use php.Keys.RoundTrip.{decode_seq_key-encode}
use php.LevelDb.{LevelDb, Update, updated}
use php.LevelDb.Laws.{IsHealthy}
use php.Binlog.{minus_one}
use php.Binlog.Cleaner.{del_batch, del_range}

-- The keys of two sequence numbers.
eqb-seq : (a b : ℕ) → a < 2 ^ 64 → b < 2 ^ 64 → eqb (encode_seq_key a) (encode_seq_key b) ≡ (a == b)
eqb-seq a b p q = elim (Bool-cases (eqb (encode_seq_key a) (encode_seq_key b))) [
  | inl y ↦
      let same : encode_seq_key a ≡ encode_seq_key b =
        (eqb_iff (encode_seq_key a) (encode_seq_key b)).0 y in
      let e : a ≡ b =
        sym (decode_seq_key-encode a p) ∙ ap decode_seq_key same ∙ decode_seq_key-encode b q in
      y ∙ ground (arith, e)
  | inr y ↦ elim (Bool-cases (a == b)) [
    | inl z ↦
        let e : a ≡ b = ground (arith, z) in
        cc (y, (eqb_iff (encode_seq_key a) (encode_seq_key b)).1 (ap encode_seq_key e))
    | inr z ↦ y ∙ sym z
  ]
]

-- A batch of deletions ends within the range or just past it, and goes on while there is room.
del_batch-next :
    (count start end : ℕ)
    → end + 1 < 2 ^ 64
    → start ≤ end + 1
    → (start ≤ (del_batch count start end).1) × ((del_batch count start end).1 ≤ end + 1)
unfolding del_batch
del_batch-next zero start end h p = (omega arith, p)
del_batch-next (suc count) start end h p = elim (Bool-cases (leb start end)) [
  | inl y ↦
      let wrap : u64 (start + 1) ≡ start + 1 = ground (arith, y, h) in
      let (a, b) = del_batch-next count (u64 (start + 1)) end h (ground (arith, y, wrap)) in
      rw (del_batch, y) (omega (arith, a, wrap), b)
  | inr y ↦ rw (del_batch, y) (omega arith, p)
]

del_batch-updated :
    (count start end m : ℕ) (o : Option Bytes)
    → end + 1 < 2 ^ 64
    → start ≤ end + 1
    → m < 2 ^ 64
    → updated (del_batch count start end).0 (encode_seq_key m) o
      ≡ (if leb start m && ltb m (del_batch count start end).1 then none else o)
unfolding del_batch
del_batch-updated zero start end m o h p q = ground arith
del_batch-updated (suc count) start end m o h p q = elim (Bool-cases (leb start end)) [
  | inl y ↦
      let wrap : u64 (start + 1) ≡ start + 1 = ground (arith, y, h) in
      let below : u64 (start + 1) ≤ end + 1 = ground (arith, y, wrap) in
      let (a, b) = del_batch-next count (u64 (start + 1)) end h below in
      let o' = if eqb (encode_seq_key start) (encode_seq_key m) then none else o in
      let first : eqb (encode_seq_key start) (encode_seq_key m) ≡ (start == m) =
        eqb-seq start m (omega (arith, p, h)) q in
      let rest = del_batch-updated count (u64 (start + 1)) end m o' h below q in
      rw (del_batch, y) (rest ∙ rw (first, wrap) (ground (arith, rw wrap at a)))
  | inr y ↦ rw (del_batch, y) (ground arith)
]

-- A range and the one after it.
ranges :
    (start next end m : ℕ) (o : Option Bytes)
    → start ≤ next
    → next ≤ end + 1
    → (if leb next m && leb m end then none else (if leb start m && ltb m next then none else o))
      ≡ (if leb start m && leb m end then none else o)
ranges start next end m o p q = ground arith

no_range :
    (start end m : ℕ) (o : Option Bytes)
    → leb start end ≡ false
    → o ≡ (if leb start m && leb m end then none else o)
no_range start end m o h = ground arith

-- A batch with room for one takes the first of the range.
del_batch-more :
    (count start end : ℕ)
    → end + 1 < 2 ^ 64
    → start ≤ end
    → start + 1 ≤ (del_batch (suc count) start end).1
unfolding del_batch
del_batch-more count start end h p =
    let y : leb start end ≡ true = ground (arith, p) in
    let wrap : u64 (start + 1) ≡ start + 1 = omega (arith, p, h) in
    let (a, b) = del_batch-next count (u64 (start + 1)) end h (omega (arith, p, wrap)) in
    rw (del_batch, y) (omega (arith, a, wrap))

module _ (L : LevelDb) (healthy : (d : L.Db) → IsHealthy L d) where
  -- A round of del_range, from its batch.
  abbrev round : ℕ → ℕ → ℕ → L.Db → List Update × ℕ → Option ℤ × L.Db
  round fuel start end d x =
      let (ok, written) = L.write d x.0 in
      let rest = del_range L fuel x.1 end written in
      if leb start end then (if ok then rest else (some minus_one, written)) else (some (pos 0), d)

  abbrev Deleted : ℕ → ℕ → ℕ → L.Db → Option ℤ × L.Db → Type 0
  Deleted start end m d y =
      (y.0 ≡ some (pos 0))
      × (L.content y.1 (encode_seq_key m)
          ≡ (if leb start m && leb m end then none else L.content d (encode_seq_key m)))

  round-Deleted :
      (fuel start end : ℕ) (d : L.Db) (m : ℕ) (x : List Update × ℕ)
      → (start ≤ x.1)
      → (x.1 ≤ end + 1)
      → ((o : Option Bytes)
          → updated x.0 (encode_seq_key m) o ≡ (if leb start m && ltb m x.1 then none else o))
      → (start ≤ end
          → Deleted x.1 end m (L.write d x.0).1 (del_range L fuel x.1 end (L.write d x.0).1))
      → Deleted start end m d (round fuel start end d x)
  round-Deleted fuel start end d m x a b up rest = elim (Bool-cases (leb start end)) [
    | inl y ↦
        let ok : (L.write d x.0).0 ≡ true = (healthy d).writes x.0 in
        let (r, c) = rest (leb→le start end y) in
        let held : L.content (L.write d x.0).1 (encode_seq_key m)
            ≡ (if leb start m && ltb m x.1 then none else L.content d (encode_seq_key m)) =
          L.content-write d x.0 ok (encode_seq_key m) ∙ up (L.content d (encode_seq_key m)) in
        rw (y, ok) (r, c ∙ rw held (ranges start x.1 end m (L.content d (encode_seq_key m)) a b))
    | inr y ↦ rw y (refl, no_range start end m (L.content d (encode_seq_key m)) y)
  ]

  -- Where no write meets an error, with fuel for more rounds than there are numbers in the range,
  -- del_range deletes the records of the numbers from start to end, and of no other number, and
  -- returns 0; the range ends before 2^64 - 1.
  pub del_range-content :
      (fuel start end : ℕ) (d : L.Db) (m : ℕ)
      → end + 1 < 2 ^ 64
      → start ≤ end + 1
      → end + 1 - start < fuel
      → m < 2 ^ 64
      → ((del_range L fuel start end d).0 ≡ some (pos 0))
        × (L.content (del_range L fuel start end d).1 (encode_seq_key m)
            ≡ (if leb start m && leb m end then none else L.content d (encode_seq_key m)))
  unfolding del_range
  del_range-content zero start end d m h p f q = absurd (omega (arith, f))
  del_range-content (suc fuel) start end d m h p f q =
      let (a, b) = del_batch-next 1000 start end h p in
      round-Deleted fuel start end d m (del_batch 1000 start end) a b
        (λ o. del_batch-updated 1000 start end m o h p q)
        (λ y.
          (let more = del_batch-more 999 start end h y in
            del_range-content fuel (del_batch 1000 start end).1 end
              (L.write d (del_batch 1000 start end).0).1 m h b (omega (arith, more, f, b)) q))
