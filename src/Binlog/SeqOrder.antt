-- ===== src/Binlog/SeqOrder.antt =====
-- The order of the log keys, and the first of sorted entries from a key on.
use php.Prelude.{
  ℕ, ◌^◌, ◌≤◌, ◌<◌, ◌≡◌, refl, sym, ap, ◌∙◌, true, false, some, List, [], ◌∷◌, arith, ltb,
  Bool-cases, inl, inr,
}
use php.Bytes.{Bytes, eqb}
use php.Bytes.Compare.{eqb_iff, compare-eq-lex}
use php.Bytes.Order.{lt, lt_irrefl, lt_asym, lt_total, is_lt}
use php.Keys.{encode_seq_key}
use php.Keys.Order.{compare-seq}
use php.LevelDb.Iterators.{Entry, AllAfter, IsSorted, find, from, head}

pub lt-seq :
    (a b : ℕ) → a < 2 ^ 64 → b < 2 ^ 64 → lt (encode_seq_key a) (encode_seq_key b) ≡ ltb a b
lt-seq a b p q =
    ap is_lt
      (sym (compare-eq-lex (encode_seq_key a) (encode_seq_key b)) ∙ (compare-seq [] a b p q).1)
    ∙ ground arith

find-AllAfter-lt :
    (k j v : Bytes) (es : List Entry) → AllAfter k es → find es j ≡ some v → lt k j ≡ true
find-AllAfter-lt k j v [] a f = cc f
find-AllAfter-lt k j v (e ∷ es) (b, a) f = elim (Bool-cases (eqb e.0 j)) [
  | inl y ↦ rw (sym ((eqb_iff e.0 j).0 y)) b
  | inr y ↦ find-AllAfter-lt k j v es a (rw y at f)
]

-- The first of sorted entries from a key on is no later than any other of them.
pub first-least :
    (k : Bytes) (es : List Entry) (j v : Bytes)
    → IsSorted es
    → lt j k ≡ false
    → find es j ≡ some v
    → (e : Entry) × ((head (from k es) ≡ some e)
        × (find es e.0 ≡ some e.1)
        × (lt e.0 k ≡ false)
        × (lt j e.0 ≡ false))
first-least k [] j v s h f = cc f
first-least k (e ∷ es) j v (a, s) h f = elim (Bool-cases (lt e.0 k)) [
  | inl x ↦ elim (Bool-cases (eqb e.0 j)) [
    | inl y ↦ let same : e.0 ≡ j = (eqb_iff e.0 j).0 y in cc (rw same at x, h)
    | inr y ↦
        let (g, (at, own, low, least)) = first-least k es j v s h (rw y at f) in
        let other : eqb e.0 g.0 ≡ false = elim (Bool-cases (eqb e.0 g.0)) [
          | inl z ↦ let same : e.0 ≡ g.0 = (eqb_iff e.0 g.0).0 z in cc (rw same at x, low)
          | inr z ↦ z
        ] in
        rw x (g, (at, rw other own, low, least))
  ]
  | inr x ↦
      let here : eqb e.0 e.0 ≡ true = (eqb_iff e.0 e.0).1 refl in
      let least : lt j e.0 ≡ false = elim (Bool-cases (eqb e.0 j)) [
        | inl y ↦ rw ((eqb_iff e.0 j).0 y) (lt_irrefl j)
        | inr y ↦ lt_asym e.0 j (find-AllAfter-lt e.0 j v es a (rw y at f))
      ] in
      rw x (e, (refl, rw here refl, x, least))
]

pub below_le : (a b : ℕ) → ltb a b ≡ false → b ≤ a
below_le a b h = ground (arith, h)

pub not_below : (a b : ℕ) → a ≤ b → ltb b a ≡ false
not_below a b h = ground (arith, h)

pub flip : (a b : Bytes) → eqb a b ≡ false → eqb b a ≡ false
flip a b h = elim (Bool-cases (eqb b a)) [
  | inl y ↦ cc (h, (eqb_iff a b).1 (sym ((eqb_iff b a).0 y)))
  | inr y ↦ y
]

-- Of two strings that are not equal, one stands before the other.
pub lt_of_ne : (a b : Bytes) → lt b a ≡ false → eqb a b ≡ false → lt a b ≡ true
lt_of_ne a b h ne = elim (Bool-cases (lt a b)) [
  | inl y ↦ y
  | inr y ↦ cc (ne, (eqb_iff a b).1 (lt_total a b y h))
]
