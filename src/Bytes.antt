-- ===== src/Bytes.antt =====
-- util/bytes.h: the read-only byte string `Bytes` and its comparison. A byte is a number; what
-- depends on its range takes `AreBytes` as a hypothesis.
pub mod Compare
pub mod Order
pub mod Words
pub mod Decoder
use Prim.Native.Nat.{compare as compare_ℕ, Ordering}
use php.Prelude.{
  ℕ, zero, suc, ◌<◌, ◌≡◌, Bool, true, false, ◌&&◌, List, [], ◌∷◌, length, ltb, ◌==◌, if◌then◌else◌,
}

abbrev pub Bytes : Type 0
Bytes = List ℕ

abbrev pub AreBytes : Bytes → Type 0
AreBytes [] = Unit
AreBytes (b ∷ s) = (b < 256) × AreBytes s

-- Bytes::empty
abbrev pub is_empty : Bytes → Bool
is_empty [] = true
is_empty (c ∷ s) = false

-- The sign of memcmp(a, b, n) on two blocks of at least n bytes.
unfoldable pub memcmp : ℕ → Bytes → Bytes → Ordering
memcmp zero a b = Ordering.eq
memcmp (suc n) [] b = Ordering.eq
memcmp (suc n) (x ∷ a) [] = Ordering.eq
memcmp (suc n) (x ∷ a) (y ∷ b) =
    let rest = memcmp n a b in
    elim (compare_ℕ x y) [ Ordering.lt ↦ Ordering.lt | Ordering.gt ↦ Ordering.gt | _ ↦ rest ]

-- `if (r == 0) r = …` of `Bytes::compare`.
abbrev pub or_else : Ordering → Ordering → Ordering
or_else Ordering.lt o = Ordering.lt
or_else Ordering.eq o = o
or_else Ordering.gt o = Ordering.gt

-- Bytes::compare, by its sign.
unfoldable pub compare : Bytes → Bytes → Ordering
unfolding memcmp
compare a b =
    let min_len = if ltb (length a) (length b) then length a else length b in
    or_else (memcmp min_len a b) (compare_ℕ (length a) (length b))

abbrev is_eq : Ordering → Bool
is_eq Ordering.eq = true
is_eq _ = false

-- operator== on Bytes.
unfoldable pub eqb : Bytes → Bytes → Bool
unfolding memcmp
eqb a b = length a == length b && is_eq (memcmp (length a) a b)
