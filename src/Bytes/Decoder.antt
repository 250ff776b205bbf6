-- ===== src/Bytes/Decoder.antt =====
-- util/bytes.h `Decoder`: its state (p, size) is the string of the bytes that are left. Each
-- reader returns what it read and the new state, and `none` where the source returns -1.
use php.Prelude.{
  ℕ, ◌≡◌, ◌++◌, refl, Option, none, some, [], ◌∷◌, length, take, drop, ltb, if◌then◌else◌,
}
use php.Bytes.{Bytes}
use php.Bytes.Words.{le_word}

abbrev pub Read {ℓ} : Type ℓ → Type ℓ
Read A = Option (A × Bytes)

infixl 5 ◌>>=◌
abbrev pub ◌>>=◌ {ℓ κ} : {A : Type ℓ} {B : Type κ} → Option A → (A → Option B) → Option B
none >>= f = none
some a >>= f = f a

-- Decoder::skip
unfoldable pub skip : ℕ → Bytes → Option Bytes
skip n p = if ltb (length p) n then none else some (drop n p)

-- Decoder::read_int64 and read_uint64: the eight bytes as a word.
unfoldable pub read_uint64 : Bytes → Read ℕ
read_uint64 p = if ltb (length p) 8 then none else some (le_word (take 8 p), drop 8 p)

-- Decoder::read_data: all that is left.
unfoldable pub read_data : Bytes → Read Bytes
read_data p = some (p, [])

-- Decoder::read_8_data: a byte with the length, then so many bytes.
unfoldable pub read_8_data : Bytes → Read Bytes
read_8_data [] = none
read_8_data (len ∷ p) = if ltb (length p) len then none else some (take len p, drop len p)

pub take-append : (a s : Bytes) → take (length a) (a ++ s) ≡ a
take-append [] s = refl
take-append (x ∷ a) s = rw (take-append a s)

pub drop-append : (a s : Bytes) → drop (length a) (a ++ s) ≡ s
drop-append [] s = refl
drop-append (x ∷ a) s = drop-append a s
