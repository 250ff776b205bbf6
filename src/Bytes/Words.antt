-- ===== src/Bytes/Words.antt =====
-- util/strings.h `big_endian`, and words in memory: the host is little endian.
use Prim.Native.Nat.{compare as compare_ℕ, Ordering}
use native.Mathlib.Numerals.{towards_suc}
use native.Mathlib.Nat.{pow-suc, div-add-mod, div-div-eq-div-mul}
use php.Prelude.{
  ℕ, zero, suc, ◌+◌, ◌*◌, ◌/◌, ◌%◌, ◌^◌, ◌<◌, ◌≤◌, ◌≡◌, ap, sym, ◌∙◌, refl, [], ◌∷◌, arith, length,
}
use php.Bytes.{Bytes, AreBytes, or_else}
use php.Bytes.Compare.{lex, lex-eq_iff}

-- big_endian(uint32_t): the four masked shifts fill disjoint bytes, so their `|` is the sum.
unfoldable pub big_endian32 : ℕ → ℕ
big_endian32 v =
    v / 2 ^ 24 + v / 2 ^ 16 % 2 ^ 8 * 2 ^ 8 + v / 2 ^ 8 % 2 ^ 8 * 2 ^ 16 + v % 2 ^ 8 * 2 ^ 24

-- big_endian(uint64_t): the two halves are swapped, each of them turned round.
unfoldable pub big_endian : ℕ → ℕ
big_endian v =
    let h = v / 2 ^ 32 % 2 ^ 32 in let l = v % 2 ^ 32 in big_endian32 h + big_endian32 l * 2 ^ 32

-- The k bytes of a word in memory, the lowest first.
unfoldable pub le_bytes : ℕ → ℕ → Bytes
le_bytes zero v = []
le_bytes (suc k) v = (v % 2 ^ 8) ∷ le_bytes k (v / 2 ^ 8)

-- `buf.append((char *)&v, sizeof(uint64_t))`.
abbrev pub u64_bytes : ℕ → Bytes
u64_bytes v = le_bytes 8 v

-- *(uint64_t *)p, over the bytes in memory.
unfoldable pub le_word : Bytes → ℕ
le_word [] = 0
le_word (b ∷ s) = b + le_word s * 2 ^ 8

pub big_endian32-lt : (v : ℕ) → v < 2 ^ 32 → big_endian32 v < 2 ^ 32
unfolding big_endian32
big_endian32-lt v h = omega arith

pub big_endian32-big_endian32 : (v : ℕ) → v < 2 ^ 32 → big_endian32 (big_endian32 v) ≡ v
unfolding big_endian32
big_endian32-big_endian32 v h = omega arith

halves :
    (h l : ℕ)
    → h < 2 ^ 32
    → l < 2 ^ 32
    → ((h + l * 2 ^ 32) / 2 ^ 32 % 2 ^ 32 ≡ l) × ((h + l * 2 ^ 32) % 2 ^ 32 ≡ h)
halves h l p q = omega arith

pub big_endian-lt : (v : ℕ) → big_endian v < 2 ^ 64
unfolding big_endian
big_endian-lt v = omega (arith, big_endian32-lt (v / 2 ^ 32 % 2 ^ 32), big_endian32-lt (v % 2 ^ 32))

pub big_endian-big_endian : (v : ℕ) → v < 2 ^ 64 → big_endian (big_endian v) ≡ v
unfolding big_endian
big_endian-big_endian v p =
    let a = big_endian32 (v / 2 ^ 32 % 2 ^ 32) in
    let b = big_endian32 (v % 2 ^ 32) in
    let la : a < 2 ^ 32 = big_endian32-lt (v / 2 ^ 32 % 2 ^ 32) (omega arith) in
    let lb : b < 2 ^ 32 = big_endian32-lt (v % 2 ^ 32) (omega arith) in
    rw ((halves a b la lb).0, (halves a b la lb).1)
      (omega (
        arith,
        big_endian32-big_endian32 (v / 2 ^ 32 % 2 ^ 32) (omega arith),
        big_endian32-big_endian32 (v % 2 ^ 32) (omega arith),
      ))

pub length-le_bytes : (k v : ℕ) → length (le_bytes k v) ≡ k
unfolding le_bytes
length-le_bytes zero v = refl
length-le_bytes (suc k) v = ap suc (length-le_bytes k (v / 2 ^ 8))

pub le_word-u64_bytes : (v : ℕ) → v < 2 ^ 64 → le_word (u64_bytes v) ≡ v
unfolding le_word le_bytes
le_word-u64_bytes v h = omega arith

pub le_bytes-AreBytes : (k v : ℕ) → AreBytes (le_bytes k v)
unfolding le_bytes
le_bytes-AreBytes zero v = tt
le_bytes-AreBytes (suc k) v = (omega arith, le_bytes-AreBytes k (v / 2 ^ 8))

-- The k bytes of a number, the highest first.
abbrev pub be_bytes : ℕ → ℕ → Bytes
be_bytes zero v = []
be_bytes (suc k) v = (v / 2 ^ (8 * k) % 2 ^ 8) ∷ be_bytes k v

-- Swapped, a word lies in memory with its highest byte first.
pub u64_bytes-big_endian : (v : ℕ) → v < 2 ^ 64 → u64_bytes (big_endian v) ≡ be_bytes 8 v
unfolding le_bytes big_endian big_endian32
u64_bytes-big_endian v h = ground arith

mul_mono : (m a b : ℕ) → a < b → a * m + m ≤ b * m
mul_mono m a b h = grind arith

compare-digits :
    (m a b r s : ℕ)
    → r < m
    → s < m
    → or_else (compare_ℕ a b) (compare_ℕ r s) ≡ compare_ℕ (a * m + r) (b * m + s)
compare-digits m a b r s p q = ground (arith, mul_mono m a b, mul_mono m b a)

pow_add_eight : (n : ℕ) → 2 ^ (n + 8) ≡ 2 ^ n * 256
pow_add_eight n = simp towards_suc (simp pow-suc (omega arith))

pow_step : (k : ℕ) → 2 ^ (8 * suc k) ≡ 2 ^ (8 * k) * 256
pow_step k = let e : 8 * suc k ≡ 8 * k + 8 = omega arith in rw e (pow_add_eight (8 * k))

mod_step : (m a : ℕ) → a % (m * 256) ≡ a / m % 256 * m + a % m
mod_step m a = omega (
  arith,
  div-add-mod a (m * 256),
  div-div-eq-div-mul a m 256,
  div-add-mod a m,
  ap (λ t. m * t) (div-add-mod (a / m) 256),
  ap (λ t. m * t) (div-div-eq-div-mul a m 256),
)

pow_pos : (n : ℕ) → 0 < 2 ^ n
pow_pos zero = omega arith
pow_pos (suc n) = rw pow-suc (omega (arith, pow_pos n))

mod_below : (k a : ℕ) → a % 2 ^ (8 * k) < 2 ^ (8 * k)
mod_below k a = omega (arith, pow_pos (8 * k))

-- Their lexicographic order is the order of the words.
pub lex-be_bytes :
    (k a b : ℕ) → lex (be_bytes k a) (be_bytes k b) ≡ compare_ℕ (a % 2 ^ (8 * k)) (b % 2 ^ (8 * k))
lex-be_bytes zero a b = ground arith
lex-be_bytes (suc k) a b =
    rw (lex-be_bytes k a b, pow_step k, mod_step (2 ^ (8 * k)) a, mod_step (2 ^ (8 * k)) b)
      (compare-digits (2 ^ (8 * k)) _ _ _ _ (mod_below k a) (mod_below k b))

compare-eq : (a b : ℕ) → compare_ℕ a b ≡ Ordering.eq → a ≡ b
compare-eq a b h = ground arith

-- The bytes of a word are equal only for equal words.
pub be_bytes-injective : (a b : ℕ) → a < 2 ^ 64 → b < 2 ^ 64 → be_bytes 8 a ≡ be_bytes 8 b → a ≡ b
be_bytes-injective a b p q e =
    let c : compare_ℕ (a % 2 ^ 64) (b % 2 ^ 64) ≡ Ordering.eq =
      sym (lex-be_bytes 8 a b) ∙ (lex-eq_iff (be_bytes 8 a) (be_bytes 8 b)).1 e in
    omega (arith, compare-eq _ _ c)

pub length-be_bytes : (k v : ℕ) → length (be_bytes k v) ≡ k
length-be_bytes zero v = refl
length-be_bytes (suc k) v = ap suc (length-be_bytes k v)
