-- ===== src/Strings/Number.antt =====
-- util/strings.h `str` and `str_to_int64`, with what they use of the C library: the decimal output
-- of snprintf, and strtoll in base 10.
use php.Prelude.{
  ℕ, zero, suc, ◌+◌, ◌-◌, ◌*◌, ◌/◌, ◌%◌, ◌^◌, ◌≤◌, ◌<◌, ◌≡◌, refl, ap, Bool, true, false, ◌&&◌,
  ◌||◌, [], ◌∷◌, ◌++◌, arith, ltb, leb, ◌==◌, if◌then◌else◌, Bool-cases, inl, inr, ◌≢◌, ltb→lt,
  length, length-append,
}
use php.Prelude.Int.{ℤ, pos, negsuc, InInt64, i32}
use php.Bytes.{Bytes, is_empty}

-- The decimal digits of n, with fuel above n.
unfoldable pub decimal : ℕ → ℕ → Bytes
decimal zero n = []
decimal (suc f) n =
    let front = decimal f (n / 10) in
    if ltb n 10 then (b'0' + n) ∷ [] else front ++ (b'0' + n % 10) ∷ []

-- str(int64_t)
unfoldable pub str : ℤ → Bytes
str (pos n) = decimal (suc n) n
str (negsuc n) = b'-' ∷ decimal (suc (suc n)) (suc n)

abbrev pub is_digit : ℕ → Bool
is_digit c = leb b'0' c && leb c b'9'

-- isspace in the C locale.
abbrev pub is_space : ℕ → Bool
is_space c = c == 32 || (leb 9 c && leb c 13)

unfoldable pub skip_spaces : Bytes → Bytes
skip_spaces [] = []
skip_spaces (c ∷ s) = let rest = skip_spaces s in if is_space c then rest else c ∷ s

-- The number that the leading digits make, and what follows them.
unfoldable pub read_digits : ℕ → Bytes → ℕ × Bytes
read_digits acc [] = (acc, [])
read_digits acc (c ∷ s) =
    let rest = read_digits (acc * 10 + (c - b'0')) s in if is_digit c then rest else (acc, c ∷ s)

-- Out of range, strtoll answers the nearest end of the range.
abbrev pub clamp : Bool → ℕ → ℤ
clamp false n = if ltb n (2 ^ 63) then pos n else pos (2 ^ 63 - 1)
clamp true zero = pos 0
clamp true (suc n) = if ltb n (2 ^ 63) then negsuc n else negsuc (2 ^ 63 - 1)

-- strtoll after the sign: without a digit the result is 0 and nothing is consumed.
unfoldable pub strtoll_digits : Bytes → Bool → Bytes → ℤ × Bytes
unfolding read_digits
strtoll_digits whole negative [] = (pos 0, whole)
strtoll_digits whole negative (c ∷ s) =
    if is_digit c
    then (let (n, rest) = read_digits 0 (c ∷ s) in (clamp negative n, rest))
    else (pos 0, whole)

unfoldable pub strtoll_sign : Bytes → Bytes → ℤ × Bytes
unfolding strtoll_digits
strtoll_sign whole [] = (pos 0, whole)
strtoll_sign whole (c ∷ s) =
    if c == b'-'
    then strtoll_digits whole true s
    else if c == b'+'
    then strtoll_digits whole false s
    else strtoll_digits whole false (c ∷ s)

-- strtoll(s, &end, 10): the value, and the text from `end` on.
unfoldable pub strtoll : Bytes → ℤ × Bytes
unfolding skip_spaces strtoll_sign
strtoll s = strtoll_sign s (skip_spaces s)

-- strtoull of digits with a sign: out of range it answers the largest number, and a minus sign
-- negates the number as an unsigned one.
abbrev unsigned : Bool → ℕ → ℕ
unsigned negative n =
    if leb (2 ^ 64) n
    then 2 ^ 64 - 1
    else elim negative [ true ↦ (2 ^ 64 - n) % 2 ^ 64 | false ↦ n ]

-- strtoull(s, &end, 10) after the spaces: the value. Without a digit it is 0.
unfoldable pub strtoull_sign : Bytes → ℕ
unfolding read_digits
strtoull_sign [] = 0
strtoull_sign (c ∷ s) =
    if c == b'-'
    then unsigned true (read_digits 0 s).0
    else if c == b'+'
    then unsigned false (read_digits 0 s).0
    else unsigned false (read_digits 0 (c ∷ s)).0

-- str_to_uint64: the value.
unfoldable pub str_to_uint64 : Bytes → ℕ
unfolding skip_spaces strtoull_sign
str_to_uint64 s = strtoull_sign (skip_spaces s)

-- str_to_int64: the value, and whether errno is 0 afterwards, which is whether all was consumed.
unfoldable pub str_to_int64 : Bytes → ℤ × Bool
str_to_int64 s = let (n, rest) = strtoll s in (n, is_empty rest)

-- str_to_int: the value, strtol's cut to an int.
unfoldable pub str_to_int : Bytes → ℤ
unfolding strtoll
str_to_int s = i32 (strtoll s).0

abbrev pub AllDigits : Bytes → Type 0
AllDigits [] = Unit
AllDigits (c ∷ s) = (is_digit c ≡ true) × AllDigits s

pub AllDigits-append : (a b : Bytes) → AllDigits a → AllDigits b → AllDigits (a ++ b)
AllDigits-append [] b p q = q
AllDigits-append (c ∷ a) b p q = (p.0, AllDigits-append a b p.1 q)

read_digits-append :
    (acc : ℕ) (a b : Bytes)
    → AllDigits a
    → read_digits acc (a ++ b) ≡ read_digits (read_digits acc a).0 b
unfolding read_digits
read_digits-append acc [] b p = refl
read_digits-append acc (c ∷ a) b p =
    ground (arith, p.0, read_digits-append (acc * 10 + (c - b'0')) a b p.1)

digit : (d : ℕ) → d < 10 → is_digit (b'0' + d) ≡ true
digit d h = ground arith

pub decimal-AllDigits : (f n : ℕ) → AllDigits (decimal f n)
unfolding decimal
decimal-AllDigits zero n = tt
decimal-AllDigits (suc f) n = elim (Bool-cases (ltb n 10)) [
  | inl e ↦ rw e (digit n (ltb→lt n 10 e), tt)
  | inr e ↦ rw e (
      AllDigits-append (decimal f (n / 10)) ((b'0' + n % 10) ∷ []) (decimal-AllDigits f (n / 10))
        (digit (n % 10) (omega arith), tt))
]

last_digit_of : (a d n : ℕ) → d < 10 → a * 10 + d ≡ n → read_digits a ((b'0' + d) ∷ []) ≡ (n, [])
unfolding read_digits
last_digit_of a d n h e = ground (arith, digit d h)

pub read_digits-decimal : (f n : ℕ) → n < f → read_digits 0 (decimal f n) ≡ (n, [])
unfolding decimal
read_digits-decimal zero n h = elim h [ ]
read_digits-decimal (suc f) n h = elim (Bool-cases (ltb n 10)) [
  | inl e ↦ rw e (last_digit_of 0 n n (ltb→lt n 10 e) (omega arith))
  | inr e ↦
      rw
        (
          e,
          read_digits-append 0 (decimal f (n / 10)) ((b'0' + n % 10) ∷ [])
              (decimal-AllDigits f (n / 10)),
          read_digits-decimal f (n / 10) (ground arith),
        )
        (last_digit_of (n / 10) (n % 10) n (omega arith) (omega arith))
]

pub decimal_ne_nil : (f n : ℕ) → decimal (suc f) n ≢ []
unfolding decimal
decimal_ne_nil f n e = elim (Bool-cases (ltb n 10)) [
  | inl p ↦ cc (rw p at e)
  | inr p ↦ absurd (
      omega (
        arith,
        ap length (rw p at e),
        length-append {0} (decimal f (n / 10)) ((b'0' + n % 10) ∷ []),
      ))
]

pub strtoll-digits :
    (s : Bytes) → AllDigits s → strtoll s ≡ (clamp false (read_digits 0 s).0, (read_digits 0 s).1)
unfolding strtoll
strtoll-digits [] p = refl
strtoll-digits (c ∷ s) p = ground (arith, p.0)

strtoll-minus :
    (s : Bytes)
    → AllDigits s
    → s ≢ []
    → strtoll (b'-' ∷ s) ≡ (clamp true (read_digits 0 s).0, (read_digits 0 s).1)
unfolding strtoll
strtoll-minus [] p ne = absurd (ne refl)
strtoll-minus (c ∷ s) p ne = ground (arith, p.0)

-- Printing a 64-bit integer and reading it back gives the integer, and no error.
pub str_to_int64-str : (z : ℤ) → InInt64 z → str_to_int64 (str z) ≡ (z, true)
unfolding str_to_int64 str
str_to_int64-str (pos n) h = ground (
  arith,
  strtoll-digits (decimal (suc n) n) (decimal-AllDigits (suc n) n),
  read_digits-decimal (suc n) n (omega arith),
)
str_to_int64-str (negsuc n) h = ground (
  arith,
  strtoll-minus (decimal (suc (suc n)) (suc n)) (decimal-AllDigits (suc (suc n)) (suc n))
      (decimal_ne_nil (suc n) (suc n)),
  read_digits-decimal (suc (suc n)) (suc n) (omega arith),
)

-- atoi, which is strtoll cut to an int.
unfoldable pub atoi : Bytes → ℤ
atoi s = i32 (strtoll s).0

-- 10 ^ k, in the form that is linear at each step.
abbrev pub pow10 : ℕ → ℕ
pow10 zero = 1
pow10 (suc k) = 10 * pow10 k

pub length-decimal : (k f n : ℕ) → n < pow10 k → length (decimal f n) ≤ suc k
unfolding decimal
length-decimal zero zero n h = omega arith
length-decimal zero (suc f) n h = ground (arith, h)
length-decimal (suc k) zero n h = omega arith
length-decimal (suc k) (suc f) n h = elim (Bool-cases (ltb n 10)) [
  | inl e ↦ rw e (omega arith)
  | inr e ↦ rw e (
      omega (
        arith,
        length-append {0} (decimal f (n / 10)) ((b'0' + n % 10) ∷ []),
        length-decimal k f (n / 10) (omega (arith, h)),
      ))
]

pub atoi-str : (n : ℕ) → n < 2 ^ 31 → atoi (str (pos n)) ≡ pos n
unfolding atoi str
atoi-str n h = ground (
  arith,
  strtoll-digits (decimal (suc n) n) (decimal-AllDigits (suc n) n),
  read_digits-decimal (suc n) n (omega arith),
)

clamp-InInt64 : (b : Bool) (n : ℕ) → InInt64 (clamp b n)
clamp-InInt64 false n = ground arith
clamp-InInt64 true zero = omega arith
clamp-InInt64 true (suc n) = ground arith

strtoll_digits-InInt64 :
    (whole : Bytes) (b : Bool) (s : Bytes) → InInt64 (strtoll_digits whole b s).0
unfolding strtoll_digits
strtoll_digits-InInt64 whole b [] = omega arith
strtoll_digits-InInt64 whole b (c ∷ s) = elim (Bool-cases (is_digit c)) [
  | inl e ↦ rw e (clamp-InInt64 b _)
  | inr e ↦ rw e (omega arith, omega arith)
]

strtoll_sign-InInt64 : (whole s : Bytes) → InInt64 (strtoll_sign whole s).0
unfolding strtoll_sign
strtoll_sign-InInt64 whole [] = (omega arith, omega arith)
strtoll_sign-InInt64 whole (c ∷ s) = ground (
  arith,
  strtoll_digits-InInt64 whole true s,
  strtoll_digits-InInt64 whole false s,
  strtoll_digits-InInt64 whole false (c ∷ s),
)

-- What is read is in range, whatever the text.
pub str_to_int64-InInt64 : (s : Bytes) → InInt64 (str_to_int64 s).0
unfolding str_to_int64 strtoll
str_to_int64-InInt64 s = strtoll_sign-InInt64 s (skip_spaces s)
