-- ===== src/Strings/Escape.antt =====
-- util/strings.h `str_escape` and `str_unescape`.
use php.Prelude.{
  ℕ, ◌+◌, ◌-◌, ◌*◌, ◌/◌, ◌%◌, ◌<◌, ◌≡◌, refl, ap, ◌∙◌, false, ◌&&◌, [], ◌∷◌, ◌++◌, arith, ltb, leb,
  ◌==◌, if◌then◌else◌,
}
use php.Bytes.{Bytes, AreBytes}

-- hex[d]
abbrev pub hex : ℕ → ℕ
hex d = if ltb d 10 then b'0' + d else b'a' + (d - 10)

-- One character: a char is signed, so a byte of 128 or more lies below '!'.
unfoldable pub escape_one : ℕ → Bytes
escape_one c =
    if c == b'\r'
    then b'\\' ∷ b'r' ∷ []
    else if c == b'\n'
    then b'\\' ∷ b'n' ∷ []
    else if c == b'\t'
    then b'\\' ∷ b't' ∷ []
    else if c == b'\\'
    then b'\\' ∷ b'\\' ∷ []
    else if c == b' '
    then c ∷ []
    else if leb b'!' c && leb c b'~'
    then c ∷ []
    else b'\\' ∷ b'x' ∷ hex (c / 16) ∷ hex (c % 16) ∷ []

unfoldable pub str_escape : Bytes → Bytes
str_escape [] = []
str_escape (c ∷ s) = escape_one c ++ str_escape s

-- hex_int of a char, as what it adds to a char modulo 256; a char of 128 or more is negative.
unfoldable pub hex_int : ℕ → ℕ
hex_int c = if leb b'0' c && leb c b'9' then c - b'0' else (c + 256 + 10 - b'a') % 256

-- The character that a backslash and a letter stand for; \x is read apart.
unfoldable pub escaped : ℕ → ℕ
escaped c =
    if c == b'a'
    then 7
    else if c == b'b'
    then 8
    else if c == b'f'
    then 12
    else if c == b'v'
    then 11
    else if c == b'r'
    then b'\r'
    else if c == b'n'
    then b'\n'
    else if c == b't'
    then b'\t'
    else c

-- A character and the next: what the text means when the first stands for itself, when the two are
-- an escape, and when they are \x.
abbrev unescape_pair : ℕ → ℕ → Bytes → Bytes → Bytes → Bytes
unescape_pair c d plain rest hexed =
    if c == b'\\' then (if d == b'x' then hexed else escaped d ∷ rest) else c ∷ plain

-- \x without two more characters is dropped, and so is a backslash at the end.
unfoldable pub str_unescape : Bytes → Bytes
str_unescape [] = []
str_unescape (c ∷ []) = if c == b'\\' then [] else c ∷ []
str_unescape (c ∷ d ∷ []) = unescape_pair c d (str_unescape (d ∷ [])) [] []
str_unescape (c ∷ d ∷ e ∷ []) =
    unescape_pair c d (str_unescape (d ∷ e ∷ [])) (str_unescape (e ∷ [])) (str_unescape (e ∷ []))
str_unescape (c ∷ d ∷ e ∷ f ∷ s) =
    unescape_pair c d (str_unescape (d ∷ e ∷ f ∷ s)) (str_unescape (e ∷ f ∷ s))
      ((hex_int e * 16 + hex_int f) % 256 ∷ str_unescape s)

unescape-plain :
    (c : ℕ) (s : Bytes) → (c == b'\\') ≡ false → str_unescape (c ∷ s) ≡ c ∷ str_unescape s
unfolding str_unescape
unescape-plain c [] h = rw h refl
unescape-plain c (d ∷ []) h = rw h refl
unescape-plain c (d ∷ e ∷ []) h = rw h refl
unescape-plain c (d ∷ e ∷ f ∷ s) h = rw h refl

unescape-letter :
    (d : ℕ) (s : Bytes)
    → (d == b'x') ≡ false
    → str_unescape (b'\\' ∷ d ∷ s) ≡ escaped d ∷ str_unescape s
unfolding str_unescape
unescape-letter d [] h = rw h refl
unescape-letter d (e ∷ []) h = rw h refl
unescape-letter d (e ∷ f ∷ s) h = rw h refl

hex_int-hex : (d : ℕ) → d < 16 → hex_int (hex d) ≡ d
unfolding hex_int
hex_int-hex d h = ground arith

unescape-hex :
    (c : ℕ) (s : Bytes)
    → c < 256
    → str_unescape (b'\\' ∷ b'x' ∷ hex (c / 16) ∷ hex (c % 16) ∷ s) ≡ c ∷ str_unescape s
unfolding str_unescape
unescape-hex c s h =
    let e : (c / 16 * 16 + c % 16) % 256 ≡ c = omega arith in
    rw (hex_int-hex (c / 16) (omega arith), hex_int-hex (c % 16) (omega arith), e) refl

escape_one-cases :
    (c : ℕ) (s : Bytes) → c < 256 → str_unescape (escape_one c ++ s) ≡ c ∷ str_unescape s
unfolding escape_one escaped
escape_one-cases c s h = ground (
  arith,
  unescape-plain c s,
  unescape-hex c s h,
  unescape-letter b'r' s refl,
  unescape-letter b'n' s refl,
  unescape-letter b't' s refl,
  unescape-letter b'\\' s refl,
)

-- Escaping a string of bytes and undoing it gives the string.
pub str_unescape-str_escape : (s : Bytes) → AreBytes s → str_unescape (str_escape s) ≡ s
unfolding str_escape str_unescape
str_unescape-str_escape [] h = refl
str_unescape-str_escape (c ∷ s) h =
    escape_one-cases c (str_escape s) h.0 ∙ ap (λ t. c ∷ t) (str_unescape-str_escape s h.1)
