-- ===== src/Strings/Tests.antt =====
-- The theorems on texts at concrete ones.
use php.Prelude.{◌≡◌, [], ◌∷◌, arith}
use php.Bytes.{Bytes}
use php.Strings.Escape.{str_escape, str_unescape, str_unescape-str_escape}

-- A tab, a zero byte, a backslash, a letter and a byte past ASCII.
abbrev mixed : Bytes
mixed = 9 ∷ 0 ∷ b'\\' ∷ b'x' ∷ 200 ∷ []

str_unescape-str_escape_example : str_unescape (str_escape mixed) ≡ mixed
str_unescape-str_escape_example =
    str_unescape-str_escape mixed
      (omega arith, (omega arith, (omega arith, (omega arith, (omega arith, tt)))))
