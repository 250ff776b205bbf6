-- ===== src/Binlog/Record.antt =====
-- ssdb/binlog.cpp `Binlog`: a log record in one string of bytes, and the numbers of const.h.
use php.Prelude.{
  ℕ, ◌^◌, ◌<◌, ◌≡◌, ◌↔◌, Option, none, some, ◌∷◌, ◌++◌, arith, length, take, drop, get_or, ltb,
  if◌then◌else◌,
}
use php.Bytes.{Bytes}
use php.Bytes.Words.{u64_bytes, le_word, le_word-u64_bytes, le_bytes}

-- The field `buf`.
pub record Binlog : Type 0 where
  pub buf : Bytes

-- sizeof(uint64_t) + 2
abbrev pub header_len : ℕ
header_len = 10

-- Binlog::Binlog(seq, type, cmd, key)
unfoldable pub binlog : ℕ → ℕ → ℕ → Bytes → Binlog
binlog seq type cmd key = record { buf = u64_bytes seq ++ type ∷ cmd ∷ key }

-- Binlog::repr
abbrev pub repr : Binlog → Bytes
repr log = log.buf

-- The readers of the fields. They are called on records of at least `header_len` bytes.
unfoldable pub seq : Binlog → ℕ
seq log = le_word (take 8 log.buf)

unfoldable pub type : Binlog → ℕ
type log = get_or log.buf 8 0

unfoldable pub cmd : Binlog → ℕ
cmd log = get_or log.buf 9 0

unfoldable pub key : Binlog → Bytes
key log = drop header_len log.buf

-- Binlog::load: none where the source returns -1 and leaves the record as it was.
unfoldable pub load : Bytes → Option Binlog
load s = if ltb (length s) header_len then none else some (record { buf = s })

-- A record that is written and loaded again has the fields that it was made of.
pub load-repr :
    (s t c : ℕ) (k : Bytes)
    → s < 2 ^ 64
    → let log = binlog s t c k in
      (load (repr log) ≡ some log) × (seq log ≡ s) × (type log ≡ t) × (cmd log ≡ c) × (key log ≡ k)
unfolding load seq type cmd key binlog le_bytes
load-repr s t c k h = ground (arith, le_word-u64_bytes s h)

-- What is shorter than a header is refused, and nothing else.
pub load-none_iff : (s : Bytes) → (load s ≡ none) ↔ (length s < header_len)
unfolding load
load-none_iff s = ground arith
