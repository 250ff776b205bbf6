-- ===== src/Kv/Bits.antt =====
-- ssdb/t_kv.cpp: setbit and getbit, at an offset that is not negative, as the caller of setbit sees
-- to.
use php.Prelude.{
  ℕ, zero, suc, ◌+◌, ◌-◌, ◌/◌, ◌%◌, ◌^◌, Bool, false, [], ◌∷◌, ◌++◌, length, leb, ◌==◌,
  if◌then◌else◌, get_or, set,
}
use php.Prelude.Int.{ℤ, pos, negsuc}
use php.Bytes.{Bytes, is_empty}
use php.LevelDb.{LevelDb, failed, missing, found}
use php.Binlog.{Ssdb, transaction, minus_one}
use php.Kv.{get, write_kv}

-- c & (1 << b), for a bit b of a byte c.
abbrev pub masked : ℕ → ℕ → ℕ
masked c b = if c / 2 ^ b % 2 == 1 then 2 ^ b else 0

-- c | (1 << b), and c & ~(1 << b).
abbrev pub bit_on : ℕ → ℕ → ℕ
bit_on c b = if c / 2 ^ b % 2 == 1 then c else c + 2 ^ b

abbrev pub bit_off : ℕ → ℕ → ℕ
bit_off c b = if c / 2 ^ b % 2 == 1 then c - 2 ^ b else c

-- on == 1
abbrev pub is_one : ℤ → Bool
is_one (pos n) = n == 1
is_one (negsuc n) = false

-- n zero bytes.
abbrev pub zeros : ℕ → Bytes
zeros zero = []
zeros (suc n) = 0 ∷ zeros n

-- val.resize(n, 0) where val is shorter than n.
abbrev pub resized : Bytes → ℕ → Bytes
resized val n = val ++ zeros (n - length val)

-- The value of setbit, and the bit that was there, in its place.
unfoldable pub with_bit : Bytes → ℕ → ℤ → Bytes × ℕ
with_bit old bitoffset on =
    let len = bitoffset / 8 in
    let bit = bitoffset % 8 in
    let val = if leb (length old) len then resized old (len + 1) else old in
    let c = get_or val len 0 in
    let d = if is_one on then bit_on c bit else bit_off c bit in (set val len d, masked c bit)

-- What getbit answers on a value.
unfoldable pub bit_at : Bytes → ℕ → ℕ
bit_at val bitoffset =
    let len = bitoffset / 8 in
    let bit = bitoffset % 8 in
    if leb (length val) len then 0 else if masked (get_or val len 0) bit == 0 then 0 else 1

module _ (L : LevelDb) where
  abbrev pub write_bit : Bytes → Bytes → ℕ → ℤ → ℕ → Ssdb L → ℤ × Ssdb L
  write_bit old key bitoffset on log_type s =
      let (val, orig) = with_bit old bitoffset on in write_kv L (pos orig) key val log_type s

  -- SSDBImpl::setbit
  unfoldable pub setbit_body : Bytes → ℕ → ℤ → ℕ → Ssdb L → ℤ × Ssdb L
  setbit_body key bitoffset on log_type s = elim (get L s key) [
    | failed ↦ (minus_one, s)
    | missing ↦ write_bit [] key bitoffset on log_type s
    | found val ↦ write_bit val key bitoffset on log_type s
  ]

  unfoldable pub setbit : Bytes → ℕ → ℤ → ℕ → Ssdb L → ℤ × Ssdb L
  setbit key bitoffset on log_type s =
      if is_empty key then (pos 0, s) else transaction L (setbit_body key bitoffset on log_type) s

  -- SSDBImpl::getbit
  unfoldable pub getbit : Ssdb L → Bytes → ℕ → ℤ
  getbit s key bitoffset = elim (get L s key) [
    | failed ↦ minus_one
    | missing ↦ pos (bit_at [] bitoffset)
    | found val ↦ pos (bit_at val bitoffset)
  ]
