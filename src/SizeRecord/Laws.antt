-- ===== src/SizeRecord/Laws.antt =====
-- What the size record holds, and what the batch of incr_hsize or incr_zsize makes of it.
use php.Prelude.{ℕ, zero, suc, ◌+◌, ◌^◌, ◌<◌, ◌≡◌, refl, false, Option, none, some, arith}
use php.Prelude.Int.{ℤ, pos, negsuc, ◌+ℤ◌, i64, word64}
use php.Bytes.{Bytes, eqb}
use php.Bytes.Words.{u64_bytes, le_word-u64_bytes, length-le_bytes}
use php.Keys.Distinct.{eqb_refl}
use php.LevelDb.{LevelDb}
use php.LevelDb.Laws.{IsHealthy, get-content}
use php.Binlog.{Ssdb, put_batch, delete_batch}
use php.Binlog.Pending.{pending, pending-put, pending-delete}
use php.SizeRecord.{read_size, incr_size}

-- None where nothing is counted.
abbrev pub size_record : ℕ → Option Bytes
size_record zero = none
size_record (suc n) = some (u64_bytes (suc n))

size_record_suc : (n : ℕ) → 0 < n → size_record n ≡ some (u64_bytes n)
size_record_suc zero h = elim h [ ]
size_record_suc (suc n) h = refl

module _ (L : LevelDb) (s : Ssdb L) (key : Bytes) where
  pub read_size_lem :
      IsHealthy L s.db
      → (n : ℕ) → n < 2 ^ 63
      → L.content s.db key ≡ size_record n
      → read_size L s key ≡ pos n
  unfolding read_size
  read_size_lem healthy zero h e = ground (arith, get-content L healthy key)
  read_size_lem healthy (suc n) h e = ground (
    arith,
    get-content L healthy key,
    length-le_bytes 8 (suc n),
    le_word-u64_bytes (suc n) (omega arith),
  )

  incr_up :
      (n : ℕ)
      → read_size L s key ≡ pos n
      → n + 1 < 2 ^ 63
      → incr_size L s key (pos 1) ≡ record s { logs = put_batch s.logs key (u64_bytes (n + 1)) }
  unfolding incr_size
  incr_up n at h = rw (at, incr_size) ground arith

  incr_down :
      (n : ℕ)
      → read_size L s key ≡ pos (suc (suc n))
      → suc (suc n) < 2 ^ 63
      → incr_size L s key (negsuc 0) ≡ record s { logs = put_batch s.logs key (u64_bytes (suc n)) }
  unfolding incr_size
  incr_down n at h = rw (at, incr_size) ground arith

  incr_last :
      read_size L s key ≡ pos 1
      → incr_size L s key (negsuc 0) ≡ record s { logs = delete_batch s.logs key }
  unfolding incr_size
  incr_last at = rw (at, incr_size) ground arith

  pub incr_size-up :
      (n : ℕ) (o : Option Bytes)
      → read_size L s key ≡ pos n
      → n + 1 < 2 ^ 63
      → pending (incr_size L s key (pos 1)).logs key o ≡ size_record (n + 1)
  incr_size-up n o at h =
      let e : size_record (n + 1) ≡ some (u64_bytes (n + 1)) =
        size_record_suc (n + 1) (omega arith) in
      rw (incr_up n at h, pending-put, eqb_refl key, e) refl

  pub incr_size-down :
      (n : ℕ) (o : Option Bytes)
      → read_size L s key ≡ pos (suc n)
      → suc n < 2 ^ 63
      → pending (incr_size L s key (negsuc 0)).logs key o ≡ size_record n
  incr_size-down zero o at h = rw (incr_last at, pending-delete, eqb_refl key) refl
  incr_size-down (suc n) o at h = rw (incr_down n at h, pending-put, eqb_refl key) refl

  pub incr_size-other :
      (z : ℤ) (j : Bytes) (o : Option Bytes)
      → eqb key j ≡ false
      → pending (incr_size L s key z).logs j o ≡ pending s.logs j o
  unfolding incr_size
  incr_size-other z j o e = ground (
    arith,
    pending-put s.logs key (u64_bytes (word64 (i64 (read_size L s key +ℤ z)))) j o,
    pending-delete s.logs key j o,
  )

  pub incr_size-db : (z : ℤ) → (incr_size L s key z).db ≡ s.db
  unfolding incr_size
  incr_size-db z = refl
