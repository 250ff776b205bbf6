-- ===== src/Kv/GetBit.antt =====
-- t_kv.cpp: what getbit answers after setbit.
use php.Prelude.{
  ℕ, ◌%◌, ◌^◌, ◌≡◌, refl, sym, ap, ◌∙◌, true, false, Option, none, some, [], ◌==◌, ◌&&◌, arith,
  if◌then◌else◌, Option-cases, Bool-cases, inl, inr,
}
use native.Mathlib.Decide.{ℕ_discrete}
use php.Prelude.Int.{ℤ, pos, is_zero}
use php.Bytes.{Bytes, eqb, is_empty}
use php.Keys.{encode_kv_key}
use php.Bytes.Compare.{eqb_iff}
use php.LevelDb.{LevelDb}
use php.LevelDb.Laws.{IsHealthy, reading, get-content}
use php.Binlog.{Ssdb, transaction}
use php.Kv
use php.Kv.Map.{Map, insert}
use php.Kv.Refine.{begun, begun-get, write-Represents, Represents, via}
use php.Kv.Bits.{is_one, with_bit, bit_at, write_bit, setbit_body, setbit, getbit}
use php.Kv.SetBit.{bit_at-with_bit, bit_at-with_bit_other}

-- The value in which the bit is written: an empty one where the key has none.
abbrev held : Option Bytes → Bytes
held none = []
held (some v) = v

module _ (L : LevelDb) where
  abbrev values_of : L.Db → Map
  values_of d j = L.content d (encode_kv_key j)

  getbit_lem :
      (s : Ssdb L) (key : Bytes) (q : ℕ)
      → IsHealthy L s.db
      → getbit L s key q ≡ pos (bit_at (held (values_of s.db key)) q)
  unfolding getbit Kv.get
  getbit_lem s key q h =
      let e = get-content L h (encode_kv_key key) in
      elim (Option-cases (values_of s.db key)) [
        | inl p ↦ rw (e ∙ ap reading p, getbit, p) refl
        | inr (v, p) ↦ rw (e ∙ ap reading p, getbit, p) refl
      ]

  module _ (s : Ssdb L) (key : Bytes) (p : ℕ) (on : ℤ) (t : ℕ) (healthy : IsHealthy L s.db) where
    abbrev m : Map
    m = values_of s.db

    abbrev written : Bytes × ℕ
    written = with_bit (held (m key)) p on

    setbit_body_lem :
        setbit_body L key p on t (begun L t s healthy m)
        ≡ write_bit L (held (m key)) key p on t (begun L t s healthy m)
    unfolding setbit_body
    setbit_body_lem =
        let e = begun-get L t s healthy m (λ j. refl) key in
        elim (Option-cases (m key)) [
          | inl x ↦ rw (e ∙ ap reading x, setbit_body, x) refl
          | inr (v, x) ↦ rw (e ∙ ap reading x, setbit_body, x) refl
        ]

    setbit-Represents :
        is_empty key ≡ false
        → ((setbit L key p on t s).0 ≡ pos written.1)
          × Represents L t (setbit L key p on t s).1.db (insert m key written.0)
    unfolding setbit transaction
    setbit-Represents given = rw given (
        via L t setbit_body_lem
          (write-Represents L t s healthy m (λ j. refl) (pos written.1) key written.0))

    result-setbit :
        is_empty key ≡ false
        → (setbit L key p on t s).0
          ≡ (if is_zero (getbit L s key p) then pos 0 else pos (2 ^ (p % 8)))
    result-setbit given =
        let before = bit_at (held (m key)) p in
        let mask : written.1 ≡ (if before == 0 then 0 else 2 ^ (p % 8)) =
          (bit_at-with_bit (held (m key)) p on).1 in
        (setbit-Represents given).0 ∙ elim (Bool-cases (before == 0)) [
          | inl e ↦ rw (getbit_lem s key p healthy, e) (ap pos (rw e at mask))
          | inr e ↦ rw (getbit_lem s key p healthy, e) (ap pos (rw e at mask))
        ]

    -- The bits of the key itself.
    bit_at-written :
        (q : ℕ)
        → pos (bit_at written.0 q)
          ≡ (if p == q then pos (if is_one on then 1 else 0) else getbit L s key q)
    bit_at-written q = elim (ℕ_discrete p q) [
      | yes e ↦
          let same : (p == q) ≡ true = ground (arith, e) in
          rw same (ap pos (ap (bit_at written.0) (sym e) ∙ (bit_at-with_bit (held (m key)) p on).0))
      | no e ↦
          let other : (p == q) ≡ false = ground (arith, e) in
          rw (other, getbit_lem s key q healthy)
            (ap pos (bit_at-with_bit_other (held (m key)) p q on (λ f. e (sym f))))
    ]

-- On a database without I/O errors and under a key that is given: setbit returns 0 where getbit read
-- 0 before, and otherwise the mask of the bit. Afterwards getbit reads the bit that was set, which is
-- 1 where `on` is 1 and 0 otherwise, also past the end of the old value, and every other bit of this
-- key and every bit of the other keys as before.
pub getbit-setbit :
    (L : LevelDb) (s : Ssdb L) (key j : Bytes) (p q : ℕ) (on : ℤ) (t : ℕ)
    → ((d : L.Db) → IsHealthy L d)
    → is_empty key ≡ false
    → let after = setbit L key p on t s in
      (after.0 ≡ (if is_zero (getbit L s key p) then pos 0 else pos (2 ^ (p % 8))))
      × (getbit L after.1 j q
          ≡ (if eqb key j && p == q then pos (if is_one on then 1 else 0) else getbit L s j q))
getbit-setbit L s key j p q on t healthy given =
    let after = (setbit L key p on t s).1 in
    let holds = (setbit-Represents L s key p on t (healthy s.db) given).1 j in
    (
      result-setbit L s key p on t (healthy s.db) given,
      getbit_lem L after j q (healthy after.db) ∙ elim (Bool-cases (eqb key j)) [
        | inl e ↦
            let same : key ≡ j = (eqb_iff key j).0 e in
            rw (holds, e)
              (bit_at-written L s key p on t (healthy s.db) q
                ∙ ap (λ k. if p == q then pos (if is_one on then 1 else 0) else getbit L s k q)
                    same)
        | inr e ↦ rw (holds, e) (sym (getbit_lem L s j q (healthy s.db)))
      ],
    )
