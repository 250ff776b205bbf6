-- ===== src/Scan/Pages.antt =====
-- Scans one after the other, each from the last key of the one before.
use php.Prelude.{
  ℕ, zero, suc, ◌+◌, ◌≡◌, refl, sym, ap, ◌∙◌, Bool, true, false, ◌&&◌, List, [], ◌∷◌, ◌++◌, arith,
  take,
}
use php.Bytes.{Bytes}
use php.Bytes.Order.{lt, lt_trans, lt_irrefl, lt_asym}
use php.LevelDb.{LevelDb}
use php.LevelDb.Iterators.{Entry, AllAfter, IsSorted, Iterators, IsIterable}
use php.Binlog.{Ssdb}
use php.Iterator.{k_seen, typed_all}
use php.Iterator.Range.{in_range}
use php.Iterator.Range.Keep.{keep, keep_all, keep-keep, keep-IsSorted}
use php.Iterator.Section.{keep_after}
use php.Scan.{scan}
use php.Scan.Range.{scan-values, values, values-IsSorted}

last-AllAfter :
    (k : Bytes) (n : ℕ) (page : List Entry) (last : Entry) (es : List Entry)
    → AllAfter k es
    → take n es ≡ page ++ last ∷ []
    → lt k last.0 ≡ true
last-AllAfter k zero [] last es a h = cc h
last-AllAfter k zero (x ∷ page) last es a h = cc h
last-AllAfter k (suc n) [] last [] a h = cc h
last-AllAfter k (suc n) (x ∷ page) last [] a h = cc h
last-AllAfter k (suc n) [] last (e ∷ es) (b, a) h = let same : e ≡ last = cc h in rw (sym same) b
last-AllAfter k (suc n) (x ∷ page) last (e ∷ es) (b, a) h =
    let rest : take n es ≡ page ++ last ∷ [] = cc h in last-AllAfter k n page last es a rest

take-end : (n m : ℕ) (es : List Entry) → take n es ≡ [] → take (n + m) es ≡ take m es
take-end zero m es h = let k : 0 + m ≡ m = omega arith in rw k refl
take-end (suc n) zero [] h = let k : suc n + 0 ≡ suc n = omega arith in rw k refl
take-end (suc n) (suc m) [] h = let k : suc n + suc m ≡ suc (n + suc m) = omega arith in rw k refl
take-end (suc n) m (e ∷ es) h = cc h

-- What follows the last entry of a page in a sorted list.
after-last :
    (n m : ℕ) (page : List Entry) (last : Entry) (es : List Entry)
    → IsSorted es
    → take n es ≡ page ++ last ∷ []
    → take (n + m) es ≡ page ++ last ∷ take m (keep (λ j. lt last.0 j) es)
after-last zero m [] last es s h = cc h
after-last zero m (x ∷ page) last es s h = cc h
after-last (suc n) m [] last [] s h = cc h
after-last (suc n) m (x ∷ page) last [] s h = cc h
after-last (suc n) m [] last (e ∷ es) (a, s) h =
    let k : suc n + m ≡ suc (n + m) = omega arith in
    let same : e ≡ last = cc h in
    let b : AllAfter last.0 es = rw (sym same) a in
    let over : take n es ≡ [] = cc h in
    rw (k, same, lt_irrefl last.0, keep_all (λ j. lt last.0 j) last.0 es b (λ j p. p))
      (ap (λ l. last ∷ l) (take-end n m es over))
after-last (suc n) m (x ∷ page) last (e ∷ es) (a, s) h =
    let k : suc n + m ≡ suc (n + m) = omega arith in
    let same : e ≡ x = cc h in
    let rest : take n es ≡ page ++ last ∷ [] = cc h in
    let below : lt last.0 e.0 ≡ false =
      lt_asym e.0 last.0 (last-AllAfter e.0 n page last es a rest) in
    rw (k, below)
      (ap (λ y. y ∷ take (n + m) es) same ∙ ap (λ l. x ∷ l) (after-last n m page last es s rest))

keep_same :
    (p q : Bytes → Bool) (es : List Entry) → ((j : Bytes) → p j ≡ q j) → keep p es ≡ keep q es
keep_same p q [] h = refl
keep_same p q (e ∷ es) h = rw (h e.0, keep_same p q es h) refl

-- The part of a range after a later start.
later-range :
    (a b end : Bytes) (es : List Entry)
    → lt a b ≡ true
    → keep (λ j. lt b j) (keep (in_range a end) es) ≡ keep (in_range b end) es
later-range a b end es h =
    keep-keep (λ j. lt b j) (in_range a end) es
    ∙ keep_same (λ j. in_range a end j && lt b j) (in_range b end) es
        (λ j. ground (arith, h, lt_trans a b j))

-- What a loop over scan(start, end, limit) reads.
abbrev pub scanned : (L : LevelDb) (I : Iterators L) → Ssdb L → Bytes → Bytes → ℕ → List Entry
scanned L I s start end limit = typed_all k_seen L I (suc limit) (scan L I s start end limit)

module _ (L : LevelDb) (I : Iterators L) (s : Ssdb L) (ok : IsIterable L I s.db) where
  scanned-values :
      (start end : Bytes) (limit : ℕ)
      → scanned L I s start end limit ≡ take limit (keep (in_range start end) (values L I s.db))
  scanned-values start end limit = (scan-values L I s ok start end limit []).0

  -- Where a scan of n keys reads a page with the last key k, the scan of n + m keys reads this
  -- page and then what the scan of m keys from k reads.
  pub scan_pages :
      (start end : Bytes) (n m : ℕ) (page : List Entry) (last : Entry)
      → scanned L I s start end n ≡ page ++ last ∷ []
      → scanned L I s start end (n + m) ≡ page ++ last ∷ scanned L I s last.0 end m
  scan_pages start end n m page last h =
      let all = values L I s.db in
      let range = keep (in_range start end) all in
      let first : take n range ≡ page ++ last ∷ [] = sym (scanned-values start end n) ∙ h in
      let sorted : IsSorted range =
        keep-IsSorted (in_range start end) all (values-IsSorted L I s.db) in
      let after : lt start last.0 ≡ true =
        last-AllAfter start n page last range
          (keep_after start (in_range start end) all (λ j p. ground (arith, p))) first in
      scanned-values start end (n + m)
      ∙ after-last n m page last range sorted first
      ∙ ap (λ l. page ++ last ∷ l)
          (ap (take m) (later-range start last.0 end all after) ∙ sym (scanned-values last.0 end m))
