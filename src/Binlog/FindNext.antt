-- ===== src/Binlog/FindNext.antt =====
-- The log keys that find_next meets, and the record it loads.
use php.Prelude.{
  ℕ, ◌^◌, ◌≤◌, ◌<◌, ◌≡◌, refl, sym, ap, ◌∙◌, false, Option, none, some, [], ◌∷◌, arith, ◌==◌,
  if◌then◌else◌, Bool-cases, Option-cases, inl, inr,
}
use php.Bytes.{Bytes, eqb}
use php.Bytes.Compare.{eqb_iff}
use php.Bytes.Order.{lt, lt_irrefl, strip, append-strip, strip_between}
use php.Bytes.Words.{u64_bytes, big_endian}
use php.Keys.{encode_seq_key, decode_seq_key}
use php.Keys.DataType
use php.Keys.RoundTrip.{decode_seq_key-encode}
use php.LevelDb.{LevelDb, Got, failed, missing, found}
use php.LevelDb.Laws.{IsHealthy, reading, get-content}
use php.LevelDb.Iterators.{Entry, IsSorted, from, head, Iterators, IsIterable}
use php.Binlog.Record.{Binlog, load}
use php.Binlog.Cleaner.{loaded, record_at, get, find_next}
use php.Binlog.SeqOrder.{lt-seq, first-least, below_le, not_below, flip, lt_of_ne}

-- Every log key in the database is one that encode_seq_key makes.
abbrev pub HasSeqKeys : (Bytes → Option Bytes) → Type 0
HasSeqKeys c =
    (j v : Bytes)
    → c (DataType.synclog ∷ j) ≡ some v
    → (n : ℕ) × ((DataType.synclog ∷ j ≡ encode_seq_key n) × (n < 2 ^ 64))

positive : (k : ℕ) → 0 < k → (k == 0) ≡ false
positive k p = ground arith

-- find_next, from what get answers and what stands at the iterator's place.
abbrev answer : Got Binlog → Got Binlog → Got Binlog
answer g place = elim g [ failed ↦ place | missing ↦ place | found log ↦ found log ]

abbrev got : Option Binlog → Got Binlog
got o = elim o [ none ↦ missing | some log ↦ found log ]

answer-got : (o : Option Binlog) → answer (got o) (loaded o) ≡ loaded o
answer-got none = refl
answer-got (some log) = refl

module _ (L : LevelDb) (I : Iterators L) (d : L.Db) (healthy : IsHealthy L d)
    (ok : IsIterable L I d) where
  abbrev place : ℕ → Got Binlog
  place n = record_at (I.current (I.seek (encode_seq_key n) (I.new_iterator d)))

  find_next-answer : (n : ℕ) → find_next L I d n ≡ answer (get L d n) (place n)
  unfolding find_next
  find_next-answer n = refl

  get-missing : (n : ℕ) → L.content d (encode_seq_key n) ≡ none → get L d n ≡ missing
  unfolding get
  get-missing n e =
      let r : L.get d (encode_seq_key n) ≡ missing =
        get-content L healthy (encode_seq_key n) ∙ ap reading e in
      rw (r, get) refl

  get-found :
      (n : ℕ) (w : Bytes) → L.content d (encode_seq_key n) ≡ some w → get L d n ≡ got (load w)
  unfolding get
  get-found n w e =
      let r : L.get d (encode_seq_key n) ≡ found w =
        get-content L healthy (encode_seq_key n) ∙ ap reading e in
      rw (r, get) refl

  place-loaded :
      (n k : ℕ) (w : Bytes)
      → 0 < k
      → k < 2 ^ 64
      → head (from (encode_seq_key n) (I.entries d)) ≡ some (encode_seq_key k, w)
      → place n ≡ loaded (load w)
  place-loaded n k w p q first =
      let at : I.current (I.seek (encode_seq_key n) (I.new_iterator d))
          ≡ some (encode_seq_key k, w) =
        I.current-position (I.seek (encode_seq_key n) (I.new_iterator d))
        ∙ ap (λ p. head p.1) (ok.seeks (encode_seq_key n))
        ∙ first in
      let seq : (decode_seq_key (encode_seq_key k) == 0) ≡ false =
        ap (λ s. s == 0) (decode_seq_key-encode k q) ∙ positive k p in
      ap record_at at ∙ ap (λ b. if b then missing else loaded (load w)) seq

  find_next-at :
      (n k : ℕ) (w : Bytes)
      → n ≤ k
      → 0 < k
      → k < 2 ^ 64
      → L.content d (encode_seq_key k) ≡ some w
      → head (from (encode_seq_key n) (I.entries d)) ≡ some (encode_seq_key k, w)
      → ((u : Bytes) → L.content d (encode_seq_key n) ≡ some u → n ≡ k)
      → find_next L I d n ≡ loaded (load w)
  find_next-at n k w low p q e first own =
      let there : place n ≡ loaded (load w) = place-loaded n k w p q first in
      find_next-answer n
      ∙ ap (answer (get L d n)) there
      ∙ elim (Option-cases (L.content d (encode_seq_key n))) [
        | inl x ↦ ap (λ g. answer g (loaded (load w))) (get-missing n x)
        | inr (u, x) ↦
            let same : n ≡ k = own u x in
            let here : L.content d (encode_seq_key n) ≡ some w =
              ap (λ s. L.content d (encode_seq_key s)) same ∙ e in
            ap (λ g. answer g (loaded (load w))) (get-found n w here) ∙ answer-got (load w)
      ]

  -- A key between two log keys is one.
  log-key :
      (n m : ℕ) (g : Entry)
      → HasSeqKeys (L.content d)
      → n < 2 ^ 64
      → m < 2 ^ 64
      → L.content d g.0 ≡ some g.1
      → lt g.0 (encode_seq_key n) ≡ false
      → lt (encode_seq_key m) g.0 ≡ false
      → (k : ℕ) × ((g.0 ≡ encode_seq_key k) × (k < 2 ^ 64))
  log-key n m g keys p q e low high = elim (Bool-cases (eqb g.0 (encode_seq_key n))) [
    | inl y ↦ (n, ((eqb_iff g.0 (encode_seq_key n)).0 y, p))
    | inr y ↦ elim (Bool-cases (eqb g.0 (encode_seq_key m))) [
      | inl z ↦ (m, ((eqb_iff g.0 (encode_seq_key m)).0 z, q))
      | inr z ↦
          let above = lt_of_ne (encode_seq_key n) g.0 low (flip g.0 (encode_seq_key n) y) in
          let below = lt_of_ne g.0 (encode_seq_key m) high z in
          elim (Option-cases (strip (DataType.synclog ∷ []) g.0)) [
            | inl x ↦ cc (
                strip_between (DataType.synclog ∷ []) (u64_bytes (big_endian n)) g.0
                  (u64_bytes (big_endian m)) above below x)
            | inr (t, x) ↦
                let at : g.0 ≡ DataType.synclog ∷ t =
                  append-strip (DataType.synclog ∷ []) g.0 t x in
                let (k, (same, b)) = keys t g.1 (ap (L.content d) (sym at) ∙ e) in
                (k, (at ∙ same, b))
          ]
    ]
  ]

  -- Where no read and no iterator meets an error, the log keys are well formed, n is more than 0 and
  -- there is a record of a number m from n on, find_next(n) loads the record of a number k: it is at
  -- least n, and not more than m.
  pub find_next-least :
      (n m : ℕ) (v : Bytes)
      → HasSeqKeys (L.content d)
      → 0 < n
      → n ≤ m
      → m < 2 ^ 64
      → L.content d (encode_seq_key m) ≡ some v
      → (k : ℕ) × (w : Bytes) × (n ≤ k)
        × (k ≤ m)
        × (L.content d (encode_seq_key k) ≡ some w)
        × (find_next L I d n ≡ loaded (load w))
  find_next-least n m v keys p q r e =
      let es = I.entries d in
      let sorted : IsSorted es = I.entries-IsSorted d in
      let n_fits : n < 2 ^ 64 = omega (arith, q, r) in
      let start : lt (encode_seq_key m) (encode_seq_key n) ≡ false =
        lt-seq m n r n_fits ∙ not_below n m q in
      let (g, (at, own, low, least)) =
        first-least (encode_seq_key n) es (encode_seq_key m) v sorted start
          (I.find-entries d (encode_seq_key m) ∙ e) in
      let held : L.content d g.0 ≡ some g.1 = sym (I.find-entries d g.0) ∙ own in
      let (k, (same, fits)) = log-key n m g keys n_fits r held low least in
      let from_n : n ≤ k =
        below_le k n
          (sym (lt-seq k n fits n_fits) ∙ ap (λ s. lt s (encode_seq_key n)) (sym same) ∙ low) in
      let to_m : k ≤ m =
        below_le m k (sym (lt-seq m k r fits) ∙ ap (lt (encode_seq_key m)) (sym same) ∙ least) in
      let record_k : L.content d (encode_seq_key k) ≡ some g.1 =
        ap (L.content d) (sym same) ∙ held in
      let first : head (from (encode_seq_key n) es) ≡ some (encode_seq_key k, g.1) =
        at ∙ ap (λ s. some (s, g.1)) same in
      let only : (u : Bytes) → L.content d (encode_seq_key n) ≡ some u → n ≡ k = λ u x.
        (let (g', (at', own', low', least')) =
            first-least (encode_seq_key n) es (encode_seq_key n) u sorted
              (lt_irrefl (encode_seq_key n)) (I.find-entries d (encode_seq_key n) ∙ x) in
          let again : some g' ≡ some (encode_seq_key k, g.1) = sym at' ∙ first in
          let entry : g' ≡ (encode_seq_key k, g.1) = cc again in
          let back : k ≤ n = below_le n k (
            sym (lt-seq n k n_fits fits)
            ∙ ap (λ x. lt (encode_seq_key n) x.0) (sym entry)
            ∙ least') in
          omega (arith, from_n, back)) in
      (
        k,
        g.1,
        from_n,
        to_m,
        record_k,
        find_next-at n k g.1 from_n (omega (arith, p, from_n)) fits record_k first only,
      )
