-- ===== src/Scan/ClearAll.antt =====
-- The loop of SSDBImpl::hclear over pages, and the lemmas on a page that it rests on.
use php.Prelude.{
  ℕ, zero, suc, ◌+◌, ◌<◌, ◌≡◌, refl, sym, ap, ◌∙◌, Bool, true, false, Option, none, some, List, [],
  if◌then◌else◌, ◌∷◌, ◌++◌, arith, take, length, Bool-cases, inl, inr,
}
use php.Prelude.Int.{ℤ, pos}
use php.Bytes.{Bytes, eqb, is_empty}
use php.Bytes.Compare.{eqb_iff}
use php.Keys.DataType
use php.LevelDb.{LevelDb}
use php.LevelDb.Laws.{IsHealthy}
use php.LevelDb.Iterators.{Entry, AllAfter, IsSorted, find, Iterators, IsIterable}
use php.LevelDb.Ordered.{found-Each}
use php.Binlog.{Ssdb}
use php.Hash.Fields.{Fields, lookup}
use php.Hash.Model.{Holds}
use php.Iterator.{h_seen}
use php.Iterator.Range.{in_range, iterator-Gives}
use php.Iterator.Range.Keep.{keep, keep-IsSorted}
use php.Iterator.Section.{bound, collect-range}
use php.Scan.{hscan, hclear_page, hclear}
use php.Scan.Range.{length-take_lt, find-keep, section-IsSorted}
use php.Scan.Fields.{hash_prefix, fields, find-fields, hscan-prefix, entries-Reads}
use php.Scan.Clear.{Within, Stands, Deleted, hclear_page-Deleted}

take-AllAfter : (k : Bytes) (n : ℕ) (es : List Entry) → AllAfter k es → AllAfter k (take n es)
take-AllAfter k zero es a = tt
take-AllAfter k (suc n) [] a = tt
take-AllAfter k (suc n) (e ∷ es) (b, a) = (b, take-AllAfter k n es a)

take-IsSorted : (n : ℕ) (es : List Entry) → IsSorted es → IsSorted (take n es)
take-IsSorted zero es s = tt
take-IsSorted (suc n) [] s = tt
take-IsSorted (suc n) (e ∷ es) (a, s) = (take-AllAfter e.0 n es a, take-IsSorted n es s)

take-Within : (m : Fields) (n : ℕ) (es : List Entry) → Within m es → Within m (take n es)
take-Within m zero es w = tt
take-Within m (suc n) [] w = tt
take-Within m (suc n) (e ∷ es) (h, w) = (h, take-Within m n es w)

keep-Within : (m : Fields) (q : Bytes → Bool) (es : List Entry) → Within m es → Within m (keep q es)
keep-Within m q [] w = tt
keep-Within m q (e ∷ es) (h, w) = elim (Bool-cases (q e.0)) [
  | inl x ↦ rw x (h, keep-Within m q es w)
  | inr x ↦ rw x (keep-Within m q es w)
]

-- Sorted entries are each found.
found-Within :
    (m : Fields) (es : List Entry)
    → IsSorted es
    → ((k v : Bytes) → find es k ≡ some v → lookup m k ≡ some v)
    → Within m es
found-Within m es s h = found-Each (λ e. lookup m e.0 ≡ some e.1) es s h

in_range-all : (k : Bytes) → is_empty k ≡ false → in_range [] [] k ≡ true
in_range-all [] h = sym h
in_range-all (c ∷ k) h = refl

module _ (L : LevelDb) (I : Iterators L) (name : Bytes) (s : Ssdb L) (m : Fields)
    (st : Stands L name s m) where
  -- The fields that a page of hclear finds.
  abbrev page : ℕ → List Entry
  page limit = take limit (keep (in_range [] []) (fields L I s.db name))

  find-m : (k : Bytes) → find (fields L I s.db name) k ≡ lookup m k
  find-m k = find-fields L I s.db name k ∙ st.holds.fields k

  all-IsSorted : IsSorted (fields L I s.db name)
  all-IsSorted =
      section-IsSorted (DataType.hash ∷ hash_prefix name) (I.entries s.db) (I.entries-IsSorted s.db)

  page-IsSorted : (limit : ℕ) → IsSorted (page limit)
  page-IsSorted limit =
      take-IsSorted limit (keep (in_range [] []) (fields L I s.db name))
        (keep-IsSorted (in_range [] []) (fields L I s.db name) all-IsSorted)

  page-Within : (limit : ℕ) → Within m (page limit)
  page-Within limit = take-Within m limit (keep (in_range [] []) (fields L I s.db name)) (
      keep-Within m (in_range [] []) (fields L I s.db name)
        (found-Within m (fields L I s.db name) all-IsSorted (λ k v x. sym (find-m k) ∙ x)))

  -- A field is on no page only if there is none.
  no_field :
      (k v : Bytes)
      → lookup m k ≡ some v
      → keep (in_range [] []) (fields L I s.db name) ≡ []
      → none ≡ some v
  no_field k v e h =
      ap (λ l. find l k) (sym h)
      ∙ find-keep (in_range [] []) k (fields L I s.db name)
      ∙ ap (λ b. if b then find (fields L I s.db name) k else none)
          (in_range-all k (st.valid k v e).key_given)
      ∙ find-m k
      ∙ e

first_field : (k v : Bytes) (m : Fields) → lookup ((k, v) ∷ m) k ≡ some v
unfolding lookup
first_field k v m = let here : eqb k k ≡ true = (eqb_iff k k).1 refl in rw here refl

no_length : (m : Fields) → length m ≡ 0 → m ≡ []
no_length [] h = refl
no_length (x ∷ m) h = absurd (omega (arith, h))

take_none : (n : ℕ) (es : List Entry) → take (suc n) es ≡ [] → es ≡ []
take_none n [] h = refl
take_none n (e ∷ es) h = cc h

empty_page :
    (L : LevelDb) (I : Iterators L) (name : Bytes) (s : Ssdb L) (m : Fields)
    (st : Stands L name s m) (n : ℕ)
    → page L I name s m st (suc n) ≡ []
    → m ≡ []
empty_page L I name s [] st n h = refl
empty_page L I name s ((k, v) ∷ m) st n h = cc (
    no_field L I name s ((k, v) ∷ m) st k v (first_field k v m)
      (take_none n (keep (in_range [] []) (fields L I s.db name)) h))

module _ (L : LevelDb) (I : Iterators L) (name : Bytes) (short : length name < 256)
    (healthy : (s : Ssdb L) → IsHealthy L s.db)
    (iterable : (s : Ssdb L) → IsIterable L I s.db) where
  page-Deleted :
      (limit : ℕ) (s : Ssdb L) (m : Fields) (st : Stands L name s m)
      → Deleted L I name healthy
          (hclear_page L I (suc limit) name (hscan L I s name [] [] limit) 0 s)
          0
          (page L I name s m st limit)
          m
  page-Deleted limit s m st =
      let p : Bytes = hash_prefix name in
      let es : List Entry = I.entries s.db in
      let l : List Entry =
        take limit
          (keep (in_range ((DataType.hash ∷ p) ++ []) (bound (DataType.hash ∷ p) [])) es) in
      hclear_page-Deleted L I name healthy (suc limit) 0 s (hscan L I s name [] [] limit) m
        (page L I name s m st limit) l
        (rw (hscan-prefix L I s name [] [] limit) (
          iterator-Gives L I s.db (iterable s) ((DataType.hash ∷ p) ++ [])
            (bound (DataType.hash ∷ p) []) limit))
        (length-take_lt limit
          (keep (in_range ((DataType.hash ∷ p) ++ []) (bound (DataType.hash ∷ p) [])) es))
        (collect-range (h_seen name) DataType.hash p [] [] limit es (I.entries-IsSorted s.db)
          (entries-Reads L I s name short st.keys))
        (page-IsSorted L I name s m st limit) (page-Within L I name s m st limit) st

  -- What hclear does after a page.
  abbrev turn : ℕ → ℕ → Option ℕ × Ssdb L → Option ℤ × Ssdb L
  turn fuel count x = elim x.0 [
    | none ↦ (some (pos 0), x.1)
    | some zero ↦ (some (pos count), x.1)
    | some (suc k) ↦ hclear L I fuel name (count + suc k) x.1
  ]

  abbrev Cleared : Option ℤ × Ssdb L → ℕ → Type 0
  Cleared y total = (y.0 ≡ some (pos total)) × Holds (L.content y.1.db) name []

  turn-Cleared :
      (fuel count : ℕ) (m : Fields) (fs : List Entry) (x : Option ℕ × Ssdb L)
      → (fs ≡ [] → m ≡ [])
      → Deleted L I name healthy x 0 fs m
      → length m < suc fuel
      → ((c : ℕ) (t : Ssdb L) (rest : Fields)
          → length rest < fuel
          → Stands L name t rest
          → Cleared (hclear L I fuel name c t) (c + length rest))
      → Cleared (turn fuel count x) (count + length m)
  turn-Cleared fuel count m [] x end (rest, e, st, n) h ih =
      let all : m ≡ [] = end refl in
      let over : x.0 ≡ some zero = e in
      let gone : rest ≡ [] = no_length rest (omega (arith, n, ap length all)) in
      let total : count ≡ count + length m = omega (arith, ap length all) in
      let go : turn fuel count x ≡ (some (pos count), x.1) = rw over refl in
      rw go (ap (λ c. some (pos c)) total, rw gone at st.holds)
  turn-Cleared fuel count m (f ∷ fs) x end (rest, e, st, n) h ih =
      let more : x.0 ≡ some (suc (length fs)) = e ∙ ap some (omega arith) in
      let go : turn fuel count x ≡ hclear L I fuel name (count + suc (length fs)) x.1 =
        rw more refl in
      let (r, left) = ih (count + suc (length fs)) x.1 rest (omega (arith, h, n)) st in
      rw go (r ∙ ap (λ c. some (pos c)) (omega (arith, n)), left)

  -- Where no read, write or iterator meets an error, on a database whose keys of fields are well
  -- formed and which holds under the name, of at most 255 bytes, a hash of the fields m, whose keys
  -- are ones that hset takes: with fuel for more turns than there are fields hclear ends, returns
  -- how many fields there were, and leaves an empty hash.
  pub hclear-Holds :
      (fuel count : ℕ) (s : Ssdb L) (m : Fields)
      → length m < fuel
      → Stands L name s m
      → ((hclear L I fuel name count s).0 ≡ some (pos (count + length m)))
        × Holds (L.content (hclear L I fuel name count s).1.db) name []
  unfolding hclear
  hclear-Holds zero count s m h st = absurd (omega (arith, h))
  hclear-Holds (suc fuel) count s m h st =
      turn-Cleared fuel count m (page L I name s m st 1000)
        (hclear_page L I 1001 name (hscan L I s name [] [] 1000) 0 s)
        (empty_page L I name s m st 999) (page-Deleted 1000 s m st) h
        (λ c t rest. hclear-Holds fuel c t rest)
