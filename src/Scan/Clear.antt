-- ===== src/Scan/Clear.antt =====
-- A page of SSDBImpl::hclear: the loop that deletes the fields it finds.
use php.Prelude.{
  ℕ, zero, suc, ◌+◌, ◌<◌, ◌≡◌, refl, sym, ap, ◌∙◌, false, Option, none, some, List, [], ◌∷◌, arith,
  length, if◌then◌else◌, Bool-cases, inl, inr,
}
use php.Prelude.Int.{pos}
use php.Bytes.{Bytes, eqb}
use php.Bytes.Order.{lt-eqb}
use php.LevelDb.{LevelDb}
use php.LevelDb.Laws.{IsHealthy}
use php.LevelDb.Iterators.{Entry, AllAfter, IsSorted, Iterators}
use php.LevelDb.Ordered.{Each}
use php.Binlog.{Ssdb, is_minus_one}
use php.Hash.{hdel}
use php.Hash.Fields.{Fields, lookup, erase, lookup-erase, length-erase, count_of}
use php.Hash.Model.{Holds}
use php.Hash.Branches.{IsValid}
use php.Hash.Refine.{hdel-Holds}
use php.Iterator.{Iterator, h_seen, typed_next}
use php.Iterator.Gives.{Gives}
use php.Iterator.Typed.{collect, Follows, typed_next-Follows}
use php.Scan.{hclear_page}
use php.Scan.Fields.{HasHashKeys}
use php.Scan.Kept.{hdel-HasHashKeys}

-- The entries are fields of m with their values.
abbrev pub Within : Fields → List Entry → Type 0
Within m es = Each (λ e. lookup m e.0 ≡ some e.1) es

-- The keys of the fields are ones that hset takes.
abbrev pub AreValid : Bytes → Fields → Type 0
AreValid name m = (k v : Bytes) → lookup m k ≡ some v → IsValid name k

abbrev erase_all : List Entry → Fields → Fields
erase_all [] m = m
erase_all (e ∷ es) m = erase_all es (erase m e.0)

-- What a deletion that is done on the entries of a page makes of the database.
module _ (L : LevelDb) (name : Bytes) where
  pub record Stands (s : Ssdb L) (m : Fields) : Type 0 where
    pub holds : Holds (L.content s.db) name m
    pub keys : HasHashKeys (L.content s.db)
    pub valid : AreValid name m

  erase-AreValid : (s : Ssdb L) (m : Fields) (k : Bytes) → Stands s m → AreValid name (erase m k)
  erase-AreValid s m k h i v e =
      let at = lookup-erase m k i h.holds.distinct in
      elim (Bool-cases (eqb k i)) [
        | inl y ↦ cc (rw y at at, e)
        | inr y ↦ h.valid i v (sym (rw y at at) ∙ e)
      ]

  hdel-Stands :
      (s : Ssdb L) (m : Fields) (k v : Bytes)
      → IsHealthy L s.db
      → Stands s m
      → lookup m k ≡ some v
      → ((hdel L name k 1 s).0 ≡ pos 1) × Stands (hdel L name k 1 s).1 (erase m k)
  hdel-Stands s m k v healthy h e =
      let valid : IsValid name k = h.valid k v e in
      let (r, after) = hdel-Holds L s name m k 1 healthy h.holds valid in
      (
        r ∙ ap (λ o. pos (count_of o)) e,
        record {
          holds = after;
          keys = hdel-HasHashKeys L s name k 1 healthy valid h.keys;
          valid = erase-AreValid s m k h;
        },
      )

erase-Within :
    (m : Fields) (k : Bytes) (es : List Entry)
    → ((i : Bytes) → eqb k i ≡ false → lookup (erase m k) i ≡ lookup m i)
    → AllAfter k es
    → Within m es
    → Within (erase m k) es
erase-Within m k [] h a w = tt
erase-Within m k (e ∷ es) h (b, a) (f, w) = (h e.0 (lt-eqb k e.0 b) ∙ f, erase-Within m k es h a w)

module _ (L : LevelDb) (I : Iterators L) (name : Bytes)
    (healthy : (s : Ssdb L) → IsHealthy L s.db) where
  -- A page has deleted so many fields.
  abbrev pub Deleted : Option ℕ × Ssdb L → ℕ → List Entry → Fields → Type 0
  Deleted x num fs m =
      (rest : Fields) × (x.0 ≡ some (num + length fs))
      × Stands L name x.1 rest
      × (length rest + length fs ≡ length m)

  -- The turn of hclear_page, from what the iterator gives.
  abbrev after : ℕ → ℕ → Ssdb L → Option Entry × Iterator L I → Option ℕ × Ssdb L
  after n num s r = elim r.0 [
    | none ↦ (some num, s)
    | some e ↦
        if is_minus_one (hdel L name e.0 1 s).0
        then (none, (hdel L name e.0 1 s).1)
        else hclear_page L I n name r.1 (suc num) (hdel L name e.0 1 s).1
  ]

  after-Deleted :
      (n num : ℕ) (s : Ssdb L) (m : Fields) (fs : List Entry) (r : Option Entry × Iterator L I)
      (l : List Entry)
      → ((t : Ssdb L) (u : Iterator L I) (m' : Fields) (gs rest : List Entry)
          → Gives L I u rest
          → length rest < n
          → collect (h_seen name) rest ≡ gs
          → IsSorted gs
          → Within m' gs
          → Stands L name t m'
          → Deleted (hclear_page L I n name u (suc num) t) (suc num) gs m')
      → Follows (h_seen name) L I r l
      → length l < suc n
      → collect (h_seen name) l ≡ fs
      → IsSorted fs
      → Within m fs
      → Stands L name s m
      → Deleted (after n num s r) num fs m
  after-Deleted n num s m [] (none, u) l ih f h c sorted w st =
      (m, ap some (omega arith), st, omega arith)
  after-Deleted n num s m (e ∷ fs) (none, u) l ih f h c sorted w st = cc (f, c)
  after-Deleted n num s m [] (some a, u) l ih (rest, (g, (d, less))) h c sorted w st = cc (d, c)
  after-Deleted n num s m (e ∷ fs) (some a, u) l ih (rest, (g, (d, less))) h c (b, sorted) (w0, w)
        st =
      let same : a ≡ e = cc (d, c) in
      let others : collect (h_seen name) rest ≡ fs = cc (d, c) in
      let found : lookup m a.0 ≡ some a.1 = rw same w0 in
      let (ret, stands) = hdel-Stands L name s m a.0 a.1 (healthy s) st found in
      let inside : Within (erase m a.0) fs =
        rw same (
          erase-Within m e.0 fs (λ i ne. lookup-erase m e.0 i st.holds.distinct ∙ rw ne refl) b
            w) in
      let (left, r, st', count) =
        ih (hdel L name a.0 1 s).1 u (erase m a.0) fs rest g (omega (arith, h, less)) others sorted
          inside stands in
      let one : length (erase m a.0) + 1 ≡ length m =
        omega (arith, length-erase m a.0, ap count_of found) in
      let go : after n num s (some a, u)
          ≡ hclear_page L I n name u (suc num) (hdel L name a.0 1 s).1 =
        rw ret refl in
      rw go (left, r ∙ ap some (omega arith), st', omega (arith, count, one))

  pub hclear_page-Deleted :
      (n num : ℕ) (s : Ssdb L) (it : Iterator L I) (m : Fields) (fs l : List Entry)
      → Gives L I it l
      → length l < n
      → collect (h_seen name) l ≡ fs
      → IsSorted fs
      → Within m fs
      → Stands L name s m
      → Deleted (hclear_page L I n name it num s) num fs m
  unfolding hclear_page
  hclear_page-Deleted zero num s it m fs l g h c sorted w st = absurd (omega (arith, h))
  hclear_page-Deleted (suc n) num s it m fs l g h c sorted w st =
      after-Deleted n num s m fs (typed_next (h_seen name) L I (suc n) it) l
        (λ t u m' gs rest. hclear_page-Deleted n (suc num) t u m' gs rest)
        (typed_next-Follows (h_seen name) L I (suc n) it l g h) h c sorted w st
