-- ===== src/Scan/Fields.antt =====
-- SSDBImpl::hscan and hrscan, the keys of fields, and the typed iterator that reads them.
use php.Prelude.{
  ℕ, suc, ◌%◌, ◌^◌, ◌<◌, ◌≡◌, refl, sym, ap, ◌∙◌, false, Option, none, some, List, [], ◌∷◌, ◌++◌,
  append_assoc, arith, take, length, if◌then◌else◌, Option-cases, Bool-cases, inl, inr, ◌==◌,
}
use php.Bytes.{Bytes, eqb}
use php.Bytes.Compare.{eqb_iff}
use php.Bytes.Order.{strip, strip-append, append-strip}
use php.Keys.{encode_hash_key, decode_hash_key}
use php.Keys.RoundTrip.{decode_hash_key-encode}
use php.Keys.DataType
use php.LevelDb.{LevelDb}
use php.LevelDb.Iterators.{Entry, IsSorted, find, Iterators, IsIterable}
use php.LevelDb.Ordered.{Each, found-Each}
use php.Binlog.{Ssdb}
use php.Hash.Fields.{Fields, lookup}
use php.Hash.Model.{Holds}
use php.Iterator.{iterator, rev_iterator, stop, taken, h_seen, typed_all}
use php.Iterator.Range.{in_range}
use php.Iterator.Range.Keep.{keep, reversed}
use php.Iterator.Range.Backward.{in_rev_range}
use php.Iterator.Section.{reading, section, bound, Reads}
use php.Scan.{hscan, hrscan, key_end, rev_key_start}
use php.Scan.Reverse.{rev_start, rev_range}
use php.Scan.Range.{scan_range, section-IsSorted, find-section}

-- Every key of a field in the database is one that encode_hash_key makes, of a name of at most 255
-- bytes.
abbrev pub IsHashKey : Bytes → Type 0
IsHashKey j = (n : Bytes) × (k : Bytes) × (j ≡ encode_hash_key n k) × (length n < 256)

abbrev pub HasHashKeys : (Bytes → Option Bytes) → Type 0
HasHashKeys c = (j v : Bytes) → c (DataType.hash ∷ j) ≡ some v → IsHashKey (DataType.hash ∷ j)

-- The bytes before the field in a key.
abbrev pub hash_prefix : Bytes → Bytes
hash_prefix name = (length name % 2 ^ 8) ∷ (name ++ b'=' ∷ [])

encode-prefix : (name k : Bytes) → encode_hash_key name k ≡ (DataType.hash ∷ hash_prefix name) ++ k
encode-prefix name k =
    ap (λ s. DataType.hash ∷ (length name % 2 ^ 8) ∷ s) (sym (append_assoc name (b'=' ∷ []) k))

strip-same :
    (name k : Bytes) → strip (DataType.hash ∷ hash_prefix name) (encode_hash_key name k) ≡ some k
strip-same name k =
    ap (strip (DataType.hash ∷ hash_prefix name)) (encode-prefix name k)
    ∙ strip-append (DataType.hash ∷ hash_prefix name) k

strip-other :
    (name n k : Bytes)
    → length name < 256
    → length n < 256
    → eqb n name ≡ false
    → strip (DataType.hash ∷ hash_prefix name) (encode_hash_key n k) ≡ none
strip-other name n k short h y =
    elim (Option-cases (strip (DataType.hash ∷ hash_prefix name) (encode_hash_key n k))) [
      | inl x ↦ x
      | inr (t, x) ↦
          let same : encode_hash_key n k ≡ encode_hash_key name t =
            append-strip (DataType.hash ∷ hash_prefix name) (encode_hash_key n k) t x
            ∙ sym (encode-prefix name t) in
          let read : some (n, k) ≡ some (name, t) =
            sym (decode_hash_key-encode n k h)
            ∙ ap decode_hash_key same
            ∙ decode_hash_key-encode name t short in
          let names : n ≡ name = cc read in cc (y, (eqb_iff n name).1 names)
    ]

reading-in :
    (p : Bytes) (e : Entry) (t : Bytes) → strip p e.0 ≡ some t → reading p e ≡ taken (t, e.1)
reading-in p e t x = rw (x, reading) refl

reading-out : (p : Bytes) (e : Entry) → strip p e.0 ≡ none → reading p e ≡ stop
reading-out p e x = rw (x, reading) refl

h_seen-encode :
    (name n k v : Bytes)
    → length n < 256
    → h_seen name (encode_hash_key n k, v) ≡ (if eqb n name then taken (k, v) else stop)
unfolding h_seen
h_seen-encode name n k v h = rw (decode_hash_key-encode n k h) refl

h_seen-key :
    (name n k v : Bytes)
    → length name < 256
    → length n < 256
    → h_seen name (encode_hash_key n k, v)
      ≡ reading (DataType.hash ∷ hash_prefix name) (encode_hash_key n k, v)
h_seen-key name n k v short h = elim (Bool-cases (eqb n name)) [
  | inl y ↦
      let same : n ≡ name = (eqb_iff n name).0 y in
      let at : strip (DataType.hash ∷ hash_prefix name) (encode_hash_key n k) ≡ some k =
        ap (λ m. strip (DataType.hash ∷ hash_prefix name) (encode_hash_key m k)) same
        ∙ strip-same name k in
      h_seen-encode name n k v h
      ∙ ap (λ b. if b then taken (k, v) else stop) y
      ∙ sym (reading-in (DataType.hash ∷ hash_prefix name) (encode_hash_key n k, v) k at)
  | inr y ↦
      h_seen-encode name n k v h
      ∙ ap (λ b. if b then taken (k, v) else stop) y
      ∙ sym (
          reading-out (DataType.hash ∷ hash_prefix name) (encode_hash_key n k, v)
            (strip-other name n k short h y))
]

-- At an entry whose key, if it is one of a field, is well formed.
h_seen-reading :
    (name : Bytes) (e : Entry)
    → length name < 256
    → ((j : Bytes) → e.0 ≡ DataType.hash ∷ j → IsHashKey (DataType.hash ∷ j))
    → h_seen name e ≡ reading (DataType.hash ∷ hash_prefix name) e
unfolding h_seen
h_seen-reading name ([], v) short h = refl
h_seen-reading name (c ∷ j, v) short h = elim (Bool-cases (c == DataType.hash)) [
  | inl y ↦
      let type : c ≡ DataType.hash = ground (arith, y) in
      let key = h j (ap (λ b. b ∷ j) type) in
      let at : c ∷ j ≡ encode_hash_key key.0 key.1 = ap (λ b. b ∷ j) type ∙ key.2 in
      ap (λ s. h_seen name (s, v)) at
      ∙ h_seen-key name key.0 key.1 v short key.3
      ∙ ap (λ s. reading (DataType.hash ∷ hash_prefix name) (s, v)) (sym at)
  | inr y ↦ ground (arith, y)
]

fields_read :
    (name : Bytes) (es : List Entry)
    → length name < 256
    → Each (λ e. (j : Bytes) → e.0 ≡ DataType.hash ∷ j → IsHashKey (DataType.hash ∷ j)) es
    → Reads (h_seen name) (DataType.hash ∷ hash_prefix name) es
fields_read name [] short h = tt
fields_read name (e ∷ es) short (first, later) =
    (h_seen-reading name e short first, fields_read name es short later)

end-prefix :
    (name end : Bytes)
    → key_end (encode_hash_key name) end ≡ bound (DataType.hash ∷ hash_prefix name) end
end-prefix name [] = refl
end-prefix name (c ∷ end) = encode-prefix name (c ∷ end)

start-prefix :
    (name start : Bytes)
    → rev_key_start (encode_hash_key name) start
      ≡ (DataType.hash ∷ hash_prefix name) ++ rev_start start
start-prefix name [] =
    ap (λ k. k ++ 255 ∷ []) (encode-prefix name [])
    ∙ append_assoc (DataType.hash ∷ hash_prefix name) [] (255 ∷ [])
start-prefix name (c ∷ start) = encode-prefix name (c ∷ start)

module _ (L : LevelDb) (I : Iterators L) (d : L.Db) (name : Bytes) where
  -- The fields and values under the name, in order.
  abbrev pub fields : List Entry
  fields = section (DataType.hash ∷ hash_prefix name) (I.entries d)

  pub find-fields : (k : Bytes) → find fields k ≡ L.content d (encode_hash_key name k)
  find-fields k =
      find-section (DataType.hash ∷ hash_prefix name) k (I.entries d)
      ∙ I.find-entries d ((DataType.hash ∷ hash_prefix name) ++ k)
      ∙ ap (L.content d) (sym (encode-prefix name k))

module _ (L : LevelDb) (I : Iterators L) (s : Ssdb L) (name : Bytes) where
  -- hscan as an iterator on the keys with the prefix.
  pub hscan-prefix :
      (start end : Bytes) (limit : ℕ)
      → hscan L I s name start end limit
        ≡ iterator L I s.db
            ((DataType.hash ∷ hash_prefix name) ++ start)
            (bound (DataType.hash ∷ hash_prefix name) end)
            limit
  unfolding hscan
  hscan-prefix start end limit =
      ap (λ a. iterator L I s.db a (key_end (encode_hash_key name) end) limit)
        (encode-prefix name start)
      ∙ ap (λ b. iterator L I s.db ((DataType.hash ∷ hash_prefix name) ++ start) b limit)
          (end-prefix name end)

  hrscan-prefix :
      (start end : Bytes) (limit : ℕ)
      → hrscan L I s name start end limit
        ≡ rev_iterator L I s.db
            ((DataType.hash ∷ hash_prefix name) ++ rev_start start)
            (bound (DataType.hash ∷ hash_prefix name) end)
            limit
  unfolding hrscan
  hrscan-prefix start end limit =
      ap (λ a. rev_iterator L I s.db a (key_end (encode_hash_key name) end) limit)
        (start-prefix name start)
      ∙ ap
          (λ b.
            rev_iterator L I s.db ((DataType.hash ∷ hash_prefix name) ++ rev_start start) b limit)
          (end-prefix name end)

  pub entries-Reads :
      length name < 256
      → HasHashKeys (L.content s.db)
      → Reads (h_seen name) (DataType.hash ∷ hash_prefix name) (I.entries s.db)
  entries-Reads short keys = fields_read name (I.entries s.db) short (
      found-Each _ (I.entries s.db) (I.entries-IsSorted s.db)
        (λ k v x j at. keys j v (ap (L.content s.db) (sym at) ∙ sym (I.find-entries s.db k) ∙ x)))

  -- On a database whose iterators meet no error, whose keys of fields are well formed and which
  -- holds the fields m under a name of at most 255 bytes, a loop over
  -- hscan(name, start, end, limit) reads the first `limit` fields after start and up to end (all,
  -- where end is empty), in order, with their values, and one over hrscan in the opposite order the
  -- first `limit` fields before start and not before end, where an empty start stands for the
  -- string of one byte 255: the list they take them from is sorted and gives for a field k what m
  -- does.
  pub hscan-fields :
      IsIterable L I s.db
      → length name < 256
      → HasHashKeys (L.content s.db)
      → (m : Fields) → Holds (L.content s.db) name m
      → (start end : Bytes) (limit : ℕ) (k : Bytes)
      → (typed_all (h_seen name) L I (suc limit) (hscan L I s name start end limit)
          ≡ take limit (keep (in_range start end) (fields L I s.db name)))
        × (typed_all (h_seen name) L I (suc limit) (hrscan L I s name start end limit)
            ≡ take limit
                (reversed [] (keep (in_rev_range (rev_start start) end) (fields L I s.db name))))
        × IsSorted (fields L I s.db name)
        × (find (fields L I s.db name) k ≡ lookup m k)
  hscan-fields ok short keys m holds start end limit k = (
    ap (typed_all (h_seen name) L I (suc limit)) (hscan-prefix start end limit)
        ∙ scan_range L I s.db ok (h_seen name) DataType.hash (hash_prefix name)
            (entries-Reads short keys) start end limit,
    ap (typed_all (h_seen name) L I (suc limit)) (hrscan-prefix start end limit)
        ∙ rev_range L I s.db ok (h_seen name) DataType.hash (hash_prefix name)
            (entries-Reads short keys) (rev_start start) end limit,
    section-IsSorted (DataType.hash ∷ hash_prefix name) (I.entries s.db) (I.entries-IsSorted s.db),
    find-fields L I s.db name k ∙ holds.fields k,
  )
