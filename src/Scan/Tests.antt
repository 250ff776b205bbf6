-- ===== src/Scan/Tests.antt =====
-- The theorems on scans at concrete keys, on a database in memory.
use php.Prelude.{
  ◌+◌, ◌≡◌, refl, sym, some, List, [], ◌∷◌, arith, true, false, length, ◌++◌, ◌%◌, ◌^◌, take,
  Bool-cases, inl, inr,
}
use php.Prelude.Int.{pos}
use php.Bytes.{Bytes, eqb}
use php.Bytes.Compare.{eqb_iff}
use php.Bytes.Words.{u64_bytes}
use php.Keys.{encode_kv_key, encode_hsize_key, encode_hash_key}
use php.Keys.DataType
use php.Keys.Distinct.{eqb_head}
use php.LevelDb.{Update, put}
use php.LevelDb.Iterators.{IsSorted, find}
use php.LevelDb.Memory.{memory, memory-IsHealthy, content}
use php.LevelDb.SortedMemory.{sorted_memory, sorted_memory-IsIterable}
use php.Binlog.{Ssdb, BinlogQueue}
use php.Hash.Branches.{IsValid}
use php.Hash.Fields
use php.Hash.Fields.{Fields, lookup, AreDistinct}
use php.Hash.Model.{Holds, eqb-hash_key}
use php.Iterator.{k_seen, h_seen, typed_all}
use php.Iterator.Range.{in_range}
use php.Iterator.Range.Keep.{keep, reversed}
use php.Iterator.Range.Backward.{in_rev_range}
use php.Scan.{scan, rscan, hscan, hrscan, hclear, hlist, zlist, qlist, hrlist, zrlist, qrlist}
use php.Scan.Range.{scan-values, values}
use php.Scan.Reverse.{rscan-values, rev_start}
use php.Scan.Pages.{scanned, scan_pages}
use php.Scan.Names.{names, rev_names, lists-names}
use php.Scan.Fields.{HasHashKeys, hscan-fields, fields}
use php.Scan.Clear.{Stands}
use php.Scan.ClearAll.{hclear-Holds}

abbrev a : Bytes
a = b'a' ∷ []

abbrev b : Bytes
b = b'b' ∷ []

abbrev c : Bytes
c = b'c' ∷ []

abbrev x : Bytes
x = b'x' ∷ []

abbrev logs : BinlogQueue
logs = record {
  min_seq = 0;
  last_seq = 0;
  tran_seq = 0;
  capacity = 20000000;
  enabled = true;
  batch = [];
}

-- Three values, put out of order, and a hash with one field.
abbrev db : List Update
db =
    put (encode_kv_key b) x
    ∷ put (encode_hash_key a b) x
    ∷ put (encode_kv_key a) x
    ∷ put (encode_hsize_key a) (u64_bytes 1)
    ∷ put (encode_kv_key c) x
    ∷ []

abbrev three : Ssdb memory
three = record { db = db; logs = logs }

-- The loop over a scan, run.
scan_two : scanned memory sorted_memory three a [] 5 ≡ (b, x) ∷ (c, x) ∷ []
unfolding scan typed_all k_seen php.Keys.decode_kv_key php.Bytes.Decoder.skip
    php.Bytes.Decoder.read_data php.Iterator.iterator eqb
scan_two = refl

scan-values_example :
    (typed_all k_seen memory sorted_memory 6 (scan memory sorted_memory three a c 5)
      ≡ take 5 (keep (in_range a c) (values memory sorted_memory db)))
    × IsSorted (values memory sorted_memory db)
    × (find (values memory sorted_memory db) b ≡ content db (encode_kv_key b))
scan-values_example = scan-values memory sorted_memory three (sorted_memory-IsIterable db) a c 5 b

rscan-values_example :
    typed_all k_seen memory sorted_memory 6 (rscan memory sorted_memory three [] a 5)
    ≡ take 5 (reversed [] (keep (in_rev_range (rev_start []) a) (values memory sorted_memory db)))
rscan-values_example = rscan-values memory sorted_memory three (sorted_memory-IsIterable db) [] a 5

scan_first : scanned memory sorted_memory three [] [] 1 ≡ (a, x) ∷ []
unfolding scan typed_all k_seen php.Keys.decode_kv_key php.Bytes.Decoder.skip
    php.Bytes.Decoder.read_data php.Iterator.iterator eqb
scan_first = refl

scan_pages_example :
    scanned memory sorted_memory three [] [] (1 + 2)
    ≡ (a, x) ∷ scanned memory sorted_memory three a [] 2
scan_pages_example =
    scan_pages memory sorted_memory three (sorted_memory-IsIterable db) [] [] 1 2 [] (a, x)
      scan_first

lists-names_example :
    (hlist memory sorted_memory three [] [] 5
      ≡ names memory sorted_memory three DataType.hsize [] [] 5)
    × (zlist memory sorted_memory three [] [] 5
        ≡ names memory sorted_memory three DataType.zsize [] [] 5)
    × (qlist memory sorted_memory three [] [] 5
        ≡ names memory sorted_memory three DataType.qsize [] [] 5)
    × (hrlist memory sorted_memory three [] [] 5
        ≡ rev_names memory sorted_memory three DataType.hsize [] [] 5)
    × (zrlist memory sorted_memory three [] [] 5
        ≡ rev_names memory sorted_memory three DataType.zsize [] [] 5)
    × (qrlist memory sorted_memory three [] [] 5
        ≡ rev_names memory sorted_memory three DataType.qsize [] [] 5)
lists-names_example = lists-names memory sorted_memory three (sorted_memory-IsIterable db) [] [] 5

-- A hash with one field.
abbrev hash_db : List Update
hash_db = put (encode_hash_key a b) x ∷ put (encode_hsize_key a) (u64_bytes 1) ∷ []

abbrev one : Ssdb memory
one = record { db = hash_db; logs = logs }

size_other : (j : Bytes) → eqb (encode_hsize_key a) (DataType.hash ∷ j) ≡ false
size_other j = eqb_head _ _ _ _ (omega arith)

one-Holds : Holds (content hash_db) a ((b, x) ∷ [])
unfolding AreDistinct Fields.lookup
one-Holds =
    let own : eqb (encode_hsize_key a) (encode_hsize_key a) ≡ true =
      (eqb_iff (encode_hsize_key a) (encode_hsize_key a)).1 refl in
    record {
      distinct = (refl, tt);
      bounded = omega arith;
      fields = λ k. rw (size_other (length a % 2 ^ 8 ∷ (a ++ b'=' ∷ k)), eqb-hash_key a b k) refl;
      size = rw own refl;
    }

one-HasHashKeys : HasHashKeys (content hash_db)
one-HasHashKeys j v h = elim (Bool-cases (eqb (encode_hash_key a b) (DataType.hash ∷ j))) [
  | inl y ↦ (a, b, sym ((eqb_iff (encode_hash_key a b) (DataType.hash ∷ j)).0 y), omega arith)
  | inr y ↦ cc (rw (size_other j, y) at h)
]

field-IsValid : (k v : Bytes) → lookup ((b, x) ∷ []) k ≡ some v → IsValid a k
unfolding Fields.lookup
field-IsValid k v h = elim (Bool-cases (eqb b k)) [
  | inl y ↦
      let same : b ≡ k = (eqb_iff b k).0 y in
      let given : IsValid a b = record {
        name_given = refl;
        key_given = refl;
        name_fits = omega arith;
        key_fits = omega arith;
      } in
      rw same at given
  | inr y ↦ cc (rw y at h)
]

one-Stands : Stands memory a one ((b, x) ∷ [])
one-Stands = record { holds = one-Holds; keys = one-HasHashKeys; valid = field-IsValid }

hscan-fields_example :
    (typed_all (h_seen a) memory sorted_memory 6 (hscan memory sorted_memory one a [] c 5)
      ≡ take 5 (keep (in_range [] c) (fields memory sorted_memory hash_db a)))
    × (typed_all (h_seen a) memory sorted_memory 6 (hrscan memory sorted_memory one a [] c 5)
        ≡ take 5 (
            reversed [] (keep (in_rev_range (255 ∷ []) c) (fields memory sorted_memory hash_db a))))
    × IsSorted (fields memory sorted_memory hash_db a)
    × (find (fields memory sorted_memory hash_db a) b ≡ lookup ((b, x) ∷ []) b)
hscan-fields_example =
    hscan-fields memory sorted_memory one a (sorted_memory-IsIterable hash_db) (omega arith)
      one-HasHashKeys ((b, x) ∷ []) one-Holds [] c 5 b

hclear-Holds_example :
    ((hclear memory sorted_memory 2 a 0 one).0 ≡ some (pos 1))
    × Holds (content (hclear memory sorted_memory 2 a 0 one).1.db) a []
hclear-Holds_example =
    hclear-Holds memory sorted_memory a (omega arith) (λ s. memory-IsHealthy s.db)
      (λ s. sorted_memory-IsIterable s.db) 2 0 one ((b, x) ∷ []) (omega arith) one-Stands
