-- ===== src/Binlog/CleanerTests.antt =====
-- The theorems on the reader and the cleaner of the log, on a database in memory.
use php.Prelude.{
  ℕ, ◌≤◌, ◌≡◌, refl, sym, some, none, List, true, [], ◌∷◌, arith, Bool-cases, inl, inr, leb, ◌&&◌,
  if◌then◌else◌,
}
use php.Prelude.Int.{pos}
use php.Bytes.{Bytes, eqb}
use php.Bytes.Compare.{eqb_iff}
use php.Keys.{encode_seq_key}
use php.Keys.DataType
use php.LevelDb.{Update, put}
use php.LevelDb.Memory.{memory, memory-IsHealthy, content}
use php.LevelDb.SortedMemory.{sorted_memory, sorted_memory-IsIterable}
use php.Binlog.Record.{binlog, repr, load}
use php.Binlog.Cleaner.{find_next, del_range, loaded}
use php.Binlog.CleanerLaws.{del_range-content}
use php.Binlog.FindNext.{HasSeqKeys, find_next-least}

abbrev record_7 : Bytes
record_7 = repr (binlog 7 1 3 [])

abbrev db : List Update
db = put (encode_seq_key 7) record_7 ∷ []

del_range-content_example :
    ((del_range memory 3 6 7 db).0 ≡ some (pos 0))
    × (content (del_range memory 3 6 7 db).1 (encode_seq_key 7)
        ≡ (if leb 6 7 && leb 7 7 then none else content db (encode_seq_key 7)))
del_range-content_example =
    del_range-content memory memory-IsHealthy 3 6 7 db 7 (omega arith) (omega arith) (omega arith)
      (omega arith)

db-HasSeqKeys : HasSeqKeys (content db)
db-HasSeqKeys j v h = elim (Bool-cases (eqb (encode_seq_key 7) (DataType.synclog ∷ j))) [
  | inl y ↦ (7, (sym ((eqb_iff (encode_seq_key 7) (DataType.synclog ∷ j)).0 y), omega arith))
  | inr y ↦ cc (rw y at h)
]

held : content db (encode_seq_key 7) ≡ some record_7
held =
    let own : eqb (encode_seq_key 7) (encode_seq_key 7) ≡ true =
      (eqb_iff (encode_seq_key 7) (encode_seq_key 7)).1 refl in
    rw own refl

find_next-least_example :
    (k : ℕ) × (w : Bytes) × (5 ≤ k)
    × (k ≤ 7)
    × (content db (encode_seq_key k) ≡ some w)
    × (find_next memory sorted_memory db 5 ≡ loaded (load w))
find_next-least_example =
    find_next-least memory sorted_memory db (memory-IsHealthy db) (sorted_memory-IsIterable db) 5 7
      record_7 db-HasSeqKeys (omega arith) (omega arith) (omega arith) held
