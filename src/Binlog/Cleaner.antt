-- ===== src/Binlog/Cleaner.antt =====
-- The operations of BinlogQueue in ssdb/binlog.cpp that read and clean the log outside of a
-- transaction: get, find_next, find_last, update, del, del_range and flush. A record is the result
-- 1, `missing` is 0 and `failed` is -1.
use php.Prelude.{
  ℕ, zero, suc, ◌+◌, ◌-◌, ◌^◌, Option, none, some, List, [], ◌∷◌, leb, ◌==◌, if◌then◌else◌,
}
use php.Prelude.Int.{ℤ, pos, u64}
use php.Bytes.{Bytes}
use php.Keys.{encode_seq_key, decode_seq_key}
use php.LevelDb.{LevelDb, Got, failed, missing, found, Update, put, delete}
use php.LevelDb.Iterators.{Entry, Iterators}
use php.Binlog.{Ssdb, minus_one}
use php.Binlog.Record
use php.Binlog.Record.{Binlog, load, repr}
use php.Iterator.{step_back}

-- The result of log->load.
abbrev pub loaded : Option Binlog → Got Binlog
loaded none = failed
loaded (some log) = found log

-- A record at an iterator's place, if it is on one.
abbrev pub record_at : Option Entry → Got Binlog
record_at none = missing
record_at (some e) = if decode_seq_key e.0 == 0 then missing else loaded (load e.1)

-- The lines of del_range that fill a batch of at most `count` deletions: the batch, and `start`.
unfoldable pub del_batch : ℕ → ℕ → ℕ → List Update × ℕ
del_batch zero start end = ([], start)
del_batch (suc count) start end =
    let (batch, next) = del_batch count (u64 (start + 1)) end in
    if leb start end then (delete (encode_seq_key start) ∷ batch, next) else ([], start)

module _ (L : LevelDb) where
  -- BinlogQueue::get: a failed read and a record that does not load are 0, too.
  unfoldable pub get : L.Db → ℕ → Got Binlog
  unfolding load
  get db seq = elim (L.get db (encode_seq_key seq)) [
    | failed ↦ missing
    | missing ↦ missing
    | found val ↦ elim (load val) [ none ↦ missing | some log ↦ found log ]
  ]

  -- BinlogQueue::update
  unfoldable pub update : ℕ → ℕ → ℕ → Bytes → L.Db → ℤ × L.Db
  update seq type cmd key db =
      let (ok, d) =
        L.write db (put (encode_seq_key seq) (repr (Record.binlog seq type cmd key)) ∷ []) in
      (if ok then pos 0 else minus_one, d)

  -- BinlogQueue::del
  unfoldable pub del : ℕ → L.Db → ℤ × L.Db
  del seq db =
      let (ok, d) = L.write db (delete (encode_seq_key seq) ∷ []) in
      (if ok then pos 0 else minus_one, d)

  -- BinlogQueue::del_range, on fuel: none where it runs out.
  unfoldable pub del_range : ℕ → ℕ → ℕ → L.Db → Option ℤ × L.Db
  unfolding del_batch
  del_range zero start end db = (none, db)
  del_range (suc fuel) start end db =
      let (batch, next) = del_batch 1000 start end in
      let (ok, d) = L.write db batch in
      let rest = del_range fuel next end d in
      if leb start end then (if ok then rest else (some minus_one, d)) else (some (pos 0), db)

  -- BinlogQueue::flush
  unfoldable pub flush : ℕ → Ssdb L → Option ℤ × L.Db
  unfolding del_range
  flush fuel s = del_range fuel s.logs.min_seq s.logs.last_seq s.db

  module _ (I : Iterators L) where
    -- BinlogQueue::find_next
    unfoldable pub find_next : L.Db → ℕ → Got Binlog
    unfolding get
    find_next db next_seq =
        let it = I.seek (encode_seq_key next_seq) (I.new_iterator db) in
        elim (get db next_seq) [
          | failed ↦ record_at (I.current it)
          | missing ↦ record_at (I.current it)
          | found log ↦ found log
        ]

    -- BinlogQueue::find_last. Its tests of the place are those of rev_iterator.
    unfoldable pub find_last : L.Db → Got Binlog
    unfolding step_back
    find_last db =
        let it = I.seek (encode_seq_key (2 ^ 64 - 1)) (I.new_iterator db) in
        record_at (I.current (step_back L I it))
