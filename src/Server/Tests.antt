-- ===== src/Server/Tests.antt =====
-- The theorems on requests at concrete words, on a database in memory.
use php.Prelude.{◌≡◌, refl, some, [], ◌∷◌, arith, true}
use php.Prelude.Int.{pos}
use php.Bytes.{Bytes}
use php.LevelDb.Memory.{memory, memory-IsHealthy, content}
use php.Binlog.{Ssdb, BinlogQueue}
use php.Net.Response.Words.{ok}
use php.Queue.Model.{Represents, IsVacant}
use php.Queue.Run.{HasRoom}
use php.Hash.Branches.{IsValid}
use php.Hash.Fields
use php.Hash.Fields.{AreDistinct}
use php.Hash.Model.{Holds}
use php.Server.ProcQueue.{
  front, back, proc_qpush_func, proc_qpop_func, proc_qtrim_func, proc_qclear,
}
use php.Server.ProcHash.{proc_multi_hset}
use php.Server.QueueModel.{
  proc_qpush_func-HasRoom, proc_qpop_func-Represents, proc_qtrim_func-Represents,
  proc_qclear_empties,
}
use php.Server.HashModel.{proc_multi_hset-Holds}

abbrev name : Bytes
name = b'q' ∷ []

abbrev a : Bytes
a = b'a' ∷ []

abbrev b : Bytes
b = b'b' ∷ []

abbrev two : Bytes
two = b'2' ∷ []

abbrev logs : BinlogQueue
logs = record {
  min_seq = 0;
  last_seq = 0;
  tran_seq = 0;
  capacity = 20000000;
  enabled = true;
  batch = [];
}

abbrev fresh : Ssdb memory
fresh = record { db = []; logs = logs }

fresh-IsVacant : IsVacant (content []) name
fresh-IsVacant = record { no_size = refl; no_front = refl; no_back = refl }

abbrev pushed : Ssdb memory
pushed = (proc_qpush_func memory back ((b'p' ∷ []) ∷ name ∷ a ∷ b ∷ []) [] fresh).1

proc_qpush_func-HasRoom_example :
    let r = proc_qpush_func memory back ((b'p' ∷ []) ∷ name ∷ a ∷ b ∷ []) [] fresh in
    (r.0 ≡ (pos 0, ok ∷ two ∷ [])) × HasRoom (content r.1.db) name 5 (a ∷ b ∷ [])
unfolding php.Strings.Number.str php.Strings.Number.decimal
proc_qpush_func-HasRoom_example =
    proc_qpush_func-HasRoom memory name memory-IsHealthy back (b'p' ∷ []) a (b ∷ []) [] fresh 5 []
      (fresh-IsVacant, omega arith)

pushed-Represents : Represents (content pushed.db) name (a ∷ b ∷ [])
pushed-Represents =
    let (f, held, low, mid, high) =
      (proc_qpush_func-HasRoom memory name memory-IsHealthy back (b'p' ∷ []) a (b ∷ []) [] fresh 5
        [] (fresh-IsVacant, omega arith)).1 in
    (f, held)

proc_qpop_func-Represents_example :
    let r = proc_qpop_func memory back ((b'p' ∷ []) ∷ name ∷ two ∷ []) [] pushed in
    (r.0 ≡ (pos 0, ok ∷ b ∷ a ∷ [])) × Represents (content r.1.db) name []
unfolding php.Strings.Number.str_to_uint64
proc_qpop_func-Represents_example =
    proc_qpop_func-Represents memory name memory-IsHealthy back (b'p' ∷ []) two [] [] pushed
      (b ∷ a ∷ []) (omega arith) pushed-Represents

proc_qtrim_func-Represents_example :
    let r = proc_qtrim_func memory front ((b'p' ∷ []) ∷ name ∷ two ∷ []) [] pushed in
    (r.0 ≡ (pos 0, ok ∷ two ∷ [])) × Represents (content r.1.db) name []
unfolding php.Strings.Number.str_to_uint64 php.Strings.Number.str php.Strings.Number.decimal
proc_qtrim_func-Represents_example =
    proc_qtrim_func-Represents memory name memory-IsHealthy front (b'p' ∷ []) two [] [] pushed
      (a ∷ b ∷ []) (omega arith) pushed-Represents

proc_qclear_empties_example :
    (t : Ssdb memory) × (proc_qclear memory 3 ((b'p' ∷ []) ∷ name ∷ []) [] pushed
      ≡ some ((pos 0, ok ∷ two ∷ []), t))
    × IsVacant (content t.db) name
unfolding php.Strings.Number.str php.Strings.Number.decimal
proc_qclear_empties_example =
    proc_qclear_empties memory name memory-IsHealthy 3 (b'p' ∷ []) [] [] pushed (a ∷ b ∷ [])
      (omega arith) pushed-Represents

field-IsValid : IsValid name a
field-IsValid = record {
  name_given = refl;
  key_given = refl;
  name_fits = omega arith;
  key_fits = omega arith;
}

no_fields : Holds (content []) name []
unfolding AreDistinct Fields.lookup
no_fields = record { distinct = tt; bounded = omega arith; fields = λ k. refl; size = refl }

proc_multi_hset-Holds_example :
    let r = proc_multi_hset memory ((b'p' ∷ []) ∷ name ∷ a ∷ a ∷ a ∷ two ∷ []) [] fresh in
    (r.0 ≡ (pos 0, ok ∷ (b'1' ∷ []) ∷ [])) × Holds (content r.1.db) name ((a, two) ∷ [])
unfolding Fields.put php.Bytes.eqb php.Strings.Number.str php.Strings.Number.decimal
proc_multi_hset-Holds_example =
    proc_multi_hset-Holds memory name memory-IsHealthy (b'p' ∷ []) a a ((a, two) ∷ []) [] fresh []
      (field-IsValid, (field-IsValid, tt)) (omega arith) (omega arith) no_fields
