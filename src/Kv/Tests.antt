-- ===== src/Kv/Tests.antt =====
-- The theorem on values at a list of requests, on a database in memory.
use php.Prelude.{◌≡◌, refl, List, [], ◌∷◌, true, arith}
use php.Prelude.Int.{pos}
use php.Bytes.{Bytes, eqb}
use php.LevelDb.{put}
use php.LevelDb.Memory.{memory, memory-IsHealthy}
use php.Binlog.{Ssdb}
use php.Kv.Bits.{setbit, getbit, bit_at}
use php.Kv.GetBit.{getbit-setbit}
use php.Kv.Map.{Request, get, set, setnx, incr, del, multi_set}
use php.Binlog.Log.{Logged}
use php.Binlog.Command
use php.Kv.Log.{multi_set-Logged}
use php.Keys.{encode_kv_key}
use php.Kv.{multi_set as multi_set_op}

abbrev k : Bytes
k = b'k' ∷ []

abbrev j : Bytes
j = b'j' ∷ []

abbrev fresh : Ssdb memory
fresh = record {
  db = [];
  logs = record {
    min_seq = 0;
    last_seq = 0;
    tran_seq = 0;
    capacity = 20000000;
    enabled = true;
    batch = [];
  };
}

abbrev script : List Request
script =
    incr k (pos 7)
    ∷ setnx k j
    ∷ incr k (pos 5)
    ∷ multi_set ((j, k) ∷ ([], k) ∷ [])
    ∷ get j
    ∷ del k
    ∷ set k j
    ∷ incr k (pos 1)
    ∷ []

-- The key k has the value of one byte k, 107, whose bits 0, 1, 3, 5 and 6 are set.
abbrev bits : Ssdb memory
bits = record fresh { db = put (encode_kv_key k) k ∷ [] }

-- The offset 12 lies past it, and the bit 3 is still there.
getbit-setbit_example :
    let after = setbit memory k 12 (pos 1) 1 bits in
    (after.0 ≡ pos 0) × (getbit memory after.1 k 3 ≡ pos 1)
unfolding getbit bit_at php.Kv.get eqb
getbit-setbit_example = getbit-setbit memory bits k k 12 3 (pos 1) 1 memory-IsHealthy refl

multi_set-Logged_example :
    Logged memory fresh
      (multi_set_op memory ((k, j) ∷ (j, k) ∷ []) 1 fresh).1
      1
      ((Command.kset, encode_kv_key k) ∷ (Command.kset, encode_kv_key j) ∷ [])
multi_set-Logged_example =
    multi_set-Logged memory fresh (memory-IsHealthy []) 1 refl ((k, j) ∷ (j, k) ∷ []) refl
      (omega arith)
