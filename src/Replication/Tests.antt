-- ===== src/Replication/Tests.antt =====
-- The theorem on replication at concrete changes, on databases in memory.
use php.Prelude.{◌≡◌, refl, none, List, [], ◌∷◌, true, arith}
use php.Bytes.{Bytes}
use php.Keys.{encode_kv_key}
use php.LevelDb.Memory.{memory, memory-IsHealthy, content}
use php.Binlog.{Ssdb, BinlogQueue}
use php.Kv
use php.Kv.Map.{Map, insert, remove}
use php.Kv.Refine.{set-Represents, del-Represents}
use php.Replication.{Slave}
use php.Replication.Changes.{Change, written, removed}
use php.Replication.Replay.{relay_all, relay_all-Represents}

abbrev k : Bytes
k = b'k' ∷ []

abbrev j : Bytes
j = b'j' ∷ []

abbrev logs : BinlogQueue
logs = record {
  min_seq = 0;
  last_seq = 0;
  tran_seq = 0;
  capacity = 20000000;
  enabled = true;
  batch = [];
}

abbrev fresh : Ssdb memory
fresh = record { db = []; logs = logs }

abbrev nothing : Map
nothing i = none

-- The master sets k and j, and deletes j.
abbrev first : Ssdb memory
first = (Kv.set memory k j 1 fresh).1

abbrev second : Ssdb memory
second = (Kv.set memory j k 1 first).1

abbrev master : Ssdb memory
master = (Kv.del memory j 1 second).1

first-holds : (i : Bytes) → content first.db (encode_kv_key i) ≡ insert nothing k j i
first-holds = (set-Represents memory 1 fresh (memory-IsHealthy []) nothing (λ i. refl) k j).1

second-holds : (i : Bytes) → content second.db (encode_kv_key i) ≡ insert (insert nothing k j) j k i
second-holds =
    (set-Represents memory 1 first (memory-IsHealthy first.db) (insert nothing k j) first-holds j
      k).1

master-holds :
    (i : Bytes) → content master.db (encode_kv_key i) ≡ remove (insert (insert nothing k j) j k) j i
master-holds =
    (del-Represents memory 1 second (memory-IsHealthy second.db) (insert (insert nothing k j) j k)
      second-holds j).1

abbrev slave : Slave memory
slave = record { ssdb = fresh; last_seq = 0; last_key = []; log_type = 1 }

abbrev changes : List Change
changes = written k j ∷ written j k ∷ removed j ∷ []

relay_all-Represents_example :
    content (relay_all memory master 0 changes slave).ssdb.db (encode_kv_key j)
    ≡ content master.db (encode_kv_key j)
relay_all-Represents_example =
    relay_all-Represents memory memory-IsHealthy master (remove (insert (insert nothing k j) j k) j)
      master-holds changes 0 slave nothing (refl, (refl, tt)) (omega arith) (λ i. refl) (λ i. refl)
      j
