-- ===== src/Expiration/Tests.antt =====
-- The theorems on expiration, on a database in memory.
use php.Prelude.{◌≡◌, refl, none, some, [], ◌∷◌, arith, true}
use php.Prelude.Int.{pos}
use php.Bytes.{Bytes, eqb}
use php.LevelDb.{put}
use php.LevelDb.Memory.{memory, memory-IsHealthy}
use php.LevelDb.SortedMemory.{sorted_memory, sorted_memory-IsIterable}
use php.Keys.{encode_kv_key}
use php.SortedSet
use php.Binlog.{Ssdb, BinlogQueue}
use php.Hash.Branches.{IsValid}
use php.Hash.Fields
use php.Hash.Fields.{AreDistinct}
use php.Zset.Model.{Holds}
use php.Expiration.ReadBack.{get_ttl-set_ttl}
use php.Expiration.{ExpirationHandler, list_name, get_ttl, set_ttl, del_ttl, expire_loop}
use php.Expiration.Bounds.{IsBounded}
use php.Expiration.Loop.{handler-IsBounded}
use php.Expiration.Values.{expire_loop-values}

abbrev logs : BinlogQueue
logs = record {
  min_seq = 0;
  last_seq = 0;
  tran_seq = 0;
  capacity = 20000000;
  enabled = true;
  batch = [];
}

abbrev fresh : Ssdb memory
fresh = record { db = []; logs = logs }

abbrev k : Bytes
k = b'k' ∷ []

abbrev start : ExpirationHandler
start = record {
  first_timeout = pos 0;
  fast_keys = record { existed = λ j. none; sorted_set = [] };
}

start-IsBounded : IsBounded start.fast_keys
start-IsBounded = (record { sorted = tt; distinct = tt; agree = λ j. refl }, omega arith)

handler-IsBounded_example :
    IsBounded (set_ttl memory (pos 1000) k (pos 5) start fresh).1.fast_keys
    × IsBounded (del_ttl memory k start fresh).1.fast_keys
    × IsBounded (expire_loop memory sorted_memory (pos 1000) start fresh).0.fast_keys
handler-IsBounded_example =
    handler-IsBounded memory sorted_memory fresh (sorted_memory-IsIterable []) (pos 1000) k (pos 5)
      start start-IsBounded

abbrev v : Bytes
v = b'v' ∷ []

abbrev held : Ssdb memory
held = record { db = put (encode_kv_key k) v ∷ []; logs = logs }

abbrev waiting : ExpirationHandler
waiting = record { first_timeout = pos 0; fast_keys = (SortedSet.add k (pos 5) start.fast_keys).1 }

-- The value of k is there at first, and gone when its time has come.
expire_loop-values_example :
    (memory.content (set_ttl memory (pos 9) k (pos 1) waiting held).2.db (encode_kv_key k) ≡ some v)
    × (memory.content (del_ttl memory k waiting held).2.db (encode_kv_key k) ≡ some v)
    × (memory.content (expire_loop memory sorted_memory (pos 9) waiting held).1.db (encode_kv_key k)
        ≡ none)
unfolding SortedSet.add SortedSet.add_item SortedSet.front eqb
expire_loop-values_example =
    expire_loop-values memory sorted_memory (pos 9) (pos 1) k k waiting held memory-IsHealthy

fresh-Holds : Holds (memory.content []) list_name []
unfolding AreDistinct Fields.lookup
fresh-Holds = record {
  distinct = tt;
  bounded = omega arith;
  members = λ i p. refl;
  scores = λ i z p. refl;
  numbers = λ i w e. cc;
  size = refl;
}

k-IsValid : IsValid list_name k
k-IsValid = record {
  name_given = refl;
  key_given = refl;
  name_fits = omega arith;
  key_fits = omega arith;
}

-- Two seconds after set_ttl for five seconds, three are left.
get_ttl-set_ttl_example :
    ((set_ttl memory (pos 1000) k (pos 5) waiting fresh).0 ≡ pos 0)
    × (get_ttl memory (pos 3000) k (set_ttl memory (pos 1000) k (pos 5) waiting fresh).2 ≡ pos 3)
get_ttl-set_ttl_example =
    get_ttl-set_ttl memory fresh [] k 1000 5 2000 waiting memory-IsHealthy fresh-Holds k-IsValid
      (omega arith) (omega arith) (omega arith)
