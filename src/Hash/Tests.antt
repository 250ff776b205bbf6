-- ===== src/Hash/Tests.antt =====
-- The theorems on hashes at concrete fields, on a database in memory.
use php.Prelude.{◌≡◌, refl, [], ◌∷◌, arith, true}
use php.Prelude.Int.{pos}
use php.Bytes.{Bytes}
use php.Bytes.Words.{u64_bytes}
use php.Keys.{encode_hsize_key, encode_hash_key}
use php.LevelDb.{put}
use php.LevelDb.Memory.{memory, memory-IsHealthy, content, failing}
use php.Binlog.{Ssdb, BinlogQueue}
use php.Hash.{hset, hdel}
use php.Hash.Branches.{IsValid}
use php.Hash.Fields
use php.Hash.Fields.{Fields, AreDistinct}
use php.Hash.Model.{Holds}
use php.Hash.Refine.{hset-Holds, hdel-Holds}

abbrev name : Bytes
name = b'u' ∷ []

abbrev age : Bytes
age = b'a' ∷ []

abbrev city : Bytes
city = b'c' ∷ []

abbrev x : Bytes
x = b'x' ∷ []

abbrev logs : BinlogQueue
logs = record {
  min_seq = 0;
  last_seq = 0;
  tran_seq = 0;
  capacity = 20000000;
  enabled = true;
  batch = [];
}

abbrev fresh : Ssdb memory
fresh = record { db = []; logs = logs }

fresh-Holds : Holds (content []) name []
unfolding AreDistinct Fields.lookup
fresh-Holds = record { distinct = tt; bounded = omega arith; fields = λ k. refl; size = refl }

abbrev one : Ssdb memory
one = (hset memory name age x 1 fresh).1

age-IsValid : IsValid name age
age-IsValid = record {
  name_given = refl;
  key_given = refl;
  name_fits = omega arith;
  key_fits = omega arith;
}

city-IsValid : IsValid name city
city-IsValid = record {
  name_given = refl;
  key_given = refl;
  name_fits = omega arith;
  key_fits = omega arith;
}

one-Holds : Holds (content one.db) name ((age, x) ∷ [])
unfolding Fields.put
one-Holds =
    (hset-Holds memory fresh name [] age x 1 (memory-IsHealthy []) fresh-Holds age-IsValid
      (omega arith)).1

hset-Holds_example :
    ((hset memory name city x 1 one).0 ≡ pos 1)
    × Holds (content (hset memory name city x 1 one).1.db) name ((age, x) ∷ (city, x) ∷ [])
unfolding Fields.put Fields.lookup php.Bytes.eqb
hset-Holds_example =
    hset-Holds memory one name ((age, x) ∷ []) city x 1 (memory-IsHealthy one.db) one-Holds
      city-IsValid (omega arith)

hdel-Holds_example :
    ((hdel memory name age 1 one).0 ≡ pos 1)
    × Holds (content (hdel memory name age 1 one).1.db) name []
unfolding Fields.erase Fields.lookup php.Bytes.eqb
hdel-Holds_example =
    hdel-Holds memory one name ((age, x) ∷ []) age 1 (memory-IsHealthy one.db) one-Holds age-IsValid

-- A hash of one field, where the size record cannot be read.
abbrev broken : Ssdb (failing (encode_hsize_key name))
broken = record {
  db = put (encode_hsize_key name) (u64_bytes 1) ∷ put (encode_hash_key name age) x ∷ [];
  logs = logs;
}
