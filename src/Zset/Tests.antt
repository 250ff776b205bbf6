-- ===== src/Zset/Tests.antt =====
-- The theorems on sorted sets at concrete members, on a database in memory.
use php.Prelude.{◌≡◌, ◌↔◌, refl, some, [], ◌∷◌, arith, true, ap}
use php.Prelude.Int.{pos, negsuc, pos_part}
use php.Bytes.{Bytes}
use php.Keys.Zset.{encode_zset_key, zscore_key}
use php.LevelDb.{put}
use php.LevelDb.Memory.{memory, memory-IsHealthy, content, failing}
use php.Binlog.{Ssdb, BinlogQueue}
use php.Zset.{zset, zdel, zget, zsize}
use php.Hash.Branches.{IsValid}
use php.Hash.Fields
use php.Hash.Fields.{Fields, AreDistinct}
use php.Zset.Model.{Holds}
use php.Zset.Refine.{zset-Holds, zdel-Holds}
use php.Zset.Broken.{zset_left_score}

abbrev name : Bytes
name = b'z' ∷ []

abbrev ann : Bytes
ann = b'a' ∷ []

abbrev bob : Bytes
bob = b'b' ∷ []

abbrev seven : Bytes
seven = b'7' ∷ []

abbrev minus_two : Bytes
minus_two = b'-' ∷ b'2' ∷ []

abbrev logs : BinlogQueue
logs = record {
  min_seq = 0;
  last_seq = 0;
  tran_seq = 0;
  capacity = 20000000;
  enabled = true;
  batch = [];
}

abbrev fresh : Ssdb memory
fresh = record { db = []; logs = logs }

fresh-Holds : Holds (content []) name []
unfolding AreDistinct Fields.lookup
fresh-Holds = record {
  distinct = tt;
  bounded = omega arith;
  members = λ k p. refl;
  scores = λ k z p. refl;
  numbers = λ k w e. cc;
  size = refl;
}

abbrev one : Ssdb memory
one = (zset memory name ann seven 1 fresh).1

ann-IsValid : IsValid name ann
ann-IsValid = record {
  name_given = refl;
  key_given = refl;
  name_fits = omega arith;
  key_fits = omega arith;
}

bob-IsValid : IsValid name bob
bob-IsValid = record {
  name_given = refl;
  key_given = refl;
  name_fits = omega arith;
  key_fits = omega arith;
}

one-Holds : Holds (content one.db) name ((ann, seven) ∷ [])
unfolding Fields.put php.Zset.filter_score php.Strings.Number.str_to_int64 php.Strings.Number.str
    php.Strings.Number.strtoll php.Strings.Number.decimal
one-Holds =
    (zset-Holds memory fresh name [] ann seven 1 (memory-IsHealthy []) fresh-Holds ann-IsValid
      (omega arith)).1

zset-Holds_example :
    ((zset memory name bob minus_two 1 one).0 ≡ pos 1)
    × Holds
        (content (zset memory name bob minus_two 1 one).1.db)
        name
        ((ann, seven) ∷ (bob, minus_two) ∷ [])
unfolding Fields.put Fields.lookup php.Bytes.eqb php.Zset.filter_score
    php.Strings.Number.str_to_int64 php.Strings.Number.str php.Strings.Number.strtoll
    php.Strings.Number.decimal
zset-Holds_example =
    zset-Holds memory one name ((ann, seven) ∷ []) bob minus_two 1 (memory-IsHealthy one.db)
      one-Holds bob-IsValid (omega arith)

zdel-Holds_example :
    ((zdel memory name ann 1 one).0 ≡ pos 1)
    × Holds (content (zdel memory name ann 1 one).1.db) name []
unfolding Fields.erase Fields.lookup php.Bytes.eqb
zdel-Holds_example =
    zdel-Holds memory one name ((ann, seven) ∷ []) ann 1 (memory-IsHealthy one.db) one-Holds
      ann-IsValid

-- A member at 7 whose score cannot be read, moved to -2.
abbrev broken : Ssdb (failing (encode_zset_key name ann))
broken = record {
  db = put (encode_zset_key name ann) seven ∷ put (zscore_key name ann (pos 7)) [] ∷ [];
  logs = logs;
}

zset_left_score_example :
    let after = zset (failing (encode_zset_key name ann)) name ann minus_two 1 broken in
    (after.0 ≡ pos 0)
    × (content after.1.db (zscore_key name ann (pos 7)) ≡ some [])
    × (content after.1.db (zscore_key name ann (negsuc 1)) ≡ some [])
    × ((zscore_key name ann (pos 7) ≡ zscore_key name ann (negsuc 1)) ↔ (pos 7 ≡ negsuc 1))
unfolding php.Bytes.eqb php.Strings.Number.str_to_int64 php.Bytes.Words.le_bytes
    php.Bytes.Words.big_endian php.Bytes.Words.big_endian32 php.Strings.Number.strtoll
zset_left_score_example =
    zset_left_score (failing (encode_zset_key name ann)) broken name ann minus_two 1 (pos 7)
      ann-IsValid refl (λ b. refl) (omega arith) (λ e. omega (arith, ap pos_part e)) refl
