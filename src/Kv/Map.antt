-- ===== src/Kv/Map.antt =====
-- What the operations of t_kv.cpp promise: a map from keys to values.
use php.Prelude.{Bool, false, Option, none, some, List, [], ◌∷◌, length, if◌then◌else◌, ◌||◌}
use php.Prelude.Int.{ℤ, pos, ◌+ℤ◌, i64}
use php.Bytes.{Bytes, eqb, is_empty}
use php.Strings.Number.{str, str_to_int64}

abbrev pub Map : Type 0
Map = Bytes → Option Bytes

abbrev pub insert : Map → Bytes → Bytes → Map
insert m k v j = if eqb k j then some v else m j

abbrev pub remove : Map → Bytes → Map
remove m k j = if eqb k j then none else m j

abbrev pub insert_all : Map → List (Bytes × Bytes) → Map
insert_all m [] = m
insert_all m ((k, v) ∷ kvs) = insert_all (insert m k v) kvs

abbrev pub remove_all : Map → List Bytes → Map
remove_all m [] = m
remove_all m (k ∷ ks) = remove_all (remove m k) ks

-- Whether one of the keys is empty.
abbrev pub has_empty : List (Bytes × Bytes) → Bool
has_empty [] = false
has_empty ((k, v) ∷ kvs) = is_empty k || has_empty kvs

-- The requests, and their replies: a status, a value, a status with the old value, a status with
-- the new number.
pub data Request : Type 0 where
  get del : Bytes → Request
  set setnx getset : Bytes → Bytes → Request
  incr : Bytes → ℤ → Request
  multi_set : List (Bytes × Bytes) → Request
  multi_del : List Bytes → Request

pub data Reply : Type 0 where
  status : ℤ → Reply
  value : Option Bytes → Reply
  swapped : ℤ → Option Bytes → Reply
  counted : ℤ → ℤ → Reply

abbrev pub presence : Option Bytes → ℤ
presence none = pos 0
presence (some v) = pos 1

-- A value that is no number is left, and the reply is 0 with a sum that nobody reads.
abbrev increased : Map → Bytes → ℤ → Option Bytes → Reply × Map
increased m k by none = (counted (pos 1) by, insert m k (str by))
increased m k by (some old) =
    let (n, ok) = str_to_int64 old in
    if ok
    then (counted (pos 1) (i64 (n +ℤ by)), insert m k (str (i64 (n +ℤ by))))
    else (counted (pos 0) (i64 (n +ℤ by)), m)

abbrev pub answer : Map → Request → Reply × Map
answer m (get k) = (value (m k), m)
answer m (set k v) = if is_empty k then (status (pos 0), m) else (status (pos 1), insert m k v)
answer m (setnx k v) =
    if is_empty k
    then (status (pos 0), m)
    else elim (m k) [ none ↦ (status (pos 1), insert m k v) | some old ↦ (status (pos 0), m) ]
answer m (getset k v) =
    if is_empty k then (swapped (pos 0) none, m) else (swapped (presence (m k)) (m k), insert m k v)
answer m (del k) = (status (pos 1), remove m k)
answer m (incr k by) = increased m k by (m k)
answer m (multi_set kvs) =
    if has_empty kvs then (status (pos 0), m) else (status (pos (length kvs)), insert_all m kvs)
answer m (multi_del ks) = (status (pos (length ks)), remove_all m ks)

-- The replies to a list of requests.
unfoldable pub answers : Map → List Request → List Reply
answers m [] = []
answers m (r ∷ rs) = let (reply, n) = answer m r in reply ∷ answers n rs
