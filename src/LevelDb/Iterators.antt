-- ===== src/LevelDb/Iterators.antt =====
-- What SSDB uses of leveldb's iterators (ssdb-master/deps, not modelled), as an interface. `entries`
-- and `position` are read only by the laws: what the database holds in the order of the keys, and
-- the entries on both sides of an iterator's place, the nearest first. The laws are leveldb's
-- documentation. An iterator that has met an I/O error is one that is no longer valid, so that the
-- place of a fresh iterator is known only where no error lies ahead (`IsIterable`).
use php.Prelude.{◌≡◌, true, Option, none, some, List, [], ◌∷◌, if◌then◌else◌}
use php.Bytes.{Bytes, eqb}
use php.Bytes.Order.{lt}
use php.LevelDb.{LevelDb}

abbrev pub Entry : Type 0
Entry = Bytes × Bytes

-- Every key comes after k.
abbrev pub AllAfter : Bytes → List Entry → Type 0
AllAfter k [] = Unit
AllAfter k (e ∷ es) = (lt k e.0 ≡ true) × AllAfter k es

abbrev pub IsSorted : List Entry → Type 0
IsSorted [] = Unit
IsSorted (e ∷ es) = AllAfter e.0 es × IsSorted es

-- The value of a key.
abbrev pub find : List Entry → Bytes → Option Bytes
find [] k = none
find (e ∷ es) k = let rest = find es k in if eqb e.0 k then some e.1 else rest

-- The entries whose keys are not before k.
abbrev pub from : Bytes → List Entry → List Entry
from k [] = []
from k (e ∷ es) = let rest = from k es in if lt e.0 k then rest else e ∷ es

-- The other entries, the last first, before `acc`.
abbrev pub before : Bytes → List Entry → List Entry → List Entry
before k acc [] = acc
before k acc (e ∷ es) = let rest = before k (e ∷ acc) es in if lt e.0 k then rest else acc

abbrev pub head : List Entry → Option Entry
head [] = none
head (e ∷ es) = some e

-- The place at the last of some entries, which are given backwards.
abbrev pub at_last : List Entry → List Entry × List Entry
at_last [] = ([], [])
at_last (e ∷ es) = (es, e ∷ [])

pub record Iterators (L : LevelDb) : Type 1 where
  pub entries : L.Db → List Entry
  pub entries-IsSorted : (d : L.Db) → IsSorted (entries d)
  pub find-entries : (d : L.Db) (k : Bytes) → find (entries d) k ≡ L.content d k
  pub Iter : Type 0
  -- DB::NewIterator, Seek, SeekToLast, Next, Prev; Valid, key and value together.
  pub new_iterator : L.Db → Iter
  pub seek : Bytes → Iter → Iter
  pub seek_to_last : Iter → Iter
  pub next : Iter → Iter
  pub prev : Iter → Iter
  pub current : Iter → Option Entry
  pub position : Iter → List Entry × List Entry
  pub current-position : (it : Iter) → current it ≡ head (position it).1
  pub next-position :
      (it : Iter) (bs : List Entry) (e : Entry) (es : List Entry)
      → position it ≡ (bs, e ∷ es)
      → position (next it) ≡ (e ∷ bs, es)
  pub prev-position :
      (it : Iter) (b : Entry) (bs : List Entry) (e : Entry) (es : List Entry)
      → position it ≡ (b ∷ bs, e ∷ es)
      → position (prev it) ≡ (bs, b ∷ e ∷ es)
  pub prev-first :
      (it : Iter) (e : Entry) (es : List Entry)
      → position it ≡ ([], e ∷ es)
      → (position (prev it)).1 ≡ []

-- An iterator on the database meets no error.
pub record IsIterable (L : LevelDb) (I : Iterators L) (d : L.Db) : Type 0 where
  pub seeks :
      (k : Bytes)
      → I.position (I.seek k (I.new_iterator d)) ≡ (before k [] (I.entries d), from k (I.entries d))
  pub seeks_last :
      (k : Bytes)
      → from k (I.entries d) ≡ []
      → I.position (I.seek_to_last (I.seek k (I.new_iterator d)))
        ≡ at_last (before k [] (I.entries d))
