-- ===== src/Kv/Call.antt =====
-- A client's requests by the handlers of t_kv.cpp, and the branches of the handlers.
use php.Prelude.{ℕ, ◌≡◌, refl, Option, none, some, List, [], ◌∷◌, length, if◌then◌else◌}
use php.Prelude.Int.{ℤ, pos, ◌+ℤ◌, i64}
use php.Bytes.{Bytes}
use php.Strings.Number.{str, str_to_int64}
use php.LevelDb.{LevelDb, Got, failed, missing, found}
use php.LevelDb.Laws.{reading}
use php.Binlog.{BinlogQueue, Ssdb, commit_or_fail}
use php.Kv
use php.Kv.{put_kv, del_kv, multi_set_loop, multi_del_loop, write_kv}
use php.Kv.Map.{
  Map, insert, remove, insert_all, remove_all, has_empty, Request, Reply, status, value, swapped,
  counted, answer, answers, presence,
}
use php.Kv.Map

abbrev pub value_of : Got Bytes → Option Bytes
value_of failed = none
value_of missing = none
value_of (found v) = some v

module _ (L : LevelDb) (t : ℕ) where
  -- One request of a client, by the handlers of the source.
  abbrev pub call : Ssdb L → Request → Reply × Ssdb L
  call s (Map.get k) = (value (value_of (Kv.get L s k)), s)
  call s (Map.set k v) = let (r, u) = Kv.set L k v t s in (status r, u)
  call s (Map.setnx k v) = let (r, u) = Kv.setnx L k v t s in (status r, u)
  call s (Map.getset k v) = let (r, u) = Kv.getset L k v t s in (swapped r.0 (value_of r.1), u)
  call s (Map.del k) = let (r, u) = Kv.del L k t s in (status r, u)
  call s (Map.incr k by) = let (r, u) = Kv.incr L k by t s in (counted r.0 r.1, u)
  call s (Map.multi_set kvs) = let (r, u) = Kv.multi_set L kvs t s in (status r, u)
  call s (Map.multi_del ks) = let (r, u) = Kv.multi_del L ks t s in (status r, u)

  unfoldable pub calls : Ssdb L → List Request → List Reply
  calls s [] = []
  calls s (r ∷ rs) = let (reply, u) = call s r in reply ∷ calls u rs

  -- The branches of the bodies.
  module _ (s : Ssdb L) (k v : Bytes) where
    pub setnx_body-missing :
        Kv.get L s k ≡ missing → Kv.setnx_body L k v t s ≡ write_kv L (pos 1) k v t s
    unfolding Kv.setnx_body
    setnx_body-missing g = rw (g, Kv.setnx_body) refl

    pub setnx_body-found :
        (old : Bytes) → Kv.get L s k ≡ found old → Kv.setnx_body L k v t s ≡ (pos 0, s)
    unfolding Kv.setnx_body
    setnx_body-found old g = rw (g, Kv.setnx_body) refl

    pub getset_body_lem :
        (o : Option Bytes)
        → Kv.get L s k ≡ reading o
        → Kv.getset_body L k v t s
          ≡ (let (r, u) = write_kv L (presence o) k v t s in ((r, reading o), u))
    unfolding Kv.getset_body
    getset_body_lem none g = rw g refl
    getset_body_lem (some old) g = rw g refl

  module _ (s : Ssdb L) (k : Bytes) (by : ℤ) where
    pub incr_body-missing :
        Kv.get L s k ≡ missing
        → Kv.incr_body L k by t s ≡ (let (r, u) = write_kv L (pos 1) k (str by) t s in ((r, by), u))
    unfolding Kv.incr_body
    incr_body-missing g = rw (g, Kv.incr_body) refl

    pub incr_body-found :
        (old : Bytes)
        → Kv.get L s k ≡ found old
        → Kv.incr_body L k by t s ≡ (
            let sum = i64 ((str_to_int64 old).0 +ℤ by) in
            let (r, u) = write_kv L (pos 1) k (str sum) t s in
            if (str_to_int64 old).1 then ((r, sum), u) else ((pos 0, sum), s))
    unfolding Kv.incr_body
    incr_body-found old g = rw (g, Kv.incr_body) refl

  module _ (s : Ssdb L) (kvs : List (Bytes × Bytes)) where
    pub multi_set_body-none :
        multi_set_loop s.logs kvs t ≡ none → Kv.multi_set_body L kvs t s ≡ (pos 0, s)
    unfolding Kv.multi_set_body
    multi_set_body-none e = rw (e, Kv.multi_set_body) refl

    pub multi_set_body-some :
        (q : BinlogQueue)
        → multi_set_loop s.logs kvs t ≡ some q
        → Kv.multi_set_body L kvs t s ≡ commit_or_fail L (pos (length kvs)) (record s { logs = q })
    unfolding Kv.multi_set_body
    multi_set_body-some q e = rw (e, Kv.multi_set_body) refl
