-- ===== src/Server/HashModel.antt =====
-- What the requests of proc_hash.cpp with several fields do to a hash.
use php.Prelude.{
  ℕ, suc, ◌+◌, ◌-◌, ◌*◌, ◌%◌, ◌^◌, ◌<◌, ◌≤◌, ◌≡◌, refl, ap, ◌∙◌, false, not, ◌||◌, Option, List, [],
  ◌∷◌, ◌++◌, length, ltb, ◌==◌, arith,
}
use php.Prelude.Int.{pos, ◌+ℤ◌, i32}
use php.Bytes.{Bytes}
use php.Strings.Number.{str}
use php.LevelDb.{LevelDb}
use php.LevelDb.Laws.{IsHealthy}
use php.Binlog.{Ssdb}
use php.Net.Response.{Response, reply_int}
use php.Net.Response.Words.{ok}
use php.Hash.{hset}
use php.Hash.Branches.{IsValid}
use php.Hash.Fields.{Fields, lookup, put, count_of, length-put}
use php.Hash.Model.{Holds}
use php.Hash.Refine.{hset-Holds}
use php.Server.Request.{sync}
use php.Server.ProcHash.{hset_loop, proc_multi_hset}

-- The words of the fields and values, one after the other.
abbrev pub flatten : List (Bytes × Bytes) → List Bytes
flatten [] = []
flatten ((k, v) ∷ kvs) = k ∷ v ∷ flatten kvs

abbrev pub put_all : Fields → List (Bytes × Bytes) → Fields
put_all m [] = m
put_all m ((k, v) ∷ kvs) = put_all (put m k v) kvs

abbrev pub AllValid : Bytes → List (Bytes × Bytes) → Type 0
AllValid name [] = Unit
AllValid name ((k, v) ∷ kvs) = IsValid name k × AllValid name kvs

length-put_all : (m : Fields) (kvs : List (Bytes × Bytes)) → length m ≤ length (put_all m kvs)
length-put_all m [] = omega arith
length-put_all m ((k, v) ∷ kvs) = omega (arith, length-put m k v, length-put_all (put m k v) kvs)

length-flatten : (kvs : List (Bytes × Bytes)) → length (flatten kvs) ≡ 2 * length kvs
length-flatten [] = refl
length-flatten ((k, v) ∷ kvs) = omega (arith, length-flatten kvs)

-- The sum of the handler's int while it stays in range.
add_pos : (a b : ℕ) → a + b < 2 ^ 31 → i32 (pos a +ℤ pos b) ≡ pos (a + b)
add_pos a b h = ground arith

count_of-le : (o : Option Bytes) → 1 - count_of o ≤ 1
count_of-le o = omega arith

module _ (L : LevelDb) (name : Bytes) (healthy : (d : L.Db) → IsHealthy L d) where
  hset_loop_lem :
      (kvs : List (Bytes × Bytes)) (resp : Response) (num : ℕ) (s : Ssdb L) (m : Fields)
      → AllValid name kvs
      → length m + length kvs < 2 ^ 63
      → num + length kvs < 2 ^ 31
      → Holds (L.content s.db) name m
      → let r = hset_loop L name (flatten kvs) resp (pos num) s in
        let after = put_all m kvs in
        (r.0 ≡ resp ++ ok ∷ str (pos (num + (length after - length m))) ∷ [])
        × Holds (L.content r.1.db) name after
  unfolding hset_loop reply_int
  hset_loop_lem [] resp num s m valid room few h =
      let e : num ≡ num + (length m - length m) = omega arith in
      (ap (λ n. resp ++ ok ∷ str (pos n) ∷ []) e, h)
  hset_loop_lem ((k, v) ∷ kvs) resp num s m (valid, others) room few h =
      let c = 1 - count_of (lookup m k) in
      let (e, held) = hset-Holds L s name m k v sync (healthy s.db) h valid (omega arith) in
      let t = (hset L name k v sync s).1 in
      let on : hset_loop L name (flatten ((k, v) ∷ kvs)) resp (pos num) s
          ≡ hset_loop L name (flatten kvs) resp (pos (num + c)) t =
        ground (arith, e, add_pos num c (omega (arith, few, count_of-le (lookup m k)))) in
      let after = put_all (put m k v) kvs in
      let sum : num + c + (length after - length (put m k v)) ≡ num + (length after - length m) =
        omega (arith, length-put m k v, length-put_all (put m k v) kvs) in
      let (f, end) =
        hset_loop_lem kvs resp (num + c) t (put m k v) others (omega (arith, length-put m k v))
          (omega (arith, few, count_of-le (lookup m k))) held in
      rw on (f ∙ ap (λ n. resp ++ ok ∷ str (pos n) ∷ []) sum, end)

  -- In a database without I/O errors that holds under the name the hash m, a request to set fewer
  -- than 2^31 fields, whose names and that of the hash are given and fit, where m has with them fewer
  -- than 2^63 fields, is answered by the number of the fields that are new. The hash has
  -- then every field of the request, a later value over an earlier one, and the others as before.
  pub proc_multi_hset-Holds :
      (cmd k v : Bytes) (kvs : List (Bytes × Bytes)) (resp : Response) (s : Ssdb L) (m : Fields)
      → AllValid name ((k, v) ∷ kvs)
      → length m + suc (length kvs) < 2 ^ 63
      → suc (length kvs) < 2 ^ 31
      → Holds (L.content s.db) name m
      → let r = proc_multi_hset L (cmd ∷ name ∷ k ∷ v ∷ flatten kvs) resp s in
        let after = put_all m ((k, v) ∷ kvs) in
        (r.0 ≡ (pos 0, resp ++ ok ∷ str (pos (length after - length m)) ∷ []))
        × Holds (L.content r.1.db) name after
  unfolding proc_multi_hset
  proc_multi_hset-Holds cmd k v kvs resp s m valid room few h =
      let (e, held) = hset_loop_lem ((k, v) ∷ kvs) resp 0 s m valid room (omega (arith, few)) h in
      let req = cmd ∷ name ∷ k ∷ v ∷ flatten kvs in
      let good : (ltb (length req) 4 || not (length req % 2 == 0)) ≡ false =
        ground (arith, length-flatten kvs) in
      let sum : 0 + (length (put_all m ((k, v) ∷ kvs)) - length m)
          ≡ length (put_all m ((k, v) ∷ kvs)) - length m =
        omega arith in
      rw good (ap (λ out. (pos 0, out)) (e ∙ ap (λ n. resp ++ ok ∷ str (pos n) ∷ []) sum), held)
