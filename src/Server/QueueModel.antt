-- ===== src/Server/QueueModel.antt =====
-- What the requests of proc_queue.cpp do to a queue, as seen from the side they work on.
use php.Prelude.{
  ℕ, suc, ◌+◌, ◌^◌, ◌<◌, ◌≡◌, refl, ap, ◌∙◌, some, List, [], ◌∷◌, ◌++◌, length, take, drop,
  append_assoc, arith, length-take, ◌==◌, false, ◌≢◌,
}
use Prim.Native.Nat.{min}
use php.Prelude.Int.{pos, i32}
use php.Bytes.{Bytes}
use php.Strings.Number.{str, str_to_uint64}
use php.LevelDb.{LevelDb}
use php.LevelDb.Laws.{IsHealthy}
use php.Binlog.{Ssdb}
use php.Net.Response.{Response, reply_int}
use php.Net.Response.Words.{ok}
use php.Queue.Model.{Represents, IsVacant}
use php.Queue.Run.{HasRoom}
use php.Server.Request.{not_short_2, not_short_3, longer_2}
use php.Server.ProcQueue.{
  Side, push_side, proc_qpush_func, proc_qpop_func, proc_qtrim_func, proc_qclear,
}
use php.Server.QueueLoops.{
  seen, push_all, push-step, qpush_on, qpush_loop_lem, qpop_loop_lem, qtrim_loop_lem,
  qclear_loop_lem,
}

module _ (L : LevelDb) (name : Bytes) (healthy : (d : L.Db) → IsHealthy L d) where
  -- In a database without I/O errors, a push request with items, on a queue whose items from the side
  -- on are ys and that has room, is answered by the number of items afterwards. The queue then has
  -- the new items before ys, the last one first.
  pub proc_qpush_func-HasRoom :
      (side : Side) (cmd item : Bytes) (items : List Bytes) (resp : Response) (s : Ssdb L) (m : ℕ)
      (ys : List Bytes)
      → HasRoom (L.content s.db) name (suc (length items + m)) (seen side ys)
      → let after = push_all (item ∷ items) ys in
        let r = proc_qpush_func L side (cmd ∷ name ∷ item ∷ items) resp s in
        (r.0 ≡ (pos 0, resp ++ ok ∷ str (pos (length after)) ∷ []))
        × HasRoom (L.content r.1.db) name m (seen side after)
  unfolding proc_qpush_func
  proc_qpush_func-HasRoom side cmd item items resp s m ys h =
      let (e, room) = push-step L name healthy side s (length items + m) ys item h in
      let (f, rest) =
        qpush_loop_lem L name healthy side items resp (push_side L side name item s).1 m (item ∷ ys)
          room in
      rw
        (
          not_short_3 cmd name item items,
          qpush_on L name healthy side item items resp (pos 0) s ys e,
        )
        (ap (λ out. (pos 0, out)) f, rest)

  -- In a database without I/O errors, a pop request of a size other than 1, on a queue whose items
  -- from the side on are ys, is answered by the first items of ys, as many as the size or all of
  -- them. The queue keeps the others.
  pub proc_qpop_func-Represents :
      (side : Side) (cmd size : Bytes) (rest : List Bytes) (resp : Response) (s : Ssdb L)
      (ys : List Bytes)
      → str_to_uint64 size ≢ 1
      → Represents (L.content s.db) name (seen side ys)
      → let n = str_to_uint64 size in
        let r = proc_qpop_func L side (cmd ∷ name ∷ size ∷ rest) resp s in
        (r.0 ≡ (pos 0, resp ++ ok ∷ take n ys))
        × Represents (L.content r.1.db) name (seen side (drop n ys))
  unfolding proc_qpop_func
  proc_qpop_func-Represents side cmd size rest resp s ys many h =
      let n = str_to_uint64 size in
      let (e, held) = qpop_loop_lem L name healthy n side (resp ++ ok ∷ []) s ys h in
      let not_one : (n == 1) ≡ false = ground (arith, many) in
      rw (not_short_2 cmd name (size ∷ rest), longer_2 cmd name size rest, not_one)
        (ap (λ out. (pos 0, out)) (e ∙ append_assoc resp (ok ∷ []) (take n ys)), held)

  -- In a database without I/O errors, a trim request, on a queue of fewer than 2^31 items that are ys
  -- from the side on, is answered by the number of items that go, the first ones of ys, as many as
  -- the size or all of them. The queue keeps the others.
  pub proc_qtrim_func-Represents :
      (side : Side) (cmd size : Bytes) (rest : List Bytes) (resp : Response) (s : Ssdb L)
      (ys : List Bytes)
      → length ys < 2 ^ 31
      → Represents (L.content s.db) name (seen side ys)
      → let n = str_to_uint64 size in
        let r = proc_qtrim_func L side (cmd ∷ name ∷ size ∷ rest) resp s in
        (r.0 ≡ (pos 0, resp ++ ok ∷ str (pos (min n (length ys))) ∷ []))
        × Represents (L.content r.1.db) name (seen side (drop n ys))
  unfolding proc_qtrim_func reply_int
  proc_qtrim_func-Represents side cmd size rest resp s ys short h =
      let n = str_to_uint64 size in
      let (e, held) = qtrim_loop_lem L name healthy n side 0 s ys h in
      let count : i32 (pos (0 + length (take n ys))) ≡ pos (min n (length ys)) =
        ground (arith, length-take n ys) in
      rw (not_short_2 cmd name (size ∷ rest), longer_2 cmd name size rest)
        (
          ap (λ c. (pos 0, resp ++ ok ∷ str (i32 (pos c)) ∷ [])) e
              ∙ ap (λ c. (pos 0, resp ++ ok ∷ str c ∷ [])) count,
          held,
        )

  -- In a database without I/O errors, a clear request ends after one round more than the queue has
  -- items. It is answered by the number of items, and no queue of the name is left.
  pub proc_qclear_empties :
      (fuel : ℕ) (cmd : Bytes) (rest : List Bytes) (resp : Response) (s : Ssdb L) (xs : List Bytes)
      → length xs < fuel
      → Represents (L.content s.db) name xs
      → (t : Ssdb L) × (proc_qclear L fuel (cmd ∷ name ∷ rest) resp s
          ≡ some ((pos 0, resp ++ ok ∷ str (pos (length xs)) ∷ []), t))
        × IsVacant (L.content t.db) name
  unfolding proc_qclear reply_int
  proc_qclear_empties fuel cmd rest resp s xs enough h =
      let (t, e, v) = qclear_loop_lem L name healthy fuel 0 s xs enough h in
      let sum : 0 + length xs ≡ length xs = omega arith in
      (t, rw (not_short_2 cmd name rest, e, sum) refl, v)
