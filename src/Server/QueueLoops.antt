-- ===== src/Server/QueueLoops.antt =====
-- The loops of proc_queue.cpp on a queue, as seen from the side they work on.
use php.Prelude.{
  ℕ, zero, suc, ◌+◌, ◌<◌, ◌≡◌, refl, ap, ◌∙◌, none, some, List, [], ◌∷◌, ◌++◌, length, take, drop,
  append_assoc, append-nil, arith,
}
use php.Prelude.Int.{ℤ, pos}
use php.Bytes.{Bytes}
use php.Strings.Number.{str}
use php.LevelDb.{LevelDb}
use php.LevelDb.Laws.{IsHealthy}
use php.Binlog.{Ssdb}
use php.Net.Response.{Response, reply_int}
use php.Net.Response.Words.{ok}
use php.Queue.Const.{qfront_seq, qback_seq}
use php.Queue.Deque.{push_front, push_back, Reply, pushed, popped}
use php.Queue.Model.{Represents, IsVacant}
use php.Queue.PushModel.{length-snoc}
use php.Queue.PopModel.{qpop-IsVacant, qpop_front-Represents, qpop_back-Represents}
use php.Queue.Pop.{qpop_front, qpop_back}
use php.Queue.Run.{HasRoom, call-step}
use php.Server.Request.{sync}
use php.Server.ProcQueue.{
  Side, front, back, push_side, pop_side, qpush_loop, qpop_loop, qtrim_loop, qclear_loop,
}

abbrev pub reverse : List Bytes → List Bytes
reverse [] = []
reverse (x ∷ xs) = reverse xs ++ x ∷ []

-- The queue whose items are ys in their order from the side on.
abbrev pub seen : Side → List Bytes → List Bytes
seen front ys = ys
seen back ys = reverse ys

-- The items ys after those of the list are put before them one by one.
abbrev pub push_all : List Bytes → List Bytes → List Bytes
push_all [] ys = ys
push_all (item ∷ items) ys = push_all items (item ∷ ys)

length-reverse : (xs : List Bytes) → length (reverse xs) ≡ length xs
length-reverse [] = refl
length-reverse (x ∷ xs) = length-snoc (reverse xs) x ∙ omega (arith, length-reverse xs)

result_of : Reply → ℤ
result_of (pushed r) = r
result_of (popped (r, item)) = r

suc_add : (n m : ℕ) → suc n + m ≡ suc (n + m)
suc_add n m = omega arith

module _ (L : LevelDb) (name : Bytes) (healthy : (d : L.Db) → IsHealthy L d) where
  pub push-step :
      (side : Side) (s : Ssdb L) (m : ℕ) (ys : List Bytes) (item : Bytes)
      → HasRoom (L.content s.db) name (suc m) (seen side ys)
      → let r = push_side L side name item s in
        (r.0 ≡ pos (length ys + 1)) × HasRoom (L.content r.1.db) name m (seen side (item ∷ ys))
  unfolding result_of
  push-step front s m ys item h =
      let (e, room) = call-step L name sync healthy s m ys (push_front item) h in
      (ap result_of e, room)
  push-step back s m ys item h =
      let (e, room) = call-step L name sync healthy s m (reverse ys) (push_back item) h in
      (ap result_of e ∙ ap (λ n. pos (n + 1)) (length-reverse ys), room)

  pop_nothing :
      (side : Side) (s : Ssdb L)
      → IsVacant (L.content s.db) name
      → let r = pop_side L side name s in (r.0 ≡ (pos 0, none)) × IsVacant (L.content r.1.db) name
  unfolding qpop_front qpop_back
  pop_nothing front s v =
      let (e, same) = qpop-IsVacant L s (healthy s.db) name sync qfront_seq v.no_front in
      (e, rw same v)
  pop_nothing back s v =
      let (e, same) = qpop-IsVacant L s (healthy s.db) name sync qback_seq v.no_back in
      (e, rw same v)

  pop-step :
      (side : Side) (s : Ssdb L) (y : Bytes) (ys : List Bytes)
      → Represents (L.content s.db) name (seen side (y ∷ ys))
      → let r = pop_side L side name s in
        (r.0 ≡ (pos 1, some y)) × Represents (L.content r.1.db) name (seen side ys)
  pop-step front s y ys h = qpop_front-Represents L s (healthy s.db) name sync y ys h
  pop-step back s y ys h = qpop_back-Represents L s (healthy s.db) name sync (reverse ys) y h

  pub qpush_on :
      (side : Side) (item : Bytes) (items : List Bytes) (resp : Response) (size : ℤ) (s : Ssdb L)
      (ys : List Bytes)
      → (push_side L side name item s).0 ≡ pos (length ys + 1)
      → qpush_loop L side name (item ∷ items) resp size s
        ≡ qpush_loop L side name items resp
            (pos (length (item ∷ ys)))
            (push_side L side name item s).1
  unfolding qpush_loop
  qpush_on side item items resp size s ys e =
      let next : (push_side L side name item s).0 ≡ pos (length (item ∷ ys)) =
        e ∙ ap pos (omega arith) in
      ground (arith, next)

  pub qpush_loop_lem :
      (side : Side) (items : List Bytes) (resp : Response) (s : Ssdb L) (m : ℕ) (ys : List Bytes)
      → HasRoom (L.content s.db) name (length items + m) (seen side ys)
      → let r = qpush_loop L side name items resp (pos (length ys)) s in
        (r.0 ≡ resp ++ ok ∷ str (pos (length (push_all items ys))) ∷ [])
        × HasRoom (L.content r.1.db) name m (seen side (push_all items ys))
  unfolding qpush_loop reply_int
  qpush_loop_lem side [] resp s m ys h = (refl, rw e h)
    where
      e : m ≡ 0 + m
      e = omega arith
  qpush_loop_lem side (item ∷ items) resp s m ys h =
      let (e, room) =
        push-step side s (length items + m) ys item (rw (suc_add (length items) m) at h) in
      rw (qpush_on side item items resp (pos (length ys)) s ys e)
        (qpush_loop_lem side items resp (push_side L side name item s).1 m (item ∷ ys) room)

  pub qpop_loop_lem :
      (n : ℕ) (side : Side) (resp : Response) (s : Ssdb L) (ys : List Bytes)
      → Represents (L.content s.db) name (seen side ys)
      → let r = qpop_loop L n side name resp s in
        (r.0 ≡ resp ++ take n ys) × Represents (L.content r.1.db) name (seen side (drop n ys))
  unfolding qpop_loop
  qpop_loop_lem zero side resp s ys h = (rw (append-nil resp) refl, h)
  qpop_loop_lem (suc n) front resp s [] h =
      let (e, v) = pop_nothing front s h in rw (qpop_loop, e) (rw (append-nil resp) refl, v)
  qpop_loop_lem (suc n) back resp s [] h =
      let (e, v) = pop_nothing back s h in rw (qpop_loop, e) (rw (append-nil resp) refl, v)
  qpop_loop_lem (suc n) side resp s (y ∷ ys) h =
      let (e, rest) = pop-step side s y ys h in
      let (f, end) = qpop_loop_lem n side (resp ++ y ∷ []) (pop_side L side name s).1 ys rest in
      let on : qpop_loop L (suc n) side name resp s
          ≡ qpop_loop L n side name (resp ++ y ∷ []) (pop_side L side name s).1 =
        ground (arith, e) in
      rw on (f ∙ append_assoc resp (y ∷ []) (take n ys), end)

  pub qtrim_loop_lem :
      (n : ℕ) (side : Side) (count : ℕ) (s : Ssdb L) (ys : List Bytes)
      → Represents (L.content s.db) name (seen side ys)
      → let r = qtrim_loop L n side name count s in
        (r.0 ≡ count + length (take n ys))
        × Represents (L.content r.1.db) name (seen side (drop n ys))
  unfolding qtrim_loop
  qtrim_loop_lem zero side count s ys h = (omega arith, h)
  qtrim_loop_lem (suc n) front count s [] h =
      let (e, v) = pop_nothing front s h in rw (qtrim_loop, e) (omega arith, v)
  qtrim_loop_lem (suc n) back count s [] h =
      let (e, v) = pop_nothing back s h in rw (qtrim_loop, e) (omega arith, v)
  qtrim_loop_lem (suc n) side count s (y ∷ ys) h =
      let (e, rest) = pop-step side s y ys h in
      let (f, end) = qtrim_loop_lem n side (count + 1) (pop_side L side name s).1 ys rest in
      let on : qtrim_loop L (suc n) side name count s
          ≡ qtrim_loop L n side name (count + 1) (pop_side L side name s).1 =
        ground (arith, e) in
      rw on (omega (arith, f), end)

  pub qclear_loop_lem :
      (fuel : ℕ) (count : ℕ) (s : Ssdb L) (ys : List Bytes)
      → length ys < fuel
      → Represents (L.content s.db) name ys
      → (t : Ssdb L) × (qclear_loop L fuel name count s ≡ some (some (count + length ys), t))
        × IsVacant (L.content t.db) name
  unfolding qclear_loop
  qclear_loop_lem zero count s ys p h = elim p [ ]
  qclear_loop_lem (suc fuel) count s [] p h =
      let (e, v) = pop_nothing front s h in
      let t = (pop_side L front name s).1 in
      let none_more : count ≡ count + 0 = omega arith in
      (t, rw (qclear_loop, e) (ap (λ n. some (some n, t)) none_more), v)
  qclear_loop_lem (suc fuel) count s (y ∷ ys) p h =
      let (e, rest) = pop-step front s y ys h in
      let (t, f, v) =
        qclear_loop_lem fuel (count + 1) (pop_side L front name s).1 ys (omega arith) rest in
      let on : qclear_loop L (suc fuel) name count s
          ≡ qclear_loop L fuel name (count + 1) (pop_side L front name s).1 =
        ground (arith, e) in
      let sum : count + 1 + length ys ≡ count + suc (length ys) = omega arith in
      (t, on ∙ f ∙ ap (λ n. some (some n, t)) sum, v)
