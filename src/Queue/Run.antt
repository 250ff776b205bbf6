-- ===== src/Queue/Run.antt =====
-- Any sequence of pushes and pops on a queue answers as the abstract queue does.
use mathlib.Core.Path.{subst, ap₂}
use php.Prelude.{
  ℕ, zero, suc, ◌+◌, ◌-◌, ◌≤◌, ◌<◌, ◌≡◌, refl, ap, List, [], ◌∷◌, ◌++◌, length, arith,
}
use php.Bytes.{Bytes}
use php.LevelDb.{LevelDb}
use php.LevelDb.Laws.{IsHealthy}
use php.Binlog.{Ssdb}
use php.Queue.{qpush_front, qpush_back}
use php.Queue.Const.{qfront_seq, qback_seq, qitem_min_seq, qitem_max_seq, qitem_seq_init}
use php.Queue.Pop.{qpop_front, qpop_back}
use php.Queue.Deque.{
  Op, push_front, push_back, pop_front, pop_back, Reply, pushed, popped, step, run, split_last,
  split_last-append,
}
use php.Queue.Model.{Content, Holds, IsVacant}
use php.Queue.PushModel.{qpush_front-Holds, qpush_back-Holds, length-snoc}
use php.Queue.PopModel.{
  qpop-IsVacant, qpop_front-Holds, qpop_back-Holds, qpop_front-Represents, qpop_back-Represents,
}
use php.Queue.First.{qpush-IsVacant}

-- How many calls a fresh queue is good for.
abbrev pub max_calls : ℕ
max_calls = 4000000000000000000

-- The queue is the list, and there is room for m more pushes at either end.
abbrev pub HasRoom : Content → Bytes → ℕ → List Bytes → Type 0
HasRoom c name m [] = IsVacant c name × (m ≤ max_calls)
HasRoom c name m (x ∷ xs) =
    (f : ℕ) × Holds c name f (x ∷ xs)
    × (m ≤ max_calls)
    × (qitem_min_seq + m < f)
    × (f + length (x ∷ xs) + m ≤ qitem_max_seq)

module _ (L : LevelDb) (name : Bytes) (ty : ℕ) where
  -- One call of a client, by the handlers of the source.
  abbrev pub call : Ssdb L → Op → Reply × Ssdb L
  call s (push_front a) = let (r, t) = qpush_front L name a ty s in (pushed r, t)
  call s (push_back a) = let (r, t) = qpush_back L name a ty s in (pushed r, t)
  call s pop_front = let (r, t) = qpop_front L name ty s in (popped r, t)
  call s pop_back = let (r, t) = qpop_back L name ty s in (popped r, t)

  unfoldable pub calls : Ssdb L → List Op → List Reply
  calls s [] = []
  calls s (op ∷ ops) = let (r, t) = call s op in r ∷ calls t ops

  module _ (healthy : (d : L.Db) → IsHealthy L d) where
    pub call-step :
        (s : Ssdb L) (m : ℕ) (xs : List Bytes) (op : Op)
        → HasRoom (L.content s.db) name (suc m) xs
        → ((call s op).0 ≡ (step xs op).0)
          × HasRoom (L.content (call s op).1.db) name m (step xs op).1
    unfolding qpop_front qpop_back
    call-step s m [] (push_front a) (v, p) =
        let (_, _, e, held) = qpush-IsVacant L s name a ty (healthy s.db) v in
        (ap pushed e, (qitem_seq_init, held, omega arith, omega arith, omega arith))
    call-step s m [] (push_back a) (v, p) =
        let (e, held, _, _) = qpush-IsVacant L s name a ty (healthy s.db) v in
        (ap pushed e, (qitem_seq_init, held, omega arith, omega arith, omega arith))
    call-step s m (x ∷ xs) (push_front a) (f, h, p, q, r) =
        let (e, held) = qpush_front-Holds L s (healthy s.db) name a ty f (x ∷ xs) h (omega arith) in
        (ap pushed e, (f - 1, held, omega arith, omega arith, omega arith))
    call-step s m (x ∷ xs) (push_back a) (f, h, p, q, r) =
        let (e, held) = qpush_back-Holds L s (healthy s.db) name a ty f (x ∷ xs) h (omega arith) in
        (ap pushed e, (f, held, omega arith, omega arith, omega (arith, length-snoc xs a)))
    call-step s m [] pop_front (v, p) =
        let (e, same) = qpop-IsVacant L s (healthy s.db) name ty qfront_seq v.no_front in
        (ap popped e, (rw same v, omega arith))
    call-step s m [] pop_back (v, p) =
        let (e, same) = qpop-IsVacant L s (healthy s.db) name ty qback_seq v.no_back in
        (ap popped e, (rw same v, omega arith))
    call-step s m (x ∷ []) pop_front (f, h, p, q, r) =
        let (e, v) = qpop_front-Represents L s (healthy s.db) name ty x [] (f, h) in
        (ap popped e, (v, omega arith))
    call-step s m (x ∷ y ∷ ys) pop_front (f, h, p, q, r) =
        let (e, held) = qpop_front-Holds L s (healthy s.db) name ty f x y ys h in
        (ap popped e, (f + 1, held, omega arith, omega arith, omega arith))
    call-step s m (x ∷ []) pop_back (f, h, p, q, r) =
        let (e, v) = qpop_back-Represents L s (healthy s.db) name ty [] x (f, h) in
        (ap popped e, (v, omega arith))
    call-step s m (x ∷ y ∷ ys) pop_back (f, h, p, q, r) =
        let (init, last) = split_last y ys in
        let parts : y ∷ ys ≡ init ++ last ∷ [] = split_last-append y ys in
        let whole : Holds (L.content s.db) name f ((x ∷ init) ++ last ∷ []) =
          subst (λ l. Holds (L.content s.db) name f (x ∷ l)) parts h in
        let (e, held) = qpop_back-Holds L s (healthy s.db) name ty f last x init whole in
        (
          ap popped e,
          (
            f,
            held,
            omega arith,
            omega arith,
            omega (arith, ap length parts, length-snoc init last),
          ),
        )

    calls_from :
        (ops : List Op) (s : Ssdb L) (m : ℕ) (xs : List Bytes)
        → length ops ≤ m
        → HasRoom (L.content s.db) name m xs
        → calls s ops ≡ run xs ops
    unfolding calls run
    calls_from [] s m xs h room = refl
    calls_from (op ∷ ops) s zero xs h room = absurd (omega arith)
    calls_from (op ∷ ops) s (suc m) xs h room =
        let (e, room') = call-step s m xs op room in
        let rest : calls (call s op).1 ops ≡ run (step xs op).1 ops =
          calls_from ops (call s op).1 m (step xs op).1 (omega arith) room' in
        ap₂ ◌∷◌ e rest

  -- In a database without I/O errors, any sequence of at most 4 * 10^18 pushes and pops at either
  -- end, begun where no queue of the name is held, has call by call the results of the list.
  pub run_refines :
      ((d : L.Db) → IsHealthy L d)
      → (s : Ssdb L) (ops : List Op) → length ops ≤ max_calls
      → IsVacant (L.content s.db) name
      → calls s ops ≡ run [] ops
  run_refines healthy s ops h v = calls_from healthy ops s max_calls [] h (v, omega arith)
