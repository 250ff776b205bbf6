-- ===== src/Queue/Tests.antt =====
-- Runs of the queue operations on a database in memory, and the theorems at such runs.
use php.Prelude.{
  ℕ, zero, suc, ◌-◌, ◌<◌, ◌+◌, ◌≡◌, refl, ap, true, Option, some, List, [], ◌∷◌, arith, get_elem?,
}
use php.Prelude.Int.{pos, negsuc}
use php.Bytes.{Bytes}
use php.Bytes.Words.{u64_bytes}
use php.Keys.{encode_qitem_key, encode_qsize_key}
use php.LevelDb.{put}
use php.LevelDb.Memory.{memory, memory-IsHealthy, content}
use php.Binlog.{Ssdb}
use php.Queue.{minus_one, qpush, qpush_front, qpush_back}
use php.Queue.Const.{qfront_seq, qback_seq, qitem_seq_init, qitem_max_seq, qitem_min_seq}
use php.Queue.Pop.{qpop}
use php.Queue.Access.{qset, qset_by_seq, qslice}
use php.Queue.Model.{Holds, IsVacant}
use php.Queue.Deque.{Op, push_front, push_back, pop_front, pop_back, run}
use php.Queue.Run.{calls, run_refines}
use php.Queue.First.{qpush-IsVacant, qpush_front_full}
use php.Queue.Atomic.{qpush_fail}
use php.Queue.AccessModel.{qslice-Holds}
use php.Queue.SetModel.{qset-Holds, qset_by_seq_past_back}
use php.Queue.Frame.{other_queue}
use php.Queue.PushModel.{qpush_back-Holds}

abbrev jobs : Bytes
jobs = b'j' ∷ []

abbrev a : Bytes
a = b'a' ∷ []

abbrev b : Bytes
b = b'b' ∷ []

abbrev fresh : Ssdb memory
fresh = record {
  db = [];
  logs = record {
    min_seq = 0;
    last_seq = 0;
    tran_seq = 0;
    capacity = 20000000;
    enabled = true;
    batch = [];
  };
}

fresh-IsVacant : IsVacant (content []) jobs
fresh-IsVacant = record { no_size = refl; no_front = refl; no_back = refl }

abbrev script : List Op
script = pop_front ∷ push_back a ∷ push_front b ∷ pop_back ∷ pop_back ∷ pop_back ∷ []

run_refines_example : calls memory jobs 1 fresh script ≡ run [] script
run_refines_example =
    run_refines memory jobs 1 memory-IsHealthy fresh script (omega arith) fresh-IsVacant

-- A queue of one item.
abbrev one : Ssdb memory
one = (qpush_back memory jobs a 1 fresh).1

one-Holds : Holds (content one.db) jobs qitem_seq_init (a ∷ [])
one-Holds = (qpush-IsVacant memory fresh jobs a 1 (memory-IsHealthy []) fresh-IsVacant).1

-- A queue of two items.
abbrev two : Ssdb memory
two = (qpush_back memory jobs b 1 one).1

two-Holds : Holds (content two.db) jobs qitem_seq_init (a ∷ b ∷ [])
two-Holds =
    (qpush_back-Holds memory one (memory-IsHealthy one.db) jobs b 1 qitem_seq_init (a ∷ [])
      one-Holds (omega arith)).1

-- A queue of one item at a sequence number.
abbrev packed : ℕ → Ssdb memory
packed f = record fresh {
  db =
      put (encode_qsize_key jobs) (u64_bytes 1)
      ∷ put (encode_qitem_key jobs qfront_seq) (u64_bytes f)
      ∷ put (encode_qitem_key jobs qback_seq) (u64_bytes f)
      ∷ put (encode_qitem_key jobs f) a
      ∷ [];
}

abbrev last_seq : ℕ
last_seq = qitem_max_seq - 1

abbrev first_seq : ℕ
first_seq = qitem_min_seq + 1

only :
    (c : Bytes → Option Bytes) (f : ℕ)
    → c (encode_qitem_key jobs (f + 0)) ≡ some a
    → (i : ℕ) → i < 1
    → c (encode_qitem_key jobs (f + i)) ≡ get_elem? (a ∷ []) i
only c f e zero h = e
only c f e (suc i) h = absurd (omega (arith, h))

last-Holds : Holds (content (packed last_seq).db) jobs last_seq (a ∷ [])
unfolding php.Bytes.eqb php.Bytes.Words.le_bytes php.Bytes.Words.big_endian
    php.Bytes.Words.big_endian32
last-Holds = record {
  nonempty = omega arith;
  low = omega arith;
  high = omega arith;
  size = refl;
  front = refl;
  back = refl;
  items = only (content (packed last_seq).db) last_seq refl;
}

first-Holds : Holds (content (packed first_seq).db) jobs first_seq (a ∷ [])
unfolding php.Bytes.eqb php.Bytes.Words.le_bytes php.Bytes.Words.big_endian
    php.Bytes.Words.big_endian32
first-Holds = record {
  nonempty = omega arith;
  low = omega arith;
  high = omega arith;
  size = refl;
  front = refl;
  back = refl;
  items = only (content (packed first_seq).db) first_seq refl;
}

refused : (qpush memory jobs b qfront_seq 1 (packed first_seq)).0 ≡ minus_one
unfolding qpush_front
refused =
    (qpush_front_full memory (packed first_seq) (memory-IsHealthy (packed first_seq).db) jobs b 1
      first_seq (a ∷ []) first-Holds refl).0

qpush_fail_example :
    (qpush memory jobs b qfront_seq 1 (packed first_seq)).1.db ≡ (packed first_seq).db
qpush_fail_example =
    qpush_fail memory (packed first_seq) jobs b qfront_seq 1
      (memory-IsHealthy (packed first_seq).db) refused

qslice-Holds_example : qslice memory two jobs (pos 0) (negsuc 0) ≡ (pos 0, a ∷ b ∷ [])
qslice-Holds_example =
    qslice-Holds memory two (memory-IsHealthy two.db) jobs qitem_seq_init (a ∷ b ∷ []) two-Holds
      (pos 0) (negsuc 0) (omega arith) (omega arith)

qset-Holds_example :
    ((qset memory jobs (negsuc 0) a 1 two).0 ≡ pos 1)
    × Holds (content (qset memory jobs (negsuc 0) a 1 two).1.db) jobs qitem_seq_init (a ∷ a ∷ [])
qset-Holds_example =
    qset-Holds memory two (memory-IsHealthy two.db) jobs a 1 qitem_seq_init (a ∷ b ∷ []) two-Holds
      (negsuc 0) (omega arith)

qset_by_seq_past_back_example :
    ((qset_by_seq memory jobs (qitem_seq_init + 2) b 1 two).0 ≡ pos 1)
    × (content
          (qset_by_seq memory jobs (qitem_seq_init + 2) b 1 two).1.db
          (encode_qitem_key jobs (qitem_seq_init + 2))
        ≡ some b)
    × Holds
        (content (qset_by_seq memory jobs (qitem_seq_init + 2) b 1 two).1.db)
        jobs
        qitem_seq_init
        (a ∷ b ∷ [])
qset_by_seq_past_back_example =
    qset_by_seq_past_back memory two (memory-IsHealthy two.db) jobs b 1 qitem_seq_init (a ∷ b ∷ [])
      two-Holds

abbrev head_of : Bytes → ℕ
head_of [] = 0
head_of (x ∷ s) = x

other_queue_example :
    let c = content two.db in
    let pushed = content (qpush memory a b qback_seq 1 two).1.db in
    let popped = content (qpop memory a qback_seq 1 two).1.db in
    (pushed (encode_qsize_key jobs) ≡ c (encode_qsize_key jobs))
    × (pushed (encode_qitem_key jobs qitem_seq_init) ≡ c (encode_qitem_key jobs qitem_seq_init))
    × (popped (encode_qsize_key jobs) ≡ c (encode_qsize_key jobs))
    × (popped (encode_qitem_key jobs qitem_seq_init) ≡ c (encode_qitem_key jobs qitem_seq_init))
other_queue_example =
    other_queue memory a jobs b qback_seq 1 qitem_seq_init two (λ e. omega (arith, ap head_of e))
      memory-IsHealthy
