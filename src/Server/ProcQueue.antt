-- ===== src/Server/ProcQueue.antt =====
-- proc_queue.cpp: the requests on queues.
use php.Prelude.{
  ℕ, zero, suc, ◌+◌, Bool, true, false, ◌||◌, Option, none, some, List, [], ◌∷◌, ◌++◌, length, ltb,
  ◌==◌, drop, if◌then◌else◌,
}
use php.Prelude.Int.{is_zero, ℤ, pos, negsuc, ◌+ℤ◌, leb_ℤ, i32, i64, signed64}
use php.Bytes.{Bytes}
use php.Strings.Number.{str_to_int64, str_to_uint64}
use php.LevelDb.{LevelDb}
use php.Binlog.{Ssdb, is_minus_one}
use php.Net.Response.{Response, reply_int, reply_get, reply_list}
use php.Net.Response.Words.{ok, error, index_error}
use php.Queue.{qsize, qpush_front, qpush_back}
use php.Queue.Pop.{qpop_front, qpop_back}
use php.Queue.Access.{qfront, qback, qget, qset, qslice}
use php.Kv.{code}
use php.Server.Request.{Request, param, sync, value_of, Handled, check_num_params}

-- QFRONT and QBACK
pub data Side : Type 0 where
  front back : Side

-- `if(ret <= 0)`
abbrev pub is_over : ℤ → Bool
is_over ret = leb_ℤ ret (pos 0)

-- The size of qpop and qtrim, which is 1 where none is given.
abbrev pub size_param : Request → ℕ
size_param req = if ltb 2 (length req) then str_to_uint64 (param req 2) else 1

-- The string that a pop leaves in an empty `item`.
abbrev pub item_of : Option Bytes → Bytes
item_of none = []
item_of (some item) = item

module _ (L : LevelDb) where
  unfoldable pub proc_qsize : Request → Response → Ssdb L → Handled L
  proc_qsize req resp s =
      check_num_params 2 req resp s
        (let ret = qsize L s (param req 1) in ((pos 0, reply_int resp ret ret), s))

  unfoldable pub proc_qfront : Request → Response → Ssdb L → Handled L
  proc_qfront req resp s = check_num_params 2 req resp s (
      let r = qfront L s (param req 1) in
      ((pos 0, reply_get resp (code r) (some (value_of r)) none), s))

  unfoldable pub proc_qback : Request → Response → Ssdb L → Handled L
  proc_qback req resp s = check_num_params 2 req resp s (
      let r = qback L s (param req 1) in
      ((pos 0, reply_get resp (code r) (some (value_of r)) none), s))

  -- One push of proc_qpush_func.
  abbrev pub push_side : Side → Bytes → Bytes → Ssdb L → ℤ × Ssdb L
  push_side front name item s = qpush_front L name item sync s
  push_side back name item s = qpush_back L name item sync s

  -- One pop of proc_qpop_func and proc_qtrim_func.
  abbrev pub pop_side : Side → Bytes → Ssdb L → (ℤ × Option Bytes) × Ssdb L
  pop_side front name s = qpop_front L name sync s
  pop_side back name s = qpop_back L name sync s

  -- The loop of proc_qpush_func, with the size so far.
  unfoldable pub qpush_loop : Side → Bytes → List Bytes → Response → ℤ → Ssdb L → Response × Ssdb L
  qpush_loop side name [] resp size s = (reply_int resp (pos 0) size, s)
  qpush_loop side name (item ∷ items) resp size s =
      let (r, t) = push_side side name item s in
      elim (is_minus_one r) [
        | true ↦ (resp ++ error ∷ [], t)
        | false ↦ qpush_loop side name items resp r t
      ]

  unfoldable pub proc_qpush_func : Side → Request → Response → Ssdb L → Handled L
  proc_qpush_func side req resp s = check_num_params 3 req resp s (
      let (out, t) = qpush_loop side (param req 1) (drop 2 req) resp (pos 0) s in ((pos 0, out), t))

  -- The loop of proc_qpop_func, by the number of rounds left.
  unfoldable pub qpop_loop : ℕ → Side → Bytes → Response → Ssdb L → Response × Ssdb L
  qpop_loop zero side name resp s = (resp, s)
  qpop_loop (suc size) side name resp s =
      let ((ret, item), t) = pop_side side name s in
      elim (is_over ret) [
        | true ↦ (resp, t)
        | false ↦ qpop_loop size side name (resp ++ item_of item ∷ []) t
      ]

  unfoldable pub proc_qpop_func : Side → Request → Response → Ssdb L → Handled L
  proc_qpop_func side req resp s =
      let size = size_param req in
      let ((ret, item), t) = pop_side side (param req 1) s in
      let (out, u) = qpop_loop size side (param req 1) (resp ++ ok ∷ []) s in
      check_num_params 2 req resp s (
        if size == 1
        then ((pos 0, reply_get resp ret (some (item_of item)) none), t)
        else ((pos 0, out), u))

  -- The loop of proc_qtrim_func, by the number of rounds left: the number of items popped. It is an
  -- int in the source, which 2^31 items overflow.
  unfoldable pub qtrim_loop : ℕ → Side → Bytes → ℕ → Ssdb L → ℕ × Ssdb L
  qtrim_loop zero side name count s = (count, s)
  qtrim_loop (suc rounds) side name count s =
      let ((ret, item), t) = pop_side side name s in
      elim (is_over ret) [ true ↦ (count, t) | false ↦ qtrim_loop rounds side name (count + 1) t ]

  unfoldable pub proc_qtrim_func : Side → Request → Response → Ssdb L → Handled L
  proc_qtrim_func side req resp s =
      let (count, t) = qtrim_loop (size_param req) side (param req 1) 0 s in
      check_num_params 2 req resp s ((pos 0, reply_int resp (pos 0) (i32 (pos count))), t)

  -- The loop of proc_qclear, on fuel: the count, or nothing for the return of -1, and none where the
  -- fuel runs out.
  unfoldable pub qclear_loop : ℕ → Bytes → ℕ → Ssdb L → Option (Option ℕ × Ssdb L)
  qclear_loop zero name count s = none
  qclear_loop (suc fuel) name count s =
      let ((ret, item), t) = qpop_front L name sync s in
      elim (is_zero ret) [
        | true ↦ some (some count, t)
        | false ↦ elim (is_minus_one ret) [
          | true ↦ some (none, t)
          | false ↦ qclear_loop fuel name (count + 1) t
        ]
      ]

  -- After -1 nothing is added to the response.
  unfoldable pub proc_qclear : ℕ → Request → Response → Ssdb L → Option (Handled L)
  proc_qclear fuel req resp s =
      if ltb (length req) 2
      then some (check_num_params 2 req resp s ((pos 0, resp), s))
      else (elim (qclear_loop fuel (param req 1) 0 s) [
        | none ↦ none
        | some (none, t) ↦ some ((negsuc 0, resp), t)
        | some (some count, t) ↦ some ((pos 0, reply_int resp (pos 0) (pos count)), t)
      ])

  unfoldable pub proc_qslice : Request → Response → Ssdb L → Handled L
  proc_qslice req resp s =
      let begin = (str_to_int64 (param req 2)).0 in
      let end = (str_to_int64 (param req 3)).0 in
      let (ret, list) = qslice L s (param req 1) begin end in
      check_num_params 4 req resp s ((pos 0, reply_list resp ret list), s)

  -- The last index of proc_qrange, from the limit, an unsigned number read as a signed one.
  unfoldable pub range_end : ℤ → ℤ → ℤ
  range_end begin limit =
      if leb_ℤ (pos 0) limit then i64 (i64 (begin +ℤ limit) +ℤ negsuc 0) else negsuc 0

  unfoldable pub proc_qrange : Request → Response → Ssdb L → Handled L
  unfolding range_end
  proc_qrange req resp s =
      let begin = (str_to_int64 (param req 2)).0 in
      let limit = signed64 (str_to_uint64 (param req 3)) in
      let (ret, list) = qslice L s (param req 1) begin (range_end begin limit) in
      check_num_params 4 req resp s ((pos 0, reply_list resp ret list), s)

  unfoldable pub proc_qget : Request → Response → Ssdb L → Handled L
  proc_qget req resp s =
      let r = qget L s (param req 1) (str_to_int64 (param req 2)).0 in
      check_num_params 3 req resp s ((pos 0, reply_get resp (code r) (some (value_of r)) none), s)

  unfoldable pub proc_qset : Request → Response → Ssdb L → Handled L
  proc_qset req resp s =
      let (ret, t) = qset L (param req 1) (str_to_int64 (param req 2)).0 (param req 3) sync s in
      check_num_params 4 req resp s (
        if is_minus_one ret || is_zero ret
        then ((pos 0, resp ++ error ∷ index_error ∷ []), t)
        else ((pos 0, resp ++ ok ∷ []), t))
