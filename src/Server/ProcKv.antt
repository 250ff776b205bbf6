-- ===== src/Server/ProcKv.antt =====
-- proc_kv.cpp: the requests on values, but for those with a time to live and those that walk an
-- iterator or cut a value.
use Prim.Native.Nat.{Ordering}
use php.Prelude.{
  ℕ, ◌%◌, ◌*◌, Bool, true, false, ◌&&◌, ◌||◌, not, none, some, List, [], ◌∷◌, ◌++◌, length, ltb,
  ◌==◌, drop, if◌then◌else◌,
}
use php.Prelude.Int.{is_zero, ℤ, pos, negsuc, ltb_ℤ, i64, pos_part}
use php.Bytes
use php.Bytes.{Bytes, is_empty}
use php.Strings.Number.{str_to_int64, str_to_int}
use php.LevelDb.{LevelDb, Got, found}
use php.Binlog.{Ssdb, is_minus_one}
use php.Net.Response.{Response, reply_status, reply_bool, reply_int, reply_get}
use php.Net.Response.Words
use php.Net.Response.Words.{ok, error, client_error, out_of_range}
use php.Net.Link.{max_packet_size}
use php.SizeRecord.{negated}
use php.Kv.{code, get, getset, set, setnx, multi_set, incr}
use php.Kv.Bits.{setbit}
use php.Server.Request.{Request, param, sync, value_of, Handled, check_num_params}

-- The range of the keys that the server takes: from after the start to the end, where they are given.
pub record KvRange : Type 0 where
  pub kv_range_s : Bytes
  pub kv_range_e : Bytes

abbrev is_lt : Ordering → Bool
is_lt Ordering.lt = true
is_lt _ = false

-- SSDBServer::in_kv_range
unfoldable pub in_kv_range : KvRange → Bytes → Bool
in_kv_range r key = not (
    (not (is_empty r.kv_range_s) && not (is_lt (Bytes.compare r.kv_range_s key)))
    || (not (is_empty r.kv_range_e) && is_lt (Bytes.compare r.kv_range_e key)))

-- The keys and values of multi_set, from the second word on.
abbrev pub pairs : List Bytes → List (Bytes × Bytes)
pairs [] = []
pairs (key ∷ []) = []
pairs (key ∷ val ∷ kvs) = (key, val) ∷ pairs kvs

module _ (L : LevelDb) (range : KvRange) (ignore_key_range : Bool) where
  -- CHECK_KV_KEY_RANGE(1), then the rest of the handler.
  unfoldable pub check_kv_key_range : Request → Response → Ssdb L → Handled L → Handled L
  check_kv_key_range req resp s rest =
      if not ignore_key_range && ltb 1 (length req) && not (in_kv_range range (param req 1))
      then ((pos 0, resp ++ out_of_range ∷ []), s)
      else rest

  -- CHECK_NUM_PARAMS(n) and CHECK_KV_KEY_RANGE(1)
  abbrev pub checked : ℕ → Request → Response → Ssdb L → Handled L → Handled L
  checked n req resp s rest = check_num_params n req resp s (check_kv_key_range req resp s rest)

  unfoldable pub proc_get : Request → Response → Ssdb L → Handled L
  proc_get req resp s = checked 2 req resp s (
      let r = get L s (param req 1) in
      ((pos 0, reply_get resp (code r) (some (value_of r)) none), s))

  unfoldable pub proc_getset : Request → Response → Ssdb L → Handled L
  proc_getset req resp s =
      let ((ret, val), t) = getset L (param req 1) (param req 2) sync s in
      checked 3 req resp s ((pos 0, reply_get resp ret (some (value_of val)) none), t)

  unfoldable pub proc_set : Request → Response → Ssdb L → Handled L
  proc_set req resp s =
      let (ret, t) = set L (param req 1) (param req 2) sync s in
      checked 3 req resp s
        ((pos 0, resp ++ (if is_minus_one ret then error ∷ [] else ok ∷ Words.one ∷ [])), t)

  unfoldable pub proc_setnx : Request → Response → Ssdb L → Handled L
  proc_setnx req resp s =
      let (ret, t) = setnx L (param req 1) (param req 2) sync s in
      checked 3 req resp s ((pos 0, reply_bool resp ret none), t)

  unfoldable pub proc_exists : Request → Response → Ssdb L → Handled L
  proc_exists req resp s =
      checked 2 req resp s ((pos 0, reply_bool resp (code (get L s (param req 1))) none), s)

  -- What proc_multi_exists adds for one key.
  abbrev pub exists_words : Bytes → Got Bytes → Response
  exists_words key r = key ∷ elim r [ found val ↦ Words.one | _ ↦ Words.zero ] ∷ []

  unfoldable pub exists_loop : List Bytes → Response → Ssdb L → Response
  exists_loop [] resp s = resp
  exists_loop (key ∷ keys) resp s = exists_loop keys (resp ++ exists_words key (get L s key)) s

  unfoldable pub proc_multi_exists : Request → Response → Ssdb L → Handled L
  proc_multi_exists req resp s =
      check_num_params 2 req resp s ((pos 0, exists_loop (drop 1 req) (resp ++ ok ∷ []) s), s)

  -- The result of multi_set is replied as a number, whatever it is.
  unfoldable pub proc_multi_set : Request → Response → Ssdb L → Handled L
  proc_multi_set req resp s =
      if ltb (length req) 3 || not (length req % 2 == 1)
      then ((pos 0, resp ++ client_error ∷ []), s)
      else (let (ret, t) = multi_set L (pairs (drop 1 req)) sync s in
          ((pos 0, reply_int resp (pos 0) ret), t))

  -- What proc_multi_get adds for one key.
  abbrev pub get_words : Bytes → Got Bytes → Response
  get_words key r = elim r [ found val ↦ key ∷ val ∷ [] | _ ↦ [] ]

  unfoldable pub get_loop : List Bytes → Response → Ssdb L → Response
  get_loop [] resp s = resp
  get_loop (key ∷ keys) resp s = get_loop keys (resp ++ get_words key (get L s key)) s

  unfoldable pub proc_multi_get : Request → Response → Ssdb L → Handled L
  proc_multi_get req resp s =
      check_num_params 2 req resp s ((pos 0, get_loop (drop 1 req) (resp ++ ok ∷ []) s), s)

  -- _incr, with dir 1 or -1. Without a second parameter the step is 1.
  unfoldable pub incr_func : Request → Response → ℤ → Ssdb L → Handled L
  incr_func req resp dir s =
      let by = if ltb 2 (length req) then (str_to_int64 (param req 2)).0 else pos 1 in
      let step = if ltb_ℤ dir (pos 0) then i64 (negated by) else by in
      let ((ret, new_val), t) = incr L (param req 1) step sync s in
      check_num_params 2 req resp s (
        if is_zero ret
        then ((pos 0, reply_status resp (negsuc 0) (some Words.integer_error)), t)
        else ((pos 0, reply_int resp ret new_val), t))

  unfoldable pub proc_incr : Request → Response → Ssdb L → Handled L
  proc_incr req resp s = check_kv_key_range req resp s (incr_func req resp (pos 1) s)

  unfoldable pub proc_decr : Request → Response → Ssdb L → Handled L
  proc_decr req resp s = check_kv_key_range req resp s (incr_func req resp (negsuc 0) s)

  -- Whether the first byte of a word is neither 0 nor 1.
  abbrev pub no_bit : Bytes → Bool
  no_bit [] = true
  no_bit (c ∷ s) = not (c == b'0') && not (c == b'1')

  unfoldable pub proc_setbit : Request → Response → Ssdb L → Handled L
  proc_setbit req resp s =
      let offset = str_to_int (param req 2) in
      let (ret, t) = setbit L (param req 1) (pos_part offset) (str_to_int (param req 3)) sync s in
      checked 4 req resp s (
        if no_bit (param req 3)
        then ((pos 0, resp ++ client_error ∷ Words.bit_error ∷ []), s)
        else if ltb_ℤ offset (pos 0) || ltb_ℤ (pos (max_packet_size * 8)) offset
        then ((pos 0, resp ++ client_error ∷ Words.offset_error ∷ []), s)
        else ((pos 0, reply_bool resp ret none), t))

  -- The size of what get found.
  unfoldable pub proc_strlen : Request → Response → Ssdb L → Handled L
  proc_strlen req resp s = checked 2 req resp s (
      let r = get L s (param req 1) in
      ((pos 0, reply_int resp (code r) (pos (length (value_of r)))), s))
