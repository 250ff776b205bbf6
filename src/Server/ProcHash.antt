-- ===== src/Server/ProcHash.antt =====
-- proc_hash.cpp: the requests on hashes, but for those that walk an iterator.
use php.Prelude.{
  ◌%◌, true, false, ◌||◌, not, none, some, List, [], ◌∷◌, ◌++◌, length, ltb, ◌==◌, drop,
  if◌then◌else◌,
}
use php.Prelude.Int.{is_zero, ℤ, pos, negsuc, ◌+ℤ◌, ltb_ℤ, i32, i64}
use php.Bytes.{Bytes}
use php.Strings.Number.{str, str_to_int64}
use php.LevelDb.{LevelDb, Got, found}
use php.Binlog.{Ssdb, is_minus_one}
use php.Net.Response.{Response, reply_status, reply_bool, reply_int, reply_get}
use php.Net.Response.Words
use php.Net.Response.Words.{ok, error, client_error}
use php.SizeRecord.{negated}
use php.Hash.{hget, hsize, hset, hdel, hincr}
use php.Kv.{code}
use php.Server.Request.{Request, param, sync, value_of, Handled, check_num_params}

module _ (L : LevelDb) where
  unfoldable pub proc_hexists : Request → Response → Ssdb L → Handled L
  proc_hexists req resp s =
      check_num_params 3 req resp s
        ((pos 0, reply_bool resp (code (hget L s (param req 1) (param req 2))) none), s)

  -- What proc_multi_hexists adds for one key.
  abbrev pub exists_words : Bytes → Got Bytes → Response
  exists_words key r = key ∷ (if ltb_ℤ (pos 0) (code r) then Words.one else Words.zero) ∷ []

  unfoldable pub hexists_loop : Bytes → List Bytes → Response → Ssdb L → Response
  hexists_loop name [] resp s = resp
  hexists_loop name (key ∷ keys) resp s =
      hexists_loop name keys (resp ++ exists_words key (hget L s name key)) s

  unfoldable pub proc_multi_hexists : Request → Response → Ssdb L → Handled L
  proc_multi_hexists req resp s =
      check_num_params 3 req resp s
        ((pos 0, hexists_loop (param req 1) (drop 2 req) (resp ++ ok ∷ []) s), s)

  unfoldable pub hsize_loop : List Bytes → Response → Ssdb L → Response
  hsize_loop [] resp s = resp
  hsize_loop (key ∷ keys) resp s = hsize_loop keys (resp ++ key ∷ str (hsize L s key) ∷ []) s

  -- The text of -1 is that of the other branch.
  unfoldable pub proc_multi_hsize : Request → Response → Ssdb L → Handled L
  proc_multi_hsize req resp s =
      check_num_params 2 req resp s ((pos 0, hsize_loop (drop 1 req) (resp ++ ok ∷ []) s), s)

  -- The loop of proc_multi_hset over the keys and values, with the sum so far, an int.
  unfoldable pub hset_loop : Bytes → List Bytes → Response → ℤ → Ssdb L → Response × Ssdb L
  hset_loop name [] resp num s = (reply_int resp (pos 0) num, s)
  hset_loop name (key ∷ []) resp num s = (reply_int resp (pos 0) num, s)
  hset_loop name (key ∷ val ∷ kvs) resp num s =
      let (ret, t) = hset L name key val sync s in
      elim (is_minus_one ret) [
        | true ↦ (resp ++ error ∷ [], t)
        | false ↦ hset_loop name kvs resp (i32 (num +ℤ ret)) t
      ]

  unfoldable pub proc_multi_hset : Request → Response → Ssdb L → Handled L
  proc_multi_hset req resp s =
      if ltb (length req) 4 || not (length req % 2 == 0)
      then ((pos 0, resp ++ client_error ∷ []), s)
      else (let (out, t) = hset_loop (param req 1) (drop 2 req) resp (pos 0) s in ((pos 0, out), t))

  -- The loop of proc_multi_hdel over the keys, with the sum so far, an int.
  unfoldable pub hdel_loop : Bytes → List Bytes → Response → ℤ → Ssdb L → Response × Ssdb L
  hdel_loop name [] resp num s = (reply_int resp (pos 0) num, s)
  hdel_loop name (key ∷ keys) resp num s =
      let (ret, t) = hdel L name key sync s in
      elim (is_minus_one ret) [
        | true ↦ (resp ++ error ∷ [], t)
        | false ↦ hdel_loop name keys resp (i32 (num +ℤ ret)) t
      ]

  unfoldable pub proc_multi_hdel : Request → Response → Ssdb L → Handled L
  proc_multi_hdel req resp s =
      let (out, t) = hdel_loop (param req 1) (drop 2 req) resp (pos 0) s in
      check_num_params 3 req resp s ((pos 0, out), t)

  -- What proc_multi_hget adds for one key.
  abbrev pub hget_words : Bytes → Got Bytes → Response
  hget_words key r = elim r [ found val ↦ key ∷ val ∷ [] | _ ↦ [] ]

  unfoldable pub hget_loop : Bytes → List Bytes → Response → Ssdb L → Response
  hget_loop name [] resp s = resp
  hget_loop name (key ∷ keys) resp s =
      hget_loop name keys (resp ++ hget_words key (hget L s name key)) s

  unfoldable pub proc_multi_hget : Request → Response → Ssdb L → Handled L
  proc_multi_hget req resp s =
      check_num_params 3 req resp s
        ((pos 0, hget_loop (param req 1) (drop 2 req) (resp ++ ok ∷ []) s), s)

  unfoldable pub proc_hsize : Request → Response → Ssdb L → Handled L
  proc_hsize req resp s =
      check_num_params 2 req resp s
        (let ret = hsize L s (param req 1) in ((pos 0, reply_int resp ret ret), s))

  unfoldable pub proc_hset : Request → Response → Ssdb L → Handled L
  proc_hset req resp s =
      let (ret, t) = hset L (param req 1) (param req 2) (param req 3) sync s in
      check_num_params 4 req resp s ((pos 0, reply_bool resp ret none), t)

  unfoldable pub proc_hget : Request → Response → Ssdb L → Handled L
  proc_hget req resp s = check_num_params 3 req resp s (
      let r = hget L s (param req 1) (param req 2) in
      ((pos 0, reply_get resp (code r) (some (value_of r)) none), s))

  unfoldable pub proc_hdel : Request → Response → Ssdb L → Handled L
  proc_hdel req resp s =
      let (ret, t) = hdel L (param req 1) (param req 2) sync s in
      check_num_params 3 req resp s ((pos 0, reply_bool resp ret none), t)

  -- _hincr, with dir 1 or -1. Without a third parameter the step is 1.
  unfoldable pub hincr_func : Request → Response → ℤ → Ssdb L → Handled L
  hincr_func req resp dir s =
      let by = if ltb 3 (length req) then (str_to_int64 (param req 3)).0 else pos 1 in
      let step = if ltb_ℤ dir (pos 0) then i64 (negated by) else by in
      let ((ret, new_val), t) = hincr L (param req 1) (param req 2) step sync s in
      check_num_params 3 req resp s (
        if is_zero ret
        then ((pos 0, reply_status resp (negsuc 0) (some Words.integer_error)), t)
        else ((pos 0, reply_int resp ret new_val), t))
