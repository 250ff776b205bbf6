-- ===== src/Server/ProcZset.antt =====
-- proc_zset.cpp: the requests on sorted sets, but for those that walk an iterator.
use php.Prelude.{
  ◌%◌, true, false, ◌||◌, not, none, some, List, [], ◌∷◌, ◌++◌, length, ltb, ◌==◌, drop,
  if◌then◌else◌,
}
use php.Prelude.Int.{ℤ, pos, ◌+ℤ◌, ltb_ℤ, i32, i64}
use php.Bytes.{Bytes}
use php.Strings.Number.{str, str_to_int64}
use php.LevelDb.{LevelDb}
use php.Binlog.{Ssdb, is_minus_one}
use php.Net.Response.{Response, reply_bool, reply_int, reply_get}
use php.Net.Response.Words.{ok, error, client_error}
use php.SizeRecord.{negated}
use php.Kv.{code}
use php.Zset.{zget, zsize, zset, zdel, zincr}
use php.Server.Request.{Request, param, sync, value_of, Handled, check_num_params}
use php.Server.ProcHash.{exists_words, hget_words}

module _ (L : LevelDb) where
  unfoldable pub proc_zexists : Request → Response → Ssdb L → Handled L
  proc_zexists req resp s =
      check_num_params 3 req resp s
        ((pos 0, reply_bool resp (code (zget L s (param req 1) (param req 2))) none), s)

  unfoldable pub zexists_loop : Bytes → List Bytes → Response → Ssdb L → Response
  zexists_loop name [] resp s = resp
  zexists_loop name (key ∷ keys) resp s =
      zexists_loop name keys (resp ++ exists_words L key (zget L s name key)) s

  unfoldable pub proc_multi_zexists : Request → Response → Ssdb L → Handled L
  proc_multi_zexists req resp s =
      check_num_params 3 req resp s
        ((pos 0, zexists_loop (param req 1) (drop 2 req) (resp ++ ok ∷ []) s), s)

  unfoldable pub zsize_loop : List Bytes → Response → Ssdb L → Response
  zsize_loop [] resp s = resp
  zsize_loop (key ∷ keys) resp s = zsize_loop keys (resp ++ key ∷ str (zsize L s key) ∷ []) s

  -- The text of -1 is that of the other branch.
  unfoldable pub proc_multi_zsize : Request → Response → Ssdb L → Handled L
  proc_multi_zsize req resp s =
      check_num_params 2 req resp s ((pos 0, zsize_loop (drop 1 req) (resp ++ ok ∷ []) s), s)

  -- The loop of proc_multi_zset over the members and scores, with the sum so far, an int.
  unfoldable pub zset_loop : Bytes → List Bytes → Response → ℤ → Ssdb L → Response × Ssdb L
  zset_loop name [] resp num s = (reply_int resp (pos 0) num, s)
  zset_loop name (key ∷ []) resp num s = (reply_int resp (pos 0) num, s)
  zset_loop name (key ∷ val ∷ kvs) resp num s =
      let (ret, t) = zset L name key val sync s in
      elim (is_minus_one ret) [
        | true ↦ (resp ++ error ∷ [], t)
        | false ↦ zset_loop name kvs resp (i32 (num +ℤ ret)) t
      ]

  unfoldable pub proc_multi_zset : Request → Response → Ssdb L → Handled L
  proc_multi_zset req resp s =
      if ltb (length req) 4 || not (length req % 2 == 0)
      then ((pos 0, resp ++ client_error ∷ []), s)
      else (let (out, t) = zset_loop (param req 1) (drop 2 req) resp (pos 0) s in ((pos 0, out), t))

  -- The loop of proc_multi_zdel over the members, with the sum so far, an int.
  unfoldable pub zdel_loop : Bytes → List Bytes → Response → ℤ → Ssdb L → Response × Ssdb L
  zdel_loop name [] resp num s = (reply_int resp (pos 0) num, s)
  zdel_loop name (key ∷ keys) resp num s =
      let (ret, t) = zdel L name key sync s in
      elim (is_minus_one ret) [
        | true ↦ (resp ++ error ∷ [], t)
        | false ↦ zdel_loop name keys resp (i32 (num +ℤ ret)) t
      ]

  unfoldable pub proc_multi_zdel : Request → Response → Ssdb L → Handled L
  proc_multi_zdel req resp s =
      let (out, t) = zdel_loop (param req 1) (drop 2 req) resp (pos 0) s in
      check_num_params 3 req resp s ((pos 0, out), t)

  unfoldable pub zget_loop : Bytes → List Bytes → Response → Ssdb L → Response
  zget_loop name [] resp s = resp
  zget_loop name (key ∷ keys) resp s =
      zget_loop name keys (resp ++ hget_words L key (zget L s name key)) s

  unfoldable pub proc_multi_zget : Request → Response → Ssdb L → Handled L
  proc_multi_zget req resp s =
      check_num_params 3 req resp s
        ((pos 0, zget_loop (param req 1) (drop 2 req) (resp ++ ok ∷ []) s), s)

  unfoldable pub proc_zset : Request → Response → Ssdb L → Handled L
  proc_zset req resp s =
      let (ret, t) = zset L (param req 1) (param req 2) (param req 3) sync s in
      check_num_params 4 req resp s ((pos 0, reply_int resp ret ret), t)

  unfoldable pub proc_zsize : Request → Response → Ssdb L → Handled L
  proc_zsize req resp s =
      check_num_params 2 req resp s
        (let ret = zsize L s (param req 1) in ((pos 0, reply_int resp ret ret), s))

  unfoldable pub proc_zget : Request → Response → Ssdb L → Handled L
  proc_zget req resp s = check_num_params 3 req resp s (
      let r = zget L s (param req 1) (param req 2) in
      ((pos 0, reply_get resp (code r) (some (value_of r)) none), s))

  unfoldable pub proc_zdel : Request → Response → Ssdb L → Handled L
  proc_zdel req resp s =
      let (ret, t) = zdel L (param req 1) (param req 2) sync s in
      check_num_params 3 req resp s ((pos 0, reply_bool resp ret none), t)

  -- _zincr, with dir 1 or -1. Without a third parameter the step is 1.
  unfoldable pub zincr_func : Request → Response → ℤ → Ssdb L → Handled L
  zincr_func req resp dir s =
      let by = if ltb 3 (length req) then (str_to_int64 (param req 3)).0 else pos 1 in
      let step = if ltb_ℤ dir (pos 0) then i64 (negated by) else by in
      let ((ret, new_val), t) = zincr L (param req 1) (param req 2) step sync s in
      check_num_params 3 req resp s ((pos 0, reply_int resp ret new_val), t)
