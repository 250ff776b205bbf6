-- ===== src/Server/ProcTtl.antt =====
-- proc_kv.cpp: the requests on single values that set, read or drop a time to live. Those that write
-- hold the lock of the ExpirationHandler throughout, so each is one step on it and the database.
use php.Prelude.{ℕ, Bool, not, ◌&&◌, List, [], ◌∷◌, ◌++◌, length, ltb, drop, if◌then◌else◌}
use php.Prelude.Int.{ℤ, pos}
use php.Bytes.{Bytes}
use php.Strings.Number.{str, str_to_int}
use php.LevelDb.{LevelDb, failed, missing, found}
use php.Binlog.{Ssdb, is_minus_one}
use php.Net.Response.{Response, reply_int}
use php.Net.Response.Words
use php.Net.Response.Words.{ok, error, out_of_range}
use php.Kv
use php.Expiration.{ExpirationHandler, set_ttl, del_ttl, get_ttl}
use php.Server.Request.{Request, param, sync, wrong_number}
use php.Server.ProcKv.{KvRange, in_kv_range}

module _ (L : LevelDb) (range : KvRange) (ignore_key_range : Bool) where
  -- A handler's result and the response, the expiration handler and the database.
  abbrev pub Outcome : Type 0
  Outcome = (ℤ × Response) × ExpirationHandler × Ssdb L

  -- CHECK_NUM_PARAMS(n), then the rest of the handler.
  abbrev with_params : ℕ → Request → Response → ExpirationHandler → Ssdb L → Outcome → Outcome
  with_params n req resp h s rest =
      if ltb (length req) n then ((pos 0, wrong_number resp), h, s) else rest

  -- CHECK_NUM_PARAMS(n) and CHECK_KV_KEY_RANGE(1), then the rest of the handler.
  abbrev with_key : ℕ → Request → Response → ExpirationHandler → Ssdb L → Outcome → Outcome
  with_key n req resp h s rest = with_params n req resp h s (
      if not ignore_key_range && ltb 1 (length req) && not (in_kv_range range (param req 1))
      then ((pos 0, resp ++ out_of_range ∷ []), h, s)
      else rest)

  -- The reply after set_ttl.
  abbrev ttl_reply : Response → ℤ → Response
  ttl_reply resp ret = if is_minus_one ret then resp ++ error ∷ [] else resp ++ ok ∷ Words.one ∷ []

  unfoldable pub proc_setx : ℤ → Request → Response → ExpirationHandler → Ssdb L → Outcome
  proc_setx time_ms req resp h s = with_key 4 req resp h s (
      let (ret, t) = Kv.set L (param req 1) (param req 2) sync s in
      let (r, h', u) = set_ttl L time_ms (param req 1) (str_to_int (param req 3)) h t in
      if is_minus_one ret
      then ((pos 0, resp ++ error ∷ []), h, t)
      else ((pos 0, ttl_reply resp r), h', u))

  unfoldable pub proc_ttl : ℤ → Request → Response → ExpirationHandler → Ssdb L → Outcome
  proc_ttl time_ms req resp h s =
      with_key 2 req resp h s
        ((pos 0, resp ++ ok ∷ str (get_ttl L time_ms (param req 1) s) ∷ []), h, s)

  unfoldable pub proc_expire : ℤ → Request → Response → ExpirationHandler → Ssdb L → Outcome
  proc_expire time_ms req resp h s = with_key 3 req resp h s (elim (Kv.get L s (param req 1)) [
    | failed ↦ ((pos 0, resp ++ ok ∷ Words.zero ∷ []), h, s)
    | missing ↦ ((pos 0, resp ++ ok ∷ Words.zero ∷ []), h, s)
    | found val ↦
        let (r, h', t) = set_ttl L time_ms (param req 1) (str_to_int (param req 2)) h s in
        ((pos 0, ttl_reply resp r), h', t)
  ])

  -- The loop of proc_multi_del.
  unfoldable pub del_ttl_loop : List Bytes → ExpirationHandler → Ssdb L → ExpirationHandler × Ssdb L
  del_ttl_loop [] h s = (h, s)
  del_ttl_loop (key ∷ keys) h s = let (r, h', t) = del_ttl L key h s in del_ttl_loop keys h' t

  unfoldable pub proc_multi_del : Request → Response → ExpirationHandler → Ssdb L → Outcome
  unfolding del_ttl_loop
  proc_multi_del req resp h s = with_params 2 req resp h s (
      let (ret, t) = Kv.multi_del L (drop 1 req) sync s in
      let (h', u) = del_ttl_loop (drop 1 req) h t in
      if is_minus_one ret
      then ((pos 0, resp ++ error ∷ []), h, t)
      else ((pos 0, reply_int resp (pos 0) ret), h', u))

  unfoldable pub proc_del : Request → Response → ExpirationHandler → Ssdb L → Outcome
  proc_del req resp h s = with_key 2 req resp h s (
      let (ret, t) = Kv.del L (param req 1) sync s in
      let (r, h', u) = del_ttl L (param req 1) h t in
      if is_minus_one ret
      then ((pos 0, resp ++ error ∷ []), h, t)
      else ((pos 0, resp ++ ok ∷ Words.one ∷ []), h', u))
