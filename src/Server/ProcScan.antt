-- ===== src/Server/ProcScan.antt =====
-- proc_kv.cpp, proc_hash.cpp, proc_zset.cpp and proc_queue.cpp: the requests that walk an iterator.
use php.Prelude.{ℕ, suc, List, [], ◌∷◌, ◌++◌, map, Option, none, some, length, ltb, if◌then◌else◌}
use php.Prelude.Int.{pos}
use php.Strings.Number.{str_to_uint64}
use php.LevelDb.{LevelDb}
use php.LevelDb.Iterators.{Entry, Iterators}
use php.Binlog.{Ssdb}
use php.Net.Response.{Response, reply_int, reply_list}
use php.Net.Response.Words.{ok}
use php.Iterator.{Iterator, Seen, k_seen, h_seen, typed_all}
use php.Scan.{scan, rscan, hscan, hrscan, hlist, hrlist, zlist, zrlist, qlist, qrlist, hclear}
use php.Server.Request.{Request, param, Handled, check_num_params}

-- The keys and values, one after the other.
abbrev pub words : List Entry → Response
words [] = []
words (e ∷ es) = e.0 ∷ e.1 ∷ words es

module _ (L : LevelDb) (I : Iterators L) where
  -- `resp->push_back("ok")`, then the keys and values that the iterator gives.
  abbrev pub reply_pairs : (Entry → Seen Entry) → ℕ → Iterator L I → Response → Ssdb L → Handled L
  reply_pairs seen limit it resp s =
      ((pos 0, resp ++ ok ∷ words (typed_all seen L I (suc limit) it)), s)

  -- The same with the keys alone, or the values alone.
  abbrev pub reply_keys : (Entry → Seen Entry) → ℕ → Iterator L I → Response → Ssdb L → Handled L
  reply_keys seen limit it resp s =
      ((pos 0, resp ++ ok ∷ map (λ e. e.0) (typed_all seen L I (suc limit) it)), s)

  abbrev pub reply_vals : (Entry → Seen Entry) → ℕ → Iterator L I → Response → Ssdb L → Handled L
  reply_vals seen limit it resp s =
      ((pos 0, resp ++ ok ∷ map (λ e. e.1) (typed_all seen L I (suc limit) it)), s)

  unfoldable pub proc_scan : Request → Response → Ssdb L → Handled L
  unfolding scan
  proc_scan req resp s =
      let limit = str_to_uint64 (param req 3) in
      check_num_params 4 req resp s
        (reply_pairs k_seen limit (scan L I s (param req 1) (param req 2) limit) resp s)

  unfoldable pub proc_rscan : Request → Response → Ssdb L → Handled L
  unfolding rscan
  proc_rscan req resp s =
      let limit = str_to_uint64 (param req 3) in
      check_num_params 4 req resp s
        (reply_pairs k_seen limit (rscan L I s (param req 1) (param req 2) limit) resp s)

  unfoldable pub proc_keys : Request → Response → Ssdb L → Handled L
  unfolding scan
  proc_keys req resp s =
      let limit = str_to_uint64 (param req 3) in
      check_num_params 4 req resp s
        (reply_keys k_seen limit (scan L I s (param req 1) (param req 2) limit) resp s)

  unfoldable pub proc_rkeys : Request → Response → Ssdb L → Handled L
  unfolding rscan
  proc_rkeys req resp s =
      let limit = str_to_uint64 (param req 3) in
      check_num_params 4 req resp s
        (reply_keys k_seen limit (rscan L I s (param req 1) (param req 2) limit) resp s)

  -- The limit of proc_hgetall.
  abbrev pub hgetall_limit : ℕ
  hgetall_limit = 2000000000

  unfoldable pub proc_hgetall : Request → Response → Ssdb L → Handled L
  unfolding hscan
  proc_hgetall req resp s =
      let name = param req 1 in
      check_num_params 2 req resp s
        (reply_pairs (h_seen name) hgetall_limit (hscan L I s name [] [] hgetall_limit) resp s)

  unfoldable pub proc_hscan : Request → Response → Ssdb L → Handled L
  unfolding hscan
  proc_hscan req resp s =
      let name = param req 1 in
      let limit = str_to_uint64 (param req 4) in
      check_num_params 5 req resp s (
        reply_pairs (h_seen name) limit (hscan L I s name (param req 2) (param req 3) limit) resp s)

  unfoldable pub proc_hrscan : Request → Response → Ssdb L → Handled L
  unfolding hrscan
  proc_hrscan req resp s =
      let name = param req 1 in
      let limit = str_to_uint64 (param req 4) in
      check_num_params 5 req resp s (
        reply_pairs (h_seen name) limit (hrscan L I s name (param req 2) (param req 3) limit) resp
          s)

  unfoldable pub proc_hkeys : Request → Response → Ssdb L → Handled L
  unfolding hscan
  proc_hkeys req resp s =
      let name = param req 1 in
      let limit = str_to_uint64 (param req 4) in
      check_num_params 5 req resp s
        (reply_keys (h_seen name) limit (hscan L I s name (param req 2) (param req 3) limit) resp s)

  unfoldable pub proc_hvals : Request → Response → Ssdb L → Handled L
  unfolding hscan
  proc_hvals req resp s =
      let name = param req 1 in
      let limit = str_to_uint64 (param req 4) in
      check_num_params 5 req resp s
        (reply_vals (h_seen name) limit (hscan L I s name (param req 2) (param req 3) limit) resp s)

  -- On fuel: none where it runs out.
  unfoldable pub proc_hclear : ℕ → Request → Response → Ssdb L → Option (Handled L)
  unfolding hclear
  proc_hclear fuel req resp s =
      let (count, t) = hclear L I fuel (param req 1) 0 s in
      if ltb (length req) 2
      then some (check_num_params 2 req resp s ((pos 0, resp), s))
      else elim count [ none ↦ none | some n ↦ some ((pos 0, reply_int resp (pos 0) n), t) ]

  unfoldable pub proc_hlist : Request → Response → Ssdb L → Handled L
  unfolding hlist
  proc_hlist req resp s =
      let limit = str_to_uint64 (param req 3) in
      check_num_params 4 req resp s
        ((pos 0, reply_list resp (pos 0) (hlist L I s (param req 1) (param req 2) limit)), s)

  unfoldable pub proc_hrlist : Request → Response → Ssdb L → Handled L
  unfolding hrlist
  proc_hrlist req resp s =
      let limit = str_to_uint64 (param req 3) in
      check_num_params 4 req resp s
        ((pos 0, reply_list resp (pos 0) (hrlist L I s (param req 1) (param req 2) limit)), s)

  unfoldable pub proc_zlist : Request → Response → Ssdb L → Handled L
  unfolding zlist
  proc_zlist req resp s =
      let limit = str_to_uint64 (param req 3) in
      check_num_params 4 req resp s
        ((pos 0, reply_list resp (pos 0) (zlist L I s (param req 1) (param req 2) limit)), s)

  unfoldable pub proc_zrlist : Request → Response → Ssdb L → Handled L
  unfolding zrlist
  proc_zrlist req resp s =
      let limit = str_to_uint64 (param req 3) in
      check_num_params 4 req resp s
        ((pos 0, reply_list resp (pos 0) (zrlist L I s (param req 1) (param req 2) limit)), s)

  unfoldable pub proc_qlist : Request → Response → Ssdb L → Handled L
  unfolding qlist
  proc_qlist req resp s =
      let limit = str_to_uint64 (param req 3) in
      check_num_params 4 req resp s
        ((pos 0, reply_list resp (pos 0) (qlist L I s (param req 1) (param req 2) limit)), s)

  unfoldable pub proc_qrlist : Request → Response → Ssdb L → Handled L
  unfolding qrlist
  proc_qrlist req resp s =
      let limit = str_to_uint64 (param req 3) in
      check_num_params 4 req resp s
        ((pos 0, reply_list resp (pos 0) (qrlist L I s (param req 1) (param req 2) limit)), s)
