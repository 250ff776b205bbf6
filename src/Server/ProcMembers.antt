-- ===== src/Server/ProcMembers.antt =====
-- proc_zset.cpp: the requests that walk the members of a sorted set.
use php.Prelude.{ℕ, suc, ◌+◌, ◌-◌, ◌^◌, [], ◌∷◌, ◌++◌, length, ltb, if◌then◌else◌}
use php.Prelude.Int.{pos, u64, i64}
use php.Strings.Number.{str_to_uint64}
use php.LevelDb.{LevelDb}
use php.LevelDb.Iterators.{Iterators}
use php.Binlog.{Ssdb, is_minus_one}
use php.Net.Response.{Response, reply_int}
use php.Net.Response.Words.{not_found}
use php.Iterator.{Iterator, z_seen, typed_all}
use php.Scan.Members.{zscan, zrscan, zrank, zrrank, zrange, zrrange, z_skip}
use php.Server.Request.{Request, param, Handled, check_num_params}
use php.Server.ProcScan.{reply_pairs, reply_keys}

module _ (L : LevelDb) (I : Iterators L) where
  unfoldable pub proc_zrank : Request → Response → Ssdb L → Handled L
  unfolding zrank
  proc_zrank req resp s =
      let ret = zrank L I s (param req 1) (param req 2) in
      check_num_params 3 req resp s
        ((pos 0, if is_minus_one ret then resp ++ not_found ∷ [] else reply_int resp ret ret), s)

  unfoldable pub proc_zrrank : Request → Response → Ssdb L → Handled L
  unfolding zrrank
  proc_zrrank req resp s =
      let ret = zrrank L I s (param req 1) (param req 2) in
      check_num_params 3 req resp s
        ((pos 0, if is_minus_one ret then resp ++ not_found ∷ [] else reply_int resp ret ret), s)

  unfoldable pub proc_zrange : Request → Response → Ssdb L → Handled L
  unfolding zrange
  proc_zrange req resp s =
      let offset = str_to_uint64 (param req 2) in
      let limit = str_to_uint64 (param req 3) in
      let it = zrange L I s (param req 1) offset limit in
      check_num_params 4 req resp s (reply_pairs L I z_seen it.limit it resp s)

  unfoldable pub proc_zrrange : Request → Response → Ssdb L → Handled L
  unfolding zrrange
  proc_zrrange req resp s =
      let offset = str_to_uint64 (param req 2) in
      let limit = str_to_uint64 (param req 3) in
      let it = zrrange L I s (param req 1) offset limit in
      check_num_params 4 req resp s (reply_pairs L I z_seen it.limit it resp s)

  -- The offset and the limit of proc_zscan and proc_zrscan: with a seventh word the sixth one is
  -- the offset.
  abbrev scan_offset : Request → ℕ
  scan_offset req = if ltb 6 (length req) then str_to_uint64 (param req 5) else 0

  abbrev scan_limit : Request → ℕ
  scan_limit req =
      let limit = str_to_uint64 (param req 5) in
      if ltb 6 (length req) then u64 (limit + str_to_uint64 (param req 6)) else limit

  -- `if(offset > 0){ it->skip(offset); }`, which does nothing for 0.
  abbrev skipped : ℕ → Iterator L I → Iterator L I
  skipped offset it = (z_skip L I (suc it.limit) offset it).1

  unfoldable pub proc_zscan : Request → Response → Ssdb L → Handled L
  unfolding zscan z_skip
  proc_zscan req resp s =
      let start =
        zscan L I s (param req 1) (param req 2) (param req 3) (param req 4) (scan_limit req) in
      let it = skipped (scan_offset req) start in
      check_num_params 6 req resp s (reply_pairs L I z_seen it.limit it resp s)

  unfoldable pub proc_zrscan : Request → Response → Ssdb L → Handled L
  unfolding zrscan z_skip
  proc_zrscan req resp s =
      let start =
        zrscan L I s (param req 1) (param req 2) (param req 3) (param req 4) (scan_limit req) in
      let it = skipped (scan_offset req) start in
      check_num_params 6 req resp s (reply_pairs L I z_seen it.limit it resp s)

  unfoldable pub proc_zkeys : Request → Response → Ssdb L → Handled L
  unfolding zscan
  proc_zkeys req resp s =
      let limit = str_to_uint64 (param req 5) in
      let it = zscan L I s (param req 1) (param req 2) (param req 3) (param req 4) limit in
      check_num_params 6 req resp s (reply_keys L I z_seen limit it resp s)

  -- The limit -1 is the greatest uint64_t.
  unfoldable pub proc_zcount : Request → Response → Ssdb L → Handled L
  unfolding zscan
  proc_zcount req resp s =
      let limit = 2 ^ 64 - 1 in
      let it = zscan L I s (param req 1) [] (param req 2) (param req 3) limit in
      let count = length (typed_all z_seen L I (suc limit) it) in
      check_num_params 4 req resp s ((pos 0, reply_int resp (pos 0) (i64 (pos count))), s)
