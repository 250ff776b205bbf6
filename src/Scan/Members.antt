-- ===== src/Scan/Members.antt =====
-- The operations of ssdb/t_zset.cpp that walk the members of a sorted set by score: zscan, zrscan,
-- zrange, zrrange, zrank and zrrank.
use php.Prelude.{
  ℕ, zero, suc, ◌+◌, Bool, true, false, not, ◌&&◌, none, some, [], ◌∷◌, ltb, if◌then◌else◌,
}
use php.Prelude.Int.{ℤ, pos, negsuc, u64}
use php.Bytes.{Bytes, eqb, is_empty}
use php.Keys.Zset.{encode_zscore_key}
use php.LevelDb.{LevelDb, failed, missing, found}
use php.LevelDb.Iterators.{Iterators}
use php.Binlog.{Ssdb}
use php.Zset.{zget}
use php.Iterator.{
  Direction, forward, backward, Iterator, iterator, rev_iterator, z_seen, typed_next,
}

-- The least and the greatest int64_t as text, SSDB_SCORE_MIN and SSDB_SCORE_MAX.
abbrev pub score_min : Bytes
score_min =
    b'-' ∷ b'9' ∷ b'2' ∷ b'2' ∷ b'3' ∷ b'3' ∷ b'7' ∷ b'2' ∷ b'0' ∷ b'3' ∷ b'6' ∷ b'8' ∷ b'5' ∷ b'4'
    ∷ b'7' ∷ b'7' ∷ b'5' ∷ b'8' ∷ b'0' ∷ b'8' ∷ []

abbrev pub score_max : Bytes
score_max =
    b'+' ∷ b'9' ∷ b'2' ∷ b'2' ∷ b'3' ∷ b'3' ∷ b'7' ∷ b'2' ∷ b'0' ∷ b'3' ∷ b'6' ∷ b'8' ∷ b'5' ∷ b'4'
    ∷ b'7' ∷ b'7' ∷ b'5' ∷ b'8' ∷ b'0' ∷ b'7' ∷ []

-- INT_MAX
abbrev int_max : ℕ
int_max = 2147483647

abbrev pub or_default : Bytes → Bytes → Bytes
or_default default score = if is_empty score then default else score

module _ (L : LevelDb) (I : Iterators L) where
  -- ziterator
  unfoldable pub ziterator : Ssdb L → Bytes → Bytes → Bytes → Bytes → ℕ → Direction → Iterator L I
  unfolding encode_zscore_key
  ziterator s name key_start score_start score_end limit forward =
      let start = encode_zscore_key name key_start (or_default score_min score_start) in
      let end = encode_zscore_key name (255 ∷ []) (or_default score_max score_end) in
      iterator L I s.db start end limit
  ziterator s name key_start score_start score_end limit backward =
      let start =
        if is_empty score_start
        then encode_zscore_key name key_start score_max
        else if is_empty key_start
        then encode_zscore_key name (255 ∷ []) score_start
        else encode_zscore_key name key_start score_start in
      let end = encode_zscore_key name [] (or_default score_min score_end) in
      rev_iterator L I s.db start end limit

  -- The score from which zscan starts: that of the key, where only a key is given. A read that
  -- finds nothing leaves it empty.
  unfoldable pub start_score : Ssdb L → Bytes → Bytes → Bytes → Bytes
  start_score s name key score_start =
      if not (is_empty key) && is_empty score_start
      then (elim (zget L s name key) [ failed ↦ [] | missing ↦ [] | found score ↦ score ])
      else score_start

  -- SSDBImpl::zscan
  unfoldable pub zscan : Ssdb L → Bytes → Bytes → Bytes → Bytes → ℕ → Iterator L I
  unfolding ziterator start_score
  zscan s name key score_start score_end limit =
      ziterator s name key (start_score s name key score_start) score_end limit forward

  -- SSDBImpl::zrscan
  unfoldable pub zrscan : Ssdb L → Bytes → Bytes → Bytes → Bytes → ℕ → Iterator L I
  unfolding ziterator start_score
  zrscan s name key score_start score_end limit =
      ziterator s name key (start_score s name key score_start) score_end limit backward

  -- The loop of zrank and zrrank.
  unfoldable pub rank_loop : ℕ → Bytes → Iterator L I → ℕ → ℤ
  unfolding typed_next
  rank_loop zero key it ret = negsuc 0
  rank_loop (suc n) key it ret =
      let (a, u) = typed_next z_seen L I (suc n) it in
      let rest = rank_loop n key u (suc ret) in
      elim a [ none ↦ negsuc 0 | some e ↦ if eqb key e.0 then pos ret else rest ]

  -- SSDBImpl::zrank
  unfoldable pub zrank : Ssdb L → Bytes → Bytes → ℤ
  unfolding rank_loop ziterator
  zrank s name key = rank_loop (suc int_max) key (ziterator s name [] [] [] int_max forward) 0

  -- SSDBImpl::zrrank
  unfoldable pub zrrank : Ssdb L → Bytes → Bytes → ℤ
  unfolding rank_loop ziterator
  zrrank s name key = rank_loop (suc int_max) key (ziterator s name [] [] [] int_max backward) 0

  -- ZIterator::skip, with the fuel of a call of next.
  unfoldable pub z_skip : ℕ → ℕ → Iterator L I → Bool × Iterator L I
  unfolding typed_next
  z_skip fuel zero it = (true, it)
  z_skip fuel (suc offset) it =
      let (a, u) = typed_next z_seen L I fuel it in
      let rest = z_skip fuel offset u in elim a [ none ↦ (false, u) | some e ↦ rest ]

  -- `if(offset + limit > limit){ limit = offset + limit; }`
  abbrev range_limit : ℕ → ℕ → ℕ
  range_limit offset limit = let sum = u64 (offset + limit) in if ltb limit sum then sum else limit

  -- SSDBImpl::zrange
  unfoldable pub zrange : Ssdb L → Bytes → ℕ → ℕ → Iterator L I
  unfolding z_skip ziterator
  zrange s name offset limit =
      let n = range_limit offset limit in
      (z_skip (suc n) offset (ziterator s name [] [] [] n forward)).1

  -- SSDBImpl::zrrange
  unfoldable pub zrrange : Ssdb L → Bytes → ℕ → ℕ → Iterator L I
  unfolding z_skip ziterator
  zrrange s name offset limit =
      let n = range_limit offset limit in
      (z_skip (suc n) offset (ziterator s name [] [] [] n backward)).1
