-- ===== src/Expiration/Loop.antt =====
-- set_ttl, del_ttl and expire_loop, and what an ExpirationHandler holds in memory.
use php.Prelude.{
  ℕ, suc, ◌+◌, ◌≤◌, ◌≡◌, refl, sym, ap, true, not, none, some, List, [], ◌∷◌, arith, take, length,
  if◌then◌else◌, Bool-cases, Option-cases, inl, inr,
}
use php.Prelude.Int.{ℤ, pos, ltb_ℤ, leb_ℤ}
use php.Bytes.{Bytes}
use php.LevelDb.{LevelDb}
use php.LevelDb.Iterators.{Entry, Iterators, IsIterable}
use php.Binlog.{Ssdb, is_minus_one}
use php.Zset.{zset}
use php.Strings.Number.{str, str_to_int64}
use php.Prelude.Int.{i64, ◌+ℤ◌}
use php.Iterator.{iterator, Seen, z_seen, typed_all}
use php.Iterator.Range.{in_range, iterator-Gives}
use php.Iterator.Range.Keep.{keep}
use php.Iterator.Typed.{collect, typed_all-collect}
use php.Scan.Range.{length-take_lt}
use php.Scan.Members.{zscan, ziterator}
use php.SortedSet
use php.SortedSet.{SortedSet, Item, pop, is_empty_set}
use php.SortedSet.Items.{get}
use php.SortedSet.InStep.{InStep, add-InStep}
use php.SortedSet.Pop.{get-first}
use php.Expiration.{
  ExpirationHandler, batch_size, list_name, thousand_times, set_ttl, del_ttl, load_keys,
  load_expiration_keys_from_db, expire_front, expire_loop, int64_max,
}
use php.Expiration.Bounds.{IsBounded, set_fast-IsBounded, del-IsBounded, popped, length-add}

load_keys-InStep :
    (es : List Entry) (s : SortedSet)
    → InStep s
    → InStep (load_keys es s)
      × (length (load_keys es s).sorted_set ≤ length s.sorted_set + length es)
unfolding load_keys
load_keys-InStep [] s h = (h, omega arith)
load_keys-InStep (e ∷ es) s h =
    let score = (str_to_int64 e.1).0 in
    let ms = if ltb_ℤ score (pos 2000000000) then i64 (thousand_times score) else score in
    let next = (SortedSet.add e.0 ms s).1 in
    let (st, n) = load_keys-InStep es next (add-InStep s h e.0 ms e.0).0 in
    (st, omega (arith, n, length-add e.0 ms s))

length-collect : (seen : Entry → Seen Entry) (l : List Entry) → length (collect seen l) ≤ length l
length-collect seen [] = omega arith
length-collect seen (e ∷ l) = ground (arith, length-collect seen l)

module _ (L : LevelDb) (I : Iterators L) (s : Ssdb L) (ok : IsIterable L I s.db) where
  length-iterator :
      (start end : Bytes) (limit : ℕ)
      → length (typed_all z_seen L I (suc limit) (iterator L I s.db start end limit)) ≤ limit
  length-iterator start end limit =
      let es = keep (in_range start end) (I.entries s.db) in
      let e : typed_all z_seen L I (suc limit) (iterator L I s.db start end limit)
          ≡ collect z_seen (take limit es) =
        typed_all-collect z_seen L I (suc limit) (iterator L I s.db start end limit) (take limit es)
          (iterator-Gives L I s.db ok start end limit) (length-take_lt limit es) in
      omega (arith, ap length e, length-collect z_seen (take limit es), length-take_lt limit es)

  -- A loop over zscan reads no more members than its limit.
  length-zscan :
      (name key score_start score_end : Bytes) (limit : ℕ)
      → length (typed_all z_seen L I (suc limit) (zscan L I s name key score_start score_end limit))
        ≤ limit
  unfolding zscan ziterator
  length-zscan name key score_start score_end limit = length-iterator _ _ limit

  load-IsBounded :
      (h : ExpirationHandler)
      → IsBounded h.fast_keys
      → is_empty_set h.fast_keys ≡ true
      → IsBounded (load_expiration_keys_from_db L I batch_size h s).fast_keys
  unfolding load_expiration_keys_from_db
  load-IsBounded h (st, n) e =
      let it = zscan L I s list_name [] [] [] batch_size in
      let es = typed_all z_seen L I (suc batch_size) it in
      let (st', m) = load_keys-InStep es h.fast_keys st in
      let k : length es ≤ batch_size = length-zscan list_name [] [] [] batch_size in
      let zero_length : length h.fast_keys.sorted_set ≡ 0 = ground (arith, e) in
      (st', omega (arith, m, k, zero_length))

front-get :
    (items : List Item) (x : Item)
    → (elim items [ [] ↦ none | a ∷ rest ↦ some a ]) ≡ some x
    → get items x.key ≡ some x
front-get [] x f = cc f
front-get (a ∷ items) x f = let own : a ≡ x = cc f in rw (sym own) (get-first a items)

-- The end of expire_loop.
front-IsBounded :
    (L : LevelDb) (I : Iterators L) (time_ms : ℤ) (h : ExpirationHandler) (s : Ssdb L)
    → IsBounded h.fast_keys
    → IsBounded (expire_front L I time_ms h s).0.fast_keys
unfolding expire_front SortedSet.pop_front SortedSet.front
front-IsBounded L I time_ms h s (st, n) = elim (Option-cases (SortedSet.front h.fast_keys)) [
  | inl e ↦ rw (expire_front, e) (st, n)
  | inr (x, e) ↦
      let go : SortedSet.pop_front h.fast_keys ≡ pop (some x) h.fast_keys =
        ap (λ o. pop o h.fast_keys) e in
      let (st', m) = popped h.fast_keys x st (front-get h.fast_keys.sorted_set x e) in
      elim (Bool-cases (leb_ℤ x.score time_ms)) [
        | inl y ↦ rw (expire_front, e, y, go) (st', omega (arith, m, n))
        | inr y ↦ rw (expire_front, e, y) (st, n)
      ]
]

module _ (L : LevelDb) (I : Iterators L) (s : Ssdb L) (ok : IsIterable L I s.db) where
  -- expire_loop after the keys are loaded.
  abbrev loaded : ℤ → ExpirationHandler → ExpirationHandler × Ssdb L
  loaded time_ms h =
      if is_empty_set h.fast_keys
      then (record h { first_timeout = int64_max }, s)
      else expire_front L I time_ms h s

  loaded-IsBounded :
      (time_ms : ℤ) (h : ExpirationHandler)
      → IsBounded h.fast_keys
      → IsBounded (loaded time_ms h).0.fast_keys
  loaded-IsBounded time_ms h b = elim (Bool-cases (is_empty_set h.fast_keys)) [
    | inl y ↦ rw y b
    | inr y ↦ rw y (front-IsBounded L I time_ms h s b)
  ]

  loop-IsBounded :
      (time_ms : ℤ) (h : ExpirationHandler)
      → IsBounded h.fast_keys
      → IsBounded (expire_loop L I time_ms h s).0.fast_keys
  unfolding expire_loop
  loop-IsBounded time_ms h b =
      let m = load_expiration_keys_from_db L I batch_size h s in
      let start : ExpirationHandler = if is_empty_set h.fast_keys then m else h in
      let go : expire_loop L I time_ms h s ≡ loaded time_ms start = refl in
      let bounded : IsBounded start.fast_keys = elim (Bool-cases (is_empty_set h.fast_keys)) [
        | inl y ↦ rw y (load-IsBounded L I s ok h b y)
        | inr y ↦ rw y b
      ] in
      rw go (loaded-IsBounded time_ms start bounded)

  -- On a database whose iterators meet no error, set_ttl, del_ttl and expire_loop keep the map and
  -- the set of fast_keys in step, and at most BATCH_SIZE keys in them.
  pub handler-IsBounded :
      (time_ms : ℤ) (key : Bytes) (ttl : ℤ) (h : ExpirationHandler)
      → IsBounded h.fast_keys
      → IsBounded (set_ttl L time_ms key ttl h s).1.fast_keys
        × IsBounded (del_ttl L key h s).1.fast_keys
        × IsBounded (expire_loop L I time_ms h s).0.fast_keys
  unfolding set_ttl del_ttl
  handler-IsBounded time_ms key ttl h b =
      let expired = i64 (time_ms +ℤ thousand_times ttl) in
      let write = zset L list_name key (str expired) 1 s in
      (
        elim (Bool-cases (is_minus_one write.0)) [
          | inl y ↦ rw (set_ttl, y) b
          | inr y ↦ rw (set_ttl, y) (set_fast-IsBounded key expired h.fast_keys b)
        ],
        elim (Bool-cases (not (SortedSet.eqb_ℤ h.first_timeout int64_max))) [
          | inl y ↦ rw (del_ttl, y) (del-IsBounded key h.fast_keys b)
          | inr y ↦ rw (del_ttl, y) b
        ],
        loop-IsBounded time_ms h b,
      )
