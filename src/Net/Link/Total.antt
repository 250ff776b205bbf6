-- ===== src/Net/Link/Total.antt =====
-- recv ends: its fuel, the size of the buffer, is enough.
use php.Prelude.{
  ℕ, zero, suc, ◌+◌, ◌≤◌, ◌<◌, ◌≡◌, ◌≢◌, refl, some, List, [], ◌∷◌, ◌++◌, arith, length, take, drop,
  ◌==◌, Bool-cases, Option-cases, inl, inr, length-drop,
}
use php.Prelude.Int.{ℤ, pos, negsuc}
use php.Bytes.{Bytes}
use php.Strings.Number.{atoi}
use php.Net.Link.{
  out_of_fuel, split_line, separator, Separator, found, partial, wrong, Loop, recv_loop, recv_line,
  recv_record, recv_rest, recv_from, skip_lines, recv,
}

length-split_line :
    (s line body : Bytes)
    → split_line s ≡ some (line, body)
    → length line + 1 + length body ≡ length s
unfolding split_line
length-split_line [] line body e = cc
length-split_line (c ∷ s) line body e = elim (Bool-cases (c == b'\n')) [
  | inl p ↦ ground (arith, rw p at e)
  | inr p ↦ elim (Option-cases (split_line s)) [
    | inl q ↦ ground (arith, q, p, e)
    | inr ((l, b), q) ↦ ground (arith, q, p, e, length-split_line s l b q)
  ]
]

separator-le :
    (s : Bytes) (k : ℕ) (rest : Bytes) → separator s ≡ found k rest → length rest ≤ length s
unfolding separator
separator-le [] k rest e = cc
separator-le (c ∷ []) k rest e = ground (arith, e)
separator-le (c ∷ d ∷ s) k rest e = ground (arith, e)

-- A loop that ends on every buffer shorter than n.
abbrev Ends : ℕ → Loop → Type 0
Ends n loop = (p : ℕ) (r : List Bytes) (s : Bytes) → length s < n → loop p r s ≢ out_of_fuel

module _ (loop : Loop) (n : ℕ) (ends : Ends n loop) where
  recv_rest-ends :
      (p : ℕ) (r : List Bytes) (g : Separator)
      → ((k : ℕ) (rest : Bytes) → g ≡ found k rest → length rest < n)
      → recv_rest loop p r g ≢ out_of_fuel
  unfolding recv_rest
  recv_rest-ends p r wrong h e = cc
  recv_rest-ends p r partial h e = cc
  recv_rest-ends p r (found k rest) h e = ground (arith, e, ends (p + k) r rest (h k rest refl))

  recv_record-ends :
      (k p : ℕ) (r : List Bytes) (z : ℤ) (body : Bytes)
      → length body < n
      → recv_record loop k p r z body ≢ out_of_fuel
  unfolding recv_record
  recv_record-ends k p r (negsuc i) body h e = cc
  recv_record-ends k p r (pos i) body h e = ground (
    arith,
    e,
    recv_rest-ends (p + i) (r ++ take i body ∷ []) (separator (drop i body))
        (λ j rest q. omega (arith, h, separator-le (drop i body) j rest q, length-drop {0} i body)),
  )

  recv_line-ends :
      (p : ℕ) (r : List Bytes) (c : ℕ) (line body : Bytes)
      → length body < n
      → recv_line loop p r c line body ≢ out_of_fuel
  unfolding recv_line
  recv_line-ends p r c line body h e =
      ground
        (arith, e, recv_record-ends (length line + 1) (p + length line + 1) r (atoi line) body h)

recv_loop-Ends : (f : ℕ) → Ends f (recv_loop f)
unfolding recv_loop
recv_loop-Ends zero p r s h e = elim h [ ]
recv_loop-Ends (suc f) p r [] h e = cc
recv_loop-Ends (suc f) p r (c ∷ s) h e = elim (Option-cases (split_line (c ∷ s))) [
  | inl q ↦ cc (rw (q, recv_loop) at e)
  | inr ((line, body), q) ↦
      recv_line-ends (recv_loop f) f (recv_loop-Ends f) p r c line body
        (omega (arith, h, length-split_line (c ∷ s) line body q)) (rw (q, recv_loop) at e)
]

-- Whatever the buffer holds, recv ends within its fuel.
pub recv_ends : (input : Bytes) → recv input ≢ out_of_fuel
unfolding recv
recv_ends input = from (skip_lines 0 input).0 (skip_lines 0 input).1
  where
    from : (p : ℕ) (s : Bytes) → recv_from p s ≢ out_of_fuel
    from p [] e = cc
    from p (c ∷ s) e =
        ground (arith, e, recv_loop-Ends (length (c ∷ s) + 1) p [] (c ∷ s) (omega arith))
