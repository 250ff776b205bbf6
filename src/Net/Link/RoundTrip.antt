-- ===== src/Net/Link/RoundTrip.antt =====
-- What send writes, recv reads.
use php.Prelude.{
  ℕ, zero, suc, ◌+◌, ◌^◌, ◌≤◌, ◌<◌, ◌≡◌, ◌≢◌, refl, ap, sym, ◌∙◌, false, some, List, [], ◌∷◌, ◌++◌,
  arith, length, append_assoc, length-append, append-nil,
}
use php.Prelude.Int.{ℤ, pos}
use php.Bytes.{Bytes}
use php.Bytes.Decoder.{take-append, drop-append}
use php.Strings.Number.{
  str, atoi, atoi-str, AllDigits, decimal-AllDigits, decimal_ne_nil, length-decimal,
}
use php.Net.Link.{
  packet, split_line, ends_packet, separator, found, recv_loop, recv_line, recv_record, recv_rest,
  skip_lines, recv, append_record, append_records, send, max_packet_size,
}

split_line-digits : (a body : Bytes) → AllDigits a → split_line (a ++ b'\n' ∷ body) ≡ some (a, body)
unfolding split_line
split_line-digits [] body h = refl
split_line-digits (c ∷ a) body h = ground (arith, h.0, split_line-digits a body h.1)

-- A line of digits does not end a packet.
ends_packet-digits : (c : ℕ) (a : Bytes) → AllDigits (c ∷ a) → ends_packet (c ∷ a) ≡ false
ends_packet-digits c [] h = ground (arith, h.0)
ends_packet-digits c (d ∷ a) h = refl

separator-newline : (s : Bytes) → separator (b'\n' ∷ s) ≡ found 1 s
unfolding separator
separator-newline [] = refl
separator-newline (c ∷ s) = refl

-- One round of the loop reads one record, where the packet does not grow too large.
module _ (f parsed : ℕ) (records : List Bytes) (item rest : Bytes)
    (fits : length item < 2 ^ 31) where
  abbrev digits_of : Bytes
  digits_of = str (pos (length item))

  digits-AllDigits : AllDigits digits_of
  unfolding str
  digits-AllDigits = decimal-AllDigits (suc (length item)) (length item)

  digits_ne_nil : digits_of ≢ []
  unfolding str
  digits_ne_nil = decimal_ne_nil (length item) (length item)

  digits_short : length digits_of ≤ 11
  unfolding str
  digits_short = length-decimal 10 (suc (length item)) (length item) (omega (arith, fits))

  recv_record-item :
      (k p : ℕ)
      → k ≤ 12
      → p + length item + 1 ≤ max_packet_size
      → recv_record (recv_loop f) k p records (pos (length item)) (item ++ b'\n' ∷ rest)
        ≡ recv_loop f (p + length item + 1) (records ++ item ∷ []) rest
  unfolding recv_record recv_rest
  recv_record-item k p short h = ground (
    arith,
    length-append {0} item (b'\n' ∷ rest),
    take-append item (b'\n' ∷ rest),
    drop-append item (b'\n' ∷ rest),
    separator-newline rest,
  )

  recv_line-item :
      (c : ℕ) (a body : Bytes) (r : ℤ)
      → AllDigits (c ∷ a)
      → length (c ∷ a) ≤ 11
      → atoi (c ∷ a) ≡ r
      → recv_line (recv_loop f) parsed records c (c ∷ a) body
        ≡ recv_record
            (recv_loop f)
            (length (c ∷ a) + 1)
            (parsed + length (c ∷ a) + 1)
            records
            r
            body
  unfolding recv_line
  recv_line-item c a body r d s v = ground (arith, ends_packet-digits c a d, d.0)

  pub recv_loop-line :
      (ds body : Bytes) (n : ℕ)
      → AllDigits ds
      → ds ≢ []
      → length ds ≤ 11
      → atoi ds ≡ pos n
      → recv_loop (suc f) parsed records (ds ++ b'\n' ∷ body)
        ≡ recv_record (recv_loop f) (length ds + 1) (parsed + length ds + 1) records (pos n) body
  unfolding recv_loop
  recv_loop-line [] body n d ne s v = absurd (ne refl)
  recv_loop-line (c ∷ a) body n d ne s v =
      rw (split_line-digits (c ∷ a) body d, recv_loop) (recv_line-item c a body (pos n) d s v)

  record_split : append_record item ++ rest ≡ digits_of ++ b'\n' ∷ (item ++ b'\n' ∷ rest)
  unfolding append_record
  record_split =
      append_assoc digits_of (b'\n' ∷ (item ++ b'\n' ∷ [])) rest
      ∙ ap (λ t. digits_of ++ b'\n' ∷ t) (append_assoc item (b'\n' ∷ []) rest)

  length-append_record : length (append_record item) ≡ length digits_of + length item + 2
  unfolding append_record
  length-append_record = omega (
    arith,
    length-append {0} digits_of (b'\n' ∷ (item ++ b'\n' ∷ [])),
    length-append {0} item (b'\n' ∷ []),
  )

  recv_loop-item :
      (p : ℕ)
      → parsed + length (append_record item) ≡ p
      → p ≤ max_packet_size
      → recv_loop (suc f) parsed records (append_record item ++ rest)
        ≡ recv_loop f p (records ++ item ∷ []) rest
  recv_loop-item p e h =
      let p' = parsed + length digits_of + 1 in
      let q : p' + length item + 1 ≡ p = omega (arith, e, length-append_record) in
      rw record_split (
        recv_loop-line digits_of (item ++ b'\n' ∷ rest) (length item) digits-AllDigits digits_ne_nil
          digits_short (atoi-str (length item) fits)
        ∙ recv_record-item (length digits_of + 1) p' (omega (arith, digits_short))
            (omega (arith, q, h))
        ∙ ap (λ k. recv_loop f k (records ++ item ∷ []) rest) q)

-- The sizes that an int and the packet's bound allow.
abbrev pub AllFit : List Bytes → Type 0
AllFit [] = Unit
AllFit (s ∷ resp) = (length s < 2 ^ 31) × AllFit resp

recv_loop-end :
    (f parsed : ℕ) (records : List Bytes) (rest : Bytes)
    → recv_loop (suc f) parsed records (b'\n' ∷ rest) ≡ packet records rest
unfolding recv_loop split_line
recv_loop-end f parsed records rest = refl

recv_loop-records :
    (resp : List Bytes) (f parsed : ℕ) (records : List Bytes) (rest : Bytes)
    → length resp < f
    → AllFit resp
    → parsed + length (append_records resp) ≤ max_packet_size
    → recv_loop f parsed records (append_records resp ++ b'\n' ∷ rest)
      ≡ packet (records ++ resp) rest
unfolding append_records
recv_loop-records resp zero parsed records rest l h m = elim l [ ]
recv_loop-records [] (suc f) parsed records rest l h m =
    recv_loop-end f parsed records rest ∙ ap (λ r. packet r rest) (sym (append-nil records))
recv_loop-records (s ∷ resp) (suc f) parsed records rest l h m =
    let n = length-append {0} (append_record s) (append_records resp) in
    let p = parsed + length (append_record s) in
    rw (append_assoc (append_record s) (append_records resp) (b'\n' ∷ rest)) (
      recv_loop-item f parsed records s (append_records resp ++ b'\n' ∷ rest) h.0 p refl
        (omega (arith, n, m))
      ∙ recv_loop-records resp f p (records ++ s ∷ []) rest (omega (arith, l)) h.1
          (omega (arith, n, m))
      ∙ ap (λ r. packet r rest) (append_assoc records (s ∷ []) resp))

pub recv-digits :
    (ds t : Bytes)
    → AllDigits ds
    → ds ≢ []
    → recv (ds ++ t) ≡ recv_loop (length (ds ++ t) + 1) 0 [] (ds ++ t)
unfolding recv skip_lines
recv-digits [] t d ne = absurd (ne refl)
recv-digits (c ∷ a) t d ne = ground (arith, d.0)

-- The reply starts with a digit.
recv-records :
    (s : Bytes) (resp : List Bytes) (rest : Bytes)
    → AllFit (s ∷ resp)
    → let t = append_records (s ∷ resp) ++ b'\n' ∷ rest in recv t ≡ recv_loop (length t + 1) 0 [] t
unfolding append_records
recv-records s resp rest h =
    let more = append_records resp ++ b'\n' ∷ rest in
    let e : (append_record s ++ append_records resp) ++ b'\n' ∷ rest ≡ append_record s ++ more =
      append_assoc (append_record s) (append_records resp) (b'\n' ∷ rest) in
    let e' = record_split 0 0 [] s more h.0 in
    rw (e, e')
      (recv-digits (str (pos (length s))) (b'\n' ∷ (s ++ b'\n' ∷ more))
        (digits-AllDigits 0 0 [] s more h.0) (digits_ne_nil 0 0 [] s more h.0))

length-append_records :
    (resp : List Bytes) → AllFit resp → length resp ≤ length (append_records resp)
unfolding append_records
length-append_records [] h = omega arith
length-append_records (s ∷ resp) h = omega (
  arith,
  length-append {0} (append_record s) (append_records resp),
  length-append_record 0 0 [] s [] h.0,
  length-append_records resp h.1,
)

-- What send writes for a reply of one string or more, each shorter than 2^31 bytes and all together
-- within the bound of a packet, recv reads as that reply, and leaves what follows it in the buffer.
pub recv-send :
    (s : Bytes) (resp : List Bytes) (rest : Bytes)
    → AllFit (s ∷ resp)
    → length (append_records (s ∷ resp)) ≤ max_packet_size
    → recv (send (s ∷ resp) ++ rest) ≡ packet (s ∷ resp) rest
unfolding send
recv-send s resp rest h m =
    let all = s ∷ resp in
    let t = (append_records all ++ b'\n' ∷ []) ++ rest in
    let e : t ≡ append_records all ++ b'\n' ∷ rest =
      append_assoc (append_records all) (b'\n' ∷ []) rest in
    rw e (
      recv-records s resp rest h
      ∙ recv_loop-records all (length (append_records all ++ b'\n' ∷ rest) + 1) 0 [] rest
          (omega (
            arith,
            length-append_records all h,
            length-append {0} (append_records all) (b'\n' ∷ rest),
          ))
          h (omega (arith, m)))
