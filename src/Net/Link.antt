-- ===== src/Net/Link.antt =====
-- net/link.cpp: Link::recv on what the input buffer holds, and Link::send with
-- Buffer::append_record of util/bytes.cpp. The growth of the buffers is left out, and so is the
-- protocol of Redis: `redis` is where the source hands the buffer to RedisLink.
pub mod RoundTrip
pub mod Total
use php.Prelude.{
  ℕ, zero, suc, ◌+◌, ◌*◌, Bool, true, false, ◌||◌, Option, none, some, List, [], ◌∷◌, ◌++◌, length,
  take, drop, ltb, leb, ◌^◌, ◌==◌, if◌then◌else◌, not,
}
use php.Prelude.Int.{ℤ, pos, negsuc}
use php.Bytes.{Bytes}
use php.Strings.Number.{str, is_digit, atoi}

-- MAX_PACKET_SIZE
abbrev pub max_packet_size : ℕ
max_packet_size = 128 * 1024 * 1024

-- What recv answers: a packet with what is left in the buffer, the empty vector where the packet is
-- not there yet, and NULL. `overflow` is where a length overflows an int, which is undefined.
pub data Recv : Type 0 where
  packet : List Bytes → Bytes → Recv
  waiting : Recv
  bad_format : Recv
  overflow : Recv
  redis : Bytes → Recv
  out_of_fuel : Recv

-- memchr for the end of the line: what stands before it, and what behind.
unfoldable pub split_line : Bytes → Option (Bytes × Bytes)
split_line [] = none
split_line (c ∷ s) =
    let rest = split_line s in
    if c == b'\n'
    then some ([], s)
    else (elim rest [ none ↦ none | some (line, body) ↦ some (c ∷ line, body) ])

-- An empty line, or one with a carriage return, ends the packet.
abbrev pub ends_packet : Bytes → Bool
ends_packet [] = true
ends_packet (c ∷ []) = c == b'\r'
ends_packet (c ∷ d ∷ s) = false

-- What follows a record: the end of its line with its length, something else, or too little.
pub data Separator : Type 0 where
  found : ℕ → Bytes → Separator
  wrong : Separator
  partial : Separator

unfoldable pub separator : Bytes → Separator
separator [] = partial
separator (c ∷ []) = if c == b'\n' then found 1 [] else partial
separator (c ∷ d ∷ s) =
    if c == b'\n'
    then found 1 (d ∷ s)
    else if c == b'\r'
    then (if d == b'\n' then found 2 s else wrong)
    else wrong

-- The rest of the loop, from the bytes parsed so far, the records found so far and the buffer.
abbrev pub Loop : Type 0
Loop = ℕ → List Bytes → Bytes → Recv

-- After the record: its separator, and the bound of the packet.
unfoldable pub recv_rest : Loop → ℕ → List Bytes → Separator → Recv
recv_rest loop parsed records wrong = bad_format
recv_rest loop parsed records partial = waiting
recv_rest loop parsed records (found k rest) =
    let next = loop (parsed + k) records rest in
    if ltb max_packet_size (parsed + k) then bad_format else next

-- After a line of head_len bytes with the length: the record itself. The source adds the two in an
-- int.
unfoldable pub recv_record : Loop → ℕ → ℕ → List Bytes → ℤ → Bytes → Recv
unfolding recv_rest separator
recv_record loop head_len parsed records (negsuc n) body = bad_format
recv_record loop head_len parsed records (pos n) body =
    if leb (2 ^ 31) (head_len + n)
    then overflow
    else if ltb (length body) n
    then waiting
    else recv_rest loop (parsed + n) (records ++ take n body ∷ []) (separator (drop n body))

-- After a line, whose first byte (or that of its end) is c: the end of the packet, or a length.
unfoldable pub recv_line : Loop → ℕ → List Bytes → ℕ → Bytes → Bytes → Recv
unfolding recv_record
recv_line loop parsed records c line body =
    if ends_packet line
    then packet records body
    else if not (is_digit c)
    then bad_format
    else if ltb 19 (length line + 1)
    then bad_format
    else recv_record loop (length line + 1) (parsed + length line + 1) records (atoi line) body

-- The loop of recv.
unfoldable pub recv_loop : ℕ → Loop
unfolding recv_line
recv_loop zero parsed records s = out_of_fuel
recv_loop (suc f) parsed records [] = waiting
recv_loop (suc f) parsed records (c ∷ s) = elim (split_line (c ∷ s)) [
  | none ↦ waiting
  | some (line, body) ↦ recv_line (recv_loop f) parsed records c line body
]

-- The leading empty lines.
unfoldable pub skip_lines : ℕ → Bytes → ℕ × Bytes
skip_lines n [] = (n, [])
skip_lines n (c ∷ s) =
    let rest = skip_lines (n + 1) s in if c == b'\n' || c == b'\r' then rest else (n, c ∷ s)

abbrev pub recv_from : ℕ → Bytes → Recv
recv_from parsed [] = waiting
recv_from parsed (c ∷ s) =
    if c == b'*' then redis (c ∷ s) else recv_loop (length (c ∷ s) + 1) parsed [] (c ∷ s)

-- Link::recv
unfoldable pub recv : Bytes → Recv
unfolding skip_lines recv_loop
recv input = let (parsed, s) = skip_lines 0 input in recv_from parsed s

-- Buffer::append_record
unfoldable pub append_record : Bytes → Bytes
append_record s = str (pos (length s)) ++ b'\n' ∷ (s ++ b'\n' ∷ [])

unfoldable pub append_records : List Bytes → Bytes
append_records [] = []
append_records (s ∷ resp) = append_record s ++ append_records resp

-- Link::send: what is appended to the output buffer.
unfoldable pub send : List Bytes → Bytes
unfolding append_records
send [] = []
send (s ∷ resp) = append_records (s ∷ resp) ++ b'\n' ∷ []
