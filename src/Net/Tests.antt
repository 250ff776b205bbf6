-- ===== src/Net/Tests.antt =====
-- The theorems on packets at concrete ones.
use php.Prelude.{◌≡◌, ◌≢◌, ◌++◌, [], ◌∷◌, List, arith}
use php.Bytes.{Bytes}
use php.Net.Link.{recv, send, packet, out_of_fuel}
use php.Net.Link.RoundTrip.{recv-send}
use php.Net.Link.Total.{recv_ends}

-- A reply with a value that holds a line's end and an empty line.
abbrev value : Bytes
value = b'\n' ∷ b'\n' ∷ b'3' ∷ []

abbrev reply : List Bytes
reply = (b'o' ∷ b'k' ∷ []) ∷ value ∷ [] ∷ []

abbrev next_request : Bytes
next_request = b'3' ∷ b'\n' ∷ b'g' ∷ []

recv-send_example : recv (send reply ++ next_request) ≡ packet reply next_request
unfolding php.Net.Link.append_records php.Net.Link.append_record php.Strings.Number.str
    php.Strings.Number.decimal
recv-send_example =
    recv-send (b'o' ∷ b'k' ∷ []) (value ∷ [] ∷ []) next_request
      (omega arith, (omega arith, (omega arith, tt))) (omega arith)

recv_ends_example : recv next_request ≢ out_of_fuel
recv_ends_example = recv_ends next_request
