-- ===== src/Net/Response/Words.antt =====
-- The words of the replies.
use php.Prelude.{[], ◌∷◌}
use php.Bytes.{Bytes}

abbrev pub ok : Bytes
ok = b'o' ∷ b'k' ∷ []

abbrev pub error : Bytes
error = b'e' ∷ b'r' ∷ b'r' ∷ b'o' ∷ b'r' ∷ []

abbrev pub not_found : Bytes
not_found = b'n' ∷ b'o' ∷ b't' ∷ b'_' ∷ b'f' ∷ b'o' ∷ b'u' ∷ b'n' ∷ b'd' ∷ []

abbrev pub client_error : Bytes
client_error =
    b'c' ∷ b'l' ∷ b'i' ∷ b'e' ∷ b'n' ∷ b't' ∷ b'_' ∷ b'e' ∷ b'r' ∷ b'r' ∷ b'o' ∷ b'r' ∷ []

abbrev pub out_of_range : Bytes
out_of_range =
    b'o' ∷ b'u' ∷ b't' ∷ b'_' ∷ b'o' ∷ b'f' ∷ b'_' ∷ b'r' ∷ b'a' ∷ b'n' ∷ b'g' ∷ b'e' ∷ []

abbrev pub wrong_arguments : Bytes
wrong_arguments =
    b'w' ∷ b'r' ∷ b'o' ∷ b'n' ∷ b'g' ∷ b' ' ∷ b'n' ∷ b'u' ∷ b'm' ∷ b'b' ∷ b'e' ∷ b'r' ∷ b' ' ∷ b'o'
    ∷ b'f' ∷ b' ' ∷ b'a' ∷ b'r' ∷ b'g' ∷ b'u' ∷ b'm' ∷ b'e' ∷ b'n' ∷ b't' ∷ b's' ∷ []

abbrev pub index_error : Bytes
index_error =
    b'i' ∷ b'n' ∷ b'd' ∷ b'e' ∷ b'x' ∷ b' ' ∷ b'o' ∷ b'u' ∷ b't' ∷ b' ' ∷ b'o' ∷ b'f' ∷ b' ' ∷ b'r'
    ∷ b'a' ∷ b'n' ∷ b'g' ∷ b'e' ∷ []

-- "0" and "1"
abbrev pub zero : Bytes
zero = b'0' ∷ []

abbrev pub one : Bytes
one = b'1' ∷ []

abbrev pub bit_error : Bytes
bit_error =
    b'b' ∷ b'i' ∷ b't' ∷ b' ' ∷ b'i' ∷ b's' ∷ b' ' ∷ b'n' ∷ b'o' ∷ b't' ∷ b' ' ∷ b'a' ∷ b'n' ∷ b' '
    ∷ b'i' ∷ b'n' ∷ b't' ∷ b'e' ∷ b'g' ∷ b'e' ∷ b'r' ∷ b' ' ∷ b'o' ∷ b'r' ∷ b' ' ∷ b'o' ∷ b'u'
    ∷ b't' ∷ b' ' ∷ b'o' ∷ b'f' ∷ b' ' ∷ b'r' ∷ b'a' ∷ b'n' ∷ b'g' ∷ b'e' ∷ []

-- With the greatest offset that setbit takes, MAX_PACKET_SIZE * 8.
abbrev pub offset_error : Bytes
offset_error =
    b'o' ∷ b'f' ∷ b'f' ∷ b's' ∷ b'e' ∷ b't' ∷ b' ' ∷ b'i' ∷ b's' ∷ b' ' ∷ b'o' ∷ b'u' ∷ b't' ∷ b' '
    ∷ b'o' ∷ b'f' ∷ b' ' ∷ b'r' ∷ b'a' ∷ b'n' ∷ b'g' ∷ b'e' ∷ b' ' ∷ b'[' ∷ b'0' ∷ b',' ∷ b' '
    ∷ b'1' ∷ b'0' ∷ b'7' ∷ b'3' ∷ b'7' ∷ b'4' ∷ b'1' ∷ b'8' ∷ b'2' ∷ b'4' ∷ b']' ∷ []

abbrev pub integer_error : Bytes
integer_error =
    b'v' ∷ b'a' ∷ b'l' ∷ b'u' ∷ b'e' ∷ b' ' ∷ b'i' ∷ b's' ∷ b' ' ∷ b'n' ∷ b'o' ∷ b't' ∷ b' ' ∷ b'a'
    ∷ b'n' ∷ b' ' ∷ b'i' ∷ b'n' ∷ b't' ∷ b'e' ∷ b'g' ∷ b'e' ∷ b'r' ∷ b' ' ∷ b'o' ∷ b'r' ∷ b' '
    ∷ b'o' ∷ b'u' ∷ b't' ∷ b' ' ∷ b'o' ∷ b'f' ∷ b' ' ∷ b'r' ∷ b'a' ∷ b'n' ∷ b'g' ∷ b'e' ∷ []
