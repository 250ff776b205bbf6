-- ===== src/Net/Response.antt =====
-- net/resp.cpp: what a handler appends to the vector of the reply. The error messages are the
-- optional last arguments. A status is an int; the callers that pass a 64-bit size pass it to
-- reply_int, which gets its low 32 bits.
pub mod Words
use php.Prelude.{ℕ, Bool, true, false, Option, none, some, List, [], ◌∷◌, ◌++◌, ◌==◌, if◌then◌else◌}
use php.Prelude.Int.{is_zero, ℤ, pos, negsuc, i32}
use php.Bytes.{Bytes}
use php.Strings.Number.{str}
use php.Binlog.{is_minus_one}
use Words.{ok, error, not_found}
use php.Net.Response.Words

abbrev pub Response : Type 0
Response = List Bytes

-- What is pushed for an error message.
abbrev pub message : Option Bytes → Response
message none = []
message (some errmsg) = errmsg ∷ []

-- Response::reply_status
unfoldable pub reply_status : Response → ℤ → Option Bytes → Response
reply_status resp status errmsg =
    resp ++ (if is_minus_one status then error ∷ message errmsg else ok ∷ [])

-- Response::reply_bool
unfoldable pub reply_bool : Response → ℤ → Option Bytes → Response
reply_bool resp status errmsg =
    resp
    ++ (if is_minus_one status
        then error ∷ message errmsg
        else if is_zero status
        then ok ∷ Words.zero ∷ []
        else ok ∷ Words.one ∷ [])

-- Response::reply_int
unfoldable pub reply_int : Response → ℤ → ℤ → Response
reply_int resp status val =
    resp ++ (if is_minus_one (i32 status) then error ∷ [] else ok ∷ str val ∷ [])

-- Response::reply_get
unfoldable pub reply_get : Response → ℤ → Option Bytes → Option Bytes → Response
reply_get resp status val errmsg =
    resp
    ++ (if is_minus_one status
        then error ∷ message errmsg
        else if is_zero status
        then not_found ∷ message errmsg
        else ok ∷ message val)

-- Response::reply_list
unfoldable pub reply_list : Response → ℤ → List Bytes → Response
reply_list resp status list = resp ++ (if is_minus_one status then error ∷ [] else ok ∷ list)
