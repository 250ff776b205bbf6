-- ===== src/Server/Request.antt =====
-- serv.h: what the handlers share. A request is the vector of its words.
use php.Prelude.{
  ℕ, true, false, List, [], ◌∷◌, ◌++◌, length, ltb, get_or, ◌≡◌, arith, if◌then◌else◌,
}
use php.Prelude.Int.{ℤ, pos}
use php.Bytes.{Bytes}
use php.LevelDb.{LevelDb, Got, failed, missing, found}
use php.Binlog.{Ssdb}
use php.Net.Response.{Response}
use php.Net.Response.Words.{client_error, wrong_arguments}

abbrev pub Request : Type 0
Request = List Bytes

-- req[i], which the handlers only read below req.size().
abbrev pub param : Request → ℕ → Bytes
param req i = get_or req i []

-- BinlogType::SYNC, the log type of the operations where none is given.
abbrev pub sync : ℕ
sync = 1

-- The output of a read, which is empty where nothing is found.
abbrev pub value_of : Got Bytes → Bytes
value_of missing = []
value_of failed = []
value_of (found v) = v

-- CHECK_NUM_PARAMS: the reply where the request is too short.
abbrev pub wrong_number : Response → Response
wrong_number resp = resp ++ client_error ∷ wrong_arguments ∷ []

-- A handler's result, the response, and the database afterwards.
abbrev pub Handled : LevelDb → Type 0
Handled L = (ℤ × Response) × Ssdb L

-- CHECK_NUM_PARAMS(n), then the rest of the handler.
abbrev pub check_num_params :
    {L : LevelDb} → ℕ → Request → Response → Ssdb L → Handled L → Handled L
check_num_params n req resp s rest =
    if ltb (length req) n then ((pos 0, wrong_number resp), s) else rest

-- The tests of the number of words, for a request that is long enough.
module _ (cmd a : Bytes) where
  pub not_short_2 : (rest : Request) → ltb (length (cmd ∷ a ∷ rest)) 2 ≡ false
  not_short_2 rest = ground arith

  pub not_short_3 : (b : Bytes) (rest : Request) → ltb (length (cmd ∷ a ∷ b ∷ rest)) 3 ≡ false
  not_short_3 b rest = ground arith

  pub longer_2 : (b : Bytes) (rest : Request) → ltb 2 (length (cmd ∷ a ∷ b ∷ rest)) ≡ true
  longer_2 b rest = ground arith
