-- ===== src/Queue/Model.antt =====
-- When a database holds a queue, and what the reads of t_queue.cpp then answer.
use php.Prelude.{
  ℕ, ◌+◌, ◌-◌, ◌^◌, ◌≤◌, ◌<◌, ◌≡◌, Option, none, some, List, [], ◌∷◌, arith, length, get_elem?,
  length,
}
use php.Prelude.Int.{pos}
use php.Bytes.{Bytes}
use php.Bytes.Words.{u64_bytes, le_word-u64_bytes, length-le_bytes}
use php.Keys.{encode_qsize_key, encode_qitem_key}
use php.LevelDb.{LevelDb, missing, found}
use php.LevelDb.Laws.{IsHealthy, get-content, reading}
use php.Binlog.{Ssdb}
use php.Queue.{word_of, qget_by_seq, qget_uint64, qsize}
use php.Queue.Const.{qfront_seq, qback_seq, qitem_min_seq, qitem_max_seq}

abbrev pub Content : Type 0
Content = Bytes → Option Bytes

-- A database with content `c` holds under the name a queue of the items xs, not empty, whose first
-- sequence number is f.
pub record Holds (c : Content) (name : Bytes) (f : ℕ) (xs : List Bytes) : Type 0 where
  pub nonempty : 0 < length xs
  pub low : qitem_min_seq < f
  pub high : f + length xs ≤ qitem_max_seq
  pub size : c (encode_qsize_key name) ≡ some (u64_bytes (length xs))
  pub front : c (encode_qitem_key name qfront_seq) ≡ some (u64_bytes f)
  pub back : c (encode_qitem_key name qback_seq) ≡ some (u64_bytes (f + length xs - 1))
  pub items : (i : ℕ) → i < length xs → c (encode_qitem_key name (f + i)) ≡ get_elem? xs i

-- It holds no queue under the name.
pub record IsVacant (c : Content) (name : Bytes) : Type 0 where
  pub no_size : c (encode_qsize_key name) ≡ none
  pub no_front : c (encode_qitem_key name qfront_seq) ≡ none
  pub no_back : c (encode_qitem_key name qback_seq) ≡ none

-- The queue of the name is the list xs, the front first.
abbrev pub Represents : Content → Bytes → List Bytes → Type 0
Represents c name [] = IsVacant c name
Represents c name (x ∷ xs) = (f : ℕ) × Holds c name f (x ∷ xs)

pub word_of-u64_bytes : (v : ℕ) → v < 2 ^ 64 → word_of (u64_bytes v) ≡ found v
word_of-u64_bytes v h = rw (length-le_bytes 8 v, le_word-u64_bytes v h)

module _ (L : LevelDb) (s : Ssdb L) (healthy : IsHealthy L s.db) (name : Bytes) where
  pub qget_by_seq-content :
      (seq : ℕ) → qget_by_seq L s name seq ≡ reading (L.content s.db (encode_qitem_key name seq))
  unfolding qget_by_seq
  qget_by_seq-content seq = get-content L healthy (encode_qitem_key name seq)

  pub qget_uint64-found :
      (seq v : ℕ)
      → v < 2 ^ 64
      → L.content s.db (encode_qitem_key name seq) ≡ some (u64_bytes v)
      → qget_uint64 L s name seq ≡ found v
  unfolding qget_uint64
  qget_uint64-found seq v h e =
      ground (arith, get-content L healthy (encode_qitem_key name seq), word_of-u64_bytes v h)

  pub qget_uint64-missing :
      (seq : ℕ)
      → L.content s.db (encode_qitem_key name seq) ≡ none
      → qget_uint64 L s name seq ≡ missing
  unfolding qget_uint64
  qget_uint64-missing seq e = ground (arith, get-content L healthy (encode_qitem_key name seq))

  pub qsize-pos :
      (n : ℕ)
      → n < 2 ^ 63
      → L.content s.db (encode_qsize_key name) ≡ some (u64_bytes n)
      → qsize L s name ≡ pos n
  unfolding qsize
  qsize-pos n h e = ground (
    arith,
    get-content L healthy (encode_qsize_key name),
    length-le_bytes 8 n,
    le_word-u64_bytes n (omega arith),
  )

  pub qsize-zero : L.content s.db (encode_qsize_key name) ≡ none → qsize L s name ≡ pos 0
  unfolding qsize
  qsize-zero e = ground (arith, get-content L healthy (encode_qsize_key name))
