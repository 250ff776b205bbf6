-- ===== src/Scan/MemberTests.antt =====
-- The theorem on zscan at a sorted set with one member, on a database in memory.
use php.Prelude.{
  ◌≡◌, refl, sym, ap, ◌∙◌, true, false, ◌&&◌, not, none, some, List, [], ◌∷◌, arith, take, map,
  if◌then◌else◌, Bool-cases, inl, inr, ◌<◌, length, drop,
}
use php.Prelude.Int.{ℤ, pos, InInt64}
use php.Bytes.{Bytes, eqb}
use php.Bytes.Compare.{eqb_iff}
use php.Bytes.Words.{u64_bytes}
use php.Strings.Number.{str, str_to_int64}
use php.Keys.DataType
use php.Keys.Distinct.{eqb_head}
use php.Keys.Zset.{encode_zsize_key, encode_zset_key, zscore_key}
use php.Keys.Zset.Laws.{eqb_ℤ, eqb-zscore_key, eqb-zset_key}
use php.LevelDb.{Update, put}
use php.LevelDb.Memory.{memory, memory-IsHealthy, content}
use php.LevelDb.SortedMemory.{sorted_memory, sorted_memory-IsIterable}
use php.Binlog.{Ssdb}
use php.Hash.Fields
use php.Hash.Fields.{Fields, AreDistinct}
use php.Zset.Model.{Holds, score_entry, eqb-str}
use php.Iterator.{z_seen, typed_all}
use php.Scan.Members.{zscan}
use php.Scan.ScoreKeys.{HasScoreKeys, Ascends, has, is_some, shown, precedes}
use php.Scan.ByScore.{ranks}
use php.Scan.FromScore.{first_score, last_score, zscan-members}

abbrev a : Bytes
a = b'a' ∷ []

abbrev b : Bytes
b = b'b' ∷ []

abbrev two : Bytes
two = b'2' ∷ []

abbrev seven : Bytes
seven = b'7' ∷ []

abbrev db : List Update
db =
    put (encode_zset_key a b) seven
    ∷ put (zscore_key a b (pos 7)) []
    ∷ put (encode_zsize_key a) (u64_bytes 1)
    ∷ []

abbrev scored : Ssdb memory
scored = record {
  db = db;
  logs = record {
    min_seq = 0;
    last_seq = 0;
    tran_seq = 0;
    capacity = 20000000;
    enabled = true;
    batch = [];
  };
}

seven_in : InInt64 (pos 7)
seven_in = (omega arith, omega arith)

-- The entry of the member's key, and of its score.
member_at :
    (k : Bytes)
    → length k < 256
    → content db (encode_zset_key a k) ≡ (if eqb b k then some seven else none)
member_at k p =
    let size : eqb (encode_zsize_key a) (encode_zset_key a k) ≡ false =
      eqb_head _ _ _ _ (omega arith) in
    let score : eqb (zscore_key a b (pos 7)) (encode_zset_key a k) ≡ false =
      eqb_head _ _ _ _ (omega arith) in
    rw (size, score, eqb-zset_key a b k (omega arith) p) refl

score_at :
    (j : Bytes)
    → content db (DataType.zscore ∷ j)
      ≡ (if eqb (zscore_key a b (pos 7)) (DataType.zscore ∷ j) then some [] else none)
score_at j =
    let size : eqb (encode_zsize_key a) (DataType.zscore ∷ j) ≡ false =
      eqb_head _ _ _ _ (omega arith) in
    let member : eqb (encode_zset_key a b) (DataType.zscore ∷ j) ≡ false =
      eqb_head _ _ _ _ (omega arith) in
    rw (size, member) refl

seven-str : seven ≡ str (pos 7)
unfolding str php.Strings.Number.decimal
seven-str = refl

seven_at :
    (k : Bytes) (z : ℤ)
    → InInt64 z
    → (if eqb b k && eqb_ℤ (pos 7) z then some [] else none)
      ≡ score_entry (if eqb b k then some seven else none) z
seven_at k z p = elim (Bool-cases (eqb b k)) [
  | inl y ↦
      let e : eqb seven (str z) ≡ eqb_ℤ (pos 7) z =
        ap (λ s. eqb s (str z)) seven-str ∙ eqb-str (pos 7) z seven_in p in
      rw (y, e) refl
  | inr y ↦ rw y refl
]

seven_only :
    (k w : Bytes)
    → (if eqb b k then some seven else none) ≡ some w
    → (z : ℤ) × InInt64 z × (w ≡ str z)
seven_only k w e = elim (Bool-cases (eqb b k)) [
  | inl y ↦ let same : w ≡ seven = cc (rw y at e) in (pos 7, seven_in, same ∙ seven-str)
  | inr y ↦ cc (rw y at e)
]

db-Holds : Holds (content db) a ((b, seven) ∷ [])
unfolding AreDistinct Fields.lookup
db-Holds =
    let own : eqb (encode_zsize_key a) (encode_zsize_key a) ≡ true =
      (eqb_iff (encode_zsize_key a) (encode_zsize_key a)).1 refl in
    record {
      distinct = (refl, tt);
      bounded = omega arith;
      members = λ k p. member_at k p;
      scores = λ k z p.
          score_at (drop 1 (zscore_key a k z))
          ∙ ap (λ c. if c then some [] else none) (eqb-zscore_key a b k (pos 7) z seven_in p)
          ∙ seven_at k z p;
      numbers = λ k w e. seven_only k w e;
      size = rw own refl;
    }

db-HasScoreKeys : HasScoreKeys (content db)
db-HasScoreKeys j v h = elim (Bool-cases (eqb (zscore_key a b (pos 7)) (DataType.zscore ∷ j))) [
  | inl y ↦ (
    a,
    b,
    pos 7,
    sym ((eqb_iff (zscore_key a b (pos 7)) (DataType.zscore ∷ j)).0 y),
    omega arith,
    seven_in,
  )
  | inr y ↦
      let gone : content db (DataType.zscore ∷ j) ≡ none = score_at j ∙ rw y refl in cc (gone, h)
]

-- The members after the one named a at the score 2.
zscan-members_example :
    let first = first_score ((b, seven) ∷ []) a two in
    let l = ranks memory sorted_memory a db (a, first) (255 ∷ [], last_score []) in
    (typed_all z_seen memory sorted_memory 6 (zscan memory sorted_memory scored a a two [] 5)
      ≡ map shown (take 5 l))
    × Ascends l
    × (has l b (pos 7) ≡ (
        is_some (score_entry (Fields.lookup ((b, seven) ∷ []) b) (pos 7))
        && (precedes (a, first) (b, pos 7) && not (precedes (255 ∷ [], last_score []) (b, pos 7)))))
zscan-members_example =
    zscan-members memory sorted_memory scored a ((b, seven) ∷ []) a two [] 5 b (pos 7)
      (sorted_memory-IsIterable db) (memory-IsHealthy db) (omega arith) (omega arith)
      db-HasScoreKeys db-Holds seven_in
