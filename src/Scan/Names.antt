-- ===== src/Scan/Names.antt =====
-- The lists of the names of hashes, sorted sets and queues.
use php.Prelude.{ℕ, suc, ◌≡◌, refl, ap, Option, some, List, [], ◌∷◌, arith, take, map}
use php.Bytes.{Bytes}
use php.Keys.{decode_hsize_key, decode_qsize_key}
use php.Keys.Zset.{decode_zsize_key}
use php.Keys.RoundTrip.{decode-name}
use php.Keys.DataType
use php.LevelDb.{LevelDb}
use php.LevelDb.Iterators.{Entry, Iterators, IsIterable}
use php.Binlog.{Ssdb}
use php.Bytes.Decoder.{skip, read_data}
use php.Iterator.Range.{in_range}
use php.Iterator.Range.Keep.{keep, reversed}
use php.Iterator.Range.Backward.{in_rev_range}
use php.Iterator.Section.{reading, section, Reads}
use php.Iterator.{rev_iterator}
use php.Scan.{
  name_seen, get_names, hlist, zlist, qlist, hrlist, zrlist, qrlist, rev_key_start, key_end,
}
use php.Scan.Range.{scan_range, Reads-all}
use php.Scan.Reverse.{rev_start, rev_range}

name_seen-reading :
    (type : ℕ) (decode : Bytes → Option Bytes) (e : Entry)
    → ((n : Bytes) → decode (type ∷ n) ≡ some n)
    → name_seen type decode e ≡ reading (type ∷ []) e
unfolding name_seen
name_seen-reading type decode ([], v) h = refl
name_seen-reading type decode (c ∷ k, v) h = ground (arith, h k)

decode_zsize_key-encode : (n : Bytes) → decode_zsize_key (DataType.zsize ∷ n) ≡ some n
unfolding decode_zsize_key skip read_data
decode_zsize_key-encode n = ground arith

rev_key_start_lem :
    (type : ℕ) (start : Bytes) → rev_key_start (λ n. type ∷ n) start ≡ type ∷ rev_start start
rev_key_start_lem type [] = refl
rev_key_start_lem type (c ∷ start) = refl

module _ (L : LevelDb) (I : Iterators L) (s : Ssdb L) where
  -- The names after name_s and up to name_e among the keys of the type, in order, and in the
  -- opposite order those before name_s and not before name_e.
  abbrev pub names : ℕ → Bytes → Bytes → ℕ → List Bytes
  names type name_s name_e limit =
      map (λ e. e.0)
        (take limit (keep (in_range name_s name_e) (section (type ∷ []) (I.entries s.db))))

  abbrev pub rev_names : ℕ → Bytes → Bytes → ℕ → List Bytes
  rev_names type name_s name_e limit =
      map (λ e. e.0)
        (take limit (
          reversed []
            (keep (in_rev_range (rev_start name_s) name_e) (section (type ∷ []) (I.entries s.db)))))

  module _ (ok : IsIterable L I s.db) (name_s name_e : Bytes) (limit : ℕ) where
    reads :
        (type : ℕ) (decode : Bytes → Option Bytes)
        → ((n : Bytes) → decode (type ∷ n) ≡ some n)
        → Reads (name_seen type decode) (type ∷ []) (I.entries s.db)
    reads type decode h =
        Reads-all (name_seen type decode) (type ∷ []) (I.entries s.db)
          (λ e. name_seen-reading type decode e h)

    rev_names_lem :
        (type : ℕ) (decode : Bytes → Option Bytes)
        → ((n : Bytes) → decode (type ∷ n) ≡ some n)
        → get_names L I type decode (suc limit) (
            rev_iterator L I s.db
              (rev_key_start (λ n. type ∷ n) name_s)
              (key_end (λ n. type ∷ n) name_e)
              limit)
          ≡ rev_names type name_s name_e limit
    unfolding get_names
    rev_names_lem type decode h = ap (map (λ e. e.0)) (
        rw (rev_key_start_lem type name_s) (
          rev_range L I s.db ok (name_seen type decode) type [] (reads type decode h)
            (rev_start name_s) name_e limit))

    -- On a database whose iterators meet no error, hlist, zlist and qlist list the first `limit`
    -- names after name_s and up to name_e, where it is not empty, that have a size record of their
    -- type, in order. hrlist, zrlist and qrlist list in the opposite order the first `limit` names
    -- before name_s and not before name_e; an empty name_s stands for the string of one byte 255.
    pub lists-names :
        (hlist L I s name_s name_e limit ≡ names DataType.hsize name_s name_e limit)
        × (zlist L I s name_s name_e limit ≡ names DataType.zsize name_s name_e limit)
        × (qlist L I s name_s name_e limit ≡ names DataType.qsize name_s name_e limit)
        × (hrlist L I s name_s name_e limit ≡ rev_names DataType.hsize name_s name_e limit)
        × (zrlist L I s name_s name_e limit ≡ rev_names DataType.zsize name_s name_e limit)
        × (qrlist L I s name_s name_e limit ≡ rev_names DataType.qsize name_s name_e limit)
    unfolding hlist zlist qlist hrlist zrlist qrlist get_names
    lists-names =
        let go : (type : ℕ) (decode : Bytes → Option Bytes)
            → ((n : Bytes) → decode (type ∷ n) ≡ some n)
            → _ =
          λ type decode h. ap (map (λ e. e.0)) (
            scan_range L I s.db ok (name_seen type decode) type [] (reads type decode h) name_s
              name_e limit) in
        (
          go DataType.hsize decode_hsize_key (λ n. (decode-name n).1),
          go DataType.zsize decode_zsize_key decode_zsize_key-encode,
          go DataType.qsize decode_qsize_key (λ n. (decode-name n).2),
          rev_names_lem DataType.hsize decode_hsize_key (λ n. (decode-name n).1),
          rev_names_lem DataType.zsize decode_zsize_key decode_zsize_key-encode,
          rev_names_lem DataType.qsize decode_qsize_key (λ n. (decode-name n).2),
        )
