-- ===== src/Replication/Replay.antt =====
-- A slave that is sent the log records of changed values comes to hold the master's values.
use php.Prelude.{
  ℕ, ◌+◌, ◌^◌, ◌<◌, ◌≡◌, refl, sym, ap, ◌∙◌, false, Option, none, some, List, [], ◌∷◌, arith,
  length, Option-cases, inl, inr,
}
use php.Bytes.{Bytes, is_empty}
use php.Keys.{encode_kv_key}
use php.Keys.RoundTrip.{decode-name}
use php.LevelDb.{LevelDb}
use php.LevelDb.Laws.{IsHealthy, reading, get-content}
use php.Binlog.{Ssdb}
use php.Binlog.Command
use php.Binlog.Record.{Binlog, binlog, repr, load-repr}
use php.Kv.{set, del}
use php.Kv.Map.{Map, remove}
use php.Kv.Refine.{set-Represents, del-Represents}
use php.Replication.{Slave, message, apply_log, apply_value, apply_key, proc_sync, proc}
use php.Replication.Changes.{
  Change, written, removed, changed, put_found, replayed, replayed-changed,
}

-- The log record of a change, of the type of a change by a client.
abbrev pub record_of : ℕ → Change → Binlog
record_of q (written k v) = binlog q 1 Command.kset (encode_kv_key k)
record_of q (removed k) = binlog q 1 Command.kdel (encode_kv_key k)

-- Keys that are written are not empty.
abbrev pub AllGiven : List Change → Type 0
AllGiven [] = Unit
AllGiven (written k v ∷ cs) = (is_empty k ≡ false) × AllGiven cs
AllGiven (removed k ∷ cs) = AllGiven cs

module _ (L : LevelDb) where
  -- What a slave does with what the master sends for a record.
  abbrev pub relay : Ssdb L → Binlog → Slave L → Slave L
  relay master log slave = elim (message L master log) [
    | none ↦ slave
    | some req ↦ proc L req slave
  ]

  -- The records of the changes behind `last`, one after the other.
  unfoldable pub relay_all : Ssdb L → ℕ → List Change → Slave L → Slave L
  relay_all master last [] slave = slave
  relay_all master last (c ∷ cs) slave =
      relay_all master (last + 1) cs (relay master (record_of (last + 1) c) slave)

  module _ (q : ℕ) (room : q < 2 ^ 64) (k : Bytes) (slave : Slave L) where
    kset-applied :
        (w : Bytes)
        → let log = record_of q (written k w) in
          (proc L (repr log ∷ w ∷ []) slave).ssdb ≡ (set L k w slave.log_type slave.ssdb).1
    unfolding proc proc_sync apply_log apply_value
    kset-applied w =
        let log = record_of q (written k w) in
        let (l, s, t, c, e) = load-repr q 1 Command.kset (encode_kv_key k) room in
        ground (arith, l, t, c, e, (decode-name k).0)

    kdel-applied :
        let log = record_of q (removed k) in
        (proc L (repr log ∷ []) slave).ssdb ≡ (del L k slave.log_type slave.ssdb).1
    unfolding proc proc_sync apply_log apply_key
    kdel-applied =
        let (l, s, t, c, e) = load-repr q 1 Command.kdel (encode_kv_key k) room in
        ground (arith, l, t, c, e, (decode-name k).0)

    module _ (master : Ssdb L) (f : Map) (healthy : IsHealthy L master.db)
        (holds : (j : Bytes) → L.content master.db (encode_kv_key j) ≡ f j) where
      message-written :
          (v : Bytes) (o : Option Bytes)
          → f k ≡ o
          → message L master (record_of q (written k v))
            ≡ elim o [ none ↦ none | some w ↦ some (repr (record_of q (written k v)) ∷ w ∷ []) ]
      unfolding message
      message-written v none p =
          let (l, s, t, c, e) = load-repr q 1 Command.kset (encode_kv_key k) room in
          let got = get-content L healthy (encode_kv_key k) ∙ ap reading (holds k ∙ p) in
          ground (arith, c, e, got)
      message-written v (some w) p =
          let (l, s, t, c, e) = load-repr q 1 Command.kset (encode_kv_key k) room in
          let got = get-content L healthy (encode_kv_key k) ∙ ap reading (holds k ∙ p) in
          ground (arith, c, e, got)

      relay-written :
          (n : Map) (v : Bytes)
          → IsHealthy L slave.ssdb.db
          → is_empty k ≡ false
          → ((j : Bytes) → L.content slave.ssdb.db (encode_kv_key j) ≡ n j)
          → (j : Bytes)
          → L.content (relay master (record_of q (written k v)) slave).ssdb.db (encode_kv_key j)
            ≡ put_found n k (f k) j
      relay-written n v able given h j = elim (Option-cases (f k)) [
        | inl p ↦ rw (relay, message-written v none p, p) (h j)
        | inr (w, p) ↦
            rw (relay, message-written v (some w) p, p, kset-applied w)
              ((rw given at (set-Represents L slave.log_type slave.ssdb able n h k w)).1 j)
      ]

      relay-removed :
          (n : Map)
          → IsHealthy L slave.ssdb.db
          → ((j : Bytes) → L.content slave.ssdb.db (encode_kv_key j) ≡ n j)
          → (j : Bytes)
          → L.content (relay master (record_of q (removed k)) slave).ssdb.db (encode_kv_key j)
            ≡ remove n k j
      unfolding message
      relay-removed n able h j =
          let (l, s, t, c, e) = load-repr q 1 Command.kdel (encode_kv_key k) room in
          let sent : message L master (record_of q (removed k))
              ≡ some (repr (record_of q (removed k)) ∷ []) =
            ground (arith, c) in
          rw (relay, sent, kdel-applied)
            ((del-Represents L slave.log_type slave.ssdb able n h k).1 j)

  module _ (healthy : (d : L.Db) → IsHealthy L d) (master : Ssdb L) (f : Map)
      (holds : (j : Bytes) → L.content master.db (encode_kv_key j) ≡ f j) where
    relay_all-replayed :
        (cs : List Change) (last : ℕ) (slave : Slave L) (n : Map)
        → AllGiven cs
        → last + length cs < 2 ^ 64
        → ((j : Bytes) → L.content slave.ssdb.db (encode_kv_key j) ≡ n j)
        → (j : Bytes)
        → L.content (relay_all master last cs slave).ssdb.db (encode_kv_key j) ≡ replayed f n cs j
    unfolding relay_all
    relay_all-replayed [] last slave n given room h j = h j
    relay_all-replayed (written k v ∷ cs) last slave n (given, others) room h j =
        relay_all-replayed cs (last + 1) (relay master (record_of (last + 1) (written k v)) slave)
          (put_found n k (f k)) others (omega arith)
          (relay-written (last + 1) (omega arith) k slave master f (healthy master.db) holds n v
            (healthy slave.ssdb.db) given h)
          j
    relay_all-replayed (removed k ∷ cs) last slave n given room h j =
        relay_all-replayed cs (last + 1) (relay master (record_of (last + 1) (removed k)) slave)
          (remove n k) given (omega arith)
          (relay-removed (last + 1) (omega arith) k slave master f (healthy master.db) holds n
            (healthy slave.ssdb.db) h)
          j

    -- In databases without I/O errors, a slave that holds the values that a master held, and is sent
    -- in their order the records of the changes that the master made since, holds the values that the
    -- master holds now, although each record is sent with the value of now and a record of a value
    -- that is gone is not sent.
    pub relay_all-Represents :
        (cs : List Change) (last : ℕ) (slave : Slave L) (m : Map)
        → AllGiven cs
        → last + length cs < 2 ^ 64
        → ((j : Bytes) → L.content slave.ssdb.db (encode_kv_key j) ≡ m j)
        → ((j : Bytes) → changed m cs j ≡ f j)
        → (j : Bytes)
        → L.content (relay_all master last cs slave).ssdb.db (encode_kv_key j)
          ≡ L.content master.db (encode_kv_key j)
    relay_all-Represents cs last slave m given room h final j =
        relay_all-replayed cs last slave m given room h j
        ∙ replayed-changed f m m cs final (λ i. inl refl) j
        ∙ sym (holds j)
