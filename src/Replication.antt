-- ===== src/Replication.antt =====
-- backend_sync.cpp and slave.cpp: what a master sends for a log record, and what a slave makes of it.
-- The connections, the status in the meta database, and the copy of a whole database are left out.
pub mod Changes
pub mod Replay
mod Tests
use php.Prelude.{
  ℕ, Bool, true, false, ◌||◌, Option, none, some, List, [], ◌∷◌, ltb, ◌==◌, if◌then◌else◌,
}
use php.Prelude.Int.{ℤ, pos, i32}
use php.Bytes.{Bytes}
use php.Keys.{decode_kv_key, decode_hash_key, decode_qitem_key}
use php.Keys.Zset.{decode_zset_key}
use php.LevelDb.{LevelDb, failed, missing, found}
use php.Binlog.{Ssdb, minus_one, is_minus_one}
use php.Binlog.Command
use php.Binlog.Record.{Binlog, seq, type, cmd, key, load, repr}
use php.Kv.{set, del}
use php.Hash.{hset, hdel}
use php.Zset.{zset, zdel}
use php.Queue.{qpush_front, qpush_back}
use php.Queue.Pop.{qpop_front, qpop_back}
use php.Queue.Access.{qset_by_seq}
use php.Queue.Const.{qitem_min_seq, qitem_max_seq}

-- The commands whose value is sent with the record, and those that need none.
abbrev pub has_value : ℕ → Bool
has_value c =
    c == Command.kset
    || c == Command.hset
    || c == Command.zset
    || c == Command.qset
    || c == Command.qpush_back
    || c == Command.qpush_front

abbrev pub has_none : ℕ → Bool
has_none c =
    c == Command.kdel
    || c == Command.hdel
    || c == Command.zdel
    || c == Command.qpop_back
    || c == Command.qpop_front

-- BinlogType::COPY
abbrev copy_type : ℕ
copy_type = 3

module _ (L : LevelDb) where
  -- The end of BackendSync::Client::sync: the message for a record, where one is sent. The value is
  -- the one that the database holds now.
  unfoldable pub message : Ssdb L → Binlog → Option (List Bytes)
  message s log =
      if has_value (cmd log)
      then (elim (L.get s.db (key log)) [
        | failed ↦ none
        | missing ↦ none
        | found val ↦ some (repr log ∷ val ∷ [])
      ])
      else if has_none (cmd log)
      then some (repr log ∷ [])
      else none

  -- The cases of the commands with a value, which a message of two parts carries.
  unfoldable pub apply_value : Binlog → Bytes → ℕ → Ssdb L → ℤ × Ssdb L
  apply_value log val log_type s =
      if cmd log == Command.kset
      then (elim (decode_kv_key (key log)) [ none ↦ (pos 0, s) | some k ↦ set L k val log_type s ])
      else if cmd log == Command.hset
      then (elim (decode_hash_key (key log)) [
        | none ↦ (pos 0, s)
        | some (name, k) ↦ hset L name k val log_type s
      ])
      else if cmd log == Command.zset
      then (elim (decode_zset_key (key log)) [
        | none ↦ (pos 0, s)
        | some (name, k) ↦ zset L name k val log_type s
      ])
      else (elim (decode_qitem_key (key log)) [
        | none ↦ (pos 0, s)
        | some (name, item_seq) ↦
            if ltb item_seq qitem_min_seq || ltb qitem_max_seq item_seq
            then (pos 0, s)
            else (let (ret, t) =
                  (if cmd log == Command.qset
                    then qset_by_seq L name item_seq val log_type s
                    else if cmd log == Command.qpush_back
                    then qpush_back L name val log_type s
                    else qpush_front L name val log_type s) in
                (i32 ret, t))
      ])

  -- The cases of the other commands.
  unfoldable pub apply_key : Binlog → ℕ → Ssdb L → ℤ × Ssdb L
  apply_key log log_type s =
      if cmd log == Command.kdel
      then (elim (decode_kv_key (key log)) [ none ↦ (pos 0, s) | some k ↦ del L k log_type s ])
      else if cmd log == Command.hdel
      then (elim (decode_hash_key (key log)) [
        | none ↦ (pos 0, s)
        | some (name, k) ↦ hdel L name k log_type s
      ])
      else if cmd log == Command.zdel
      then (elim (decode_zset_key (key log)) [
        | none ↦ (pos 0, s)
        | some (name, k) ↦ zdel L name k log_type s
      ])
      else (let ((ret, item), t) =
            (if cmd log == Command.qpop_back
              then qpop_back L (key log) log_type s
              else qpop_front L (key log) log_type s) in
          (ret, t))

  -- The switch of Slave::proc_sync: its result, and the database. A message without the value that
  -- the command needs, and a command that is not known, change nothing.
  unfoldable pub apply_log : Binlog → List Bytes → ℕ → Ssdb L → ℤ × Ssdb L
  apply_log log req log_type s =
      if has_value (cmd log)
      then (elim req [ _ ∷ val ∷ [] ↦ apply_value log val log_type s | _ ↦ (pos 0, s) ])
      else if has_none (cmd log)
      then apply_key log log_type s
      else (pos 0, s)

  -- The fields of Slave that these functions use.
  pub record Slave : Type 0 where
    pub ssdb : Ssdb L
    pub last_seq : ℕ
    pub last_key : Bytes
    pub log_type : ℕ

  -- Slave::proc_sync
  unfoldable pub proc_sync : Binlog → List Bytes → Slave → ℤ × Slave
  proc_sync log req slave =
      let (ret, s) = apply_log log req slave.log_type slave.ssdb in
      if is_minus_one ret then (minus_one, record slave { ssdb = s }) else (
        pos 0,
        record slave {
          ssdb = s;
          last_seq = seq log;
          last_key = if type log == copy_type then key log else slave.last_key;
        },
      )

  -- Slave::proc_copy: the end of a copy forgets the last key.
  unfoldable pub proc_copy : Binlog → List Bytes → Slave → Slave
  unfolding proc_sync
  proc_copy log req slave =
      if cmd log == Command.begin
      then slave
      else if cmd log == Command.end
      then record slave { last_key = [] }
      else (proc_sync log req slave).1

  -- Slave::proc, by the type of the record: NOOP, CTRL, COPY, SYNC and MIRROR. What proc_sync
  -- answers is not looked at.
  unfoldable pub proc : List Bytes → Slave → Slave
  unfolding proc_sync proc_copy
  proc [] slave = slave
  proc (r ∷ rest) slave = elim (load r) [
    | none ↦ slave
    | some log ↦
        if type log == 0
        then record slave { last_seq = seq log }
        else if type log == copy_type
        then proc_copy log (r ∷ rest) slave
        else if type log == 1 || type log == 2
        then (proc_sync log (r ∷ rest) slave).1
        else slave
  ]
