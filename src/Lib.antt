-- ===== src/Lib.antt =====
-- SSDB (ssdb-master): a server of data structures over leveldb. The other directories of the
-- repository, the PHP pages of html and the game's data of cfg, use it as a client. Paths below
-- are under ssdb-master.
--
-- The parts of the server and how they meet. A request arrives on a connection (src/net), a
-- handler of src/proc_*.cpp checks its parameters and calls an operation of SSDBImpl (src/ssdb).
-- An operation opens a Transaction, which takes the lock of the BinlogQueue and begins a batch,
-- reads the database, puts and deletes keys in the batch together with one log record for each
-- change, and commits the batch whole. Slaves replay the log records (src/slave.cpp,
-- src/backend_sync.cpp). What is modelled here is the store, that is the keys, the log, and the
-- operations on queues, on single values, on hashes and on sorted sets, with their scans; the
-- expiration of keys; the framing of packets on a connection; the handlers that call those
-- operations; and the replication of their changes.
--
-- Prelude (with Tests, Lists, Int) holds the names that the modules share: Boolean tests, lists
-- measured by native numbers, and 64-bit integers with their wrap-around.
-- Bytes models src/util/bytes.h and bytes.cpp: strings of bytes, Bytes::compare, Decoder
-- (Bytes/Decoder), and the words of src/util/strings.h `big_endian` (Bytes/Words).
-- Strings models src/util/strings.h: str, str_to_int, str_to_int64 and str_to_uint64
-- (Strings/Number), str_escape and str_unescape (Strings/Escape).
-- Keys models the key codecs of src/ssdb/t_kv.h, t_hash.h, t_queue.h and binlog.cpp, and the type
-- bytes of const.h (Keys/DataType). Keys/Zset models those of t_zset.h.
-- LevelDb is the interface of what the server uses of leveldb, which is not part of this code:
-- reads, atomic writes of a batch, and what their documentation promises. LevelDb/Memory meets the
-- interface; its variant `failing` has one key whose reads fail.
-- Binlog models class Binlog, class BinlogQueue and class Transaction of src/ssdb/binlog.h and
-- binlog.cpp: log records in Binlog/Record, the commands of const.h in Binlog/Command, and what
-- the open batch makes of a key in Binlog/Pending.
-- Queue models src/ssdb/t_queue.cpp: _qpush with its helpers in Queue, _qpop in Queue/Pop, and
-- qfront, qback, qget, qset, qset_by_seq and qslice in Queue/Access. Queue/Deque is the list that
-- a queue promises to be.
-- Kv models src/ssdb/t_kv.cpp, setbit and getbit in Kv/Bits. Kv/Map is the map it promises to be.
-- Hash models src/ssdb/t_hash.cpp: hget, hset, hdel, hincr and hsize. Hash/Fields is the finite
-- map that a hash promises to be.
-- Zset models src/ssdb/t_zset.cpp: zget, zset, zdel, zincr and zsize. Zset/Model says when a
-- database holds a sorted set: the key of a score is there exactly for a member that has this
-- score.
-- LevelDb/Iterators is the interface of leveldb's iterators: the entries in the order of their keys,
-- and what each call does to an iterator's place among them. LevelDb/SortedMemory meets it.
-- Iterator models src/ssdb/iterator.cpp and the iterators of ssdb_impl.cpp. Iterator/Gives
-- is about the calls of next, and Iterator/Range about the ranges of keys; Iterator/Typed and
-- Iterator/Section are about the typed iterators, which stop at a key of another kind.
-- Scan models the operations that walk iterators: scan, rscan, hscan, hrscan, hclear and the lists
-- of names, and those of t_zset.cpp by score in Scan/Members.
-- SortedSet models src/util/sorted_set.cpp, and Expiration src/ssdb/ttl.cpp.
-- SizeRecord models incr_hsize and hsize of t_hash.cpp, and incr_zsize and zsize of t_zset.cpp,
-- which are the same code for two keys.
-- Net models src/net: Link::recv and Link::send of link.cpp with Buffer::append_record of
-- util/bytes.cpp in Net/Link, and resp.cpp in Net/Response.
-- Server models handlers: src/proc_queue.cpp in Server/ProcQueue, proc_hash.cpp in
-- Server/ProcHash, proc_zset.cpp in Server/ProcZset, proc_kv.cpp with in_kv_range of serv.cpp in
-- Server/ProcKv, its requests with a time to live in Server/ProcTtl, the ones that walk iterators in
-- Server/ProcScan and Server/ProcMembers, and the
-- checks of serv.h in Server/Request. A handler gets the words of the
-- request and the response so far.
-- Binlog/Cleaner models the operations that read and clean the log: get, find_next, find_last,
-- update, del, del_range and flush.
-- Binlog/Log says which records a transaction adds to the log, and Kv/Log those of t_kv.cpp.
-- Replication models the message that backend_sync.cpp sends for a record, and proc, proc_sync and
-- proc_copy of slave.cpp.
--
-- An operation of SSDBImpl is a function from the state `Ssdb L`, the database and the log queue,
-- to its result and the state; -1 and 0 are the results of the source. A read answers `Got`: 0 is
-- missing, -1 is failed, 1 is found with the value. Integers of the source are numbers of 64 bits
-- that wrap, int64_t as ℤ; where a handler keeps a count in an int, or passes a 64-bit size for one,
-- it is cut to 32 bits. Lists of bytes stand for strings. The lock is held for the whole of a
-- transaction, so an operation is one step.
--
-- Bounds and fuel. A queue holds sequence numbers from 10001 to 2^63 - 2, and starts in the
-- middle; a run of max_calls pushes cannot reach either end. A hash has fewer than 2^63 fields,
-- which its size record can hold. `decimal` takes fuel above the number, and its round trip shows
-- that this is enough. The loop of qslice takes the number of positions as fuel. The loop of
-- Link::recv takes one more than the bytes of the buffer, and never runs out. The loop of
-- proc_qclear has its fuel as an argument; one more than the number of items is enough. A loop
-- over an iterator has fuel for one turn more than the iterator's limit, which it cannot use up.
-- hclear has its rounds as an argument; one more than the number of fields is enough, and
-- del_range one more than the numbers of its range. A length in a packet that overflows an int has
-- a result of its own, since the source is undefined there.
--
-- Not modelled: the thread of expiration, qfix and zfix, the log's cleaning thread and its merge,
-- the Redis protocol, the growth of buffers, sockets and worker threads, the choice of the records
-- that a master sends and its copy of a whole database, the cluster, and configuration. Of the
-- handlers, those that remove ranges of a sorted set, its sums, getbit, whose offset may be
-- negative, and those that cut a value are left out. log_error lines have no counterpart.
pub mod Binlog
pub mod Bytes
pub mod Expiration
pub mod Hash
pub mod Iterator
pub mod Keys
pub mod Kv
pub mod LevelDb
pub mod Net
pub mod Prelude
pub mod Queue
pub mod Replication
pub mod Scan
pub mod Server
pub mod SizeRecord
pub mod SortedSet
pub mod Strings
pub mod Zset
