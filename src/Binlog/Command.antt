-- ===== src/Binlog/Command.antt =====
-- ssdb/const.h `BinlogCommand` and `BinlogType`.
use php.Prelude.{ℕ}

abbrev pub kset : ℕ
kset = 1

abbrev pub kdel : ℕ
kdel = 2

abbrev pub hset : ℕ
hset = 3

abbrev pub hdel : ℕ
hdel = 4

abbrev pub zset : ℕ
zset = 5

abbrev pub zdel : ℕ
zdel = 6

abbrev pub qpush_back : ℕ
qpush_back = 10

abbrev pub qpush_front : ℕ
qpush_front = 11

abbrev pub qpop_back : ℕ
qpop_back = 12

abbrev pub qpop_front : ℕ
qpop_front = 13

abbrev pub qset : ℕ
qset = 14

abbrev pub begin : ℕ
begin = 7

abbrev pub end : ℕ
end = 8
