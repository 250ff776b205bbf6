-- ===== src/Keys/DataType.antt =====
-- const.h `DataType`: the first byte of every key.
use php.Prelude.{ℕ}

abbrev pub synclog : ℕ
synclog = 1

abbrev pub kv : ℕ
kv = b'k'

abbrev pub hash : ℕ
hash = b'h'

abbrev pub hsize : ℕ
hsize = b'H'

abbrev pub zset : ℕ
zset = b's'

abbrev pub zscore : ℕ
zscore = b'z'

abbrev pub zsize : ℕ
zsize = b'Z'

abbrev pub queue : ℕ
queue = b'q'

abbrev pub qsize : ℕ
qsize = b'Q'
