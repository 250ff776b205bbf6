-- ===== src/Queue/Const.antt =====
-- ssdb/t_queue.h: the reserved sequence numbers, and the range of the items'.
use php.Prelude.{ℕ}

abbrev pub qfront_seq : ℕ
qfront_seq = 2

abbrev pub qback_seq : ℕ
qback_seq = 3

abbrev pub qitem_min_seq : ℕ
qitem_min_seq = 10000

abbrev pub qitem_max_seq : ℕ
qitem_max_seq = 9223372036854775807

-- QITEM_MAX_SEQ / 2
abbrev pub qitem_seq_init : ℕ
qitem_seq_init = 4611686018427387903
