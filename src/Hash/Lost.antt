-- ===== src/Hash/Lost.antt =====
-- incr_hsize in t_hash.cpp does not test what hsize returns.
use php.Bytes.{Bytes}
use php.LevelDb.{LevelDb}
