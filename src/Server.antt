-- ===== src/Server.antt =====
-- The request handlers of ssdb-master/src: proc_queue.cpp, proc_hash.cpp,
-- proc_zset.cpp and proc_kv.cpp. A handler gets the words of the request, the command first, and the response so far,
-- and calls the operations of SSDBImpl.
pub mod Request
pub mod ProcQueue
pub mod QueueLoops
pub mod QueueModel
pub mod ProcHash
pub mod HashModel
pub mod ProcZset
pub mod ProcScan
pub mod ProcMembers
pub mod ProcTtl
pub mod ProcKv
mod Tests
