-- ===== src/Ethdb.antt =====
-- silkoroutine/ethdb/kv: cursors and transactions over the remote KV interface, as coroutines.
pub mod TableMap
pub mod Session
pub mod RemoteCursor
pub mod RemoteTransaction
pub mod Service
pub mod Interface
pub mod Database
