-- ===== src/Kv.antt =====
-- silkoroutine/bindings: the gRPC reactor, the operations that complete a handler, and the five
-- initiations that tie one to the other through an `asio::io_context`.
pub mod Reactor
pub mod World
pub mod Operations
pub mod Exec
pub mod Leaves
pub mod Awaitables
pub mod Overlap
pub mod Alone
pub mod Exchange
pub mod Unfinished
pub mod Protocol
