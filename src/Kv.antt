-- ===== src/Kv.antt =====
-- kv/: the key-value state machine on top of the engine, its RPC handlers, and the client library.
pub mod Types
pub mod Dedup
pub mod Machine
pub mod Snapshot
pub mod Server
pub mod Rpc
pub mod Clerk
pub mod Tests
pub mod Runs
