-- ===== src/Raft.antt =====
-- raft/: the consensus engine.
pub mod Types
pub mod Persister
pub mod File
pub mod Node
pub mod Election
pub mod Replication
pub mod Sender
pub mod Snapshot
pub mod Lifecycle
pub mod Log
pub mod Events
pub mod Tests
pub mod Runs
pub mod SnapshotRuns
pub mod Cluster
pub mod Replicas
pub mod Consensus
