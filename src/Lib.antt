-- ===== src/Lib.antt =====
-- distribKV: a replicated key-value store on a Raft engine.
--
-- The program has two layers, and the code that puts them together. raft/ is the consensus engine of one node: elections, log replication,
-- snapshots, recovery, and an apply loop that hands committed entries to the layer above over a
-- channel. kv/ is that layer: a map that executes the committed commands, a cache of results for
-- repeated commands, the hand-over of each result to the RPC handler that waits for its log index, and
-- images of map and cache that the engine keeps as snapshots. A handler submits a command to the
-- engine (ReplicateCommand); the apply loop of kv/ receives it back as an ApplyMsg, and asks the
-- engine to compact its log (Snapshot) when enough commands have been applied. config/ reads the file
-- that describes the cluster, server/ builds a node from it (a persister, an engine, a state machine and
-- a gRPC server) and shuts it down, and cmd/ has the programs: the server, its health check, a smoke test.
--
-- Files, and the code each one models:
--   Prelude            numbers, lists, Boolean tests, and Go's maps as lists of entries
--   Config             config/config.go: Load, validate, NodeByID, PeersOf
--   Config/Paths       filepath.Join, filepath.Dir and strconv.Itoa as config/ and raft/persister.go use them
--   Raft/Types         raft/types.go, the messages of proto/raft.proto, errors and outcomes
--   Raft/Persister     raft/persister.go: Persister as operations with laws, MemoryPersister
--   Raft/File          raft/persister.go: FilePersister over a disk
--   Raft/File/Interface  FilePersister as a Persister, on a disk whose writes succeed
--   Raft/Node          raft/raft.go: the Raft struct and its helpers
--   Raft/Election      raft/election.go: becomeCandidate, sendRequestVote, RequestVote, becomeLeader
--   Raft/Replication   raft/replication.go: AppendEntries, updateCommitIndex, ReplicateCommand
--   Raft/Sender        raft/replication.go: sendAppendEntries
--   Raft/Snapshot      raft/snapshot.go, and InstallSnapshot of raft/replication.go
--   Raft/Lifecycle     raft/raft.go: NewRaft, loadPersistedState, Start, Shutdown, the apply loop
--   Raft/Events        the node as a state machine, one event for each critical section
--   Raft/Cluster       raft/election.go: the elections of several nodes, with the calls between them
--   Raft/Replicas      raft/election.go, raft/replication.go: the same nodes with the AppendEntries
--                      requests that they send
--   Raft/Consensus     raft/election.go, raft/replication.go: the same with the replies, up to the
--                      commit
--   Raft/Log           facts about a log that is read by absolute index
--   Kv/Types           kv/types.go, and what is assumed of encoding/json
--   Kv/Dedup           kv/apply.go: the duplicate cache
--   Kv/Machine         kv/apply.go: applyCommandLocked, and the map that it implements
--   Kv/Snapshot        kv/snapshot.go
--   Kv/Server          kv/apply.go and kv/server.go: processApplyMsg, notifyWaiter, submitOperation
--                      in its sections, Kill
--   Kv/Rpc             kv/server.go: Get, Put, Append and their answers
--   Kv/Clerk           kv/clerk.go: the client's retry loops
--   Server             server/run.go: Start, StartFromConfig, Shutdown
--   Server/Logger      server/logger.go: which level and format the flags choose
--   Commands           cmd/kvserver/main.go, cmd/smoke/main.go, health/service.go
-- The modules below a component hold its proofs; those named Tests or Runs, and Raft/SnapshotRuns, run
-- the definitions on concrete states.
--
-- How the code is read. A section that holds the lock is one function from state to state, and what it
-- starts once the lock is free is returned as a list; sections of one Go function are separate where
-- another event may come between them (the vote count and becomeLeader, the request and its reply, the
-- registration of a handler and its wait). Any list of events is then an interleaving. Where the lock
-- is dropped only to log or to re-arm the timer, the section is kept whole; so is the apply loop
-- between two sends. Terms, indices and counters are non-negative int64 values and stay plain numbers,
-- far from overflow; the id -1 is none. A difference that would be negative is tested before it is
-- used, as in the code. Out of range in a slice is none, or the panic that it is in Go. A Go map is a
-- list of entries in the order of one iteration; where the code depends on that order, the order is an
-- argument. The time is an argument, in nanoseconds. Logging is left out.
--
-- Parameters. A persister is any store with four operations that satisfy four laws: a successful write
-- is what is read back, and the two files do not touch each other. encoding/json is a codec that
-- decodes what it encoded, and so is base64. What yaml.Unmarshal makes of the bytes of a file is an
-- argument, as is time.ParseDuration. How a file write ends is an argument. Dialling, RPC replies,
-- whether a port can be bound, and signals are events of the environment.
--
-- A cluster has the nodes 0 to n - 1. A RequestVote call of one node to one peer in one term is idle,
-- asked, answered, counted, or lost; its request is read under the lock when it is sent, its answer may
-- come at any later time, and the step from the count to leadership is separate from the count. A step
-- to leadership is taken only while the node is in the term of its count: the code does not test that.
-- AppendEntries requests are kept from when they were built, and any of them may be delivered at any
-- time, to any node but its sender; what a reply says is left open in Raft/Replicas, since the logs do
-- not depend on it. In Raft/Consensus a reply is one that a node gave, and it may come at any later
-- time, again and again, or never.
-- Nodes of a cluster do not restart, because RequestVote writes the state before it sets the vote.
--
-- Bounds. `collect` and `scan_commit` count the rounds that the loop's test allows, `evict` has a
-- round for each entry, and each round of the code removes one (Kv/Dedup/Bound). `apply_pending`
-- takes the number of messages that the channel accepts before the node is cancelled.
--
-- The retry loops of kv/clerk.go have the fuel of the code, 1000 attempts.
--
-- Not modelled: the options of the gRPC server (server/grpc.go), the parsing of flags, the log output,
-- the connections that are kept open, and the code that protoc generates. These are calls of libraries.
pub mod Prelude
pub mod Config
pub mod Raft
pub mod Kv
pub mod Server
pub mod Commands
