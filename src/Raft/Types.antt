-- ===== src/Raft/Types.antt =====
-- raft/types.go and the messages of proto/raft.proto. Terms and indices are non-negative int64
-- values and are kept as plain numbers; a server id that may be -1 is an option.
use distrib_kv.Prelude.{ℕ, List, Bool}

abbrev pub Bytes : Type 0
Bytes = List ℕ

pub record LogEntry : Type 0 where
  pub index : ℕ
  pub term : ℕ
  pub command : Bytes

-- The role of a node.
pub data State : Type 0 where
  follower candidate leader : State

pub record ApplyMsg : Type 0 where
  pub command_valid : Bool
  pub command : Bytes
  pub command_index : ℕ
  pub snapshot_valid : Bool
  pub snapshot_data : Bytes
  pub last_included_index : ℕ
  pub last_included_term : ℕ

pub record RequestVoteRequest : Type 0 where
  pub term : ℕ
  pub candidate_id : ℕ
  pub last_log_index : ℕ
  pub last_log_term : ℕ

pub record RequestVoteResponse : Type 0 where
  pub term : ℕ
  pub vote_granted : Bool

pub record AppendEntriesRequest : Type 0 where
  pub term : ℕ
  pub leader_id : ℕ
  pub prev_log_index : ℕ
  pub prev_log_term : ℕ
  pub entries : List LogEntry
  pub leader_commit : ℕ

pub record AppendEntriesResponse : Type 0 where
  pub term : ℕ
  pub success : Bool

pub record InstallSnapshotRequest : Type 0 where
  pub term : ℕ
  pub leader_id : ℕ
  pub last_included_index : ℕ
  pub last_included_term : ℕ
  pub data_bytes : Bytes

pub record InstallSnapshotResponse : Type 0 where
  pub term : ℕ

pub data Error : Type 0 where
  bad_config persist_failed save_snapshot_failed too_large beyond_commit missing_entry : Error
  apply_ch_full not_leader timeout dial_failed : Error

-- What a handler does: it answers, it returns an error, or it indexes a slice out of range.
pub data Outcome (A : Type 0) : Type 0 where
  reply : A → Outcome A
  fail : Error → Outcome A
  panic : Outcome A
