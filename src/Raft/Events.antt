-- ===== src/Raft/Events.antt =====
-- One node of raft/ as a state machine: an event for each critical section of the engine. Any list
-- of events is an interleaving of the timer, the RPC handlers, the replies and the apply loop.
pub mod Progress
pub mod Same
pub mod Invariant
use distrib_kv.Prelude.{ℕ, List, [], ◌∷◌}
use distrib_kv.Raft.Types.{
  Bytes, RequestVoteRequest, RequestVoteResponse, AppendEntriesRequest, AppendEntriesResponse,
  InstallSnapshotRequest, InstallSnapshotResponse,
}
use distrib_kv.Raft.Persister.{Persister}
use distrib_kv.Raft.Node.{Raft}
use distrib_kv.Raft.Election.{become_candidate, become_leader, count_vote, handle_request_vote}
use distrib_kv.Raft.Replication.{handle_append_entries, replicate_command}
use distrib_kv.Raft.Sender.{on_append_reply}
use distrib_kv.Raft.Snapshot.{take_snapshot, handle_install_snapshot, on_install_reply}
use distrib_kv.Raft.Lifecycle.{start, stop, apply_pending}

pub data Event : Type 0 where
  elect lead begin halt : Event
  vote_reply : (term : ℕ) → RequestVoteResponse → Event
  vote_rpc : RequestVoteRequest → Event
  append_rpc : AppendEntriesRequest → Event
  install_rpc : InstallSnapshotRequest → Event
  append_reply : (peer : ℕ) → AppendEntriesRequest → AppendEntriesResponse → Event
  install_reply : (peer : ℕ) → InstallSnapshotRequest → InstallSnapshotResponse → Event
  submit : Bytes → Event
  compact : (index : ℕ) → Bytes → Event
  apply : (sends : ℕ) → Event

module _ {S : Type 0} (P : Persister S) where
  unfoldable pub step : Event → Raft S → Raft S
  step elect r = (become_candidate P r).0
  step lead r = (become_leader r).0
  step begin r = start r
  step halt r = stop r
  step (vote_reply term resp) r = (count_vote term resp r).0
  step (vote_rpc req) r = (handle_request_vote P req r).1
  step (append_rpc req) r = (handle_append_entries P req r).1
  step (install_rpc req) r = (handle_install_snapshot P req r).1
  step (append_reply peer req resp) r = (on_append_reply peer req resp r).0
  step (install_reply peer req resp) r = on_install_reply peer req resp r
  step (submit cmd) r = (replicate_command P cmd r).1
  step (compact index d) r = (take_snapshot P index d r).0
  step (apply sends) r = (apply_pending sends r).1

  unfoldable pub run : List Event → Raft S → Raft S
  run [] r = r
  run (e ∷ es) r = run es (step e r)
