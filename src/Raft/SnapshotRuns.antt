-- ===== src/Raft/SnapshotRuns.antt =====
-- Runs of snapshots, restarts and the apply loop on concrete nodes.
use distrib_kv.Prelude.{◌≡◌, refl, [], ◌∷◌, arith, nat_key}
use distrib_kv.Raft.Types.{RequestVoteRequest, InstallSnapshotRequest}
use distrib_kv.Raft.Persister.{
  MemoryPersister, memory, memory_save, memory_load, memory_save_snapshot, memory_load_snapshot,
}
use distrib_kv.Raft.Node.{Raft, log_at, persist, reset_election_timer, step_down}
use distrib_kv.Raft.Snapshot.{
  take_snapshot, persist_both, handle_install_snapshot, install_checked, install, contradicts,
  queue_snapshot, tail_after,
}
use distrib_kv.Raft.Lifecycle.{fresh, load_persisted_state, apply_pending}
use distrib_kv.Raft.Snapshot.Compaction.{Compacted, take_snapshot-Compacted}
use distrib_kv.Raft.Snapshot.Recovery.{Recovered, load_persisted_state-Recovered}
use distrib_kv.Raft.Lifecycle.Delivery.{Applied, apply_pending-Applied, apply_pending_catches_up}
use distrib_kv.Raft.Tests.{node, e1, e2, e3}
use distrib_kv.Raft.Runs.{config}

take_snapshot-Compacted_example :
    Compacted memory 1 (5 ∷ []) node (take_snapshot memory 1 (5 ∷ []) node).0
unfolding take_snapshot persist_both persist memory_save memory_save_snapshot log_at
take_snapshot-Compacted_example = take_snapshot-Compacted memory 1 (5 ∷ []) node (omega arith) refl

abbrev all_committed : Raft MemoryPersister
all_committed = record node { commit_index = 2 }

abbrev poor : RequestVoteRequest
poor = record { term = 9; candidate_id = 3; last_log_index = 0; last_log_term = 0 }

abbrev snapped : Raft MemoryPersister
snapped = (take_snapshot memory 1 (5 ∷ []) node).0

load_persisted_state-Recovered_example :
    Recovered snapped (load_persisted_state memory (fresh config snapped.persister))
unfolding take_snapshot persist_both persist memory_save memory_save_snapshot log_at memory_load
    memory_load_snapshot
load_persisted_state-Recovered_example =
    load_persisted_state-Recovered memory config snapped (record { state = refl; snapshot = refl })
      (refl, tt)

-- A follower with one entry behind the index of the snapshot.
abbrev ahead : Raft MemoryPersister
ahead = record node { server_id = 3; log = e1 ∷ e2 ∷ e3 ∷ [] }

abbrev image : InstallSnapshotRequest
image = record {
  term = 2;
  leader_id = 1;
  last_included_index = 2;
  last_included_term = 1;
  data_bytes = 5 ∷ [];
}

abbrev installed : Raft MemoryPersister
installed = (handle_install_snapshot memory image ahead).1

-- The snapshot was installed, and the last entry stays.
installed_tail : installed.log ≡ e3 ∷ []
unfolding handle_install_snapshot install_checked install contradicts queue_snapshot tail_after
    persist_both persist memory_save memory_save_snapshot log_at step_down reset_election_timer
installed_tail = refl

apply_pending-Applied_example : Applied all_committed (apply_pending 2 all_committed)
apply_pending-Applied_example = apply_pending-Applied 2 all_committed (refl, (refl, tt))

apply_pending_catches_up_example : (apply_pending 2 all_committed).1.last_applied ≡ 2
apply_pending_catches_up_example =
    apply_pending_catches_up 2 all_committed (omega arith) (omega arith) (omega arith) (omega arith)
