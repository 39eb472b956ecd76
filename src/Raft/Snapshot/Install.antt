-- ===== src/Raft/Snapshot/Install.antt =====
-- A snapshot from the leader (raft/snapshot.go, InstallSnapshot): what a follower's answer stands for.
use distrib_kv.Prelude.{ℕ, ◌≤◌, ◌<◌, ◌≡◌, ◌≢◌, ◌⊎◌, [], ◌∷◌, ◌++◌, some, ltb, if◌then◌else◌}
use distrib_kv.Raft.Types.{LogEntry, InstallSnapshotRequest}
use distrib_kv.Raft.Persister.{Persister}
use distrib_kv.Raft.Node.{Raft, log_at, reset_election_timer, step_down}
use distrib_kv.Raft.Log.{Contiguous}
use distrib_kv.Raft.Snapshot.{snapshot_msg}
use distrib_kv.Raft.Snapshot.Compaction.{OnDisk}

module _ {S : Type 0} where
  -- The log has an entry at the snapshot's index, and it is of another term.
  abbrev pub Diverges : InstallSnapshotRequest → Raft S → Type 0
  Diverges req r =
      (e : LogEntry) × (log_at r.log_base r.log req.last_included_index ≡ some e)
      × (e.term ≢ req.last_included_term)

  -- Why a snapshot of the current term is discarded.
  abbrev pub Needless : InstallSnapshotRequest → Raft S → Type 0
  Needless req r = (req.last_included_index ≤ r.commit_index) ⊎ Diverges req r

  -- The snapshot has taken the place of the log up to its index.
  pub record Installed (P : Persister S) (req : InstallSnapshotRequest) (r r' : Raft S)
      : Type 0 where
    pub new : r.commit_index < req.last_included_index
    pub agrees : ¬ Diverges req r
    pub base : r'.log_base ≡ req.last_included_index
    pub contiguous : Contiguous req.last_included_index r'.log
    pub later :
        (j : ℕ)
        → req.last_included_index < j
        → log_at r'.log_base r'.log j ≡ log_at r.log_base r.log j
    pub snapshot : r'.snapshot ≡ req.data_bytes
    pub at : r'.snapshot_index ≡ req.last_included_index
    pub of_term : r'.snapshot_term ≡ req.last_included_term
    pub commit : r'.commit_index ≡ req.last_included_index
    pub applied : r'.last_applied ≡ req.last_included_index
    pub queue :
        r'.apply_ch
        ≡ r.apply_ch
          ++ snapshot_msg req.data_bytes req.last_included_index req.last_included_term ∷ []
    pub disk : OnDisk P r'

  -- The node has only heard from its leader.
  pub record Unmoved (r r' : Raft S) : Type 0 where
    pub log : r'.log ≡ r.log
    pub base : r'.log_base ≡ r.log_base
    pub snapshot : r'.snapshot ≡ r.snapshot
    pub at : r'.snapshot_index ≡ r.snapshot_index
    pub of_term : r'.snapshot_term ≡ r.snapshot_term
    pub commit : r'.commit_index ≡ r.commit_index
    pub applied : r'.last_applied ≡ r.last_applied
    pub queue : r'.apply_ch ≡ r.apply_ch
    pub store : r'.persister ≡ r.persister

  -- The node that installs: the request's term taken, its log still untouched.
  abbrev installing : InstallSnapshotRequest → Raft S → Raft S
  installing req r =
      record (reset_election_timer
        (if ltb r.current_term req.term then step_down req.term r else r)) {
          leader_id = some req.leader_id;
        }
