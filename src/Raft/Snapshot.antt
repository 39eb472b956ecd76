-- ===== src/Raft/Snapshot.antt =====
-- raft/snapshot.go and the `InstallSnapshot` handler of raft/replication.go.
pub mod Compaction
pub mod Recovery
pub mod Install
use distrib_kv.Prelude.{
  nat_key, ℕ, ◌-◌, ◌*◌, List, [], ◌∷◌, ◌++◌, Option, none, some, Bool, true, false, ltb, leb, ◌==◌,
  ◌&&◌, ◌||◌, not, if◌then◌else◌, length, drop, lookup, insert, max,
}
use distrib_kv.Raft.Types.{
  Bytes, LogEntry, ApplyMsg, InstallSnapshotRequest, InstallSnapshotResponse, Error, persist_failed,
  save_snapshot_failed, too_large, beyond_commit, missing_entry, apply_ch_full, Outcome, reply,
  fail,
}
use distrib_kv.Raft.Persister.{Persister}
use distrib_kv.Raft.Node.{Raft, apply_ch_cap, log_at, reset_election_timer, persist, step_down}
use distrib_kv.Raft.Replication.{update_commit_index}
use distrib_kv.Raft.Sender.{is_stale, ack_peer}

abbrev pub max_snapshot_bytes : ℕ
max_snapshot_bytes = 4 * 1024 * 1024

abbrev pub snapshot_msg : Bytes → ℕ → ℕ → ApplyMsg
snapshot_msg d i t = record {
  command_valid = false;
  command = [];
  command_index = 0;
  snapshot_valid = true;
  snapshot_data = d;
  last_included_index = i;
  last_included_term = t;
}

-- The entries with an index above `idx`.
unfoldable pub tail_after : ℕ → List LogEntry → List LogEntry
tail_after idx [] = []
tail_after idx (e ∷ es) = let rest = tail_after idx es in if ltb idx e.index then e ∷ rest else rest

module _ {S : Type 0} where
  -- Both files, the raft state first; a failed second write leaves the first one done.
  unfoldable pub persist_both : Persister S → Raft S → Raft S × Option Error
  persist_both P r = elim (persist P r) [
    | none ↦ (r, some persist_failed)
    | some r1 ↦ elim (P.save_snapshot r1.snapshot r1.snapshot_index r1.snapshot_term r1.persister) [
      | none ↦ (r1, some save_snapshot_failed)
      | some s ↦ (record r1 { persister = s }, none)
    ]
  ]

  unfoldable pub fold_log : ℕ → ℕ → Bytes → List LogEntry → Raft S → Raft S
  fold_log index term d tail r = record r {
    log = tail;
    log_base = index;
    snapshot = d;
    snapshot_index = index;
    snapshot_term = term;
  }

  -- `Snapshot`: none is success.
  unfoldable pub take_snapshot : Persister S → ℕ → Bytes → Raft S → Raft S × Option Error
  unfolding fold_log
  take_snapshot P index d r =
      if ltb max_snapshot_bytes (length d)
      then (r, some too_large)
      else if ltb r.commit_index index
      then (r, some beyond_commit)
      else if leb index r.log_base
      then (r, none)
      else elim (log_at r.log_base r.log index) [
        | none ↦ (r, some missing_entry)
        | some e ↦
            if e.index == index
            then persist_both P (fold_log index e.term d (drop (index - r.log_base) r.log) r)
            else (r, some missing_entry)
      ]

  -- The log covers the index with an entry of another term.
  unfoldable pub contradicts : InstallSnapshotRequest → Raft S → Bool
  contradicts req r = elim (log_at r.log_base r.log req.last_included_index) [
    | none ↦ false
    | some e ↦ e.index == req.last_included_index && not (e.term == req.last_included_term)
  ]

  unfoldable pub install : InstallSnapshotRequest → Raft S → Raft S
  unfolding fold_log
  install req r =
      let idx = req.last_included_index in
      let r1 = fold_log idx req.last_included_term req.data_bytes (tail_after idx r.log) r in
      record r1 { commit_index = max r.commit_index idx; last_applied = idx }

  unfoldable pub queue_snapshot :
      InstallSnapshotRequest → Raft S → Outcome InstallSnapshotResponse × Raft S
  queue_snapshot req r =
      if ltb (length r.apply_ch) apply_ch_cap
      then (
        reply (record { term = r.current_term }),
        record r {
          apply_ch =
              r.apply_ch
              ++ snapshot_msg req.data_bytes req.last_included_index req.last_included_term ∷ [];
        },
      )
      else (fail apply_ch_full, r)

  unfoldable pub install_checked :
      Persister S → InstallSnapshotRequest → Raft S → Outcome InstallSnapshotResponse × Raft S
  install_checked P req r =
      if leb req.last_included_index r.commit_index || contradicts req r
      then (reply (record { term = r.current_term }), r)
      else let saved = persist_both P (install req r) in
        elim saved.1 [ some e ↦ (fail e, saved.0) | none ↦ queue_snapshot req saved.0 ]

  -- `InstallSnapshot`.
  unfoldable pub handle_install_snapshot :
      Persister S → InstallSnapshotRequest → Raft S → Outcome InstallSnapshotResponse × Raft S
  handle_install_snapshot P req r =
      if ltb max_snapshot_bytes (length req.data_bytes)
      then (fail too_large, r)
      else if ltb req.term r.current_term
      then (reply (record { term = r.current_term }), r)
      else let r1 = if ltb r.current_term req.term then step_down req.term r else r in
        install_checked P req (record (reset_election_timer r1) { leader_id = some req.leader_id })

  -- `sendInstallSnapshot` before the call: the request, unless there is nothing to send.
  unfoldable pub snapshot_request : ℕ → ℕ → Raft S → Option InstallSnapshotRequest
  snapshot_request peer term r = if r.shutdown then none else elim (lookup peer r.peers) [
    | none ↦ none
    | some p ↦ elim r.snapshot [
      | [] ↦ none
      | b ∷ bs ↦ some (record {
        term = term;
        leader_id = r.server_id;
        last_included_index = r.snapshot_index;
        last_included_term = r.snapshot_term;
        data_bytes = r.snapshot;
      })
    ]
  ]

  -- `sendInstallSnapshot` after the call.
  unfoldable pub on_install_reply :
      ℕ → InstallSnapshotRequest → InstallSnapshotResponse → Raft S → Raft S
  on_install_reply peer req resp r = elim (lookup peer r.peers) [
    | none ↦ r
    | some p ↦
        if is_stale req.term r
        then r
        else if ltb r.current_term resp.term
        then step_down resp.term r
        else update_commit_index
            (record r { peers = insert peer (ack_peer req.last_included_index p) r.peers })
  ]
