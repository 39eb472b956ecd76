-- ===== src/Raft/Snapshot/Recovery.antt =====
-- A restart (raft/raft.go, loadPersistedState): what the node finds in both files.
use distrib_kv.Prelude.{
  ◌+◌, ◌≡◌, refl, ap, inl, inr, List, [], ◌∷◌, none, true, ltb, Option-cases, arith, length,
  if◌then◌else◌, get_last?,
}
use distrib_kv.Raft.Types.{LogEntry}
use distrib_kv.Raft.Persister.{Persister}
use distrib_kv.Raft.Node.{Raft}
use distrib_kv.Raft.Snapshot.{snapshot_msg}
use distrib_kv.Raft.Lifecycle.{
  Config, fresh, load_persisted_state, load_snapshot_state, floor_commit, restore_snapshot,
}
use distrib_kv.Raft.Log.{Contiguous, index-get_last?}
use distrib_kv.Raft.Snapshot.Compaction.{OnDisk}

module _ {S : Type 0} where
  -- A node restarted on both files: everything past the snapshot counts as committed, nothing past
  -- it as applied, and the state machine is sent the snapshot first.
  pub record Recovered (r n : Raft S) : Type 0 where
    pub term : n.current_term ≡ r.current_term
    pub vote : n.voted_for ≡ r.voted_for
    pub log : n.log ≡ r.log
    pub base : n.log_base ≡ r.snapshot_index
    pub snapshot : n.snapshot ≡ r.snapshot
    pub applied : n.last_applied ≡ r.snapshot_index
    pub commit : n.commit_index ≡ r.snapshot_index + length r.log
    pub queue : n.apply_ch ≡ snapshot_msg r.snapshot r.snapshot_index r.snapshot_term ∷ []

  floor_commit_last :
      (r : Raft S)
      → Contiguous r.log_base r.log
      → r.commit_index ≡ r.log_base
      → (floor_commit true r).commit_index ≡ r.log_base + length r.log
  unfolding floor_commit
  floor_commit_last r c h = elim (Option-cases (get_last? r.log)) [
    | inl e ↦ ground (arith, no_last r.log e)
    | inr (x, e) ↦ ground (arith, index-get_last? r.log_base r.log x c e)
  ]
    where
      no_last : (xs : List LogEntry) → get_last? xs ≡ none → length xs ≡ 0
      no_last [] e = refl
      no_last (x ∷ []) e = absurd (ground arith)
      no_last (x ∷ y ∷ ys) e = absurd (omega (arith, no_last (y ∷ ys) e))

  floor_commit_keeps :
      (r : Raft S)
      → floor_commit true r ≡ record r { commit_index = (floor_commit true r).commit_index }
  unfolding floor_commit
  floor_commit_keeps r = ground arith

  -- The fresh node with both files read in, before the commit index is raised to the log's end.
  loaded : Config → Raft S → Raft S
  loaded c r = record (fresh c r.persister) {
    current_term = r.current_term;
    voted_for = r.voted_for;
    log = r.log;
    log_base = r.snapshot_index;
    snapshot = r.snapshot;
    snapshot_index = r.snapshot_index;
    snapshot_term = r.snapshot_term;
    commit_index = r.snapshot_index;
    last_applied = r.snapshot_index;
    apply_ch = snapshot_msg r.snapshot r.snapshot_index r.snapshot_term ∷ [];
  }

  load_persisted_state_runs :
      (P : Persister S) (c : Config) (r : Raft S)
      → OnDisk P r
      → load_persisted_state P (fresh c r.persister) ≡ floor_commit true (loaded c r)
  unfolding load_persisted_state load_snapshot_state restore_snapshot fresh loaded
  load_persisted_state_runs P c r disk =
      let floor : (if ltb 0 r.snapshot_index then r.snapshot_index else 0) ≡ r.snapshot_index =
        ground arith in
      rw (disk.state, disk.snapshot, load_persisted_state, floor)

  -- A node built on a store whose files hold a node's state and snapshot, the log being consecutive
  -- behind the snapshot, has that node's term, vote, log and snapshot; the snapshot counts as
  -- applied and is queued for the state machine, and the whole log counts as committed.
  pub load_persisted_state-Recovered :
      (P : Persister S) (c : Config) (r : Raft S)
      → OnDisk P r
      → Contiguous r.snapshot_index r.log
      → Recovered r (load_persisted_state P (fresh c r.persister))
  unfolding loaded
  load_persisted_state-Recovered P c r disk k =
      let same = floor_commit_keeps (loaded c r) in
      rw (load_persisted_state_runs P c r disk) (record {
        term = ap (λ (n : Raft S). n.current_term) same;
        vote = ap (λ (n : Raft S). n.voted_for) same;
        log = ap (λ (n : Raft S). n.log) same;
        base = ap (λ (n : Raft S). n.log_base) same;
        snapshot = ap (λ (n : Raft S). n.snapshot) same;
        applied = ap (λ (n : Raft S). n.last_applied) same;
        commit = floor_commit_last (loaded c r) k refl;
        queue = ap (λ (n : Raft S). n.apply_ch) same;
      })
