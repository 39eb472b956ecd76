-- ===== src/Raft/Events/Same.antt =====
-- The events of a node (raft/) that leave its log, its applied index and its snapshot alone, and the
-- parts of the other handlers that do.
use distrib_kv.Prelude.{
  ℕ, zero, suc, ◌+◌, ◌-◌, ◌≤◌, ◌≡◌, inl, inr, some, Bool, true, false, ltb, Option-cases,
  if◌then◌else◌, arith, length, nat_key, lookup, insert,
}
use distrib_kv.Raft.Types.{
  RequestVoteRequest, RequestVoteResponse, AppendEntriesRequest, AppendEntriesResponse,
  InstallSnapshotRequest, InstallSnapshotResponse,
}
use distrib_kv.Raft.Persister.{Persister}
use distrib_kv.Raft.Node.{
  Raft, is_leader, reset_election_timer, signal_commit, persist, step_down, adopt_term,
}
use distrib_kv.Raft.Election.{
  become_candidate, become_leader, start_election, campaign, count_vote, grant_vote,
  handle_request_vote,
}
use distrib_kv.Raft.Replication.{
  record_leader, advance_commit, finish_append, scan_commit, update_commit_index,
}
use distrib_kv.Raft.Sender.{on_append_reply, ack_peer}
use distrib_kv.Raft.Snapshot.{persist_both, on_install_reply}
use distrib_kv.Raft.Lifecycle.{start, stop}

module _ {S : Type 0} where
  -- The log, what is applied and what is snapshotted stay; the commit index may rise.
  pub record Same (r r' : Raft S) : Type 0 where
    pub log : r'.log ≡ r.log
    pub base : r'.log_base ≡ r.log_base
    pub commit : r.commit_index ≤ r'.commit_index
    pub applied : r'.last_applied ≡ r.last_applied
    pub snap : r'.snapshot_index ≡ r.snapshot_index
    pub queue : r'.apply_ch ≡ r.apply_ch

  pub persist-Same : (P : Persister S) (r r' : Raft S) → persist P r ≡ some r' → Same r r'
  unfolding persist
  persist-Same P r r' h = ground arith

  pub become_leader-Same : (r : Raft S) → Same r (become_leader r).0
  unfolding become_leader
  become_leader-Same r = ground arith

  pub campaign-Same : (r : Raft S) → Same r (campaign r).0
  unfolding campaign become_leader
  campaign-Same r = ground arith

  pub become_candidate-Same : (P : Persister S) (r : Raft S) → Same r (become_candidate P r).0
  unfolding become_candidate start_election
  become_candidate-Same P r = elim (Option-cases (persist P (start_election r))) [
    | inl e ↦ ground arith
    | inr (r', e) ↦ ground (arith, persist-Same P (start_election r) r' e, campaign-Same r')
  ]

  pub count_vote-Same :
      (term : ℕ) (resp : RequestVoteResponse) (r : Raft S) → Same r (count_vote term resp r).0
  unfolding count_vote step_down
  count_vote-Same term resp r = ground arith

  pub handle_request_vote-Same :
      (P : Persister S) (req : RequestVoteRequest) (r : Raft S)
      → Same r (handle_request_vote P req r).1
  unfolding handle_request_vote grant_vote adopt_term persist reset_election_timer
  handle_request_vote-Same P req r = ground arith

  pub prepared-Same :
      (req : AppendEntriesRequest) (r : Raft S)
      → Same r (reset_election_timer (record_leader req.leader_id (adopt_term req.term r)))
  unfolding reset_election_timer record_leader adopt_term is_leader
  prepared-Same req r = ground arith

  pub finish_append-Same :
      (P : Persister S) (req : AppendEntriesRequest) (m : Bool) (r : Raft S)
      → Same r (finish_append P req m r).1
  unfolding finish_append persist advance_commit signal_commit
  finish_append-Same P req true r = ground arith
  finish_append-Same P req false r = ground arith

  pub scan_commit-Same : (k : ℕ) (r : Raft S) → Same r (scan_commit k r)
  unfolding scan_commit signal_commit
  scan_commit-Same zero r = ground arith
  scan_commit-Same (suc k) r = ground (arith, scan_commit-Same k r)

  pub update_commit_index-Same : (r : Raft S) → Same r (update_commit_index r)
  unfolding update_commit_index
  update_commit_index-Same r =
      ground (arith, scan_commit-Same (length r.log + r.log_base - r.commit_index) r)

  pub on_append_reply-Same :
      (peer : ℕ) (req : AppendEntriesRequest) (resp : AppendEntriesResponse) (r : Raft S)
      → Same r (on_append_reply peer req resp r).0
  unfolding on_append_reply step_down
  on_append_reply-Same peer req resp r = elim (Option-cases (lookup peer r.peers)) [
    | inl e ↦ ground arith
    | inr (p, e) ↦
        let acked = insert peer (ack_peer (req.prev_log_index + length req.entries) p) r.peers in
        ground (arith, update_commit_index-Same (record r { peers = acked }))
  ]

  pub on_install_reply-Same :
      (peer : ℕ) (req : InstallSnapshotRequest) (resp : InstallSnapshotResponse) (r : Raft S)
      → Same r (on_install_reply peer req resp r)
  unfolding on_install_reply step_down
  on_install_reply-Same peer req resp r = elim (Option-cases (lookup peer r.peers)) [
    | inl e ↦ ground arith
    | inr (p, e) ↦
        let acked = insert peer (ack_peer req.last_included_index p) r.peers in
        ground (arith, update_commit_index-Same (record r { peers = acked }))
  ]

  pub persist_both-Same : (P : Persister S) (r : Raft S) → Same r (persist_both P r).0
  unfolding persist_both persist
  persist_both-Same P r = ground arith

  pub prepared_install-Same :
      (req : InstallSnapshotRequest) (r : Raft S)
      → Same r
          (record (reset_election_timer
            (if ltb r.current_term req.term then step_down req.term r else r)) {
              leader_id = some req.leader_id;
            })
  unfolding reset_election_timer step_down
  prepared_install-Same req r = ground arith

  pub start-Same : (r : Raft S) → Same r (start r)
  unfolding start
  start-Same r = ground arith

  pub stop-Same : (r : Raft S) → Same r (stop r)
  unfolding stop
  stop-Same r = ground arith
