-- ===== src/Raft/Events/Progress.antt =====
-- The term, the vote and the commit index of a node (all of raft/) over time.
use distrib_kv.Prelude.{
  ℕ, zero, suc, ◌+◌, ◌-◌, ◌≤◌, ◌<◌, ◌≡◌, ◌⊎◌, inl, inr, List, [], ◌∷◌, none, some, Bool, true,
  false, ltb, Option-cases, if◌then◌else◌, arith, length, nat_key, lookup, insert, drop, ◌++◌,
}
use distrib_kv.Raft.Types.{
  LogEntry, Bytes, RequestVoteRequest, RequestVoteResponse, AppendEntriesRequest,
  AppendEntriesResponse, InstallSnapshotRequest, InstallSnapshotResponse,
}
use distrib_kv.Raft.Persister.{Persister}
use distrib_kv.Raft.Node.{
  Raft, is_leader, log_at, reset_election_timer, signal_commit, persist, step_down, adopt_term,
}
use distrib_kv.Raft.Election.{
  become_candidate, become_leader, start_election, campaign, count_vote, can_vote, grant_vote,
  handle_request_vote,
}
use distrib_kv.Raft.Replication.{
  record_leader, advance_commit, finish_append, append_checked, handle_append_entries, scan_commit,
  update_commit_index, replicate_command, merge_entries,
}
use distrib_kv.Raft.Sender.{on_append_reply, ack_peer}
use distrib_kv.Raft.Snapshot.{
  persist_both, fold_log, take_snapshot, install, queue_snapshot, install_checked,
  handle_install_snapshot, on_install_reply,
}
use distrib_kv.Raft.Lifecycle.{start, stop, next_apply, apply_pending}
use distrib_kv.Raft.Events.{
  Event, elect, lead, begin, halt, vote_reply, vote_rpc, append_rpc, install_rpc, append_reply,
  install_reply, submit, compact, apply, step, run,
}

module _ {S : Type 0} where
  -- The term never falls, a vote stands until the term rises, and the commit index never falls.
  pub record Progress (r r' : Raft S) : Type 0 where
    pub term : r.current_term ≤ r'.current_term
    pub vote :
        (r.current_term < r'.current_term) ⊎ (r.voted_for ≡ none) ⊎ (r'.voted_for ≡ r.voted_for)
    pub commit : r.commit_index ≤ r'.commit_index

  pub Progress-refl : (r : Raft S) → Progress r r
  Progress-refl r = ground arith

  pub Progress-trans : {r s t : Raft S} → Progress r s → Progress s t → Progress r t
  Progress-trans h k = ground arith

  -- What keeps the three fields.
  record Keeps (r r' : Raft S) : Type 0 where
    term : r'.current_term ≡ r.current_term
    vote : r'.voted_for ≡ r.voted_for
    commit : r.commit_index ≤ r'.commit_index

  Progress-Keeps : {r r' : Raft S} → Keeps r r' → Progress r r'
  Progress-Keeps k = ground arith

  persist-Keeps : (P : Persister S) (r r' : Raft S) → persist P r ≡ some r' → Keeps r r'
  unfolding persist
  persist-Keeps P r r' h = ground arith

  become_leader-Keeps : (r : Raft S) → Keeps r (become_leader r).0
  unfolding become_leader
  become_leader-Keeps r = ground arith

  campaign-Keeps : (r : Raft S) → Keeps r (campaign r).0
  unfolding campaign become_leader
  campaign-Keeps r = ground arith

  become_candidate-Progress : (P : Persister S) (r : Raft S) → Progress r (become_candidate P r).0
  unfolding become_candidate start_election
  become_candidate-Progress P r = elim (Option-cases (persist P (start_election r))) [
    | inl e ↦ ground arith
    | inr (r', e) ↦ ground (arith, persist-Keeps P (start_election r) r' e, campaign-Keeps r')
  ]

  pub count_vote-Progress :
      (term : ℕ) (resp : RequestVoteResponse) (r : Raft S) → Progress r (count_vote term resp r).0
  unfolding count_vote step_down
  count_vote-Progress term resp r = ground arith

  pub handle_request_vote-Progress :
      (P : Persister S) (req : RequestVoteRequest) (r : Raft S)
      → Progress r (handle_request_vote P req r).1
  unfolding handle_request_vote grant_vote adopt_term persist reset_election_timer can_vote
  handle_request_vote-Progress P req r = ground arith

  prepared-Progress :
      (req : AppendEntriesRequest) (r : Raft S)
      → Progress r (reset_election_timer (record_leader req.leader_id (adopt_term req.term r)))
  unfolding reset_election_timer record_leader adopt_term is_leader
  prepared-Progress req r = ground arith

  finish_append-Keeps :
      (P : Persister S) (req : AppendEntriesRequest) (m : Bool) (r : Raft S)
      → Keeps r (finish_append P req m r).1
  unfolding finish_append persist advance_commit signal_commit
  finish_append-Keeps P req true r = ground arith
  finish_append-Keeps P req false r = ground arith

  append_checked-Keeps :
      (P : Persister S) (req : AppendEntriesRequest) (r : Raft S)
      → Keeps r (append_checked P req r).1
  unfolding append_checked
  append_checked-Keeps P req r =
      elim (Option-cases
        (merge_entries r.log_base r.log (req.prev_log_index + 1) req.entries false)) [
          | inl e ↦ ground arith
          | inr ((log', m), e) ↦
              ground (arith, finish_append-Keeps P req m (record r { log = log' }))
        ]

  handle_append_entries-Progress :
      (P : Persister S) (req : AppendEntriesRequest) (r : Raft S)
      → Progress r (handle_append_entries P req r).1
  unfolding handle_append_entries
  handle_append_entries-Progress P req r =
      let r1 = reset_election_timer (record_leader req.leader_id (adopt_term req.term r)) in
      ground (arith, prepared-Progress req r, append_checked-Keeps P req r1)

  scan_commit-Keeps : (k : ℕ) (r : Raft S) → Keeps r (scan_commit k r)
  unfolding scan_commit signal_commit
  scan_commit-Keeps zero r = ground arith
  scan_commit-Keeps (suc k) r = ground (arith, scan_commit-Keeps k r)

  update_commit_index-Keeps : (r : Raft S) → Keeps r (update_commit_index r)
  unfolding update_commit_index
  update_commit_index-Keeps r =
      ground (arith, scan_commit-Keeps (length r.log + r.log_base - r.commit_index) r)

  replicate_command-Keeps :
      (P : Persister S) (cmd : Bytes) (r : Raft S) → Keeps r (replicate_command P cmd r).1
  unfolding replicate_command
  replicate_command-Keeps P cmd r =
      let next = length r.log + r.log_base + 1 in
      let entry : LogEntry = record { index = next; term = r.current_term; command = cmd } in
      let r1 = record r { log = r.log ++ entry ∷ [] } in
      elim (Option-cases (persist P r1)) [
        | inl e ↦ ground arith
        | inr (r2, e) ↦ ground (arith, persist-Keeps P r1 r2 e, update_commit_index-Keeps r2)
      ]

  on_append_reply-Progress :
      (peer : ℕ) (req : AppendEntriesRequest) (resp : AppendEntriesResponse) (r : Raft S)
      → Progress r (on_append_reply peer req resp r).0
  unfolding on_append_reply step_down
  on_append_reply-Progress peer req resp r = elim (Option-cases (lookup peer r.peers)) [
    | inl e ↦ ground arith
    | inr (p, e) ↦
        let acked = insert peer (ack_peer (req.prev_log_index + length req.entries) p) r.peers in
        ground (arith, update_commit_index-Keeps (record r { peers = acked }))
  ]

  on_install_reply-Progress :
      (peer : ℕ) (req : InstallSnapshotRequest) (resp : InstallSnapshotResponse) (r : Raft S)
      → Progress r (on_install_reply peer req resp r)
  unfolding on_install_reply step_down
  on_install_reply-Progress peer req resp r = elim (Option-cases (lookup peer r.peers)) [
    | inl e ↦ ground arith
    | inr (p, e) ↦
        let acked = insert peer (ack_peer req.last_included_index p) r.peers in
        ground (arith, update_commit_index-Keeps (record r { peers = acked }))
  ]

  persist_both-Keeps : (P : Persister S) (r : Raft S) → Keeps r (persist_both P r).0
  unfolding persist_both persist
  persist_both-Keeps P r = ground arith

  take_snapshot-Keeps :
      (P : Persister S) (index : ℕ) (d : Bytes) (r : Raft S) → Keeps r (take_snapshot P index d r).0
  unfolding take_snapshot
  take_snapshot-Keeps P index d r = elim (Option-cases (log_at r.log_base r.log index)) [
    | inl e ↦ ground arith
    | inr (x, e) ↦
        let folded = fold_log index x.term d (drop (index - r.log_base) r.log) r in
        ground (arith, persist_both-Keeps P folded)
  ]

  install_checked-Keeps :
      (P : Persister S) (req : InstallSnapshotRequest) (r : Raft S)
      → Keeps r (install_checked P req r).1
  unfolding install_checked install queue_snapshot
  install_checked-Keeps P req r = ground (arith, persist_both-Keeps P (install req r))

  handle_install_snapshot-Progress :
      (P : Persister S) (req : InstallSnapshotRequest) (r : Raft S)
      → Progress r (handle_install_snapshot P req r).1
  unfolding handle_install_snapshot step_down reset_election_timer
  handle_install_snapshot-Progress P req r =
      let r1 = if ltb r.current_term req.term then step_down req.term r else r in
      let r2 = record (reset_election_timer r1) { leader_id = some req.leader_id } in
      ground (arith, install_checked-Keeps P req r2)

  apply_pending-Keeps : (sends : ℕ) (r : Raft S) → Keeps r (apply_pending sends r).1
  unfolding apply_pending next_apply
  apply_pending-Keeps zero r = ground arith
  apply_pending-Keeps (suc n) r =
      ground (arith, apply_pending-Keeps n (record r { last_applied = r.last_applied + 1 }))

  start-Keeps : (r : Raft S) → Keeps r (start r)
  unfolding start
  start-Keeps r = ground arith

  stop-Keeps : (r : Raft S) → Keeps r (stop r)
  unfolding stop
  stop-Keeps r = ground arith

  pub step-Progress : (P : Persister S) (e : Event) (r : Raft S) → Progress r (step P e r)
  unfolding step
  step-Progress P elect r = become_candidate-Progress P r
  step-Progress P lead r = Progress-Keeps (become_leader-Keeps r)
  step-Progress P begin r = Progress-Keeps (start-Keeps r)
  step-Progress P halt r = Progress-Keeps (stop-Keeps r)
  step-Progress P (vote_reply term resp) r = count_vote-Progress term resp r
  step-Progress P (vote_rpc req) r = handle_request_vote-Progress P req r
  step-Progress P (append_rpc req) r = handle_append_entries-Progress P req r
  step-Progress P (install_rpc req) r = handle_install_snapshot-Progress P req r
  step-Progress P (append_reply peer req resp) r = on_append_reply-Progress peer req resp r
  step-Progress P (install_reply peer req resp) r = on_install_reply-Progress peer req resp r
  step-Progress P (submit cmd) r = Progress-Keeps (replicate_command-Keeps P cmd r)
  step-Progress P (compact index d) r = Progress-Keeps (take_snapshot-Keeps P index d r)
  step-Progress P (apply sends) r = Progress-Keeps (apply_pending-Keeps sends r)

  -- Under any list of events the term and the commit index of a running node never fall, and a vote
  -- that it has cast is still its vote, unless the term has risen since.
  pub run-Progress : (P : Persister S) (es : List Event) (r : Raft S) → Progress r (run P es r)
  unfolding run
  run-Progress P [] r = Progress-refl r
  run-Progress P (e ∷ es) r = Progress-trans (step-Progress P e r) (run-Progress P es (step P e r))
