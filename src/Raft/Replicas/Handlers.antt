-- ===== src/Raft/Replicas/Handlers.antt =====
-- What the events of a node (raft/) outside its log make of its log, role and term.
use distrib_kv.Prelude.{
  ℕ, zero, suc, ◌+◌, ◌-◌, ◌<◌, ◌≤◌, ◌≡◌, ◌≢◌, refl, ◌⊎◌, inl, inr, [], ◌∷◌, ◌++◌, some, false,
  Option-cases, Bool-cases, arith, length, nat_key, lookup, insert,
}
use distrib_kv.Raft.Types.{
  LogEntry, Bytes, leader, RequestVoteRequest, RequestVoteResponse, AppendEntriesRequest,
  AppendEntriesResponse, InstallSnapshotRequest, InstallSnapshotResponse,
}
use distrib_kv.Raft.Persister.{Persister}
use distrib_kv.Raft.Node.{
  Raft, is_leader, reset_election_timer, stop_election_timer, signal_commit, persist, step_down,
  adopt_term,
}
use distrib_kv.Raft.Election.{become_leader, count_vote, grant_vote, handle_request_vote}
use distrib_kv.Raft.Replication.{scan_commit, update_commit_index, replicate_command}
use distrib_kv.Raft.Sender.{on_append_reply, ack_peer}
use distrib_kv.Raft.Snapshot.{on_install_reply}
use distrib_kv.Raft.Lifecycle.{start, stop, next_apply, apply_pending}
use distrib_kv.Raft.Replication.Submit.{truncate_last-append}

module _ {S : Type 0} where
  -- The log stays; the role and the term do too, or the term has risen and the node does not lead.
  pub record Quiet (r r' : Raft S) : Type 0 where
    pub log : r'.log ≡ r.log
    pub base : r'.log_base ≡ r.log_base
    pub role :
        ((r'.state ≡ r.state) × (r'.current_term ≡ r.current_term))
        ⊎ ((is_leader r' ≡ false) × (r.current_term < r'.current_term))

  -- The log, the role and the term stay.
  pub record Still (r r' : Raft S) : Type 0 where
    pub log : r'.log ≡ r.log
    pub base : r'.log_base ≡ r.log_base
    pub state : r'.state ≡ r.state
    pub term : r'.current_term ≡ r.current_term

  pub Quiet-Still : {r r' : Raft S} → Still r r' → Quiet r r'
  Quiet-Still h = record { log = h.log; base = h.base; role = inl (h.state, h.term) }

  pub persist-Still : (P : Persister S) (r r' : Raft S) → persist P r ≡ some r' → Still r r'
  unfolding persist
  persist-Still P r r' h = ground arith

  pub count_vote-Quiet :
      (term : ℕ) (resp : RequestVoteResponse) (r : Raft S) → Quiet r (count_vote term resp r).0
  unfolding count_vote step_down is_leader
  count_vote-Quiet term resp r = ground arith

  pub handle_request_vote-Quiet :
      (P : Persister S) (req : RequestVoteRequest) (r : Raft S)
      → Quiet r (handle_request_vote P req r).1
  unfolding handle_request_vote grant_vote adopt_term persist reset_election_timer is_leader
  handle_request_vote-Quiet P req r = ground arith

  scan_commit-Still : (k : ℕ) (r : Raft S) → Still r (scan_commit k r)
  unfolding scan_commit signal_commit
  scan_commit-Still zero r = ground arith
  scan_commit-Still (suc k) r = ground (arith, scan_commit-Still k r)

  pub update_commit_index-Still : (r : Raft S) → Still r (update_commit_index r)
  unfolding update_commit_index
  update_commit_index-Still r =
      ground (arith, scan_commit-Still (length r.log + r.log_base - r.commit_index) r)

  pub on_append_reply-Quiet :
      (peer : ℕ) (req : AppendEntriesRequest) (resp : AppendEntriesResponse) (r : Raft S)
      → Quiet r (on_append_reply peer req resp r).0
  unfolding on_append_reply step_down is_leader
  on_append_reply-Quiet peer req resp r = elim (Option-cases (lookup peer r.peers)) [
    | inl e ↦ ground arith
    | inr (p, e) ↦
        let acked = insert peer (ack_peer (req.prev_log_index + length req.entries) p) r.peers in
        ground (arith, update_commit_index-Still (record r { peers = acked }))
  ]

  pub on_install_reply-Quiet :
      (peer : ℕ) (req : InstallSnapshotRequest) (resp : InstallSnapshotResponse) (r : Raft S)
      → Quiet r (on_install_reply peer req resp r)
  unfolding on_install_reply step_down is_leader
  on_install_reply-Quiet peer req resp r = elim (Option-cases (lookup peer r.peers)) [
    | inl e ↦ ground arith
    | inr (p, e) ↦
        let acked = insert peer (ack_peer req.last_included_index p) r.peers in
        ground (arith, update_commit_index-Still (record r { peers = acked }))
  ]

  pub apply_pending-Still : (sends : ℕ) (r : Raft S) → Still r (apply_pending sends r).1
  unfolding apply_pending next_apply
  apply_pending-Still zero r = ground arith
  apply_pending-Still (suc n) r =
      ground (arith, apply_pending-Still n (record r { last_applied = r.last_applied + 1 }))

  pub start-Still : (r : Raft S) → Still r (start r)
  unfolding start
  start-Still r = ground arith

  pub stop-Still : (r : Raft S) → Still r (stop r)
  unfolding stop stop_election_timer
  stop-Still r = ground arith

  -- A leader puts an entry of its term at the end of its log.
  pub record Submitted (r r' : Raft S) : Type 0 where
    pub entry : LogEntry
    pub log : r'.log ≡ r.log ++ entry ∷ []
    pub term : entry.term ≡ r.current_term
    pub index : entry.index ≡ r.log_base + length r.log + 1
    pub base : r'.log_base ≡ r.log_base
    pub leading : r.state ≡ leader
    pub role : r'.state ≡ leader
    pub same_term : r'.current_term ≡ r.current_term

  -- A node that becomes the leader of a term.
  pub record Elected (r r' : Raft S) : Type 0 where
    pub log : r'.log ≡ r.log
    pub base : r'.log_base ≡ r.log_base
    pub role : r'.state ≡ leader
    pub before : r.state ≢ leader
    pub term : r.current_term ≤ r'.current_term

  pub become_leader_cases : (r : Raft S) → ((become_leader r).0 ≡ r) ⊎ Elected r (become_leader r).0
  unfolding become_leader
  become_leader_cases r = ground arith

  pub replicate_command_cases :
      (P : Persister S) (cmd : Bytes) (r : Raft S)
      → Quiet r (replicate_command P cmd r).1 ⊎ Submitted r (replicate_command P cmd r).1
  unfolding replicate_command is_leader
  replicate_command_cases P cmd r =
      let next = length r.log + r.log_base + 1 in
      let entry : LogEntry = record { index = next; term = r.current_term; command = cmd } in
      let r1 = record r { log = r.log ++ entry ∷ [] } in
      elim (Option-cases (persist P r1)) [
        | inl e ↦ ground (arith, truncate_last-append r.log entry)
        | inr (r2, e) ↦ elim (Bool-cases (is_leader r)) [
          | inr follows ↦ inl (ground arith)
          | inl leads ↦
              let saved = persist-Still P r1 r2 e in
              let moved = update_commit_index-Still r2 in
              inr (record {
                entry = entry;
                log = ground arith;
                term = refl;
                index = omega arith;
                base = ground arith;
                leading = ground arith;
                role = ground arith;
                same_term = ground arith;
              })
        ]
      ]
