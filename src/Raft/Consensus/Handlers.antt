-- ===== src/Raft/Consensus/Handlers.antt =====
-- What the handlers of a node (raft/) make of its peers and its commit index.
use distrib_kv.Prelude.{
  ℕ, zero, suc, ◌+◌, ◌≡◌, refl, ◌∙◌, ◌⊎◌, inl, inr, [], ◌∷◌, ◌++◌, none, some, ltb, Bool, true,
  false, ◌||◌, Option-cases, Bool-cases, arith, length, lookup, insert, nat_key,
}
use distrib_kv.Raft.Types.{
  LogEntry, Bytes, leader, candidate, RequestVoteRequest, RequestVoteResponse, AppendEntriesRequest,
  AppendEntriesResponse,
}
use distrib_kv.Raft.Persister.{Persister}
use distrib_kv.Raft.Node.{
  Raft, Peer, is_leader, persist, step_down, adopt_term, reset_election_timer, stop_election_timer,
  signal_commit,
}
use distrib_kv.Raft.Election.{
  become_candidate, become_leader, start_election, campaign, count_vote, grant_vote,
  handle_request_vote, reset_peers, last_index,
}
use distrib_kv.Raft.Replication.{
  update_commit_index, replicate_command, handle_append_entries, append_checked, finish_append,
  advance_commit, record_leader, merge_entries, prev_ok,
}
use distrib_kv.Raft.Replication.Submit.{truncate_last-append}
use distrib_kv.Raft.Sender.{on_append_reply, ack_peer, back_off_peer, is_stale}
use distrib_kv.Raft.Lifecycle.{start, stop, close_peers, next_apply, apply_pending}
use distrib_kv.Raft.Replicas.Handlers.{Quiet, Submitted, persist-Still, update_commit_index-Still}
use distrib_kv.Raft.Replicas.Merging.{is_success}

module _ {S : Type 0} where
  -- The peers and the commit index stay.
  pub record Tame (r r' : Raft S) : Type 0 where
    pub peers : r'.peers ≡ r.peers
    pub commit : r'.commit_index ≡ r.commit_index

  persist-Tame : (P : Persister S) (r r' : Raft S) → persist P r ≡ some r' → Tame r r'
  unfolding persist
  persist-Tame P r r' h = ground arith

  pub count_vote-Tame :
      (term : ℕ) (resp : RequestVoteResponse) (r : Raft S) → Tame r (count_vote term resp r).0
  unfolding count_vote step_down
  count_vote-Tame term resp r = ground arith

  pub handle_request_vote-Tame :
      (P : Persister S) (req : RequestVoteRequest) (r : Raft S)
      → Tame r (handle_request_vote P req r).1
  unfolding handle_request_vote grant_vote adopt_term persist reset_election_timer
  handle_request_vote-Tame P req r = ground arith

  pub apply_pending-Tame : (sends : ℕ) (r : Raft S) → Tame r (apply_pending sends r).1
  unfolding apply_pending next_apply
  apply_pending-Tame zero r = ground arith
  apply_pending-Tame (suc n) r =
      ground (arith, apply_pending-Tame n (record r { last_applied = r.last_applied + 1 }))

  pub start-Tame : (r : Raft S) → Tame r (start r)
  unfolding start
  start-Tame r = ground arith

  pub stop_peers :
      (r : Raft S) → ((stop r).peers ≡ r.peers) ⊎ ((stop r).peers ≡ close_peers r.peers)
  unfolding stop stop_election_timer
  stop_peers r = ground arith

  pub stop_commit : (r : Raft S) → (stop r).commit_index ≡ r.commit_index
  unfolding stop stop_election_timer
  stop_commit r = ground arith

  -- A node that takes leadership counts every peer from 0.
  pub become_leader_peers :
      (r : Raft S)
      → ((become_leader r).0 ≡ r)
        ⊎ (((become_leader r).0.peers ≡ reset_peers (last_index r + 1) r.peers)
            × ((become_leader r).0.commit_index ≡ r.commit_index))
  unfolding become_leader stop_election_timer
  become_leader_peers r = ground arith

  campaign_peers :
      (r : Raft S)
      → r.state ≡ candidate
      → ((is_leader (campaign r).0 ≡ false) × Tame r (campaign r).0)
        ⊎ ((campaign r).0.state ≡ leader)
  unfolding campaign reset_election_timer become_leader stop_election_timer is_leader last_index
  campaign_peers r h = ground arith

  started_role : (q : Raft S) → (start_election q).state ≡ candidate
  unfolding start_election
  started_role q = refl

  started-Tame : (q : Raft S) → Tame q (start_election q)
  unfolding start_election
  started-Tame q = record { peers = refl; commit = refl }

  candidate_failed :
      (P : Persister S) (q : Raft S)
      → q.shutdown || is_leader q ≡ false
      → persist P (start_election q) ≡ none
      → (is_leader (become_candidate P q).0 ≡ false) × Tame q (become_candidate P q).0
  unfolding become_candidate start_election is_leader
  candidate_failed P q live failed = ground arith

  -- A new candidate keeps its peers, unless it leads at once.
  pub become_candidate_peers :
      (P : Persister S) (r : Raft S)
      → r.shutdown || is_leader r ≡ false
      → ((is_leader (become_candidate P r).0 ≡ false) × Tame r (become_candidate P r).0)
        ⊎ ((become_candidate P r).0.state ≡ leader)
  unfolding become_candidate
  become_candidate_peers P r live = elim (Option-cases (persist P (start_election r))) [
    | inl failed ↦ inl (candidate_failed P r live failed)
    | inr (s, saved) ↦
        let tame = persist-Tame P (start_election r) s saved in
        let still = persist-Still P (start_election r) s saved in
        let role : s.state ≡ candidate = still.state ∙ started_role r in
        let started = started-Tame r in
        rw (live, saved)
          (elim (campaign_peers s role) [
            | inl (out, t) ↦ inl (
              out,
              record {
                peers = t.peers ∙ tame.peers ∙ started.peers;
                commit = t.commit ∙ tame.commit ∙ started.commit;
              },
            )
            | inr leads ↦ inr leads
          ])
  ]

  -- The node before `updateCommitIndex` runs on an accepted command.
  pub record Parts (r r' : Raft S) : Type 0 where
    pub mid : Raft S
    pub runs : r' ≡ update_commit_index mid
    pub tame : Tame r mid
    pub state : mid.state ≡ r.state
    pub term : mid.current_term ≡ r.current_term
    pub log : mid.log ≡ r'.log
    pub base : mid.log_base ≡ r.log_base

  pub replicate_command-Parts :
      (P : Persister S) (cmd : Bytes) (r : Raft S)
      → (Quiet r (replicate_command P cmd r).1 × Tame r (replicate_command P cmd r).1)
        ⊎ (Submitted r (replicate_command P cmd r).1 × Parts r (replicate_command P cmd r).1)
  unfolding replicate_command is_leader
  replicate_command-Parts P cmd r =
      let next = length r.log + r.log_base + 1 in
      let entry : LogEntry = record { index = next; term = r.current_term; command = cmd } in
      let r1 = record r { log = r.log ++ entry ∷ [] } in
      elim (Option-cases (persist P r1)) [
        | inl e ↦ inl (ground (arith, truncate_last-append r.log entry))
        | inr (r2, e) ↦ elim (Bool-cases (is_leader r)) [
          | inr follows ↦ inl (ground arith)
          | inl leads ↦
              let saved = persist-Still P r1 r2 e in
              let tame = persist-Tame P r1 r2 e in
              let moved = update_commit_index-Still r2 in
              inr (
                record {
                  entry = entry;
                  log = ground arith;
                  term = refl;
                  index = omega arith;
                  base = ground arith;
                  leading = ground arith;
                  role = ground arith;
                  same_term = ground arith;
                },
                record {
                  mid = r2;
                  runs = ground arith;
                  tame = record { peers = ground arith; commit = ground arith };
                  state = ground arith;
                  term = ground arith;
                  log = ground arith;
                  base = ground arith;
                },
              )
        ]
      ]

  -- The reply of a peer that the leader still counts.
  abbrev pub Heard : ℕ → AppendEntriesRequest → AppendEntriesResponse → Raft S → Raft S → Type 0
  Heard peer req resp r r' =
      (p : Peer) × (lookup peer r.peers ≡ some p)
      × (r.state ≡ leader)
      × (r.current_term ≡ req.term)
      × ((r' ≡ record r { peers = insert peer (back_off_peer p) r.peers })
          ⊎ ((resp.success ≡ true)
              × (r'
                  ≡ update_commit_index (record r {
                    peers =
                        insert peer (ack_peer (req.prev_log_index + length req.entries) p) r.peers;
                  }))))

  pub on_append_reply_cases :
      (peer : ℕ) (req : AppendEntriesRequest) (resp : AppendEntriesResponse) (r : Raft S)
      → Tame r (on_append_reply peer req resp r).0
        ⊎ Heard peer req resp r (on_append_reply peer req resp r).0
  unfolding on_append_reply step_down is_stale is_leader
  on_append_reply_cases peer req resp r = elim (Option-cases (lookup peer r.peers)) [
    | inl e ↦ inl (ground arith)
    | inr (p, e) ↦ elim (Bool-cases (is_stale req.term r)) [
      | inl stale ↦ inl (ground arith)
      | inr fresh ↦ elim (Bool-cases (ltb r.current_term resp.term)) [
        | inl later ↦ inl (ground arith)
        | inr now ↦ elim (Bool-cases resp.success) [
          | inl yes_ ↦ inr (p, e, ground arith, ground arith, inr (yes_, ground arith))
          | inr no_ ↦ inr (p, e, ground arith, ground arith, inl (ground arith))
        ]
      ]
    ]
  ]

  finish_append_commit :
      (P : Persister S) (req : AppendEntriesRequest) (m : Bool) (r : Raft S)
      → is_success (finish_append P req m r).0 ≡ false
      → (finish_append P req m r).1.commit_index ≡ r.commit_index
  unfolding finish_append is_success persist
  finish_append_commit P req true r h = ground arith
  finish_append_commit P req false r h = ground arith

  finish_append_peers :
      (P : Persister S) (req : AppendEntriesRequest) (m : Bool) (r : Raft S)
      → (finish_append P req m r).1.peers ≡ r.peers
  unfolding finish_append persist advance_commit signal_commit
  finish_append_peers P req true r = ground arith
  finish_append_peers P req false r = ground arith

  prepared-Tame :
      (req : AppendEntriesRequest) (r : Raft S)
      → Tame r (reset_election_timer (record_leader req.leader_id (adopt_term req.term r)))
  unfolding reset_election_timer record_leader adopt_term is_leader
  prepared-Tame req r = ground arith

  -- The peers stay, and so does the commit index where the answer is no success.
  pub handle_append_entries_tame :
      (P : Persister S) (req : AppendEntriesRequest) (r : Raft S)
      → ((handle_append_entries P req r).1.peers ≡ r.peers)
        × (is_success (handle_append_entries P req r).0 ≡ false
            → (handle_append_entries P req r).1.commit_index ≡ r.commit_index)
  unfolding handle_append_entries append_checked
  handle_append_entries_tame P req r =
      let q = reset_election_timer (record_leader req.leader_id (adopt_term req.term r)) in
      let t = prepared-Tame req r in
      elim (Bool-cases (ltb req.term r.current_term)) [
        | inl stale ↦ ground arith
        | inr fresh ↦ elim (Bool-cases (prev_ok req.prev_log_index req.prev_log_term q)) [
          | inr bad ↦ ground arith
          | inl good ↦
              elim (Option-cases
                (merge_entries q.log_base q.log (req.prev_log_index + 1) req.entries false)) [
                  | inl gone ↦ ground arith
                  | inr ((log', m), e) ↦
                      let ps = finish_append_peers P req m (record q { log = log' }) in
                      let c = finish_append_commit P req m (record q { log = log' }) in
                      (ground arith, λ h. ground (arith, c))
                ]
        ]
      ]
