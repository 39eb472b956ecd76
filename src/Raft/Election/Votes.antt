-- ===== src/Raft/Election/Votes.antt =====
-- The vote of `RequestVote` (raft/election.go), while the node runs and after a restart.
use distrib_kv.Prelude.{
  ℕ, ◌≤◌, ◌<◌, ◌≡◌, sym, ◌∙◌, ◌↔◌, ◌⊎◌, inl, inr, List, Option, none, some, true, arith,
}
use distrib_kv.Raft.Types.{LogEntry, RequestVoteRequest, RequestVoteResponse, reply}
use distrib_kv.Raft.Persister.{Persister, SnapshotRead, found, no_snapshot, unreadable}
use distrib_kv.Raft.Node.{Raft, adopt_term, persist, reset_election_timer, get_last_log_info}
use distrib_kv.Raft.Election.{can_vote, log_ok, grant_vote, handle_request_vote}
use distrib_kv.Raft.Lifecycle.{
  Config, fresh, load_persisted_state, load_snapshot_state, floor_commit, restore_snapshot,
}
use distrib_kv.Raft.Events.{Event, run}
use distrib_kv.Raft.Events.Progress.{run-Progress}

module _ {S : Type 0} where
  -- The candidate's last entry has a higher term, or the same term and at least the index.
  abbrev pub UpToDate : RequestVoteRequest → Raft S → Type 0
  UpToDate req r =
      ((get_last_log_info r).1 < req.last_log_term)
      ⊎ (((get_last_log_info r).1 ≡ req.last_log_term)
          × ((get_last_log_info r).0 ≤ req.last_log_index))

  -- The node has no other vote in the request's term.
  abbrev pub Free : RequestVoteRequest → Raft S → Type 0
  Free req r =
      (r.current_term < req.term) ⊎ (r.voted_for ≡ none) ⊎ (r.voted_for ≡ some req.candidate_id)

  log_ok_iff : (req : RequestVoteRequest) (r : Raft S) → (log_ok req r ≡ true) ↔ UpToDate req r
  unfolding log_ok
  log_ok_iff req r = ground arith

  adopted_log_ok :
      (req : RequestVoteRequest) (r : Raft S) → log_ok req (adopt_term req.term r) ≡ log_ok req r
  unfolding log_ok adopt_term
  adopted_log_ok req r = ground arith

  pub record Granted (req : RequestVoteRequest) (r r' : Raft S) (a : RequestVoteResponse)
      : Type 0 where
    pub current : r.current_term ≤ req.term
    pub free : Free req r
    pub up_to_date : UpToDate req r
    pub vote : r'.voted_for ≡ some req.candidate_id
    pub term : r'.current_term ≡ req.term
    pub answer : a.term ≡ req.term
    pub log : r'.log ≡ r.log

  -- If the answer to a vote request is a granted vote, the request's term was not below the node's,
  -- the node had no other vote in that term, and the candidate's last entry was at least as up to
  -- date; afterwards the node has that term and that vote, the answer carries the term, and the log
  -- is as before.
  pub handle_request_vote-Granted :
      (P : Persister S) (req : RequestVoteRequest) (r : Raft S) {a : RequestVoteResponse}
      {r' : Raft S}
      → handle_request_vote P req r ≡ (reply a, r')
      → a.vote_granted ≡ true
      → Granted req r r' a
  unfolding handle_request_vote grant_vote persist can_vote adopt_term reset_election_timer
  handle_request_vote-Granted P req r h ok = ground (arith, adopted_log_ok req r, log_ok_iff req r)

  -- If the request's term is not below the node's, the node has no other vote in that term, the
  -- candidate's last entry is at least as up to date, and the write succeeds, the answer is a
  -- granted vote in that term.
  pub handle_request_vote_grants :
      (P : Persister S) (req : RequestVoteRequest) (r : Raft S) {r' : Raft S}
      → r.current_term ≤ req.term
      → Free req r
      → UpToDate req r
      → persist P (adopt_term req.term r) ≡ some r'
      → (handle_request_vote P req r).0 ≡ reply (record { term = req.term; vote_granted = true })
  unfolding handle_request_vote grant_vote persist can_vote adopt_term
  handle_request_vote_grants P req r c f u h =
      ground (arith, adopted_log_ok req r, log_ok_iff req r)

  -- A node grants a vote, then handles any list of events (timer, RPCs, replies, commands,
  -- snapshots, the apply loop) without a restart, and then grants a vote in the same term: both
  -- votes are for the same candidate.
  pub vote_once :
      (P : Persister S) (es : List Event) (req req' : RequestVoteRequest) (r : Raft S)
      {a a' : RequestVoteResponse} {s s' : Raft S}
      → handle_request_vote P req r ≡ (reply a, s)
      → a.vote_granted ≡ true
      → handle_request_vote P req' (run P es s) ≡ (reply a', s')
      → a'.vote_granted ≡ true
      → req'.term ≡ req.term
      → req'.candidate_id ≡ req.candidate_id
  vote_once P es req req' r {a} {a'} {s} {s'} h ok h' ok' same = ground (
    arith,
    handle_request_vote-Granted P req r h ok,
    run-Progress P es s,
    handle_request_vote-Granted P req' (run P es s) h' ok',
  )

  -- What the store holds once a vote has been granted: the term, and the vote before the grant.
  grant_saved :
      (P : Persister S) (req : RequestVoteRequest) (r : Raft S) {a : RequestVoteResponse}
      {r' : Raft S}
      → handle_request_vote P req r ≡ (reply a, r')
      → a.vote_granted ≡ true
      → P.save req.term (adopt_term req.term r).voted_for r.log r.persister ≡ some r'.persister
  unfolding handle_request_vote grant_vote persist can_vote adopt_term reset_election_timer
  grant_saved P req r h ok = ground arith

  load_snapshot_state_keeps :
      (s : SnapshotRead) (r : Raft S)
      → ((load_snapshot_state s r).current_term ≡ r.current_term)
        × ((load_snapshot_state s r).voted_for ≡ r.voted_for)
        × ((load_snapshot_state s r).log ≡ r.log)
  unfolding load_snapshot_state floor_commit restore_snapshot
  load_snapshot_state_keeps (found d i t) r = ground arith
  load_snapshot_state_keeps no_snapshot r = ground arith
  load_snapshot_state_keeps unreadable r = ground arith

  -- A node built on a store has what was last saved there.
  pub load_persisted_state_saved :
      (P : Persister S) (c : Config) (s : S) (t : ℕ) (v : Option ℕ) (l : List LogEntry) {s' : S}
      → P.save t v l s ≡ some s'
      → ((load_persisted_state P (fresh c s')).current_term ≡ t)
        × ((load_persisted_state P (fresh c s')).voted_for ≡ v)
        × ((load_persisted_state P (fresh c s')).log ≡ l)
  unfolding load_persisted_state fresh
  load_persisted_state_saved P c s t v l {s'} h =
      let loaded = P.load-save t v l s s' h in
      rw (loaded, load_persisted_state)
        (load_snapshot_state_keeps (P.load_snapshot s')
          (record (fresh c s') { current_term = t; voted_for = v; log = l }))

  adopt_free :
      (t : ℕ) (r : Raft S)
      → (r.current_term < t) ⊎ (r.voted_for ≡ none)
      → (adopt_term t r).voted_for ≡ none
  unfolding adopt_term
  adopt_free t r h = ground arith

  adopt_same : (t : ℕ) (r : Raft S) → t ≡ r.current_term → adopt_term t r ≡ r
  unfolding adopt_term
  adopt_same t r h = ground arith

  -- A node without a vote in the request's term grants a vote and restarts on its store. Another
  -- request of the same term, from any candidate whose log is up to date, is granted as well, if
  -- the writes succeed.
  pub vote_lost_on_restart :
      (P : Persister S) (c : Config) (req req' : RequestVoteRequest) (r : Raft S)
      {a : RequestVoteResponse} {r' w : Raft S}
      → handle_request_vote P req r ≡ (reply a, r')
      → a.vote_granted ≡ true
      → (r.current_term < req.term) ⊎ (r.voted_for ≡ none)
      → req'.term ≡ req.term
      → UpToDate req' (load_persisted_state P (fresh c r'.persister))
      → persist P (load_persisted_state P (fresh c r'.persister)) ≡ some w
      → (handle_request_vote P req' (load_persisted_state P (fresh c r'.persister))).0
        ≡ reply (record { term = req'.term; vote_granted = true })
  vote_lost_on_restart P c req req' r {a} {r'} {w} h ok free same up saved =
      let n = load_persisted_state P (fresh c r'.persister) in
      let (t, v, l) =
        load_persisted_state_saved P c r.persister req.term (adopt_term req.term r).voted_for r.log
          (grant_saved P req r h ok) in
      handle_request_vote_grants P req' n {r' = w} (omega arith)
        (inr (inl (v ∙ adopt_free req.term r free))) up
        (rw (adopt_same req'.term n (same ∙ sym t)) saved)
