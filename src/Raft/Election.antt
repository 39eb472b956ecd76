-- ===== src/Raft/Election.antt =====
-- raft/election.go. `become_leader` runs after its caller has released the lock, so it is a section
-- of its own; `count_vote` says whether the caller goes on to it.
pub mod Votes
pub mod Quorum
use distrib_kv.Prelude.{
  ℕ, ◌+◌, ◌/◌, List, [], ◌∷◌, none, some, Bool, true, false, ltb, leb, ◌==◌, ◌&&◌, ◌||◌, not,
  if◌then◌else◌, Assoc, map, get_last?, length,
}
use distrib_kv.Raft.Types.{
  State, follower, candidate, leader, RequestVoteRequest, RequestVoteResponse, persist_failed,
  Outcome, reply, fail,
}
use distrib_kv.Raft.Persister.{Persister}
use distrib_kv.Raft.Node.{
  Raft, Peer, Spawn, request_vote, append_entries, heartbeat, ids, is_leader, get_last_log_info,
  reset_election_timer, stop_election_timer, persist, step_down, adopt_term,
}

abbrev pub is_candidate : State → Bool
is_candidate follower = false
is_candidate candidate = true
is_candidate leader = false

-- nextIndex and matchIndex of every peer, when a leader starts.
unfoldable pub reset_peers : ℕ → Assoc ℕ Peer → Assoc ℕ Peer
reset_peers next [] = []
reset_peers next ((i, p) ∷ ps) =
    (i, record p { next_index = next; match_index = 0 }) ∷ reset_peers next ps

vote_requests : ℕ → List ℕ → List Spawn
vote_requests term = map (λ i. request_vote i term)

module _ {S : Type 0} where
  unfoldable pub last_index : Raft S → ℕ
  last_index r = elim (get_last? r.log) [ none ↦ 0 | some e ↦ e.index ]

  -- `becomeLeader`.
  unfoldable pub become_leader : Raft S → Raft S × List Spawn
  unfolding last_index stop_election_timer
  become_leader r = if not (is_candidate r.state) || r.shutdown then (r, []) else (
    stop_election_timer (record r {
      state = leader;
      leader_id = some r.server_id;
      peers = reset_peers (last_index r + 1) r.peers;
    }),
    heartbeat ∷ [],
  )

  -- `becomeCandidate` before its write: the term, the own vote, and the first count.
  unfoldable pub start_election : Raft S → Raft S
  start_election r = record r {
    state = candidate;
    current_term = r.current_term + 1;
    voted_for = some r.server_id;
    leader_id = none;
    votes_received = 1;
  }

  -- What follows a successful write: the timer, and the election itself.
  unfoldable pub campaign : Raft S → Raft S × List Spawn
  unfolding vote_requests reset_election_timer
  campaign r = elim r.peers [
    | [] ↦ become_leader (reset_election_timer r)
    | p ∷ ps ↦ (reset_election_timer r, vote_requests r.current_term (ids r.peers))
  ]

  unfoldable pub become_candidate : Persister S → Raft S → Raft S × List Spawn
  become_candidate P r =
      if r.shutdown || is_leader r then (r, []) else elim (persist P (start_election r)) [
        | none ↦ (start_election r, [])
        | some r' ↦ campaign r'
      ]

  -- The request of `sendRequestVote`: the term is the one that the election began in.
  unfoldable pub vote_request : ℕ → Raft S → RequestVoteRequest
  unfolding get_last_log_info
  vote_request term r = record {
    term = term;
    candidate_id = r.server_id;
    last_log_index = (get_last_log_info r).0;
    last_log_term = (get_last_log_info r).1;
  }

  -- votes > peers / 2
  unfoldable pub has_majority : Raft S → Bool
  has_majority r = ltb (length r.peers / 2) r.votes_received

  -- The reply's critical section in `sendRequestVote`; true: go on to `become_leader`.
  unfoldable pub count_vote : ℕ → RequestVoteResponse → Raft S → Raft S × Bool
  count_vote term resp r =
      if not (r.current_term == term) || not (is_candidate r.state)
      then (r, false)
      else if ltb r.current_term resp.term
      then (step_down resp.term r, false)
      else if resp.vote_granted
      then (let r' = record r { votes_received = r.votes_received + 1 } in (r', has_majority r'))
      else (r, false)

  -- Both sections with nothing in between.
  unfoldable pub on_vote_reply : ℕ → RequestVoteResponse → Raft S → Raft S × List Spawn
  on_vote_reply term resp r =
      let (r', won) = count_vote term resp r in if won then become_leader r' else (r', [])

  -- The candidate's log is at least as up to date as this node's.
  unfoldable pub log_ok : RequestVoteRequest → Raft S → Bool
  unfolding get_last_log_info
  log_ok req r =
      let last = get_last_log_info r in
      ltb last.1 req.last_log_term || (req.last_log_term == last.1 && leb last.0 req.last_log_index)

  unfoldable pub can_vote : RequestVoteRequest → Raft S → Bool
  can_vote req r = elim r.voted_for [ none ↦ true | some c ↦ c == req.candidate_id ]

  -- The write stands before the assignment of the vote.
  unfoldable pub grant_vote :
      Persister S → RequestVoteRequest → Raft S → Outcome RequestVoteResponse × Raft S
  grant_vote P req r = elim (persist P r) [
    | none ↦ (fail persist_failed, r)
    | some r' ↦ (
      reply (record { term = r'.current_term; vote_granted = true }),
      reset_election_timer (record r' { voted_for = some req.candidate_id }),
    )
  ]

  -- `RequestVote`.
  unfoldable pub handle_request_vote :
      Persister S → RequestVoteRequest → Raft S → Outcome RequestVoteResponse × Raft S
  handle_request_vote P req r =
      if ltb req.term r.current_term
      then (reply (record { term = r.current_term; vote_granted = false }), r)
      else let r' = adopt_term req.term r in
        if can_vote req r' && log_ok req r'
        then grant_vote P req r'
        else (reply (record { term = r'.current_term; vote_granted = false }), r')

  -- `sendHeartbeats`.
  unfoldable pub send_heartbeats : Raft S → List Spawn
  send_heartbeats r =
      if not (is_leader r) || r.shutdown
      then []
      else map (λ i. append_entries i r.current_term r.commit_index) (ids r.peers)
