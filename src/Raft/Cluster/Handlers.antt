-- ===== src/Raft/Cluster/Handlers.antt =====
-- What the election handlers of raft/election.go make of a node's role, vote and count.
use distrib_kv.Prelude.{
  ℕ, ◌+◌, ◌≡◌, refl, ◌⊎◌, inl, inr, List, [], ◌∷◌, some, Bool, true, false, ◌||◌, Assoc,
  Option-cases, arith, length,
}
use distrib_kv.Raft.Types.{follower, candidate, leader, RequestVoteRequest, RequestVoteResponse}
use distrib_kv.Raft.Persister.{Persister}
use distrib_kv.Raft.Node.{
  Raft, Peer, Spawn, is_leader, persist, step_down, adopt_term, reset_election_timer,
}
use distrib_kv.Raft.Election.{
  become_candidate, become_leader, start_election, campaign, count_vote, grant_vote,
  handle_request_vote, last_index, reset_peers,
}
use distrib_kv.Raft.Cluster.Steady.{Steady}

length-reset_peers : (k : ℕ) (ps : Assoc ℕ Peer) → length (reset_peers k ps) ≡ length ps
unfolding reset_peers
length-reset_peers k [] = refl
length-reset_peers k ((i, p) ∷ ps) = ground (arith, length-reset_peers k ps)

module _ {S : Type 0} where
  pub handle_request_vote-Steady :
      (P : Persister S) (req : RequestVoteRequest) (r : Raft S)
      → Steady r (handle_request_vote P req r).1
  unfolding handle_request_vote grant_vote adopt_term persist reset_election_timer
  handle_request_vote-Steady P req r = ground arith

  -- A node that becomes the leader, or is left as it is.
  pub record Led (r r' : Raft S) : Type 0 where
    pub id : r'.server_id ≡ r.server_id
    pub size : length r'.peers ≡ length r.peers
    pub term : r'.current_term ≡ r.current_term
    pub vote : r'.voted_for ≡ r.voted_for
    pub votes : r'.votes_received ≡ r.votes_received
    pub role : (r'.state ≡ leader) ⊎ (r'.state ≡ r.state)

  pub become_leader-Led : (r : Raft S) → Led r (become_leader r).0
  unfolding become_leader
  become_leader-Led r = ground (arith, length-reset_peers (last_index r + 1) r.peers)

  -- A node that starts an election.
  pub record Campaigned (r r' : Raft S) : Type 0 where
    pub id : r'.server_id ≡ r.server_id
    pub size : length r'.peers ≡ length r.peers
    pub term : r'.current_term ≡ r.current_term + 1
    pub vote : r'.voted_for ≡ some r.server_id
    pub votes : r'.votes_received ≡ 1
    pub alone : (r'.state ≡ candidate) ⊎ (length r.peers ≡ 0)

  campaign-Led : (r : Raft S) → Led r (campaign r).0
  unfolding campaign reset_election_timer
  campaign-Led r = ground (arith, become_leader-Led (reset_election_timer r))

  campaign_alone :
      (r : Raft S) → r.state ≡ candidate → ((campaign r).0.state ≡ candidate) ⊎ (length r.peers ≡ 0)
  unfolding campaign reset_election_timer
  campaign_alone r h = ground arith

  pub become_candidate-Campaigned :
      (P : Persister S) (r : Raft S) {r' : Raft S} {spawns : List Spawn}
      → r.shutdown || is_leader r ≡ false
      → become_candidate P r ≡ (r', spawns)
      → Campaigned r r'
  unfolding become_candidate start_election persist
  become_candidate-Campaigned P r {r'} {spawns} live e =
      elim (Option-cases (persist P (start_election r))) [
        | inl failed ↦ ground arith
        | inr (s, saved) ↦ ground (arith, campaign-Led s, campaign_alone s)
      ]

  -- What a reply makes of a candidate.
  abbrev pub Counted : ℕ → RequestVoteResponse → Raft S → Raft S → Type 0
  Counted t a r r' =
      (r'.state ≡ follower)
      ⊎ ((r'.state ≡ r.state)
          × (r'.current_term ≡ r.current_term)
          × ((r'.votes_received ≡ r.votes_received)
              ⊎ ((r'.votes_received ≡ r.votes_received + 1)
                  × (r.state ≡ candidate)
                  × (a.vote_granted ≡ true)
                  × (r.current_term ≡ t))))

  pub count_vote-Counted :
      (t : ℕ) (a : RequestVoteResponse) (r : Raft S) {r' : Raft S} {won : Bool}
      → count_vote t a r ≡ (r', won)
      → (r'.server_id ≡ r.server_id) × (length r'.peers ≡ length r.peers) × Counted t a r r'
  unfolding count_vote step_down
  count_vote-Counted t a r e = ground arith
