-- ===== src/Raft/Election/Quorum.antt =====
-- The vote count of raft/election.go: which counts elect a leader, and what may happen between the
-- count and `becomeLeader`.

use distrib_kv.Prelude.{ℕ, ◌+◌, ◌*◌, ◌%◌, ◌≤◌, ◌≡◌, ◌↔◌, true, false, arith, length}
use distrib_kv.Raft.Types.{candidate, RequestVoteResponse}
use distrib_kv.Raft.Node.{Raft}
use distrib_kv.Raft.Election.{has_majority, count_vote}

module _ {S : Type 0} where
  -- This node and its peers.
  abbrev pub cluster_size : Raft S → ℕ
  cluster_size r = length r.peers + 1

  pub has_majority_iff :
      (r : Raft S) → (has_majority r ≡ true) ↔ (cluster_size r ≤ 2 * r.votes_received)
  unfolding has_majority
  has_majority_iff r = ground arith

  -- In a cluster of odd size, of two vote counts that do not exceed the size together, at most one
  -- is a majority.
  pub majority_exclusive :
      (r s : Raft S)
      → cluster_size s ≡ cluster_size r
      → cluster_size r % 2 ≡ 1
      → r.votes_received + s.votes_received ≤ cluster_size r
      → has_majority r ≡ true
      → has_majority s ≡ false
  unfolding has_majority
  majority_exclusive r s same odd disjoint won = ground arith

  -- Two candidates in clusters of the same size, each with half of the votes, both have a majority
  -- by the code's test.
  pub even_split_elects_both :
      (r s : Raft S)
      → cluster_size s ≡ cluster_size r
      → r.votes_received ≡ s.votes_received
      → r.votes_received + s.votes_received ≡ cluster_size r
      → (has_majority r ≡ true) × (has_majority s ≡ true)
  unfolding has_majority
  even_split_elects_both r s same half split = ground arith

  -- A reply makes its node go on to leadership only if the node is still a candidate in the term of
  -- the election, the reply grants the vote, its term is not above that term, and with it at least
  -- half of the cluster has voted for the node; then the reply changes nothing but the count.
  pub count_vote_wins :
      (term : ℕ) (resp : RequestVoteResponse) (r : Raft S)
      → (count_vote term resp r).1 ≡ true
      → (r.current_term ≡ term)
        × (r.state ≡ candidate)
        × (resp.vote_granted ≡ true)
        × (resp.term ≤ term)
        × ((count_vote term resp r).0 ≡ record r { votes_received = r.votes_received + 1 })
        × (cluster_size r ≤ 2 * (r.votes_received + 1))
  unfolding count_vote has_majority
  count_vote_wins term resp r h = ground arith
