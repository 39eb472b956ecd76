-- ===== src/Raft/Cluster/Runs.antt =====
-- An election of three nodes (raft/election.go), step by step.
use distrib_kv.Prelude.{
  ℕ, zero, suc, ◌+◌, ◌≡◌, refl, [], ◌∷◌, true, arith, length, pos, Assoc, String,
}
use distrib_kv.Raft.Types.{RequestVoteRequest, RequestVoteResponse}
use distrib_kv.Raft.Persister.{MemoryPersister, memory, new_memory_persister, memory_save}
use distrib_kv.Raft.Node.{
  Raft, request_vote, ids, is_leader, persist, adopt_term, get_last_log_info, reset_election_timer,
}
use distrib_kv.Raft.Election.{
  handle_request_vote, grant_vote, can_vote, log_ok, has_majority, count_vote, become_leader,
  become_candidate, start_election, campaign, vote_request,
}
use distrib_kv.Raft.Lifecycle.{Config, fresh, new_peers}
use distrib_kv.Raft.Cluster.{
  System, idle, asked, answered, counted, update, set_call, set_row, opened, answer, is_asked,
  Reach, here, next, campaigns, asks, answers, counts, wins,
}
use distrib_kv.Raft.Cluster.Safety.{Initial, one_leader_per_term}

abbrev others : ℕ → Assoc ℕ String
others zero = (1, "host:1") ∷ (2, "host:2") ∷ []
others (suc zero) = (0, "host:0") ∷ (2, "host:2") ∷ []
others (suc (suc i)) = (0, "host:0") ∷ (1, "host:1") ∷ []

abbrev settings : ℕ → Config
settings i = record {
  server_id = pos i;
  own_addr = "host";
  peers = others i;
  election_timeout_min = pos 300;
  election_timeout_max = pos 500;
  heartbeat_interval = pos 150;
  snapshot_threshold = 0;
}

abbrev pub three : System MemoryPersister
three = record { nodes = λ i. fresh (settings i) new_memory_persister; calls = λ c t p. idle }

three-size : (i : ℕ) → length (three.nodes i).peers + 1 ≡ 3
unfolding fresh new_peers
three-size zero = refl
three-size (suc zero) = refl
three-size (suc (suc i)) = refl

pub three-Initial : Initial memory 3 three
unfolding fresh
three-Initial = record {
  id = λ i. refl;
  size = three-size;
  role = λ i. refl;
  quiet = λ c t p. refl;
}

abbrev pub request : RequestVoteRequest
request = record { term = 1; candidate_id = 0; last_log_index = 0; last_log_term = 0 }

abbrev pub vote : RequestVoteResponse
vote = record { term = 1; vote_granted = true }

abbrev pub campaigner : Raft MemoryPersister
campaigner = (become_candidate memory (three.nodes 0)).0

abbrev pub voter : Raft MemoryPersister
voter = (handle_request_vote memory request (three.nodes 1)).1

abbrev pub winner : Raft MemoryPersister
winner = (count_vote 1 vote campaigner).0

abbrev pub s1 : System MemoryPersister
s1 = record {
  nodes = update three.nodes 0 campaigner;
  calls = set_row 0 1 (opened 0 (request_vote 1 1 ∷ request_vote 2 1 ∷ [])) three.calls;
}

abbrev pub s2 : System MemoryPersister
s2 = record s1 { calls = set_call 0 1 1 (asked request) s1.calls }

abbrev pub s3 : System MemoryPersister
s3 = record { nodes = update s2.nodes 1 voter; calls = set_call 0 1 1 (answered vote) s2.calls }

abbrev pub s4 : System MemoryPersister
s4 = record {
  nodes = update s3.nodes 0 winner;
  calls = set_call 0 1 1 (counted vote true) s3.calls;
}

abbrev pub s5 : System MemoryPersister
s5 = record s4 { nodes = update s4.nodes 0 (become_leader winner).0 }

elected : Reach memory 3 three s5
unfolding fresh new_peers is_leader become_candidate start_election campaign persist memory_save
    reset_election_timer ids opened is_asked vote_request get_last_log_info handle_request_vote
    grant_vote can_vote log_ok adopt_term answer count_vote has_majority
elected =
    next
      (next
        (next (next (next here (campaigns 0 (omega arith) refl refl)) (asks 0 1 1 refl))
          (answers 0 1 1 request refl refl))
        (counts 0 1 1 vote (omega arith) refl refl))
      (wins 0 1 1 vote refl refl)

one_leader_per_term_example : ◌≡◌ {A = ℕ} 0 0
unfolding fresh new_peers is_leader become_candidate start_election campaign persist memory_save
    reset_election_timer ids count_vote has_majority become_leader
one_leader_per_term_example =
    one_leader_per_term memory 3 0 0 refl three-Initial elected refl refl refl
