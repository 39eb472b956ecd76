-- ===== src/Raft/Runs.antt =====
-- Runs of events, requests, commands and elections on concrete nodes.
use distrib_kv.Prelude.{
  ℕ, ◌+◌, ◌≤◌, ◌≡◌, ◌≢◌, refl, ◌⊎◌, inl, inr, List, [], ◌∷◌, some, true, arith, pos, lookup,
  nat_key, ◌*◌,
}
use distrib_kv.Raft.Types.{
  candidate, leader, AppendEntriesRequest, reply, not_leader, persist_failed,
}
use distrib_kv.Raft.Persister.{
  MemoryPersister, memory, memory_save, memory_load, memory_load_snapshot,
}
use distrib_kv.Raft.Node.{
  Raft, Spawn, ids, log_at, is_leader, persist, adopt_term, get_last_log_info, reset_election_timer,
  signal_commit,
}
use distrib_kv.Raft.Election.{
  handle_request_vote, grant_vote, can_vote, log_ok, has_majority, count_vote,
}
use distrib_kv.Raft.Replication.{update_commit_index, replicate_command, scan_commit, count_match}
use distrib_kv.Raft.Sender.{build_request, collect, prev_of, plan_append, is_stale, on_append_reply}
use distrib_kv.Raft.Lifecycle.{
  Config, fresh, new_peers, load_persisted_state, load_snapshot_state, floor_commit,
}
use distrib_kv.Raft.Events.{run, vote_rpc, elect, append_rpc, apply, Event}
use distrib_kv.Raft.Events.Invariant.{Inv, run-Inv}
use distrib_kv.Raft.Events.Progress.{Progress, run-Progress}
use distrib_kv.Raft.Sender.Stall.{replication_stalls}
use distrib_kv.Raft.Replication.Submit.{
  Accepted, replicate_command_accepts, replicate_command_refuses,
}
use distrib_kv.Raft.Election.Votes.{vote_lost_on_restart}
use distrib_kv.Raft.Election.Quorum.{cluster_size, count_vote_wins}
use distrib_kv.Raft.Tests.{e3, peer, node, leading, catch_up, ask, yes, voted}

node-Inv : Inv node
node-Inv = record {
  contiguous = (refl, (refl, tt));
  base_committed = omega arith;
  applied_committed = omega arith;
  snapshot_at = refl;
  queue = omega arith;
}

abbrev pub config : Config
config = record {
  server_id = pos 1;
  own_addr = "host:1";
  peers = (2, "host:2") ∷ (3, "host:3") ∷ [];
  election_timeout_min = pos 300;
  election_timeout_max = pos 500;
  heartbeat_interval = pos 150;
  snapshot_threshold = 0;
}

abbrev story : List Event
story = vote_rpc (ask 2) ∷ append_rpc catch_up ∷ apply 2 ∷ elect ∷ []

run-Inv_example : Inv (run memory story node)
run-Inv_example = run-Inv memory story node (tt, ((refl, (refl, tt)), (tt, (tt, tt)))) node-Inv

run-Progress_example : Progress node (run memory story node)
run-Progress_example = run-Progress memory story node

-- A leader that has compacted the first two entries, with a peer that has just these.
abbrev compacted : Raft MemoryPersister
compacted = record leading {
  log = e3 ∷ [];
  log_base = 2;
  snapshot = 5 ∷ [];
  snapshot_index = 2;
  snapshot_term = 1;
  commit_index = 2;
  last_applied = 2;
  peers = (2, peer 3 2) ∷ (3, peer 3 2) ∷ [];
}

abbrev idle : AppendEntriesRequest
idle = record {
  term = 2;
  leader_id = 1;
  prev_log_index = 0;
  prev_log_term = 0;
  entries = [];
  leader_commit = 2;
}

replication_stalls_example :
    (idle.entries ≡ [])
    × (lookup 2 (on_append_reply 2 idle (record { term = 2; success = true }) compacted).0.peers
        ≡ some (peer 3 2))
unfolding plan_append is_stale is_leader build_request prev_of collect log_at lookup
replication_stalls_example =
    replication_stalls 2 2 2 compacted (peer 3 2) idle (record { term = 2; success = true })
      (omega arith) refl refl refl refl refl (omega arith)

abbrev sole : Raft MemoryPersister
sole = record leading { peers = [] }

abbrev submitted : Raft MemoryPersister
submitted = (replicate_command memory (9 ∷ []) sole).1

replicate_command_accepts_example : Accepted memory (9 ∷ []) sole submitted 4
unfolding replicate_command is_leader persist memory_save update_commit_index scan_commit log_at
    count_match signal_commit ids
replicate_command_accepts_example =
    replicate_command_accepts memory (9 ∷ []) sole {i = 4} {r' = submitted} {spawned = []} refl

abbrev no_spawns : List Spawn
no_spawns = []

abbrev fourth : ℕ
fourth = 4

replicate_command_refuses_example :
    (node ≡ node)
    × (no_spawns ≡ [])
    × (((not_leader ≡ not_leader) × (node.state ≢ leader))
        ⊎ ((not_leader ≡ persist_failed) × (node.state ≡ leader)))
unfolding replicate_command is_leader
replicate_command_refuses_example =
    replicate_command_refuses memory [] node {x = not_leader} {r' = node} {spawned = []} refl

vote_lost_on_restart_example :
    (handle_request_vote memory
      (ask 3)
      (load_persisted_state memory (fresh config voted.persister))).0
    ≡ reply yes
unfolding handle_request_vote grant_vote persist can_vote log_ok adopt_term memory_save memory_load
    memory_load_snapshot get_last_log_info reset_election_timer load_persisted_state
    load_snapshot_state floor_commit fresh new_peers
vote_lost_on_restart_example =
    vote_lost_on_restart memory config (ask 2) (ask 3) node {a = yes} {r' = voted}
      {w = load_persisted_state memory (fresh config voted.persister)} refl refl (inl (omega arith))
      refl (inr (refl, omega arith)) refl

-- Five nodes: one candidate with three votes, and one with two.
abbrev candidate_with : ℕ → Raft MemoryPersister
candidate_with n = record node {
  state = candidate;
  current_term = 2;
  votes_received = n;
  peers = (2, peer 3 0) ∷ (3, peer 3 0) ∷ (4, peer 3 0) ∷ (5, peer 3 0) ∷ [];
}

-- Four nodes, split in halves.
abbrev half : Raft MemoryPersister
half = record (candidate_with 2) { peers = (2, peer 3 0) ∷ (3, peer 3 0) ∷ (4, peer 3 0) ∷ [] }

count_vote_wins_example :
    ((candidate_with 2).current_term ≡ 2)
    × ((candidate_with 2).state ≡ candidate)
    × (yes.vote_granted ≡ true)
    × (yes.term ≤ 2)
    × ((count_vote 2 yes (candidate_with 2)).0 ≡ candidate_with 3)
    × (cluster_size (candidate_with 2) ≤ 2 * (2 + 1))
unfolding count_vote has_majority
count_vote_wins_example = count_vote_wins 2 yes (candidate_with 2) refl
