-- ===== src/Raft/Replicas/Runs.antt =====
-- An election of three nodes and a command that its leader replicates (raft/election.go,
-- raft/replication.go), step by step.
use distrib_kv.Prelude.{refl, [], ◌∷◌, arith, nat_key, lookup}
use distrib_kv.Raft.Types.{AppendEntriesRequest}
use distrib_kv.Raft.Persister.{MemoryPersister, memory, memory_save}
use distrib_kv.Raft.Node.{
  Raft, ids, is_leader, persist, adopt_term, get_last_log_info, log_at, reset_election_timer,
  stop_election_timer,
}
use distrib_kv.Raft.Election.{
  handle_request_vote, grant_vote, can_vote, log_ok, has_majority, count_vote, become_leader,
  become_candidate, start_election, campaign, vote_request, last_index, reset_peers,
}
use distrib_kv.Raft.Replication.{replicate_command, update_commit_index, scan_commit, count_match}
use distrib_kv.Raft.Replication.Matching.{LogMatching}
use distrib_kv.Raft.Sender.{plan_append, is_stale, build_request, collect, prev_of}
use distrib_kv.Raft.Lifecycle.{fresh, new_peers}
use distrib_kv.Raft.Events.{submit, append_rpc, step}
use distrib_kv.Raft.Cluster.{
  update, opened, is_asked, answer, campaigns, asks, answers, counts, wins,
}
use distrib_kv.Raft.Cluster.Runs.{request, vote, s5, three, three-Initial}
use distrib_kv.Raft.Replicas.{
  Network, Moves, still, after, election, event, sends, delivers, is_local, is_election,
}
use distrib_kv.Raft.Replicas.Matching.{Fresh, logs_match}

abbrev before : Network MemoryPersister
before = record { system = three; sent = [] }

abbrev led : Network MemoryPersister
led = record { system = s5; sent = [] }

-- The leader, with a command in its log.
abbrev pub author : Raft MemoryPersister
author = step memory (submit (7 ∷ [])) (s5.nodes 0)

abbrev written : Network MemoryPersister
written = record led { system = record s5 { nodes = update s5.nodes 0 author } }

abbrev pub shipped : AppendEntriesRequest
shipped = record {
  term = 1;
  leader_id = 0;
  prev_log_index = 0;
  prev_log_term = 0;
  entries = record { index = 1; term = 1; command = 7 ∷ [] } ∷ [];
  leader_commit = 0;
}

abbrev posted : Network MemoryPersister
posted = record written { sent = shipped ∷ [] }

abbrev copied : Network MemoryPersister
copied = record posted {
  system = record posted.system {
    nodes = update posted.system.nodes 1 (step memory (append_rpc shipped) (posted.system.nodes 1));
  };
}

before-Fresh : Fresh memory 3 before
unfolding fresh
before-Fresh = record { elections = three-Initial; log = λ i. refl; base = λ i. refl; sent = refl }

replicated : Moves memory 3 before copied
unfolding fresh new_peers is_leader become_candidate start_election campaign persist memory_save
    reset_election_timer ids opened is_asked vote_request get_last_log_info is_local is_election
    handle_request_vote grant_vote can_vote log_ok adopt_term answer count_vote has_majority
    become_leader step replicate_command update_commit_index scan_commit count_match plan_append
    is_stale build_request collect prev_of log_at lookup last_index reset_peers stop_election_timer
replicated =
    after
      (after
        (after
          (after
            (after
              (after
                (after (after still (election (campaigns 0 (omega arith) refl refl) refl))
                  (election (asks 0 1 1 refl) refl))
                (election (answers 0 1 1 request refl refl) refl))
              (election (counts 0 1 1 vote (omega arith) refl refl) refl))
            (election (wins 0 1 1 vote refl refl) refl))
          (event 0 (submit (7 ∷ [])) refl))
        (sends 0 1 1 0 refl))
      (delivers 1 0 shipped refl (λ h. cc))

logs_match_example :
    LogMatching
      (log_at (copied.system.nodes 0).log_base (copied.system.nodes 0).log)
      (log_at (copied.system.nodes 1).log_base (copied.system.nodes 1).log)
logs_match_example = logs_match memory 3 0 1 refl before-Fresh replicated
