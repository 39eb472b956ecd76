-- ===== src/Raft/Consensus/Runs.antt =====
-- Three nodes commit a command (raft/election.go, raft/replication.go), step by step.
use distrib_kv.Prelude.{ℕ, zero, suc, ◌≡◌, refl, [], ◌∷◌, true, arith, nat_key, lookup, insert}
use distrib_kv.Raft.Types.{AppendEntriesRequest, AppendEntriesResponse}
use distrib_kv.Raft.Persister.{MemoryPersister, memory, memory_save}
use distrib_kv.Raft.Node.{
  Raft, ids, is_leader, persist, adopt_term, get_last_log_info, log_at, signal_commit,
  reset_election_timer, stop_election_timer,
}
use distrib_kv.Raft.Election.{
  handle_request_vote, grant_vote, can_vote, log_ok, has_majority, count_vote, become_leader,
  become_candidate, start_election, campaign, vote_request, last_index, reset_peers,
}
use distrib_kv.Raft.Replication.{
  handle_append_entries, append_checked, finish_append, merge_entries, merge_entry, prev_ok,
  advance_commit, record_leader, replicate_command, update_commit_index, scan_commit, count_match,
}
use distrib_kv.Raft.Sender.{
  plan_append, is_stale, build_request, collect, prev_of, on_append_reply, ack_peer,
}
use distrib_kv.Raft.Lifecycle.{fresh, new_peers}
use distrib_kv.Raft.Events.{submit, step}
use distrib_kv.Raft.Cluster.{
  update, opened, is_asked, answer, campaigns, asks, answers, counts, wins,
}
use distrib_kv.Raft.Cluster.Runs.{request, vote, s5, three, three-Initial}
use distrib_kv.Raft.Replicas.{is_election}
use distrib_kv.Raft.Replicas.Runs.{author, shipped}
use distrib_kv.Raft.Consensus.{
  Reply, Exchange, Turns, begun, turned, elects, acts, ships, merges, hears, is_own, note,
}
use distrib_kv.Raft.Consensus.Members.{Company}
use distrib_kv.Raft.Consensus.Agreement.{Start, committed_agree, leader_has_committed}

abbrev at_first : Exchange MemoryPersister
at_first = record { system = three; sent = []; replies = [] }

abbrev copier : Raft MemoryPersister
copier = (handle_append_entries memory shipped (s5.nodes 1)).1

abbrev success : AppendEntriesResponse
success = record { term = 1; success = true }

abbrev copied_reply : Reply
copied_reply = record { from = 1; request = shipped; response = success }

abbrev committer : Raft MemoryPersister
committer = (on_append_reply 1 shipped success author).0

-- The leader has committed the command; the next request tells node 1.
abbrev s6 : Exchange MemoryPersister
s6 = record {
  system = record s5 { nodes = update (update (update s5.nodes 0 author) 1 copier) 0 committer };
  sent = shipped ∷ [];
  replies = copied_reply ∷ [];
}

abbrev news : AppendEntriesRequest
news = record {
  term = 1;
  leader_id = 0;
  prev_log_index = 1;
  prev_log_term = 1;
  entries = [];
  leader_commit = 1;
}

abbrev s7 : Exchange MemoryPersister
s7 = record {
  system = record s6.system {
    nodes = update s6.system.nodes 1 (handle_append_entries memory news (s6.system.nodes 1)).1;
  };
  sent = news ∷ shipped ∷ [];
  replies = record { from = 1; request = news; response = success } ∷ copied_reply ∷ [];
}

three-Company : (i : ℕ) → Company 3 i (three.nodes i).peers
unfolding fresh new_peers
three-Company zero = ((λ h. cc, (λ h. cc, tt)), (omega arith, (λ h. cc, tt), (omega arith, tt, tt)))
three-Company (suc zero) =
    ((λ h. cc, (λ h. cc, tt)), (omega arith, (λ h. cc, tt), (omega arith, tt, tt)))
three-Company (suc (suc i)) =
    ((λ h. cc, (λ h. cc, tt)), (omega arith, (λ h. cc, tt), (omega arith, tt, tt)))

at_first-Start : Start memory 3 at_first
unfolding fresh
at_first-Start = record {
  elections = three-Initial;
  log = λ i. refl;
  base = λ i. refl;
  commit = λ i. refl;
  peers = three-Company;
  sent = refl;
  replies = refl;
}

committed : Turns memory 3 at_first s7
unfolding fresh new_peers is_leader become_candidate start_election campaign persist memory_save
    reset_election_timer ids opened is_asked vote_request get_last_log_info is_own is_election
    handle_request_vote grant_vote can_vote log_ok adopt_term answer count_vote has_majority
    become_leader step replicate_command update_commit_index scan_commit count_match plan_append
    is_stale build_request collect prev_of log_at lookup insert last_index reset_peers
    stop_election_timer handle_append_entries append_checked finish_append merge_entries merge_entry
    prev_ok advance_commit record_leader on_append_reply ack_peer note signal_commit
committed =
    turned
      (turned
        (turned
          (turned
            (turned
              (turned
                (turned
                  (turned
                    (turned
                      (turned (turned begun (elects (campaigns 0 (omega arith) refl refl) refl))
                        (elects (asks 0 1 1 refl) refl))
                      (elects (answers 0 1 1 request refl refl) refl))
                    (elects (counts 0 1 1 vote (omega arith) refl refl) refl))
                  (elects (wins 0 1 1 vote refl refl) refl))
                (acts 0 (submit (7 ∷ [])) refl))
              (ships 0 1 1 0 (omega arith) refl))
            (merges 1 0 shipped refl (λ h. cc)))
          (hears 0 copied_reply refl))
        (ships 0 1 1 1 (omega arith) refl))
      (merges 1 0 news refl (λ h. cc))

committed_agree_example :
    log_at (s7.system.nodes 0).log_base (s7.system.nodes 0).log 1
    ≡ log_at (s7.system.nodes 1).log_base (s7.system.nodes 1).log 1
unfolding fresh new_peers is_leader become_candidate start_election campaign persist memory_save
    reset_election_timer ids handle_request_vote grant_vote can_vote log_ok adopt_term count_vote
    has_majority become_leader step replicate_command update_commit_index scan_commit count_match
    is_stale log_at lookup insert last_index reset_peers stop_election_timer get_last_log_info
    handle_append_entries append_checked finish_append merge_entries merge_entry prev_ok
    advance_commit record_leader on_append_reply ack_peer signal_commit
committed_agree_example =
    committed_agree memory 3 0 1 1 refl (omega arith) at_first-Start committed (omega arith)
      (omega arith)

leader_has_committed_example :
    log_at (s7.system.nodes 1).log_base (s7.system.nodes 1).log 1
    ≡ log_at (s7.system.nodes 0).log_base (s7.system.nodes 0).log 1
unfolding fresh new_peers is_leader become_candidate start_election campaign persist memory_save
    reset_election_timer ids handle_request_vote grant_vote can_vote log_ok adopt_term count_vote
    has_majority become_leader step replicate_command update_commit_index scan_commit count_match
    is_stale log_at lookup insert last_index reset_peers stop_election_timer get_last_log_info
    handle_append_entries append_checked finish_append merge_entries merge_entry prev_ok
    advance_commit record_leader on_append_reply ack_peer signal_commit
leader_has_committed_example =
    leader_has_committed memory 3 1 0 1 refl (omega arith) at_first-Start committed (omega arith)
      refl (omega arith)
