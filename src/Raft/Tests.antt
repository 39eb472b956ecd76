-- ===== src/Raft/Tests.antt =====
-- Runs of the engine on concrete nodes over `MemoryPersister`.
use distrib_kv.Prelude.{
  get_elem?, ℕ, zero, suc, ◌+◌, ◌≤◌, ◌<◌, ◌≡◌, refl, ◌⊎◌, [], ◌∷◌, none, some, true, false, arith,
}
use distrib_kv.Raft.Types.{
  LogEntry, follower, leader, RequestVoteRequest, RequestVoteResponse, AppendEntriesRequest,
}
use distrib_kv.Raft.Persister.{MemoryPersister, memory, new_memory_persister, memory_save}
use distrib_kv.Raft.Node.{
  Raft, Peer, armed, log_at, is_leader, persist, adopt_term, get_last_log_info,
  reset_election_timer, signal_commit,
}
use distrib_kv.Raft.Election.{handle_request_vote, grant_vote, can_vote, log_ok}
use distrib_kv.Raft.Replication.{
  handle_append_entries, append_checked, finish_append, advance_commit, prev_ok, record_leader,
  merge_entries, merge_entry, update_commit_index, count_match,
}
use distrib_kv.Raft.Sender.{build_request, collect, prev_of}
use distrib_kv.Raft.Events.{run, step, vote_rpc}
use distrib_kv.Raft.Replication.Matching.{
  Describes, handle_append_entries_agrees, LogMatching, View,
}
use distrib_kv.Raft.Sender.Requests.{accepted_request_agrees}
use distrib_kv.Raft.Replication.Commit.{
  HeldByMajority, Advanced, update_commit_index_safe, update_commit_index_complete,
}
use distrib_kv.Raft.Election.Votes.{vote_once, handle_request_vote-Granted, Granted}

abbrev pub e1 : LogEntry
e1 = record { index = 1; term = 1; command = 7 ∷ [] }

abbrev pub e2 : LogEntry
e2 = record { index = 2; term = 1; command = 8 ∷ [] }

abbrev pub e3 : LogEntry
e3 = record { index = 3; term = 2; command = [] }

abbrev pub peer : ℕ → ℕ → Peer
peer next match = record {
  address = "host:1";
  conn = false;
  next_index = next;
  match_index = match;
}

-- A follower of term 1 with two peers.
abbrev pub node : Raft MemoryPersister
node = record {
  server_id = 1;
  peers = (2, peer 3 0) ∷ (3, peer 3 0) ∷ [];
  current_term = 1;
  voted_for = none;
  log = e1 ∷ e2 ∷ [];
  log_base = 0;
  snapshot = [];
  snapshot_index = 0;
  snapshot_term = 0;
  state = follower;
  commit_index = 1;
  last_applied = 0;
  leader_id = none;
  election_timer = armed;
  votes_received = 0;
  apply_ch = [];
  commit_ch = false;
  persister = new_memory_persister;
  snapshot_threshold = 0;
  started = true;
  shutdown = false;
}

-- The leader of term 2, whose peers acknowledged all three entries and one entry.
abbrev pub leading : Raft MemoryPersister
leading = record node {
  state = leader;
  current_term = 2;
  log = e1 ∷ e2 ∷ e3 ∷ [];
  peers = (2, peer 4 3) ∷ (3, peer 2 1) ∷ [];
  leader_id = some 1;
}

-- A follower that has only the first entry.
abbrev pub behind : Raft MemoryPersister
behind = record node { server_id = 3; log = e1 ∷ [] }

-- The same leader, once the other peer has acknowledged the last entry as well.
abbrev pub three_hold : Raft MemoryPersister
three_hold = record leading { peers = (2, peer 4 3) ∷ (3, peer 4 3) ∷ [] }

-- Nothing stands above the last entry.
none_above : (m : ℕ) → 3 < m → m ≤ 0 + 3 → ¬ HeldByMajority m three_hold
none_above m h k w = omega arith

-- A log that holds a part of another one matches it.
matches_part :
    (f g : View) → ((i : ℕ) (e : LogEntry) → f i ≡ some e → g i ≡ some e) → LogMatching f g
matches_part f g part = record {
  at = λ i j a b a' b' fi gi t le fj gj. ground (arith, part j a' fj, fj, gj);
}

behind_part :
    (i : ℕ) (e : LogEntry) → log_at 0 (e1 ∷ []) i ≡ some e → log_at 0 (e1 ∷ e2 ∷ e3 ∷ []) i ≡ some e
unfolding log_at
behind_part zero e h = ground arith
behind_part (suc zero) e h = h
behind_part (suc (suc i)) e h = ground arith

abbrev pub catch_up : AppendEntriesRequest
catch_up = record {
  term = 2;
  leader_id = 1;
  prev_log_index = 1;
  prev_log_term = 1;
  entries = e2 ∷ e3 ∷ [];
  leader_commit = 1;
}

accepted_request_agrees_example :
    log_at 0 (handle_append_entries memory catch_up behind).1.log 3 ≡ some e3
unfolding handle_append_entries append_checked finish_append advance_commit prev_ok record_leader
    merge_entries merge_entry reset_election_timer adopt_term persist memory_save log_at
    signal_commit is_leader build_request collect prev_of
accepted_request_agrees_example =
    accepted_request_agrees memory 2 1 2 leading behind {req = catch_up}
      {a = record { term = 2; success = true }}
      {f' = (handle_append_entries memory catch_up behind).1} (refl, (refl, (refl, tt))) (refl, tt)
      (matches_part (log_at 0 (e1 ∷ [])) (log_at 0 (e1 ∷ e2 ∷ e3 ∷ [])) behind_part) (omega arith)
      refl (omega arith) refl refl 3 e3 (omega arith) (omega arith) refl

catch_up_entries :
    (k : ℕ) (e : LogEntry)
    → get_elem? (e2 ∷ e3 ∷ []) k ≡ some e
    → log_at 0 (e1 ∷ e2 ∷ e3 ∷ []) (1 + 1 + k) ≡ some e
unfolding log_at
catch_up_entries zero e h = h
catch_up_entries (suc zero) e h = h
catch_up_entries (suc (suc k)) e h = absurd (ground arith)

catch_up-Describes : Describes (log_at 0 (e1 ∷ e2 ∷ e3 ∷ [])) catch_up
unfolding log_at
catch_up-Describes = record {
  consecutive = (refl, (refl, tt));
  entries = catch_up_entries;
  prev = λ pos. (e1, refl, refl);
}

handle_append_entries_agrees_example :
    log_at 0 (handle_append_entries memory catch_up behind).1.log 3 ≡ some e3
unfolding handle_append_entries append_checked finish_append advance_commit prev_ok record_leader
    merge_entries merge_entry reset_election_timer adopt_term persist memory_save log_at
    signal_commit is_leader build_request collect prev_of
handle_append_entries_agrees_example =
    handle_append_entries_agrees memory catch_up behind {a = record { term = 2; success = true }}
      {r' = (handle_append_entries memory catch_up behind).1} refl refl
      {g = log_at 0 (e1 ∷ e2 ∷ e3 ∷ [])} catch_up-Describes
      (matches_part (log_at 0 (e1 ∷ [])) (log_at 0 (e1 ∷ e2 ∷ e3 ∷ [])) behind_part) (refl, tt)
      (omega arith) 3 e3 (omega arith) (omega arith) refl

update_commit_index_safe_example :
    (update_commit_index leading ≡ leading)
    ⊎ ((leading.state ≡ leader) × Advanced leading (update_commit_index leading))
update_commit_index_safe_example = update_commit_index_safe leading

update_commit_index_complete_example : (update_commit_index three_hold).commit_index ≡ 3
unfolding log_at count_match
update_commit_index_complete_example =
    update_commit_index_complete three_hold 3 e3 refl (omega arith) refl refl (omega arith)
      none_above

abbrev pub ask : ℕ → RequestVoteRequest
ask c = record { term = 2; candidate_id = c; last_log_index = 2; last_log_term = 1 }

abbrev pub yes : RequestVoteResponse
yes = record { term = 2; vote_granted = true }

abbrev pub voted : Raft MemoryPersister
voted = (handle_request_vote memory (ask 2) node).1

handle_request_vote-Granted_example : Granted (ask 2) node voted yes
unfolding handle_request_vote grant_vote persist can_vote log_ok adopt_term memory_save
    get_last_log_info reset_election_timer
handle_request_vote-Granted_example =
    handle_request_vote-Granted memory (ask 2) node {a = yes} {r' = voted} refl refl

-- The same candidate asks again, after a message in between.
vote_once_example : (ask 2).candidate_id ≡ (ask 2).candidate_id
unfolding handle_request_vote grant_vote persist can_vote log_ok adopt_term memory_save
    get_last_log_info reset_election_timer run step
vote_once_example =
    vote_once memory (vote_rpc (ask 3) ∷ []) (ask 2) (ask 2) node {a = yes} {a' = yes} {s = voted}
      {s' = (handle_request_vote memory (ask 2) (run memory (vote_rpc (ask 3) ∷ []) voted)).1} refl
      refl refl refl refl
