-- ===== src/Raft/Replication/Follower.antt =====
-- What `AppendEntries` (raft/replication.go) does to the log and the commit index of a follower.
use distrib_kv.Prelude.{
  ◌+◌, ◌≤◌, ◌≡◌, sym, ◌∙◌, inl, inr, some, Bool, true, false, ltb, Bool-cases, Option-cases, arith,
  length, min, max,
}
use distrib_kv.Raft.Types.{AppendEntriesRequest, AppendEntriesResponse, reply}
use distrib_kv.Raft.Persister.{Persister}
use distrib_kv.Raft.Node.{Raft, is_leader, reset_election_timer, signal_commit, persist, adopt_term}
use distrib_kv.Raft.Replication.{
  merge_entries, record_leader, prev_ok, advance_commit, finish_append, append_checked,
  handle_append_entries,
}

module _ {S : Type 0} where
  -- The node that rules 3 to 6 run on.
  abbrev pub prepared : AppendEntriesRequest → Raft S → Raft S
  prepared req r = reset_election_timer (record_leader req.leader_id (adopt_term req.term r))

  -- What rules 1 and 2 leave alone.
  pub record SameLog (r r' : Raft S) : Type 0 where
    pub log : r'.log ≡ r.log
    pub log_base : r'.log_base ≡ r.log_base
    pub commit_index : r'.commit_index ≡ r.commit_index
    pub last_applied : r'.last_applied ≡ r.last_applied
    pub persister : r'.persister ≡ r.persister

  pub prepared-SameLog : (req : AppendEntriesRequest) (r : Raft S) → SameLog r (prepared req r)
  unfolding reset_election_timer record_leader adopt_term is_leader
  prepared-SameLog req r = ground arith

  pub persist-some :
      (P : Persister S) (r : Raft S) {r' : Raft S}
      → persist P r ≡ some r'
      → r' ≡ record r { persister = r'.persister }
  unfolding persist
  persist-some P r h = ground arith

  pub record Committed (req : AppendEntriesRequest) (r r' : Raft S) : Type 0 where
    pub log : r'.log ≡ r.log
    pub log_base : r'.log_base ≡ r.log_base
    pub last_applied : r'.last_applied ≡ r.last_applied
    pub commit_index :
        r'.commit_index
        ≡ max r.commit_index (min req.leader_commit (req.prev_log_index + length req.entries))

  finish_append_ok :
      (P : Persister S) (req : AppendEntriesRequest) (m : Bool) (r : Raft S)
      {a : AppendEntriesResponse} {r' : Raft S}
      → finish_append P req m r ≡ (reply a, r')
      → Committed req r r' × (a.success ≡ true)
  unfolding finish_append persist advance_commit signal_commit
  finish_append_ok P req true r h = ground arith
  finish_append_ok P req false r h = ground arith

  -- Where the answer is a success, rule 3 has passed and the merge loop has run.
  pub record Appended (req : AppendEntriesRequest) (r r' : Raft S) : Type 0 where
    pub current : r.current_term ≤ req.term
    pub prev : prev_ok req.prev_log_index req.prev_log_term (prepared req r) ≡ true
    pub modified : Bool
    pub merges :
        merge_entries r.log_base r.log (req.prev_log_index + 1) req.entries false
        ≡ some (r'.log, modified)
    pub log_base : r'.log_base ≡ r.log_base
    pub last_applied : r'.last_applied ≡ r.last_applied
    pub commit_index :
        r'.commit_index
        ≡ max r.commit_index (min req.leader_commit (req.prev_log_index + length req.entries))

  append_checked_ok :
      (P : Persister S) (req : AppendEntriesRequest) (r : Raft S) {a : AppendEntriesResponse}
      {r' : Raft S}
      → append_checked P req r ≡ (reply a, r')
      → a.success ≡ true
      → (prev_ok req.prev_log_index req.prev_log_term r ≡ true)
        × (m : Bool) × (merge_entries r.log_base r.log (req.prev_log_index + 1) req.entries false
            ≡ some (r'.log, m))
        × Committed req (record r { log = r'.log }) r'
  unfolding append_checked
  append_checked_ok P req r {a} {r'} h ok =
      elim (Bool-cases (prev_ok req.prev_log_index req.prev_log_term r)) [
        | inr bad ↦ absurd (ground arith)
        | inl good ↦
            elim (Option-cases
              (merge_entries r.log_base r.log (req.prev_log_index + 1) req.entries false)) [
                | inl gone ↦ absurd (ground arith)
                | inr ((log', m), eq) ↦
                    let ran : finish_append P req m (record r { log = log' }) ≡ (reply a, r') =
                      ground arith in
                    let done = (finish_append_ok P req m (record r { log = log' }) ran).0 in
                    let q : log' ≡ r'.log = sym done.log in (good, m, rw (eq, q), ground arith)
              ]
      ]

  -- The answer of success, inverted.
  pub handle_append_entries_ok :
      (P : Persister S) (req : AppendEntriesRequest) (r : Raft S) {a : AppendEntriesResponse}
      {r' : Raft S}
      → handle_append_entries P req r ≡ (reply a, r')
      → a.success ≡ true
      → Appended req r r'
  unfolding handle_append_entries
  handle_append_entries_ok P req r {a} {r'} h ok = elim (Bool-cases (ltb req.term r.current_term)) [
    | inl stale ↦ absurd (ground arith)
    | inr fresh ↦
        let ran : append_checked P req (prepared req r) ≡ (reply a, r') = ground arith in
        let (good, m, merges, done) = append_checked_ok P req (prepared req r) ran ok in
        let same = prepared-SameLog req r in
        record {
          current = ground arith;
          prev = good;
          modified = m;
          merges = ground (arith, merges, same);
          log_base = done.log_base ∙ same.log_base;
          last_applied = done.last_applied ∙ same.last_applied;
          commit_index = ground (arith, done.commit_index, same.commit_index);
        }
  ]
