-- ===== src/Raft/Replicas/Merging.antt =====
-- A node of a cluster that handles a delivered AppendEntries request (raft/replication.go), however its
-- write ends.
use distrib_kv.Prelude.{
  ℕ, ◌+◌, ◌-◌, ◌≤◌, ◌<◌, ◌≡◌, ◌≢◌, sym, ◌∙◌, ◌⊎◌, inl, inr, some, Bool, leb, ltb, true, false,
  Bool-cases, Option-cases, arith, length, get_elem?-some,
}
use distrib_kv.Raft.Types.{AppendEntriesRequest, AppendEntriesResponse, Outcome, reply, fail, panic}
use distrib_kv.Raft.Persister.{Persister}
use distrib_kv.Raft.Node.{
  Raft, is_leader, log_at, reset_election_timer, signal_commit, persist, adopt_term,
}
use distrib_kv.Raft.Log.{Contiguous, log_at-some, log_at_below}
use distrib_kv.Raft.Replication.{
  merge_entries, record_leader, prev_ok, advance_commit, finish_append, append_checked,
  handle_append_entries,
}
use distrib_kv.Raft.Replication.Follower.{prepared, prepared-SameLog}
use distrib_kv.Raft.Replication.Matching.{Describes, LogMatching, merged_of, merged_agrees}
use distrib_kv.Raft.Replicas.Handlers.{Quiet, Still}
use distrib_kv.Raft.Replicas.Terms.{Terms, view, view_within, Rooted, Rooted-LogMatching}
use distrib_kv.Raft.Replicas.Invariant.{Replica}

unfoldable pub is_success : Outcome AppendEntriesResponse → Bool
is_success (reply a) = a.success
is_success (fail e) = false
is_success panic = false

module _ {S : Type 0} where
  -- Rule 3 has passed and rule 4 has run, in the request's term.
  pub record Delivered (req : AppendEntriesRequest) (r r' : Raft S) : Type 0 where
    pub prev : prev_ok req.prev_log_index req.prev_log_term (prepared req r) ≡ true
    pub modified : Bool
    pub merges :
        merge_entries r.log_base r.log (req.prev_log_index + 1) req.entries false
        ≡ some (r'.log, modified)
    pub base : r'.log_base ≡ r.log_base
    pub term : r'.current_term ≡ req.term
    pub role :
        ((r'.state ≡ r.state) × (r'.current_term ≡ r.current_term))
        ⊎ ((is_leader r' ≡ false) × (r.current_term < r'.current_term))

  finish_append-Still :
      (P : Persister S) (req : AppendEntriesRequest) (m : Bool) (r : Raft S)
      → Still r (finish_append P req m r).1
  unfolding finish_append persist advance_commit signal_commit
  finish_append-Still P req true r = ground arith
  finish_append-Still P req false r = ground arith

  prepared-Quiet : (req : AppendEntriesRequest) (r : Raft S) → Quiet r (prepared req r)
  unfolding reset_election_timer record_leader adopt_term is_leader
  prepared-Quiet req r = ground arith

  prepared_term :
      (req : AppendEntriesRequest) (r : Raft S)
      → r.current_term ≤ req.term
      → (prepared req r).current_term ≡ req.term
  unfolding reset_election_timer record_leader adopt_term is_leader
  prepared_term req r h = ground arith

  -- The node has merged nothing, and does not report a success.
  pub record Declined (out : Outcome AppendEntriesResponse) (r r' : Raft S) : Type 0 where
    pub quiet : Quiet r r'
    pub commit : r'.commit_index ≡ r.commit_index
    pub failed : is_success out ≡ false

  pub handle_append_entries_cases :
      (P : Persister S) (req : AppendEntriesRequest) (r : Raft S)
      → Declined (handle_append_entries P req r).0 r (handle_append_entries P req r).1
        ⊎ Delivered req r (handle_append_entries P req r).1
  unfolding handle_append_entries append_checked is_leader is_success reset_election_timer
      record_leader adopt_term
  handle_append_entries_cases P req r = elim (Bool-cases (ltb req.term r.current_term)) [
    | inl stale ↦ inl (ground arith)
    | inr fresh ↦
        let p = prepared req r in
        let q = prepared-Quiet req r in
        let t = prepared_term req r (ground arith) in
        elim (Bool-cases (prev_ok req.prev_log_index req.prev_log_term p)) [
          | inr bad ↦ inl (ground arith)
          | inl good ↦
              elim (Option-cases
                (merge_entries p.log_base p.log (req.prev_log_index + 1) req.entries false)) [
                  | inl gone ↦ inl (ground arith)
                  | inr ((log', m), e) ↦
                      let s = finish_append-Still P req m (record p { log = log' }) in
                      let same = prepared-SameLog req r in
                      inr (record {
                        prev = good;
                        modified = m;
                        merges = ground arith;
                        base = ground arith;
                        term = ground arith;
                        role = ground arith;
                      })
                ]
        ]
  ]

  module _ (g : Terms) (i : ℕ) (req : AppendEntriesRequest) (r r' : Raft S) (d : Delivered req r r')
      (v : Replica g i r) (described : Describes (view (g.log req.term)) req)
      (history : Rooted g (g.log req.term)) where
    abbrev last : ℕ
    last = req.prev_log_index + length req.entries

    -- The log of the request's term reaches the request's last entry.
    pub history_reaches : 0 < last → last ≤ length (g.log req.term)
    history_reaches pos = elim (Bool-cases (ltb 0 (length req.entries))) [
      | inl some_entry ↦
          let (e, at) = get_elem?-some req.entries (length req.entries - 1) (ground arith) in
          ground (arith, view_within (g.log req.term) _ e (described.entries _ e at))
      | inr no_entry ↦
          let (e, at, _) = described.prev (ground arith) in
          ground (arith, view_within (g.log req.term) _ e at)
    ]

    -- Up to the request's last entry, the log is that of the request's term.
    pub follows_history : (m : ℕ) → m ≤ last → view r'.log m ≡ view (g.log req.term) m
    follows_history m le = elim (Bool-cases (ltb 0 m)) [
      | inr at_start ↦
          rw (
            log_at_below 0 r'.log m (ground arith),
            log_at_below 0 (g.log req.term) m (ground arith),
          )
      | inl pos ↦
          let reach = history_reaches (ground arith) in
          let (b, at) = log_at-some 0 (g.log req.term) m (ground arith) (omega arith) in
          let match : LogMatching (log_at r.log_base r.log) (view (g.log req.term)) =
            rw v.base (Rooted-LogMatching g r.log (g.log req.term) v.rooted history) in
          let hit =
            merged_agrees req r d.prev d.merges described match (rw v.base v.consecutive)
              (omega (arith, v.base)) m b (ground (arith, v.base)) le at in
          (rw v.base at hit) ∙ sym at
    ]

    merged_Rooted : Rooted g r'.log
    merged_Rooted k e at m le = elim (Bool-cases (leb k last)) [
      | inl low ↦
          let there = sym (follows_history k (ground arith)) ∙ at in
          follows_history m (ground arith) ∙ history k e there m le
      | inr high ↦
          let (w, q) =
            merged_of req r d.prev d.merges (omega (arith, v.base)) (rw v.base v.consecutive)
              described.consecutive in
          elim (w.beyond k (ground arith)) [
            | inl gone ↦
                absurd
                  (let at' : log_at r.log_base w.merged k ≡ some e = (rw (v.base, ← q) at) in cc)
            | inr kept ↦
                (let same : r'.log ≡ r.log = q ∙ kept in
                  rw same (v.rooted k e (rw same at at) m le))
          ]
    ]

    merged_Contiguous : Contiguous 0 r'.log
    merged_Contiguous =
        let (w, q) =
          merged_of req r d.prev d.merges (omega (arith, v.base)) (rw v.base v.consecutive)
            described.consecutive in
        rw q (let c = w.contiguous in (rw v.base at c))

    -- A node takes entries of a term that another node has won.
    pub Replica-Delivered : g.won req.term ≡ some req.leader_id → req.leader_id ≢ i → Replica g i r'
    unfolding is_leader
    Replica-Delivered won other = record {
      base = d.base ∙ v.base;
      consecutive = merged_Contiguous;
      rooted = merged_Rooted;
      leads = λ h. elim d.role [
        | inl (role, term) ↦ rw term (v.leads (sym role ∙ h))
        | inr (out, later) ↦ absurd (ground arith)
      ];
      holds = λ t w. elim d.role [
        | inr (out, later) ↦ elim (v.holds t w) [
          | inl past ↦ inl (omega arith)
          | inr (now, lead, log) ↦ inl (omega arith)
        ]
        | inl (role, term) ↦ elim (v.holds t w) [
          | inl past ↦ inl (omega arith)
          | inr (now, lead, log) ↦
              let q : t ≡ req.term = sym now ∙ sym term ∙ d.term in
              absurd (other (let w' : g.won req.term ≡ some i = (rw q at w) in cc))
        ]
      ];
    }
