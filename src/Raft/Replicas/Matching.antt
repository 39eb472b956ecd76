-- ===== src/Raft/Replicas/Matching.antt =====
-- Log matching in a cluster (raft/election.go, raft/replication.go).
use distrib_kv.Prelude.{
  ℕ, ◌%◌, ◌≤◌, ◌≡◌, refl, sym, ap, ◌∙◌, ◌⊎◌, inl, inr, List, [], ◌∷◌, none, some, true, Bool-cases,
  Option-cases, arith, get_elem?, max, lookup, nat_key,
}
use distrib_kv.Raft.Types.{AppendEntriesRequest, leader}
use distrib_kv.Raft.Persister.{Persister}
use distrib_kv.Raft.Node.{Raft, is_leader, log_at}
use distrib_kv.Raft.Sender.{send, plan_append, is_stale, build_request}
use distrib_kv.Raft.Sender.Requests.{build_request-Describes}
use distrib_kv.Raft.Replication.Matching.{LogMatching}
use distrib_kv.Raft.Log.{log_at_bounds}
use distrib_kv.Raft.Events.{
  Event, elect, lead, begin, halt, vote_reply, vote_rpc, append_rpc, install_rpc, append_reply,
  install_reply, submit, compact, apply, step,
}
use distrib_kv.Raft.Cluster.{update, is_calm}
use distrib_kv.Raft.Cluster.Invariant.{Inv}
use distrib_kv.Raft.Cluster.Steps.{other-Inv}
use distrib_kv.Raft.Cluster.Safety.{Initial, Initial-Inv, Step-Inv}
use distrib_kv.Raft.Replicas.{
  is_local, Network, Move, election, event, sends, delivers, Moves, still, after,
}
use distrib_kv.Raft.Replicas.Handlers.{
  Quiet, Quiet-Still, on_append_reply-Quiet, on_install_reply-Quiet, apply_pending-Still,
  start-Still, stop-Still, Submitted, replicate_command_cases,
}
use distrib_kv.Raft.Replicas.Terms.{Terms, view, Rooted-LogMatching}
use distrib_kv.Raft.Replicas.Invariant.{Logs, Replica-Quiet, Replica-change, request_change}
use distrib_kv.Raft.Replicas.Growing.{Submitted-change}
use distrib_kv.Raft.Replicas.Merging.{handle_append_entries_cases, Replica-Delivered}
use distrib_kv.Raft.Replicas.Elections.{election-Logs}

module _ {S : Type 0} (P : Persister S) where
  local_cases :
      (e : Event) (r : Raft S) → is_local e ≡ true → Quiet r (step P e r) ⊎ Submitted r (step P e r)
  unfolding is_local step
  local_cases elect r h = cc
  local_cases lead r h = cc
  local_cases begin r h = inl (Quiet-Still (start-Still r))
  local_cases halt r h = inl (Quiet-Still (stop-Still r))
  local_cases (vote_reply term resp) r h = cc
  local_cases (vote_rpc req) r h = cc
  local_cases (append_rpc req) r h = cc
  local_cases (install_rpc req) r h = cc
  local_cases (append_reply peer req resp) r h = inl (on_append_reply-Quiet peer req resp r)
  local_cases (install_reply peer req resp) r h = inl (on_install_reply-Quiet peer req resp r)
  local_cases (submit cmd) r h = replicate_command_cases P cmd r
  local_cases (compact index d) r h = cc
  local_cases (apply room) r h = inl (Quiet-Still (apply_pending-Still room r))

  local_calm : (e : Event) → is_local e ≡ true → is_calm e ≡ true
  unfolding is_local is_calm
  local_calm elect h = cc
  local_calm lead h = cc
  local_calm begin h = refl
  local_calm halt h = refl
  local_calm (vote_reply term resp) h = cc
  local_calm (vote_rpc req) h = cc
  local_calm (append_rpc req) h = cc
  local_calm (install_rpc req) h = cc
  local_calm (append_reply peer req resp) h = refl
  local_calm (install_reply peer req resp) h = refl
  local_calm (submit cmd) h = refl
  local_calm (compact index d) h = cc
  local_calm (apply room) h = refl

  -- What a leader sends is a part of its log.
  pub planned :
      (peer term commit : ℕ) (r : Raft S) {req : AppendEntriesRequest}
      → plan_append peer term commit r ≡ send req
      → (r.state ≡ leader)
        × (r.current_term ≡ term)
        × ((next : ℕ) × (1 ≤ next) × (build_request term commit r next ≡ send req))
  unfolding plan_append is_stale is_leader
  planned peer term commit r h = elim (Option-cases (lookup peer r.peers)) [
    | inl e ↦ absurd (ground arith)
    | inr (p, e) ↦ elim (Bool-cases (is_stale term r)) [
      | inl stale ↦ absurd (ground arith)
      | inr fresh ↦ (ground arith, ground arith, (max p.next_index 1, omega arith, ground arith))
    ]
  ]

  pub built :
      (term commit : ℕ) (r : Raft S) (next : ℕ) {req : AppendEntriesRequest}
      → build_request term commit r next ≡ send req
      → (req.leader_id ≡ r.server_id) × (req.term ≡ term)
  unfolding build_request
  built term commit r next h = ground arith

  module _ (n : ℕ) where
    -- What holds of every state of a cluster.
    record Sound (s : Network S) : Type 0 where
      elections : Inv n s.system.nodes s.system.calls
      terms : Terms
      logs : Logs n terms s.system.nodes s.system.calls s.sent

    grown-Sound :
        (s : Network S)
        → Inv n s.system.nodes s.system.calls
        → ((g : Terms) × Logs n g s.system.nodes s.system.calls s.sent)
        → Sound s
    grown-Sound s inv (g, v) = record { elections = inv; terms = g; logs = v }

    sends-Logs :
        (s : Network S) (i peer term commit : ℕ) (req : AppendEntriesRequest)
        → plan_append peer term commit (s.system.nodes i) ≡ send req
        → (w : Sound s) → Logs n w.terms s.system.nodes s.system.calls (req ∷ s.sent)
    sends-Logs s i peer term commit req h w =
        let r = s.system.nodes i in
        let (leads, current, (next, lo, asked)) = planned peer term commit r h in
        let (id, same) = built term commit r next asked in
        let v = w.logs.replicas i in
        let now : r.current_term ≡ req.term = current ∙ sym same in
        let won : w.terms.won req.term ≡ some i = rw now at (v.leads leads) in
        let log : r.log ≡ w.terms.log req.term = elim (v.holds req.term won) [
          | inl past ↦ absurd (omega arith)
          | inr (_, _, log) ↦ log
        ] in
        let d = (build_request-Describes term commit r next (rw v.base v.consecutive) lo asked).0 in
        request_change n w.terms s.system.nodes s.system.calls s.sent req
          (won ∙ ap some (sym (id ∙ w.elections.id i))) (rw (v.base, log) at d) w.logs

    Move-Sound : {s t : Network S} → n % 2 ≡ 1 → Move P n s t → Sound s → Sound t
    unfolding step is_calm
    Move-Sound {s} odd (election {t} st e) w =
        let inv = Step-Inv P n st w.elections in
        grown-Sound (record s { system = t }) inv
          (election-Logs P n odd w.terms s.sent st e inv w.logs)
    Move-Sound {s} odd (event i e here) w =
        let r = step P e (s.system.nodes i) in
        let inv = other-Inv P n s.system.nodes s.system.calls i e (local_calm e here) w.elections in
        grown-Sound (record s { system = record s.system { nodes = update s.system.nodes i r } })
          inv
          (elim (local_cases e (s.system.nodes i) here) [
            | inl q ↦ (
              w.terms,
              Replica-change n w.terms s.system.nodes s.system.calls s.sent i r w.logs
                  (Replica-Quiet w.terms i (s.system.nodes i) r q (w.logs.replicas i)),
            )
            | inr q ↦ Submitted-change n w.terms s.system.nodes s.system.calls s.sent i r q w.logs
          ])
    Move-Sound {s} odd (sends i peer term commit {req} h) w = record {
      elections = w.elections;
      terms = w.terms;
      logs = sends-Logs s i peer term commit req h w;
    }
    Move-Sound {s} odd (delivers i k req at far) w =
        let r = s.system.nodes i in
        let r' = step P (append_rpc req) r in
        let inv = other-Inv P n s.system.nodes s.system.calls i (append_rpc req) refl w.elections in
        let (won, described) = w.logs.requests k req at in
        grown-Sound (record s { system = record s.system { nodes = update s.system.nodes i r' } })
          inv
          (
            w.terms,
            Replica-change n w.terms s.system.nodes s.system.calls s.sent i r' w.logs
                (elim (handle_append_entries_cases P req r) [
                  | inl q ↦ Replica-Quiet w.terms i r r' q.quiet (w.logs.replicas i)
                  | inr d ↦
                      Replica-Delivered w.terms i req r r' d (w.logs.replicas i) described
                        (w.logs.terms req.term) won far
                ]),
          )

    Moves-Sound : {s t : Network S} → n % 2 ≡ 1 → Moves P n s t → Sound s → Sound t
    Moves-Sound odd still w = w
    Moves-Sound odd (after ms m) w = Move-Sound odd m (Moves-Sound odd ms w)

    -- The nodes start as followers with empty logs, and nothing was sent.
    pub record Fresh (s : Network S) : Type 0 where
      pub elections : Initial P n s.system
      pub log : (i : ℕ) → (s.system.nodes i).log ≡ []
      pub base : (i : ℕ) → (s.system.nodes i).log_base ≡ 0
      pub sent : s.sent ≡ []

    abbrev no_terms : Terms
    no_terms = record { won = λ t. none; log = λ t. [] }

    Fresh-Sound : (s : Network S) → Fresh s → Sound s
    Fresh-Sound s f = record {
      elections = Initial-Inv P n s.system f.elections;
      terms = no_terms;
      logs = record {
        replicas = λ i. record {
          base = f.base i;
          consecutive = rw (f.log i) tt;
          rooted = λ k e h. absurd (
              let h' : view [] k ≡ some e = (rw (f.log i) at h) in
              omega (arith, log_at_bounds 0 [] k e h'));
          leads = λ h. cc (f.elections.role i);
          holds = λ t h. cc;
        };
        terms = λ t k e h. absurd (omega (arith, log_at_bounds 0 [] k e h));
        unwon = λ t h. refl;
        backing = λ t i h. cc;
        requests = λ k req h. absurd (
            let h' : get_elem? (let l : List AppendEntriesRequest = [] in l) k ≡ some req =
              (rw f.sent at h) in
            cc);
      };
    }

    -- A cluster of an odd number of nodes starts as followers with empty logs. The nodes hold
    -- elections, send AppendEntries requests, take commands and apply entries in any interleaving;
    -- requests may be lost, repeated and reordered but do not come back to their sender, replies
    -- may say anything, writes may fail, no node restarts or compacts its log, and a node whose
    -- count has reached the majority becomes the leader before its term changes. Then the logs of
    -- any two nodes match: where both hold an entry of one term at an index, they agree on whatever
    -- both hold up to it.
    pub logs_match :
        {s t : Network S} (i j : ℕ)
        → n % 2 ≡ 1
        → Fresh s
        → Moves P n s t
        → LogMatching
            (log_at (t.system.nodes i).log_base (t.system.nodes i).log)
            (log_at (t.system.nodes j).log_base (t.system.nodes j).log)
    logs_match {s} {t} i j odd fresh moves =
        let w = Moves-Sound odd moves (Fresh-Sound s fresh) in
        let a = w.logs.replicas i in
        let b = w.logs.replicas j in
        rw (a.base, b.base)
          (Rooted-LogMatching w.terms (t.system.nodes i).log (t.system.nodes j).log a.rooted
            b.rooted)
