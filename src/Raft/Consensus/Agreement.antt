-- ===== src/Raft/Consensus/Agreement.antt =====
-- State machine safety and leader completeness of a cluster (raft/).
use distrib_kv.Prelude.{
  ℕ, ◌%◌, ◌≤◌, ◌<◌, ◌≡◌, refl, sym, ap, ◌∙◌, inl, inr, List, [], none, some, true, Option-cases,
  arith, get_elem?,
}
use native.Mathlib.Decide.{dec_lt}
use distrib_kv.Raft.Types.{LogEntry, leader, AppendEntriesRequest}
use distrib_kv.Raft.Persister.{Persister}
use distrib_kv.Raft.Node.{Raft, log_at}
use distrib_kv.Raft.Log.{log_at_bounds, log_at_below}
use distrib_kv.Raft.Cluster.Tally.{is_grant}
use distrib_kv.Raft.Cluster.{Calls, idle}
use distrib_kv.Raft.Cluster.Safety.{Initial, Initial-Inv}
use distrib_kv.Raft.Replicas.Terms.{view}
use distrib_kv.Raft.Consensus.{Reply, Exchange, Turns}
use distrib_kv.Raft.Consensus.Prefix.{Agree, Entry}
use distrib_kv.Raft.Consensus.Settled.{Chosen, not_Dead}
use distrib_kv.Raft.Consensus.Members.{Company}
use distrib_kv.Raft.Consensus.Elections.{Whole}
use distrib_kv.Raft.Consensus.Safety.{Turns-Whole}

module _ {S : Type 0} (P : Persister S) (n : ℕ) where
  -- The nodes start as followers with empty logs, each knows the other nodes, and nothing was sent.
  pub record Start (s : Exchange S) : Type 0 where
    pub elections : Initial P n s.system
    pub log : (i : ℕ) → (s.system.nodes i).log ≡ []
    pub base : (i : ℕ) → (s.system.nodes i).log_base ≡ 0
    pub commit : (i : ℕ) → (s.system.nodes i).commit_index ≡ 0
    pub peers : (i : ℕ) → Company n i (s.system.nodes i).peers
    pub sent : s.sent ≡ []
    pub replies : s.replies ≡ []

  no_entry : {A : Type 0} (k : ℕ) (e : LogEntry) → view [] k ≡ some e → A
  no_entry k e h = absurd (omega (arith, log_at_bounds 0 [] k e h))

  nothing : {A B : Type 0} (l : List A) (k : ℕ) (x : A) → l ≡ [] → get_elem? l k ≡ some x → B
  nothing {A = A} l k x empty h =
      absurd (let h' : get_elem? (let z : List A = [] in z) k ≡ some x = (rw empty at h) in cc)

  Start-Whole : (s : Exchange S) → Start s → Whole n s.system.nodes s.system.calls s.sent s.replies
  unfolding is_grant
  Start-Whole s f = record {
    elections = Initial-Inv P n s.system f.elections;
    terms = record { won = λ t. none; log = λ t. [] };
    acks = λ t v. 0;
    logs = record {
      replicas = λ i. record {
        base = f.base i;
        consecutive = rw (f.log i) tt;
        rooted = λ k e h. no_entry k e (rw (f.log i) at h);
        leads = λ h. cc (f.elections.role i);
        holds = λ t h. cc;
      };
      terms = λ t k e h. no_entry k e h;
      unwon = λ t h. refl;
      backing = λ t i h. cc;
      requests = λ k req h. nothing s.sent k req f.sent h;
    };
    acked = record {
      voters = λ c. record {
        low = λ t pos. absurd (omega arith);
        within = λ k e h. no_entry k e (rw (f.log c) at h);
        kept = λ t k le x. no_entry k x.0 x.1;
        asked = λ t p req at. absurd (let q = f.elections.quiet c t p in cc);
        granted = λ t p g.
            absurd (
              let q = f.elections.quiet c t p in let g' : is_grant idle ≡ true = (rw q at g) in cc);
      };
      history = record {
        bound = λ t v. omega arith;
        own = λ t i k h x. no_entry k x.0 x.1;
        sorted = λ t k m e x h. no_entry k e h;
        ceiling = λ t k e h. no_entry k e h;
        main = λ t u i k lt h x. no_entry k x.0 x.1;
      };
    };
    commits = record {
      members = λ i. record {
        company = f.peers i;
        inside = λ h. absurd (h (f.elections.role i));
        matches = λ h. cc (f.elections.role i);
        covered = inl (f.commit i);
      };
      shipped = λ k req h. nothing s.sent k req f.sent h;
      told = λ k rep h. nothing s.replies k rep f.replies h;
    };
  }

  module _ (odd : n % 2 ≡ 1) (nodes : ℕ → Raft S) (calls : Calls) (sent : List AppendEntriesRequest)
      (replies : List Reply) (w : Whole n nodes calls sent replies) where
    -- A later term's log has what was chosen before.
    later_term :
        (t k u j : ℕ)
        → Entry w.terms t k
        → Chosen n w.acks t k
        → t < u
        → w.terms.won u ≡ some j
        → Agree k (w.terms.log u) (w.terms.log t)
    later_term t k u j e ch lt won = elim (w.acked.history.main t u j k lt won e) [
      | inl agree ↦ agree
      | inr dies ↦ absurd (not_Dead n w.acks nodes t k odd ch dies)
    ]

    won_by : (t k : ℕ) → Entry w.terms t k → (j : ℕ) × (w.terms.won t ≡ some j)
    won_by t k (e, at, same) = elim (Option-cases (w.terms.won t)) [
      | inl nobody ↦ no_entry k e (rw (w.logs.unwon t nobody) at at)
      | inr (j, won) ↦ (j, won)
    ]

    -- Two chosen indices are of one log.
    Chosen-agree :
        (t k t' k' m : ℕ)
        → Entry w.terms t k
        → Chosen n w.acks t k
        → Entry w.terms t' k'
        → Chosen n w.acks t' k'
        → m ≤ k
        → m ≤ k'
        → view (w.terms.log t) m ≡ view (w.terms.log t') m
    Chosen-agree t k t' k' m e ch e' ch' le le' = elim (dec_lt t t') [
      | yes lt ↦ let (j, won) = won_by t' k' e' in sym (later_term t k t' j e ch lt won m le)
      | no ge ↦ elim (dec_lt t' t) [
        | yes lt ↦ let (j, won) = won_by t k e in later_term t' k' t j e' ch' lt won m le'
        | no le_ ↦ let q : t ≡ t' = omega arith in ap (λ u. view (w.terms.log u) m) q
      ]
    ]

    covered_agree :
        (i j m : ℕ)
        → m ≤ (nodes i).commit_index
        → m ≤ (nodes j).commit_index
        → view (nodes i).log m ≡ view (nodes j).log m
    covered_agree i j m li lj = elim (w.commits.members i).covered [
      | inl z ↦
          rw
            (
              log_at_below 0 (nodes i).log m (omega arith),
              log_at_below 0 (nodes j).log m (omega arith),
            )
            refl
      | inr (t, k, lt, ck, e, ch, h) ↦ elim (w.commits.members j).covered [
        | inl z ↦
            rw
              (
                log_at_below 0 (nodes i).log m (omega arith),
                log_at_below 0 (nodes j).log m (omega arith),
              )
              refl
        | inr (t', k', lt', ck', e', ch', h') ↦
            h m li
            ∙ Chosen-agree t k t' k' m e ch e' ch' (omega arith) (omega arith)
            ∙ sym (h' m lj)
      ]
    ]

    leader_covers :
        (i j m : ℕ)
        → m ≤ (nodes i).commit_index
        → (nodes j).state ≡ leader
        → (nodes i).current_term ≤ (nodes j).current_term
        → view (nodes i).log m ≡ view (nodes j).log m
    leader_covers i j m li lead later =
        let u = (nodes j).current_term in
        let won = (w.logs.replicas j).leads lead in
        let log : (nodes j).log ≡ w.terms.log u = elim ((w.logs.replicas j).holds u won) [
          | inl past ↦ absurd (omega arith)
          | inr (_, _, log) ↦ log
        ] in
        elim (w.commits.members i).covered [
          | inl z ↦
              rw
                (
                  log_at_below 0 (nodes i).log m (omega arith),
                  log_at_below 0 (nodes j).log m (omega arith),
                )
                refl
          | inr (t, k, lt, ck, e, ch, h) ↦
              h m li
              ∙ elim (dec_lt t u) [
                | yes before ↦ sym (later_term t k u j e ch before won m (omega arith))
                | no now ↦ let q : t ≡ u = omega arith in ap (λ v. view (w.terms.log v) m) q
              ]
              ∙ ap (λ l. view l m) (sym log)
        ]

  -- A cluster of an odd number of nodes, more than one, starts as followers with empty logs, each
  -- with the others as its peers. The nodes hold elections, send AppendEntries requests, take
  -- commands and apply entries in any interleaving; requests and replies may be lost, repeated and
  -- reordered, writes may fail, no node restarts or compacts its log, no request comes back to its
  -- sender, and a node whose count has reached the majority becomes the leader before its term
  -- changes. Then any two nodes have the same entry at every index that both have committed.
  pub committed_agree :
      {s t : Exchange S} (i j m : ℕ)
      → n % 2 ≡ 1
      → 1 < n
      → Start s
      → Turns P n s t
      → m ≤ (t.system.nodes i).commit_index
      → m ≤ (t.system.nodes j).commit_index
      → log_at (t.system.nodes i).log_base (t.system.nodes i).log m
        ≡ log_at (t.system.nodes j).log_base (t.system.nodes j).log m
  committed_agree {s} {t} i j m odd many start turns li lj =
      let w = Turns-Whole P n odd many turns (Start-Whole s start) in
      let a = w.logs.replicas i in
      let b = w.logs.replicas j in
      rw (a.base, b.base)
        (covered_agree odd t.system.nodes t.system.calls t.sent t.replies w i j m li lj)

  -- A cluster of an odd number of nodes, more than one, starts as followers with empty logs, each
  -- with the others as its peers. The nodes hold elections, send AppendEntries requests, take
  -- commands and apply entries in any interleaving; requests and replies may be lost, repeated and
  -- reordered, writes may fail, no node restarts or compacts its log, no request comes back to its
  -- sender, and a node whose count has reached the majority becomes the leader before its term
  -- changes. Then a leader whose term is not below that of a node has the same entry as the node at
  -- every index that the node has committed.
  pub leader_has_committed :
      {s t : Exchange S} (i j m : ℕ)
      → n % 2 ≡ 1
      → 1 < n
      → Start s
      → Turns P n s t
      → m ≤ (t.system.nodes i).commit_index
      → (t.system.nodes j).state ≡ leader
      → (t.system.nodes i).current_term ≤ (t.system.nodes j).current_term
      → log_at (t.system.nodes i).log_base (t.system.nodes i).log m
        ≡ log_at (t.system.nodes j).log_base (t.system.nodes j).log m
  leader_has_committed {s} {t} i j m odd many start turns li lead later =
      let w = Turns-Whole P n odd many turns (Start-Whole s start) in
      let a = w.logs.replicas i in
      let b = w.logs.replicas j in
      rw (a.base, b.base)
        (leader_covers odd t.system.nodes t.system.calls t.sent t.replies w i j m li lead later)
