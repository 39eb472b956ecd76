-- ===== src/Raft/Replicas/Growing.antt =====
-- A leader of a cluster (`ReplicateCommand` of raft/replication.go) that appends to its log, which is
-- the log of its term.
use distrib_kv.Prelude.{
  ℕ, ◌+◌, ◌≡◌, refl, sym, ap, ◌∙◌, inl, inr, List, [], ◌∷◌, ◌++◌, none, some, leb, Bool-cases,
  arith, length, length-append, ==_refl,
}
use distrib_kv.Raft.Types.{LogEntry, AppendEntriesRequest}
use distrib_kv.Raft.Node.{Raft}
use distrib_kv.Raft.Log.{Contiguous-append}
use distrib_kv.Raft.Cluster.{Calls, update}
use distrib_kv.Raft.Replicas.Handlers.{Submitted}
use distrib_kv.Raft.Replicas.Terms.{
  Terms, view, Rooted, Extends, Rooted-Extends, view-append, view_within, view-end,
}
use distrib_kv.Raft.Replicas.Invariant.{Replica, Logs, grow}
use distrib_kv.Raft.Replicas.Crowning.{update_cases}

abbrev pub longer : Terms → ℕ → LogEntry → Terms
longer g t x = record g { log = update g.log t (g.log t ++ x ∷ []) }

module _ (g : Terms) (t : ℕ) (x : LogEntry) where
  pub longer-Extends : Extends g (longer g t x)
  longer-Extends = record {
    won = λ u j w. w;
    log = λ u k e h m le. elim (update_cases g.log t (g.log t ++ x ∷ []) u) [
      | inl (q, at) ↦
          rw (at, q) (view-append (g.log u) x m (omega (arith, view_within (g.log u) k e h)))
      | inr (ne, at) ↦ ap (λ l. view l m) at
    ];
  }

  -- The new entry is of the term, so that the longer log is rooted in itself.
  longer-Rooted : x.term ≡ t → Rooted g (g.log t) → Rooted (longer g t x) (g.log t ++ x ∷ [])
  longer-Rooted same h k e at m le = elim (Bool-cases (leb k (length (g.log t)))) [
    | inl old ↦
        let was = view-append (g.log t) x k (ground arith) in
        view-append (g.log t) x m (ground arith)
        ∙ Rooted-Extends g (longer g t x) (g.log t) longer-Extends h k e (sym was ∙ at) m le
    | inr new ↦
        let bound = view_within (g.log t ++ x ∷ []) k e at in
        let last : k ≡ length (g.log t) + 1 =
          ground (arith, bound, length-append (g.log t) (x ∷ [])) in
        let end = view-end (g.log t) x in
        let q : x ≡ e =
          (let h' : view (g.log t ++ x ∷ []) (length (g.log t) + 1) ≡ some e = (rw last at at) in
            cc) in
        rw (← q, same, ==_refl t) refl
  ]

module _ {S : Type 0} (n : ℕ) (g : Terms) (nodes : ℕ → Raft S) (calls : Calls)
    (sent : List AppendEntriesRequest) (i : ℕ) (r : Raft S) where
  -- The leader's log is the log of its term.
  pub leader_log :
      Submitted (nodes i) r → Replica g i (nodes i) → (nodes i).log ≡ g.log (nodes i).current_term
  leader_log s v = elim (v.holds (nodes i).current_term (v.leads s.leading)) [
    | inl past ↦ absurd (omega arith)
    | inr (now, lead, log) ↦ log
  ]

  pub written_Logs :
      (s : Submitted (nodes i) r)
      → Logs n g nodes calls sent
      → Logs n (longer g (nodes i).current_term s.entry) (update nodes i r) calls sent
  written_Logs s v =
      let w = v.replicas i in
      let t = (nodes i).current_term in
      let q = leader_log s w in
      let won = w.leads s.leading in
      let g' = longer g t s.entry in
      let x = longer-Extends g t s.entry in
      let log : r.log ≡ g.log t ++ s.entry ∷ [] = rw (← q) s.log in
      let whole = longer-Rooted g t s.entry s.term (v.terms t) in
      grow n g g' nodes calls sent i r v x
        (λ u j ne h. elim (update_cases g.log t (g.log t ++ s.entry ∷ []) u) [
          | inl (e, at) ↦ absurd (ne (let h' : g.won t ≡ some j = (rw e h) in cc))
          | inr (far, at) ↦ (h, at)
        ])
        (record {
          base = s.base ∙ w.base;
          consecutive = rw s.log (
              Contiguous-append 0 (nodes i).log s.entry w.consecutive
                (omega (arith, s.index, w.base)));
          rooted = rw log whole;
          leads = λ h. rw s.same_term won;
          holds = λ u h. elim (update_cases g.log t (g.log t ++ s.entry ∷ []) u) [
            | inl (e, at) ↦ inr (s.same_term ∙ e, s.role, log ∙ sym at)
            | inr (far, at) ↦ elim (w.holds u h) [
              | inl past ↦ inl (omega (arith, s.same_term))
              | inr (now, lead, same) ↦ absurd (far now)
            ]
          ];
        })
        (λ u. elim (update_cases g.log t (g.log t ++ s.entry ∷ []) u) [
          | inl (e, at) ↦ rw at whole
          | inr (far, at) ↦ rw at (Rooted-Extends g g' (g.log u) x (v.terms u))
        ])
        (λ u h. elim (update_cases g.log t (g.log t ++ s.entry ∷ []) u) [
          | inl (e, at) ↦ absurd (let h' : g.won t ≡ none = (rw e h) in cc)
          | inr (far, at) ↦ at ∙ v.unwon u h
        ])
        v.backing

  pub Submitted-change :
      Submitted (nodes i) r
      → Logs n g nodes calls sent
      → (g' : Terms) × Logs n g' (update nodes i r) calls sent
  Submitted-change s v = (longer g (nodes i).current_term s.entry, written_Logs s v)
