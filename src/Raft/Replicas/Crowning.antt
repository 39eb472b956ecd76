-- ===== src/Raft/Replicas/Crowning.antt =====
-- A node of a cluster (raft/election.go) that becomes the leader of a term begins the log of that term.
use distrib_kv.Prelude.{
  ℕ, ◌*◌, ◌≤◌, ◌≡◌, ◌≢◌, refl, sym, ap, ◌∙◌, ◌⊎◌, inl, inr, List, [], none, some, ◌==◌, Bool-cases,
  Option-cases, ==_iff, ==_refl, arith,
}
use distrib_kv.Raft.Types.{LogEntry, AppendEntriesRequest}
use distrib_kv.Raft.Node.{Raft}
use distrib_kv.Raft.Log.{log_at_bounds}
use distrib_kv.Raft.Cluster.{Calls, update}
use distrib_kv.Raft.Cluster.Tally.{tally}
use distrib_kv.Raft.Replicas.Handlers.{Elected}
use distrib_kv.Raft.Replicas.Terms.{Terms, view, Rooted, Extends, Rooted-Extends}
use distrib_kv.Raft.Replicas.Invariant.{Replica, Logs, grow}

abbrev pub crowned : Terms → ℕ → ℕ → List LogEntry → Terms
crowned g t i l = record { won = update g.won t (some i); log = update g.log t l }

pub update_cases {ℓ} :
    {A : Type ℓ} (f : ℕ → A) (i : ℕ) (a : A) (j : ℕ)
    → ((i ≡ j) × (update f i a j ≡ a)) ⊎ ((i ≢ j) × (update f i a j ≡ f j))
update_cases f i a j = elim (Bool-cases (i == j)) [
  | inl e ↦ inl ((==_iff i j).0 e, rw e refl)
  | inr e ↦ inr (λ h. cc ((==_iff i j).1 h), rw e refl)
]

pub crowned-Extends :
    (g : Terms) (t i : ℕ) (l : List LogEntry)
    → g.won t ≡ none
    → g.log t ≡ []
    → Extends g (crowned g t i l)
crowned-Extends g t i l unwon empty = record {
  won = λ u j w. elim (update_cases g.won t (some i) u) [
    | inl (e, at) ↦ absurd (let w' : g.won t ≡ some j = (rw e w) in cc)
    | inr (ne, at) ↦ at ∙ w
  ];
  log = λ u k e h m le. elim (update_cases g.log t l u) [
    | inl (q, at) ↦ absurd (
        let h' : view [] k ≡ some e = (rw (← empty, q) h) in
        omega (arith, log_at_bounds 0 [] k e h'))
    | inr (ne, at) ↦ ap (λ x. view x m) at
  ];
}

module _ {S : Type 0} (n : ℕ) (g : Terms) (nodes : ℕ → Raft S) (calls : Calls)
    (sent : List AppendEntriesRequest) (i : ℕ) (r : Raft S) where
  new_Replica :
      Elected (nodes i) r
      → Replica g i (nodes i)
      → g.won r.current_term ≡ none
      → g.log r.current_term ≡ []
      → Replica (crowned g r.current_term i r.log) i r
  new_Replica e v unwon empty =
      let t = r.current_term in
      let x = crowned-Extends g t i r.log unwon empty in
      record {
        base = e.base ∙ v.base;
        consecutive = rw e.log v.consecutive;
        rooted = Rooted-Extends g _ r.log x (rw e.log v.rooted);
        leads = λ h. rw (==_refl t) refl;
        holds = λ u w. elim (update_cases g.won t (some i) u) [
          | inl (q, at) ↦ inr (q, e.role, rw (q, ==_refl u) refl)
          | inr (ne, at) ↦ elim (v.holds u (sym at ∙ w)) [
            | inl past ↦ inl (omega (arith, e.term))
            | inr (now, lead, log) ↦ absurd (e.before lead)
          ]
        ];
      }

  new_terms :
      Elected (nodes i) r
      → Logs n g nodes calls sent
      → (x : Extends g (crowned g r.current_term i r.log)) → (t : ℕ)
      → Rooted (crowned g r.current_term i r.log) ((crowned g r.current_term i r.log).log t)
  new_terms e v x t = elim (update_cases g.log r.current_term r.log t) [
    | inl (q, at) ↦ rw at (Rooted-Extends g _ r.log x (rw e.log (v.replicas i).rooted))
    | inr (ne, at) ↦ rw at (Rooted-Extends g _ (g.log t) x (v.terms t))
  ]

  -- The node is the first to win its term; `single`: no other node has won it.
  pub unwon_before :
      Elected (nodes i) r
      → ((j : ℕ) → g.won r.current_term ≡ some j → i ≡ j)
      → Logs n g nodes calls sent
      → g.won r.current_term ≡ none
  unwon_before e single v = elim (Option-cases (g.won r.current_term)) [
    | inl none_yet ↦ none_yet
    | inr (j, won) ↦ absurd (
        let q = single j won in
        let w : g.won r.current_term ≡ some i = won ∙ ap some (sym q) in
        elim ((v.replicas i).holds r.current_term w) [
          | inl past ↦ omega (arith, e.term)
          | inr (now, lead, log) ↦ e.before lead
        ])
  ]

  pub crown :
      Elected (nodes i) r
      → n ≤ 2 * tally n (calls i r.current_term)
      → g.won r.current_term ≡ none
      → Logs n g nodes calls sent
      → Logs n (crowned g r.current_term i r.log) (update nodes i r) calls sent
  crown e enough none_yet v =
      let t = r.current_term in
      let empty = v.unwon t none_yet in
      let x = crowned-Extends g t i r.log none_yet empty in
      grow n g (crowned g t i r.log) nodes calls sent i r v x
        (λ u j ne w. elim (update_cases g.won t (some i) u) [
          | inl (q, at) ↦ absurd (ne (cc))
          | inr (far, at) ↦ (
            sym at ∙ w,
            elim (update_cases g.log t r.log u) [
              | inl (q, same) ↦ absurd (far q)
              | inr (_, same) ↦ same
            ],
          )
        ])
        (new_Replica e (v.replicas i) none_yet empty) (new_terms e v x)
        (λ u w. elim (update_cases g.won t (some i) u) [
          | inl (q, at) ↦ cc
          | inr (far, at) ↦ elim (update_cases g.log t r.log u) [
            | inl (q, same) ↦ absurd (far q)
            | inr (_, same) ↦ same ∙ v.unwon u (sym at ∙ w)
          ]
        ])
        (λ u j w. elim (update_cases g.won t (some i) u) [
          | inl (q, at) ↦ let same : i ≡ j = cc in rw (← same, ← q) enough
          | inr (far, at) ↦ v.backing u j (sym at ∙ w)
        ])
