-- ===== src/Raft/Replicas/Invariant.antt =====
-- The invariant of the logs of a cluster (raft/), and the changes of one node or one call that keep it.
use distrib_kv.Prelude.{
  ℕ, ◌*◌, ◌≤◌, ◌<◌, ◌≡◌, ◌≢◌, sym, ◌∙◌, ◌⊎◌, inl, inr, List, [], ◌∷◌, zero, suc, none, some, false,
  ◌==◌, Bool-cases, ==_iff, arith, get_elem?,
}
use distrib_kv.Raft.Types.{AppendEntriesRequest, leader}
use distrib_kv.Raft.Node.{Raft, is_leader}
use distrib_kv.Raft.Log.{Contiguous}
use distrib_kv.Raft.Replication.Matching.{Describes}
use distrib_kv.Raft.Cluster.{Call, Calls, update, set_call}
use distrib_kv.Raft.Cluster.Tally.{tally, tally_mono, is_backing}
use distrib_kv.Raft.Cluster.Invariant.{update_all, call_grows}
use distrib_kv.Raft.Replicas.Handlers.{Quiet}
use distrib_kv.Raft.Replicas.Terms.{Terms, view, Rooted, Extends, Rooted-Extends, Describes-Extends}

module _ {S : Type 0} where
  -- A winner still leads its term, with the term's log, or has seen a later term.
  abbrev pub Holds : Terms → ℕ → Raft S → Type 0
  Holds g i r =
      (t : ℕ)
      → g.won t ≡ some i
      → (t < r.current_term) ⊎ ((r.current_term ≡ t) × (r.state ≡ leader) × (r.log ≡ g.log t))

  pub record Replica (g : Terms) (i : ℕ) (r : Raft S) : Type 0 where
    pub base : r.log_base ≡ 0
    pub consecutive : Contiguous 0 r.log
    pub rooted : Rooted g r.log
    pub leads : r.state ≡ leader → g.won r.current_term ≡ some i
    pub holds : Holds g i r

  pub record Logs (n : ℕ) (g : Terms) (nodes : ℕ → Raft S) (calls : Calls)
      (sent : List AppendEntriesRequest) : Type 0 where
    pub replicas : (i : ℕ) → Replica g i (nodes i)
    pub terms : (t : ℕ) → Rooted g (g.log t)
    pub unwon : (t : ℕ) → g.won t ≡ none → g.log t ≡ []
    pub backing : (t i : ℕ) → g.won t ≡ some i → n ≤ 2 * tally n (calls i t)
    pub requests :
        (k : ℕ) (req : AppendEntriesRequest)
        → get_elem? sent k ≡ some req
        → (g.won req.term ≡ some req.leader_id) × Describes (view (g.log req.term)) req

  -- A node that keeps its log, and its role unless its term rises.
  pub Replica-Quiet :
      (g : Terms) (i : ℕ) (r r' : Raft S) → Quiet r r' → Replica g i r → Replica g i r'
  unfolding is_leader
  Replica-Quiet g i r r' q v = record {
    base = q.base ∙ v.base;
    consecutive = rw q.log v.consecutive;
    rooted = rw q.log v.rooted;
    leads = λ h. elim q.role [
      | inl (role, term) ↦ rw term (v.leads (sym role ∙ h))
      | inr (out, later) ↦ absurd (ground arith)
    ];
    holds = λ t w. elim q.role [
      | inl (role, term) ↦ elim (v.holds t w) [
        | inl past ↦ inl (omega arith)
        | inr (at, lead, log) ↦ inr (term ∙ at, role ∙ lead, q.log ∙ log)
      ]
      | inr (out, later) ↦ elim (v.holds t w) [
        | inl past ↦ inl (omega arith)
        | inr (at, lead, log) ↦ inl (omega arith)
      ]
    ];
  }

  module _ (n : ℕ) (g : Terms) (nodes : ℕ → Raft S) (calls : Calls)
      (sent : List AppendEntriesRequest) where
    pub Replica-change :
        (i : ℕ) (r : Raft S)
        → Logs n g nodes calls sent
        → Replica g i r
        → Logs n g (update nodes i r) calls sent
    Replica-change i r v here = record {
      replicas = update_all (λ j s. Replica g j s) nodes i r v.replicas here;
      terms = v.terms;
      unwon = v.unwon;
      backing = v.backing;
      requests = v.requests;
    }

    -- Calls that keep the votes of every winner.
    pub calls_change :
        (calls' : Calls)
        → ((t i : ℕ) → g.won t ≡ some i → n ≤ 2 * tally n (calls' i t))
        → Logs n g nodes calls sent
        → Logs n g nodes calls' sent
    calls_change calls' backing v = record {
      replicas = v.replicas;
      terms = v.terms;
      unwon = v.unwon;
      backing = backing;
      requests = v.requests;
    }

    pub set_call_change :
        (c t p : ℕ) (v : Call)
        → is_backing (calls c t p) ≡ false
        → Logs n g nodes calls sent
        → Logs n g nodes (set_call c t p v calls) sent
    set_call_change c t p v fresh l =
        calls_change (set_call c t p v calls)
          (λ u i w. omega (
            arith,
            l.backing u i w,
            tally_mono n (calls i u) (set_call c t p v calls i u)
                (call_grows n nodes calls c t p v (λ h. cc) i u),
          ))
          l

    pub request_change :
        (req : AppendEntriesRequest)
        → g.won req.term ≡ some req.leader_id
        → Describes (view (g.log req.term)) req
        → Logs n g nodes calls sent
        → Logs n g nodes calls (req ∷ sent)
    request_change req won described v = record {
      replicas = v.replicas;
      terms = v.terms;
      unwon = v.unwon;
      backing = v.backing;
      requests = requests;
    }
      where
        requests :
            (k : ℕ) (q : AppendEntriesRequest)
            → get_elem? (req ∷ sent) k ≡ some q
            → (g.won q.term ≡ some q.leader_id) × Describes (view (g.log q.term)) q
        requests zero q h = let e : req ≡ q = cc in rw (← e) (won, described)
        requests (suc k) q h = v.requests k q h

  -- The history grows with the change of a node `i`; the other nodes' part of it stays.
  pub grow :
      (n : ℕ) (g g' : Terms) (nodes : ℕ → Raft S) (calls : Calls) (sent : List AppendEntriesRequest)
      (i : ℕ) (r : Raft S)
      → Logs n g nodes calls sent
      → Extends g g'
      → ((t j : ℕ) → i ≢ j → g'.won t ≡ some j → (g.won t ≡ some j) × (g'.log t ≡ g.log t))
      → Replica g' i r
      → ((t : ℕ) → Rooted g' (g'.log t))
      → ((t : ℕ) → g'.won t ≡ none → g'.log t ≡ [])
      → ((t j : ℕ) → g'.won t ≡ some j → n ≤ 2 * tally n (calls j t))
      → Logs n g' (update nodes i r) calls sent
  grow n g g' nodes calls sent i r v x others here terms unwon backing = record {
    replicas = λ j. elim (Bool-cases (i == j)) [
      | inl e ↦ rw e (let q : i ≡ j = (==_iff i j).0 e in rw (← q) here)
      | inr e ↦ rw e (other j (λ h. cc ((==_iff i j).1 h)))
    ];
    terms = terms;
    unwon = unwon;
    backing = backing;
    requests = λ k req h.
        let (won, described) = v.requests k req h in
        (x.won req.term req.leader_id won, Describes-Extends g g' req x described);
  }
    where
      other : (j : ℕ) → i ≢ j → Replica g' j (nodes j)
      other j ne =
          let w = v.replicas j in
          record {
            base = w.base;
            consecutive = w.consecutive;
            rooted = Rooted-Extends g g' (nodes j).log x w.rooted;
            leads = λ h. x.won _ j (w.leads h);
            holds = λ t won.
                let (old, same) = others t j ne won in
                elim (w.holds t old) [
                  | inl past ↦ inl past
                  | inr (at, lead, log) ↦ inr (at, lead, log ∙ sym same)
                ];
          }
