-- ===== src/Raft/Replicas/Elections.antt =====
-- The elections of a cluster (raft/election.go) keep the logs' invariant.
use distrib_kv.Prelude.{
  ℕ, ◌+◌, ◌*◌, ◌%◌, ◌≤◌, ◌≡◌, refl, inl, inr, List, Bool, true, false, ◌==◌, ◌&&◌, ◌||◌, Bool-cases,
  ==_iff, ==_refl, arith,
}
use distrib_kv.Raft.Types.{AppendEntriesRequest, RequestVoteRequest, RequestVoteResponse, Outcome}
use distrib_kv.Raft.Persister.{Persister}
use distrib_kv.Raft.Node.{Raft, Spawn, is_leader}
use distrib_kv.Raft.Election.{become_candidate, become_leader, count_vote, handle_request_vote}
use distrib_kv.Raft.Events.Same.{Same, become_candidate-Same}
use distrib_kv.Raft.Cluster.{
  Call, Calls, idle, asking, own, asked, answered, counted, update, set_call, set_row, opened,
  answer, is_open, System, Step, campaigns, asks, answers, counts, wins, loses, other,
}
use distrib_kv.Raft.Cluster.Tally.{tally, tally_mono, is_backing}
use distrib_kv.Raft.Cluster.Handlers.{become_candidate-Campaigned}
use distrib_kv.Raft.Cluster.Invariant.{Inv}
use distrib_kv.Raft.Cluster.Safety.{disjoint_votes}
use distrib_kv.Raft.Replicas.{is_election}
use distrib_kv.Raft.Replicas.Handlers.{
  Quiet, Elected, count_vote-Quiet, handle_request_vote-Quiet, become_leader_cases,
}
use distrib_kv.Raft.Replicas.Terms.{Terms}
use distrib_kv.Raft.Replicas.Invariant.{
  Logs, Replica-Quiet, Replica-change, calls_change, set_call_change,
}
use distrib_kv.Raft.Replicas.Crowning.{crown, crowned, unwon_before}

pub open_backs_none : (v : Call) → is_open v ≡ true → is_backing v ≡ false
unfolding is_open is_backing
open_backs_none idle h = refl
open_backs_none asking h = refl
open_backs_none own h = cc
open_backs_none (asked req) h = refl
open_backs_none (answered a) h = refl
open_backs_none (counted a w) h = cc

module _ {S : Type 0} (P : Persister S) (n : ℕ) (odd : n % 2 ≡ 1) where
  -- Two majorities of one term are of the same candidate.
  pub no_rival :
      (nodes : ℕ → Raft S) (calls : Calls) (i j t : ℕ)
      → Inv n nodes calls
      → n ≤ 2 * tally n (calls i t)
      → n ≤ 2 * tally n (calls j t)
      → i ≡ j
  no_rival nodes calls i j t inv a b = elim (Bool-cases (i == j)) [
    | inl e ↦ (==_iff i j).0 e
    | inr e ↦ absurd (
        let d = disjoint_votes P n nodes calls i j t inv (λ h. cc ((==_iff i j).1 h)) in
        omega arith)
  ]

  module _ (g : Terms) (nodes : ℕ → Raft S) (sent : List AppendEntriesRequest) (calls : Calls) where
    -- A node that changes and does not begin to lead.
    pub Quiet-change :
        (i : ℕ) (r : Raft S)
        → Quiet (nodes i) r
        → Logs n g nodes calls sent
        → Logs n g (update nodes i r) calls sent
    Quiet-change i r q v =
        Replica-change n g nodes calls sent i r v (Replica-Quiet g i (nodes i) r q (v.replicas i))

    Elected-change :
        (i : ℕ) (r : Raft S)
        → Elected (nodes i) r
        → Inv n (update nodes i r) calls
        → Logs n g nodes calls sent
        → (g' : Terms) × Logs n g' (update nodes i r) calls sent
    Elected-change i r e inv v =
        let self : update nodes i r i ≡ r = rw (==_refl i) refl in
        let b = inv.backed i in
        let enough : n ≤ 2 * tally n (calls i r.current_term) =
          (rw self at (b.leader_votes (rw self e.role))) in
        let first =
          unwon_before n g nodes calls sent i r e
            (λ j won.
              no_rival (update nodes i r) calls i j r.current_term inv enough
                (v.backing r.current_term j won))
            v in
        (crowned g r.current_term i r.log, crown n g nodes calls sent i r e enough first v)

  module _ (g : Terms) (nodes : ℕ → Raft S) (sent : List AppendEntriesRequest) (calls : Calls) where
    -- The calls of a new election take the place of none that a winner has.
    pub row_change :
        (c : ℕ) (f : ℕ → Call)
        → Logs n g nodes calls sent
        → let t = (nodes c).current_term + 1 in Logs n g nodes (set_row c t f calls) sent
    row_change c f v =
        let t = (nodes c).current_term + 1 in
        calls_change n g nodes calls sent (set_row c t f calls)
          (λ u j w. elim (Bool-cases (c == j && t == u)) [
            | inl e ↦
                let ej : c ≡ j = ground arith in
                let eu : t ≡ u = ground arith in
                absurd (elim ((v.replicas c).holds t (rw (← ej, ← eu) at w)) [
                  | inl past ↦ omega arith
                  | inr (now, lead, log) ↦ omega arith
                ])
            | inr e ↦ omega (
              arith,
              v.backing u j w,
              tally_mono n (calls j u) (set_row c t f calls j u) (λ q h. rw e h),
            )
          ])
          v

    campaigns-Logs :
        (c : ℕ) (r : Raft S) (spawns : List Spawn)
        → (nodes c).shutdown || is_leader (nodes c) ≡ false
        → become_candidate P (nodes c) ≡ (r, spawns)
        → let calls' = set_row c ((nodes c).current_term + 1) (opened c spawns) calls in
          Inv n (update nodes c r) calls'
          → Logs n g nodes calls sent
          → (g' : Terms) × Logs n g' (update nodes c r) calls' sent
    unfolding is_leader
    campaigns-Logs c r spawns live e inv v =
        let k = become_candidate-Campaigned P (nodes c) live e in
        let same : Same (nodes c) r = rw e at (become_candidate-Same P (nodes c)) in
        let t = (nodes c).current_term + 1 in
        let calls' = set_row c t (opened c spawns) calls in
        let v' = row_change c (opened c spawns) v in
        elim (Bool-cases (is_leader r)) [
          | inl leads ↦
              let el : Elected (nodes c) r = record {
                log = same.log;
                base = same.base;
                role = ground arith;
                before = λ h. ground arith;
                term = omega (arith, k.term);
              } in
              Elected-change g nodes sent calls' c r el inv v'
          | inr out ↦
              let q : Quiet (nodes c) r = record {
                log = same.log;
                base = same.base;
                role = inr (out, omega (arith, k.term));
              } in
              (g, Quiet-change g nodes sent calls' c r q v')
        ]

    answers-Logs :
        (c t p : ℕ) (req : RequestVoteRequest) (out : Outcome RequestVoteResponse) (r : Raft S)
        → calls c t p ≡ asked req
        → handle_request_vote P req (nodes p) ≡ (out, r)
        → Logs n g nodes calls sent
        → Logs n g (update nodes p r) (set_call c t p (answer out) calls) sent
    unfolding is_backing
    answers-Logs c t p req out r at e v =
        let q : Quiet (nodes p) r = rw e at (handle_request_vote-Quiet P req (nodes p)) in
        set_call_change n g (update nodes p r) calls sent c t p (answer out) (rw at refl)
          (Quiet-change g nodes sent calls p r q v)

    counts-Logs :
        (c t p : ℕ) (a : RequestVoteResponse) (r : Raft S) (won : Bool)
        → calls c t p ≡ answered a
        → count_vote t a (nodes c) ≡ (r, won)
        → Logs n g nodes calls sent
        → Logs n g (update nodes c r) (set_call c t p (counted a won) calls) sent
    unfolding is_backing
    counts-Logs c t p a r won at e v =
        let q : Quiet (nodes c) r = rw e at (count_vote-Quiet t a (nodes c)) in
        set_call_change n g (update nodes c r) calls sent c t p (counted a won) (rw at refl)
          (Quiet-change g nodes sent calls c r q v)

    wins-Logs :
        (c : ℕ)
        → Inv n (update nodes c (become_leader (nodes c)).0) calls
        → Logs n g nodes calls sent
        → (g' : Terms) × Logs n g' (update nodes c (become_leader (nodes c)).0) calls sent
    wins-Logs c inv v = elim (become_leader_cases (nodes c)) [
      | inl same ↦ (
        g,
        Replica-change n g nodes calls sent c (become_leader (nodes c)).0 v
            (rw same (v.replicas c)),
      )
      | inr e ↦ Elected-change g nodes sent calls c (become_leader (nodes c)).0 e inv v
    ]

  -- A step of an election, with the invariant of the elections after it.
  pub election-Logs :
      (g : Terms) (sent : List AppendEntriesRequest) {s t : System S} (st : Step P n s t)
      → is_election P n st ≡ true
      → Inv n t.nodes t.calls
      → Logs n g s.nodes s.calls sent
      → (g' : Terms) × Logs n g' t.nodes t.calls sent
  unfolding is_election is_backing
  election-Logs g sent {s} (campaigns c {r'} {spawns} lt live e) voted inv v =
      campaigns-Logs g s.nodes sent s.calls c r' spawns live e inv v
  election-Logs g sent {s} (asks c t p at) voted inv v =
      (g, set_call_change n g s.nodes s.calls sent c t p _ (rw at refl) v)
  election-Logs g sent {s} (answers c t p req {out} {r'} at e) voted inv v =
      (g, answers-Logs g s.nodes sent s.calls c t p req out r' at e v)
  election-Logs g sent {s} (counts c t p a {r'} {won} lt at e) voted inv v =
      (g, counts-Logs g s.nodes sent s.calls c t p a r' won at e v)
  election-Logs g sent {s} (wins c t p a at same) voted inv v =
      wins-Logs g s.nodes sent s.calls c inv v
  election-Logs g sent {s} (loses c t p open_call) voted inv v =
      (g, set_call_change n g s.nodes s.calls sent c t p idle (open_backs_none _ open_call) v)
  election-Logs g sent {s} (other i e calm) voted inv v = cc
