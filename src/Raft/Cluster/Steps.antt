-- ===== src/Raft/Cluster/Steps.antt =====
-- The elections of a cluster (raft/election.go): each step keeps the invariant,
-- but for those of a count and of a new election.

use distrib_kv.Prelude.{
  ℕ, ◌*◌, ◌≤◌, ◌≡◌, ◌≢◌, refl, ◌∙◌, sym, ap, inl, inr, some, true, false, ==_refl, arith,
}
use distrib_kv.Raft.Types.{RequestVoteRequest, RequestVoteResponse, Outcome, reply, fail, panic}
use distrib_kv.Raft.Persister.{Persister}
use distrib_kv.Raft.Node.{Raft}
use distrib_kv.Raft.Election.{become_leader, vote_request, handle_request_vote}
use distrib_kv.Raft.Election.Votes.{handle_request_vote-Granted}
use distrib_kv.Raft.Events.{Event, step}
use distrib_kv.Raft.Events.Progress.{step-Progress, handle_request_vote-Progress, Progress}
use distrib_kv.Raft.Cluster.{
  Call, Calls, idle, asking, asked, counted, update, set_call, answer, is_open, is_calm,
}
use distrib_kv.Raft.Cluster.Tally.{is_grant, is_backing, is_won, tally}
use distrib_kv.Raft.Cluster.Steady.{Steady, step-Steady}
use distrib_kv.Raft.Cluster.Handlers.{Led, become_leader-Led, handle_request_vote-Steady}
use distrib_kv.Raft.Cluster.Invariant.{Held, Backed, Inv, Advances, node_change, call_change}

module _ {S : Type 0} (P : Persister S) (n : ℕ) where
  pub Advances-Progress : {r r' : Raft S} → Progress r r' → Advances r r'
  Advances-Progress p = ground arith

  Backed-Steady :
      (calls : Calls) (i : ℕ) (r r' : Raft S)
      → Steady r r'
      → Backed n r (calls i r.current_term)
      → Backed n r' (calls i r'.current_term)
  Backed-Steady calls i r r' s b = elim s.role [
    | inl f ↦ record { candidate_votes = λ h. cc; leader_votes = λ h. cc }
    | inr (role, term, votes) ↦ rw term (record {
      candidate_votes = λ h. omega (arith, b.candidate_votes (sym role ∙ h), votes);
      leader_votes = λ h. b.leader_votes (sym role ∙ h);
    })
  ]

  -- A node that handles something outside its own election.
  pub Steady-change :
      (nodes : ℕ → Raft S) (calls : Calls) (i : ℕ) (r : Raft S)
      → Inv n nodes calls
      → Steady (nodes i) r
      → Progress (nodes i) r
      → Inv n (update nodes i r) calls
  Steady-change nodes calls i r inv s p =
      node_change n nodes calls i r inv (s.id ∙ inv.id i) (omega (arith, s.size, inv.size i))
        (Advances-Progress p) (Backed-Steady calls i (nodes i) r s (inv.backed i))

  pub other-Inv :
      (nodes : ℕ → Raft S) (calls : Calls) (i : ℕ) (e : Event)
      → is_calm e ≡ true
      → Inv n nodes calls
      → Inv n (update nodes i (step P e (nodes i))) calls
  other-Inv nodes calls i e calm inv =
      Steady-change nodes calls i (step P e (nodes i)) inv (step-Steady P e (nodes i) calm)
        (step-Progress P e (nodes i))

  pub asks-Inv :
      (nodes : ℕ → Raft S) (calls : Calls) (c t p : ℕ)
      → calls c t p ≡ asking
      → Inv n nodes calls
      → Inv n nodes (set_call c t p (asked (vote_request t (nodes c))) calls)
  unfolding vote_request is_grant is_backing is_won
  asks-Inv nodes calls c t p at inv =
      call_change n nodes calls c t p (asked (vote_request t (nodes c))) inv
        (λ req e. ground (arith, inv.id c)) (λ g. cc) (λ d g h. cc) (λ b. ground arith) (λ w. cc)

  pub loses-Inv :
      (nodes : ℕ → Raft S) (calls : Calls) (c t p : ℕ)
      → is_open (calls c t p) ≡ true
      → Inv n nodes calls
      → Inv n nodes (set_call c t p idle calls)
  unfolding is_open is_grant is_backing is_won
  loses-Inv nodes calls c t p at inv =
      call_change n nodes calls c t p idle inv (λ req e. cc) (λ g. cc) (λ d g h. cc)
        (λ b. ground arith) (λ w. cc)

  Backed-Led :
      (row : ℕ → Call) (r r' : Raft S)
      → Led r r'
      → n ≤ 2 * tally n row
      → Backed n r row
      → Backed n r' row
  Backed-Led row r r' l won b = record {
    candidate_votes = λ h. elim l.role [
      | inl led ↦ cc
      | inr same ↦ omega (arith, b.candidate_votes (sym same ∙ h), l.votes)
    ];
    leader_votes = λ h. won;
  }

  pub wins-Inv :
      (nodes : ℕ → Raft S) (calls : Calls) (c t p : ℕ) (a : RequestVoteResponse)
      → calls c t p ≡ counted a true
      → (nodes c).current_term ≡ t
      → Inv n nodes calls
      → Inv n (update nodes c (become_leader (nodes c)).0) calls
  unfolding is_won
  wins-Inv nodes calls c t p a at same inv =
      let l = become_leader-Led (nodes c) in
      let won = inv.elected c t p (rw at refl) in
      node_change n nodes calls c (become_leader (nodes c)).0 inv (l.id ∙ inv.id c)
        (omega (arith, l.size, inv.size c)) (inr (l.term, inr l.vote))
        (rw l.term
          (Backed-Led (calls c (nodes c).current_term) (nodes c) _ l (rw same won) (inv.backed c)))

  -- What a granted answer says of the node that gave it.
  answer-Held :
      (req : RequestVoteRequest) (r r' : Raft S) (out : Outcome RequestVoteResponse)
      → handle_request_vote P req r ≡ (out, r')
      → is_grant (answer out) ≡ true
      → (r'.current_term ≡ req.term) × (r'.voted_for ≡ some req.candidate_id)
  unfolding answer is_grant
  answer-Held req r r' (reply a) e g =
      let k = handle_request_vote-Granted P req r e g in (k.term, k.vote)
  answer-Held req r r' (fail x) e g = cc
  answer-Held req r r' panic e g = cc

  pub answer_keeps :
      (out : Outcome RequestVoteResponse)
      → ((req : RequestVoteRequest) → answer out ≢ asked req) × (is_won (answer out) ≡ false)
  unfolding answer is_won
  answer_keeps (reply a) = (λ req e. cc, refl)
  answer_keeps (fail x) = (λ req e. cc, refl)
  answer_keeps panic = (λ req e. cc, refl)

  pub answers-Inv :
      (nodes : ℕ → Raft S) (calls : Calls) (c t p : ℕ) (req : RequestVoteRequest)
      (out : Outcome RequestVoteResponse) (r : Raft S)
      → calls c t p ≡ asked req
      → handle_request_vote P req (nodes p) ≡ (out, r)
      → Inv n nodes calls
      → Inv n (update nodes p r) (set_call c t p (answer out) calls)
  unfolding is_backing
  answers-Inv nodes calls c t p req out r at e inv =
      let s : Steady (nodes p) r = rw e at (handle_request_vote-Steady P req (nodes p)) in
      let m : Progress (nodes p) r = rw e at (handle_request_vote-Progress P req (nodes p)) in
      let inv' = Steady-change nodes calls p r inv s m in
      let self : update nodes p r p ≡ r = rw (==_refl p) refl in
      let (rt, rc) = inv.carried c t p req at in
      let vote = answer-Held req (nodes p) r out e in
      call_change n (update nodes p r) calls c t p (answer out) inv'
        (λ q h. absurd ((answer_keeps out).0 q h))
        (λ g. rw self (inr (let k = vote g in (k.0 ∙ rt, k.1 ∙ ap some rc))))
        (λ d g h.
          let k = vote g in let old : Held d t r = (rw self at (inv'.held d t p h)) in ground arith)
        (λ b. let b' : is_backing (asked req) ≡ true = (rw at at b) in cc)
        (λ w. cc ((answer_keeps out).1))
