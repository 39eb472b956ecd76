-- ===== src/Raft/Cluster/Campaigns.antt =====
-- The elections of a cluster (raft/election.go): a count and a new election keep
-- the invariant.
use mathlib.Core.Path.{fun_ext}
use distrib_kv.Prelude.{
  ℕ, ◌+◌, ◌≤◌, ◌<◌, ◌≡◌, ◌≢◌, refl, ◌∙◌, sym, ap, inl, inr, List, some, Bool, true, false, ◌==◌,
  ◌||◌, Bool-cases, ==_iff, ==_refl, arith,
}
use distrib_kv.Raft.Types.{follower, RequestVoteRequest, RequestVoteResponse}
use distrib_kv.Raft.Persister.{Persister}
use distrib_kv.Raft.Node.{Raft, Spawn, is_leader}
use distrib_kv.Raft.Election.{become_candidate, count_vote}
use distrib_kv.Raft.Election.Quorum.{count_vote_wins}
use distrib_kv.Raft.Events.Progress.{count_vote-Progress, Progress}
use distrib_kv.Raft.Cluster.{
  Calls, asked, answered, counted, update, set_call, set_row, is_asked, opened,
}
use distrib_kv.Raft.Cluster.Tally.{
  is_grant, is_backing, is_won, tally, tally_mono, tally_grows, tally_pos,
}
use distrib_kv.Raft.Cluster.Handlers.{become_candidate-Campaigned, count_vote-Counted}
use distrib_kv.Raft.Cluster.Invariant.{Inv, node_change, call_change, call_grows, row_change}
use distrib_kv.Raft.Cluster.Steps.{Advances-Progress}

module _ {S : Type 0} (P : Persister S) (n : ℕ) where
  module _ (nodes : ℕ → Raft S) (calls : Calls) (c t p : ℕ) (a : RequestVoteResponse) where
    -- The votes counted for the candidate, once the answer is among them.
    counted_tally :
        (won : Bool)
        → p < n
        → calls c t p ≡ answered a
        → a.vote_granted ≡ true
        → tally n (calls c t) + 1 ≤ tally n (set_call c t p (counted a won) calls c t)
    unfolding is_backing
    counted_tally won lt at g =
        tally_grows n p (calls c t) (set_call c t p (counted a won) calls c t)
          (call_grows n nodes calls c t p (counted a won) (λ _. g) c t) lt (rw at refl)
          (rw (==_refl c, ==_refl t, ==_refl p) g)

    pub counts-Inv :
        (r : Raft S) (won : Bool)
        → p < n
        → calls c t p ≡ answered a
        → count_vote t a (nodes c) ≡ (r, won)
        → Inv n nodes calls
        → Inv n (update nodes c r) (set_call c t p (counted a won) calls)
    unfolding is_backing is_grant is_won
    counts-Inv r won lt at e inv =
        let m : Progress (nodes c) r = rw e at (count_vote-Progress t a (nodes c)) in
        let (id, size, role) = count_vote-Counted t a (nodes c) e in
        let keep : is_backing (calls c t p) ≡ true → is_backing (counted a won) ≡ true =
          λ b. (let b' : is_backing (answered a) ≡ true = (rw at at b) in cc) in
        let grows =
          tally_mono n (calls c (nodes c).current_term)
            (set_call c t p (counted a won) calls c (nodes c).current_term)
            (call_grows n nodes calls c t p (counted a won) keep c (nodes c).current_term) in
        let inv' =
          call_change n nodes calls c t p (counted a won) inv (λ q h. cc)
            (λ g. inv.held c t p (rw at g)) (λ d g h. inv.single c d t p (rw at g) h) keep
            (λ w.
              let k = count_vote_wins t a (nodes c) (rw e w) in
              let b : (nodes c).votes_received ≤ tally n (calls c t) =
                rw (← k.0) ((inv.backed c).candidate_votes k.1) in
              omega (arith, k.5, inv.size c, b, counted_tally won lt at k.2)) in
        node_change n nodes (set_call c t p (counted a won) calls) c r inv' (id ∙ inv.id c)
          (omega (arith, size, inv.size c)) (Advances-Progress P n m)
          (elim role [
            | inl f ↦ record { candidate_votes = λ h. cc; leader_votes = λ h. cc }
            | inr (st, tm, inl v) ↦ rw tm (record {
              candidate_votes =
                  λ h. omega (arith, grows, v, (inv.backed c).candidate_votes (sym st ∙ h));
              leader_votes = λ h. omega (arith, grows, (inv.backed c).leader_votes (sym st ∙ h));
            })
            | inr (st, tm, inr (v, cand, g, at_t)) ↦
                rw (tm, at_t)
                  (record {
                    candidate_votes = λ h.
                        let b : (nodes c).votes_received ≤ tally n (calls c t) =
                          rw (← at_t) ((inv.backed c).candidate_votes cand) in
                        omega (arith, b, v, counted_tally won lt at g);
                    leader_votes = λ h. cc;
                  })
          ])

  module _ (nodes : ℕ → Raft S) (calls : Calls) (c : ℕ) where
    pub opened_plain :
        (spawns : List Spawn) (q : ℕ)
        → ((req : RequestVoteRequest) → opened c spawns q ≢ asked req)
          × (is_won (opened c spawns q) ≡ false)
          × (is_grant (opened c spawns q) ≡ true → c ≡ q)
    unfolding opened is_won is_grant
    opened_plain spawns q = elim (Bool-cases (c == q)) [
      | inl e ↦ rw e (λ req h. cc, refl, λ g. (==_iff c q).0 e)
      | inr e ↦ elim (Bool-cases (is_asked spawns q)) [
        | inl a ↦ rw (e, a) (λ req h. cc, refl, λ g. cc)
        | inr a ↦ rw (e, a) (λ req h. cc, refl, λ g. cc)
      ]
    ]

    update-update : (r s : Raft S) → update (update nodes c r) c s ≡ update nodes c s
    update-update r s =
        fun_ext (λ j. elim (Bool-cases (c == j)) [ inl e ↦ rw e refl | inr e ↦ rw e refl ])

    own_vote :
        (spawns : List Spawn)
        → c < n
        → let t = (nodes c).current_term + 1 in
          1 ≤ tally n (set_row c t (opened c spawns) calls c t)
    unfolding opened is_backing
    own_vote spawns lt =
        let t = (nodes c).current_term + 1 in
        tally_pos n c (set_row c t (opened c spawns) calls c t) lt (rw (==_refl c, ==_refl t) refl)

    pub campaigns-Inv :
        (r : Raft S) (spawns : List Spawn)
        → c < n
        → (nodes c).shutdown || is_leader (nodes c) ≡ false
        → become_candidate P (nodes c) ≡ (r, spawns)
        → Inv n nodes calls
        → Inv n (update nodes c r) (set_row c ((nodes c).current_term + 1) (opened c spawns) calls)
    campaigns-Inv r spawns lt live e inv =
        let k = become_candidate-Campaigned P (nodes c) live e in
        let t = (nodes c).current_term + 1 in
        let idle_node = record r { state = follower } in
        let inv1 =
          node_change n nodes calls c idle_node inv (k.id ∙ inv.id c)
            (omega (arith, k.size, inv.size c)) (inl (omega (arith, k.term)))
            (record { candidate_votes = λ h. cc; leader_votes = λ h. cc }) in
        let nodes1 = update nodes c idle_node in
        let self : nodes1 c ≡ idle_node = rw (==_refl c) refl in
        let inv2 =
          row_change n nodes1 calls c t (opened c spawns) inv1 (λ q. (opened_plain spawns q).0)
            (λ q. (opened_plain spawns q).1) (λ q. (opened_plain spawns q).2)
            (rw self (inr (k.term, k.vote ∙ ap some (inv.id c))))
            (λ d g. absurd (let h = inv.held d t c g in omega arith)) (rw self refl) in
        let inv3 =
          node_change n nodes1 (set_row c t (opened c spawns) calls) c r inv2 (k.id ∙ inv.id c)
            (omega (arith, k.size, inv.size c)) (rw self (inr (refl, inr refl)))
            (rw k.term (record {
              candidate_votes = λ h. omega (arith, own_vote spawns lt, k.votes);
              leader_votes = λ h. elim k.alone [
                | inl cand ↦ cc
                | inr zero_peers ↦ omega (arith, own_vote spawns lt, zero_peers, inv.size c)
              ];
            })) in
        rw (update-update idle_node r) at inv3
