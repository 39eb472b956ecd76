-- ===== src/Raft/Cluster/Invariant.antt =====
-- The invariant of the elections of a cluster (raft/election.go), and what keeps it.
use mathlib.Core.Path.{subst}
use distrib_kv.Prelude.{
  ℕ, ◌+◌, ◌*◌, ◌≤◌, ◌<◌, ◌≡◌, ◌≢◌, ◌∙◌, sym, ◌⊎◌, inl, inr, none, some, true, false, ◌==◌, ◌&&◌,
  Bool-cases, ==_iff, arith, length,
}
use distrib_kv.Raft.Types.{follower, candidate, leader, RequestVoteRequest}
use distrib_kv.Raft.Node.{Raft}
use distrib_kv.Raft.Cluster.{Call, Calls, asked, update, set_call, set_row}
use distrib_kv.Raft.Cluster.Tally.{is_grant, is_backing, is_won, tally, tally_mono}

-- What stands at a call after `set_call`.
pub set_call_cases :
    (c t p : ℕ) (v : Call) (calls : Calls) (d u q : ℕ)
    → ((set_call c t p v calls d u q ≡ v) × (c ≡ d) × (t ≡ u) × (p ≡ q))
      ⊎ (set_call c t p v calls d u q ≡ calls d u q)
set_call_cases c t p v calls d u q = ground arith

pub set_row_cases :
    (c t : ℕ) (f : ℕ → Call) (calls : Calls) (d u q : ℕ)
    → ((set_row c t f calls d u q ≡ f q) × (c ≡ d) × (t ≡ u))
      ⊎ (set_row c t f calls d u q ≡ calls d u q)
set_row_cases c t f calls d u q = ground arith

module _ {S : Type 0} where
  -- A vote in the term `t` for `c` is still the node's vote, or its term has risen.
  abbrev pub Held : ℕ → ℕ → Raft S → Type 0
  Held c t r = (t < r.current_term) ⊎ ((r.current_term ≡ t) × (r.voted_for ≡ some c))

  -- A candidate has counted no more votes than it was given, and a leader was given a majority.
  pub record Backed (n : ℕ) (r : Raft S) (row : ℕ → Call) : Type 0 where
    pub candidate_votes : r.state ≡ candidate → r.votes_received ≤ tally n row
    pub leader_votes : r.state ≡ leader → n ≤ 2 * tally n row

  pub record Inv (n : ℕ) (nodes : ℕ → Raft S) (calls : Calls) : Type 0 where
    pub id : (i : ℕ) → (nodes i).server_id ≡ i
    pub size : (i : ℕ) → length (nodes i).peers + 1 ≡ n
    pub carried :
        (c t p : ℕ) (req : RequestVoteRequest)
        → calls c t p ≡ asked req
        → (req.term ≡ t) × (req.candidate_id ≡ c)
    pub held : (c t p : ℕ) → is_grant (calls c t p) ≡ true → Held c t (nodes p)
    pub single :
        (c d t p : ℕ) → is_grant (calls c t p) ≡ true → is_grant (calls d t p) ≡ true → c ≡ d
    pub backed : (c : ℕ) → Backed n (nodes c) (calls c (nodes c).current_term)
    pub elected : (c t p : ℕ) → is_won (calls c t p) ≡ true → n ≤ 2 * tally n (calls c t)

  -- A property of every node survives the change of one.
  pub update_all :
      (Q : ℕ → Raft S → Type 0) (nodes : ℕ → Raft S) (i : ℕ) (r : Raft S)
      → ((j : ℕ) → Q j (nodes j))
      → Q i r
      → (j : ℕ) → Q j (update nodes i r j)
  update_all Q nodes i r all here j = elim (Bool-cases (i == j)) [
    | inl e ↦ rw e (subst (λ k. Q k r) ((==_iff i j).0 e) here)
    | inr e ↦ rw e (all j)
  ]

  -- The term does not fall, and a vote stands until it rises.
  abbrev pub Advances : Raft S → Raft S → Type 0
  Advances r r' =
      (r.current_term < r'.current_term)
      ⊎ ((r'.current_term ≡ r.current_term) × ((r.voted_for ≡ none) ⊎ (r'.voted_for ≡ r.voted_for)))

  Held-Advances : (c t : ℕ) (r r' : Raft S) → Advances r r' → Held c t r → Held c t r'
  Held-Advances c t r r' a h = ground arith

  pub node_change :
      (n : ℕ) (nodes : ℕ → Raft S) (calls : Calls) (i : ℕ) (r : Raft S)
      → Inv n nodes calls
      → r.server_id ≡ i
      → length r.peers + 1 ≡ n
      → Advances (nodes i) r
      → Backed n r (calls i r.current_term)
      → Inv n (update nodes i r) calls
  node_change n nodes calls i r v id size adv backed = record {
    id = update_all (λ j s. s.server_id ≡ j) nodes i r v.id id;
    size = update_all (λ j s. length s.peers + 1 ≡ n) nodes i r v.size size;
    carried = v.carried;
    held = λ c t.
        update_all (λ p s. is_grant (calls c t p) ≡ true → Held c t s) nodes i r (v.held c t)
          (λ g. Held-Advances c t (nodes i) r adv (v.held c t i g));
    single = v.single;
    backed = update_all (λ j s. Backed n s (calls j s.current_term)) nodes i r v.backed backed;
    elected = v.elected;
  }

  pub Backed-mono :
      (n : ℕ) (r : Raft S) (f g : ℕ → Call) → tally n f ≤ tally n g → Backed n r f → Backed n r g
  Backed-mono n r f g le b = record {
    candidate_votes = λ h. omega (arith, b.candidate_votes h);
    leader_votes = λ h. omega (arith, b.leader_votes h);
  }

  module _ (n : ℕ) (nodes : ℕ → Raft S) (calls : Calls) (c t p : ℕ) (v : Call) where
    pub call_grows :
        (is_backing (calls c t p) ≡ true → is_backing v ≡ true)
        → (d u q : ℕ) → is_backing (calls d u q) ≡ true
        → is_backing (set_call c t p v calls d u q) ≡ true
    call_grows keep d u q h = elim (set_call_cases c t p v calls d u q) [
      | inl (e, ec, et, ep) ↦ rw e (keep (rw (ec, et, ep) h))
      | inr e ↦ rw e h
    ]

    pub call_change :
        Inv n nodes calls
        → ((req : RequestVoteRequest) → v ≡ asked req → (req.term ≡ t) × (req.candidate_id ≡ c))
        → (is_grant v ≡ true → Held c t (nodes p))
        → ((d : ℕ) → is_grant v ≡ true → is_grant (calls d t p) ≡ true → c ≡ d)
        → (is_backing (calls c t p) ≡ true → is_backing v ≡ true)
        → (is_won v ≡ true → n ≤ 2 * tally n (set_call c t p v calls c t))
        → Inv n nodes (set_call c t p v calls)
    call_change inv carried held single keep won = record {
      id = inv.id;
      size = inv.size;
      carried = λ d u q req h. elim (set_call_cases c t p v calls d u q) [
        | inl (e, ec, et, ep) ↦ rw (← ec, ← et) (carried req (sym e ∙ h))
        | inr e ↦ inv.carried d u q req (sym e ∙ h)
      ];
      held = λ d u q g. elim (set_call_cases c t p v calls d u q) [
        | inl (e, ec, et, ep) ↦ rw (← ec, ← et, ← ep) (held (rw (← e) g))
        | inr e ↦ inv.held d u q (rw (← e) g)
      ];
      single = λ d d' u q g g'. elim (set_call_cases c t p v calls d u q) [
        | inl (e, ec, et, ep) ↦ elim (set_call_cases c t p v calls d' u q) [
          | inl (e', ec', et', ep') ↦ sym ec ∙ ec'
          | inr e' ↦ sym ec ∙ single d' (rw (← e) g) (rw (et, ep, ← e') g')
        ]
        | inr e ↦ elim (set_call_cases c t p v calls d' u q) [
          | inl (e', ec', et', ep') ↦ sym (sym ec' ∙ single d (rw (← e') g') (rw (et', ep', ← e) g))
          | inr e' ↦ inv.single d d' u q (rw (← e) g) (rw (← e') g')
        ]
      ];
      backed = λ d.
          Backed-mono n (nodes d) (calls d (nodes d).current_term) _
            (tally_mono n _ _ (call_grows keep d (nodes d).current_term)) (inv.backed d);
      elected = λ d u q w. elim (set_call_cases c t p v calls d u q) [
        | inl (e, ec, et, ep) ↦ rw (← ec, ← et) (won (rw (← e) w))
        | inr e ↦ omega (
          arith,
          inv.elected d u q (rw (← e) w),
          tally_mono n (calls d u) (set_call c t p v calls d u) (call_grows keep d u),
        )
      ];
    }

  module _ (n : ℕ) (nodes : ℕ → Raft S) (calls : Calls) (c t : ℕ) (f : ℕ → Call) where
    pub row_change :
        Inv n nodes calls
        → ((q : ℕ) (req : RequestVoteRequest) → f q ≢ asked req)
        → ((q : ℕ) → is_won (f q) ≡ false)
        → ((q : ℕ) → is_grant (f q) ≡ true → c ≡ q)
        → Held c t (nodes c)
        → ((d : ℕ) → is_grant (calls d t c) ≡ true → c ≡ d)
        → (follower ≡ (nodes c).state)
        → Inv n nodes (set_row c t f calls)
    row_change inv no_request no_win self held single idle = record {
      id = inv.id;
      size = inv.size;
      carried = λ d u q req h. elim (set_row_cases c t f calls d u q) [
        | inl (e, ec, et) ↦ absurd (no_request q req (sym e ∙ h))
        | inr e ↦ inv.carried d u q req (sym e ∙ h)
      ];
      held = λ d u q g. elim (set_row_cases c t f calls d u q) [
        | inl (e, ec, et) ↦
            rw (← ec, ← et) (subst (λ k. Held c t (nodes k)) (self q (rw (← e) g)) held)
        | inr e ↦ inv.held d u q (rw (← e) g)
      ];
      single = λ d d' u q g g'. elim (set_row_cases c t f calls d u q) [
        | inl (e, ec, et) ↦ elim (set_row_cases c t f calls d' u q) [
          | inl (e', ec', et') ↦ sym ec ∙ ec'
          | inr e' ↦ sym ec ∙ single d' (rw (et, self q (rw (← e) g), ← e') g')
        ]
        | inr e ↦ elim (set_row_cases c t f calls d' u q) [
          | inl (e', ec', et') ↦ sym (sym ec' ∙ single d (rw (et', self q (rw (← e') g'), ← e) g))
          | inr e' ↦ inv.single d d' u q (rw (← e) g) (rw (← e') g')
        ]
      ];
      backed = λ d. elim (Bool-cases (c == d)) [
        | inl e ↦
            subst (λ k. Backed n (nodes k) (set_row c t f calls k (nodes k).current_term))
              ((==_iff c d).0 e) (record { candidate_votes = λ h. cc; leader_votes = λ h. cc })
        | inr e ↦
            Backed-mono n (nodes d) (calls d (nodes d).current_term) _
              (tally_mono n _ _ (λ q h. rw e h)) (inv.backed d)
      ];
      elected = λ d u q w. elim (Bool-cases (c == d && t == u)) [
        | inl e ↦ cc (no_win q, let w' : is_won (f q) ≡ true = (rw e at w) in w')
        | inr e ↦ omega (
          arith,
          inv.elected d u q (rw e at w),
          tally_mono n (calls d u) (set_row c t f calls d u) (λ q' h. rw e h),
        )
      ];
    }
