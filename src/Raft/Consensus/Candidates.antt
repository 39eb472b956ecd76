-- ===== src/Raft/Consensus/Candidates.antt =====
-- A node of a cluster (raft/election.go) that begins an election, and one that wins it.
use distrib_kv.Prelude.{
  ℕ, ◌<◌, ◌≡◌, ◌≢◌, ==_iff, refl, sym, ◌∙◌, inl, inr, true, false, ◌==◌, Bool-cases, arith, ==_refl,
}
use mathlib.Core.Path.{subst}
use distrib_kv.Raft.Types.{RequestVoteRequest}
use distrib_kv.Raft.Node.{Raft}
use distrib_kv.Raft.Cluster.{Call, Calls, asked, update, set_row}
use distrib_kv.Raft.Cluster.Tally.{is_grant}
use distrib_kv.Raft.Replicas.Terms.{Terms}
use distrib_kv.Raft.Consensus.Settled.{Acks, Dead}
use distrib_kv.Raft.Consensus.Invariant.{Acked, Voter, Voter-mono, History_mono, node_dead}

module _ {S : Type 0} (dead : ℕ → ℕ → Type 0) (g : Terms) (a : Acks) (calls : Calls) (c : ℕ)
    (f : ℕ → Call) where
  candidate_Voter :
      (s r : Raft S)
      → r.log ≡ s.log
      → s.current_term < r.current_term
      → ((q : ℕ) (req : RequestVoteRequest) → f q ≢ asked req)
      → ((q : ℕ) → is_grant (f q) ≡ true → c ≡ q)
      → Voter dead g a calls c s
      → Voter dead g a (set_row c r.current_term f calls) c r
  candidate_Voter s r log later plain self v =
      let t = r.current_term in
      let row : (u p : ℕ) → t ≡ u → set_row c t f calls c u p ≡ f p =
        λ u p q. rw (← q, ==_refl c, ==_refl t) refl in
      record {
        low = λ u pos. omega (arith, v.low u pos);
        within = λ k e h. omega (arith, v.within k e (rw log at h));
        kept = λ u k le e. rw log (v.kept u k le e);
        asked = λ u p req h run. absurd (plain p req (sym (row u p run.1) ∙ h));
        granted = λ u p grant run w k lt le e.
            let q = self p (rw (row u p run.1) at grant) in rw log (v.kept w k (rw (← q) at le) e);
      }

  other_Voter :
      (t d : ℕ) (r : Raft S)
      → c == d ≡ false
      → Voter dead g a calls d r
      → Voter dead g a (set_row c t f calls) d r
  other_Voter t d r far v = record {
    low = v.low;
    within = v.within;
    kept = v.kept;
    asked = λ u p. rw far (v.asked u p);
    granted = λ u p. rw far (v.granted u p);
  }

module _ {S : Type 0} (n : ℕ) (g : Terms) (a : Acks) (nodes : ℕ → Raft S) (calls : Calls) where
  -- A new candidate; the calls of its election carry no request yet, and its own vote only.
  pub Acked-campaign :
      (c : ℕ) (r : Raft S) (f : ℕ → Call)
      → r.log ≡ (nodes c).log
      → (nodes c).current_term < r.current_term
      → ((q : ℕ) (req : RequestVoteRequest) → f q ≢ asked req)
      → ((q : ℕ) → is_grant (f q) ≡ true → c ≡ q)
      → Acked n g a nodes calls
      → Acked n g a (update nodes c r) (set_row c r.current_term f calls)
  Acked-campaign c r f log later plain self v =
      let t = r.current_term in
      let up = node_dead n g a nodes calls c r (omega arith) in
      let old : (d : ℕ) → Voter (Dead n a (update nodes c r)) g a calls d (nodes d) =
        λ d. Voter-mono _ _ g a calls d (nodes d) up (v.voters d) in
      record {
        voters = λ d. elim (Bool-cases (c == d)) [
          | inl e ↦
              let q : c ≡ d = (==_iff c d).0 e in
              subst
                (λ j.
                  Voter (Dead n a (update nodes c r)) g a (set_row c t f calls) j
                    (update nodes c r j))
                q
                (rw (==_refl c)
                  (candidate_Voter _ g a calls c f (nodes c) r log later plain self (old c)))
          | inr far ↦
              subst (λ s. Voter (Dead n a (update nodes c r)) g a (set_row c t f calls) d s)
                (sym (update_far nodes c r d far))
                (other_Voter _ g a calls c f t d (nodes d) far (old d))
        ];
        history = History_mono _ _ g a up v.history;
      }
    where
      update_far :
          (h : ℕ → Raft S) (i : ℕ) (s : Raft S) (d : ℕ) → i == d ≡ false → update h i s d ≡ h d
      update_far h i s d far = rw far refl
