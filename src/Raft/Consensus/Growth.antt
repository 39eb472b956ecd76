-- ===== src/Raft/Consensus/Growth.antt =====
-- What a growing history of the terms' logs (raft/) means for a node that does not change.
use distrib_kv.Prelude.{ℕ, ◌≤◌, ◌<◌, ◌≡◌, none, true}
use distrib_kv.Raft.Node.{Raft}
use distrib_kv.Raft.Cluster.{Calls}
use distrib_kv.Raft.Cluster.Tally.{is_grant}
use distrib_kv.Raft.Replicas.Terms.{Terms, Extends}
use distrib_kv.Raft.Consensus.Prefix.{Entry}
use distrib_kv.Raft.Consensus.Settled.{Acks, Safe-Extends}
use distrib_kv.Raft.Consensus.Invariant.{Voter, Running}

module _ {S : Type 0} (dead dead' : ℕ → ℕ → Type 0) (g g' : Terms) (a a' : Acks) (calls : Calls)
    (c : ℕ) (r : Raft S) where
  -- What the node, or one that voted for it, has acknowledged was acknowledged before.
  pub record Unmoved : Type 0 where
    pub extends : Extends g g'
    pub mono : (t k : ℕ) → dead t k → dead' t k
    pub unwon : (t : ℕ) → g'.won t ≡ none → g.won t ≡ none
    pub low : (t : ℕ) → 0 < a' t c → t ≤ r.current_term
    pub kept : (t k : ℕ) → k ≤ a' t c → Entry g' t k → (k ≤ a t c) × Entry g t k
    pub granted :
        (t p : ℕ)
        → is_grant (calls c t p) ≡ true
        → (u k : ℕ) → u < t
        → k ≤ a' u p
        → Entry g' u k
        → (k ≤ a u p) × Entry g u k

  pub Voter-Unmoved : Unmoved → Voter dead g a calls c r → Voter dead' g' a' calls c r
  Voter-Unmoved x v =
      let back : (t : ℕ) → Running g' t r → Running g t r =
        λ t run. (run.0, run.1, x.unwon t run.2) in
      record {
        low = x.low;
        within = v.within;
        kept = λ t k le e.
            let (le', e') = x.kept t k le e in
            Safe-Extends dead dead' g g' r.log t k x.extends (x.mono t k) e' (v.kept t k le' e');
        asked = λ t p req at run. v.asked t p req at (back t run);
        granted = λ t p grant run u k lt le e.
            let (le', e') = x.granted t p grant u k lt le e in
            Safe-Extends dead dead' g g' r.log u k x.extends (x.mono u k) e'
              (v.granted t p grant (back t run) u k lt le' e');
      }
