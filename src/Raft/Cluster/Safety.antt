-- ===== src/Raft/Cluster/Safety.antt =====
-- The elections of a cluster (raft/election.go): a term has one leader.

use distrib_kv.Prelude.{
  ℕ, ◌+◌, ◌*◌, ◌%◌, ◌≤◌, ◌≡◌, ◌≢◌, inl, inr, true, ◌==◌, Bool-cases, ==_iff, arith, length,
}
use distrib_kv.Raft.Types.{follower, leader}
use distrib_kv.Raft.Persister.{Persister}
use distrib_kv.Raft.Node.{Raft}
use distrib_kv.Raft.Cluster.{
  Calls, System, idle, Step, Reach, here, next, campaigns, asks, answers, counts, wins, loses,
  other,
}
use distrib_kv.Raft.Cluster.Tally.{
  is_grant, is_backing, is_won, backing-grant, tally, tally_disjoint,
}
use distrib_kv.Raft.Cluster.Invariant.{Inv}
use distrib_kv.Raft.Cluster.Steps.{other-Inv, asks-Inv, loses-Inv, wins-Inv, answers-Inv}
use distrib_kv.Raft.Cluster.Campaigns.{counts-Inv, campaigns-Inv}

module _ {S : Type 0} (P : Persister S) (n : ℕ) where
  -- The nodes carry their ids, know a cluster of `n`, and start as followers; no call is open.
  pub record Initial (s : System S) : Type 0 where
    pub id : (i : ℕ) → (s.nodes i).server_id ≡ i
    pub size : (i : ℕ) → length (s.nodes i).peers + 1 ≡ n
    pub role : (i : ℕ) → (s.nodes i).state ≡ follower
    pub quiet : (c t p : ℕ) → s.calls c t p ≡ idle

  pub Initial-Inv : (s : System S) → Initial s → Inv n s.nodes s.calls
  unfolding is_grant is_won
  Initial-Inv s h = record {
    id = h.id;
    size = h.size;
    carried = λ c t p req e. cc (h.quiet c t p);
    held = λ c t p g. cc (let g' : is_grant idle ≡ true = (rw (h.quiet c t p) at g) in g');
    single = λ c d t p g k. cc (let g' : is_grant idle ≡ true = (rw (h.quiet c t p) at g) in g');
    backed =
        λ c. record { candidate_votes = λ e. cc (h.role c); leader_votes = λ e. cc (h.role c) };
    elected = λ c t p w. cc (let w' : is_won idle ≡ true = (rw (h.quiet c t p) at w) in w');
  }

  pub Step-Inv : {s t : System S} → Step P n s t → Inv n s.nodes s.calls → Inv n t.nodes t.calls
  Step-Inv {s} (campaigns c {r'} {spawns} lt live e) inv =
      campaigns-Inv P n s.nodes s.calls c r' spawns lt live e inv
  Step-Inv {s} (asks c t p at) inv = asks-Inv P n s.nodes s.calls c t p at inv
  Step-Inv {s} (answers c t p req {out} {r'} at e) inv =
      answers-Inv P n s.nodes s.calls c t p req out r' at e inv
  Step-Inv {s} (counts c t p a {r'} {won} lt at e) inv =
      counts-Inv P n s.nodes s.calls c t p a r' won lt at e inv
  Step-Inv {s} (wins c t p a at same) inv = wins-Inv P n s.nodes s.calls c t p a at same inv
  Step-Inv {s} (loses c t p open_call) inv = loses-Inv P n s.nodes s.calls c t p open_call inv
  Step-Inv {s} (other i e calm) inv = other-Inv P n s.nodes s.calls i e calm inv

  Reach-Inv : {s t : System S} → Inv n s.nodes s.calls → Reach P n s t → Inv n t.nodes t.calls
  Reach-Inv inv here = inv
  Reach-Inv inv (next r st) = Step-Inv st (Reach-Inv inv r)

  -- Two candidates of one term have no voter in common.
  pub disjoint_votes :
      (nodes : ℕ → Raft S) (calls : Calls) (i j t : ℕ)
      → Inv n nodes calls
      → i ≢ j
      → tally n (calls i t) + tally n (calls j t) ≤ n
  disjoint_votes nodes calls i j t inv ne = tally_disjoint n (calls i t) (calls j t) (λ p b.
      elim (Bool-cases (is_backing (calls j t p))) [
        | inl b' ↦ absurd (
            ne
              (inv.single i j t p (backing-grant (calls i t p) b) (backing-grant (calls j t p) b')))
        | inr none_there ↦ none_there
      ])

  -- The elections of a cluster of an odd number of nodes that start as followers and do not
  -- restart, where the answers to vote requests may be late or lost, any other events of the nodes
  -- come in between, and a node whose count has reached the majority becomes the leader before its
  -- term changes: at any time two leaders of the same term are the same node.
  pub one_leader_per_term :
      {s s' : System S} (i j : ℕ)
      → n % 2 ≡ 1
      → Initial s
      → Reach P n s s'
      → (s'.nodes i).state ≡ leader
      → (s'.nodes j).state ≡ leader
      → (s'.nodes i).current_term ≡ (s'.nodes j).current_term
      → i ≡ j
  one_leader_per_term {s} {s'} i j odd start reach li lj same =
      let inv = Reach-Inv (Initial-Inv s start) reach in
      let t = (s'.nodes i).current_term in
      let bi = (inv.backed i).leader_votes li in
      let bj : n ≤ 2 * tally n (s'.calls j t) = rw same ((inv.backed j).leader_votes lj) in
      elim (Bool-cases (i == j)) [
        | inl e ↦ (==_iff i j).0 e
        | inr e ↦ absurd (
            let d = disjoint_votes s'.nodes s'.calls i j t inv (λ h. cc ((==_iff i j).1 h)) in
            omega arith)
      ]
