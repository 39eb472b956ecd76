-- ===== src/Config/Lookups.antt =====
-- `NodeByID` and `PeersOf` of config/config.go.
use mathlib.Core.List.Perm
use mathlib.Core.List.{Perm}
use distrib_kv.Prelude.{
  length, ◌+◌, ◌≡◌, ◌≢◌, refl, List, [], ◌∷◌, some, ℤ, int_eq, int_eq_iff, All, arith, Bool-cases,
  inl, inr,
}
use distrib_kv.Config.{Config, Node, find_node, node_by_id, other_nodes, peers_of}
use distrib_kv.Config.Valid.{Distinct, IsValid}

pub find_node-id : (i : ℤ) (ns : List Node) {n : Node} → find_node i ns ≡ some n → n.id ≡ i
unfolding find_node
find_node-id i [] h = cc
find_node-id i (m ∷ ns) {n} h = ground (arith, int_eq_iff m.id i, find_node-id i ns {n = n})

-- Without the id in the list, all of it is other nodes.
other_nodes_all : (i : ℤ) (ns : List Node) → All (λ m. m.id ≢ i) ns → other_nodes i ns ≡ ns
unfolding other_nodes
other_nodes_all i [] h = refl
other_nodes_all i (m ∷ ns) h = elim (Bool-cases (int_eq m.id i)) [
  | inl e ↦ absurd (h.0 ((int_eq_iff m.id i).0 e))
  | inr e ↦ rw (e, other_nodes_all i ns h.1) refl
]

pub other_nodes-ne : (i : ℤ) (ns : List Node) → All (λ m. m.id ≢ i) (other_nodes i ns)
unfolding other_nodes
other_nodes-ne i [] = tt
other_nodes-ne i (m ∷ ns) = elim (Bool-cases (int_eq m.id i)) [
  | inl e ↦ rw e (other_nodes-ne i ns)
  | inr e ↦ rw e ((λ h. cc (e, (int_eq_iff m.id i).1 h)), other_nodes-ne i ns)
]

other_nodes-Perm :
    (i : ℤ) (ns : List Node) {n : Node}
    → Distinct ns
    → find_node i ns ≡ some n
    → Perm (n ∷ other_nodes i ns) ns
unfolding find_node other_nodes
other_nodes-Perm i [] d h = cc
other_nodes-Perm i (m ∷ ns) {n} d h = elim (Bool-cases (int_eq m.id i)) [
  | inl e ↦
      let same : m ≡ n = ground arith in
      let rest : All (λ k. k.id ≢ i) ns = rw (← ((int_eq_iff m.id i).0 e)) d.0 in
      rw (e, same, other_nodes_all i ns rest) (Perm.refl (n ∷ ns))
  | inr e ↦
      let deeper : find_node i ns ≡ some n = ground arith in
      rw e (
        Perm.trans (Perm.swap m n (other_nodes i ns))
          (Perm.cons m (other_nodes-Perm i ns d.1 deeper)))
]

pub length-other_nodes :
    (i : ℤ) (ns : List Node) {n : Node}
    → Distinct ns
    → find_node i ns ≡ some n
    → length (other_nodes i ns) + 1 ≡ length ns
unfolding find_node other_nodes
length-other_nodes i [] d h = cc
length-other_nodes i (m ∷ ns) {n} d h = elim (Bool-cases (int_eq m.id i)) [
  | inl e ↦
      let rest : All (λ k. k.id ≢ i) ns = rw (← ((int_eq_iff m.id i).0 e)) d.0 in
      rw (e, other_nodes_all i ns rest) (omega arith)
  | inr e ↦
      let deeper : find_node i ns ≡ some n = ground arith in
      rw e (omega (arith, length-other_nodes i ns d.1 deeper))
]

pub peers_of-some :
    (i : ℤ) (c : Config) → c.nodes ≢ [] → peers_of i c ≡ some (other_nodes i c.nodes)
unfolding peers_of
peers_of-some i c h = ground arith

-- In a valid configuration whose node with an id is found, the peers of the id are there, none of
-- them has the id, and the node and its peers are the nodes of the configuration, each once.
pub peers_of-Perm :
    (i : ℤ) (c : Config) {n : Node}
    → IsValid c
    → node_by_id i c ≡ some n
    → (ps : List Node) × (peers_of i c ≡ some ps)
      × (n.id ≡ i)
      × All (λ m. m.id ≢ i) ps
      × Perm (n ∷ ps) c.nodes
unfolding node_by_id peers_of
peers_of-Perm i c {n} v h = (
  other_nodes i c.nodes,
  peers_of-some i c v.nonempty,
  find_node-id i c.nodes h,
  other_nodes-ne i c.nodes,
  other_nodes-Perm i c.nodes v.distinct h,
)
