-- ===== src/Server/Peers.antt =====
-- The peers that server/run.go hands to the engine.
use mathlib.Core.Option
use distrib_kv.Prelude.{
  ℕ, ◌+◌, ◌≡◌, ◌≢◌, refl, sym, ◌∙◌, ap, List, [], ◌∷◌, none, some, false, String, ℤ, pos, negsuc,
  pos_part, ◌≤ℤ◌, int_eq, Assoc, lookup, insert, lookup-insert, nat_key, Key, length, All, ◌==◌,
  ==_iff, arith, Bool-cases, inl, inr,
}
use distrib_kv.Config.{Node, other_nodes}
use distrib_kv.Config.Valid.{IsEntry, Distinct}
use distrib_kv.Raft.Node.{Peer}
use distrib_kv.Raft.Lifecycle.{new_peers}
use distrib_kv.Server.{peer_map}

pub length-insert_of_not_mem {ℓ κ} :
    {K : Type ℓ} {V : Type κ} ⦃e : Key K⦄ (k : K) (v : V) (m : Assoc K V)
    → lookup k m ≡ none
    → length (insert k v m) ≡ length m + 1
unfolding lookup insert
length-insert_of_not_mem k v [] h = omega arith
length-insert_of_not_mem k v ((j, x) ∷ m) h = ground (arith, length-insert_of_not_mem k v m)

-- Ids that are not negative are apart as keys where they are apart.
key_apart : (i j : ℤ) → pos 0 ≤ℤ i → pos 0 ≤ℤ j → i ≢ j → (pos_part i == pos_part j) ≡ false
key_apart (negsuc i) j p q h = absurd (omega arith)
key_apart (pos i) (negsuc j) p q h = absurd (omega arith)
key_apart (pos i) (pos j) p q h = elim (Bool-cases (i == j)) [
  | inl e ↦ absurd (h (ap pos ((==_iff i j).0 e)))
  | inr e ↦ e
]

-- No node of the list has a key of the map.
abbrev Unused : Assoc ℕ String → List Node → Type 0
Unused m = All (λ p. lookup (pos_part p.id) m ≡ none)

Unused-insert :
    (m : Assoc ℕ String) (p : Node) (ps : List Node)
    → IsEntry p
    → All IsEntry ps
    → All (λ q. q.id ≢ p.id) ps
    → Unused m ps
    → Unused (insert (pos_part p.id) p.listen_addr m) ps
Unused-insert m p [] e es ne u = tt
Unused-insert m p (q ∷ ps) e es ne u = (
  lookup-insert (pos_part p.id) (pos_part q.id) p.listen_addr m
      ∙ rw (key_apart p.id q.id e.0 es.0.0 (λ h. ne.0 (sym h))) u.0,
  Unused-insert m p ps e es.1 ne.1 u.1,
)

pub length-peer_map :
    (m : Assoc ℕ String) (ps : List Node)
    → All IsEntry ps
    → Distinct ps
    → Unused m ps
    → length (peer_map m ps) ≡ length m + length ps
unfolding peer_map
length-peer_map m [] es d u = omega arith
length-peer_map m (p ∷ ps) es d u =
    let ih =
      length-peer_map (insert (pos_part p.id) p.listen_addr m) ps es.1 d.1
        (Unused-insert m p ps es.0 es.1 d.0 u.1) in
    omega (arith, ih, length-insert_of_not_mem (pos_part p.id) p.listen_addr m u.0)

-- A key that no node has is looked up in the map that was there before.
pub peer_map_other :
    (m : Assoc ℕ String) (ps : List Node) (i : ℤ)
    → pos 0 ≤ℤ i
    → All IsEntry ps
    → All (λ p. p.id ≢ i) ps
    → lookup (pos_part i) (peer_map m ps) ≡ lookup (pos_part i) m
unfolding peer_map
peer_map_other m [] i h es ne = refl
peer_map_other m (p ∷ ps) i h es ne =
    peer_map_other (insert (pos_part p.id) p.listen_addr m) ps i h es.1 ne.1
    ∙ lookup-insert (pos_part p.id) (pos_part i) p.listen_addr m
    ∙ rw (key_apart p.id i es.0.0 h ne.0) refl

-- Every node of the list is found under its id, with its address.
pub peer_map_all :
    (m : Assoc ℕ String) (ps : List Node)
    → All IsEntry ps
    → Distinct ps
    → All (λ p. lookup (pos_part p.id) (peer_map m ps) ≡ some p.listen_addr) ps
unfolding peer_map
peer_map_all m [] es d = tt
peer_map_all m (p ∷ ps) es d =
    let m' = insert (pos_part p.id) p.listen_addr m in
    (
      peer_map_other m' ps p.id es.0.0 es.1 d.0
          ∙ lookup-insert (pos_part p.id) (pos_part p.id) p.listen_addr m
          ∙ rw ((==_iff (pos_part p.id) (pos_part p.id)).1 refl) refl,
      peer_map_all m' ps es.1 d.1,
    )

abbrev pub fresh_peer : String → Peer
fresh_peer a = record { address = a; conn = false; next_index = 1; match_index = 0 }

pub lookup-new_peers :
    (k : ℕ) (m : Assoc ℕ String) → lookup k (new_peers m) ≡ Option.map fresh_peer (lookup k m)
unfolding lookup new_peers
lookup-new_peers k [] = refl
lookup-new_peers k ((j, a) ∷ m) = ground (arith, lookup-new_peers k m)

pub length-new_peers : (m : Assoc ℕ String) → length (new_peers m) ≡ length m
unfolding new_peers
length-new_peers [] = refl
length-new_peers ((j, a) ∷ m) = omega (arith, length-new_peers m)

-- The other nodes of a list are entries with ids that differ, and one fewer.
pub other_nodes-entries : (i : ℤ) (ns : List Node) → All IsEntry ns → All IsEntry (other_nodes i ns)
unfolding other_nodes
other_nodes-entries i [] es = tt
other_nodes-entries i (m ∷ ns) es = elim (Bool-cases (int_eq m.id i)) [
  | inl e ↦ rw e (other_nodes-entries i ns es.1)
  | inr e ↦ rw e (es.0, other_nodes-entries i ns es.1)
]

other_nodes-fresh :
    (i j : ℤ) (ns : List Node) → All (λ m. m.id ≢ j) ns → All (λ m. m.id ≢ j) (other_nodes i ns)
unfolding other_nodes
other_nodes-fresh i j [] h = tt
other_nodes-fresh i j (m ∷ ns) h = elim (Bool-cases (int_eq m.id i)) [
  | inl e ↦ rw e (other_nodes-fresh i j ns h.1)
  | inr e ↦ rw e (h.0, other_nodes-fresh i j ns h.1)
]

pub other_nodes-Distinct : (i : ℤ) (ns : List Node) → Distinct ns → Distinct (other_nodes i ns)
unfolding other_nodes
other_nodes-Distinct i [] d = tt
other_nodes-Distinct i (m ∷ ns) d = elim (Bool-cases (int_eq m.id i)) [
  | inl e ↦ rw e (other_nodes-Distinct i ns d.1)
  | inr e ↦ rw e (other_nodes-fresh i m.id ns d.0, other_nodes-Distinct i ns d.1)
]
