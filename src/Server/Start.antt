-- ===== src/Server/Start.antt =====
-- What a node that server/run.go has started is.
use mathlib.Core.Option
use mathlib.Core.Path.{subst}
use distrib_kv.Prelude.{
  ℕ, ◌+◌, ◌≡◌, refl, sym, ◌∙◌, ap, List, [], ◌∷◌, none, some, true, false, ℤ, pos_part, lookup,
  lookup_nil, nat_key, String, int_eq, Option-cases, Assoc, length, All, arith, Bool-cases, inl,
  inr,
}
use distrib_kv.Config.{Config, Node, node_by_id, find_node, other_nodes}
use distrib_kv.Config.Valid.{IsEntry, IsValid}
use distrib_kv.Config.Lookups.{find_node-id, other_nodes-ne, length-other_nodes, peers_of-some}
use distrib_kv.Raft.Types.{follower, reply}
use distrib_kv.Raft.Persister.{Persister, SnapshotRead, found, no_snapshot, unreadable}
use distrib_kv.Raft.Node.{Raft}
use distrib_kv.Raft.Lifecycle
use distrib_kv.Raft.Lifecycle.{
  validate, new_raft, new_peers, fresh, load_persisted_state, load_snapshot_state, floor_commit,
  restore_snapshot, start,
}
use distrib_kv.Kv.Types.{default_max_pending_ops}
use distrib_kv.Kv.Server.{new_server}
use distrib_kv.Server.{Process, started, peer_map, raft_config, start_node, start_from_config}
use distrib_kv.Server.Peers.{
  length-peer_map, peer_map_other, peer_map_all, fresh_peer, lookup-new_peers, length-new_peers,
  other_nodes-entries, other_nodes-Distinct,
}

abbrev empty : Assoc ℕ String
empty = []

All-unused : (ps : List Node) → All (λ p. lookup (pos_part p.id) empty ≡ none) ps
All-unused [] = tt
All-unused (p ∷ ps) = (lookup_nil (pos_part p.id), All-unused ps)

pub find_node-IsEntry :
    (i : ℤ) (ns : List Node) {n : Node} → All IsEntry ns → find_node i ns ≡ some n → IsEntry n
unfolding find_node
find_node-IsEntry i [] es h = cc
find_node-IsEntry i (m ∷ ns) {n} es h = elim (Bool-cases (int_eq m.id i)) [
  | inl e ↦ let same : m ≡ n = ground arith in rw (← same) es.0
  | inr e ↦ find_node-IsEntry i ns {n = n} es.1 (ground arith)
]

-- The engine's own checks pass for a valid configuration.
raft_config-valid :
    (c : Config) (n : Node)
    → IsValid c
    → IsEntry n
    → validate (raft_config c n (other_nodes n.id c.nodes)) ≡ true
unfolding validate raft_config
raft_config-valid c n v e =
    let ps = other_nodes n.id c.nodes in
    let unused : lookup (pos_part n.id) (peer_map [] ps) ≡ none =
      peer_map_other [] ps n.id e.0 (other_nodes-entries n.id c.nodes v.entries)
        (other_nodes-ne n.id c.nodes)
      ∙ lookup_nil (pos_part n.id) in
    ground (arith, unused)

mapped_peers :
    (m : Assoc ℕ String) (ps : List Node)
    → All (λ p. lookup (pos_part p.id) m ≡ some p.listen_addr) ps
    → All (λ p. lookup (pos_part p.id) (new_peers m) ≡ some (fresh_peer p.listen_addr)) ps
mapped_peers m [] h = tt
mapped_peers m (p ∷ ps) h =
    (lookup-new_peers (pos_part p.id) m ∙ ap (Option.map fresh_peer) h.0, mapped_peers m ps h.1)

module _ {S : Type 0} where
  -- What recovery leaves of a new node.
  record Keeps (r r' : Raft S) : Type 0 where
    id : r'.server_id ≡ r.server_id
    peers : r'.peers ≡ r.peers
    role : r'.state ≡ r.state
    stopped : r'.shutdown ≡ r.shutdown
    fresh : r'.started ≡ r.started

  load_snapshot_state-Keeps : (s : SnapshotRead) (r : Raft S) → Keeps r (load_snapshot_state s r)
  unfolding load_snapshot_state floor_commit restore_snapshot
  load_snapshot_state-Keeps (found d i t) r = ground arith
  load_snapshot_state-Keeps no_snapshot r = ground arith
  load_snapshot_state-Keeps unreadable r = ground arith

  load_persisted_state-Keeps : (P : Persister S) (r : Raft S) → Keeps r (load_persisted_state P r)
  unfolding load_persisted_state
  load_persisted_state-Keeps P r = elim (Option-cases (P.load r.persister)) [
    | inl e ↦ ground arith
    | inr (h, e) ↦
        let r1 = record r { current_term = h.current_term; voted_for = h.voted_for; log = h.log } in
        ground (arith, load_snapshot_state-Keeps (P.load_snapshot r.persister) r1)
  ]

  new_raft-reply :
      (P : Persister S) (k : Lifecycle.Config) (s : S)
      → validate k ≡ true
      → new_raft P k s ≡ reply (load_persisted_state P (fresh k s))
  unfolding new_raft
  new_raft-reply P k s h = rw h refl

  -- A follower that runs, knows every other node of the configuration at its address, and serves.
  pub record Ready (c : Config) (n : Node) (p : Process S) : Type 0 where
    pub node : p.node ≡ n
    pub id : p.rf.server_id ≡ pos_part n.id
    pub size : length p.rf.peers + 1 ≡ length c.nodes
    pub peers :
        All
          (λ m. lookup (pos_part m.id) p.rf.peers ≡ some (fresh_peer m.listen_addr))
          (other_nodes n.id c.nodes)
    pub role : p.rf.state ≡ follower
    pub running : (p.rf.started ≡ true) × (p.rf.shutdown ≡ false)
    pub serving : (p.listening ≡ true) × (p.serving ≡ true)
    pub kvs : p.kvs ≡ new_server default_max_pending_ops

  abbrev pub node_raft : Persister S → S → Config → Node → Raft S
  node_raft P s c n =
      start (load_persisted_state P (fresh (raft_config c n (other_nodes n.id c.nodes)) s))

  abbrev pub process : Persister S → S → Config → Node → Process S
  process P s c n = record {
    cfg = c;
    node = n;
    rf = node_raft P s c n;
    kvs = new_server default_max_pending_ops;
    listening = true;
    serving = true;
  }

  pub start_node-eq :
      (P : Persister S) (s : S) (c : Config) (n : Node)
      → IsValid c
      → IsEntry n
      → start_node P s c n ≡ started (process P s c n)
  unfolding start_node
  start_node-eq P s c n v e =
      rw
        (
          peers_of-some n.id c v.nonempty,
          start_node,
          new_raft-reply P (raft_config c n (other_nodes n.id c.nodes)) s
              (raft_config-valid c n v e),
        )
        refl

  pub start_from_config-eq :
      (P : Persister S) (s : S) (c : Config) (i : ℤ) {n : Node}
      → node_by_id i c ≡ some n
      → start_from_config P s true c i ≡ start_node P s c n
  unfolding start_from_config
  start_from_config-eq P s c i h = rw (h, start_from_config) refl

  -- A node that is built and started, whatever its store holds.
  started_raft :
      (P : Persister S) (k : Lifecycle.Config) (s : S)
      → let r = start (load_persisted_state P (fresh k s)) in
        (r.server_id ≡ pos_part k.server_id)
        × (r.peers ≡ new_peers k.peers)
        × (r.state ≡ follower)
        × (r.started ≡ true)
        × (r.shutdown ≡ false)
  unfolding start fresh
  started_raft P k s =
      let keeps = load_persisted_state-Keeps P (fresh k s) in
      (ground arith, ground arith, ground arith, ground arith, ground arith)

  process-Ready :
      (P : Persister S) (s : S) (c : Config) (i : ℤ) (n : Node)
      → IsValid c
      → find_node i c.nodes ≡ some n
      → Ready c n (process P s c n)
  unfolding raft_config
  process-Ready P s c i n v h =
      let same : n.id ≡ i = find_node-id i c.nodes h in
      let ps = other_nodes n.id c.nodes in
      let es = other_nodes-entries n.id c.nodes v.entries in
      let ds = other_nodes-Distinct n.id c.nodes v.distinct in
      let m = peer_map [] ps in
      let r = started_raft P (raft_config c n ps) s in
      record {
        node = refl;
        id = r.0;
        size = rw r.1 (
            omega (
              arith,
              length-new_peers m,
              length-peer_map [] ps es ds (All-unused ps),
              length-other_nodes n.id c.nodes {n = n} v.distinct
                  (subst (λ k. find_node k c.nodes ≡ some n) (sym same) h),
            ));
        peers = rw r.1 (mapped_peers m ps (peer_map_all [] ps es ds));
        role = r.2;
        running = (r.3, r.4);
        serving = (refl, refl);
        kvs = refl;
      }

  -- A node of a valid configuration whose port can be bound starts: its engine is a running
  -- follower with the node's id, which knows every other node of the configuration at its address
  -- and counts as many nodes as the configuration has; it serves calls, on a state machine that is
  -- new.
  pub start_from_config-Ready :
      (P : Persister S) (s : S) (c : Config) (i : ℤ) {n : Node}
      → IsValid c
      → node_by_id i c ≡ some n
      → (p : Process S) × (start_from_config P s true c i ≡ started p) × Ready c n p
  unfolding node_by_id
  start_from_config-Ready P s c i {n} v h = (
    process P s c n,
    start_from_config-eq P s c i h
        ∙ start_node-eq P s c n v (find_node-IsEntry i c.nodes v.entries h),
    process-Ready P s c i n v h,
  )
