-- ===== src/Config/Valid.antt =====
-- What `validate` of config/config.go accepts.
use distrib_kv.Prelude.{
  ◌≡◌, ◌≢◌, refl, sym, ◌∙◌, ◌↔◌, List, [], ◌∷◌, none, Bool, true, str_eq, str_eq_iff, ℤ, pos, ◌≤ℤ◌,
  ◌<ℤ◌, int_eq, int_eq_iff, int_key, Assoc, lookup, insert, lookup-insert, lookup_nil, All, arith,
  Bool-cases, inl, inr,
}
use distrib_kv.Config.{Config, Cluster, Node, validate_nodes, validate}

abbrev pub IsEntry : Node → Type 0
IsEntry n = (pos 0 ≤ℤ n.id) × (n.listen_addr ≢ "")

-- No two nodes have the same id.
abbrev pub Distinct : List Node → Type 0
Distinct [] = Unit
Distinct (n ∷ ns) = All (λ m. m.id ≢ n.id) ns × Distinct ns

pub record IsValid (c : Config) : Type 0 where
  pub nonempty : c.nodes ≢ []
  pub heartbeat : pos 0 <ℤ c.cluster.heartbeat_interval
  pub timeout : pos 0 <ℤ c.cluster.election_timeout_min
  pub timeouts : c.cluster.election_timeout_min <ℤ c.cluster.election_timeout_max
  pub data_dir : c.cluster.data_dir ≢ ""
  pub entries : All IsEntry c.nodes
  pub distinct : Distinct c.nodes

-- The id of a node has not been seen.
abbrev IsNew : Assoc ℤ Bool → Node → Type 0
IsNew seen m = lookup m.id seen ≡ none

IsNew-insert :
    (seen : Assoc ℤ Bool) (n m : Node)
    → IsNew (insert n.id true seen) m ↔ (IsNew seen m × (m.id ≢ n.id))
IsNew-insert seen n m = (
  λ h. (
    ground (arith, lookup-insert n.id m.id true seen, int_eq_iff n.id m.id),
    λ e. ground (arith, lookup-insert n.id m.id true seen, int_eq_iff n.id m.id),
  ),
  λ h. elim (Bool-cases (int_eq n.id m.id)) [
    | inl e ↦ absurd (h.1 (sym ((int_eq_iff n.id m.id).0 e)))
    | inr e ↦ lookup-insert n.id m.id true seen ∙ rw e h.0
  ],
)

-- One round of the loop.
validate_nodes_round :
    (seen : Assoc ℤ Bool) (n : Node) (ns : List Node)
    → (validate_nodes seen (n ∷ ns) ≡ none)
      ↔ (IsEntry n × IsNew seen n × (validate_nodes (insert n.id true seen) ns ≡ none))
unfolding validate_nodes
validate_nodes_round seen n ns = (
  λ h. (
    (ground arith, λ e. ground (arith, str_eq_iff n.listen_addr "")),
    ground arith,
    ground arith,
  ),
  λ h. elim (Bool-cases (str_eq n.listen_addr "")) [
    | inl e ↦ absurd (h.0.1 ((str_eq_iff n.listen_addr "").0 e))
    | inr e ↦ ground arith
  ],
)

All_split :
    (seen : Assoc ℤ Bool) (n : Node) (ns : List Node)
    → All (IsNew (insert n.id true seen)) ns ↔ (All (IsNew seen) ns × All (λ m. m.id ≢ n.id) ns)
All_split seen n [] = (λ h. (tt, tt), λ h. tt)
All_split seen n (m ∷ ns) =
    let k = IsNew-insert seen n m in
    let ks = All_split seen n ns in
    (
      λ h. (((k.0 h.0).0, (ks.0 h.1).0), ((k.0 h.0).1, (ks.0 h.1).1)),
      λ h. (k.1 (h.0.0, h.1.0), ks.1 (h.0.1, h.1.1)),
    )

validate_nodes_iff :
    (seen : Assoc ℤ Bool) (ns : List Node)
    → (validate_nodes seen ns ≡ none) ↔ (All IsEntry ns × Distinct ns × All (IsNew seen) ns)
unfolding validate_nodes
validate_nodes_iff seen [] = (λ h. (tt, tt, tt), λ h. refl)
validate_nodes_iff seen (n ∷ ns) =
    let k = validate_nodes_round seen n ns in
    let ih = validate_nodes_iff (insert n.id true seen) ns in
    let ks = All_split seen n ns in
    (
      λ h.
          let (entry, new, rest) = k.0 h in
          let (entries, distinct, news) = ih.0 rest in
          let (old, others) = ks.0 news in ((entry, entries), (others, distinct), (new, old)),
      λ h. k.1 (h.0.0, h.2.0, ih.1 (h.0.1, h.1.1, ks.1 (h.2.1, h.1.0))),
    )

All-IsNew : (ns : List Node) → All (IsNew []) ns
All-IsNew [] = tt
All-IsNew (n ∷ ns) = (lookup_nil n.id, All-IsNew ns)

-- The checks before the loop.
validate_head :
    (k : Cluster) (ns : List Node)
    → (validate (record { cluster = k; nodes = ns }) ≡ none) ↔ (
        (ns ≢ [])
        × (pos 0 <ℤ k.heartbeat_interval)
        × (pos 0 <ℤ k.election_timeout_min)
        × (k.election_timeout_min <ℤ k.election_timeout_max)
        × (k.data_dir ≢ "")
        × (validate_nodes [] ns ≡ none))
unfolding validate
validate_head k [] = (λ h. cc, λ h. absurd (h.0 refl))
validate_head k (n ∷ ns) = (
  λ h. (
    λ e. cc,
    ground arith,
    ground arith,
    ground arith,
    λ e. ground (arith, str_eq_iff k.data_dir ""),
    ground arith,
  ),
  λ h. elim (Bool-cases (str_eq k.data_dir "")) [
    | inl e ↦ absurd (h.4 ((str_eq_iff k.data_dir "").0 e))
    | inr e ↦ ground arith
  ],
)

-- `validate` returns no error exactly for a configuration with at least one node, a positive
-- heartbeat interval, a positive minimum election timeout below the maximum, a data directory, and
-- nodes that have ids which are not negative and differ, and addresses to listen on.
pub validate_iff : (c : Config) → (validate c ≡ none) ↔ IsValid c
validate_iff c =
    let k = validate_head c.cluster c.nodes in
    let ns = validate_nodes_iff [] c.nodes in
    (
      λ h.
          let (some_node, beat, low, order, dir, rest) = k.0 h in
          let (entries, distinct, news) = ns.0 rest in
          record {
            nonempty = some_node;
            heartbeat = beat;
            timeout = low;
            timeouts = order;
            data_dir = dir;
            entries = entries;
            distinct = distinct;
          },
      λ v. k.1 (
        v.nonempty,
        v.heartbeat,
        v.timeout,
        v.timeouts,
        v.data_dir,
        ns.1 (v.entries, v.distinct, All-IsNew c.nodes),
      ),
    )
