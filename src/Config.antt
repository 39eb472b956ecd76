-- ===== src/Config.antt =====
-- config/config.go: the cluster file. Reading it and decoding the YAML are the environment; what comes
-- after is `load`.
pub mod Paths
pub mod Valid
pub mod Lookups
pub mod Dirs
pub mod Digits
pub mod Loading
pub mod Tests
use distrib_kv.Prelude.{
  ℕ, List, [], ◌∷◌, Option, none, some, Bool, true, false, not, ◌||◌, if◌then◌else◌, String, str_eq,
  ℤ, pos, ltb_ℤ, leb_ℤ, int_eq, int_key, Assoc, lookup, insert,
}
use distrib_kv.Config.Paths.{join_path, itoa}

-- Durations are nanoseconds, as in time.Duration.
pub record Cluster : Type 0 where
  pub name : String
  pub heartbeat_interval : ℤ
  pub election_timeout_min : ℤ
  pub election_timeout_max : ℤ
  pub data_dir : String
  pub snapshot_threshold : ℤ

pub record Node : Type 0 where
  pub id : ℤ
  pub listen_addr : String
  pub data_dir : String

pub record Config : Type 0 where
  pub cluster : Cluster
  pub nodes : List Node

-- The errors of `Load` and of `NodeByID`, with the values in their messages.
pub data ConfigError : Type 0 where
  unreadable unparsable no_nodes bad_heartbeat bad_timeouts no_data_dir : ConfigError
  min_not_below_max : (low high : ℤ) → ConfigError
  negative_id no_listen_addr duplicate_id not_found : (id : ℤ) → ConfigError

-- `UnmarshalYAML` of a duration: the text of the node, and what time.ParseDuration makes of it.
unfoldable pub unmarshal_duration : (String → Option ℤ) → Option String → Option ℤ
unmarshal_duration parse none = none
unmarshal_duration parse (some s) = parse s

-- The loop of `validate` over the nodes, with the ids seen so far.
unfoldable pub validate_nodes : Assoc ℤ Bool → List Node → Option ConfigError
validate_nodes seen [] = none
validate_nodes seen (n ∷ ns) =
    let rest = validate_nodes (insert n.id true seen) ns in
    if ltb_ℤ n.id (pos 0)
    then some (negative_id n.id)
    else if str_eq n.listen_addr ""
    then some (no_listen_addr n.id)
    else elim (lookup n.id seen) [ none ↦ rest | some b ↦ some (duplicate_id n.id) ]

-- `validate`; none: no error.
unfoldable pub validate : Config → Option ConfigError
unfolding validate_nodes
validate c =
    let k = c.cluster in
    elim c.nodes [
      | [] ↦ some no_nodes
      | n ∷ ns ↦
          if leb_ℤ k.heartbeat_interval (pos 0)
          then some bad_heartbeat
          else if leb_ℤ k.election_timeout_min (pos 0) || leb_ℤ k.election_timeout_max (pos 0)
          then some bad_timeouts
          else if leb_ℤ k.election_timeout_max k.election_timeout_min
          then some (min_not_below_max k.election_timeout_min k.election_timeout_max)
          else if str_eq k.data_dir ""
          then some no_data_dir
          else validate_nodes [] (n ∷ ns)
    ]

unfoldable pub resolve_node : String → Node → Node
resolve_node dir n =
    if str_eq n.data_dir "" then record n { data_dir = join_path dir (itoa n.id) } else n

unfoldable pub resolve_nodes : String → List Node → List Node
unfolding resolve_node
resolve_nodes dir [] = []
resolve_nodes dir (n ∷ ns) = resolve_node dir n ∷ resolve_nodes dir ns

-- `resolveDataDirs`.
unfoldable pub resolve_data_dirs : Config → Config
unfolding resolve_nodes
resolve_data_dirs c = record c { nodes = resolve_nodes c.cluster.data_dir c.nodes }

pub data Loaded : Type 0 where
  loaded : Config → Loaded
  refused : ConfigError → Loaded

-- `Load`: the bytes of the file if it could be read, and what yaml.Unmarshal makes of them.
unfoldable pub load : (List ℕ → Option Config) → Option (List ℕ) → Loaded
unfolding validate resolve_data_dirs
load unmarshal none = refused unreadable
load unmarshal (some bytes) = elim (unmarshal bytes) [
  | none ↦ refused unparsable
  | some c ↦ elim (validate c) [ some e ↦ refused e | none ↦ loaded (resolve_data_dirs c) ]
]

unfoldable pub find_node : ℤ → List Node → Option Node
find_node i [] = none
find_node i (n ∷ ns) = let rest = find_node i ns in if int_eq n.id i then some n else rest

-- `NodeByID`; none is its error.
unfoldable pub node_by_id : ℤ → Config → Option Node
unfolding find_node
node_by_id i c = find_node i c.nodes

unfoldable pub other_nodes : ℤ → List Node → List Node
other_nodes i [] = []
other_nodes i (n ∷ ns) =
    let rest = other_nodes i ns in if not (int_eq n.id i) then n ∷ rest else rest

-- `PeersOf`; none: without a node, the capacity of -1 makes it panic.
unfoldable pub peers_of : ℤ → Config → Option (List Node)
unfolding other_nodes
peers_of i c = elim c.nodes [ [] ↦ none | n ∷ ns ↦ some (other_nodes i (n ∷ ns)) ]
