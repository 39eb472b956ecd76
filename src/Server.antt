-- ===== src/Server.antt =====
-- server/run.go: how a node is put together, started and shut down. The bound listener and the gRPC
-- server are a flag each; whether a port can be bound, what a file holds and what yaml makes of it are
-- the environment.
pub mod Logger
pub mod Peers
pub mod Start
pub mod Recovery
pub mod Shutdown
pub mod Tests
use distrib_kv.Prelude.{
  ℕ, List, [], ◌∷◌, Option, none, some, Bool, true, false, if◌then◌else◌, String, str_eq, ℤ,
  pos_part, Assoc, insert, nat_key,
}
use distrib_kv.Config.{
  Config, Node, ConfigError, not_found, Loaded, loaded, refused, load, node_by_id, peers_of,
}
use distrib_kv.Config.Paths.{join_path}
use distrib_kv.Raft.Types.{Error, reply, fail, panic}
use distrib_kv.Raft.Persister.{Persister}
use distrib_kv.Raft.Node.{Raft}
use distrib_kv.Raft.Lifecycle
use distrib_kv.Raft.Lifecycle.{new_raft, start, stop}
use distrib_kv.Kv.Types.{Server, default_max_pending_ops}
use distrib_kv.Kv.Server.{new_server, kill}
use distrib_kv.Server.Logger.{Level, Format, build_logger}

pub record Options : Type 0 where
  pub config_path : String
  pub node_id : ℤ
  pub log_level : String
  pub log_format : String

-- A running node. `serving`: the gRPC server accepts calls on the bound listener.
pub record Process (S : Type 0) : Type 0 where
  pub cfg : Config
  pub node : Node
  pub rf : Raft S
  pub kvs : Server
  pub listening : Bool
  pub serving : Bool

pub data StartError : Type 0 where
  no_config_path bad_logger listen_failed : StartError
  config_failed : ConfigError → StartError
  raft_failed : Error → StartError

-- A failed start says whether it leaves the listener open.
pub data Started (S : Type 0) : Type 0 where
  started : Process S → Started S
  failed : StartError → (listening : Bool) → Started S
  crashed : Started S

-- The state file of a node.
unfoldable pub state_path : Node → String
unfolding join_path
state_path n = join_path n.data_dir "raft-state.json"

-- The map of the peers' addresses by id.
unfoldable pub peer_map : Assoc ℕ String → List Node → Assoc ℕ String
peer_map m [] = m
peer_map m (p ∷ ps) = peer_map (insert (pos_part p.id) p.listen_addr m) ps

-- A snapshot threshold that is not positive switches snapshots off, as 0 does.
unfoldable pub raft_config : Config → Node → List Node → Lifecycle.Config
unfolding peer_map
raft_config c n peers = record {
  server_id = n.id;
  own_addr = n.listen_addr;
  peers = peer_map [] peers;
  election_timeout_min = c.cluster.election_timeout_min;
  election_timeout_max = c.cluster.election_timeout_max;
  heartbeat_interval = c.cluster.heartbeat_interval;
  snapshot_threshold = pos_part c.cluster.snapshot_threshold;
}

module _ {S : Type 0} (P : Persister S) where
  -- `StartFromConfig`, once the listener is bound, with the persister of the state file.
  unfoldable pub start_node : S → Config → Node → Started S
  unfolding raft_config
  start_node s c n = elim (peers_of n.id c) [
    | none ↦ crashed
    | some peers ↦ elim (new_raft P (raft_config c n peers) s) [
      | reply rf ↦ started (record {
        cfg = c;
        node = n;
        rf = start rf;
        kvs = new_server default_max_pending_ops;
        listening = true;
        serving = true;
      })
      | fail e ↦ failed (raft_failed e) false
      | panic ↦ crashed
    ]
  ]

  -- `StartFromConfig`; `binds`: net.Listen succeeds.
  unfoldable pub start_from_config : S → (binds : Bool) → Config → ℤ → Started S
  unfolding start_node
  start_from_config s binds c i = elim (node_by_id i c) [
    | none ↦ failed (config_failed (not_found i)) false
    | some n ↦ if binds then start_node s c n else failed listen_failed false
  ]

  -- `Start`; `file` is the text of the configuration, if it can be read.
  unfoldable pub start_process :
      (List ℕ → Option Config) → S → (binds : Bool) → (file : Option (List ℕ)) → Options → Started S
  unfolding start_from_config
  start_process unmarshal s binds file o =
      if str_eq o.config_path "" then failed no_config_path false else elim (load unmarshal file) [
        | refused e ↦ failed (config_failed e) false
        | loaded c ↦ elim (node_by_id o.node_id c) [
          | none ↦ failed (config_failed (not_found o.node_id)) false
          | some n ↦ elim (build_logger o.log_level o.log_format) [
            | none ↦ failed bad_logger false
            | some l ↦ start_from_config s binds c n.id
          ]
        ]
      ]

-- `Shutdown`: the engine, the state machine, then the gRPC server, whose listener closes with it.
unfoldable pub shut_down : {S : Type 0} → Process S → Process S
shut_down p = record p { rf = stop p.rf; kvs = kill p.kvs; listening = false; serving = false }
