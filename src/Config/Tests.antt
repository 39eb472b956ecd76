-- ===== src/Config/Tests.antt =====
-- configs/cluster.yaml, as config/config.go loads it, and the paths that come out.
use distrib_kv.Prelude.{
  ℕ, ◌≡◌, refl, ◌↔◌, List, [], ◌∷◌, Option, none, some, ℤ, pos, negsuc, All, ◌≢◌, lookup, insert,
  int_key,
}
use mathlib.Core.List.{Perm}
use distrib_kv.Config.{
  Config, Cluster, Node, duplicate_id, negative_id, validate, load, loaded, node_by_id, peers_of,
}
use distrib_kv.Config.Paths.{join_path, clean_path, itoa, dir_path}
use distrib_kv.Config.Valid.{IsValid, validate_iff}
use distrib_kv.Config.Lookups.{peers_of-Perm}
use distrib_kv.Config.Loading.{DistinctDirs, load-IsValid, load-DistinctDirs}

clean_dots : clean_path "/a/./b//../c/../.." ≡ "/"
unfolding clean_path
clean_dots = refl

clean_up_front : clean_path "../x/../../y" ≡ "../../y"
unfolding clean_path
clean_up_front = refl

dir_of_file : dir_path "data/1/raft-state.json" ≡ "data/1"
unfolding dir_path
dir_of_file = refl

itoa_negative : itoa (negsuc 119) ≡ "-120"
unfolding itoa
itoa_negative = refl

abbrev pub node_1 : Node
node_1 = record { id = pos 1; listen_addr = "0.0.0.0:10001"; data_dir = "" }

abbrev pub node_2 : Node
node_2 = record { id = pos 2; listen_addr = "0.0.0.0:10002"; data_dir = "" }

abbrev pub node_3 : Node
node_3 = record { id = pos 3; listen_addr = "0.0.0.0:10003"; data_dir = "" }

abbrev pub dev : Cluster
dev = record {
  name = "distribkv-dev";
  heartbeat_interval = pos 50000000;
  election_timeout_min = pos 150000000;
  election_timeout_max = pos 300000000;
  data_dir = "./data";
  snapshot_threshold = pos 0;
}

abbrev pub cluster_file : Config
cluster_file = record { cluster = dev; nodes = node_1 ∷ node_2 ∷ node_3 ∷ [] }

abbrev pub unmarshal : List ℕ → Option Config
unmarshal bytes = some cluster_file

abbrev pub cluster : Config
cluster = record {
  cluster = dev;
  nodes =
      record node_1 { data_dir = "data/1" }
      ∷ record node_2 { data_dir = "data/2" }
      ∷ record node_3 { data_dir = "data/3" }
      ∷ [];
}

pub loads : load unmarshal (some []) ≡ loaded cluster
unfolding load lookup insert join_path itoa
loads = refl

twice_1 :
    validate (record cluster_file { nodes = node_1 ∷ node_2 ∷ node_1 ∷ [] })
    ≡ some (duplicate_id (pos 1))
unfolding validate lookup insert
twice_1 = refl

below_zero :
    validate (record cluster_file { nodes = record node_1 { id = negsuc 0 } ∷ [] })
    ≡ some (negative_id (negsuc 0))
unfolding validate
below_zero = refl

validate_iff_example : (validate cluster_file ≡ none) ↔ IsValid cluster_file
validate_iff_example = validate_iff cluster_file

load-DistinctDirs_example : DistinctDirs cluster.nodes
load-DistinctDirs_example = load-DistinctDirs unmarshal [] refl (refl, (refl, (refl, tt))) loads

pub cluster-IsValid : IsValid cluster
cluster-IsValid = (load-IsValid unmarshal [] loads).0

peers_of-Perm_example :
    (ps : List Node) × (peers_of (pos 2) cluster ≡ some ps)
    × (◌≡◌ {A = ℤ} (pos 2) (pos 2))
    × All (λ m. m.id ≢ pos 2) ps
    × Perm (record node_2 { data_dir = "data/2" } ∷ ps) cluster.nodes
unfolding node_by_id
peers_of-Perm_example = peers_of-Perm (pos 2) cluster cluster-IsValid refl
