-- ===== src/Server/Tests.antt =====
-- A node of configs/cluster.yaml, started and shut down by server/run.go, and the flags of its log.
use distrib_kv.Prelude.{
  ◌≡◌, ◌≢◌, refl, [], ◌∷◌, none, some, true, false, pos, String, str_eq_iff, lookup, insert, delete,
  string_key, nat_key, arith,
}
use distrib_kv.Raft.Persister.{MemoryPersister, memory, new_memory_persister}
use distrib_kv.Raft.Election.{become_candidate, become_leader, send_heartbeats}
use distrib_kv.Raft.Tests.{node}
use distrib_kv.Raft.File.{Disk, new_file_persister, file_save, atomic_write, persistent_log}
use distrib_kv.Raft.File.Interface.{file_persister}
use distrib_kv.Raft.File.Tests.{codec, entry}
use distrib_kv.Config.{Node, node_by_id}
use distrib_kv.Config.Tests.{cluster, cluster-IsValid, node_1}
use distrib_kv.Kv.Types.{Result, shutting_down}
use distrib_kv.Kv.Server.{refused, register, new_server}
use distrib_kv.Kv.Tests.{waiting_server, handler, set_a}
use distrib_kv.Server.{Process, started, start_from_config, state_path, shut_down}
use distrib_kv.Server.Logger.{parse_level, build_logger, warn, debug, json}
use distrib_kv.Server.Start.{Ready, start_from_config-Ready}
use distrib_kv.Server.Recovery.{state-Separate, start_recovers}
use distrib_kv.Server.Shutdown.{shut_down_stops}

level_trimmed : parse_level " Warning\n" ≡ some warn
unfolding parse_level
level_trimmed = refl

level_unknown : parse_level "verbose" ≡ none
unfolding parse_level
level_unknown = refl

logger_for_production : build_logger "DEBUG" "json" ≡ some (debug, json)
unfolding build_logger
logger_for_production = refl

abbrev pub first : Node
first = record node_1 { data_dir = "data/1" }

first_state : state_path first ≡ "data/1/raft-state.json"
unfolding state_path
first_state = refl

start_from_config-Ready_example :
    (p : Process MemoryPersister) × (start_from_config memory new_memory_persister true cluster
        (pos 1)
      ≡ started p)
    × Ready cluster first p
unfolding node_by_id
start_from_config-Ready_example =
    start_from_config-Ready memory new_memory_persister cluster (pos 1) cluster-IsValid refl

has_dir : ◌≢◌ {A = String} "data/1" ""
has_dir e = ground (arith, str_eq_iff "data/1" "")

abbrev saved : Disk
saved = ("data/1/raft-state.json", 3 ∷ 2 ∷ 1 ∷ 3 ∷ []) ∷ []

start_recovers_example :
    (p : Process Disk) × (start_from_config
        (file_persister codec
          (new_file_persister (state_path first))
          (state-Separate first has_dir))
        saved
        true
        cluster
        (pos 1)
      ≡ started p)
    × (p.rf.current_term ≡ 3)
    × (p.rf.voted_for ≡ some 2)
    × (p.rf.log ≡ entry ∷ [])
unfolding node_by_id file_save atomic_write persistent_log new_file_persister state_path insert
    delete
start_recovers_example =
    start_recovers codec cluster (pos 1) has_dir 3 (some 2) (entry ∷ []) [] cluster-IsValid refl
      refl

abbrev running : Process MemoryPersister
running = record {
  cfg = cluster;
  node = first;
  rf = node;
  kvs = waiting_server;
  listening = true;
  serving = true;
}

shut_down_stops_example :
    let q = shut_down running in
    (become_candidate memory q.rf ≡ (q.rf, []))
    × (become_leader q.rf ≡ (q.rf, []))
    × (send_heartbeats q.rf ≡ [])
    × ((register 9 4 set_a q.kvs).0 ≡ refused shutting_down)
    × ((res : Result) × (lookup 3 q.kvs.channels ≡ some res))
    × (q.serving ≡ false)
    × (q.listening ≡ false)
    × (shut_down q ≡ q)
unfolding new_server lookup
shut_down_stops_example = shut_down_stops memory running 7 4 9 handler set_a refl refl
