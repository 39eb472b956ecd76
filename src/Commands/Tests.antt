-- ===== src/Commands/Tests.antt =====
-- Runs of the programs of cmd/.
use distrib_kv.Prelude.{◌≡◌, refl, Option, some, true, false, pos, String}
use distrib_kv.Raft.Persister.{MemoryPersister}
use distrib_kv.Config.{loaded, node_by_id}
use distrib_kv.Config.Tests.{cluster}
use distrib_kv.Server.{Started, failed, listen_failed}
use distrib_kv.Commands.{ServingStatus, serving, not_serving, check, run_health_check}

abbrev no_start : Started MemoryPersister
no_start = failed listen_failed false

abbrev healthy : String → Option ServingStatus
healthy a = some (check "")

node_is_healthy : run_health_check (pos 1) (loaded cluster) true healthy ≡ (0, some serving)
unfolding run_health_check check node_by_id
node_is_healthy = refl

-- A status that is not SERVING is printed, and the exit code is 0 as well.
sick_node_passes :
    run_health_check (pos 1) (loaded cluster) true (λ a. some not_serving) ≡ (0, some not_serving)
unfolding run_health_check node_by_id
sick_node_passes = refl
