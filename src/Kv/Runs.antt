-- ===== src/Kv/Runs.antt =====
-- Runs of delivered messages, snapshots, a Get and a Clerk on concrete states.
use distrib_kv.Prelude.{
  inr, pos, ℕ, ◌≡◌, refl, [], ◌∷◌, some, true, false, arith, lookup, nat_key, string_key,
  if◌then◌else◌, ◌==◌,
}
use distrib_kv.Raft.Types.{ApplyMsg}
use distrib_kv.Raft.Persister.{memory}
use distrib_kv.Raft.Tests.{node}
use distrib_kv.Kv.Types.{Result}
use distrib_kv.Kv.Dedup.{get_duplicate}
use distrib_kv.Kv.Dedup.Once.{cached}
use distrib_kv.Kv.Machine.{apply_command, view}
use distrib_kv.Kv.Snapshot.{
  serialize_snapshot, image_dedup, image_entries, snapshot_entry, err_string, handle_snapshot_msg,
}
use distrib_kv.Kv.Snapshot.RoundTrip.{snapshot_restores, restored}
use distrib_kv.Kv.Server.{
  delivered, finish_wait, new_server, notify_waiter, register, apply_op, process_apply_msg,
  check_duplicate,
}
use distrib_kv.Kv.Server.Once.{executed_once, apply_ops}
use distrib_kv.Kv.Server.Refinement.{process_apply_msg_refines, Answered, spec_message, hit_of}
use distrib_kv.Kv.Rpc.{WriteResponse, get_op, respond_get}
use distrib_kv.Kv.Rpc.Reads.{get_reads_map, get_answer}
use distrib_kv.Kv.Clerk.{Clerk, Try, rpc_fails, replies, gave_up, clerk_do, position}
use distrib_kv.Kv.Clerk.Retries.{cached_leader_is_kept}
use distrib_kv.Kv.Tests.{
  set_a, add_a, ok, entry, empty, caching, codec, same_walk, handler, waiting_server,
}

-- The command is executed at 100, another one at 150, and it is delivered again at 200.
executed_once_example :
    let first = apply_op memory codec same_walk 100 1 set_a empty node in
    let mid = apply_ops memory codec same_walk ((150, 2, add_a) ∷ []) first.0 first.1 in
    apply_op memory codec same_walk 200 3 set_a mid.0 node
    ≡ (notify_waiter same_walk 3 ok mid.0, node)
unfolding new_server check_duplicate get_duplicate lookup apply_command
executed_once_example =
    executed_once memory codec same_walk 100 1 set_a empty node node ((150, 2, add_a) ∷ []) 200 3
      set_a refl refl (omega arith) (omega arith, tt) (omega arith) refl refl

abbrev add_msg : ApplyMsg
add_msg = record {
  command_valid = true;
  command = 2 ∷ [];
  command_index = 7;
  snapshot_valid = false;
  snapshot_data = [];
  last_included_index = 0;
  last_included_term = 0;
}

process_apply_msg_refines_example :
    let out =
      spec_message
        (some add_a)
        (hit_of 200 (some add_a) waiting_server.duplicates)
        (view waiting_server.state) in
    let s' = (process_apply_msg memory codec same_walk 200 add_msg waiting_server node).0 in
    (view s'.state ≡ out.1) × Answered 7 3 out.0 s'
unfolding new_server lookup
process_apply_msg_refines_example =
    process_apply_msg_refines memory codec same_walk 200 add_msg waiting_server node handler refl
      refl refl refl

abbrev image_msg : ApplyMsg
image_msg = record {
  command_valid = false;
  command = [];
  command_index = 0;
  snapshot_valid = true;
  snapshot_data = 5 ∷ 2 ∷ 100 ∷ [];
  last_included_index = 9;
  last_included_term = 1;
}

snapshot_restores_example :
    let t = handle_snapshot_msg codec image_msg empty in
    (lookup "a" t.state ≡ lookup "a" caching.state)
    × (t.last_applied ≡ 9)
    × (cached 5 2 t.duplicates ≡ some (restored entry))
unfolding new_server serialize_snapshot image_dedup image_entries snapshot_entry err_string lookup
snapshot_restores_example =
    snapshot_restores codec 200 caching empty image_msg "a" 5 2 entry refl refl refl refl

abbrev get_msg : ApplyMsg
get_msg = record add_msg { command = 3 ∷ [] }

get_reads_map_example :
    let s' =
      (process_apply_msg memory codec same_walk 200 get_msg
        (register 7 3 (get_op "a") caching).1
        node).0 in
    (res : Result) × (lookup 3 s'.channels ≡ some res)
    × (respond_get (finish_wait 7 (delivered res) s').0 node ≡ get_answer (some "1"))
    × (view s'.state ≡ view caching.state)
unfolding new_server lookup get_op
get_reads_map_example =
    get_reads_map memory codec same_walk 200 3 "a" get_msg caching node (refl, omega arith) refl
      refl refl refl refl

-- Three servers; the cached leader does not answer, and the others are never asked.
abbrev clerk : Clerk
clerk = record {
  servers = "a:1" ∷ "b:1" ∷ "c:1" ∷ [];
  server_ids = 1 ∷ 2 ∷ 3 ∷ [];
  leader_id = some 2;
  client_id = 9;
  seq_num = 4;
}

abbrev accepted : WriteResponse
accepted = record { success = true; error = ""; wrong_leader = false; leader_id = pos 0 }

abbrev leader_down : ℕ → ℕ → Try WriteResponse
leader_down attempt idx = if idx == 1 then rpc_fails else replies accepted

cached_leader_is_kept_example : (clerk_do leader_down clerk).0 ≡ gave_up
unfolding position
cached_leader_is_kept_example =
    cached_leader_is_kept leader_down 2 1 clerk refl refl (λ attempt. inr refl)
