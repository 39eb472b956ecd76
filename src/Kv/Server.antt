-- ===== src/Kv/Server.antt =====
-- kv/apply.go and kv/server.go: the apply loop's dispatcher, and the bridge from an RPC to the engine.
-- What Go leaves open is an argument: the time, and the order in which a map is walked.
pub mod Hits
pub mod Once
pub mod Waiters
pub mod Leak
pub mod Stop
pub mod Refinement
use distrib_kv.Prelude.{
  ℕ, suc, [], ◌∷◌, Option, none, some, Bool, true, false, ltb, leb, ◌==◌, ◌&&◌, not, if◌then◌else◌,
  Assoc, lookup, insert, delete, length, nat_key,
}
use distrib_kv.Raft.Types.{Bytes, ApplyMsg, Outcome, reply, fail, panic, Error}
use distrib_kv.Raft.Persister.{Persister}
use distrib_kv.Raft.Node.{Raft}
use distrib_kv.Kv.Types.{
  Op, Err, not_leader, timeout, too_many_pending, shutting_down, bad_encoding, raft_failed, Result,
  PendingOp, DuplicateEntry, Server, Codec, default_max_pending_ops,
}
use distrib_kv.Kv.Dedup.{get_duplicate, save_duplicate, cleanup_duplicates}
use distrib_kv.Kv.Machine.{apply_command}
use distrib_kv.Kv.Snapshot.{handle_snapshot_msg, take_snapshot}
use distrib_kv.Raft.Types

-- `NewServer`, for a maxPending that is zero if it was not positive.
unfoldable pub new_server : ℕ → Server
new_server max_pending = record {
  state = [];
  duplicates = [];
  pending_ops = [];
  recent = [];
  channels = [];
  max_pending = if max_pending == 0 then default_max_pending_ops else max_pending;
  dead = false;
  last_applied = 0;
  last_snapshot_index = 0;
}

-- A non-blocking send into a channel of capacity 1.
unfoldable pub send_result : ℕ → Result → Assoc ℕ Result → Assoc ℕ Result
send_result ch res m = elim (lookup ch m) [ none ↦ insert ch res m | some old ↦ m ]

-- The loop that bounds `recent`: each round deletes the first entry of the walk.
unfoldable pub bound_recent : ℕ → Assoc ℕ Result → Assoc ℕ Result
bound_recent max [] = []
bound_recent max ((i, res) ∷ m) =
    let rest = bound_recent max m in if ltb max (suc (length m)) then rest else (i, res) ∷ m

abbrev pub Walk : Type 0
Walk = Assoc ℕ Result → Assoc ℕ Result

-- `notifyWaiter`. The waiter of the index gets the result, whatever its operation.
unfoldable pub notify_waiter : Walk → ℕ → Result → Server → Server
unfolding send_result bound_recent
notify_waiter walk index res s = elim (lookup index s.pending_ops) [
  | some p ↦ record s {
    pending_ops = delete index s.pending_ops;
    channels = send_result p.result_ch res s.channels;
  }
  | none ↦ record s { recent = bound_recent s.max_pending (walk (insert index res s.recent)) }
]

-- Neither id is zero.
abbrev pub has_ids : Op → Bool
has_ids op = not (op.client_id == 0) && not (op.sequence_id == 0)

-- The cache lookup of an operation; the sentinel ids skip it.
unfoldable pub check_duplicate : ℕ → Op → Server → Option DuplicateEntry × Server
check_duplicate now op s =
    if has_ids op
    then (let hit = get_duplicate now op.client_id op.sequence_id s.duplicates in
        (hit.0, record s { duplicates = hit.1 }))
    else (none, s)

-- The locked part of `processApplyMsg` that executes an operation.
unfoldable pub execute : ℕ → ℕ → Op → Server → Result × Server
execute now index op s =
    let res = apply_command op s.state in
    (
      res.0,
      record s {
        state = res.1;
        last_applied = index;
        duplicates =
            cleanup_duplicates now op.client_id
              (save_duplicate now op.client_id op.sequence_id res.0 s.duplicates);
      },
    )

module _ {S : Type 0} where
  unfoldable pub apply_op :
      Persister S → Codec → Walk → ℕ → ℕ → Op → Server → Raft S → Server × Raft S
  apply_op P c walk now index op s rf =
      let hit = check_duplicate now op s in
      elim hit.0 [
        | some e ↦ (notify_waiter walk index e.result hit.1, rf)
        | none ↦
            let res = execute now index op hit.1 in
            take_snapshot P c now (notify_waiter walk index res.0 res.1) rf
      ]

  -- `processApplyMsg`, with the engine that a snapshot is handed to.
  unfoldable pub process_apply_msg :
      Persister S → Codec → Walk → ℕ → ApplyMsg → Server → Raft S → Server × Raft S
  process_apply_msg P c walk now msg s rf =
      if msg.snapshot_valid
      then (handle_snapshot_msg c msg s, rf)
      else if not msg.command_valid
      then (s, rf)
      else elim (c.decode msg.command) [
        | none ↦ (
          notify_waiter walk msg.command_index (record { value = ""; err = some bad_encoding }) s,
          rf,
        )
        | some op ↦ apply_op P c walk now msg.command_index op s rf
      ]

-- What the section of `submitOperation` after `ReplicateCommand` does.
pub data Registered : Type 0 where
  refused : Err → Registered
  answered : Result → Registered
  waiting : Registered

-- That section: the waiter is registered, then `recent` is looked at.
unfoldable pub register : ℕ → ℕ → Op → Server → Registered × Server
register index ch op s =
    if s.dead
    then (refused shutting_down, s)
    else if leb s.max_pending (length s.pending_ops)
    then (refused too_many_pending, s)
    else let s' = record s {
      pending_ops = insert index (record { index = index; op = op; result_ch = ch }) s.pending_ops;
    } in
      elim (lookup index s.recent) [
        | some res ↦ (answered res, record s' { recent = delete index s.recent })
        | none ↦ (waiting, s')
      ]

-- How the wait of `submitOperation` ends.
pub data WaitEnd : Type 0 where
  delivered : Result → WaitEnd
  timed_out shut_down : WaitEnd

unfoldable pub finish_wait : ℕ → WaitEnd → Server → (Option Err × Result) × Server
finish_wait index (delivered res) s = ((none, res), s)
finish_wait index timed_out s = (
  (some timeout, record { value = ""; err = none }),
  record s { pending_ops = delete index s.pending_ops },
)
finish_wait index shut_down s = ((some shutting_down, record { value = ""; err = none }), s)

-- The error of `ReplicateCommand`, as `submitOperation` passes it on.
unfoldable pub raft_err : Error → Err
raft_err Types.not_leader = not_leader
raft_err _ = raft_failed

-- Every waiter is told that the server stops.
unfoldable pub notify_all : Assoc ℕ PendingOp → Assoc ℕ Result → Assoc ℕ Result
notify_all [] ch = ch
notify_all ((i, p) ∷ ps) ch =
    notify_all ps (send_result p.result_ch (record { value = ""; err = some shutting_down }) ch)

-- `Kill`, before it drains the channel.
unfoldable pub kill : Server → Server
kill s =
    if s.dead
    then s
    else record s { dead = true; channels = notify_all s.pending_ops s.channels; pending_ops = [] }
