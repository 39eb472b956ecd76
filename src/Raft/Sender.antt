-- ===== src/Raft/Sender.antt =====
-- raft/replication.go: `sendAppendEntries`, as the section that builds the request and the section
-- that handles the reply.
pub mod Requests
pub mod Stall
use distrib_kv.Prelude.{
  nat_key, ℕ, zero, suc, ◌+◌, ◌-◌, List, [], ◌∷◌, none, some, Bool, ltb, ◌==◌, ◌||◌, not,
  if◌then◌else◌, length, lookup, insert, max,
}
use distrib_kv.Raft.Types.{LogEntry, AppendEntriesRequest, AppendEntriesResponse}
use distrib_kv.Raft.Node.{Raft, Peer, Spawn, append_entries, log_at, is_leader, step_down}
use distrib_kv.Raft.Replication.{update_commit_index}

-- What the first section decides: give up, ship the snapshot, or send entries.
pub data Plan : Type 0 where
  skip : Plan
  ship : Plan
  send : AppendEntriesRequest → Plan

-- `for i := nextIdx; i <= len(log); i++`, which stops at the first index without an entry; `k` is
-- the number of rounds that the loop test allows.
unfoldable pub collect : ℕ → ℕ → List LogEntry → ℕ → List LogEntry
collect base zero log i = []
collect base (suc k) log i = elim (log_at base log i) [
  | none ↦ []
  | some e ↦ e ∷ collect base k log (i + 1)
]

-- prevLogIdx and nextIdx after the lookup of prevLogTerm, which falls back to the start of the log.
unfoldable pub prev_of : ℕ → List LogEntry → ℕ → ℕ × ℕ × ℕ
prev_of base log next =
    if next - 1 == 0
    then (0, 0, next)
    else elim (log_at base log (next - 1)) [ none ↦ (0, 0, 1) | some e ↦ (next - 1, e.term, next) ]

-- After a success: matchIndex only grows, and nextIndex follows it.
unfoldable pub ack_peer : ℕ → Peer → Peer
ack_peer new_match p =
    let m = if ltb p.match_index new_match then new_match else p.match_index in
    record p { match_index = m; next_index = m + 1 }

unfoldable pub back_off_peer : Peer → Peer
back_off_peer p = record p {
  next_index = if ltb 1 p.next_index then p.next_index - 1 else p.next_index;
}

module _ {S : Type 0} where
  -- Not this term's leader, or shutting down.
  unfoldable pub is_stale : ℕ → Raft S → Bool
  is_stale term r = not (is_leader r) || not (r.current_term == term) || r.shutdown

  unfoldable pub build_request : ℕ → ℕ → Raft S → ℕ → Plan
  build_request term commit r next =
      if ltb (next - 1) r.log_base
      then ship
      else let prev = prev_of r.log_base r.log next in
        send (record {
          term = term;
          leader_id = r.server_id;
          prev_log_index = prev.0;
          prev_log_term = prev.1;
          entries = collect r.log_base (length r.log + 1 - prev.2) r.log prev.2;
          leader_commit = commit;
        })

  unfoldable pub plan_append : ℕ → ℕ → ℕ → Raft S → Plan
  unfolding is_stale
  plan_append peer term commit r = elim (lookup peer r.peers) [
    | none ↦ skip
    | some p ↦ if is_stale term r then skip else build_request term commit r (max p.next_index 1)
  ]

  -- The reply to `req`, which carried the commit index `commit`.
  unfoldable pub on_append_reply :
      ℕ → AppendEntriesRequest → AppendEntriesResponse → Raft S → Raft S × List Spawn
  unfolding is_stale
  on_append_reply peer req resp r = elim (lookup peer r.peers) [
    | none ↦ (r, [])
    | some p ↦
        if is_stale req.term r
        then (r, [])
        else if ltb r.current_term resp.term
        then (step_down resp.term r, [])
        else if resp.success
        then (
          update_commit_index (record r {
            peers = insert peer (ack_peer (req.prev_log_index + length req.entries) p) r.peers;
          }),
          [],
        )
        else (
          record r { peers = insert peer (back_off_peer p) r.peers },
          append_entries peer req.term req.leader_commit ∷ [],
        )
  ]
