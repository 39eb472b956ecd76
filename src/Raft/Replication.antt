-- ===== src/Raft/Replication.antt =====
-- raft/replication.go: the follower's `AppendEntries`, the leader's `sendAppendEntries`,
-- `updateCommitIndex` and `ReplicateCommand`.
pub mod Follower
pub mod Matching
pub mod Commit
pub mod Submit
use distrib_kv.Prelude.{
  ℕ, zero, suc, ◌+◌, ◌-◌, ◌/◌, List, [], ◌∷◌, ◌++◌, Option, none, some, Bool, true, false, ltb, leb,
  ◌==◌, ◌&&◌, not, if◌then◌else◌, Assoc, map, length, take, get_elem?, min,
}
use distrib_kv.Raft.Types.{
  Bytes, LogEntry, AppendEntriesRequest, AppendEntriesResponse, Error, persist_failed, not_leader,
  timeout, Outcome, reply, fail, panic,
}
use distrib_kv.Raft.Persister.{Persister}
use distrib_kv.Raft.Node.{
  Raft, Peer, Spawn, append_entries, ids, log_at, is_leader, reset_election_timer, signal_commit,
  persist, adopt_term,
}

-- One round of rule 4, at the absolute index `idx`, which is above the base: the log, and whether
-- it was modified.
unfoldable pub merge_entry : ℕ → List LogEntry → ℕ → LogEntry → Bool → List LogEntry × Bool
merge_entry base log idx e modified = elim (get_elem? log (idx - base - 1)) [
  | none ↦ (log ++ e ∷ [], true)
  | some old ↦
      if old.term == e.term then (log, modified) else (take (idx - base - 1) log ++ e ∷ [], true)
]

-- Rule 4. At an index that is not above the base the array index is negative, and Go panics.
unfoldable pub merge_entries :
    ℕ → List LogEntry → ℕ → List LogEntry → Bool → Option (List LogEntry × Bool)
merge_entries base log idx [] modified = some (log, modified)
merge_entries base log idx (e ∷ es) modified =
    let rest =
      merge_entries base (merge_entry base log idx e modified).0 (idx + 1) es
        (merge_entry base log idx e modified).1 in
    if leb idx base then none else rest

-- The number of peers with matchIndex >= n.
unfoldable pub count_match : ℕ → Assoc ℕ Peer → ℕ
count_match n [] = 0
count_match n ((i, p) ∷ ps) = (if leb n p.match_index then 1 else 0) + count_match n ps

-- log[:len-1]
unfoldable pub truncate_last : List LogEntry → List LogEntry
truncate_last log = take (length log - 1) log

module _ {S : Type 0} where
  unfoldable pub record_leader : ℕ → Raft S → Raft S
  record_leader id r = if is_leader r then r else record r { leader_id = some id }

  -- Rule 3.
  unfoldable pub prev_ok : ℕ → ℕ → Raft S → Bool
  prev_ok idx term r =
      if idx == 0
      then true
      else elim (log_at r.log_base r.log idx) [ none ↦ false | some e ↦ e.term == term ]

  -- Rule 6.
  unfoldable pub advance_commit : AppendEntriesRequest → Raft S → Raft S
  unfolding signal_commit
  advance_commit req r =
      let target = min req.leader_commit (req.prev_log_index + length req.entries) in
      if ltb r.commit_index req.leader_commit && ltb r.commit_index target
      then signal_commit (record r { commit_index = target })
      else r

  -- Rules 5 and 6, after the merge.
  unfoldable pub finish_append :
      Persister S → AppendEntriesRequest → Bool → Raft S → Outcome AppendEntriesResponse × Raft S
  finish_append P req modified r = elim (if modified then persist P r else some r) [
    | none ↦ (fail persist_failed, r)
    | some r' ↦ (reply (record { term = r'.current_term; success = true }), advance_commit req r')
  ]

  -- Rules 3 to 6, for a node that has taken the request's term.
  unfoldable pub append_checked :
      Persister S → AppendEntriesRequest → Raft S → Outcome AppendEntriesResponse × Raft S
  append_checked P req r =
      if not (prev_ok req.prev_log_index req.prev_log_term r)
      then (reply (record { term = r.current_term; success = false }), r)
      else elim (merge_entries r.log_base r.log (req.prev_log_index + 1) req.entries false) [
        | none ↦ (panic, r)
        | some (log', modified) ↦ finish_append P req modified (record r { log = log' })
      ]

  -- `AppendEntries`.
  unfoldable pub handle_append_entries :
      Persister S → AppendEntriesRequest → Raft S → Outcome AppendEntriesResponse × Raft S
  handle_append_entries P req r =
      if ltb req.term r.current_term
      then (reply (record { term = r.current_term; success = false }), r)
      else append_checked P req
          (reset_election_timer (record_leader req.leader_id (adopt_term req.term r)))

  -- `updateCommitIndex`, from commitIndex + `k` downward.
  unfoldable pub scan_commit : ℕ → Raft S → Raft S
  unfolding signal_commit
  scan_commit zero r = r
  scan_commit (suc k) r =
      let rest = scan_commit k r in
      let n = r.commit_index + suc k in
      elim (log_at r.log_base r.log n) [
        | none ↦ rest
        | some e ↦
            if ltb ((length r.peers + 1) / 2) (1 + count_match n r.peers)
            then (if e.term == r.current_term
                then signal_commit (record r { commit_index = n })
                else r)
            else rest
      ]

  unfoldable pub update_commit_index : Raft S → Raft S
  update_commit_index r =
      if is_leader r then scan_commit (length r.log + r.log_base - r.commit_index) r else r

  -- The first critical section of `ReplicateCommand`: the index to wait for, or an error.
  unfoldable pub replicate_command : Persister S → Bytes → Raft S → Outcome ℕ × Raft S × List Spawn
  unfolding truncate_last
  replicate_command P cmd r =
      if not (is_leader r)
      then (fail not_leader, r, [])
      else let next = length r.log + r.log_base + 1 in
        let entry : LogEntry = record { index = next; term = r.current_term; command = cmd } in
        let r1 = record r { log = r.log ++ entry ∷ [] } in
        elim (persist P r1) [
          | none ↦ (fail persist_failed, record r1 { log = truncate_last r1.log }, [])
          | some r2 ↦
              let r3 = update_commit_index r2 in
              (
                reply next,
                r3,
                map (λ i. append_entries i r3.current_term r3.commit_index) (ids r3.peers),
              )
        ]

-- What the waiting loop of `ReplicateCommand` sees, one event per round.
pub data WaitEvent : Type 0 where
  timer : WaitEvent
  tick : (commit : ℕ) (shutdown : Bool) → WaitEvent
  cancelled : WaitEvent

-- The waiting loop: none while it still waits.
unfoldable pub await_commit : ℕ → List WaitEvent → Option (ℕ × Option Error)
await_commit target [] = none
await_commit target (timer ∷ es) = some (target, some timeout)
await_commit target (cancelled ∷ es) = some (target, some timeout)
await_commit target (tick commit shutdown ∷ es) =
    let rest = await_commit target es in
    if shutdown
    then some (target, some timeout)
    else if leb target commit
    then some (target, none)
    else rest
