-- ===== src/Raft/Events/Invariant.antt =====
-- Well-formedness of a node (all of raft/): its log, its indices and its apply channel.
use distrib_kv.Prelude.{
  ℕ, zero, suc, ◌+◌, ◌-◌, ◌≤◌, ◌<◌, ◌≡◌, inl, inr, List, [], ◌∷◌, ◌++◌, some, Bool, true, false,
  leb, ltb, Bool-cases, Option-cases, if◌then◌else◌, arith, length, nat_key, drop, length-append,
}
use distrib_kv.Raft.Types.{LogEntry, Bytes, AppendEntriesRequest, InstallSnapshotRequest}
use distrib_kv.Raft.Persister.{Persister}
use distrib_kv.Raft.Node.{
  Raft, log_at, reset_election_timer, persist, step_down, adopt_term, apply_ch_cap,
}
use distrib_kv.Raft.Replication.{
  record_leader, append_checked, handle_append_entries, replicate_command, merge_entries, prev_ok,
  truncate_last,
}
use distrib_kv.Raft.Snapshot.{
  persist_both, fold_log, take_snapshot, install, queue_snapshot, install_checked,
  handle_install_snapshot, snapshot_msg,
}
use distrib_kv.Raft.Lifecycle.{next_apply, apply_pending}
use distrib_kv.Raft.Log.{
  Contiguous, Contiguous-append, Contiguous-take, Contiguous-drop, tail_after-Contiguous,
  log_at_bounds,
}
use distrib_kv.Raft.Log.Merge.{merge_entries-Merged, merge_entries_low}
use distrib_kv.Raft.Replication.Matching.{prev_within}
use distrib_kv.Raft.Events.{
  Event, elect, lead, begin, halt, vote_reply, vote_rpc, append_rpc, install_rpc, append_reply,
  install_reply, submit, compact, apply, step, run,
}
use distrib_kv.Raft.Events.Same.{
  Same, persist-Same, become_leader-Same, become_candidate-Same, count_vote-Same,
  handle_request_vote-Same, prepared-Same, finish_append-Same, update_commit_index-Same,
  on_append_reply-Same, on_install_reply-Same, persist_both-Same, prepared_install-Same, start-Same,
  stop-Same,
}

-- What the environment owes: the entries of a request are consecutive behind prevLogIndex.
abbrev pub Fits : Event → Type 0
Fits (append_rpc req) = Contiguous req.prev_log_index req.entries
Fits _ = Unit

abbrev pub AllFit : List Event → Type 0
AllFit [] = Unit
AllFit (e ∷ es) = Fits e × AllFit es

module _ {S : Type 0} where
  pub record Inv (r : Raft S) : Type 0 where
    pub contiguous : Contiguous r.log_base r.log
    pub base_committed : r.log_base ≤ r.commit_index
    pub applied_committed : r.last_applied ≤ r.commit_index
    pub snapshot_at : r.snapshot_index ≡ r.log_base
    pub queue : length r.apply_ch ≤ apply_ch_cap

  Inv-Same : {r r' : Raft S} → Same r r' → Inv r → Inv r'
  Inv-Same s i = ground arith

  merges-Contiguous :
      (req : AppendEntriesRequest) (r : Raft S) {log' : List LogEntry} {m : Bool}
      → Contiguous r.log_base r.log
      → Contiguous req.prev_log_index req.entries
      → prev_ok req.prev_log_index req.prev_log_term r ≡ true
      → merge_entries r.log_base r.log (req.prev_log_index + 1) req.entries false ≡ some (log', m)
      → Contiguous r.log_base log'
  merges-Contiguous req r {log'} {m} c k good h =
      elim (Bool-cases (leb r.log_base req.prev_log_index)) [
        | inl lo ↦
            let w =
              merge_entries-Merged r.log_base r.log req.prev_log_index req.entries false
                (ground arith)
                (prev_within req.prev_log_index req.prev_log_term r good (ground arith)) c k in
            let e : req.prev_log_index + 1 ≡ suc req.prev_log_index = omega arith in
            ground (arith, w.returns, w.contiguous, e)
        | inr hi ↦ ground (
          arith,
          merge_entries_low r.log_base r.log (req.prev_log_index + 1) req.entries false
              {log' = log'} {m' = m},
        )
      ]

  append_checked-Inv :
      (P : Persister S) (req : AppendEntriesRequest) (r : Raft S)
      → Contiguous req.prev_log_index req.entries
      → Inv r
      → Inv (append_checked P req r).1
  unfolding append_checked
  append_checked-Inv P req r k i =
      elim (Option-cases
        (merge_entries r.log_base r.log (req.prev_log_index + 1) req.entries false)) [
          | inl e ↦ ground arith
          | inr ((log', m), e) ↦
              elim (Bool-cases (prev_ok req.prev_log_index req.prev_log_term r)) [
                | inr bad ↦ ground arith
                | inl good ↦
                    let c = merges-Contiguous req r i.contiguous k good e in
                    ground (arith, c, finish_append-Same P req m (record r { log = log' }))
              ]
        ]

  handle_append_entries-Inv :
      (P : Persister S) (req : AppendEntriesRequest) (r : Raft S)
      → Contiguous req.prev_log_index req.entries
      → Inv r
      → Inv (handle_append_entries P req r).1
  unfolding handle_append_entries
  handle_append_entries-Inv P req r k i =
      let r1 = reset_election_timer (record_leader req.leader_id (adopt_term req.term r)) in
      ground (arith, append_checked-Inv P req r1 k (Inv-Same (prepared-Same req r) i))

  replicate_command-Inv :
      (P : Persister S) (cmd : Bytes) (r : Raft S) → Inv r → Inv (replicate_command P cmd r).1
  unfolding replicate_command truncate_last
  replicate_command-Inv P cmd r i =
      let next = length r.log + r.log_base + 1 in
      let entry : LogEntry = record { index = next; term = r.current_term; command = cmd } in
      let r1 = record r { log = r.log ++ entry ∷ [] } in
      let c = Contiguous-append r.log_base r.log entry i.contiguous (omega arith) in
      elim (Option-cases (persist P r1)) [
        | inl e ↦ ground (arith, Contiguous-take r.log_base (length r1.log - 1) r1.log c)
        | inr (r2, e) ↦ ground (arith, c, persist-Same P r1 r2 e, update_commit_index-Same r2)
      ]

  take_snapshot-Inv :
      (P : Persister S) (index : ℕ) (d : Bytes) (r : Raft S)
      → Inv r
      → Inv (take_snapshot P index d r).0
  unfolding take_snapshot fold_log
  take_snapshot-Inv P index d r i = elim (Option-cases (log_at r.log_base r.log index)) [
    | inl e ↦ ground arith
    | inr (x, e) ↦
        let (lo, hi) = log_at_bounds r.log_base r.log index x e in
        let c = Contiguous-drop r.log_base (index - r.log_base) r.log i.contiguous (omega arith) in
        let q : r.log_base + (index - r.log_base) ≡ index = omega arith in
        let folded = fold_log index x.term d (drop (index - r.log_base) r.log) r in
        ground (arith, c, q, persist_both-Same P folded)
  ]

  install-Inv :
      (req : InstallSnapshotRequest) (r : Raft S)
      → r.commit_index < req.last_included_index
      → Inv r
      → Inv (install req r)
  unfolding install
  install-Inv req r h i = ground (
    arith,
    tail_after-Contiguous r.log_base req.last_included_index r.log i.contiguous (omega arith),
  )

  install_checked-Inv :
      (P : Persister S) (req : InstallSnapshotRequest) (r : Raft S)
      → Inv r
      → Inv (install_checked P req r).1
  unfolding install_checked queue_snapshot
  install_checked-Inv P req r i = elim (Bool-cases (leb req.last_included_index r.commit_index)) [
    | inl old ↦ ground arith
    | inr new ↦
        let i' = install-Inv req r (ground arith) i in
        let s = persist_both-Same P (install req r) in
        ground (
          arith,
          i',
          s,
          length-append r.apply_ch,
          length-append (persist_both P (install req r)).0.apply_ch
              (snapshot_msg req.data_bytes req.last_included_index req.last_included_term ∷ []),
        )
  ]

  handle_install_snapshot-Inv :
      (P : Persister S) (req : InstallSnapshotRequest) (r : Raft S)
      → Inv r
      → Inv (handle_install_snapshot P req r).1
  unfolding handle_install_snapshot
  handle_install_snapshot-Inv P req r i =
      let r1 = if ltb r.current_term req.term then step_down req.term r else r in
      let r2 = record (reset_election_timer r1) { leader_id = some req.leader_id } in
      ground (arith, install_checked-Inv P req r2 (Inv-Same (prepared_install-Same req r) i))

  apply_pending-Inv : (sends : ℕ) (r : Raft S) → Inv r → Inv (apply_pending sends r).1
  unfolding apply_pending next_apply
  apply_pending-Inv zero r i = ground arith
  apply_pending-Inv (suc n) r i =
      ground (arith, apply_pending-Inv n (record r { last_applied = r.last_applied + 1 }))

  pub step-Inv : (P : Persister S) (e : Event) (r : Raft S) → Fits e → Inv r → Inv (step P e r)
  unfolding step
  step-Inv P elect r f i = Inv-Same (become_candidate-Same P r) i
  step-Inv P lead r f i = Inv-Same (become_leader-Same r) i
  step-Inv P begin r f i = Inv-Same (start-Same r) i
  step-Inv P halt r f i = Inv-Same (stop-Same r) i
  step-Inv P (vote_reply term resp) r f i = Inv-Same (count_vote-Same term resp r) i
  step-Inv P (vote_rpc req) r f i = Inv-Same (handle_request_vote-Same P req r) i
  step-Inv P (append_rpc req) r f i = handle_append_entries-Inv P req r f i
  step-Inv P (install_rpc req) r f i = handle_install_snapshot-Inv P req r i
  step-Inv P (append_reply peer req resp) r f i = Inv-Same (on_append_reply-Same peer req resp r) i
  step-Inv P (install_reply peer req resp) r f i =
      Inv-Same (on_install_reply-Same peer req resp r) i
  step-Inv P (submit cmd) r f i = replicate_command-Inv P cmd r i
  step-Inv P (compact index d) r f i = take_snapshot-Inv P index d r i
  step-Inv P (apply sends) r f i = apply_pending-Inv sends r i

  -- A node whose log has consecutive indices from its base, whose base and applied index are
  -- committed, whose snapshot ends at the base and whose apply channel is within its capacity stays
  -- so under any list of events whose AppendEntries requests carry consecutive entries behind their
  -- prevLogIndex.
  pub run-Inv :
      (P : Persister S) (es : List Event) (r : Raft S) → AllFit es → Inv r → Inv (run P es r)
  unfolding run
  run-Inv P [] r f i = i
  run-Inv P (e ∷ es) r f i = run-Inv P es (step P e r) f.1 (step-Inv P e r f.0 i)
