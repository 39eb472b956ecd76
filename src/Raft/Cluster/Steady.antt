-- ===== src/Raft/Cluster/Steady.antt =====
-- The events of a node (raft/) that are no part of an election: they make no candidate and no leader.
use distrib_kv.Prelude.{
  ℕ, zero, suc, ◌+◌, ◌-◌, ◌≡◌, refl, ◌⊎◌, inl, inr, [], ◌∷◌, ◌++◌, some, Bool, true, false, ltb,
  Option-cases, if◌then◌else◌, arith, length, nat_key, lookup, insert, drop, Key, Assoc,
}
use distrib_kv.Raft.Types.{
  LogEntry, Bytes, follower, AppendEntriesRequest, AppendEntriesResponse, InstallSnapshotRequest,
  InstallSnapshotResponse,
}
use distrib_kv.Raft.Persister.{Persister}
use distrib_kv.Raft.Node.{
  Raft, Peer, is_leader, log_at, reset_election_timer, stop_election_timer, signal_commit, persist,
  step_down, adopt_term,
}
use distrib_kv.Raft.Replication.{
  record_leader, advance_commit, finish_append, append_checked, handle_append_entries, scan_commit,
  update_commit_index, replicate_command, merge_entries,
}
use distrib_kv.Raft.Sender.{on_append_reply, ack_peer, back_off_peer}
use distrib_kv.Raft.Snapshot.{
  persist_both, fold_log, take_snapshot, install, queue_snapshot, install_checked,
  handle_install_snapshot, on_install_reply,
}
use distrib_kv.Raft.Lifecycle.{start, stop, close_peers, next_apply, apply_pending}
use distrib_kv.Raft.Events.{
  Event, elect, lead, begin, halt, vote_reply, vote_rpc, append_rpc, install_rpc, append_reply,
  install_reply, submit, compact, apply, step,
}
use distrib_kv.Raft.Cluster.{is_calm}

pub length-insert_of_mem {ℓ κ} :
    {K : Type ℓ} {V : Type κ} ⦃e : Key K⦄ (k : K) (v w : V) (m : Assoc K V)
    → lookup k m ≡ some w
    → length (insert k v m) ≡ length m
unfolding lookup insert
length-insert_of_mem k v w [] h = ground arith
length-insert_of_mem k v w ((j, x) ∷ m) h = ground (arith, length-insert_of_mem k v w m)

length-close_peers : (ps : Assoc ℕ Peer) → length (close_peers ps) ≡ length ps
unfolding close_peers
length-close_peers [] = refl
length-close_peers ((i, p) ∷ ps) = ground (arith, length-close_peers ps)

module _ {S : Type 0} where
  -- The node and the cluster's size are the same, and the node is a follower, or has the role, the
  -- term and the votes that it had.
  pub record Steady (r r' : Raft S) : Type 0 where
    pub id : r'.server_id ≡ r.server_id
    pub size : length r'.peers ≡ length r.peers
    pub role :
        (r'.state ≡ follower)
        ⊎ ((r'.state ≡ r.state)
            × (r'.current_term ≡ r.current_term)
            × (r'.votes_received ≡ r.votes_received))

  persist-Steady : (P : Persister S) (r r' : Raft S) → persist P r ≡ some r' → Steady r r'
  unfolding persist
  persist-Steady P r r' h = ground arith

  prepared-Steady :
      (req : AppendEntriesRequest) (r : Raft S)
      → Steady r (reset_election_timer (record_leader req.leader_id (adopt_term req.term r)))
  unfolding reset_election_timer record_leader adopt_term is_leader
  prepared-Steady req r = ground arith

  finish_append-Steady :
      (P : Persister S) (req : AppendEntriesRequest) (m : Bool) (r : Raft S)
      → Steady r (finish_append P req m r).1
  unfolding finish_append persist advance_commit signal_commit
  finish_append-Steady P req true r = ground arith
  finish_append-Steady P req false r = ground arith

  append_checked-Steady :
      (P : Persister S) (req : AppendEntriesRequest) (r : Raft S)
      → Steady r (append_checked P req r).1
  unfolding append_checked
  append_checked-Steady P req r =
      elim (Option-cases
        (merge_entries r.log_base r.log (req.prev_log_index + 1) req.entries false)) [
          | inl e ↦ ground arith
          | inr ((log', m), e) ↦
              ground (arith, finish_append-Steady P req m (record r { log = log' }))
        ]

  handle_append_entries-Steady :
      (P : Persister S) (req : AppendEntriesRequest) (r : Raft S)
      → Steady r (handle_append_entries P req r).1
  unfolding handle_append_entries
  handle_append_entries-Steady P req r =
      let r1 = reset_election_timer (record_leader req.leader_id (adopt_term req.term r)) in
      ground (arith, prepared-Steady req r, append_checked-Steady P req r1)

  scan_commit-Steady : (k : ℕ) (r : Raft S) → Steady r (scan_commit k r)
  unfolding scan_commit signal_commit
  scan_commit-Steady zero r = ground arith
  scan_commit-Steady (suc k) r = ground (arith, scan_commit-Steady k r)

  update_commit_index-Steady : (r : Raft S) → Steady r (update_commit_index r)
  unfolding update_commit_index
  update_commit_index-Steady r =
      ground (arith, scan_commit-Steady (length r.log + r.log_base - r.commit_index) r)

  replicate_command-Steady :
      (P : Persister S) (cmd : Bytes) (r : Raft S) → Steady r (replicate_command P cmd r).1
  unfolding replicate_command
  replicate_command-Steady P cmd r =
      let next = length r.log + r.log_base + 1 in
      let entry : LogEntry = record { index = next; term = r.current_term; command = cmd } in
      let r1 = record r { log = r.log ++ entry ∷ [] } in
      elim (Option-cases (persist P r1)) [
        | inl e ↦ ground arith
        | inr (r2, e) ↦ ground (arith, persist-Steady P r1 r2 e, update_commit_index-Steady r2)
      ]

  on_append_reply-Steady :
      (peer : ℕ) (req : AppendEntriesRequest) (resp : AppendEntriesResponse) (r : Raft S)
      → Steady r (on_append_reply peer req resp r).0
  unfolding on_append_reply step_down
  on_append_reply-Steady peer req resp r = elim (Option-cases (lookup peer r.peers)) [
    | inl e ↦ ground arith
    | inr (p, e) ↦
        let acked = ack_peer (req.prev_log_index + length req.entries) p in
        ground (
          arith,
          update_commit_index-Steady (record r { peers = insert peer acked r.peers }),
          length-insert_of_mem peer (back_off_peer p) p r.peers e,
          length-insert_of_mem peer acked p r.peers e,
        )
  ]

  on_install_reply-Steady :
      (peer : ℕ) (req : InstallSnapshotRequest) (resp : InstallSnapshotResponse) (r : Raft S)
      → Steady r (on_install_reply peer req resp r)
  unfolding on_install_reply step_down
  on_install_reply-Steady peer req resp r = elim (Option-cases (lookup peer r.peers)) [
    | inl e ↦ ground arith
    | inr (p, e) ↦
        let acked = ack_peer req.last_included_index p in
        ground (
          arith,
          update_commit_index-Steady (record r { peers = insert peer acked r.peers }),
          length-insert_of_mem peer acked p r.peers e,
        )
  ]

  persist_both-Steady : (P : Persister S) (r : Raft S) → Steady r (persist_both P r).0
  unfolding persist_both persist
  persist_both-Steady P r = ground arith

  take_snapshot-Steady :
      (P : Persister S) (index : ℕ) (d : Bytes) (r : Raft S)
      → Steady r (take_snapshot P index d r).0
  unfolding take_snapshot
  take_snapshot-Steady P index d r = elim (Option-cases (log_at r.log_base r.log index)) [
    | inl e ↦ ground arith
    | inr (x, e) ↦
        let folded = fold_log index x.term d (drop (index - r.log_base) r.log) r in
        ground (arith, persist_both-Steady P folded)
  ]

  install_checked-Steady :
      (P : Persister S) (req : InstallSnapshotRequest) (r : Raft S)
      → Steady r (install_checked P req r).1
  unfolding install_checked install queue_snapshot
  install_checked-Steady P req r = ground (arith, persist_both-Steady P (install req r))

  handle_install_snapshot-Steady :
      (P : Persister S) (req : InstallSnapshotRequest) (r : Raft S)
      → Steady r (handle_install_snapshot P req r).1
  unfolding handle_install_snapshot step_down reset_election_timer
  handle_install_snapshot-Steady P req r =
      let r1 = if ltb r.current_term req.term then step_down req.term r else r in
      let r2 = record (reset_election_timer r1) { leader_id = some req.leader_id } in
      ground (arith, install_checked-Steady P req r2)

  apply_pending-Steady : (sends : ℕ) (r : Raft S) → Steady r (apply_pending sends r).1
  unfolding apply_pending next_apply
  apply_pending-Steady zero r = ground arith
  apply_pending-Steady (suc n) r =
      ground (arith, apply_pending-Steady n (record r { last_applied = r.last_applied + 1 }))

  start-Steady : (r : Raft S) → Steady r (start r)
  unfolding start
  start-Steady r = ground arith

  stop-Steady : (r : Raft S) → Steady r (stop r)
  unfolding stop stop_election_timer
  stop-Steady r = ground (arith, length-close_peers r.peers)

  pub step-Steady :
      (P : Persister S) (e : Event) (r : Raft S) → is_calm e ≡ true → Steady r (step P e r)
  unfolding step is_calm
  step-Steady P elect r h = cc
  step-Steady P lead r h = cc
  step-Steady P begin r h = start-Steady r
  step-Steady P halt r h = stop-Steady r
  step-Steady P (vote_reply term resp) r h = cc
  step-Steady P (vote_rpc req) r h = cc
  step-Steady P (append_rpc req) r h = handle_append_entries-Steady P req r
  step-Steady P (install_rpc req) r h = handle_install_snapshot-Steady P req r
  step-Steady P (append_reply peer req resp) r h = on_append_reply-Steady peer req resp r
  step-Steady P (install_reply peer req resp) r h = on_install_reply-Steady peer req resp r
  step-Steady P (submit cmd) r h = replicate_command-Steady P cmd r
  step-Steady P (compact index d) r h = take_snapshot-Steady P index d r
  step-Steady P (apply sends) r h = apply_pending-Steady sends r
