-- ===== src/Raft/Snapshot/Compaction.antt =====
-- Compaction (raft/snapshot.go, Snapshot).
use distrib_kv.Prelude.{
  length, true, ℕ, ◌+◌, ◌-◌, ◌≤◌, ◌<◌, ◌≡◌, ap, ◌∙◌, inl, inr, none, some, Option-cases, arith,
  drop,
}
use distrib_kv.Raft.Types.{RequestVoteRequest, Bytes, LogEntry}
use distrib_kv.Raft.Election.{log_ok}
use distrib_kv.Raft.Node.{get_last_log_info, Raft, log_at, persist}
use distrib_kv.Raft.Persister.{Persister, found}
use distrib_kv.Raft.Snapshot.{persist_both, fold_log, take_snapshot}
use distrib_kv.Raft.Log.{log_at-drop, drop_all}

module _ {S : Type 0} where
  -- What both files hold.
  pub record OnDisk (P : Persister S) (r : Raft S) : Type 0 where
    pub state :
        P.load r.persister
        ≡ some (record { current_term = r.current_term; voted_for = r.voted_for; log = r.log })
    pub snapshot : P.load_snapshot r.persister ≡ found r.snapshot r.snapshot_index r.snapshot_term

  pub persist_both_ok :
      (P : Persister S) (r : Raft S)
      → (persist_both P r).1 ≡ none
      → OnDisk P (persist_both P r).0
        × ((persist_both P r).0 ≡ record r { persister = (persist_both P r).0.persister })
  unfolding persist_both persist
  persist_both_ok P r h =
      elim (Option-cases (P.save r.current_term r.voted_for r.log r.persister)) [
        | inl e ↦ absurd (ground arith)
        | inr (s1, e1) ↦
            elim (Option-cases (P.save_snapshot r.snapshot r.snapshot_index r.snapshot_term s1)) [
              | inl e ↦ absurd (ground arith)
              | inr (s2, e2) ↦
                  let saved = P.load-save r.current_term r.voted_for r.log r.persister s1 e1 in
                  let kept =
                    P.load-save_snapshot r.snapshot r.snapshot_index r.snapshot_term s1 s2 e2 in
                  let snap =
                    P.load_snapshot-save_snapshot r.snapshot r.snapshot_index r.snapshot_term s1 s2
                      e2 in
                  (record { state = ground arith; snapshot = ground arith }, ground arith)
            ]
      ]

  -- A snapshot that was taken.
  pub record Compacted (P : Persister S) (index : ℕ) (d : Bytes) (r r' : Raft S) : Type 0 where
    pub base : r'.log_base ≡ index
    pub snapshot : r'.snapshot ≡ d
    pub log : r'.log ≡ drop (index - r.log_base) r.log
    pub at : r'.snapshot_index ≡ index
    pub entry : LogEntry
    pub covered : log_at r.log_base r.log index ≡ some entry
    pub term : r'.snapshot_term ≡ entry.term
    pub later : (j : ℕ) → index < j → log_at r'.log_base r'.log j ≡ log_at r.log_base r.log j
    pub commit : r'.commit_index ≡ r.commit_index
    pub applied : r'.last_applied ≡ r.last_applied
    pub committed : index ≤ r.commit_index
    pub disk : OnDisk P r'

  take_snapshot_runs :
      (P : Persister S) (index : ℕ) (d : Bytes) (r : Raft S) (x : LogEntry)
      → r.log_base < index
      → log_at r.log_base r.log index ≡ some x
      → (take_snapshot P index d r).1 ≡ none
      → (take_snapshot P index d r
          ≡ persist_both P (fold_log index x.term d (drop (index - r.log_base) r.log) r))
        × ((persist_both P (fold_log index x.term d (drop (index - r.log_base) r.log) r)).1 ≡ none)
        × (index ≤ r.commit_index)
  unfolding take_snapshot fold_log
  take_snapshot_runs P index d r x lo e h = ground arith

  take_snapshot_missing :
      (P : Persister S) (index : ℕ) (d : Bytes) (r : Raft S)
      → r.log_base < index
      → log_at r.log_base r.log index ≡ none
      → (take_snapshot P index d r).1 ≡ none
      → ⊥
  unfolding take_snapshot
  take_snapshot_missing P index d r lo e h = ground arith

  later_entries :
      (index : ℕ) (r : Raft S)
      → r.log_base < index
      → (j : ℕ) → index < j
      → log_at index (drop (index - r.log_base) r.log) j ≡ log_at r.log_base r.log j
  later_entries index r lo j h =
      let q : r.log_base + (index - r.log_base) ≡ index = omega arith in
      rw q at (log_at-drop r.log_base (index - r.log_base) r.log j (omega arith))

  -- A snapshot above the base that is taken without an error ends at its index, which was
  -- committed, with the term of the entry there; every later entry is found at its index as before,
  -- the commit and applied indices stay, and both files hold the new state.
  pub take_snapshot-Compacted :
      (P : Persister S) (index : ℕ) (d : Bytes) (r : Raft S)
      → r.log_base < index
      → (take_snapshot P index d r).1 ≡ none
      → Compacted P index d r (take_snapshot P index d r).0
  unfolding fold_log
  take_snapshot-Compacted P index d r lo h = elim (Option-cases (log_at r.log_base r.log index)) [
    | inl e ↦ absurd (take_snapshot_missing P index d r lo e h)
    | inr (x, e) ↦
        let folded = fold_log index x.term d (drop (index - r.log_base) r.log) r in
        let (result, done, small) = take_snapshot_runs P index d r x lo e h in
        let (disk, same) = persist_both_ok P folded done in
        rw result (record {
          base = ap (λ (n : Raft S). n.log_base) same;
          snapshot = ap (λ (n : Raft S). n.snapshot) same;
          log = ap (λ (n : Raft S). n.log) same;
          at = ap (λ (n : Raft S). n.snapshot_index) same;
          entry = x;
          covered = e;
          term = ap (λ (n : Raft S). n.snapshot_term) same;
          later = λ j above.
              ap (λ (n : Raft S). log_at n.log_base n.log j) same
              ∙ later_entries index r lo j above;
          commit = ap (λ (n : Raft S). n.commit_index) same;
          applied = ap (λ (n : Raft S). n.last_applied) same;
          committed = small;
          disk = disk;
        })
  ]

  -- A node that has taken a snapshot of its whole log, above its old base, finds the log of every
  -- candidate good enough for its vote.
  pub compacted_log_ok :
      (P : Persister S) (index : ℕ) (d : Bytes) (r : Raft S) (req : RequestVoteRequest)
      → r.log_base < index
      → index ≡ r.log_base + length r.log
      → (take_snapshot P index d r).1 ≡ none
      → log_ok req (take_snapshot P index d r).0 ≡ true
  unfolding log_ok get_last_log_info
  compacted_log_ok P index d r req lo whole h =
      let w = take_snapshot-Compacted P index d r lo h in
      let empty = drop_all (index - r.log_base) r.log (omega arith) in ground (arith, w.log, empty)
