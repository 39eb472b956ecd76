-- ===== src/Raft/Replication/Commit.antt =====
-- The leader's commit rule, `updateCommitIndex` of raft/replication.go.
use distrib_kv.Prelude.{
  ℕ, zero, suc, ◌+◌, ◌-◌, ◌*◌, ◌/◌, ◌≤◌, ◌<◌, ◌≡◌, refl, ap, ◌⊎◌, inl, inr, some, true, ltb, ◌==◌,
  ==_iff, Bool-cases, Option-cases, arith, length,
}
use distrib_kv.Raft.Types.{LogEntry, leader}
use distrib_kv.Raft.Node.{Raft, log_at, is_leader, signal_commit}
use distrib_kv.Raft.Replication.{count_match, scan_commit, update_commit_index}
use distrib_kv.Raft.Election.Quorum.{cluster_size}
use distrib_kv.Raft.Log.{log_at_bounds}

module _ {S : Type 0} where
  -- More than half of the cluster holds the entry: this node and the peers that acknowledged it.
  abbrev pub HeldByMajority : ℕ → Raft S → Type 0
  HeldByMajority n r = cluster_size r < 2 * (1 + count_match n r.peers)

  -- `r'` is `r` with the commit index moved to an entry of the current term that a majority holds.
  pub record Advanced (r r' : Raft S) : Type 0 where
    pub entry : LogEntry
    pub found : log_at r.log_base r.log r'.commit_index ≡ some entry
    pub term : entry.term ≡ r.current_term
    pub majority : HeldByMajority r'.commit_index r
    pub forward : r.commit_index < r'.commit_index
    pub rest : r' ≡ record r { commit_index = r'.commit_index; commit_ch = true }

  scan_commit_cases : (k : ℕ) (r : Raft S) → (scan_commit k r ≡ r) ⊎ Advanced r (scan_commit k r)
  unfolding scan_commit signal_commit
  scan_commit_cases zero r = inl refl
  scan_commit_cases (suc k) r =
      elim (Option-cases (log_at r.log_base r.log (r.commit_index + suc k))) [
        | inl e ↦ rw (e, scan_commit) (scan_commit_cases k r)
        | inr (x, e) ↦
            elim (Bool-cases
              (ltb ((length r.peers + 1) / 2) (1 + count_match (r.commit_index + suc k) r.peers))) [
                | inr few ↦ rw (e, few, scan_commit) (scan_commit_cases k r)
                | inl many ↦ elim (Bool-cases (x.term == r.current_term)) [
                  | inr old ↦ inl (rw (e, many, old, scan_commit))
                  | inl cur ↦ inr (
                      rw (e, many, cur, scan_commit)
                        (record {
                          entry = x;
                          found = e;
                          term = (==_iff x.term r.current_term).0 cur;
                          majority = ground arith;
                          forward = omega arith;
                          rest = refl;
                        }))
                ]
              ]
      ]

  -- The commit rule leaves the node as it is, or the node is a leader and the rule moves the commit
  -- index forward to an entry of the current term that more than half of the cluster holds, signals
  -- the apply loop, and changes nothing else.
  pub update_commit_index_safe :
      (r : Raft S)
      → (update_commit_index r ≡ r) ⊎ ((r.state ≡ leader) × Advanced r (update_commit_index r))
  unfolding update_commit_index is_leader
  update_commit_index_safe r = elim (Bool-cases (is_leader r)) [
    | inr not_leading ↦ inl (rw (not_leading, update_commit_index))
    | inl leading ↦
        let lead : r.state ≡ leader = ground arith in
        let same : update_commit_index r
            ≡ scan_commit (length r.log + r.log_base - r.commit_index) r =
          rw (leading, update_commit_index) in
        rw same (elim (scan_commit_cases (length r.log + r.log_base - r.commit_index) r) [
          | inl e ↦ inl e
          | inr a ↦ inr (lead, a)
        ])
  ]

  -- The scan stops at the highest index that a majority holds.
  scan_commit_hits :
      (k : ℕ) (r : Raft S) (n : ℕ) (e : LogEntry)
      → r.commit_index < n
      → n ≤ r.commit_index + k
      → log_at r.log_base r.log n ≡ some e
      → e.term ≡ r.current_term
      → HeldByMajority n r
      → ((m : ℕ) → n < m → m ≤ r.commit_index + k → ¬ HeldByMajority m r)
      → (scan_commit k r).commit_index ≡ n
  unfolding scan_commit signal_commit
  scan_commit_hits zero r n e lo hi found cur many top = absurd (omega arith)
  scan_commit_hits (suc k) r n e lo hi found cur many top =
      elim (Bool-cases (n == r.commit_index + suc k)) [
        | inl here ↦
            let q : n ≡ r.commit_index + suc k = (==_iff n (r.commit_index + suc k)).0 here in
            ground (arith, ap (log_at r.log_base r.log) q, ap (λ (m : ℕ). count_match m r.peers) q)
        | inr above ↦
            let lt : n < r.commit_index + suc k = ground arith in
            ground (
              arith,
              top (r.commit_index + suc k) lt (omega arith),
              scan_commit_hits k r n e lo (omega arith) found cur many
                  (λ m h h'. top m h (omega arith)),
            )
      ]

  -- If a leader holds an entry of its term at an index above the commit index, a majority holds
  -- that index, and no majority holds a later index of the log, the commit rule moves the commit
  -- index exactly there.
  pub update_commit_index_complete :
      (r : Raft S) (n : ℕ) (e : LogEntry)
      → r.state ≡ leader
      → r.commit_index < n
      → log_at r.log_base r.log n ≡ some e
      → e.term ≡ r.current_term
      → HeldByMajority n r
      → ((m : ℕ) → n < m → m ≤ r.log_base + length r.log → ¬ HeldByMajority m r)
      → (update_commit_index r).commit_index ≡ n
  unfolding update_commit_index is_leader
  update_commit_index_complete r n e lead lo found cur many top =
      let (_, hi) = log_at_bounds r.log_base r.log n e found in
      ground (
        arith,
        scan_commit_hits (length r.log + r.log_base - r.commit_index) r n e lo (omega arith) found
            cur many (λ m h h'. top m h (omega arith)),
      )
