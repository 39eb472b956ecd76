-- ===== src/Raft/Replication/Matching.antt =====
-- Log matching across `AppendEntries` (raft/replication.go).
use distrib_kv.Prelude.{
  ℕ, suc, ◌+◌, ◌-◌, ◌≤◌, ◌<◌, ◌≡◌, sym, ap, ◌∙◌, inl, inr, List, Option, some, Bool, true, false,
  leb, ltb, Bool-cases, Option-cases, arith, length, get_elem?, get_elem?-some,
}
use distrib_kv.Raft.Types.{LogEntry, AppendEntriesRequest, AppendEntriesResponse, reply}
use distrib_kv.Raft.Persister.{Persister}
use distrib_kv.Raft.Node.{Raft, log_at}
use distrib_kv.Raft.Replication.{merge_entries, prev_ok, handle_append_entries}
use distrib_kv.Raft.Log.{Contiguous, log_at-some, log_at_bounds}
use distrib_kv.Raft.Log.Merge.{Merged, merge_entries-Merged}
use distrib_kv.Raft.Replication.Follower.{prepared, prepared-SameLog, handle_append_entries_ok}

-- A log as the entry at each absolute index.
abbrev pub View : Type 0
View = ℕ → Option LogEntry

-- Two logs with the same term at one index agree on whatever both hold up to it.
pub record LogMatching (f g : View) : Type 0 where
  pub at :
      (i j : ℕ) (a b a' b' : LogEntry)
      → f i ≡ some a
      → g i ≡ some b
      → a.term ≡ b.term
      → j ≤ i
      → f j ≡ some a'
      → g j ≡ some b'
      → a' ≡ b'

-- The request describes the leader's log `g`: consecutive entries behind prevLogIndex, all of them
-- entries of `g`, and the term of `g` at prevLogIndex.
pub record Describes (g : View) (req : AppendEntriesRequest) : Type 0 where
  pub consecutive : Contiguous req.prev_log_index req.entries
  pub entries :
      (k : ℕ) (e : LogEntry)
      → get_elem? req.entries k ≡ some e
      → g (req.prev_log_index + 1 + k) ≡ some e
  pub prev :
      0 < req.prev_log_index
      → (e : LogEntry) × (g req.prev_log_index ≡ some e) × (e.term ≡ req.prev_log_term)

module _ {S : Type 0} where
  -- Rule 3, inverted.
  prev_ok_entry :
      (idx term : ℕ) (r : Raft S)
      → prev_ok idx term r ≡ true
      → 0 < idx
      → (e : LogEntry) × (log_at r.log_base r.log idx ≡ some e) × (e.term ≡ term)
  unfolding prev_ok
  prev_ok_entry idx term r h pos = elim (Option-cases (log_at r.log_base r.log idx)) [
    | inl gone ↦ absurd (ground arith)
    | inr (e, found) ↦ (e, found, ground arith)
  ]

  pub prev_within :
      (idx term : ℕ) (r : Raft S)
      → prev_ok idx term r ≡ true
      → r.log_base ≤ idx
      → idx ≤ r.log_base + length r.log
  prev_within idx term r h lo = elim (Bool-cases (ltb 0 idx)) [
    | inr zero_idx ↦ ground arith
    | inl pos ↦
        let (e, found, _) = prev_ok_entry idx term r h (ground arith) in
        (log_at_bounds r.log_base r.log idx e found).1
  ]

  -- Rule 3 has passed and rule 4 has run.
  module _ (req : AppendEntriesRequest) (r : Raft S) {log' : List LogEntry} {m : Bool}
      (good : prev_ok req.prev_log_index req.prev_log_term (prepared req r) ≡ true)
      (merges : merge_entries r.log_base r.log (req.prev_log_index + 1) req.entries false
        ≡ some (log', m)) where
    prev_found :
        0 < req.prev_log_index
        → (e : LogEntry) × (log_at r.log_base r.log req.prev_log_index ≡ some e)
          × (e.term ≡ req.prev_log_term)
    prev_found pos =
        let same = prepared-SameLog req r in
        let (e, found, term) = prev_ok_entry _ _ (prepared req r) good pos in
        (e, ground (arith, found, same), term)

    prev_le : r.log_base ≤ req.prev_log_index → req.prev_log_index ≤ r.log_base + length r.log
    prev_le lo =
        let same = prepared-SameLog req r in
        let within =
          prev_within req.prev_log_index req.prev_log_term (prepared req r) good
            (ground (arith, same)) in
        ground (arith, within, same)

    pub merged_of :
        r.log_base ≤ req.prev_log_index
        → Contiguous r.log_base r.log
        → Contiguous req.prev_log_index req.entries
        → (w : Merged r.log_base r.log req.prev_log_index req.entries
            (merge_entries r.log_base r.log (suc req.prev_log_index) req.entries false))
          × (log' ≡ w.merged)
    merged_of lo c k =
        let w =
          merge_entries-Merged r.log_base r.log req.prev_log_index req.entries false lo (prev_le lo)
            c k in
        let e : req.prev_log_index + 1 ≡ suc req.prev_log_index = omega arith in
        (w, ground (arith, w.returns, merges, e))

    agree_below :
        {g : View}
        → Describes g req
        → LogMatching (log_at r.log_base r.log) g
        → r.log_base ≤ req.prev_log_index
        → (j : ℕ) (b : LogEntry) → r.log_base < j
        → j ≤ req.prev_log_index
        → g j ≡ some b
        → log_at r.log_base r.log j ≡ some b
    agree_below d match lo j b above up gj =
        let (e, found, term) = prev_found (omega arith) in
        let (e', found', term') = d.prev (omega arith) in
        let (x, hit) = log_at-some r.log_base r.log j above (omega (arith, prev_le lo)) in
        let same : x ≡ b =
          match.at req.prev_log_index j e e' x b found found' (term ∙ sym term') up hit gj in
        hit ∙ ap some same

    agree_above :
        {g : View}
        → Describes g req
        → LogMatching (log_at r.log_base r.log) g
        → (w : Merged r.log_base r.log req.prev_log_index req.entries
            (merge_entries r.log_base r.log (suc req.prev_log_index) req.entries false))
        → (k : ℕ) (e : LogEntry) → get_elem? req.entries k ≡ some e
        → log_at r.log_base w.merged (req.prev_log_index + 1 + k) ≡ some e
    agree_above d match w k e h = elim (w.here k e h) [
      | inl done ↦ done
      | inr (old, found, same, kept) ↦
          let idx = req.prev_log_index + 1 + k in
          kept
          ∙ ap some (
              match.at idx idx old e old e found (d.entries k e h) same (omega arith) found
                (d.entries k e h))
    ]

    pub merged_agrees :
        {g : View}
        → Describes g req
        → LogMatching (log_at r.log_base r.log) g
        → Contiguous r.log_base r.log
        → r.log_base ≤ req.prev_log_index
        → (j : ℕ) (b : LogEntry) → r.log_base < j
        → j ≤ req.prev_log_index + length req.entries
        → g j ≡ some b
        → log_at r.log_base log' j ≡ some b
    merged_agrees {g} d match c lo j b above up gj =
        let (w, eq) = merged_of lo c d.consecutive in
        rw eq (elim (Bool-cases (leb j req.prev_log_index)) [
          | inl low ↦ w.below j (ground arith) ∙ agree_below d match lo j b above (ground arith) gj
          | inr high ↦
              let k = j - req.prev_log_index - 1 in
              let (e, found) = get_elem?-some req.entries k (ground arith) in
              let q : req.prev_log_index + 1 + k ≡ j = ground arith in
              let same : some e ≡ some b = sym (d.entries k e found) ∙ (rw q gj) in
              rw (← q) (agree_above d match w k e found) ∙ same
        ])

  module _ (P : Persister S) (req : AppendEntriesRequest) (r : Raft S) {a : AppendEntriesResponse}
      {r' : Raft S} (ran : handle_append_entries P req r ≡ (reply a, r'))
      (ok : a.success ≡ true) where
    -- A follower whose log has consecutive indices and matches a log g answers with success a
    -- request that describes g: consecutive entries, all of them of g, behind an index whose term
    -- is that of g. The prevLogIndex is not below the follower's base. Then the follower has the
    -- entry of g at every index above its base, up to the last entry of the request, where g has
    -- one.
    pub handle_append_entries_agrees :
        {g : View}
        → Describes g req
        → LogMatching (log_at r.log_base r.log) g
        → Contiguous r.log_base r.log
        → r.log_base ≤ req.prev_log_index
        → (j : ℕ) (b : LogEntry) → r.log_base < j
        → j ≤ req.prev_log_index + length req.entries
        → g j ≡ some b
        → log_at r'.log_base r'.log j ≡ some b
    handle_append_entries_agrees d match c lo j b above up gj =
        let ran_ok = handle_append_entries_ok P req r ran ok in
        rw ran_ok.log_base
          (merged_agrees req r ran_ok.prev ran_ok.merges d match c lo j b above up gj)
