-- ===== src/Raft/Log/Merge.antt =====
-- Rule 4 of `AppendEntries` (raft/replication.go): what the merge loop does to a log.
use distrib_kv.Prelude.{
  ℕ, zero, suc, ◌+◌, ◌≤◌, ◌<◌, ◌≡◌, refl, ap, ◌∙◌, ◌⊎◌, inl, inr, List, [], ◌∷◌, Option, none, some,
  Bool, false, leb, lt→leb_false, arith, length, get_elem?,
}
use distrib_kv.Raft.Types.{LogEntry}
use distrib_kv.Raft.Node.{log_at}
use distrib_kv.Raft.Replication.{merge_entry, merge_entries}
use distrib_kv.Raft.Log.{Contiguous}
use distrib_kv.Raft.Log.Round.{Round, merge_entry-Round}

-- What the whole loop gives for entries of consecutive indices, the first one `suc p`.
pub record Merged (base : ℕ) (log : List LogEntry) (p : ℕ) (es : List LogEntry)
    (r : Option (List LogEntry × Bool)) : Type 0 where
  pub merged : List LogEntry
  pub modified : Bool
  pub returns : r ≡ some (merged, modified)
  pub contiguous : Contiguous base merged
  pub reach : p + length es ≤ base + length merged
  pub below : (j : ℕ) → j ≤ p → log_at base merged j ≡ log_at base log j
  pub here :
      (k : ℕ) (e : LogEntry)
      → get_elem? es k ≡ some e
      → (log_at base merged (p + 1 + k) ≡ some e)
        ⊎ ((old : LogEntry) × (log_at base log (p + 1 + k) ≡ some old)
            × (old.term ≡ e.term)
            × (log_at base merged (p + 1 + k) ≡ some old))
  pub beyond : (j : ℕ) → p + length es < j → (log_at base merged j ≡ none) ⊎ (merged ≡ log)

module _ (base : ℕ) (log log' : List LogEntry) (p : ℕ) (x : LogEntry) (es : List LogEntry)
    {r : Option (List LogEntry × Bool)} (one : Round base log log' (suc p) x)
    (rest : Merged base log' (suc p) es r) where
  here_first :
      (log_at base rest.merged (suc p) ≡ some x)
      ⊎ ((old : LogEntry) × (log_at base log (suc p) ≡ some old)
          × (old.term ≡ x.term)
          × (log_at base rest.merged (suc p) ≡ some old))
  here_first = elim one.here [
    | inl w ↦ inl (rest.below (suc p) (omega arith) ∙ w)
    | inr (old, found, same, kept) ↦ inr (old, found, same, rest.below (suc p) (omega arith) ∙ kept)
  ]

  here_later :
      (k : ℕ) (e : LogEntry)
      → get_elem? es k ≡ some e
      → (log_at base rest.merged (suc p + 1 + k) ≡ some e)
        ⊎ ((old : LogEntry) × (log_at base log (suc p + 1 + k) ≡ some old)
            × (old.term ≡ e.term)
            × (log_at base rest.merged (suc p + 1 + k) ≡ some old))
  here_later k e h = elim (rest.here k e h) [
    | inl w ↦ inl w
    | inr (old, found, same, kept) ↦ elim (one.beyond (suc p + 1 + k) (omega arith)) [
      | inl gone ↦ absurd (ground arith)
      | inr eq ↦ inr (old, rw eq at found, same, kept)
    ]
  ]

  here_all :
      (k : ℕ) (e : LogEntry)
      → get_elem? (x ∷ es) k ≡ some e
      → (log_at base rest.merged (p + 1 + k) ≡ some e)
        ⊎ ((old : LogEntry) × (log_at base log (p + 1 + k) ≡ some old)
            × (old.term ≡ e.term)
            × (log_at base rest.merged (p + 1 + k) ≡ some old))
  here_all zero e h =
      let q : p + 1 + 0 ≡ suc p = omega arith in let x_e : x ≡ e = cc in rw (q, ← x_e) here_first
  here_all (suc k) e h =
      let q : p + 1 + suc k ≡ suc p + 1 + k = omega arith in rw q (here_later k e h)

  beyond_all :
      (j : ℕ) → p + length (x ∷ es) < j → (log_at base rest.merged j ≡ none) ⊎ (rest.merged ≡ log)
  beyond_all j h = elim (rest.beyond j (omega arith)) [
    | inl gone ↦ inl gone
    | inr eq ↦ elim (one.beyond j (omega arith)) [
      | inl gone ↦ inl (ap (λ l. log_at base l j) eq ∙ gone)
      | inr eq' ↦ inr (eq ∙ eq')
    ]
  ]

  Merged-cons : {r' : Option (List LogEntry × Bool)} → r' ≡ r → Merged base log p (x ∷ es) r'
  Merged-cons e = record {
    merged = rest.merged;
    modified = rest.modified;
    returns = e ∙ rest.returns;
    contiguous = rest.contiguous;
    reach = omega (arith, rest.reach);
    below = λ j h. rest.below j (omega arith) ∙ one.below j (omega arith);
    here = here_all;
    beyond = beyond_all;
  }

-- For consecutive entries behind an index p that lies in the log or at one of its ends, the merge
-- loop does not panic; the result has consecutive indices and reaches the last entry, is unchanged
-- up to p, and holds at each of the entries' indices the entry or an old one of the same term. If
-- anything stands above the last of them, the log is as it was.
pub merge_entries-Merged :
    (base : ℕ) (log : List LogEntry) (p : ℕ) (es : List LogEntry) (m : Bool)
    → base ≤ p
    → p ≤ base + length log
    → Contiguous base log
    → Contiguous p es
    → Merged base log p es (merge_entries base log (suc p) es m)
unfolding merge_entries
merge_entries-Merged base log p [] m lo hi c k = record {
  merged = log;
  modified = m;
  returns = refl;
  contiguous = c;
  reach = omega arith;
  below = λ j h. refl;
  here = λ j e h. cc;
  beyond = λ j h. inr refl;
}
merge_entries-Merged base log p (x ∷ es) m lo hi c k =
    let one = merge_entry-Round base log (suc p) x m (omega arith) (omega arith) c k.0 in
    let log' = (merge_entry base log (suc p) x m).0 in
    let m' = (merge_entry base log (suc p) x m).1 in
    let rest =
      merge_entries-Merged base log' (suc p) es m' (omega arith) one.reach one.contiguous k.1 in
    let above : leb (suc p) base ≡ false = lt→leb_false (suc p) base (omega arith) in
    let next : suc p + 1 ≡ suc (suc p) = omega arith in
    Merged-cons base log log' p x es one rest (rw (above, next))

-- At or below the base the loop returns only if it has nothing to merge.
pub merge_entries_low :
    (base : ℕ) (log : List LogEntry) (idx : ℕ) (es : List LogEntry) (m : Bool)
    {log' : List LogEntry} {m' : Bool}
    → idx ≤ base
    → merge_entries base log idx es m ≡ some (log', m')
    → (es ≡ []) × (log' ≡ log)
unfolding merge_entries
merge_entries_low base log idx [] m h e = ground arith
merge_entries_low base log idx (x ∷ es) m h e = ground arith
