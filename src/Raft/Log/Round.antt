-- ===== src/Raft/Log/Round.antt =====
-- One round of rule 4 of `AppendEntries` (raft/replication.go): what it does to a log.
use distrib_kv.Prelude.{
  ℕ, zero, suc, ◌+◌, ◌-◌, ◌≤◌, ◌<◌, ◌≡◌, refl, ap, ◌∙◌, ◌⊎◌, inl, inr, List, [], ◌∷◌, ◌++◌, none,
  some, Bool, true, leb, ltb, ◌==◌, ==_iff, Bool-cases, Option-cases, arith, length, get_elem?,
  take, get_elem?-some, lt_of_get_elem?, get_elem?-append_left, get_elem?-append_end,
  get_elem?-take, length-append, length-take,
}
use distrib_kv.Raft.Types.{LogEntry}
use distrib_kv.Raft.Node.{log_at}
use distrib_kv.Raft.Replication.{merge_entry}
use distrib_kv.Raft.Log.{
  Contiguous, Contiguous-append, Contiguous-take, log_at-eq-get_elem?, log_at_above, log_at_below,
}

take_all : (n : ℕ) (xs : List LogEntry) → length xs ≤ n → take n xs ≡ xs
take_all zero [] h = refl
take_all zero (x ∷ xs) h = elim h [ ]
take_all (suc n) [] h = refl
take_all (suc n) (x ∷ xs) h = ap (◌∷◌ x) (take_all n xs (omega arith))

-- Put `e` at `idx` and drop what stood there and after it.
abbrev pub overwrite : ℕ → List LogEntry → ℕ → LogEntry → List LogEntry
overwrite base log idx e = take (idx - base - 1) log ++ e ∷ []

-- A round keeps the log, where the entry at `idx` has the term of `e`, or overwrites it from `idx`.
merge_entry_cases :
    (base : ℕ) (log : List LogEntry) (idx : ℕ) (e : LogEntry) (m : Bool)
    → idx - base - 1 ≤ length log
    → ((old : LogEntry) × (get_elem? log (idx - base - 1) ≡ some old)
        × (old.term ≡ e.term)
        × (merge_entry base log idx e m ≡ (log, m)))
      ⊎ (merge_entry base log idx e m ≡ (overwrite base log idx e, true))
unfolding merge_entry
merge_entry_cases base log idx e m h = elim (Option-cases (get_elem? log (idx - base - 1))) [
  | inl gone ↦ inr (rw (gone, merge_entry) (rw (take_all (idx - base - 1) log (beyond gone))))
  | inr (old, found) ↦ elim (Bool-cases (old.term == e.term)) [
    | inl same ↦
        inl (old, found, (==_iff old.term e.term).0 same, rw (found, merge_entry) (rw same))
    | inr differ ↦ inr (rw (found, merge_entry) (rw differ))
  ]
]
  where
    beyond : get_elem? log (idx - base - 1) ≡ none → length log ≤ idx - base - 1
    beyond gone = elim (Bool-cases (ltb (idx - base - 1) (length log))) [
      | inl lt ↦
          let (x, hit) = get_elem?-some log (idx - base - 1) (ground arith) in absurd (ground arith)
      | inr ge ↦ ground arith
    ]

module _ (base : ℕ) (log : List LogEntry) (idx : ℕ) (e : LogEntry) (above : base < idx)
    (reach : idx ≤ base + length log + 1) where
  length-overwrite : length (overwrite base log idx e) ≡ idx - base
  length-overwrite =
      omega (
        arith,
        length-append (take (idx - base - 1) log) (e ∷ []),
        length-take (idx - base - 1) log,
      )

  overwrite-Contiguous :
      Contiguous base log → e.index ≡ idx → Contiguous base (overwrite base log idx e)
  overwrite-Contiguous c k =
      Contiguous-append base (take (idx - base - 1) log) e (Contiguous-take base _ log c)
        (omega (arith, length-take (idx - base - 1) log))

  log_at-overwrite_below :
      (j : ℕ) → j < idx → log_at base (overwrite base log idx e) j ≡ log_at base log j
  log_at-overwrite_below j h = elim (Bool-cases (leb j base)) [
    | inl low ↦ rw (
      log_at_below base (overwrite base log idx e) j (ground arith),
      log_at_below base log j (ground arith),
    )
    | inr high ↦ rw (
      log_at-eq-get_elem? base (overwrite base log idx e) j (ground arith),
      log_at-eq-get_elem? base log j (ground arith),
      get_elem?-append_left (take (idx - base - 1) log) (e ∷ []) (j - base - 1)
          (ground (arith, length-take (idx - base - 1) log)),
      get_elem?-take (idx - base - 1) log (j - base - 1) (ground arith),
    )
  ]

  log_at-overwrite_self : log_at base (overwrite base log idx e) idx ≡ some e
  log_at-overwrite_self =
      let k : length (take (idx - base - 1) log) ≡ idx - base - 1 =
        omega (arith, length-take (idx - base - 1) log) in
      let end = get_elem?-append_end (take (idx - base - 1) log) e in
      log_at-eq-get_elem? base (overwrite base log idx e) idx above ∙ (rw k at end)

  log_at-overwrite_above : (j : ℕ) → idx < j → log_at base (overwrite base log idx e) j ≡ none
  log_at-overwrite_above j h =
      log_at_above base (overwrite base log idx e) j (omega (arith, length-overwrite))

-- What one round gives: an entry kept or written at the index, and nothing changed below it. If
-- anything stands above the index, the log is as it was.
pub record Round (base : ℕ) (log log' : List LogEntry) (idx : ℕ) (e : LogEntry) : Type 0 where
  pub contiguous : Contiguous base log'
  pub reach : idx ≤ base + length log'
  pub below : (j : ℕ) → j < idx → log_at base log' j ≡ log_at base log j
  pub here :
      (log_at base log' idx ≡ some e)
      ⊎ ((old : LogEntry) × (log_at base log idx ≡ some old)
          × (old.term ≡ e.term)
          × (log_at base log' idx ≡ some old))
  pub beyond : (j : ℕ) → idx < j → (log_at base log' j ≡ none) ⊎ (log' ≡ log)

pub merge_entry-Round :
    (base : ℕ) (log : List LogEntry) (idx : ℕ) (e : LogEntry) (m : Bool)
    → base < idx
    → idx ≤ base + length log + 1
    → Contiguous base log
    → e.index ≡ idx
    → Round base log (merge_entry base log idx e m).0 idx e
merge_entry-Round base log idx e m lt reach c k =
    elim (merge_entry_cases base log idx e m (omega arith)) [
      | inl (old, found, same, eq) ↦ rw eq (record {
        contiguous = c;
        reach = ground (arith, lt_of_get_elem? log (idx - base - 1) old);
        below = λ j h. refl;
        here = inr (
          old,
          log_at-eq-get_elem? base log idx lt ∙ found,
          same,
          log_at-eq-get_elem? base log idx lt ∙ found,
        );
        beyond = λ j h. inr refl;
      })
      | inr eq ↦ rw eq (record {
        contiguous = overwrite-Contiguous base log idx e lt reach c k;
        reach = omega (arith, length-overwrite base log idx e lt reach);
        below = log_at-overwrite_below base log idx e lt reach;
        here = inl (log_at-overwrite_self base log idx e lt reach);
        beyond = λ j h. inl (log_at-overwrite_above base log idx e lt reach j h);
      })
    ]
