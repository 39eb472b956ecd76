-- ===== src/Raft/Lifecycle/Delivery.antt =====
-- The apply loop of raft/raft.go: which messages reach the state machine, and in which order.
use distrib_kv.Prelude.{
  ℕ, zero, suc, ◌+◌, ◌≤◌, ◌<◌, ◌≡◌, refl, inl, inr, List, [], ◌∷◌, Option, some, true, false, leb,
  Bool-cases, Option-cases, arith, length,
}
use distrib_kv.Raft.Types.{LogEntry, ApplyMsg}
use distrib_kv.Raft.Node.{Raft, log_at}
use distrib_kv.Raft.Lifecycle.{next_apply, apply_pending}
use distrib_kv.Raft.Log.{Contiguous, log_at-some, index-log_at}

abbrev pub command_msg : LogEntry → ApplyMsg
command_msg e = record {
  command_valid = true;
  command = e.command;
  command_index = e.index;
  snapshot_valid = false;
  snapshot_data = [];
  last_included_index = 0;
  last_included_term = 0;
}

-- The messages carry the entries at i + 1, i + 2, and so on, each with its own index.
abbrev pub Delivers : (ℕ → Option LogEntry) → ℕ → List ApplyMsg → Type 0
Delivers f i [] = Unit
Delivers f i (m ∷ ms) =
    ((e : LogEntry) × (f (i + 1) ≡ some e) × (m ≡ command_msg e) × (m.command_index ≡ i + 1))
    × Delivers f (i + 1) ms

module _ {S : Type 0} where
  pub record Applied (r : Raft S) (out : List ApplyMsg × Raft S) : Type 0 where
    pub delivers : Delivers (log_at r.log_base r.log) r.last_applied out.0
    pub counts : out.1.last_applied ≡ r.last_applied + length out.0
    pub rest : out.1 ≡ record r { last_applied = out.1.last_applied }

  next_apply-some :
      (r r' : Raft S) (m : ApplyMsg)
      → Contiguous r.log_base r.log
      → next_apply r ≡ some (m, r')
      → ((e : LogEntry) × (log_at r.log_base r.log (r.last_applied + 1) ≡ some e)
          × (m ≡ command_msg e)
          × (m.command_index ≡ r.last_applied + 1))
        × (r' ≡ record r { last_applied = r.last_applied + 1 })
        × (r.last_applied < r.commit_index)
  unfolding next_apply
  next_apply-some r r' m c h = elim (Option-cases (log_at r.log_base r.log (r.last_applied + 1))) [
    | inl e ↦ absurd (ground arith)
    | inr (x, e) ↦
        let i = index-log_at r.log_base r.log (r.last_applied + 1) x c e in
        ((x, e, ground arith, ground arith), ground arith, ground arith)
  ]

  -- For a log of consecutive indices, the apply loop's messages carry the entries that follow the
  -- applied index, in order and each with its own index; the applied index grows by their number,
  -- and nothing else changes.
  pub apply_pending-Applied :
      (sends : ℕ) (r : Raft S) → Contiguous r.log_base r.log → Applied r (apply_pending sends r)
  unfolding apply_pending
  apply_pending-Applied zero r c = elim (Option-cases (next_apply r)) [
    | inl e ↦ rw (e, apply_pending) (record { delivers = tt; counts = omega arith; rest = refl })
    | inr ((m, r'), e) ↦
        let (_, same, _) = next_apply-some r r' m c e in
        rw (e, apply_pending)
          (record { delivers = tt; counts = ground (arith, same); rest = ground (arith, same) })
  ]
  apply_pending-Applied (suc n) r c = elim (Option-cases (next_apply r)) [
    | inl e ↦ rw (e, apply_pending) (record { delivers = tt; counts = omega arith; rest = refl })
    | inr ((m, r'), e) ↦
        let (sent, same, _) = next_apply-some r r' m c e in
        let next = record r { last_applied = r.last_applied + 1 } in
        let rec = apply_pending-Applied n next c in
        rw (e, same, apply_pending)
          (record {
            delivers = (sent, rec.delivers);
            counts = omega (arith, rec.counts);
            rest = rec.rest;
          })
  ]

  -- If the applied index lies between the base and the commit index, the log reaches the commit
  -- index, and the channel takes at least as many messages as are missing, the apply loop ends with
  -- everything committed applied.
  pub apply_pending_catches_up :
      (sends : ℕ) (r : Raft S)
      → r.log_base ≤ r.last_applied
      → r.last_applied ≤ r.commit_index
      → r.commit_index ≤ r.log_base + length r.log
      → r.commit_index ≤ r.last_applied + sends
      → (apply_pending sends r).1.last_applied ≡ r.commit_index
  unfolding apply_pending next_apply
  apply_pending_catches_up zero r lo le hi enough = ground arith
  apply_pending_catches_up (suc n) r lo le hi enough =
      elim (Bool-cases (leb r.commit_index r.last_applied)) [
        | inl done ↦ ground arith
        | inr more ↦
            let (x, e) =
              log_at-some r.log_base r.log (r.last_applied + 1) (omega arith) (ground arith) in
            let next = record r { last_applied = r.last_applied + 1 } in
            ground (
              arith,
              e,
              apply_pending_catches_up n next (omega arith) (ground arith) hi (omega arith),
            )
      ]
