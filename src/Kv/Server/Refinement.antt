-- ===== src/Kv/Server/Refinement.antt =====
-- What a delivered message does to the map and to the waiter of its index (kv/apply.go).
use distrib_kv.Prelude.{
  ℕ, ◌≡◌, ap, ◌∙◌, inl, inr, Option, none, some, true, false, Option-cases, lookup, nat_key,
  string_key, arith, ==_refl, lookup-insert, lookup-delete,
}
use distrib_kv.Raft.Types.{ApplyMsg}
use distrib_kv.Raft.Persister.{Persister}
use distrib_kv.Raft.Node.{Raft}
use distrib_kv.Kv.Types.{Op, Result, Server, Codec, PendingOp, DuplicateEntry, Dups, bad_encoding}
use distrib_kv.Kv.Machine.{
  apply_command, view-apply_command, apply_command_result, view, spec_state, spec_result, KvMap,
}
use distrib_kv.Kv.Snapshot.{take_snapshot}
use distrib_kv.Kv.Server.Hits.{fresh_entry, check_duplicate_finds}
use distrib_kv.Kv.Server.{
  Walk, notify_waiter, send_result, check_duplicate, execute, apply_op, process_apply_msg,
}

-- The answer to a message, and the map after it: `op` is what the command decodes to, and `hit` what
-- the cache holds for it.
abbrev pub spec_message : Option Op → Option DuplicateEntry → KvMap → Result × KvMap
spec_message none hit f = (record { value = ""; err = some bad_encoding }, f)
spec_message (some op) none f = (spec_result op.kind op f, spec_state op.kind op f)
spec_message (some op) (some e) f = (e.result, f)

-- The fresh cached entry for what the command decodes to.
abbrev pub hit_of : ℕ → Option Op → Dups → Option DuplicateEntry
hit_of now none d = none
hit_of now (some op) d = fresh_entry now op d

-- The waiter's channel holds the answer, and the waiter is gone.
pub record Answered (index ch : ℕ) (res : Result) (s : Server) : Type 0 where
  pub answer : lookup ch s.channels ≡ some res
  pub gone : lookup index s.pending_ops ≡ none

-- The fields that the waiters live in.
record SameWaiters (s t : Server) : Type 0 where
  pub pending : t.pending_ops ≡ s.pending_ops
  pub channels : t.channels ≡ s.channels

check_duplicate_waiters :
    (now : ℕ) (op : Op) (s : Server)
    → SameWaiters s (check_duplicate now op s).1 × ((check_duplicate now op s).1.state ≡ s.state)
unfolding check_duplicate
check_duplicate_waiters now op s = ground arith

execute_waiters :
    (now index : ℕ) (op : Op) (s : Server)
    → SameWaiters s (execute now index op s).1
      × ((execute now index op s).0 ≡ (apply_command op s.state).0)
      × ((execute now index op s).1.state ≡ (apply_command op s.state).1)
unfolding execute
execute_waiters now index op s = ground arith

notify_waiter-Answered :
    (walk : Walk) (index : ℕ) (res : Result) (s : Server) {p : PendingOp}
    → lookup index s.pending_ops ≡ some p
    → lookup p.result_ch s.channels ≡ none
    → Answered index p.result_ch res (notify_waiter walk index res s)
      × ((notify_waiter walk index res s).state ≡ s.state)
unfolding notify_waiter send_result
notify_waiter-Answered walk index res s {p} h c = ground (
  arith,
  h,
  c,
  lookup-delete index index s.pending_ops,
  lookup-insert p.result_ch p.result_ch res s.channels,
  ==_refl index,
  ==_refl p.result_ch,
)

module _ {S : Type 0} (P : Persister S) (c : Codec) (walk : Walk) where
  take_snapshot_waiters :
      (now : ℕ) (s : Server) (rf : Raft S)
      → SameWaiters s (take_snapshot P c now s rf).0
        × ((take_snapshot P c now s rf).0.state ≡ s.state)
  unfolding take_snapshot
  take_snapshot_waiters now s rf = ground arith

  executed_refines :
      (now index : ℕ) (op : Op) (s d : Server) (rf : Raft S) {p : PendingOp}
      → SameWaiters s d × (d.state ≡ s.state)
      → lookup index s.pending_ops ≡ some p
      → lookup p.result_ch s.channels ≡ none
      → let x = execute now index op d in
        let s' = (take_snapshot P c now (notify_waiter walk index x.0 x.1) rf).0 in
        (view s'.state ≡ spec_state op.kind op (view s.state))
        × Answered index p.result_ch (spec_result op.kind op (view s.state)) s'
  executed_refines now index op s d rf {p} (w, st) h e =
      let x = execute now index op d in
      let (xw, xr, xs) = execute_waiters now index op d in
      let told =
        notify_waiter-Answered walk index x.0 x.1 {p = p}
          (ap (λ m. lookup index m) (xw.pending ∙ w.pending) ∙ h)
          (ap (λ m. lookup p.result_ch m) (xw.channels ∙ w.channels) ∙ e) in
      let (tw, ts) = take_snapshot_waiters now (notify_waiter walk index x.0 x.1) rf in
      (
        ap view (ts ∙ told.1 ∙ xs ∙ ap (λ m. (apply_command op m).1) st)
            ∙ view-apply_command op s.state,
        record {
          answer =
              ap (λ m. lookup p.result_ch m) tw.channels
              ∙ told.0.answer
              ∙ ap some
                  (xr ∙ ap (λ m. (apply_command op m).0) st ∙ apply_command_result op s.state);
          gone = ap (λ m. lookup index m) tw.pending ∙ told.0.gone;
        },
      )

  apply_op_refines :
      (now index : ℕ) (op : Op) (s : Server) (rf : Raft S) {p : PendingOp}
      → lookup index s.pending_ops ≡ some p
      → lookup p.result_ch s.channels ≡ none
      → let out = spec_message (some op) (fresh_entry now op s.duplicates) (view s.state) in
        let s' = (apply_op P c walk now index op s rf).0 in
        (view s'.state ≡ out.1) × Answered index p.result_ch out.0 s'
  unfolding apply_op
  apply_op_refines now index op s rf {p} h e =
      let d = check_duplicate now op s in
      let w = check_duplicate_waiters now op s in
      let found = check_duplicate_finds now op s in
      rw⁻¹ found (elim (Option-cases (check_duplicate now op s).0) [
        | inl m ↦ rw (m, apply_op) (executed_refines now index op s d.1 rf {p = p} w h e)
        | inr (x, m) ↦
            let told =
              notify_waiter-Answered walk index x.result d.1 {p = p}
                (ap (λ m. lookup index m) w.0.pending ∙ h)
                (ap (λ m. lookup p.result_ch m) w.0.channels ∙ e) in
            rw (m, apply_op) (ap view (told.1 ∙ w.1), told.0)
      ])

  -- A command message, whose index a handler with an empty channel waits for, changes the clients'
  -- map and answers the handler as the specification says: an undecodable command is an error; a
  -- command whose ids are not zero and have a cached result that is at most the expiry old is
  -- answered with that result and changes no key; any other command is executed on the map. The
  -- waiter is gone afterwards.
  pub process_apply_msg_refines :
      (now : ℕ) (msg : ApplyMsg) (s : Server) (rf : Raft S) (p : PendingOp)
      → msg.snapshot_valid ≡ false
      → msg.command_valid ≡ true
      → lookup msg.command_index s.pending_ops ≡ some p
      → lookup p.result_ch s.channels ≡ none
      → let out =
          spec_message
            (c.decode msg.command)
            (hit_of now (c.decode msg.command) s.duplicates)
            (view s.state) in
        let s' = (process_apply_msg P c walk now msg s rf).0 in
        (view s'.state ≡ out.1) × Answered msg.command_index p.result_ch out.0 s'
  unfolding process_apply_msg
  process_apply_msg_refines now msg s rf p sv cv h e = elim (Option-cases (c.decode msg.command)) [
    | inl m ↦
        let told =
          notify_waiter-Answered walk msg.command_index
            (record { value = ""; err = some bad_encoding }) s {p = p} h e in
        rw (sv, cv, m, process_apply_msg) (ap view told.1, told.0)
    | inr (op, m) ↦
        rw (sv, cv, m, process_apply_msg)
          (apply_op_refines now msg.command_index op s rf {p = p} h e)
  ]
