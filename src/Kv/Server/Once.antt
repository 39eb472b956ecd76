-- ===== src/Kv/Server/Once.antt =====
-- A command that is delivered again (kv/apply.go, processApplyMsg).
use distrib_kv.Prelude.{
  ℕ, suc, ◌+◌, ◌≤◌, ◌≡◌, refl, ap, ◌∙◌, inl, inr, List, [], ◌∷◌, none, some, true, false,
  Option-cases, length, nat_key, arith, All, ==_iff,
}
use distrib_kv.Raft.Persister.{Persister}
use distrib_kv.Raft.Node.{Raft}
use distrib_kv.Kv.Types.{
  Op, Result, DuplicateEntry, Server, Codec, max_duplicates, duplicate_expiry,
}
use distrib_kv.Kv.Dedup.{is_expired, save_duplicate}
use distrib_kv.Kv.Dedup.Once.{
  entries, Kept, cached-save_duplicate, entries-save_duplicate, Kept-cleanup_duplicates,
}
use distrib_kv.Kv.Machine.{apply_command}
use distrib_kv.Kv.Server.{Walk, has_ids, notify_waiter, check_duplicate, execute, apply_op}
use distrib_kv.Kv.Server.Hits.{
  same_ids, Kept-check_duplicate, miss_is_other, check_duplicate_shrinks, apply_op_hit,
  apply_op_miss, apply_op_answered,
}

Kept-execute :
    (now index room : ℕ) (op op' : Op) (s : Server) {e : DuplicateEntry}
    → Kept (suc room) op.client_id op.sequence_id e s.duplicates
    → is_expired now e ≡ false
    → same_ids op' op ≡ false
    → Kept room op.client_id op.sequence_id e (execute now index op' s).1.duplicates
unfolding execute
Kept-execute now index room op op' s {e} k f n =
    let res = (apply_command op' s.state).0 in
    let saved : Kept room op.client_id op.sequence_id e
        (save_duplicate now op'.client_id op'.sequence_id res s.duplicates) =
      record {
        entry = ground (
          arith,
          n,
          k.entry,
          cached-save_duplicate now op.client_id op.sequence_id op'.client_id op'.sequence_id res
              s.duplicates,
        );
        fits = omega (
          arith,
          k.fits,
          entries-save_duplicate now op.client_id op'.client_id op'.sequence_id res s.duplicates,
        );
      } in
    Kept-cleanup_duplicates now op.client_id op.sequence_id op'.client_id room
      (save_duplicate now op'.client_id op'.sequence_id res s.duplicates) saved f

execute_result :
    (now index : ℕ) (op : Op) (s : Server)
    → (execute now index op s).0 ≡ (apply_command op s.state).0
unfolding execute
execute_result now index op s = refl

abbrev pub entry_of : Result → ℕ → DuplicateEntry
entry_of res now = record { result = res; timestamp = now }

-- The result of an executed command with ids stands in the cache.
execute-Kept :
    (now index room : ℕ) (op : Op) (s : Server)
    → entries op.client_id s.duplicates + suc room ≤ max_duplicates
    → Kept room op.client_id op.sequence_id
        (record { result = (execute now index op s).0; timestamp = now })
        (execute now index op s).1.duplicates
unfolding execute
execute-Kept now index room op s h =
    let res = (apply_command op s.state).0 in
    Kept-cleanup_duplicates now op.client_id op.sequence_id op.client_id room
      (save_duplicate now op.client_id op.sequence_id res s.duplicates)
      (record {
        entry = ground (
          arith,
          ==_iff op.client_id op.client_id,
          ==_iff op.sequence_id op.sequence_id,
          cached-save_duplicate now op.client_id op.sequence_id op.client_id op.sequence_id res
              s.duplicates,
        );
        fits = omega (
          arith,
          h,
          entries-save_duplicate now op.client_id op.client_id op.sequence_id res s.duplicates,
        );
      })
      (ground arith)

module _ {S : Type 0} (P : Persister S) (c : Codec) (walk : Walk) where
  Kept-apply_op :
      (now index room : ℕ) (op op' : Op) (s : Server) (rf : Raft S) {e : DuplicateEntry}
      → has_ids op ≡ true
      → Kept (suc room) op.client_id op.sequence_id e s.duplicates
      → is_expired now e ≡ false
      → Kept room op.client_id op.sequence_id e (apply_op P c walk now index op' s rf).0.duplicates
  Kept-apply_op now index room op op' s rf {e} i k f =
      let k' = Kept-check_duplicate now op.client_id op.sequence_id (suc room) op' s k f in
      let d = check_duplicate now op' s in
      elim (Option-cases d.0) [
        | inl h ↦
            let other = miss_is_other now op op' s i k.entry f h in
            rw (apply_op_miss P c walk now index op' s rf h).1
              (Kept-execute now index room op op' d.1 k' f other)
        | inr (x, h) ↦
            rw (apply_op_answered P c walk now index op' s rf h)
              (record { entry = k'.entry; fits = omega (arith, k'.fits) })
      ]

  apply_op_executes :
      (now index room : ℕ) (op : Op) (s : Server) (rf : Raft S)
      → (check_duplicate now op s).0 ≡ none
      → entries op.client_id s.duplicates + suc room ≤ max_duplicates
      → Kept room op.client_id op.sequence_id
          (record { result = (apply_command op s.state).0; timestamp = now })
          (apply_op P c walk now index op s rf).0.duplicates
  apply_op_executes now index room op s rf m h =
      let d = check_duplicate now op s in
      let small = check_duplicate_shrinks now op.client_id op s in
      let k = execute-Kept now index room op d.1 (omega (arith, h, small.0)) in
      let answer = execute_result now index op d.1 ∙ ap (λ m. (apply_command op m).0) small.1 in
      rw (apply_op_miss P c walk now index op s rf m).1
        (record { entry = k.entry ∙ ap (λ res. some (entry_of res now)) answer; fits = k.fits })

  -- The commands of consecutive log entries, each with the time at which it is applied.
  unfoldable pub apply_ops : List (ℕ × ℕ × Op) → Server → Raft S → Server × Raft S
  apply_ops [] s rf = (s, rf)
  apply_ops ((now, index, op) ∷ es) s rf =
      let r = apply_op P c walk now index op s rf in apply_ops es r.0 r.1

  Kept-apply_ops :
      (es : List (ℕ × ℕ × Op)) (room : ℕ) (op : Op) (s : Server) (rf : Raft S) {e : DuplicateEntry}
      → has_ids op ≡ true
      → Kept (length es + room) op.client_id op.sequence_id e s.duplicates
      → All (λ x. is_expired x.0 e ≡ false) es
      → Kept room op.client_id op.sequence_id e (apply_ops es s rf).0.duplicates
  unfolding apply_ops
  Kept-apply_ops [] room op s rf i k f = record { entry = k.entry; fits = omega (arith, k.fits) }
  Kept-apply_ops ((now, index, op') ∷ es) room op s rf i k f =
      let r = apply_op P c walk now index op' s rf in
      Kept-apply_ops es room op r.0 r.1 i
        (Kept-apply_op now index (length es + room) op op' s rf i
          (record { entry = k.entry; fits = omega (arith, k.fits) }) f.0)
        f.1

  are_fresh :
      (t : ℕ) (res : Result) (es : List (ℕ × ℕ × Op))
      → All (λ x. x.0 ≤ t + duplicate_expiry) es
      → All (λ x. is_expired x.0 (entry_of res t) ≡ false) es
  are_fresh t res [] h = h
  are_fresh t res (x ∷ es) h = (ground (arith, h.0), are_fresh t res es h.1)

  -- A command with ids that is not found in the cache is executed. Delivered again after any other
  -- commands, while its cached result is fresh, and as long as its client has had room for the
  -- results of all of them, it is answered with the result of that execution, and neither the map
  -- nor the cache nor the engine changes.
  pub executed_once :
      (t index : ℕ) (op : Op) (s : Server) (rf rf' : Raft S) (es : List (ℕ × ℕ × Op)) (now j : ℕ)
      (op' : Op)
      → has_ids op ≡ true
      → (check_duplicate t op s).0 ≡ none
      → entries op.client_id s.duplicates + suc (length es) ≤ max_duplicates
      → All (λ x. x.0 ≤ t + duplicate_expiry) es
      → now ≤ t + duplicate_expiry
      → op'.client_id ≡ op.client_id
      → op'.sequence_id ≡ op.sequence_id
      → let first = apply_op P c walk t index op s rf in
        let mid = apply_ops es first.0 first.1 in
        apply_op P c walk now j op' mid.0 rf'
        ≡ (notify_waiter walk j (apply_command op s.state).0 mid.0, rf')
  executed_once t index op s rf rf' es now j op' i miss room times fresh c' q =
      let answer = (apply_command op s.state).0 in
      let first = apply_op P c walk t index op s rf in
      let saved = apply_op_executes t index (length es) op s rf miss room in
      let k =
        Kept-apply_ops es 0 op first.0 first.1 i
          (record { entry = saved.entry; fits = omega (arith, saved.fits) })
          (are_fresh t answer es times) in
      apply_op_hit P c walk now j op' (apply_ops es first.0 first.1).0 rf' {e = entry_of answer t}
        (rw (c', q) i) (rw (c', q) k.entry) (ground arith)
