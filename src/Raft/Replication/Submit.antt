-- ===== src/Raft/Replication/Submit.antt =====
-- `ReplicateCommand` of raft/replication.go and the wait for a commit.
use distrib_kv.Prelude.{
  ℕ, ◌+◌, ◌-◌, ◌≤◌, ◌≡◌, ◌≢◌, refl, ap, ◌∙◌, ◌⊎◌, inl, inr, List, [], ◌∷◌, ◌++◌, none, some, true,
  false, leb, Bool-cases, Option-cases, arith, length, length-append, take, get_elem?-append_end,
}
use distrib_kv.Raft.Types.{Bytes, LogEntry, leader, Error, not_leader, persist_failed, reply, fail}
use distrib_kv.Raft.Persister.{Persister}
use distrib_kv.Raft.Node.{Raft, Spawn, log_at, persist, is_leader}
use distrib_kv.Raft.Replication.{
  update_commit_index, replicate_command, truncate_last, WaitEvent, timer, tick, cancelled,
  await_commit,
}
use distrib_kv.Raft.Log.{log_at-eq-get_elem?}
use distrib_kv.Raft.Replication.Commit.{update_commit_index_safe}

pub truncate_last-append :
    (log : List LogEntry) (e : LogEntry) → truncate_last (log ++ e ∷ []) ≡ log
unfolding truncate_last
truncate_last-append log e =
    let k : length (log ++ e ∷ []) - 1 ≡ length log = omega (arith, length-append log (e ∷ [])) in
    rw k (take-append log e)
  where
    take-append : (xs : List LogEntry) (y : LogEntry) → take (length xs) (xs ++ y ∷ []) ≡ xs
    take-append [] y = refl
    take-append (x ∷ xs) y = ap (◌∷◌ x) (take-append xs y)

pub log_at-append_end :
    (base : ℕ) (log : List LogEntry) (e : LogEntry)
    → log_at base (log ++ e ∷ []) (length log + base + 1) ≡ some e
log_at-append_end base log e =
    let k : length log + base + 1 - base - 1 ≡ length log = omega arith in
    log_at-eq-get_elem? base (log ++ e ∷ []) (length log + base + 1) (omega arith)
    ∙ rw k (get_elem?-append_end log e)

module _ {S : Type 0} where
  -- The entry that `ReplicateCommand` appends.
  abbrev pub new_entry : Bytes → Raft S → LogEntry
  new_entry cmd r = record {
    index = length r.log + r.log_base + 1;
    term = r.current_term;
    command = cmd;
  }

  -- Accepted: the entry is in the log and on disk before the index is handed out.
  pub record Accepted (P : Persister S) (cmd : Bytes) (r r' : Raft S) (index : ℕ) : Type 0 where
    pub leading : r.state ≡ leader
    pub next : index ≡ length r.log + r.log_base + 1
    pub log : r'.log ≡ r.log ++ new_entry cmd r ∷ []
    pub at : log_at r'.log_base r'.log index ≡ some (new_entry cmd r)
    pub saved :
        P.save r.current_term r.voted_for (r.log ++ new_entry cmd r ∷ []) r.persister
        ≡ some r'.persister

  update_commit_index_keeps :
      (r : Raft S)
      → ((update_commit_index r).log ≡ r.log)
        × ((update_commit_index r).log_base ≡ r.log_base)
        × ((update_commit_index r).persister ≡ r.persister)
  update_commit_index_keeps r = elim (update_commit_index_safe r) [
    | inl e ↦ rw e (refl, refl, refl)
    | inr (_, a) ↦ rw a.rest (refl, refl, refl)
  ]

  persist_saved :
      (P : Persister S) (r : Raft S) {r' : Raft S}
      → persist P r ≡ some r'
      → (r'.log ≡ r.log)
        × (r'.log_base ≡ r.log_base)
        × (P.save r.current_term r.voted_for r.log r.persister ≡ some r'.persister)
  unfolding persist
  persist_saved P r h = ground arith

  -- If a command is accepted, the node is a leader, the index handed out is the one behind its log,
  -- the entry with the current term stands there, at the end of the log, and the log with the entry
  -- is what was written to the store.
  pub replicate_command_accepts :
      (P : Persister S) (cmd : Bytes) (r : Raft S) {i : ℕ} {r' : Raft S} {spawned : List Spawn}
      → replicate_command P cmd r ≡ (reply i, r', spawned)
      → Accepted P cmd r r' i
  unfolding replicate_command is_leader
  replicate_command_accepts P cmd r {i} {r'} h =
      let r1 = record r { log = r.log ++ new_entry cmd r ∷ [] } in
      elim (Option-cases (persist P r1)) [
        | inl e ↦ absurd (ground arith)
        | inr (r2, e) ↦
            let (kept_log, kept_base, kept_store) = update_commit_index_keeps r2 in
            let (log, base, saved) = persist_saved P r1 e in
            let end = log_at-append_end r.log_base r.log (new_entry cmd r) in
            record {
              leading = ground arith;
              next = ground arith;
              log = ground arith;
              at = ground arith;
              saved = ground arith;
            }
      ]

  -- A command that is refused leaves the node as it was and sends nothing; the error is that the
  -- node is not the leader, or that it is and the write failed.
  pub replicate_command_refuses :
      (P : Persister S) (cmd : Bytes) (r : Raft S) {x : Error} {r' : Raft S} {spawned : List Spawn}
      → replicate_command P cmd r ≡ (fail x, r', spawned)
      → (r' ≡ r)
        × (spawned ≡ [])
        × (((x ≡ not_leader) × (r.state ≢ leader)) ⊎ ((x ≡ persist_failed) × (r.state ≡ leader)))
  unfolding replicate_command is_leader
  replicate_command_refuses P cmd r h =
      let r1 = record r { log = r.log ++ new_entry cmd r ∷ [] } in
      let cut = truncate_last-append r.log (new_entry cmd r) in
      elim (Option-cases (persist P r1)) [ inl e ↦ ground arith | inr (r2, e) ↦ ground arith ]

-- Some round saw the target committed while the node was running.
pub data Seen (target : ℕ) : List WaitEvent → Type 0 where
  now : {c : ℕ} {es : List WaitEvent} → target ≤ c → Seen target (tick c false ∷ es)
  later : {e : WaitEvent} {es : List WaitEvent} → Seen target es → Seen target (e ∷ es)

-- The wait for a commit ends without an error only with the index waited for, and only after a
-- round in which the node was not shutting down and had committed that index.
pub await_commit_ok :
    (target i : ℕ) (es : List WaitEvent)
    → await_commit target es ≡ some (i, none)
    → (i ≡ target) × Seen target es
unfolding await_commit
await_commit_ok target i [] h = absurd (ground arith)
await_commit_ok target i (timer ∷ es) h = absurd (ground arith)
await_commit_ok target i (cancelled ∷ es) h = absurd (ground arith)
await_commit_ok target i (tick c true ∷ es) h = absurd (ground arith)
await_commit_ok target i (tick c false ∷ es) h = elim (Bool-cases (leb target c)) [
  | inl seen ↦ (ground arith, now (ground arith))
  | inr not_yet ↦ let rest = await_commit_ok target i es (ground arith) in (rest.0, later rest.1)
]
