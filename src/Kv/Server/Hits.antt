-- ===== src/Kv/Server/Hits.antt =====
-- The cache look-up of a command (kv/apply.go, processApplyMsg): what a hit and a miss do.
use distrib_kv.Prelude.{
  ℕ, ◌+◌, ◌≤◌, ◌≡◌, refl, inl, inr, Option, none, some, leb, if◌then◌else◌, lookup, Option-cases,
  Bool, true, false, ◌==◌, ◌&&◌, Bool-cases, nat_key, arith, ==_iff,
}
use distrib_kv.Raft.Persister.{Persister}
use distrib_kv.Raft.Node.{Raft}
use distrib_kv.Kv.Types.{Op, Result, DuplicateEntry, Dups, Server, Codec, duplicate_expiry}
use distrib_kv.Kv.Dedup.{is_expired, get_duplicate}
use distrib_kv.Kv.Dedup.Once.{cached, entries, Kept, entries-get_duplicate, Kept-get_duplicate}
use distrib_kv.Kv.Machine.{apply_command}
use distrib_kv.Kv.Snapshot.{take_snapshot}
use distrib_kv.Kv.Server.{Walk, has_ids, notify_waiter, check_duplicate, execute, apply_op}

pub notify_waiter_keeps :
    (walk : Walk) (index : ℕ) (res : Result) (s : Server)
    → ((notify_waiter walk index res s).state ≡ s.state)
      × ((notify_waiter walk index res s).duplicates ≡ s.duplicates)
unfolding notify_waiter
notify_waiter_keeps walk index res s = ground arith

get_duplicate_hit :
    (now c q : ℕ) (d : Dups) {e : DuplicateEntry}
    → cached c q d ≡ some e
    → is_expired now e ≡ false
    → get_duplicate now c q d ≡ (some e, d)
unfolding get_duplicate
get_duplicate_hit now c q d h f = ground arith

-- What the cache may answer with: nothing for an id that is zero, and nothing older than the expiry.
abbrev pub unexpired : ℕ → Option DuplicateEntry → Option DuplicateEntry
unexpired now none = none
unexpired now (some e) = if leb now (e.timestamp + duplicate_expiry) then some e else none

abbrev pub fresh_entry : ℕ → Op → Dups → Option DuplicateEntry
fresh_entry now op d =
    if op.client_id == 0
    then none
    else if op.sequence_id == 0
    then none
    else unexpired now (cached op.client_id op.sequence_id d)

get_duplicate_finds :
    (now c q : ℕ) (d : Dups) → (get_duplicate now c q d).0 ≡ unexpired now (cached c q d)
unfolding get_duplicate
get_duplicate_finds now c q d = elim (Option-cases (lookup c d)) [
  | inl h ↦ ground (arith, h)
  | inr (cm, h) ↦ elim (Option-cases (lookup q cm)) [
    | inl g ↦ ground (arith, h, g)
    | inr (e, g) ↦ ground (arith, h, g)
  ]
]

-- The look-up finds the entry of the ids exactly while it is fresh.
pub check_duplicate_finds :
    (now : ℕ) (op : Op) (s : Server)
    → (check_duplicate now op s).0 ≡ fresh_entry now op s.duplicates
unfolding check_duplicate
check_duplicate_finds now op s =
    ground (arith, get_duplicate_finds now op.client_id op.sequence_id s.duplicates)

-- The ids of an operation, as the cache uses them.
abbrev pub same_ids : Op → Op → Bool
same_ids a b = a.client_id == b.client_id && a.sequence_id == b.sequence_id

pub check_duplicate_hit :
    (now : ℕ) (op : Op) (s : Server) {e : DuplicateEntry}
    → has_ids op ≡ true
    → cached op.client_id op.sequence_id s.duplicates ≡ some e
    → is_expired now e ≡ false
    → check_duplicate now op s ≡ (some e, s)
unfolding check_duplicate
check_duplicate_hit now op s i h f =
    rw (i, get_duplicate_hit now op.client_id op.sequence_id s.duplicates h f) refl

pub Kept-check_duplicate :
    (now c q room : ℕ) (op : Op) (s : Server) {e : DuplicateEntry}
    → Kept room c q e s.duplicates
    → is_expired now e ≡ false
    → Kept room c q e (check_duplicate now op s).1.duplicates
unfolding check_duplicate
Kept-check_duplicate now c q room op s k f =
    ground (arith, k, Kept-get_duplicate now c q op.client_id op.sequence_id room s.duplicates k f)

pub miss_is_other :
    (now : ℕ) (op op' : Op) (s : Server) {e : DuplicateEntry}
    → has_ids op ≡ true
    → cached op.client_id op.sequence_id s.duplicates ≡ some e
    → is_expired now e ≡ false
    → (check_duplicate now op' s).0 ≡ none
    → same_ids op' op ≡ false
miss_is_other now op op' s {e} i h f m = elim (Bool-cases (same_ids op' op)) [
  | inl t ↦
      let c : op'.client_id ≡ op.client_id = ground (arith, t, ==_iff op'.client_id op.client_id) in
      let q : op'.sequence_id ≡ op.sequence_id =
        ground (arith, t, ==_iff op'.sequence_id op.sequence_id) in
      let hit = check_duplicate_hit now op' s {e = e} (rw (c, q) i) (rw (c, q) h) f in
      ground (arith, hit, m)
  | inr t ↦ t
]

pub check_duplicate_shrinks :
    (now c : ℕ) (op : Op) (s : Server)
    → (entries c (check_duplicate now op s).1.duplicates ≤ entries c s.duplicates)
      × ((check_duplicate now op s).1.state ≡ s.state)
unfolding check_duplicate
check_duplicate_shrinks now c op s =
    ground (arith, entries-get_duplicate now c op.client_id op.sequence_id s.duplicates)

module _ {S : Type 0} (P : Persister S) (c : Codec) (walk : Walk) where
  take_snapshot_keeps :
      (now : ℕ) (s : Server) (rf : Raft S)
      → ((take_snapshot P c now s rf).0.state ≡ s.state)
        × ((take_snapshot P c now s rf).0.duplicates ≡ s.duplicates)
  unfolding take_snapshot
  take_snapshot_keeps now s rf = ground arith

  -- A command whose ids are cached and fresh is answered from the cache, and changes nothing else.
  pub apply_op_hit :
      (now index : ℕ) (op : Op) (s : Server) (rf : Raft S) {e : DuplicateEntry}
      → has_ids op ≡ true
      → cached op.client_id op.sequence_id s.duplicates ≡ some e
      → is_expired now e ≡ false
      → apply_op P c walk now index op s rf ≡ (notify_waiter walk index e.result s, rf)
  unfolding apply_op
  apply_op_hit now index op s rf i h f =
      let d = check_duplicate_hit now op s i h f in rw (d, apply_op) (rw d refl)

  pub apply_op_miss :
      (now index : ℕ) (op : Op) (s : Server) (rf : Raft S)
      → (check_duplicate now op s).0 ≡ none
      → ((apply_op P c walk now index op s rf).0.state
          ≡ (apply_command op (check_duplicate now op s).1.state).1)
        × ((apply_op P c walk now index op s rf).0.duplicates
            ≡ (execute now index op (check_duplicate now op s).1).1.duplicates)
  unfolding apply_op execute
  apply_op_miss now index op s rf h =
      let d = check_duplicate now op s in
      let x = execute now index op d.1 in
      let n = notify_waiter walk index x.0 x.1 in
      ground (arith, h, take_snapshot_keeps now n rf, notify_waiter_keeps walk index x.0 x.1)

  pub apply_op_answered :
      (now index : ℕ) (op : Op) (s : Server) (rf : Raft S) {e : DuplicateEntry}
      → (check_duplicate now op s).0 ≡ some e
      → (apply_op P c walk now index op s rf).0.duplicates ≡ (check_duplicate now op s).1.duplicates
  unfolding apply_op
  apply_op_answered now index op s rf {e} h =
      ground (arith, h, notify_waiter_keeps walk index e.result (check_duplicate now op s).1)
