-- ===== src/Raft/Persister.antt =====
-- raft/persister.go: the `Persister` interface that the engine is written against, with what the
-- engine relies on, and `MemoryPersister`, which implements it.
use distrib_kv.Prelude.{
  ℕ, ◌≡◌, List, [], Option, none, some, Bool, true, false, not, ◌==◌, if◌then◌else◌, arith,
}
use distrib_kv.Raft.Types.{Bytes, LogEntry}

-- What `Load` returns.
pub record HardState : Type 0 where
  pub current_term : ℕ
  pub voted_for : Option ℕ
  pub log : List LogEntry

-- What `LoadSnapshot` returns.
pub data SnapshotRead : Type 0 where
  found : Bytes → ℕ → ℕ → SnapshotRead
  no_snapshot : SnapshotRead
  unreadable : SnapshotRead

-- Over a store `S`: a write that fails returns none, and the store stays as it was.
pub record Persister (S : Type 0) : Type 0 where
  pub save : ℕ → Option ℕ → List LogEntry → S → Option S
  pub load : S → Option HardState
  pub save_snapshot : Bytes → ℕ → ℕ → S → Option S
  pub load_snapshot : S → SnapshotRead
  pub load-save :
      (t : ℕ) (v : Option ℕ) (l : List LogEntry) (s s' : S)
      → save t v l s ≡ some s'
      → load s' ≡ some (record { current_term = t; voted_for = v; log = l })
  pub load_snapshot-save :
      (t : ℕ) (v : Option ℕ) (l : List LogEntry) (s s' : S)
      → save t v l s ≡ some s'
      → load_snapshot s' ≡ load_snapshot s
  pub load_snapshot-save_snapshot :
      (d : Bytes) (i t : ℕ) (s s' : S)
      → save_snapshot d i t s ≡ some s'
      → load_snapshot s' ≡ found d i t
  pub load-save_snapshot :
      (d : Bytes) (i t : ℕ) (s s' : S) → save_snapshot d i t s ≡ some s' → load s' ≡ load s

-- `log` is none for the nil slice of a persister that has saved nothing.
pub record MemoryPersister : Type 0 where
  pub current_term : ℕ
  pub voted_for : Option ℕ
  pub log : Option (List LogEntry)
  pub save_err : Bool
  pub snapshot : Bytes
  pub snapshot_index : ℕ
  pub snapshot_term : ℕ
  pub has_snapshot : Bool

abbrev pub new_memory_persister : MemoryPersister
new_memory_persister = record {
  current_term = 0;
  voted_for = none;
  log = none;
  save_err = false;
  snapshot = [];
  snapshot_index = 0;
  snapshot_term = 0;
  has_snapshot = false;
}

unfoldable pub memory_save : ℕ → Option ℕ → List LogEntry → MemoryPersister → Option MemoryPersister
memory_save t v l m =
    if m.save_err then none else some (record m { current_term = t; voted_for = v; log = some l })

-- The test for "nothing saved yet": a nil log, term 0 and no vote.
unfoldable pub memory_load : MemoryPersister → Option HardState
memory_load m = elim m.log [
  | some l ↦ some (record { current_term = m.current_term; voted_for = m.voted_for; log = l })
  | none ↦ elim m.voted_for [
    | none ↦
        if m.current_term == 0
        then none
        else some (record { current_term = m.current_term; voted_for = none; log = [] })
    | some v ↦ some (record { current_term = m.current_term; voted_for = some v; log = [] })
  ]
]

unfoldable pub memory_save_snapshot : Bytes → ℕ → ℕ → MemoryPersister → Option MemoryPersister
memory_save_snapshot d i t m =
    if m.save_err
    then none
    else some
        (record m { snapshot = d; snapshot_index = i; snapshot_term = t; has_snapshot = true })

unfoldable pub memory_load_snapshot : MemoryPersister → SnapshotRead
memory_load_snapshot m =
    if not m.has_snapshot then no_snapshot else found m.snapshot m.snapshot_index m.snapshot_term

pub memory_load-save :
    (t : ℕ) (v : Option ℕ) (l : List LogEntry) (s s' : MemoryPersister)
    → memory_save t v l s ≡ some s'
    → memory_load s' ≡ some (record { current_term = t; voted_for = v; log = l })
unfolding memory_save memory_load
memory_load-save t v l s s' h = ground arith

pub memory_load_snapshot-save :
    (t : ℕ) (v : Option ℕ) (l : List LogEntry) (s s' : MemoryPersister)
    → memory_save t v l s ≡ some s'
    → memory_load_snapshot s' ≡ memory_load_snapshot s
unfolding memory_save memory_load_snapshot
memory_load_snapshot-save t v l s s' h = ground arith

pub memory_load_snapshot-save_snapshot :
    (d : Bytes) (i t : ℕ) (s s' : MemoryPersister)
    → memory_save_snapshot d i t s ≡ some s'
    → memory_load_snapshot s' ≡ found d i t
unfolding memory_save_snapshot memory_load_snapshot
memory_load_snapshot-save_snapshot d i t s s' h = ground arith

pub memory_load-save_snapshot :
    (d : Bytes) (i t : ℕ) (s s' : MemoryPersister)
    → memory_save_snapshot d i t s ≡ some s'
    → memory_load s' ≡ memory_load s
unfolding memory_save_snapshot memory_load
memory_load-save_snapshot d i t s s' h = ground arith

-- `MemoryPersister` meets the interface.
abbrev pub memory : Persister MemoryPersister
memory = record {
  save = memory_save;
  load = memory_load;
  save_snapshot = memory_save_snapshot;
  load_snapshot = memory_load_snapshot;
  load-save = memory_load-save;
  load_snapshot-save = memory_load_snapshot-save;
  load_snapshot-save_snapshot = memory_load_snapshot-save_snapshot;
  load-save_snapshot = memory_load-save_snapshot;
}
