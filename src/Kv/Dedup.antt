-- ===== src/Kv/Dedup.antt =====
-- The duplicate cache of kv/apply.go. `now` is what `time.Now` returns; a timestamp in the future
-- has age 0.
pub mod Bound
pub mod Once
use distrib_kv.Prelude.{
  ℕ, zero, suc, ◌-◌, [], ◌∷◌, Option, none, some, Bool, ltb, if◌then◌else◌, Assoc, lookup, insert,
  delete, length, nat_key,
}
use distrib_kv.Kv.Types.{Result, DuplicateEntry, Dups, max_duplicates, duplicate_expiry}

-- time.Since(timestamp) > duplicateCacheExpiry
abbrev pub is_expired : ℕ → DuplicateEntry → Bool
is_expired now e = ltb duplicate_expiry (now - e.timestamp)

-- `getDuplicateLocked`: the live entry, and the cache, from which an expired one is deleted.
unfoldable pub get_duplicate : ℕ → ℕ → ℕ → Dups → Option DuplicateEntry × Dups
get_duplicate now client seq d = elim (lookup client d) [
  | none ↦ (none, d)
  | some cm ↦ elim (lookup seq cm) [
    | none ↦ (none, d)
    | some e ↦ if is_expired now e then (none, insert client (delete seq cm) d) else (some e, d)
  ]
]

-- `saveDuplicateLocked`.
unfoldable pub save_duplicate : ℕ → ℕ → ℕ → Result → Dups → Dups
save_duplicate now client seq res d =
    let e : DuplicateEntry = record { result = res; timestamp = now } in
    elim (lookup client d) [
      | none ↦ insert client ((seq, e) ∷ []) d
      | some cm ↦ insert client (insert seq e cm) d
    ]

unfoldable pub drop_expired : ℕ → Assoc ℕ DuplicateEntry → Assoc ℕ DuplicateEntry
drop_expired now [] = []
drop_expired now ((s, e) ∷ m) =
    let rest = drop_expired now m in if is_expired now e then rest else (s, e) ∷ rest

-- The scan for the oldest entry: a later one replaces the choice only if it is strictly older.
unfoldable pub oldest_from : ℕ → ℕ → Assoc ℕ DuplicateEntry → ℕ
oldest_from seq time [] = seq
oldest_from seq time ((s, e) ∷ m) =
    oldest_from (if ltb e.timestamp time then s else seq)
      (if ltb e.timestamp time then e.timestamp else time) m

-- One round of the eviction loop.
unfoldable pub drop_oldest : Assoc ℕ DuplicateEntry → Assoc ℕ DuplicateEntry
drop_oldest [] = []
drop_oldest ((s, e) ∷ m) = delete (oldest_from s e.timestamp m) ((s, e) ∷ m)

-- `for len(clientMap) > max`; each round deletes an entry, so as many rounds as entries are enough.
unfoldable pub evict : ℕ → Assoc ℕ DuplicateEntry → Assoc ℕ DuplicateEntry
evict zero m = m
evict (suc fuel) m =
    let rest = evict fuel (drop_oldest m) in if ltb max_duplicates (length m) then rest else m

-- `cleanupDuplicateCacheLocked`.
unfoldable pub cleanup_duplicates : ℕ → ℕ → Dups → Dups
cleanup_duplicates now client d = elim (lookup client d) [
  | none ↦ d
  | some cm ↦ let live = drop_expired now cm in insert client (evict (length live) live) d
]
