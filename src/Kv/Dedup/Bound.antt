-- ===== src/Kv/Dedup/Bound.antt =====
-- The size of a client's duplicate cache (kv/apply.go, cleanupDuplicateCacheLocked).
use distrib_kv.Prelude.{
  ℕ, zero, suc, ◌≤◌, ◌<◌, ◌≡◌, refl, ◌⊎◌, inl, inr, [], ◌∷◌, some, ltb, Bool-cases, Option-cases,
  Assoc, lookup, delete, length, nat_key, arith, lookup-insert, length-delete-le,
}
use distrib_kv.Kv.Types.{DuplicateEntry, Dups, max_duplicates}
use distrib_kv.Kv.Dedup.{drop_expired, oldest_from, drop_oldest, evict, cleanup_duplicates}

delete_here :
    (k : ℕ) (v : DuplicateEntry) (m : Assoc ℕ DuplicateEntry)
    → length (delete k ((k, v) ∷ m)) < suc (length m)
unfolding delete
delete_here k v m = ground (arith, length-delete-le k m)

delete_there :
    (k j : ℕ) (v : DuplicateEntry) (m : Assoc ℕ DuplicateEntry)
    → length (delete k m) < length m
    → length (delete k ((j, v) ∷ m)) < suc (length m)
unfolding delete
delete_there k j v m h = ground arith

-- The choice is the first candidate or a key of the list.
oldest_from_mem :
    (s t : ℕ) (m : Assoc ℕ DuplicateEntry)
    → (oldest_from s t m ≡ s) ⊎ (length (delete (oldest_from s t m) m) < length m)
unfolding oldest_from
oldest_from_mem s t [] = inl refl
oldest_from_mem s t ((j, e) ∷ m) = elim (Bool-cases (ltb e.timestamp t)) [
  | inl h ↦ rw h (elim (oldest_from_mem j e.timestamp m) [
    | inl o ↦ inr (rw o (delete_here j e m))
    | inr o ↦ inr (delete_there (oldest_from j e.timestamp m) j e m o)
  ])
  | inr h ↦ rw h (elim (oldest_from_mem s t m) [
    | inl o ↦ inl o
    | inr o ↦ inr (delete_there (oldest_from s t m) j e m o)
  ])
]

length-drop_oldest :
    (x : ℕ × DuplicateEntry) (m : Assoc ℕ DuplicateEntry) → length (drop_oldest (x ∷ m)) ≤ length m
unfolding drop_oldest
length-drop_oldest (s, e) m = elim (oldest_from_mem s e.timestamp m) [
  | inl o ↦ rw o (omega (arith, delete_here s e m))
  | inr o ↦ omega (arith, delete_there (oldest_from s e.timestamp m) s e m o)
]

-- Enough rounds bring the map under the cap.
length-evict :
    (fuel : ℕ) (m : Assoc ℕ DuplicateEntry)
    → length m ≤ fuel
    → length (evict fuel m) ≤ max_duplicates
unfolding evict
length-evict zero m h = omega arith
length-evict (suc fuel) [] h = ground arith
length-evict (suc fuel) (x ∷ m) h =
    ground (arith, length-evict fuel (drop_oldest (x ∷ m)), length-drop_oldest x m)

-- After the clean-up, a client that has a cache has at most 100 entries in it.
pub cleanup_duplicates_bounded :
    (now client : ℕ) (d : Dups) {cm : Assoc ℕ DuplicateEntry}
    → lookup client (cleanup_duplicates now client d) ≡ some cm
    → length cm ≤ max_duplicates
unfolding cleanup_duplicates
cleanup_duplicates_bounded now client d {cm} h = elim (Option-cases (lookup client d)) [
  | inl e ↦ ground arith
  | inr (old, e) ↦
      let live = drop_expired now old in
      ground (
        arith,
        lookup-insert client client (evict (length live) live) d,
        length-evict (length live) live,
      )
]
