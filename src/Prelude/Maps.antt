-- ===== src/Prelude/Maps.antt =====
-- Go's built-in maps: a list of entries with distinct keys, in the order of one iteration.
use Prim.Native.Nat.{◌+◌, ◌≤◌}
use mathlib.Core.Path.{◌≡◌, refl}
use mathlib.Core.Option.{Option, none, some}
use mathlib.Core.List.{List, [], ◌∷◌}
use native.Mathlib.Omega.{arith}
use distrib_kv.Prelude.Tests.{if◌then◌else◌}
use distrib_kv.Prelude.Lists.{length}
use distrib_kv.Prelude.Keys.{Key}

abbrev pub Assoc {ℓ κ} : Type ℓ → Type κ → Type (ℓ ⊔ κ)
Assoc K V = List (K × V)

module _ {ℓ κ} {K : Type ℓ} {V : Type κ} ⦃e : Key K⦄ where
  -- m[k], with its `ok`
  unfoldable pub lookup : K → Assoc K V → Option V
  lookup k [] = none
  lookup k ((j, v) ∷ m) = if e.beq j k then some v else lookup k m

  -- m[k] = v
  unfoldable pub insert : K → V → Assoc K V → Assoc K V
  insert k v [] = (k, v) ∷ []
  insert k v ((j, w) ∷ m) = if e.beq j k then (k, v) ∷ m else (j, w) ∷ insert k v m

  -- delete(m, k)
  unfoldable pub delete : K → Assoc K V → Assoc K V
  delete k [] = []
  delete k ((j, w) ∷ m) = let rest = delete k m in if e.beq j k then rest else (j, w) ∷ rest

  pub lookup_nil : (k : K) → lookup k [] ≡ none
  unfolding lookup
  lookup_nil k = refl

  pub lookup_cons :
      (k j : K) (v : V) (m : Assoc K V)
      → lookup k ((j, v) ∷ m) ≡ (if e.beq j k then some v else lookup k m)
  unfolding lookup
  lookup_cons k j v m = refl

  pub lookup-insert :
      (k j : K) (v : V) (m : Assoc K V)
      → lookup j (insert k v m) ≡ (if e.beq k j then some v else lookup j m)
  unfolding lookup insert
  lookup-insert k j v [] = refl
  lookup-insert k j v ((i, w) ∷ m) =
      ground (arith, e.beq_iff k j, e.beq_iff i k, e.beq_iff i j, lookup-insert k j v m)

  pub lookup-delete :
      (k j : K) (m : Assoc K V) → lookup j (delete k m) ≡ (if e.beq k j then none else lookup j m)
  unfolding lookup delete
  lookup-delete k j [] = ground arith
  lookup-delete k j ((i, w) ∷ m) =
      ground (arith, e.beq_iff k j, e.beq_iff i k, e.beq_iff i j, lookup-delete k j m)

  pub length-delete-le : (k : K) (m : Assoc K V) → length (delete k m) ≤ length m
  unfolding delete
  length-delete-le k [] = omega arith
  length-delete-le k ((i, w) ∷ m) = ground (arith, length-delete-le k m)

  pub length-delete_of_mem :
      (k : K) (v : V) (m : Assoc K V) → lookup k m ≡ some v → length (delete k m) + 1 ≤ length m
  unfolding lookup delete
  length-delete_of_mem k v [] h = ground arith
  length-delete_of_mem k v ((i, w) ∷ m) h =
      ground (arith, length-delete_of_mem k v m, length-delete-le k m)

  pub length-insert-le : (k : K) (v : V) (m : Assoc K V) → length (insert k v m) ≤ length m + 1
  unfolding insert
  length-insert-le k v [] = omega arith
  length-insert-le k v ((i, w) ∷ m) = ground (arith, length-insert-le k v m)
