-- ===== src/Raft/Log.antt =====
-- Facts about a log read by absolute index: `log_at` of raft/raft.go's log[absIndex - logBase - 1].
pub mod Round
pub mod Merge
use distrib_kv.Prelude.{
  ℕ, zero, suc, ◌+◌, ◌-◌, ◌≤◌, ◌<◌, ◌≡◌, refl, ap, ◌⊎◌, inl, inr, List, [], ◌∷◌, ◌++◌, Option, none,
  some, Bool, true, false, leb, le→leb, lt→leb_false, Bool-cases, if◌then◌else◌, arith, length,
  get_elem?, get_last?, take, drop, get_elem?-some, get_elem?-none, lt_of_get_elem?,
  get_elem?-append_left, get_elem?-append_end, get_elem?-take, get_elem?-drop, length-append, ltb,
}
use distrib_kv.Raft.Types.{LogEntry}
use distrib_kv.Raft.Node.{log_at}
use distrib_kv.Raft.Snapshot.{tail_after}

-- The entries carry the indices base + 1, base + 2, and so on.
abbrev pub Contiguous : ℕ → List LogEntry → Type 0
Contiguous base [] = Unit
Contiguous base (e ∷ es) = (e.index ≡ suc base) × Contiguous (suc base) es

pub Contiguous-append :
    (base : ℕ) (xs : List LogEntry) (e : LogEntry)
    → Contiguous base xs
    → e.index ≡ base + length xs + 1
    → Contiguous base (xs ++ e ∷ [])
Contiguous-append base [] e h k = (omega arith, tt)
Contiguous-append base (x ∷ xs) e h k = (h.0, Contiguous-append (suc base) xs e h.1 (omega arith))

pub Contiguous-take :
    (base n : ℕ) (xs : List LogEntry) → Contiguous base xs → Contiguous base (take n xs)
Contiguous-take base zero xs h = tt
Contiguous-take base (suc n) [] h = tt
Contiguous-take base (suc n) (x ∷ xs) h = (h.0, Contiguous-take (suc base) n xs h.1)

pub Contiguous-drop :
    (base n : ℕ) (xs : List LogEntry)
    → Contiguous base xs
    → n ≤ length xs
    → Contiguous (base + n) (drop n xs)
Contiguous-drop base zero xs h k = let e : base + 0 ≡ base = omega arith in rw e h
Contiguous-drop base (suc n) [] h k = elim k [ ]
Contiguous-drop base (suc n) (x ∷ xs) h k =
    let e : base + suc n ≡ suc base + n = omega arith in
    rw e (Contiguous-drop (suc base) n xs h.1 (omega arith))

pub index-get_elem? :
    (base : ℕ) (xs : List LogEntry) (i : ℕ) (e : LogEntry)
    → Contiguous base xs
    → get_elem? xs i ≡ some e
    → e.index ≡ base + i + 1
index-get_elem? base [] i e h k = cc
index-get_elem? base (x ∷ xs) zero e h k = ground arith
index-get_elem? base (x ∷ xs) (suc i) e h k = omega (arith, index-get_elem? (suc base) xs i e h.1 k)

pub index-get_last? :
    (base : ℕ) (xs : List LogEntry) (e : LogEntry)
    → Contiguous base xs
    → get_last? xs ≡ some e
    → e.index ≡ base + length xs
index-get_last? base [] e h k = cc
index-get_last? base (x ∷ []) e h k = ground arith
index-get_last? base (x ∷ y ∷ ys) e h k = omega (arith, index-get_last? (suc base) (y ∷ ys) e h.1 k)

-- Between the base and the end every index has its entry, and nothing else has one.
pub log_at-some :
    (base : ℕ) (log : List LogEntry) (idx : ℕ)
    → base < idx
    → idx ≤ base + length log
    → (e : LogEntry) × (log_at base log idx ≡ some e)
unfolding log_at
log_at-some base log idx h k =
    rw (lt→leb_false idx base h) (get_elem?-some log (idx - base - 1) (omega arith))

pub log_at_below :
    (base : ℕ) (log : List LogEntry) (idx : ℕ) → idx ≤ base → log_at base log idx ≡ none
unfolding log_at
log_at_below base log idx h = rw (le→leb idx base h)

pub log_at_above :
    (base : ℕ) (log : List LogEntry) (idx : ℕ)
    → base + length log < idx
    → log_at base log idx ≡ none
unfolding log_at
log_at_above base log idx h =
    rw (lt→leb_false idx base (omega arith)) (get_elem?-none log (idx - base - 1) (omega arith))

pub log_at-eq-get_elem? :
    (base : ℕ) (log : List LogEntry) (idx : ℕ)
    → base < idx
    → log_at base log idx ≡ get_elem? log (idx - base - 1)
unfolding log_at
log_at-eq-get_elem? base log idx h = rw (lt→leb_false idx base h)

pub log_at_bounds :
    (base : ℕ) (log : List LogEntry) (idx : ℕ) (e : LogEntry)
    → log_at base log idx ≡ some e
    → (base < idx) × (idx ≤ base + length log)
unfolding log_at
log_at_bounds base log idx e h = elim (Bool-cases (leb idx base)) [
  | inl low ↦ absurd (ground arith)
  | inr high ↦ ground (arith, lt_of_get_elem? log (idx - base - 1) e)
]

pub index-log_at :
    (base : ℕ) (log : List LogEntry) (idx : ℕ) (e : LogEntry)
    → Contiguous base log
    → log_at base log idx ≡ some e
    → e.index ≡ idx
unfolding log_at
index-log_at base log idx e c h = elim (Bool-cases (leb idx base)) [
  | inl low ↦ absurd (ground arith)
  | inr high ↦ ground (arith, index-get_elem? base log (idx - base - 1) e c)
]

-- Dropping entries from the front with the base moved up changes no later entry.
pub log_at-drop :
    (base n : ℕ) (log : List LogEntry) (idx : ℕ)
    → base + n < idx
    → log_at (base + n) (drop n log) idx ≡ log_at base log idx
log_at-drop base n log idx h =
    let e : n + (idx - (base + n) - 1) ≡ idx - base - 1 = omega arith in
    rw (
      log_at-eq-get_elem? (base + n) (drop n log) idx h,
      log_at-eq-get_elem? base log idx (omega arith),
      get_elem?-drop n log (idx - (base + n) - 1),
      e,
    )

tail_after_all :
    (base idx : ℕ) (log : List LogEntry)
    → Contiguous base log
    → idx ≤ base
    → tail_after idx log ≡ log
unfolding tail_after
tail_after_all base idx [] c h = refl
tail_after_all base idx (x ∷ xs) c h =
    ground (arith, tail_after_all (suc base) idx xs c.1 (omega arith))

-- What `tail_after` keeps of a contiguous log is what `drop` keeps.
pub tail_after-eq-drop :
    (base idx : ℕ) (log : List LogEntry)
    → Contiguous base log
    → base ≤ idx
    → tail_after idx log ≡ drop (idx - base) log
unfolding tail_after
tail_after-eq-drop base idx [] c h = drop_nil (idx - base)
  where
    drop_nil : (n : ℕ) → [] ≡ drop n (let l : List LogEntry = [] in l)
    drop_nil zero = refl
    drop_nil (suc n) = refl
tail_after-eq-drop base idx (x ∷ xs) c h = elim (Bool-cases (ltb base idx)) [
  | inl lt ↦
      let e : idx - base ≡ suc (idx - suc base) = ground arith in
      rw e (ground (arith, tail_after-eq-drop (suc base) idx xs c.1 (ground arith)))
  | inr ge ↦
      let e : idx - base ≡ 0 = ground arith in
      rw e (ground (arith, tail_after_all base idx (x ∷ xs) c (ground arith)))
]

pub drop_all : (n : ℕ) (xs : List LogEntry) → length xs ≤ n → drop n xs ≡ []
drop_all zero [] h = refl
drop_all zero (x ∷ xs) h = elim h [ ]
drop_all (suc n) [] h = refl
drop_all (suc n) (x ∷ xs) h = drop_all n xs (omega arith)

pub tail_after-Contiguous :
    (base idx : ℕ) (log : List LogEntry)
    → Contiguous base log
    → base ≤ idx
    → Contiguous idx (tail_after idx log)
tail_after-Contiguous base idx log c h =
    rw (tail_after-eq-drop base idx log c h) (elim (Bool-cases (leb (idx - base) (length log))) [
      | inl inside ↦
          let q : base + (idx - base) ≡ idx = omega arith in
          rw q at (Contiguous-drop base (idx - base) log c (ground arith))
      | inr outside ↦ rw (drop_all (idx - base) log (ground arith)) tt
    ])
