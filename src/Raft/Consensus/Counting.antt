-- ===== src/Raft/Consensus/Counting.antt =====
-- Counting the nodes of a cluster (raft/) below a bound that satisfy a test.
use distrib_kv.Prelude.{
  ℕ, zero, suc, ◌+◌, ◌≤◌, ◌<◌, ◌≡◌, refl, ◌⊎◌, inl, inr, Bool, true, false, Bool-cases, arith,
}
use mathlib.Core.Path.{subst}
use native.Mathlib.Decide.{dec_lt}
use distrib_kv.Raft.Cluster.{Call}
use distrib_kv.Raft.Cluster.Tally.{is_backing, tally}

abbrev pub one_if : Bool → ℕ
one_if true = 1
one_if false = 0

unfoldable pub count : ℕ → (ℕ → Bool) → ℕ
count zero f = 0
count (suc n) f = count n f + one_if (f n)

pub count_mono :
    (n : ℕ) (f g : ℕ → Bool) → ((p : ℕ) → p < n → f p ≡ true → g p ≡ true) → count n f ≤ count n g
unfolding count
count_mono zero f g h = omega arith
count_mono (suc n) f g h =
    let rest = count_mono n f g (λ p lt e. h p (omega arith) e) in
    elim (Bool-cases (f n)) [
      | inl e ↦ rw (e, h n (omega arith) e) (omega arith)
      | inr e ↦ rw e (omega arith)
    ]

pub count_disjoint :
    (n : ℕ) (f g : ℕ → Bool)
    → ((p : ℕ) → p < n → f p ≡ true → g p ≡ false)
    → count n f + count n g ≤ n
unfolding count
count_disjoint zero f g h = omega arith
count_disjoint (suc n) f g h =
    let rest = count_disjoint n f g (λ p lt e. h p (omega arith) e) in
    elim (Bool-cases (f n)) [
      | inl e ↦ rw (e, h n (omega arith) e) (omega arith)
      | inr e ↦ elim (Bool-cases (g n)) [
        | inl e' ↦ rw (e, e') (omega arith)
        | inr e' ↦ rw (e, e') (omega arith)
      ]
    ]

pub tally-eq-count : (n : ℕ) (f : ℕ → Call) → tally n f ≡ count n (λ p. is_backing (f p))
unfolding tally count
tally-eq-count zero f = refl
tally-eq-count (suc n) f =
    let rest = tally-eq-count n f in
    elim (Bool-cases (is_backing (f n))) [ inl e ↦ rw e (omega arith) | inr e ↦ rw e (omega arith) ]

-- Some node below the bound passes the test, or none does.
pub search_below :
    (n : ℕ) (f : ℕ → Bool) → ((p : ℕ) × (p < n) × (f p ≡ true)) ⊎ ((p : ℕ) → p < n → f p ≡ false)
search_below zero f = inr (λ p lt. absurd (omega arith))
search_below (suc n) f = elim (Bool-cases (f n)) [
  | inl e ↦ inl (n, omega arith, e)
  | inr e ↦ elim (search_below n f) [
    | inl (p, lt, h) ↦ inl (p, omega arith, h)
    | inr none_below ↦ inr (λ p lt. elim (dec_lt p n) [
      | yes below ↦ none_below p below
      | no last ↦ let q : n ≡ p = omega arith in subst (λ k. f k ≡ false) q e
    ])
  ]
]
