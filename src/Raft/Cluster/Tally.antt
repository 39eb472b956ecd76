-- ===== src/Raft/Cluster/Tally.antt =====
-- Counting the votes of an election of raft/election.go over the nodes below a bound.
use distrib_kv.Prelude.{ℕ, zero, suc, ◌+◌, ◌≤◌, ◌<◌, ◌≡◌, refl, Bool, true, false, arith}
use mathlib.Core.Path.{subst}
use native.Mathlib.Decide.{dec_lt}
use distrib_kv.Raft.Cluster.{Call, idle, asking, own, asked, answered, counted}

-- The peer's vote is, or is about to be, the candidate's.
unfoldable pub is_grant : Call → Bool
is_grant idle = false
is_grant asking = false
is_grant own = true
is_grant (asked req) = false
is_grant (answered a) = a.vote_granted
is_grant (counted a wins) = a.vote_granted

-- The vote has been counted.
unfoldable pub is_backing : Call → Bool
is_backing idle = false
is_backing asking = false
is_backing own = true
is_backing (asked req) = false
is_backing (answered a) = false
is_backing (counted a wins) = a.vote_granted

unfoldable pub is_won : Call → Bool
is_won idle = false
is_won asking = false
is_won own = false
is_won (asked req) = false
is_won (answered a) = false
is_won (counted a wins) = wins

pub backing-grant : (v : Call) → is_backing v ≡ true → is_grant v ≡ true
unfolding is_backing is_grant
backing-grant idle h = ground arith
backing-grant asking h = ground arith
backing-grant own h = ground arith
backing-grant (asked req) h = ground arith
backing-grant (answered a) h = ground arith
backing-grant (counted a w) h = ground arith

abbrev vote : Bool → ℕ
vote true = 1
vote false = 0

-- The votes from the nodes below `n`.
unfoldable pub tally : ℕ → (ℕ → Call) → ℕ
tally zero f = 0
tally (suc n) f = tally n f + vote (is_backing (f n))

pub tally_mono :
    (n : ℕ) (f g : ℕ → Call)
    → ((p : ℕ) → is_backing (f p) ≡ true → is_backing (g p) ≡ true)
    → tally n f ≤ tally n g
unfolding tally
tally_mono zero f g h = omega arith
tally_mono (suc n) f g h = ground (arith, tally_mono n f g h, h n)

pub tally_grows :
    (n q : ℕ) (f g : ℕ → Call)
    → ((p : ℕ) → is_backing (f p) ≡ true → is_backing (g p) ≡ true)
    → q < n
    → is_backing (f q) ≡ false
    → is_backing (g q) ≡ true
    → tally n f + 1 ≤ tally n g
unfolding tally
tally_grows zero q f g h lt a b = absurd (omega arith)
tally_grows (suc n) q f g h lt a b = elim (dec_lt q n) [
  | yes below ↦ ground (arith, tally_grows n q f g h below a b, h n)
  | no last ↦
      let e : q ≡ n = omega arith in
      let a' = subst (λ k. is_backing (f k) ≡ false) e a in
      let b' = subst (λ k. is_backing (g k) ≡ true) e b in ground (arith, tally_mono n f g h)
]

pub tally_pos : (n q : ℕ) (f : ℕ → Call) → q < n → is_backing (f q) ≡ true → 1 ≤ tally n f
unfolding is_backing
tally_pos n q f lt h = omega (arith, tally_grows n q (λ _. idle) f (λ p e. cc) lt refl h)

-- Two elections without a common voter.
pub tally_disjoint :
    (n : ℕ) (f g : ℕ → Call)
    → ((p : ℕ) → is_backing (f p) ≡ true → is_backing (g p) ≡ false)
    → tally n f + tally n g ≤ n
unfolding tally
tally_disjoint zero f g h = omega arith
tally_disjoint (suc n) f g h = ground (arith, tally_disjoint n f g h, h n)
