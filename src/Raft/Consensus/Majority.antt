-- ===== src/Raft/Consensus/Majority.antt =====
-- The peers that a leader counts (`updateCommitIndex` of raft/replication.go) are nodes of the cluster.
use distrib_kv.Prelude.{
  ℕ, zero, suc, ◌+◌, ◌≤◌, ◌<◌, ◌≡◌, ◌≢◌, refl, [], ◌∷◌, Bool, true, not, ◌&&◌, ◌==◌, leb, Assoc,
  inl, inr, Bool-cases, ==_iff, arith,
}
use mathlib.Core.Path.{subst}
use native.Mathlib.Decide.{dec_lt}
use distrib_kv.Raft.Node.{Peer}
use distrib_kv.Raft.Replication.{count_match}
use distrib_kv.Raft.Consensus.Counting.{count, count_mono}

-- No peer has the id.
abbrev pub Absent : ℕ → Assoc ℕ Peer → Type 0
Absent i [] = Unit
Absent i ((j, p) ∷ ps) = (j ≢ i) × Absent i ps

-- The ids are those of nodes, each once.
abbrev pub Roster : ℕ → Assoc ℕ Peer → Type 0
Roster n [] = Unit
Roster n ((j, p) ∷ ps) = (j < n) × Absent j ps × Roster n ps

-- Each peer's matchIndex is bounded.
abbrev pub Matches : (ℕ → ℕ) → Assoc ℕ Peer → Type 0
Matches a [] = Unit
Matches a ((j, p) ∷ ps) = (p.match_index ≤ a j) × Matches a ps

count_remove :
    (n j : ℕ) (f : ℕ → Bool)
    → j < n
    → f j ≡ true
    → count n (λ v. f v && not (v == j)) + 1 ≤ count n f
unfolding count
count_remove zero j f lt h = absurd (omega arith)
count_remove (suc n) j f lt h = elim (dec_lt j n) [
  | yes below ↦
      let rest = count_remove n j f below h in
      elim (Bool-cases (f n)) [
        | inl e ↦ elim (Bool-cases (n == j)) [
          | inl q ↦ rw (e, q) (omega arith)
          | inr q ↦ rw (e, q) (omega arith)
        ]
        | inr e ↦ rw e (omega arith)
      ]
  | no last ↦
      let q : j ≡ n = omega arith in
      let e : f n ≡ true = subst (λ w. f w ≡ true) q h in
      let same : n == j ≡ true = (==_iff n j).1 (omega arith) in
      let le = count_mono n (λ v. f v && not (v == j)) f (λ p _ b. ground arith) in
      rw (e, same) (omega arith)
]

-- Every peer that has the index passes the test.
abbrev Passing : (ℕ → Bool) → ℕ → Assoc ℕ Peer → Type 0
Passing f k [] = Unit
Passing f k ((j, p) ∷ ps) = (k ≤ p.match_index → f j ≡ true) × Passing f k ps

Passing-without :
    (f : ℕ → Bool) (k j : ℕ) (ps : Assoc ℕ Peer)
    → Absent j ps
    → Passing f k ps
    → Passing (λ v. f v && not (v == j)) k ps
Passing-without f k j [] out h = tt
Passing-without f k j ((i, p) ∷ ps) out h = (
  λ le. elim (Bool-cases (i == j)) [
    | inl e ↦ absurd (out.0 ((==_iff i j).0 e))
    | inr e ↦ rw (e, h.0 le) refl
  ],
  Passing-without f k j ps out.1 h.1,
)

count-Passing :
    (n k : ℕ) (f : ℕ → Bool) (ps : Assoc ℕ Peer)
    → Roster n ps
    → Passing f k ps
    → count_match k ps ≤ count n f
unfolding count_match
count-Passing n k f [] roster h = omega arith
count-Passing n k f ((j, p) ∷ ps) roster h = elim (Bool-cases (leb k p.match_index)) [
  | inr e ↦ rw e (omega (arith, count-Passing n k f ps roster.2 h.1))
  | inl e ↦
      let rest =
        count-Passing n k (λ v. f v && not (v == j)) ps roster.2
          (Passing-without f k j ps roster.1 h.1) in
      let less = count_remove n j f roster.0 (h.0 (ground arith)) in rw e (omega arith)
]

Passing-of_Matches :
    (a : ℕ → ℕ) (k : ℕ) (ps : Assoc ℕ Peer) → Matches a ps → Passing (λ v. leb k (a v)) k ps
Passing-of_Matches a k [] h = tt
Passing-of_Matches a k ((j, p) ∷ ps) h =
    (λ le. (let b = h.0 in ground arith), Passing-of_Matches a k ps h.1)

-- The leader and the peers that have the index are as many nodes.
pub count_match_nodes :
    (n i k : ℕ) (a : ℕ → ℕ) (ps : Assoc ℕ Peer)
    → i < n
    → Absent i ps
    → Roster n ps
    → k ≤ a i
    → Matches a ps
    → 1 + count_match k ps ≤ count n (λ v. leb k (a v))
count_match_nodes n i k a ps lt out roster own h =
    let own_true : leb k (a i) ≡ true = ground arith in
    let less = count_remove n i (λ v. leb k (a v)) lt own_true in
    let rest =
      count-Passing n k (λ v. leb k (a v) && not (v == i)) ps roster
        (Passing-without (λ v. leb k (a v)) k i ps out (Passing-of_Matches a k ps h)) in
    omega arith
