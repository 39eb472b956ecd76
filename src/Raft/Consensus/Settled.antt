-- ===== src/Raft/Consensus/Settled.antt =====
-- What the acknowledgements of a cluster's nodes (raft/) settle: an entry that a majority has
-- acknowledged, and an index that no majority can acknowledge any more.
use distrib_kv.Prelude.{
  ℕ, ◌*◌, ◌%◌, ◌≤◌, ◌<◌, ◌≡◌, ◌⊎◌, inl, inr, List, ◌&&◌, ltb, leb, ◌==◌, if◌then◌else◌, arith,
}
use distrib_kv.Raft.Types.{LogEntry}
use distrib_kv.Raft.Node.{Raft}
use distrib_kv.Raft.Replicas.Terms.{Terms, Extends}
use distrib_kv.Raft.Consensus.Counting.{count, count_mono, count_disjoint}
use distrib_kv.Raft.Consensus.Prefix.{Agree, Agree-Extends, Entry, Entry-bounds}

-- The last index that a node has acknowledged to the leader of a term, by term and node. For the
-- leader itself it is the last one that it has written.
abbrev pub Acks : Type 0
Acks = ℕ → ℕ → ℕ

-- A majority has acknowledged the index.
abbrev pub Chosen : ℕ → Acks → ℕ → ℕ → Type 0
Chosen n a t k = n ≤ 2 * count n (λ v. leb k (a t v))

module _ {S : Type 0} where
  -- A majority has gone on to later terms without acknowledging the index.
  abbrev pub Dead : ℕ → Acks → (ℕ → Raft S) → ℕ → ℕ → Type 0
  Dead n a nodes t k = n ≤ 2 * count n (λ v. ltb t (nodes v).current_term && ltb (a t v) k)

  pub Dead_mono :
      (n : ℕ) (a a' : Acks) (nodes nodes' : ℕ → Raft S) (t k : ℕ)
      → ((v : ℕ) → t < (nodes v).current_term → (t < (nodes' v).current_term) × (a' t v ≤ a t v))
      → Dead n a nodes t k
      → Dead n a' nodes' t k
  Dead_mono n a a' nodes nodes' t k h d =
      let le =
        count_mono n (λ v. ltb t (nodes v).current_term && ltb (a t v) k)
          (λ v. ltb t (nodes' v).current_term && ltb (a' t v) k)
          (λ v lt e. let b = h v (ground arith) in ground arith) in
      omega arith

  pub not_Dead :
      (n : ℕ) (a : Acks) (nodes : ℕ → Raft S) (t k : ℕ)
      → n % 2 ≡ 1
      → Chosen n a t k
      → ¬ Dead n a nodes t k
  not_Dead n a nodes t k odd c d =
      let both =
        count_disjoint n (λ v. leb k (a t v)) (λ v. ltb t (nodes v).current_term && ltb (a t v) k)
          (λ v lt e. ground arith) in
      omega arith

-- The log has the entries of the term up to the index, unless the index is dead.
abbrev pub Safe : (ℕ → ℕ → Type 0) → Terms → List LogEntry → ℕ → ℕ → Type 0
Safe dead g l t k = Agree k l (g.log t) ⊎ dead t k

pub Safe-Extends :
    (dead dead' : ℕ → ℕ → Type 0) (g g' : Terms) (l : List LogEntry) (t k : ℕ)
    → Extends g g'
    → (dead t k → dead' t k)
    → Entry g t k
    → Safe dead g l t k
    → Safe dead' g' l t k
Safe-Extends dead dead' g g' l t k x mono e (inl h) =
    inl (Agree-Extends g g' l t k x (Entry-bounds g t k e).1 h)
Safe-Extends dead dead' g g' l t k x mono e (inr d) = inr (mono d)

pub Safe-mono :
    (dead dead' : ℕ → ℕ → Type 0) (g : Terms) (l : List LogEntry) (t k : ℕ)
    → (dead t k → dead' t k)
    → Safe dead g l t k
    → Safe dead' g l t k
Safe-mono dead dead' g l t k h (inl s) = inl s
Safe-mono dead dead' g l t k h (inr d) = inr (h d)

-- A node acknowledges an index to the leader of a term.
abbrev pub acknowledge : ℕ → ℕ → ℕ → Acks → Acks
acknowledge t i k a u v = if t == u && i == v then k else a u v

pub acknowledge_cases :
    (t i k : ℕ) (a : Acks) (u v : ℕ)
    → ((acknowledge t i k a u v ≡ k) × (t ≡ u) × (i ≡ v)) ⊎ (acknowledge t i k a u v ≡ a u v)
acknowledge_cases t i k a u v = ground arith
