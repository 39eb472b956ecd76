-- ===== src/Raft/Consensus/Members.antt =====
-- What each node of a cluster (raft/) knows of its peers, and what its commit index rests on.
use distrib_kv.Prelude.{
  ℕ, ◌≤◌, ◌≡◌, ap, ◌∙◌, ◌⊎◌, inl, inr, List, [], ◌∷◌, some, leb, ◌==◌, Assoc, Bool-cases, ==_iff,
  arith, lookup, insert, nat_key,
}
use distrib_kv.Raft.Types.{LogEntry}
use distrib_kv.Raft.Node.{Peer}
use distrib_kv.Raft.Election.{reset_peers}
use distrib_kv.Raft.Lifecycle.{close_peers}
use distrib_kv.Raft.Replicas.Terms.{Terms, Extends}
use distrib_kv.Raft.Consensus.Counting.{count_mono}
use distrib_kv.Raft.Consensus.Prefix.{Agree, Agree-Extends, Entry, Entry-bounds}
use distrib_kv.Raft.Consensus.Settled.{Acks, Chosen}
use distrib_kv.Raft.Consensus.Majority.{Absent, Roster, Matches}

abbrev pub Company : ℕ → ℕ → Assoc ℕ Peer → Type 0
Company n i ps = Absent i ps × Roster n ps

-- The index is 0, or every entry up to it is the one that a majority has acknowledged.
abbrev pub Covered : ℕ → Terms → Acks → List LogEntry → ℕ → ℕ → Type 0
Covered n g a l term c =
    (c ≡ 0)
    ⊎ ((t : ℕ) × (k : ℕ) × (t ≤ term)
        × (c ≤ k)
        × Entry g t k
        × Chosen n a t k
        × Agree c l (g.log t))

-- The history and the acknowledgements grow.
pub record Rises (g g' : Terms) (a a' : Acks) : Type 0 where
  pub extends : Extends g g'
  pub acks : (t v : ℕ) → a t v ≤ a' t v

pub Chosen-Rises :
    (n : ℕ) (a a' : Acks) (t k : ℕ)
    → ((u v : ℕ) → a u v ≤ a' u v)
    → Chosen n a t k
    → Chosen n a' t k
Chosen-Rises n a a' t k h c =
    let le =
      count_mono n (λ v. leb k (a t v)) (λ v. leb k (a' t v))
        (λ v _ e. (let b = h t v in ground arith)) in
    omega arith

pub Entry-Extends : (g g' : Terms) (t k : ℕ) → Extends g g' → Entry g t k → Entry g' t k
Entry-Extends g g' t k x (e, at, same) = (e, x.log t k e at k (omega arith) ∙ at, same)

pub Covered-Rises :
    (n : ℕ) (g g' : Terms) (a a' : Acks) (l : List LogEntry) (t u c : ℕ)
    → Rises g g' a a'
    → t ≤ u
    → Covered n g a l t c
    → Covered n g' a' l u c
Covered-Rises n g g' a a' l t u c x le (inl z) = inl z
Covered-Rises n g g' a a' l t u c x le (inr (w, k, lw, ck, e, ch, h)) = inr (
  w,
  k,
  omega arith,
  ck,
  Entry-Extends g g' w k x.extends e,
  Chosen-Rises n a a' w k x.acks ch,
  Agree-Extends g g' l w c x.extends (omega (arith, (Entry-bounds g w k e).1)) h,
)

pub Covered_below :
    (n : ℕ) (g : Terms) (a : Acks) (l : List LogEntry) (t c b : ℕ)
    → b ≤ c
    → Covered n g a l t c
    → Covered n g a l t b
Covered_below n g a l t c b le (inl z) = inl (omega arith)
Covered_below n g a l t c b le (inr (w, k, lw, ck, e, ch, h)) =
    inr (w, k, lw, omega arith, e, ch, λ m lm. h m (omega arith))

pub Absent-insert :
    (i j : ℕ) (p q : Peer) (ps : Assoc ℕ Peer)
    → lookup j ps ≡ some q
    → Absent i ps
    → Absent i (insert j p ps)
unfolding lookup insert
Absent-insert i j p q [] h a = cc
Absent-insert i j p q ((l, w) ∷ ps) h a = elim (Bool-cases (l == j)) [
  | inl e ↦ rw e (let same = (==_iff l j).0 e in rw (← same) a)
  | inr e ↦ rw e (a.0, Absent-insert i j p q ps (rw e at h) a.1)
]

pub Roster-insert :
    (n j : ℕ) (p q : Peer) (ps : Assoc ℕ Peer)
    → lookup j ps ≡ some q
    → Roster n ps
    → Roster n (insert j p ps)
unfolding lookup insert
Roster-insert n j p q [] h a = cc
Roster-insert n j p q ((l, w) ∷ ps) h a = elim (Bool-cases (l == j)) [
  | inl e ↦ rw e (let same = (==_iff l j).0 e in rw (← same) a)
  | inr e ↦
      let h' : lookup j ps ≡ some q = rw e at h in
      rw e (a.0, Absent-insert l j p q ps h' a.1, Roster-insert n j p q ps h' a.2)
]

pub Matches-insert :
    (f : ℕ → ℕ) (j : ℕ) (p : Peer) (ps : Assoc ℕ Peer)
    → p.match_index ≤ f j
    → Matches f ps
    → Matches f (insert j p ps)
unfolding insert
Matches-insert f j p [] h a = (h, tt)
Matches-insert f j p ((l, w) ∷ ps) h a = elim (Bool-cases (l == j)) [
  | inl e ↦ rw e (h, a.1)
  | inr e ↦ rw e (a.0, Matches-insert f j p ps h a.1)
]

pub Matches-lookup :
    (f : ℕ → ℕ) (j : ℕ) (q : Peer) (ps : Assoc ℕ Peer)
    → lookup j ps ≡ some q
    → Matches f ps
    → q.match_index ≤ f j
unfolding lookup
Matches-lookup f j q [] h a = cc
Matches-lookup f j q ((l, w) ∷ ps) h a = elim (Bool-cases (l == j)) [
  | inl e ↦
      let h' : some w ≡ some q = rw e at h in
      let same : w ≡ q = cc in
      omega (arith, a.0, ap f ((==_iff l j).0 e), ap (λ x. x.match_index) same)
  | inr e ↦ Matches-lookup f j q ps (rw e at h) a.1
]

pub Matches-mono :
    (f h : ℕ → ℕ) (ps : Assoc ℕ Peer) → ((j : ℕ) → f j ≤ h j) → Matches f ps → Matches h ps
Matches-mono f h [] le a = tt
Matches-mono f h ((j, p) ∷ ps) le a = (omega (arith, a.0, le j), Matches-mono f h ps le a.1)

Absent-reset_peers : (i k : ℕ) (ps : Assoc ℕ Peer) → Absent i ps → Absent i (reset_peers k ps)
unfolding reset_peers
Absent-reset_peers i k [] a = tt
Absent-reset_peers i k ((j, p) ∷ ps) a = (a.0, Absent-reset_peers i k ps a.1)

Roster-reset_peers : (n k : ℕ) (ps : Assoc ℕ Peer) → Roster n ps → Roster n (reset_peers k ps)
unfolding reset_peers
Roster-reset_peers n k [] a = tt
Roster-reset_peers n k ((j, p) ∷ ps) a =
    (a.0, Absent-reset_peers j k ps a.1, Roster-reset_peers n k ps a.2)

pub Company-reset_peers :
    (n i k : ℕ) (ps : Assoc ℕ Peer) → Company n i ps → Company n i (reset_peers k ps)
Company-reset_peers n i k ps c = (Absent-reset_peers i k ps c.0, Roster-reset_peers n k ps c.1)

pub Matches-reset_peers : (f : ℕ → ℕ) (k : ℕ) (ps : Assoc ℕ Peer) → Matches f (reset_peers k ps)
unfolding reset_peers
Matches-reset_peers f k [] = tt
Matches-reset_peers f k ((j, p) ∷ ps) = (omega arith, Matches-reset_peers f k ps)

Absent-close_peers : (i : ℕ) (ps : Assoc ℕ Peer) → Absent i ps → Absent i (close_peers ps)
unfolding close_peers
Absent-close_peers i [] a = tt
Absent-close_peers i ((j, p) ∷ ps) a = (a.0, Absent-close_peers i ps a.1)

pub Roster-close_peers : (n : ℕ) (ps : Assoc ℕ Peer) → Roster n ps → Roster n (close_peers ps)
unfolding close_peers
Roster-close_peers n [] a = tt
Roster-close_peers n ((j, p) ∷ ps) a =
    (a.0, Absent-close_peers j ps a.1, Roster-close_peers n ps a.2)

pub Company-close_peers :
    (n i : ℕ) (ps : Assoc ℕ Peer) → Company n i ps → Company n i (close_peers ps)
Company-close_peers n i ps c = (Absent-close_peers i ps c.0, Roster-close_peers n ps c.1)

pub Matches-close_peers :
    (f : ℕ → ℕ) (ps : Assoc ℕ Peer) → Matches f ps → Matches f (close_peers ps)
unfolding close_peers
Matches-close_peers f [] a = tt
Matches-close_peers f ((j, p) ∷ ps) a = (a.0, Matches-close_peers f ps a.1)
