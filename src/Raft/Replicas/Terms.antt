-- ===== src/Raft/Replicas/Terms.antt =====
-- The log that the leader of each term has, or had when it last led (raft/), as the history against
-- which the logs of all nodes are read.
use distrib_kv.Prelude.{
  ℕ, ◌+◌, ◌-◌, ◌≤◌, ◌≡◌, sym, ap, ◌∙◌, List, [], ◌∷◌, ◌++◌, Option, some, Bool-cases, inl, inr, leb,
  arith, length, get_elem?-append_left,
}
use distrib_kv.Raft.Types.{LogEntry, AppendEntriesRequest}
use distrib_kv.Raft.Node.{log_at}
use distrib_kv.Raft.Log.{log_at_bounds, log_at_below, log_at-eq-get_elem?}
use distrib_kv.Raft.Replication.Submit.{log_at-append_end}
use distrib_kv.Raft.Replication.Matching.{Describes, LogMatching, View}

pub record Terms : Type 0 where
  pub won : ℕ → Option ℕ
  pub log : ℕ → List LogEntry

abbrev pub view : List LogEntry → View
view l = log_at 0 l

-- Up to each of its entries, a log is the log of the entry's term.
abbrev pub Rooted : Terms → List LogEntry → Type 0
Rooted g l =
    (k : ℕ) (e : LogEntry) → view l k ≡ some e → (m : ℕ) → m ≤ k → view l m ≡ view (g.log e.term) m

-- The winners stay, and the log of a term keeps what it has.
pub record Extends (g g' : Terms) : Type 0 where
  pub won : (t i : ℕ) → g.won t ≡ some i → g'.won t ≡ some i
  pub log :
      (t k : ℕ) (e : LogEntry)
      → view (g.log t) k ≡ some e
      → (m : ℕ) → m ≤ k
      → view (g'.log t) m ≡ view (g.log t) m

pub Rooted-Extends : (g g' : Terms) (l : List LogEntry) → Extends g g' → Rooted g l → Rooted g' l
Rooted-Extends g g' l x h k e at m le =
    h k e at m le ∙ sym (x.log e.term k e (sym (h k e at k (omega arith)) ∙ at) m le)

pub Describes-Extends :
    (g g' : Terms) (req : AppendEntriesRequest)
    → Extends g g'
    → Describes (view (g.log req.term)) req
    → Describes (view (g'.log req.term)) req
Describes-Extends g g' req x d = record {
  consecutive = d.consecutive;
  entries = λ k e h. let at = d.entries k e h in x.log req.term _ e at _ (omega arith) ∙ at;
  prev = λ pos.
      let (e, at, same) = d.prev pos in (e, x.log req.term _ e at _ (omega arith) ∙ at, same);
}

-- Two rooted logs match.
pub Rooted-LogMatching :
    (g : Terms) (l l' : List LogEntry) → Rooted g l → Rooted g l' → LogMatching (view l) (view l')
Rooted-LogMatching g l l' h h' = record {
  at = λ i j a b a' b' la lb same le la' lb'.
      let q = h i a la j le in
      let q' = h' i b lb j le in
      let r : view (g.log a.term) j ≡ view (g.log b.term) j = ap (λ t. view (g.log t) j) same in cc;
}

-- An entry at the end changes nothing before it.
pub view-append :
    (l : List LogEntry) (x : LogEntry) (m : ℕ) → m ≤ length l → view (l ++ x ∷ []) m ≡ view l m
view-append l x m le = elim (Bool-cases (leb m 0)) [
  | inl low ↦ rw (log_at_below 0 (l ++ x ∷ []) m (ground arith), log_at_below 0 l m (ground arith))
  | inr high ↦ rw (
    log_at-eq-get_elem? 0 (l ++ x ∷ []) m (ground arith),
    log_at-eq-get_elem? 0 l m (ground arith),
    get_elem?-append_left l (x ∷ []) (m - 0 - 1) (ground arith),
  )
]

pub view_within : (l : List LogEntry) (k : ℕ) (e : LogEntry) → view l k ≡ some e → k ≤ length l
view_within l k e h = omega (arith, (log_at_bounds 0 l k e h).1)

pub view-end : (l : List LogEntry) (x : LogEntry) → view (l ++ x ∷ []) (length l + 1) ≡ some x
view-end l x =
    let q : length l + 0 + 1 ≡ length l + 1 = omega arith in rw q at (log_at-append_end 0 l x)
