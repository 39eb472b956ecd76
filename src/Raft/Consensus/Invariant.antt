-- ===== src/Raft/Consensus/Invariant.antt =====
-- The invariant of votes, acknowledgements and logs of a cluster (raft/).
use distrib_kv.Prelude.{ℕ, ◌≤◌, ◌<◌, ◌≡◌, sym, ap, ◌∙◌, inl, inr, none, some, true, arith, length}
use distrib_kv.Raft.Types.{LogEntry, candidate, RequestVoteRequest}
use distrib_kv.Raft.Node.{Raft, get_last_log_info}
use distrib_kv.Raft.Cluster.{Call, Calls, asked, update, set_call}
use distrib_kv.Raft.Cluster.Tally.{is_grant}
use distrib_kv.Raft.Cluster.Invariant.{update_all, set_call_cases}
use distrib_kv.Raft.Replicas.Terms.{Terms, view}
use distrib_kv.Raft.Replicas.Crowning.{update_cases}
use distrib_kv.Raft.Consensus.Prefix.{Entry}
use distrib_kv.Raft.Consensus.Settled.{Acks, Dead, Dead_mono, Safe, Safe-mono}

-- The logs of the terms: entries stand in the order of their terms, none above its log's, the
-- winner of a term has acknowledged its own, and a later term has what may be chosen before.
pub record History (dead : ℕ → ℕ → Type 0) (g : Terms) (a : Acks) : Type 0 where
  pub bound : (t v : ℕ) → a t v ≤ length (g.log t)
  pub own : (t i k : ℕ) → g.won t ≡ some i → Entry g t k → k ≤ a t i
  pub sorted :
      (t k m : ℕ) (e x : LogEntry)
      → view (g.log t) k ≡ some e
      → view (g.log t) m ≡ some x
      → k ≤ m
      → e.term ≤ x.term
  pub ceiling : (t k : ℕ) (e : LogEntry) → view (g.log t) k ≡ some e → e.term ≤ t
  pub main : (t u i k : ℕ) → t < u → g.won u ≡ some i → Entry g t k → Safe dead g (g.log u) t k

pub History_mono :
    (dead dead' : ℕ → ℕ → Type 0) (g : Terms) (a : Acks)
    → ((t k : ℕ) → dead t k → dead' t k)
    → History dead g a
    → History dead' g a
History_mono dead dead' g a h v = record {
  bound = v.bound;
  own = v.own;
  sorted = v.sorted;
  ceiling = v.ceiling;
  main = λ t u i k lt w e. Safe-mono dead dead' g (g.log u) t k (h t k) (v.main t u i k lt w e);
}

module _ {S : Type 0} where
  -- A candidate of a term that nobody has won.
  abbrev pub Running : Terms → ℕ → Raft S → Type 0
  Running g t r = (r.state ≡ candidate) × (r.current_term ≡ t) × (g.won t ≡ none)

  -- The request of a candidate that is still running tells of its log.
  abbrev pub Asked : Terms → ℕ → Call → Raft S → Type 0
  Asked g t v r =
      (req : RequestVoteRequest)
      → v ≡ asked req
      → Running g t r
      → (req.last_log_index ≡ (get_last_log_info r).0)
        × (req.last_log_term ≡ (get_last_log_info r).1)

  -- A running candidate's log has what its voter had acknowledged.
  abbrev pub Backs : (ℕ → ℕ → Type 0) → Terms → Acks → ℕ → ℕ → Call → Raft S → Type 0
  Backs dead g a t p v r =
      is_grant v ≡ true
      → Running g t r
      → (u k : ℕ) → u < t
      → k ≤ a u p
      → Entry g u k
      → Safe dead g r.log u k

  pub record Voter (dead : ℕ → ℕ → Type 0) (g : Terms) (a : Acks) (calls : Calls) (c : ℕ)
      (r : Raft S) : Type 0 where
    pub low : (t : ℕ) → 0 < a t c → t ≤ r.current_term
    pub within : (k : ℕ) (e : LogEntry) → view r.log k ≡ some e → e.term ≤ r.current_term
    pub kept : (t k : ℕ) → k ≤ a t c → Entry g t k → Safe dead g r.log t k
    pub asked : (t p : ℕ) → Asked g t (calls c t p) r
    pub granted : (t p : ℕ) → Backs dead g a t p (calls c t p) r

  pub record Acked (n : ℕ) (g : Terms) (a : Acks) (nodes : ℕ → Raft S) (calls : Calls)
      : Type 0 where
    pub voters : (c : ℕ) → Voter (Dead n a nodes) g a calls c (nodes c)
    pub history : History (Dead n a nodes) g a

  Backs-mono :
      (dead dead' : ℕ → ℕ → Type 0) (g : Terms) (a : Acks) (t p : ℕ) (v : Call) (r : Raft S)
      → ((t k : ℕ) → dead t k → dead' t k)
      → Backs dead g a t p v r
      → Backs dead' g a t p v r
  Backs-mono dead dead' g a t p v r h b grant run u k lt le e =
      Safe-mono dead dead' g r.log u k (h u k) (b grant run u k lt le e)

  pub Voter-mono :
      (dead dead' : ℕ → ℕ → Type 0) (g : Terms) (a : Acks) (calls : Calls) (c : ℕ) (r : Raft S)
      → ((t k : ℕ) → dead t k → dead' t k)
      → Voter dead g a calls c r
      → Voter dead' g a calls c r
  Voter-mono dead dead' g a calls c r h v = record {
    low = v.low;
    within = v.within;
    kept = λ t k le e. Safe-mono dead dead' g r.log t k (h t k) (v.kept t k le e);
    asked = v.asked;
    granted = λ t p. Backs-mono dead dead' g a t p (calls c t p) r h (v.granted t p);
  }

  -- The log stays, the term does not fall, and the node does not become a candidate.
  pub record Calm (r r' : Raft S) : Type 0 where
    pub log : r'.log ≡ r.log
    pub term : r.current_term ≤ r'.current_term
    pub running : r'.state ≡ candidate → (r.state ≡ candidate) × (r'.current_term ≡ r.current_term)

  pub Voter-Calm :
      (dead : ℕ → ℕ → Type 0) (g : Terms) (a : Acks) (calls : Calls) (c : ℕ) (r r' : Raft S)
      → Calm r r'
      → Voter dead g a calls c r
      → Voter dead g a calls c r'
  unfolding get_last_log_info
  Voter-Calm dead g a calls c r r' q v =
      let back : (t : ℕ) → Running g t r' → Running g t r =
        λ t run. (let b = q.running run.0 in (b.0, sym b.1 ∙ run.1, run.2)) in
      record {
        low = λ t pos. omega (arith, v.low t pos, q.term);
        within = λ k e at. omega (arith, v.within k e (rw q.log at at), q.term);
        kept = λ t k le e. rw q.log (v.kept t k le e);
        asked = λ t p req at run. rw q.log (v.asked t p req at (back t run));
        granted =
            λ t p grant run u k lt le e. rw q.log (v.granted t p grant (back t run) u k lt le e);
      }

  module _ (n : ℕ) (g : Terms) (a : Acks) (nodes : ℕ → Raft S) (calls : Calls) where
    -- The change of a node whose term does not fall.
    pub node_dead :
        (i : ℕ) (r : Raft S)
        → (nodes i).current_term ≤ r.current_term
        → (t k : ℕ) → Dead n a nodes t k
        → Dead n a (update nodes i r) t k
    node_dead i r le t k = Dead_mono n a a nodes (update nodes i r) t k (λ v lt.
        elim (update_cases nodes i r v) [
          | inl (q, at) ↦ (rw at (omega (arith, ap (λ j. (nodes j).current_term) q)), omega arith)
          | inr (ne, at) ↦ (rw at lt, omega arith)
        ])

    pub Acked-Calm :
        (i : ℕ) (r : Raft S)
        → Calm (nodes i) r
        → Acked n g a nodes calls
        → Acked n g a (update nodes i r) calls
    Acked-Calm i r q v =
        let up = node_dead i r q.term in
        let all : (c : ℕ) → Voter (Dead n a (update nodes i r)) g a calls c (nodes c) =
          λ c. Voter-mono _ _ g a calls c (nodes c) up (v.voters c) in
        record {
          voters =
              update_all (λ c s. Voter (Dead n a (update nodes i r)) g a calls c s) nodes i r all
                (Voter-Calm _ g a calls i (nodes i) r q (all i));
          history = History_mono _ _ g a up v.history;
        }

    pub Acked-call :
        (c t p : ℕ) (w : Call)
        → Asked g t w (nodes c)
        → Backs (Dead n a nodes) g a t p w (nodes c)
        → Acked n g a nodes calls
        → Acked n g a nodes (set_call c t p w calls)
    Acked-call c t p w asks backs v = record {
      voters = λ d.
          let old = v.voters d in
          record {
            low = old.low;
            within = old.within;
            kept = old.kept;
            asked = λ u q. elim (set_call_cases c t p w calls d u q) [
              | inl (e, ec, et, ep) ↦ rw (e, ← ec, ← et) asks
              | inr e ↦ rw e (old.asked u q)
            ];
            granted = λ u q. elim (set_call_cases c t p w calls d u q) [
              | inl (e, ec, et, ep) ↦ rw (e, ← ec, ← et, ← ep) backs
              | inr e ↦ rw e (old.granted u q)
            ];
          };
      history = v.history;
    }
