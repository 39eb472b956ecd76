-- ===== src/Raft/Consensus/Commits.antt =====
-- The commit indices of a cluster's nodes (raft/) rest on what majorities have acknowledged.
use mathlib.Core.Path.{subst}
use distrib_kv.Prelude.{
  ℕ, ◌+◌, ◌≤◌, ◌<◌, ◌≡◌, ◌≢◌, refl, sym, ap, ◌∙◌, inl, inr, List, some, true, arith, length,
  nat_key, get_elem?,
}
use distrib_kv.Raft.Types.{leader, follower, AppendEntriesRequest}
use distrib_kv.Raft.Node.{Raft, is_leader, log_at}
use distrib_kv.Raft.Replication.{update_commit_index}
use distrib_kv.Raft.Replication.Commit.{update_commit_index_safe}
use distrib_kv.Raft.Replicas.Terms.{Terms, view}
use distrib_kv.Raft.Replicas.Handlers.{Quiet, update_commit_index-Still}
use distrib_kv.Raft.Consensus.{Reply}
use distrib_kv.Raft.Consensus.Prefix.{Entry}
use distrib_kv.Raft.Consensus.Settled.{Acks, Chosen}
use distrib_kv.Raft.Consensus.Majority.{Matches, count_match_nodes}
use distrib_kv.Raft.Consensus.Members.{Company, Covered, Rises, Covered-Rises, Matches-mono}
use distrib_kv.Raft.Consensus.Handlers.{Tame}

module _ {S : Type 0} where
  pub record Member (n : ℕ) (g : Terms) (a : Acks) (i : ℕ) (r : Raft S) : Type 0 where
    pub company : Company n i r.peers
    pub inside : r.state ≢ follower → i < n
    pub matches : r.state ≡ leader → Matches (a r.current_term) r.peers
    pub covered : Covered n g a r.log r.current_term r.commit_index

  pub record Commits (n : ℕ) (g : Terms) (a : Acks) (nodes : ℕ → Raft S)
      (sent : List AppendEntriesRequest) (replies : List Reply) : Type 0 where
    pub members : (i : ℕ) → Member n g a i (nodes i)
    pub shipped :
        (k : ℕ) (req : AppendEntriesRequest)
        → get_elem? sent k ≡ some req
        → Covered n g a (g.log req.term) req.term req.leader_commit
    pub told :
        (k : ℕ) (rep : Reply)
        → get_elem? replies k ≡ some rep
        → rep.response.success ≡ true
        → rep.request.prev_log_index + length rep.request.entries ≤ a rep.request.term rep.from

  pub Member-Rises :
      (n : ℕ) (g g' : Terms) (a a' : Acks) (i : ℕ) (r : Raft S)
      → Rises g g' a a'
      → Member n g a i r
      → Member n g' a' i r
  Member-Rises n g g' a a' i r x m = record {
    company = m.company;
    inside = m.inside;
    matches = λ h.
        Matches-mono (a r.current_term) (a' r.current_term) r.peers (x.acks r.current_term)
          (m.matches h);
    covered =
        Covered-Rises n g g' a a' r.log r.current_term r.current_term r.commit_index x (omega arith)
          m.covered;
  }

  -- A node that changes neither its log, its peers nor its commit index, and does not begin to lead.
  pub Member-Tame :
      (n : ℕ) (g : Terms) (a : Acks) (i : ℕ) (r r' : Raft S)
      → Quiet r r'
      → Tame r r'
      → (r'.state ≢ follower → i < n)
      → Member n g a i r
      → Member n g a i r'
  unfolding is_leader
  Member-Tame n g a i r r' q t inside m = record {
    company = rw t.peers m.company;
    inside = inside;
    matches = λ h. elim q.role [
      | inl (role, term) ↦ rw (t.peers, term) (m.matches (sym role ∙ h))
      | inr (out, later) ↦ absurd (ground arith)
    ];
    covered =
        rw (q.log, t.commit)
          (Covered-Rises n g g a a r.log r.current_term r'.current_term r.commit_index
            (record {
              extends = record { won = λ t j w. w; log = λ t k e at m le. refl };
              acks = λ t v. omega arith;
            })
            (elim q.role [ inl (role, term) ↦ omega arith | inr (out, later) ↦ omega arith ])
            m.covered);
  }

  -- The commit rule of a leader whose log is the log of its term.
  pub Member-update_commit_index :
      (n : ℕ) (g : Terms) (a : Acks) (i : ℕ) (r : Raft S)
      → length r.peers + 1 ≡ n
      → r.log_base ≡ 0
      → (r.state ≡ leader → r.log ≡ g.log r.current_term)
      → ((k : ℕ) → r.state ≡ leader → Entry g r.current_term k → k ≤ a r.current_term i)
      → Member n g a i r
      → Member n g a i (update_commit_index r)
  Member-update_commit_index n g a i r size base log own m = elim (update_commit_index_safe r) [
    | inl same ↦ rw same m
    | inr (lead, ad) ↦
        let still = update_commit_index-Still r in
        let k = (update_commit_index r).commit_index in
        let mine = log lead in
        let there : view (g.log r.current_term) k ≡ some ad.entry =
          subst (λ l. view l k ≡ some ad.entry) mine
            (subst (λ b. log_at b r.log k ≡ some ad.entry) base ad.found) in
        let e : Entry g r.current_term k = (ad.entry, there, ad.term) in
        let many =
          count_match_nodes n i k (a r.current_term) r.peers (m.inside (λ h. cc)) m.company.0
            m.company.1 (own k lead e) (m.matches lead) in
        let chosen : Chosen n a r.current_term k = omega (arith, ad.majority) in
        let peers : (update_commit_index r).peers ≡ r.peers = ap (λ s. s.peers) ad.rest in
        record {
          company = rw peers m.company;
          inside = λ h. m.inside (λ f. h (still.state ∙ f));
          matches = λ h. rw (peers, still.term) (m.matches lead);
          covered = inr (
            r.current_term,
            k,
            omega (arith, still.term),
            omega arith,
            e,
            chosen,
            λ j _. ap (λ l. view l j) (still.log ∙ mine),
          );
        }
  ]
