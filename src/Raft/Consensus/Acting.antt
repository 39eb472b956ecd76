-- ===== src/Raft/Consensus/Acting.antt =====
-- The events of one node of a cluster (raft/), what a leader sends, and what it hears, keep the commit
-- indices sound.
use mathlib.Core.Path.{subst}
use distrib_kv.Prelude.{
  ℕ, ◌≤◌, ◌<◌, ◌≡◌, ◌≢◌, refl, sym, ap, ◌∙◌, ◌⊎◌, inl, inr, List, [], ◌∷◌, ◌++◌, some, true, ltb,
  Bool-cases, ==_refl, arith, length, length-append, nat_key,
}
use distrib_kv.Raft.Types.{LogEntry, follower, AppendEntriesRequest}
use distrib_kv.Raft.Persister.{Persister}
use distrib_kv.Raft.Node.{Raft, is_leader}
use distrib_kv.Raft.Lifecycle.{close_peers}
use distrib_kv.Raft.Log.{log_at-some}
use distrib_kv.Raft.Events.{
  Event, elect, lead, begin, halt, vote_reply, vote_rpc, append_rpc, install_rpc, append_reply,
  install_reply, submit, compact, apply, step,
}
use distrib_kv.Raft.Cluster.{Calls, update, is_calm}
use distrib_kv.Raft.Cluster.Invariant.{Inv}
use distrib_kv.Raft.Cluster.Steady.{Steady}
use distrib_kv.Raft.Replicas.Handlers.{
  Quiet, Quiet-Still, Submitted, start-Still, stop-Still, apply_pending-Still,
}
use distrib_kv.Raft.Replicas.Terms.{Terms, view-append, view_within}
use distrib_kv.Raft.Replicas.Invariant.{Replica-change, Replica-Quiet}
use distrib_kv.Raft.Replicas.Growing.{longer, longer-Extends, leader_log, written_Logs}
use distrib_kv.Raft.Consensus.{Reply, is_own}
use distrib_kv.Raft.Consensus.Prefix.{Entry-bounds}
use distrib_kv.Raft.Consensus.Settled.{Acks, acknowledge}
use distrib_kv.Raft.Consensus.Invariant.{Calm, Acked-Calm}
use distrib_kv.Raft.Consensus.Writing.{Acked-write}
use distrib_kv.Raft.Consensus.Members.{Covered, Rises, Company-close_peers, Matches-close_peers}
use distrib_kv.Raft.Consensus.Handlers.{
  start-Tame, stop_peers, stop_commit, apply_pending-Tame, Parts, replicate_command-Parts,
}
use distrib_kv.Raft.Consensus.Commits.{
  Member, Member-Rises, Member-Tame, Member-update_commit_index,
}
use distrib_kv.Raft.Consensus.Elections.{Whole, Commits-change, Rises-refl}
use distrib_kv.Raft.Consensus.Receiving.{Rises-acknowledge}

-- A covered index lies in the log, so that an entry at the end changes nothing.
Covered-append :
    (n : ℕ) (g : Terms) (a : Acks) (l : List LogEntry) (x : LogEntry) (t c : ℕ)
    → Covered n g a l t c
    → Covered n g a (l ++ x ∷ []) t c
Covered-append n g a l x t c (inl z) = inl z
Covered-append n g a l x t c (inr (w, k, lw, ck, e, ch, h)) = elim (Bool-cases (ltb 0 c)) [
  | inr zero_c ↦ inl (ground arith)
  | inl pos ↦
      let b = Entry-bounds g w k e in
      let (y, at) = log_at-some 0 (g.log w) c (ground arith) (omega arith) in
      let inside = view_within l c y (h c (omega arith) ∙ at) in
      inr (w, k, lw, ck, e, ch, λ m le. view-append l x m (omega arith) ∙ h m le)
]

module _ {S : Type 0} (P : Persister S) where
  -- An own event closes the peers at most, unless a command is accepted.
  pub own_cases :
      (e : Event) (r : Raft S)
      → is_own e ≡ true
      → (Quiet r (step P e r)
          × (((step P e r).peers ≡ r.peers) ⊎ ((step P e r).peers ≡ close_peers r.peers))
          × ((step P e r).commit_index ≡ r.commit_index))
        ⊎ (Submitted r (step P e r) × Parts r (step P e r))
  unfolding is_own step
  own_cases elect r h = cc
  own_cases lead r h = cc
  own_cases begin r h =
      let t = start-Tame r in inl (Quiet-Still (start-Still r), inl t.peers, t.commit)
  own_cases halt r h = inl (Quiet-Still (stop-Still r), stop_peers r, stop_commit r)
  own_cases (vote_reply term resp) r h = cc
  own_cases (vote_rpc req) r h = cc
  own_cases (append_rpc req) r h = cc
  own_cases (install_rpc req) r h = cc
  own_cases (append_reply peer req resp) r h = cc
  own_cases (install_reply peer req resp) r h = cc
  own_cases (submit cmd) r h = elim (replicate_command-Parts P cmd r) [
    | inl (q, t) ↦ inl (q, inl t.peers, t.commit)
    | inr p ↦ inr p
  ]
  own_cases (compact index d) r h = cc
  own_cases (apply room) r h =
      let t = apply_pending-Tame room r in
      inl (Quiet-Still (apply_pending-Still room r), inl t.peers, t.commit)

  pub own_calm : (e : Event) → is_own e ≡ true → is_calm e ≡ true
  unfolding is_own is_calm
  own_calm elect h = cc
  own_calm lead h = cc
  own_calm begin h = refl
  own_calm halt h = refl
  own_calm (vote_reply term resp) h = cc
  own_calm (vote_rpc req) h = cc
  own_calm (append_rpc req) h = cc
  own_calm (install_rpc req) h = cc
  own_calm (append_reply peer req resp) h = cc
  own_calm (install_reply peer req resp) h = cc
  own_calm (submit cmd) h = refl
  own_calm (compact index d) h = cc
  own_calm (apply room) h = refl

module _ {S : Type 0} (P : Persister S) (n : ℕ) (nodes : ℕ → Raft S) (calls : Calls)
    (sent : List AppendEntriesRequest) (replies : List Reply) (w : Whole n nodes calls sent replies)
    (i : ℕ) (r : Raft S) (steady : Steady (nodes i) r) (inv : Inv n (update nodes i r) calls) where
  still_inside : r.state ≢ follower → i < n
  still_inside h =
      (w.commits.members i).inside
        (λ f. elim steady.role [ inl g ↦ h g | inr (role, _, _) ↦ h (role ∙ f) ])

  -- A node that keeps its log.
  pub Quiet-Whole :
      Quiet (nodes i) r
      → Member n w.terms w.acks i r
      → Whole n (update nodes i r) calls sent replies
  Quiet-Whole q m =
      let calm : Calm (nodes i) r = record {
        log = q.log;
        term = elim q.role [ inl (_, same) ↦ omega arith | inr (_, later) ↦ omega arith ];
        running = λ h. elim steady.role [ inl f ↦ cc | inr (role, term, _) ↦ (sym role ∙ h, term) ];
      } in
      record {
        elections = inv;
        terms = w.terms;
        acks = w.acks;
        logs =
            Replica-change n w.terms nodes calls sent i r w.logs
              (Replica-Quiet w.terms i (nodes i) r q (w.logs.replicas i));
        acked = Acked-Calm n w.terms w.acks nodes calls i r calm w.acked;
        commits =
            Commits-change n w.terms w.terms w.acks w.acks nodes sent replies i r
              (Rises-refl w.terms w.acks) m w.commits;
      }

  pub kept_Whole :
      Quiet (nodes i) r
      → (r.peers ≡ (nodes i).peers) ⊎ (r.peers ≡ close_peers (nodes i).peers)
      → r.commit_index ≡ (nodes i).commit_index
      → Whole n (update nodes i r) calls sent replies
  unfolding is_leader
  kept_Whole q (inl ps) c = Quiet-Whole q (
      Member-Tame n w.terms w.acks i (nodes i) r q (record { peers = ps; commit = c }) still_inside
        (w.commits.members i))
  kept_Whole q (inr ps) c =
      let m = w.commits.members i in
      let mid : Raft S = record r { peers = (nodes i).peers } in
      let q' : Quiet (nodes i) mid = record { log = q.log; base = q.base; role = q.role } in
      let m' =
        Member-Tame n w.terms w.acks i (nodes i) mid q' (record { peers = refl; commit = c })
          still_inside m in
      Quiet-Whole q (record {
        company = rw ps (Company-close_peers n i (nodes i).peers m.company);
        inside = still_inside;
        matches =
            λ h. rw ps (Matches-close_peers (w.acks r.current_term) (nodes i).peers (m'.matches h));
        covered = m'.covered;
      })

  pub written_Whole :
      Submitted (nodes i) r → Parts (nodes i) r → Whole n (update nodes i r) calls sent replies
  written_Whole sub p =
      let t = (nodes i).current_term in
      let v = w.logs.replicas i in
      let g' = longer w.terms t sub.entry in
      let top = length (w.terms.log t ++ sub.entry ∷ []) in
      let a' = acknowledge t i top w.acks in
      let acked =
        Acked-write n w.terms w.acks nodes calls sent i r sub w.elections w.logs w.acked in
      let before = leader_log n w.terms nodes calls sent i r sub v in
      let bound = w.acked.history.bound t i in
      let more : length (w.terms.log t) ≤ top =
        omega (arith, length-append (w.terms.log t) (sub.entry ∷ [])) in
      let x : Rises w.terms g' w.acks a' = record {
        extends = longer-Extends w.terms t sub.entry;
        acks = (Rises-acknowledge w.terms w.acks t i top (omega arith)).acks;
      } in
      let m = Member-Rises n w.terms g' w.acks a' i (nodes i) x (w.commits.members i) in
      let mid = p.mid in
      let mid_log : mid.log ≡ (nodes i).log ++ sub.entry ∷ [] = p.log ∙ sub.log in
      let whole : mid.log ≡ g'.log mid.current_term =
        mid_log ∙ ap (λ l. l ++ sub.entry ∷ []) before ∙ sym (rw (p.term, ==_refl t) refl) in
      let won : w.terms.won t ≡ some i = v.leads sub.leading in
      let covered =
        Covered-append n g' a' (nodes i).log sub.entry t (nodes i).commit_index m.covered in
      let mm : Member n g' a' i mid = record {
        company = rw p.tame.peers m.company;
        inside = λ h. m.inside (λ f. h (p.state ∙ f));
        matches = λ h. rw (p.tame.peers, p.term) (m.matches (sym p.state ∙ h));
        covered = rw (mid_log, p.term, p.tame.commit) covered;
      } in
      let done =
        Member-update_commit_index n g' a' i mid
          (omega (arith, ap length p.tame.peers, w.elections.size i)) (p.base ∙ v.base) (λ _. whole)
          (λ k _ e. acked.history.own mid.current_term i k (ap w.terms.won p.term ∙ won) e) mm in
      record {
        elections = inv;
        terms = g';
        acks = a';
        logs = written_Logs n w.terms nodes calls sent i r sub w.logs;
        acked = acked;
        commits =
            Commits-change n w.terms g' w.acks a' nodes sent replies i r x
              (subst (λ s. Member n g' a' i s) (sym p.runs) done) w.commits;
      }
