-- ===== src/Raft/Consensus/Elections.antt =====
-- The elections of a cluster (raft/election.go) keep its commit indices sound.
use distrib_kv.Prelude.{
  ℕ, ◌+◌, ◌*◌, ◌%◌, ◌≤◌, ◌<◌, ◌≡◌, ◌≢◌, refl, sym, ap, ◌∙◌, inl, inr, List, some, Bool, true, false,
  ◌||◌, ltb, Bool-cases, ==_refl, arith,
}
use mathlib.Core.Path.{subst}
use distrib_kv.Raft.Types.{
  leader, follower, candidate, AppendEntriesRequest, RequestVoteRequest, RequestVoteResponse,
  Outcome,
}
use distrib_kv.Raft.Persister.{Persister}
use distrib_kv.Raft.Node.{Raft, Spawn, is_leader, get_last_log_info}
use distrib_kv.Raft.Log.{log_at-some}
use distrib_kv.Raft.Election.{
  become_candidate, become_leader, count_vote, handle_request_vote, vote_request, last_index,
}
use distrib_kv.Raft.Events.Same.{Same, become_candidate-Same}
use distrib_kv.Raft.Events.Progress.{handle_request_vote-Progress, count_vote-Progress}
use distrib_kv.Raft.Cluster.{
  Call, Calls, idle, asked, answered, counted, update, set_call, set_row, opened, answer, System,
  Step, campaigns, asks, answers, counts, wins, loses, other,
}
use distrib_kv.Raft.Cluster.Tally.{tally, is_backing, is_grant}
use distrib_kv.Raft.Cluster.Invariant.{Inv, update_all}
use distrib_kv.Raft.Cluster.Campaigns.{opened_plain}
use distrib_kv.Raft.Cluster.Handlers.{
  become_candidate-Campaigned, handle_request_vote-Steady, count_vote-Counted, become_leader-Led,
}
use distrib_kv.Raft.Cluster.Steady.{Steady}
use distrib_kv.Raft.Cluster.Steps.{answer_keeps}
use distrib_kv.Raft.Cluster.Safety.{Step-Inv}
use distrib_kv.Raft.Replicas.{is_election}
use distrib_kv.Raft.Replicas.Handlers.{
  Quiet, Elected, count_vote-Quiet, handle_request_vote-Quiet, become_leader_cases,
}
use distrib_kv.Raft.Replicas.Terms.{Terms, view, Extends}
use distrib_kv.Raft.Replicas.Invariant.{Logs, Replica-change, set_call_change}
use distrib_kv.Raft.Replicas.Crowning.{crown, crowned, crowned-Extends, unwon_before}
use distrib_kv.Raft.Replicas.Elections.{no_rival, Quiet-change, row_change, open_backs_none}
use distrib_kv.Raft.Consensus.{Reply}
use distrib_kv.Raft.Consensus.Prefix.{Entry-bounds}
use distrib_kv.Raft.Consensus.Settled.{Acks, Dead}
use distrib_kv.Raft.Consensus.Invariant.{Acked, Calm, Acked-Calm, Acked-call}
use distrib_kv.Raft.Consensus.Candidates.{Acked-campaign}
use distrib_kv.Raft.Consensus.Winning.{Acked-win}
use distrib_kv.Raft.Consensus.Votes.{answer-Backs}
use distrib_kv.Raft.Consensus.Members.{
  Covered, Rises, Covered-Rises, Company-reset_peers, Matches-reset_peers,
}
use distrib_kv.Raft.Consensus.Handlers.{
  Tame, count_vote-Tame, handle_request_vote-Tame, become_candidate_peers, become_leader_peers,
}
use distrib_kv.Raft.Consensus.Commits.{Member, Commits, Member-Rises, Member-Tame}

-- A covered part of the log of a term stays covered when that log grows.
pub Covered-history :
    (n : ℕ) (g g' : Terms) (a a' : Acks) (t c : ℕ)
    → Rises g g' a a'
    → Covered n g a (g.log t) t c
    → Covered n g' a' (g'.log t) t c
Covered-history n g g' a a' t c x (inl z) = inl z
Covered-history n g g' a a' t c x (inr (w, k, lw, ck, e, ch, h)) = elim (Bool-cases (ltb 0 c)) [
  | inr zero_c ↦ inl (ground arith)
  | inl pos ↦
      let b = Entry-bounds g w k e in
      let (y, at) = log_at-some 0 (g.log w) c (ground arith) (omega arith) in
      let mine : view (g.log t) c ≡ some y = h c (omega arith) ∙ at in
      elim (Covered-Rises n g g' a a' (g.log t) t t c x (omega arith)
        (inr (w, k, lw, ck, e, ch, h))) [
          | inl z ↦ inl z
          | inr (w', k', lw', ck', e', ch', h') ↦
              inr (w', k', lw', ck', e', ch', λ m le. x.extends.log t c y mine m le ∙ h' m le)
        ]
]

pub Rises-refl : (g : Terms) (a : Acks) → Rises g g a a
Rises-refl g a = record {
  extends = record { won = λ t j w. w; log = λ t k e at m le. refl };
  acks = λ t v. omega arith;
}

module _ {S : Type 0} where
  pub Commits-change :
      (n : ℕ) (g g' : Terms) (a a' : Acks) (nodes : ℕ → Raft S) (sent : List AppendEntriesRequest)
      (replies : List Reply) (i : ℕ) (r : Raft S)
      → Rises g g' a a'
      → Member n g' a' i r
      → Commits n g a nodes sent replies
      → Commits n g' a' (update nodes i r) sent replies
  Commits-change n g g' a a' nodes sent replies i r x here v = record {
    members =
        update_all (λ j s. Member n g' a' j s) nodes i r
          (λ j. Member-Rises n g g' a a' j (nodes j) x (v.members j)) here;
    shipped =
        λ k req at. Covered-history n g g' a a' req.term req.leader_commit x (v.shipped k req at);
    told = λ k rep at ok. omega (arith, v.told k rep at ok, x.acks rep.request.term rep.from);
  }

  -- Everything that holds of a state of a cluster.
  pub record Whole (n : ℕ) (nodes : ℕ → Raft S) (calls : Calls) (sent : List AppendEntriesRequest)
      (replies : List Reply) : Type 0 where
    pub elections : Inv n nodes calls
    pub terms : Terms
    pub acks : Acks
    pub logs : Logs n terms nodes calls sent
    pub acked : Acked n terms acks nodes calls
    pub commits : Commits n terms acks nodes sent replies

module _ {S : Type 0} where
  -- Only a candidate takes leadership.
  become_leader_from :
      (r : Raft S) → r.state ≢ leader → (become_leader r).0.state ≡ leader → r.state ≡ candidate
  unfolding become_leader
  become_leader_from r before after_ = ground arith

  become_leader_live :
      (r : Raft S) {r' : Raft S} → r.state ≡ follower → (become_leader r).0 ≡ r' → Elected r r' → ⊥
  become_leader_live r {r'} f is el =
      cc (become_leader_from r el.before (ap (λ s. s.state) is ∙ el.role))

module _ {S : Type 0} (P : Persister S) (n : ℕ) (odd : n % 2 ≡ 1) (many : 1 < n)
    (nodes : ℕ → Raft S) (calls : Calls) (sent : List AppendEntriesRequest) (replies : List Reply)
    (w : Whole n nodes calls sent replies) where
  -- A node that keeps its log, its peers and its commit index.
  same-Commits :
      (i : ℕ) (r : Raft S)
      → Quiet (nodes i) r
      → Tame (nodes i) r
      → (r.state ≢ follower → i < n)
      → Commits n w.terms w.acks (update nodes i r) sent replies
  same-Commits i r q t inside =
      Commits-change n w.terms w.terms w.acks w.acks nodes sent replies i r
        (Rises-refl w.terms w.acks)
        (Member-Tame n w.terms w.acks i (nodes i) r q t inside (w.commits.members i)) w.commits

  campaigns-Whole :
      (c : ℕ) (r : Raft S) (spawns : List Spawn)
      → c < n
      → (nodes c).shutdown || is_leader (nodes c) ≡ false
      → become_candidate P (nodes c) ≡ (r, spawns)
      → let calls' = set_row c ((nodes c).current_term + 1) (opened c spawns) calls in
        Inv n (update nodes c r) calls' → Whole n (update nodes c r) calls' sent replies
  unfolding is_leader
  campaigns-Whole c r spawns lt live e inv =
      let k = become_candidate-Campaigned P (nodes c) live e in
      let same : Same (nodes c) r = rw e at (become_candidate-Same P (nodes c)) in
      let t = (nodes c).current_term + 1 in
      let calls' = set_row c t (opened c spawns) calls in
      let cand : r.state ≡ candidate = elim k.alone [
        | inl s ↦ s
        | inr empty ↦ absurd (omega (arith, w.elections.size c))
      ] in
      let q : Quiet (nodes c) r = record {
        log = same.log;
        base = same.base;
        role = inr (ground arith, omega (arith, k.term));
      } in
      let plain = opened_plain P n nodes calls c spawns in
      let tame : Tame (nodes c) r =
        elim (let p = become_candidate_peers P (nodes c) live in (rw e at p)) [
          | inl (_, t0) ↦ t0
          | inr leads ↦ cc
        ] in
      record {
        elections = inv;
        terms = w.terms;
        acks = w.acks;
        logs =
            Quiet-change P n odd w.terms nodes sent calls' c r q
              (row_change P n odd w.terms nodes sent calls c (opened c spawns) w.logs);
        acked =
            subst
              (λ u. Acked n w.terms w.acks (update nodes c r) (set_row c u (opened c spawns) calls))
              k.term
              (Acked-campaign n w.terms w.acks nodes calls c r (opened c spawns) same.log
                (omega (arith, k.term)) (λ q. (plain q).0) (λ q. (plain q).2) w.acked);
        commits = same-Commits c r q tame (λ _. lt);
      }

  answers-Whole :
      (c t p : ℕ) (req : RequestVoteRequest) (out : Outcome RequestVoteResponse) (r : Raft S)
      → calls c t p ≡ asked req
      → handle_request_vote P req (nodes p) ≡ (out, r)
      → Inv n (update nodes p r) (set_call c t p (answer out) calls)
      → Whole n (update nodes p r) (set_call c t p (answer out) calls) sent replies
  unfolding is_backing
  answers-Whole c t p req out r at e inv =
      let q : Quiet (nodes p) r = rw e at (handle_request_vote-Quiet P req (nodes p)) in
      let s : Steady (nodes p) r = rw e at (handle_request_vote-Steady P req (nodes p)) in
      let tame : Tame (nodes p) r = rw e at (handle_request_vote-Tame P req (nodes p)) in
      let m : (nodes p).current_term ≤ r.current_term =
        (let b = handle_request_vote-Progress P req (nodes p) in (rw e at b).term) in
      let calm : Calm (nodes p) r = record {
        log = q.log;
        term = m;
        running = λ h. elim s.role [ inl f ↦ cc | inr (role, term, _) ↦ (sym role ∙ h, term) ];
      } in
      let v = (w.acked.voters p).kept in
      let backs =
        answer-Backs (Dead n w.acks nodes) w.terms w.acks w.acked.history w.logs.unwon P p c t req
          (nodes p) (nodes c) e (w.logs.replicas p) (w.logs.replicas c)
          (rw at at ((w.acked.voters c).asked t p)) v in
      let first =
        Acked-call n w.terms w.acks nodes calls c t p (answer out)
          (λ q' h. absurd ((answer_keeps P n out).0 q' h)) backs w.acked in
      record {
        elections = inv;
        terms = w.terms;
        acks = w.acks;
        logs =
            set_call_change n w.terms (update nodes p r) calls sent c t p (answer out) (rw at refl)
              (Quiet-change P n odd w.terms nodes sent calls p r q w.logs);
        acked =
            Acked-Calm n w.terms w.acks nodes (set_call c t p (answer out) calls) p r calm first;
        commits = same-Commits p r q tame (λ h.
            (w.commits.members p).inside
              (λ f. elim s.role [ inl g ↦ h g | inr (role, _, _) ↦ h (role ∙ f) ]));
      }

  counts-Whole :
      (c t p : ℕ) (a : RequestVoteResponse) (r : Raft S) (won : Bool)
      → calls c t p ≡ answered a
      → count_vote t a (nodes c) ≡ (r, won)
      → Inv n (update nodes c r) (set_call c t p (counted a won) calls)
      → Whole n (update nodes c r) (set_call c t p (counted a won) calls) sent replies
  unfolding is_backing is_grant
  counts-Whole c t p a r won at e inv =
      let q : Quiet (nodes c) r = rw e at (count_vote-Quiet t a (nodes c)) in
      let tame : Tame (nodes c) r = rw e at (count_vote-Tame t a (nodes c)) in
      let m : (nodes c).current_term ≤ r.current_term =
        (let b = count_vote-Progress t a (nodes c) in (rw e at b).term) in
      let role = (count_vote-Counted t a (nodes c) e).2 in
      let calm : Calm (nodes c) r = record {
        log = q.log;
        term = m;
        running = λ h. elim role [ inl f ↦ cc | inr (st, term, _) ↦ (sym st ∙ h, term) ];
      } in
      let first =
        Acked-call n w.terms w.acks nodes calls c t p (counted a won) (λ q' h. cc)
          (rw at at ((w.acked.voters c).granted t p)) w.acked in
      record {
        elections = inv;
        terms = w.terms;
        acks = w.acks;
        logs =
            set_call_change n w.terms (update nodes c r) calls sent c t p (counted a won)
              (rw at refl) (Quiet-change P n odd w.terms nodes sent calls c r q w.logs);
        acked =
            Acked-Calm n w.terms w.acks nodes (set_call c t p (counted a won) calls) c r calm first;
        commits = same-Commits c r q tame (λ h.
            (w.commits.members c).inside
              (λ f. elim role [ inl g ↦ h g | inr (st, _, _) ↦ h (st ∙ f) ]));
      }

  -- A call that changes without a vote.
  call-Whole :
      (c t p : ℕ) (v : Call)
      → is_backing (calls c t p) ≡ false
      → is_grant v ≡ false
      → ((req : RequestVoteRequest)
          → v ≡ asked req
          → (req.last_log_index ≡ (get_last_log_info (nodes c)).0)
            × (req.last_log_term ≡ (get_last_log_info (nodes c)).1))
      → Inv n nodes (set_call c t p v calls)
      → Whole n nodes (set_call c t p v calls) sent replies
  call-Whole c t p v fresh no_grant told inv = record {
    elections = inv;
    terms = w.terms;
    acks = w.acks;
    logs = set_call_change n w.terms nodes calls sent c t p v fresh w.logs;
    acked =
        Acked-call n w.terms w.acks nodes calls c t p v (λ req h run. told req h) (λ grant. cc)
          w.acked;
    commits = w.commits;
  }

  crowned_Member :
      (c : ℕ) (r : Raft S) (el : Elected (nodes c) r)
      → r ≡ (become_leader (nodes c)).0
      → r.current_term ≡ (nodes c).current_term
      → (g' : Terms) → Extends w.terms g'
      → Member n g' w.acks c r
  crowned_Member c r el is term g' x =
      let m =
        Member-Rises n w.terms g' w.acks w.acks c (nodes c)
          (record { extends = x; acks = λ t v. omega arith }) (w.commits.members c) in
      elim (become_leader_peers (nodes c)) [
        | inl same ↦ absurd (el.before (ap (λ s. s.state) (sym (is ∙ same)) ∙ el.role))
        | inr (ps, cm) ↦
            let peers = ap (λ s. s.peers) is ∙ ps in
            let commit = ap (λ s. s.commit_index) is ∙ cm in
            record {
              company =
                  rw peers
                    (Company-reset_peers n c (last_index (nodes c) + 1) (nodes c).peers m.company);
              inside = λ h. m.inside (λ f. become_leader_live (nodes c) f (sym is) el);
              matches = λ h. rw peers (
                  Matches-reset_peers (w.acks r.current_term) (last_index (nodes c) + 1)
                    (nodes c).peers);
              covered = rw (el.log, term, commit) m.covered;
            }
      ]

  wins-Whole :
      (c : ℕ)
      → Inv n (update nodes c (become_leader (nodes c)).0) calls
      → Whole n (update nodes c (become_leader (nodes c)).0) calls sent replies
  wins-Whole c inv = elim (become_leader_cases (nodes c)) [
    | inl same ↦
        let r = (become_leader (nodes c)).0 in
        record {
          elections = inv;
          terms = w.terms;
          acks = w.acks;
          logs = Replica-change n w.terms nodes calls sent c r w.logs (rw same (w.logs.replicas c));
          acked =
              Acked-Calm n w.terms w.acks nodes calls c r
                (rw same (record { log = refl; term = omega arith; running = λ h. (h, refl) }))
                w.acked;
          commits =
              Commits-change n w.terms w.terms w.acks w.acks nodes sent replies c r
                (Rises-refl w.terms w.acks) (rw same (w.commits.members c)) w.commits;
        }
    | inr el ↦
        let r = (become_leader (nodes c)).0 in
        let self : update nodes c r c ≡ r = rw (==_refl c) refl in
        let led = become_leader-Led (nodes c) in
        let b = inv.backed c in
        let enough : n ≤ 2 * tally n (calls c r.current_term) =
          (rw self at (b.leader_votes (rw self el.role))) in
        let first =
          unwon_before n w.terms nodes calls sent c r el
            (λ j won.
              no_rival P n odd (update nodes c r) calls c j r.current_term inv enough
                (w.logs.backing r.current_term j won))
            w.logs in
        let x = crowned-Extends w.terms r.current_term c r.log first (w.logs.unwon _ first) in
        record {
          elections = inv;
          terms = crowned w.terms r.current_term c r.log;
          acks = w.acks;
          logs = crown n w.terms nodes calls sent c r el enough first w.logs;
          acked =
              Acked-win n w.terms w.acks nodes calls sent c r el
                (become_leader_from (nodes c) el.before el.role, sym led.term, first) w.elections
                w.logs w.acked led.term enough;
          commits =
              Commits-change n w.terms (crowned w.terms r.current_term c r.log) w.acks w.acks nodes
                sent replies c r (record { extends = x; acks = λ t v. omega arith })
                (crowned_Member c r el refl led.term _ x) w.commits;
        }
  ]

module _ {S : Type 0} (P : Persister S) (n : ℕ) where
  pub election-Whole :
      (sent : List AppendEntriesRequest) (replies : List Reply) {s t : System S} (st : Step P n s t)
      → n % 2 ≡ 1
      → 1 < n
      → is_election P n st ≡ true
      → Whole n s.nodes s.calls sent replies
      → Whole n t.nodes t.calls sent replies
  unfolding is_election is_backing is_grant vote_request
  election-Whole sent replies {s} (campaigns c {r'} {spawns} lt live e) odd many held w =
      campaigns-Whole P n odd many s.nodes s.calls sent replies w c r' spawns lt live e
        (Step-Inv P n (campaigns c lt live e) w.elections)
  election-Whole sent replies {s} (asks c t p at) odd many held w =
      call-Whole P n odd many s.nodes s.calls sent replies w c t p
        (asked (vote_request t (s.nodes c))) (rw at refl) refl (λ req h. (cc, cc))
        (Step-Inv P n (asks c t p at) w.elections)
  election-Whole sent replies {s} (answers c t p req {out} {r'} at e) odd many held w =
      answers-Whole P n odd many s.nodes s.calls sent replies w c t p req out r' at e
        (Step-Inv P n (answers c t p req at e) w.elections)
  election-Whole sent replies {s} (counts c t p a {r'} {won} lt at e) odd many held w =
      counts-Whole P n odd many s.nodes s.calls sent replies w c t p a r' won at e
        (Step-Inv P n (counts c t p a lt at e) w.elections)
  election-Whole sent replies {s} (wins c t p a at same) odd many held w =
      wins-Whole P n odd many s.nodes s.calls sent replies w c
        (Step-Inv P n (wins c t p a at same) w.elections)
  election-Whole sent replies {s} (loses c t p open_call) odd many held w =
      call-Whole P n odd many s.nodes s.calls sent replies w c t p idle
        (open_backs_none _ open_call) refl (λ req h. cc)
        (Step-Inv P n (loses c t p open_call) w.elections)
  election-Whole sent replies {s} (other i e calm) odd many held w = cc
