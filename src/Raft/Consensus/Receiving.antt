-- ===== src/Raft/Consensus/Receiving.antt =====
-- A node of a cluster (raft/replication.go) that answers a request: its commit index stays sound.
use mathlib.Core.Path.{subst}
use distrib_kv.Prelude.{
  ℕ, zero, suc, ◌+◌, ◌%◌, ◌≤◌, ◌<◌, ◌≡◌, ◌≢◌, refl, sym, ap, ◌∙◌, ◌⊎◌, inl, inr, List, some, true,
  leb, ◌==◌, ==_iff, ==_refl, Bool-cases, arith, length, get_elem?, min,
}
use distrib_kv.Raft.Types.{
  follower, AppendEntriesRequest, AppendEntriesResponse, Outcome, reply, fail, panic,
}
use distrib_kv.Raft.Persister.{Persister}
use distrib_kv.Raft.Node.{Raft, is_leader}
use distrib_kv.Raft.Replication.{handle_append_entries}
use distrib_kv.Raft.Replication.Follower.{handle_append_entries_ok}
use distrib_kv.Raft.Replication.Matching.{Describes}
use distrib_kv.Raft.Events.{append_rpc, step}
use distrib_kv.Raft.Cluster.{Calls, update, is_calm}
use distrib_kv.Raft.Cluster.Invariant.{Inv}
use distrib_kv.Raft.Cluster.Steady.{Steady, step-Steady}
use distrib_kv.Raft.Cluster.Steps.{other-Inv}
use distrib_kv.Raft.Replicas.Terms.{Terms, view}
use distrib_kv.Raft.Replicas.Invariant.{Replica-change, Replica-Quiet}
use distrib_kv.Raft.Replicas.Merging.{
  Delivered, Declined, is_success, handle_append_entries_cases, Replica-Delivered,
}
use distrib_kv.Raft.Consensus.{Reply, note}
use distrib_kv.Raft.Consensus.Prefix.{Agree}
use distrib_kv.Raft.Consensus.Settled.{Acks, not_Dead, acknowledge, acknowledge_cases}
use distrib_kv.Raft.Consensus.Invariant.{Calm, Acked-Calm}
use distrib_kv.Raft.Consensus.Delivering.{keeps_prefix, Acked-deliver, follows}
use distrib_kv.Raft.Consensus.Members.{Covered, Rises, Covered-Rises, Covered_below, Matches-mono}
use distrib_kv.Raft.Consensus.Handlers.{Tame, handle_append_entries_tame}
use distrib_kv.Raft.Consensus.Commits.{Member, Member-Tame}
use distrib_kv.Raft.Consensus.Elections.{Whole, Commits-change, Rises-refl}

pub Rises-acknowledge :
    (g : Terms) (a : Acks) (t i k : ℕ) → a t i ≤ k → Rises g g a (acknowledge t i k a)
Rises-acknowledge g a t i k le = record {
  extends = record { won = λ t j w. w; log = λ t k e at m le. refl };
  acks = λ u v. elim (acknowledge_cases t i k a u v) [
    | inl (e, qt, qi) ↦ omega (arith, e, ap (λ w. a w v) qt, ap (a t) qi)
    | inr e ↦ omega (arith, e)
  ];
}

-- A reply that reports a success was noted with what it acknowledges.
told_note :
    (a : Acks) (i : ℕ) (req : AppendEntriesRequest) (out : Outcome AppendEntriesResponse)
    (rs : List Reply)
    → (is_success out ≡ true → req.prev_log_index + length req.entries ≤ a req.term i)
    → ((k : ℕ) (rep : Reply)
        → get_elem? rs k ≡ some rep
        → rep.response.success ≡ true
        → rep.request.prev_log_index + length rep.request.entries ≤ a rep.request.term rep.from)
    → (k : ℕ) (rep : Reply) → get_elem? (note i req out rs) k ≡ some rep
    → rep.response.success ≡ true
    → rep.request.prev_log_index + length rep.request.entries ≤ a rep.request.term rep.from
unfolding note is_success
told_note a i req (reply x) rs new old zero rep at ok =
    let q : record { from = i; request = req; response = x } ≡ rep = cc in
    subst
      (λ p.
        p.response.success ≡ true
        → p.request.prev_log_index + length p.request.entries ≤ a p.request.term p.from)
      q new ok
told_note a i req (reply x) rs new old (suc k) rep at ok = old k rep at ok
told_note a i req (fail x) rs new old k rep at ok = old k rep at ok
told_note a i req panic rs new old k rep at ok = old k rep at ok

success_reply :
    (out : Outcome AppendEntriesResponse)
    → is_success out ≡ true
    → (x : AppendEntriesResponse) × (out ≡ reply x) × (x.success ≡ true)
unfolding is_success
success_reply (reply x) h = (x, refl, h)
success_reply (fail x) h = cc
success_reply panic h = cc

module _ {S : Type 0} (P : Persister S) (n : ℕ) (odd : n % 2 ≡ 1) (nodes : ℕ → Raft S)
    (calls : Calls) (sent : List AppendEntriesRequest) (replies : List Reply)
    (w : Whole n nodes calls sent replies) (i : ℕ) (req : AppendEntriesRequest)
    (won : w.terms.won req.term ≡ some req.leader_id)
    (described : Describes (view (w.terms.log req.term)) req)
    (shipped : Covered n w.terms w.acks (w.terms.log req.term) req.term req.leader_commit) where
  abbrev after_ : Raft S
  after_ = (handle_append_entries P req (nodes i)).1

  abbrev outcome : Outcome AppendEntriesResponse
  outcome = (handle_append_entries P req (nodes i)).0

  steady : Steady (nodes i) after_
  unfolding step is_calm
  steady = step-Steady P (append_rpc req) (nodes i) refl

  received : Inv n (update nodes i after_) calls
  unfolding step is_calm
  received = other-Inv P n nodes calls i (append_rpc req) refl w.elections

  stays_inside : after_.state ≢ follower → i < n
  stays_inside h =
      (w.commits.members i).inside
        (λ f. elim steady.role [ inl g ↦ h g | inr (role, _, _) ↦ h (role ∙ f) ])

  Declined-Whole :
      Declined outcome (nodes i) after_
      → Whole n (update nodes i after_) calls sent (note i req outcome replies)
  Declined-Whole d =
      let tame : Tame (nodes i) after_ = record {
        peers = (handle_append_entries_tame P req (nodes i)).0;
        commit = d.commit;
      } in
      let up : (nodes i).current_term ≤ after_.current_term = elim d.quiet.role [
        | inl (_, same) ↦ omega arith
        | inr (_, later) ↦ omega arith
      ] in
      let calm : Calm (nodes i) after_ = record {
        log = d.quiet.log;
        term = up;
        running = λ h. elim steady.role [ inl f ↦ cc | inr (role, term, _) ↦ (sym role ∙ h, term) ];
      } in
      let c =
        Commits-change n w.terms w.terms w.acks w.acks nodes sent replies i after_
          (Rises-refl w.terms w.acks)
          (Member-Tame n w.terms w.acks i (nodes i) after_ d.quiet tame stays_inside
            (w.commits.members i))
          w.commits in
      record {
        elections = received;
        terms = w.terms;
        acks = w.acks;
        logs =
            Replica-change n w.terms nodes calls sent i after_ w.logs
              (Replica-Quiet w.terms i (nodes i) after_ d.quiet (w.logs.replicas i));
        acked = Acked-Calm n w.terms w.acks nodes calls i after_ calm w.acked;
        commits = record {
          members = c.members;
          shipped = c.shipped;
          told = told_note w.acks i req outcome replies (λ h. cc (d.failed)) c.told;
        };
      }

  module _ (d : Delivered req (nodes i) after_) where
    -- What the node has committed stays in its log.
    keep_Covered :
        (c : ℕ)
        → Covered n w.terms w.acks (nodes i).log (nodes i).current_term c
        → Covered n w.terms w.acks after_.log after_.current_term c
    keep_Covered c (inl z) = inl z
    keep_Covered c (inr (t, k, lt, ck, e, ch, h)) =
        let keep =
          keeps_prefix n w.terms w.acks nodes calls sent i req after_ d w.elections w.logs w.acked
            won described c in
        let rises : (nodes i).current_term ≤ req.term = elim d.role [
          | inl (_, same) ↦ omega (arith, d.term)
          | inr (_, later) ↦ omega (arith, d.term)
        ] in
        elim (Bool-cases (t == req.term)) [
          | inl now ↦
              let q : t ≡ req.term = (==_iff t req.term).0 now in
              let to = ap w.terms.log q in
              let h' : Agree c after_.log (w.terms.log req.term) =
                keep (λ m le. h m le ∙ ap (λ l. view l m) to) in
              inr (
                t,
                k,
                omega (arith, d.term),
                ck,
                e,
                ch,
                λ m le. h' m le ∙ ap (λ l. view l m) (sym to),
              )
          | inr before ↦
              let lt' : t < req.term = ground arith in
              elim (w.acked.history.main t req.term req.leader_id k lt' won e) [
                | inr dies ↦ absurd (not_Dead n w.acks nodes t k odd ch dies)
                | inl agree ↦
                    let h' = keep (λ m le. h m le ∙ sym (agree m (omega arith))) in
                    inr (
                      t,
                      k,
                      omega (arith, d.term),
                      ck,
                      e,
                      ch,
                      λ m le. h' m le ∙ agree m (omega arith),
                    )
              ]
        ]

    new_Covered :
        (b : ℕ)
        → b ≤ req.leader_commit
        → b ≤ req.prev_log_index + length req.entries
        → Covered n w.terms w.acks after_.log after_.current_term b
    new_Covered b small fits =
        elim (Covered_below n w.terms w.acks (w.terms.log req.term) req.term req.leader_commit b
          small shipped) [
            | inl z ↦ inl z
            | inr (t, k, lt, ck, e, ch, h) ↦ inr (
              t,
              k,
              omega (arith, d.term),
              ck,
              e,
              ch,
              λ m le.
                  follows n w.terms w.acks nodes calls sent i req after_ d w.elections w.logs
                    w.acked won described m (omega arith)
                  ∙ h m le,
            )
          ]

    commit_Covered : Covered n w.terms w.acks after_.log after_.current_term after_.commit_index
    commit_Covered = elim (Bool-cases (is_success outcome)) [
      | inr failed ↦
          let same = (handle_append_entries_tame P req (nodes i)).1 failed in
          subst (λ c. Covered n w.terms w.acks after_.log after_.current_term c) (sym same)
            (keep_Covered (nodes i).commit_index (w.commits.members i).covered)
      | inl done ↦
          let (x, is, good) = success_reply outcome done in
          let ran : handle_append_entries P req (nodes i) ≡ (reply x, after_) =
            ap (λ o. (o, after_)) is in
          let moved = (handle_append_entries_ok P req (nodes i) ran good).commit_index in
          let target = min req.leader_commit (req.prev_log_index + length req.entries) in
          elim (Bool-cases (leb target (nodes i).commit_index)) [
            | inl low ↦
                subst (λ c. Covered n w.terms w.acks after_.log after_.current_term c)
                  (let q : (nodes i).commit_index ≡ after_.commit_index = ground arith in q)
                  (keep_Covered (nodes i).commit_index (w.commits.members i).covered)
            | inr high ↦
                subst (λ c. Covered n w.terms w.acks after_.log after_.current_term c)
                  (let q : target ≡ after_.commit_index = ground arith in q)
                  (new_Covered target (omega arith) (omega arith))
          ]
    ]

    received_Member :
        (top : ℕ)
        → w.acks req.term i ≤ top
        → Member n w.terms (acknowledge req.term i top w.acks) i after_
    unfolding is_leader
    received_Member top le =
        let x = Rises-acknowledge w.terms w.acks req.term i top le in
        let m = w.commits.members i in
        let peers = (handle_append_entries_tame P req (nodes i)).0 in
        record {
          company = rw peers m.company;
          inside = stays_inside;
          matches = λ h. elim d.role [
            | inl (role, same) ↦
                rw (peers, same)
                  (Matches-mono _ _ (nodes i).peers (x.acks (nodes i).current_term)
                    (m.matches (sym role ∙ h)))
            | inr (out, later) ↦ absurd (ground arith)
          ];
          covered =
              Covered-Rises n w.terms w.terms w.acks (acknowledge req.term i top w.acks) after_.log
                after_.current_term after_.current_term after_.commit_index x (omega arith)
                commit_Covered;
        }

    delivered_Whole :
        (top : ℕ)
        → w.acks req.term i ≤ top
        → (top ≤ w.acks req.term i) ⊎ (top ≤ req.prev_log_index + length req.entries)
        → (is_success outcome ≡ true → req.prev_log_index + length req.entries ≤ top)
        → req.leader_id ≢ i
        → Whole n (update nodes i after_) calls sent (note i req outcome replies)
    delivered_Whole top le most enough far =
        let a' = acknowledge req.term i top w.acks in
        let full : a' req.term i ≡ top = rw (==_refl req.term, ==_refl i) refl in
        let c =
          Commits-change n w.terms w.terms w.acks a' nodes sent replies i after_
            (Rises-acknowledge w.terms w.acks req.term i top le) (received_Member top le)
            w.commits in
        record {
          elections = received;
          terms = w.terms;
          acks = a';
          logs = Replica-change n w.terms nodes calls sent i after_ w.logs (
              Replica-Delivered w.terms i req (nodes i) after_ d (w.logs.replicas i) described
                (w.logs.terms req.term) won far);
          acked =
              Acked-deliver n w.terms w.acks nodes calls sent i req after_ d w.elections w.logs
                w.acked won described top le most;
          commits = record {
            members = c.members;
            shipped = c.shipped;
            told = told_note a' i req outcome replies (λ h. omega (arith, full, enough h)) c.told;
          };
        }

  pub merges-Whole :
      req.leader_id ≢ i → Whole n (update nodes i after_) calls sent (note i req outcome replies)
  merges-Whole far = elim (handle_append_entries_cases P req (nodes i)) [
    | inl d ↦ Declined-Whole d
    | inr d ↦
        let end = req.prev_log_index + length req.entries in
        let had = w.acks req.term i in
        elim (Bool-cases (is_success outcome)) [
          | inr failed ↦
              delivered_Whole d had (omega arith) (inl (omega arith)) (λ h. cc (failed)) far
          | inl done ↦ elim (Bool-cases (leb end had)) [
            | inl low ↦
                delivered_Whole d had (omega arith) (inl (omega arith)) (λ h. ground arith) far
            | inr high ↦
                delivered_Whole d end (ground arith) (inr (omega arith)) (λ h. omega arith) far
          ]
        ]
  ]
