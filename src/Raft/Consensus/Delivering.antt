-- ===== src/Raft/Consensus/Delivering.antt =====
-- A node of a cluster that merges the entries of a request (raft/replication.go): what it had
-- acknowledged stays in its log, unless no majority can acknowledge it any more.
use mathlib.Core.Path.{subst}
use distrib_kv.Prelude.{
  ℕ, suc, ◌+◌, ◌-◌, ◌≤◌, ◌<◌, ◌≡◌, refl, sym, ap, ◌∙◌, ◌⊎◌, inl, inr, List, [], ◌∷◌, none, some,
  Bool, false, leb, ltb, ◌==◌, Bool-cases, arith, length, ==_refl, ==_iff, get_elem?,
  lt_of_get_elem?,
}
use distrib_kv.Raft.Types.{LogEntry, AppendEntriesRequest}
use distrib_kv.Raft.Node.{Raft, log_at}
use distrib_kv.Raft.Log.{log_at-eq-get_elem?}
use distrib_kv.Raft.Replication.{merge_entries, merge_entry}
use distrib_kv.Raft.Replication.Matching.{Describes, merged_of}
use distrib_kv.Raft.Cluster.{Calls, update}
use distrib_kv.Raft.Cluster.Invariant.{Inv}
use distrib_kv.Raft.Replicas.Terms.{Terms, view}
use distrib_kv.Raft.Replicas.Invariant.{Logs}
use distrib_kv.Raft.Replicas.Crowning.{update_cases}
use distrib_kv.Raft.Replicas.Merging.{Delivered, history_reaches, follows_history}
use distrib_kv.Raft.Consensus.Prefix.{Agree, Entry, Entry-bounds}
use distrib_kv.Raft.Consensus.Settled.{Acks, Dead, Dead_mono, Safe, acknowledge, acknowledge_cases}
use distrib_kv.Raft.Consensus.Invariant.{Acked, Voter, History, History_mono}
use distrib_kv.Raft.Consensus.Growth.{Unmoved, Voter-Unmoved}

merge_entry_held :
    (base : ℕ) (log : List LogEntry) (idx : ℕ) (e : LogEntry) (m : Bool) (old : LogEntry)
    → get_elem? log (idx - base - 1) ≡ some old
    → old.term ≡ e.term
    → merge_entry base log idx e m ≡ (log, m)
unfolding merge_entry
merge_entry_held base log idx e m old found same =
    rw (found, merge_entry) (rw ((==_iff old.term e.term).1 same) refl)

-- Where the log has an entry of the same term for each of the request's, the merge leaves it.
merge_entries_held :
    (base : ℕ) (log : List LogEntry) (idx : ℕ) (es : List LogEntry) (m : Bool)
    {log' : List LogEntry} {m' : Bool}
    → ((j : ℕ) (e : LogEntry)
        → get_elem? es j ≡ some e
        → (old : LogEntry) × (log_at base log (idx + j) ≡ some old) × (old.term ≡ e.term))
    → merge_entries base log idx es m ≡ some (log', m')
    → log' ≡ log
unfolding merge_entries
merge_entries_held base log idx [] m h ran = cc
merge_entries_held base log idx (e ∷ es) m h ran = elim (Bool-cases (leb idx base)) [
  | inl low ↦ absurd (ground arith)
  | inr high ↦
      let (old, at, same) = h 0 e refl in
      let q : idx + 0 ≡ idx = omega arith in
      let found : get_elem? log (idx - base - 1) ≡ some old =
        sym (log_at-eq-get_elem? base log idx (ground arith)) ∙ (rw q at at) in
      merge_entries_held base log (idx + 1) es m
        (λ j x hx. (let q' : idx + suc j ≡ idx + 1 + j = omega arith in rw q' at (h (suc j) x hx)))
        (rw (high, merge_entry_held base log idx e m old found same) at ran)
]

module _ {S : Type 0} (n : ℕ) (g : Terms) (a : Acks) (nodes : ℕ → Raft S) (calls : Calls)
    (sent : List AppendEntriesRequest) (i : ℕ) (req : AppendEntriesRequest) (r : Raft S)
    (d : Delivered req (nodes i) r) (inv : Inv n nodes calls) (logs : Logs n g nodes calls sent)
    (v : Acked n g a nodes calls) (won : g.won req.term ≡ some req.leader_id)
    (described : Describes (view (g.log req.term)) req) where
  abbrev end : ℕ
  end = req.prev_log_index + length req.entries

  abbrev history : List LogEntry
  history = g.log req.term

  pub follows : (m : ℕ) → m ≤ end → view r.log m ≡ view history m
  follows = follows_history g i req (nodes i) r d (logs.replicas i) described (logs.terms req.term)

  term_rises : (nodes i).current_term ≤ req.term
  term_rises = elim d.role [
    | inl (_, same) ↦ omega (arith, d.term)
    | inr (_, later) ↦ omega (arith, d.term)
  ]

  -- What the log shares with the log of the request's term stays.
  pub keeps_prefix : (k : ℕ) → Agree k (nodes i).log history → Agree k r.log history
  keeps_prefix k h m le = elim (Bool-cases (leb m end)) [
    | inl low ↦ follows m (ground arith)
    | inr high ↦
        let w = logs.replicas i in
        let same : r.log ≡ (nodes i).log =
          merge_entries_held (nodes i).log_base (nodes i).log (req.prev_log_index + 1) req.entries
            false
            (λ j e at.
              let there = described.entries j e at in
              let fits = lt_of_get_elem? req.entries j e at in
              (
                e,
                subst (λ b. log_at b (nodes i).log (req.prev_log_index + 1 + j) ≡ some e)
                    (sym w.base) (h (req.prev_log_index + 1 + j) (ground arith) ∙ there),
                refl,
              ))
            d.merges in
        ap (λ l. view l m) same ∙ h m le
  ]

  module _ (top : ℕ) (at_least : a req.term i ≤ top)
      (at_most : (top ≤ a req.term i) ⊎ (top ≤ end)) where
    abbrev pub acks_after : Acks
    acks_after = acknowledge req.term i top a

    abbrev pub DeadAfter : ℕ → ℕ → Type 0
    DeadAfter = Dead n acks_after (update nodes i r)

    deliver_dead : (t k : ℕ) → Dead n a nodes t k → DeadAfter t k
    deliver_dead t k = Dead_mono n a acks_after nodes (update nodes i r) t k (λ p lt. (
      elim (update_cases nodes i r p) [
        | inl (q, at) ↦
            rw at (omega (arith, d.term, term_rises, ap (λ j. (nodes j).current_term) q))
        | inr (ne, at) ↦ rw at lt
      ],
      elim (acknowledge_cases req.term i top a t p) [
        | inl (_, qt, qp) ↦ absurd (omega (arith, term_rises, ap (λ j. (nodes j).current_term) qp))
        | inr e ↦ omega arith
      ],
    ))

    deliver-Unmoved :
        (c : ℕ)
        → i == c ≡ false
        → Unmoved (Dead n a nodes) DeadAfter g g a acks_after calls c (nodes c)
    deliver-Unmoved c far = record {
      extends = record { won = λ t j w. w; log = λ t k e at m le. refl };
      mono = deliver_dead;
      unwon = λ t h. h;
      low = λ t pos. elim (acknowledge_cases req.term i top a t c) [
        | inl (_, _, q) ↦ absurd (cc ((==_iff i c).1 q))
        | inr e ↦ (v.voters c).low t (omega arith)
      ];
      kept = λ t k le e. elim (acknowledge_cases req.term i top a t c) [
        | inl (_, _, q) ↦ absurd (cc ((==_iff i c).1 q))
        | inr same ↦ (omega arith, e)
      ];
      granted = λ t p grant u k lt le e. elim (acknowledge_cases req.term i top a u p) [
        | inl (_, qu, qp) ↦ absurd (
            let held = inv.held c t p grant in
            let rises = term_rises in
            let same = ap (λ j. (nodes j).current_term) qp in ground arith)
        | inr same ↦ (omega arith, e)
      ];
    }

    -- An entry of an earlier term that the node has acknowledged.
    deliver_earlier :
        (t k : ℕ) → t < req.term → k ≤ a t i → Entry g t k → Safe DeadAfter g r.log t k
    deliver_earlier t k lt le e = elim ((v.voters i).kept t k le e) [
      | inr dies ↦ inr (deliver_dead t k dies)
      | inl mine ↦ elim (v.history.main t req.term req.leader_id k lt won e) [
        | inr dies ↦ inr (deliver_dead t k dies)
        | inl theirs ↦ inl (λ m le'.
            keeps_prefix k (λ j lej. mine j lej ∙ sym (theirs j lej)) m le' ∙ theirs m le')
      ]
    ]

    deliver_kept : (t k : ℕ) → k ≤ acks_after t i → Entry g t k → Safe DeadAfter g r.log t k
    deliver_kept t k le e = elim (Bool-cases (t == req.term)) [
      | inr other ↦ elim (acknowledge_cases req.term i top a t i) [
        | inl (_, q, _) ↦ absurd (cc ((==_iff t req.term).1 (sym q)))
        | inr same ↦
            let low = (v.voters i).low t (omega (arith, (Entry-bounds g t k e).0)) in
            let rises = term_rises in deliver_earlier t k (ground arith) (omega arith) e
      ]
      | inl now ↦
          let q : t ≡ req.term = (==_iff t req.term).0 now in
          elim (Bool-cases (leb k end)) [
            | inl low ↦ inl (λ m le'. follows m (ground arith) ∙ ap (λ u. view (g.log u) m) (sym q))
            | inr high ↦
                let full : acks_after t i ≡ top = rw (q, ==_refl req.term, ==_refl i) refl in
                let before : k ≤ a t i = elim at_most [
                  | inl small ↦ omega (arith, full, ap (λ u. a u i) q)
                  | inr inside ↦ absurd (ground arith)
                ] in
                elim ((v.voters i).kept t k before e) [
                  | inr dies ↦ inr (deliver_dead t k dies)
                  | inl mine ↦ inl (λ m le'.
                      keeps_prefix k (λ j lej. mine j lej ∙ ap (λ u. view (g.log u) j) q) m le'
                      ∙ ap (λ u. view (g.log u) m) (sym q))
                ]
          ]
    ]

    receiver_within : (k : ℕ) (e : LogEntry) → view r.log k ≡ some e → e.term ≤ r.current_term
    receiver_within k e at = elim (Bool-cases (leb k end)) [
      | inl low ↦
          omega
            (arith, d.term, v.history.ceiling req.term k e (sym (follows k (ground arith)) ∙ at))
      | inr high ↦
          let (w, q) =
            merged_of req (nodes i) d.prev d.merges (let b = (logs.replicas i).base in omega arith)
              (rw (logs.replicas i).base (logs.replicas i).consecutive) described.consecutive in
          let b = (logs.replicas i).base in
          elim (w.beyond k (ground arith)) [
            | inl gone ↦
                absurd
                  (let at' : log_at (nodes i).log_base w.merged k ≡ some e = (rw (b, ← q) at) in cc)
            | inr kept ↦
                let old = (v.voters i).within k e (sym (ap (λ l. view l k) (q ∙ kept)) ∙ at) in
                let rises = term_rises in omega (arith, d.term)
          ]
    ]

    receiver_Voter : Voter DeadAfter g acks_after calls i r
    receiver_Voter = record {
      low = λ t pos. elim (acknowledge_cases req.term i top a t i) [
        | inl (_, q, _) ↦ omega (arith, d.term, q)
        | inr e ↦
            let old = (v.voters i).low t (omega arith) in
            let rises = term_rises in omega (arith, d.term)
      ];
      within = receiver_within;
      kept = deliver_kept;
      asked = λ t p q at run.
          absurd (let there : g.won req.term ≡ none = ap g.won (sym d.term ∙ run.1) ∙ run.2 in cc);
      granted = λ t p grant run.
          absurd (let there : g.won req.term ≡ none = ap g.won (sym d.term ∙ run.1) ∙ run.2 in cc);
    }

    deliver_History : History DeadAfter g acks_after
    deliver_History =
        let h = History_mono _ _ g a deliver_dead v.history in
        record {
          bound = λ t p. elim (acknowledge_cases req.term i top a t p) [
            | inr e ↦ omega (arith, e, h.bound t p)
            | inl (e, qt, qp) ↦
                let same = ap (λ u. length (g.log u)) qt in
                elim at_most [
                  | inl small ↦ omega (arith, e, same, v.history.bound req.term i)
                  | inr inside ↦ elim (Bool-cases (ltb 0 end)) [
                    | inr nothing ↦ ground arith
                    | inl some_entry ↦
                        let reach =
                          history_reaches g i req (nodes i) r d (logs.replicas i) described
                            (logs.terms req.term) (ground arith) in
                        omega (arith, e, same)
                  ]
                ]
          ];
          own = λ t j k won_t e. elim (acknowledge_cases req.term i top a t j) [
            | inr same ↦ omega (arith, same, h.own t j k won_t e)
            | inl (same, qt, qj) ↦
                let old = h.own t j k won_t e in
                let there : a t j ≡ a req.term i =
                  ap (λ u. a u j) (sym qt) ∙ ap (a req.term) (sym qj) in
                omega (arith, same)
          ];
          sorted = h.sorted;
          ceiling = h.ceiling;
          main = h.main;
        }

    pub Acked-deliver : Acked n g acks_after (update nodes i r) calls
    Acked-deliver = record {
      voters = λ c. elim (Bool-cases (i == c)) [
        | inl e ↦
            let q : i ≡ c = (==_iff i c).0 e in
            subst
              (λ j.
                Voter (Dead n acks_after (update nodes i r)) g acks_after calls j
                  (update nodes i r j))
              q (rw (==_refl i) receiver_Voter)
        | inr far ↦
            subst (λ s. Voter (Dead n acks_after (update nodes i r)) g acks_after calls c s)
              (sym (rw far refl))
              (Voter-Unmoved _ _ g g a acks_after calls c (nodes c) (deliver-Unmoved c far)
                (v.voters c))
      ];
      history = deliver_History;
    }
