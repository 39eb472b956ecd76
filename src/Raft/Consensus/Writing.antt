-- ===== src/Raft/Consensus/Writing.antt =====
-- A leader of a cluster (`ReplicateCommand` of raft/replication.go) that writes an entry of its term.
use mathlib.Core.Path.{subst}
use distrib_kv.Prelude.{
  ℕ, ◌+◌, ◌≤◌, ◌<◌, ◌≡◌, refl, sym, ap, ◌∙◌, ◌⊎◌, inl, inr, List, [], ◌∷◌, ◌++◌, some, true, false,
  leb, ltb, ◌&&◌, ◌==◌, Bool-cases, arith, length, length-append, ==_refl, ==_iff,
}
use distrib_kv.Raft.Types.{LogEntry, AppendEntriesRequest}
use distrib_kv.Raft.Node.{Raft}
use distrib_kv.Raft.Cluster.{Calls, update}
use distrib_kv.Raft.Cluster.Tally.{is_grant, is_backing, backing-grant}
use distrib_kv.Raft.Cluster.Invariant.{Inv}
use distrib_kv.Raft.Replicas.Terms.{Terms, view, Extends, view-append, view-end, view_within}
use distrib_kv.Raft.Replicas.Invariant.{Logs}
use distrib_kv.Raft.Replicas.Handlers.{Submitted}
use distrib_kv.Raft.Replicas.Crowning.{update_cases}
use distrib_kv.Raft.Replicas.Growing.{longer, longer-Extends, leader_log}
use distrib_kv.Raft.Consensus.Counting.{count_mono, tally-eq-count}
use distrib_kv.Raft.Consensus.Prefix.{Entry, Entry-bounds}
use distrib_kv.Raft.Consensus.Settled.{
  Acks, Dead, Dead_mono, Safe, Safe-Extends, acknowledge, acknowledge_cases,
}
use distrib_kv.Raft.Consensus.Invariant.{Acked, Voter, History}
use distrib_kv.Raft.Consensus.Growth.{Unmoved, Voter-Unmoved}

-- One more entry at the end changes nothing that an entry below it settles.
Safe-append :
    (dead : ℕ → ℕ → Type 0) (g : Terms) (l : List LogEntry) (x : LogEntry) (t k : ℕ)
    → Entry g t k
    → Safe dead g l t k
    → Safe dead g (l ++ x ∷ []) t k
Safe-append dead g l x t k e (inr d) = inr d
Safe-append dead g l x t k (e, at, same) (inl h) =
    let inside = view_within l k e (h k (omega arith) ∙ at) in
    inl (λ m le. view-append l x m (omega arith) ∙ h m le)

module _ {S : Type 0} (n : ℕ) (g : Terms) (a : Acks) (nodes : ℕ → Raft S) (calls : Calls)
    (sent : List AppendEntriesRequest) (i : ℕ) (r : Raft S) (sub : Submitted (nodes i) r)
    (inv : Inv n nodes calls) (logs : Logs n g nodes calls sent) (v : Acked n g a nodes calls) where
  abbrev own_term : ℕ
  own_term = (nodes i).current_term

  abbrev old_log : List LogEntry
  old_log = g.log own_term

  abbrev pub after_write : Terms
  after_write = longer g own_term sub.entry

  abbrev pub write_acks : Acks
  write_acks = acknowledge own_term i (length (old_log ++ sub.entry ∷ [])) a

  log_before : (nodes i).log ≡ old_log
  log_before = leader_log n g nodes calls sent i r sub (logs.replicas i)

  log_after : r.log ≡ old_log ++ sub.entry ∷ []
  log_after = rw (← log_before) sub.log

  write-Extends : Extends g after_write
  write-Extends = longer-Extends g own_term sub.entry

  one_more : length (old_log ++ sub.entry ∷ []) ≡ length old_log + 1
  one_more = omega (arith, length-append old_log (sub.entry ∷ []))

  write_back : (t k : ℕ) → k ≤ length (g.log t) → Entry after_write t k → Entry g t k
  write_back t k inside (e, at, same) =
      elim (update_cases g.log own_term (old_log ++ sub.entry ∷ []) t) [
        | inl (q, is) ↦
            let there : view (old_log ++ sub.entry ∷ []) k ≡ some e = rw is at at in
            let fits : k ≤ length old_log = omega (arith, ap (λ u. length (g.log u)) q) in
            let here : view old_log k ≡ some e =
              sym (view-append old_log sub.entry k fits) ∙ there in
            (e, ap (λ u. view (g.log u) k) (sym q) ∙ here, same)
        | inr (ne, is) ↦ (e, rw is at at, same)
      ]

  write_dead : (t k : ℕ) → Dead n a nodes t k → Dead n write_acks (update nodes i r) t k
  write_dead t k = Dead_mono n a write_acks nodes (update nodes i r) t k (λ p lt. (
    elim (update_cases nodes i r p) [
      | inl (q, at) ↦ rw at (omega (arith, sub.same_term, ap (λ j. (nodes j).current_term) q))
      | inr (ne, at) ↦ rw at lt
    ],
    elim (acknowledge_cases own_term i (length (old_log ++ sub.entry ∷ [])) a t p) [
      | inl (_, qt, qp) ↦ absurd (omega (arith, ap (λ j. (nodes j).current_term) qp))
      | inr e ↦ omega arith
    ],
  ))

  write_low : (t d : ℕ) → 0 < write_acks t d → t ≤ (nodes d).current_term
  write_low t d pos =
      elim (acknowledge_cases own_term i (length (old_log ++ sub.entry ∷ [])) a t d) [
        | inl (_, qt, qd) ↦ omega (arith, ap (λ j. (nodes j).current_term) qd)
        | inr e ↦ (v.voters d).low t (omega arith)
      ]

  -- A voter of a later term has acknowledged nothing new.
  write_granted :
      (c t p : ℕ)
      → is_grant (calls c t p) ≡ true
      → (u k : ℕ) → u < t
      → k ≤ write_acks u p
      → Entry after_write u k
      → (k ≤ a u p) × Entry g u k
  write_granted c t p grant u k lt le e =
      elim (acknowledge_cases own_term i (length (old_log ++ sub.entry ∷ [])) a u p) [
        | inl (_, qu, qp) ↦ absurd (
            let held = inv.held c t p grant in
            let same = ap (λ j. (nodes j).current_term) qp in ground arith)
        | inr q ↦
            let le' : k ≤ a u p = omega arith in
            (le', write_back u k (omega (arith, v.history.bound u p)) e)
      ]

  write-Unmoved :
      (d : ℕ)
      → i == d ≡ false
      → Unmoved
          (Dead n a nodes)
          (Dead n write_acks (update nodes i r))
          g
          after_write
          a
          write_acks
          calls
          d
          (nodes d)
  write-Unmoved d far = record {
    extends = write-Extends;
    mono = write_dead;
    unwon = λ t h. h;
    low = λ t. write_low t d;
    kept = λ t k le e.
        elim (acknowledge_cases own_term i (length (old_log ++ sub.entry ∷ [])) a t d) [
          | inl (_, qt, qd) ↦ absurd (cc ((==_iff i d).1 qd))
          | inr q ↦
              let le' : k ≤ a t d = omega arith in
              (le', write_back t k (omega (arith, v.history.bound t d)) e)
        ];
    granted = write_granted d;
  }

  -- Where an entry of the longer log stands: before the new one, or as the new one.
  written_cases :
      (k : ℕ) (e : LogEntry)
      → view (old_log ++ sub.entry ∷ []) k ≡ some e
      → (view old_log k ≡ some e) ⊎ ((k ≡ length old_log + 1) × (sub.entry ≡ e))
  written_cases k e at = elim (Bool-cases (leb k (length old_log))) [
    | inl low ↦ inl (sym (view-append old_log sub.entry k (ground arith)) ∙ at)
    | inr high ↦
        let bound = view_within (old_log ++ sub.entry ∷ []) k e at in
        let last : k ≡ length old_log + 1 = ground (arith, one_more, bound) in
        let there : view (old_log ++ sub.entry ∷ []) (length old_log + 1) ≡ some e =
          rw last at at in
        let end = view-end old_log sub.entry in inr (last, cc)
  ]

  write_ceiling : (t k : ℕ) (e : LogEntry) → view (after_write.log t) k ≡ some e → e.term ≤ t
  write_ceiling t k e at = elim (update_cases g.log own_term (old_log ++ sub.entry ∷ []) t) [
    | inr (ne, is) ↦ v.history.ceiling t k e (rw is at at)
    | inl (q, is) ↦ elim (written_cases k e (rw is at at)) [
      | inl old ↦ omega (arith, q, v.history.ceiling own_term k e old)
      | inr (_, new) ↦ omega (arith, q, sub.term, ap (λ x. x.term) new)
    ]
  ]

  write_sorted :
      (t k m : ℕ) (e x : LogEntry)
      → view (after_write.log t) k ≡ some e
      → view (after_write.log t) m ≡ some x
      → k ≤ m
      → e.term ≤ x.term
  write_sorted t k m e x at_k at_m le =
      elim (update_cases g.log own_term (old_log ++ sub.entry ∷ []) t) [
        | inr (ne, is) ↦ v.history.sorted t k m e x (rw is at at_k) (rw is at at_m) le
        | inl (q, is) ↦ elim (written_cases m x (rw is at at_m)) [
          | inr (_, new) ↦
              omega (arith, q, sub.term, ap (λ y. y.term) new, write_ceiling t k e at_k)
          | inl old_m ↦ elim (written_cases k e (rw is at at_k)) [
            | inl old_k ↦ v.history.sorted own_term k m e x old_k old_m le
            | inr (last, _) ↦ absurd (omega (arith, view_within old_log m x old_m))
          ]
        ]
      ]

  -- An index that the leader writes after a later term was won can not be chosen.
  late_dead :
      (u j k : ℕ)
      → own_term < u
      → g.won u ≡ some j
      → length old_log < k
      → Dead n write_acks (update nodes i r) own_term k
  late_dead u j k lt won high =
      let le =
        count_mono n (λ p. is_backing (calls j u p))
          (λ p. ltb own_term (update nodes i r p).current_term && ltb (write_acks own_term p) k)
          (λ p small backs.
            let held = inv.held j u p (backing-grant _ backs) in
            elim (acknowledge_cases own_term i (length (old_log ++ sub.entry ∷ [])) a own_term p) [
              | inl (_, _, qp) ↦
                  absurd (let same = ap (λ d. (nodes d).current_term) qp in ground arith)
              | inr e ↦
                  let b = v.history.bound own_term p in
                  elim (update_cases nodes i r p) [
                    | inl (qp, at) ↦
                        absurd (let same = ap (λ d. (nodes d).current_term) qp in ground arith)
                    | inr (ne, at) ↦
                        let t : (update nodes i r p).current_term ≡ (nodes p).current_term =
                          ap (λ s. s.current_term) at in
                        ground arith
                  ]
            ]) in
      omega (arith, logs.backing u j won, tally-eq-count n (calls j u))

  grown_Safe :
      (u t k : ℕ)
      → Entry after_write t k
      → Safe (Dead n write_acks (update nodes i r)) after_write (g.log u) t k
      → Safe (Dead n write_acks (update nodes i r)) after_write (after_write.log u) t k
  grown_Safe u t k e s = elim (update_cases g.log own_term (old_log ++ sub.entry ∷ []) u) [
    | inr (ne, is) ↦
        subst (λ l. Safe (Dead n write_acks (update nodes i r)) after_write l t k) (sym is) s
    | inl (q, is) ↦
        subst (λ l. Safe (Dead n write_acks (update nodes i r)) after_write l t k)
          (ap (λ w. g.log w ++ sub.entry ∷ []) (sym q) ∙ sym is)
          (Safe-append (Dead n write_acks (update nodes i r)) after_write (g.log u) sub.entry t k e
            s)
  ]

  write_main :
      (t u j k : ℕ)
      → t < u
      → g.won u ≡ some j
      → Entry after_write t k
      → Safe (Dead n write_acks (update nodes i r)) after_write (after_write.log u) t k
  write_main t u j k lt won e = elim (Bool-cases (leb k (length (g.log t)))) [
    | inl low ↦
        let e' = write_back t k (ground arith) e in
        grown_Safe u t k e (
          Safe-Extends (Dead n a nodes) (Dead n write_acks (update nodes i r)) g after_write
            (g.log u) t k write-Extends (write_dead t k) e' (v.history.main t u j k lt won e'))
    | inr high ↦ elim (update_cases g.log own_term (old_log ++ sub.entry ∷ []) t) [
      | inr (ne, is) ↦
          absurd
            (let b = (Entry-bounds after_write t k e).1 in let same = ap length is in ground arith)
      | inl (q, is) ↦ inr (
          subst (λ w. Dead n write_acks (update nodes i r) w k) q
            (late_dead u j k (omega arith) won (ground (arith, ap (λ w. length (g.log w)) q))))
    ]
  ]

  write_History : History (Dead n write_acks (update nodes i r)) after_write write_acks
  write_History = record {
    bound = λ t p. elim (acknowledge_cases own_term i (length (old_log ++ sub.entry ∷ [])) a t p) [
      | inl (e, qt, qp) ↦ elim (update_cases g.log own_term (old_log ++ sub.entry ∷ []) t) [
        | inl (_, is) ↦ omega (arith, e, ap length is)
        | inr (ne, _) ↦ absurd (ne qt)
      ]
      | inr e ↦
          let b = v.history.bound t p in
          elim (update_cases g.log own_term (old_log ++ sub.entry ∷ []) t) [
            | inl (q, is) ↦ omega (arith, e, one_more, ap length is, ap (λ w. length (g.log w)) q)
            | inr (_, is) ↦ omega (arith, e, ap length is)
          ]
    ];
    own = λ t j k won e.
        elim (acknowledge_cases own_term i (length (old_log ++ sub.entry ∷ [])) a t j) [
          | inl (eq, qt, qj) ↦
              let b = (Entry-bounds after_write t k e).1 in
              elim (update_cases g.log own_term (old_log ++ sub.entry ∷ []) t) [
                | inl (_, is) ↦ omega (arith, eq, ap length is)
                | inr (ne, _) ↦ absurd (ne qt)
              ]
          | inr eq ↦ elim (update_cases g.log own_term (old_log ++ sub.entry ∷ []) t) [
            | inr (ne, is) ↦ omega (
              arith,
              eq,
              v.history.own t j k won (let (x, at, same) = e in (x, rw is at at, same)),
            )
            | inl (q, is) ↦
                let mine : g.won own_term ≡ some i = (logs.replicas i).leads sub.leading in
                let theirs : g.won own_term ≡ some j = ap g.won q ∙ won in
                let same : i ≡ j = cc in
                let full : write_acks own_term i ≡ length (old_log ++ sub.entry ∷ []) =
                  rw (==_refl own_term, ==_refl i) refl in
                let eq' : write_acks t j ≡ write_acks own_term i =
                  ap (λ w. write_acks w j) (sym q) ∙ ap (write_acks own_term) (sym same) in
                omega (arith, (Entry-bounds after_write t k e).1, ap length is)
          ]
        ];
    sorted = write_sorted;
    ceiling = write_ceiling;
    main = write_main;
  }

  writer_Voter : Voter (Dead n write_acks (update nodes i r)) after_write write_acks calls i r
  writer_Voter = record {
    low = λ t pos. omega (arith, sub.same_term, write_low t i pos);
    within = λ k e at. elim (written_cases k e (rw log_after at at)) [
      | inl old ↦ omega (arith, sub.same_term, v.history.ceiling own_term k e old)
      | inr (_, new) ↦ omega (arith, sub.same_term, sub.term, ap (λ x. x.term) new)
    ];
    kept = λ t k le e. elim (update_cases g.log own_term (old_log ++ sub.entry ∷ []) t) [
      | inl (q, is) ↦ inl (λ m _. ap (λ l. view l m) (log_after ∙ sym is))
      | inr (ne, is) ↦
          elim (acknowledge_cases own_term i (length (old_log ++ sub.entry ∷ [])) a t i) [
            | inl (_, q, _) ↦ absurd (ne q)
            | inr eq ↦
                let e' : Entry g t k = (let (x, at, same) = e in (x, rw is at at, same)) in
                subst (λ l. Safe (Dead n write_acks (update nodes i r)) after_write l t k)
                  (sym sub.log)
                  (Safe-append (Dead n write_acks (update nodes i r)) after_write (nodes i).log
                    sub.entry t k e
                    (Safe-Extends (Dead n a nodes) (Dead n write_acks (update nodes i r)) g
                      after_write (nodes i).log t k write-Extends (write_dead t k) e'
                      ((v.voters i).kept t k (omega arith) e')))
          ]
    ];
    asked = λ t p req at run. cc (sub.role, run.0);
    granted = λ t p grant run. cc (sub.role, run.0);
  }

  pub Acked-write : Acked n after_write write_acks (update nodes i r) calls
  Acked-write = record {
    voters = λ d. elim (Bool-cases (i == d)) [
      | inl e ↦
          let q : i ≡ d = (==_iff i d).0 e in
          subst
            (λ j.
              Voter (Dead n write_acks (update nodes i r)) after_write write_acks calls j
                (update nodes i r j))
            q (rw (==_refl i) writer_Voter)
      | inr far ↦
          subst (λ s. Voter (Dead n write_acks (update nodes i r)) after_write write_acks calls d s)
            (sym (rw far refl))
            (Voter-Unmoved _ _ g after_write a write_acks calls d (nodes d) (write-Unmoved d far)
              (v.voters d))
    ];
    history = write_History;
  }
