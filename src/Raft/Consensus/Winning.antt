-- ===== src/Raft/Consensus/Winning.antt =====
-- A candidate of a cluster (raft/election.go) that wins: its log has what may have been chosen in an
-- earlier term.
use mathlib.Core.Path.{subst}
use distrib_kv.Prelude.{
  ℕ, ◌*◌, ◌≤◌, ◌<◌, ◌≡◌, ◌≢◌, refl, sym, ap, ◌∙◌, inl, inr, List, [], none, some, true, leb, ltb,
  ◌&&◌, arith, length,
}
use distrib_kv.Raft.Types.{LogEntry, AppendEntriesRequest}
use distrib_kv.Raft.Node.{Raft}
use distrib_kv.Raft.Log.{log_at_bounds}
use distrib_kv.Raft.Cluster.{Calls, update}
use distrib_kv.Raft.Cluster.Tally.{is_backing, tally, backing-grant}
use distrib_kv.Raft.Cluster.Invariant.{Inv, update_all}
use distrib_kv.Raft.Replicas.Terms.{Terms, view, Extends}
use distrib_kv.Raft.Replicas.Invariant.{Logs}
use distrib_kv.Raft.Replicas.Handlers.{Elected}
use distrib_kv.Raft.Replicas.Crowning.{crowned, crowned-Extends, update_cases}
use distrib_kv.Raft.Consensus.Counting.{count_mono, tally-eq-count, search_below}
use distrib_kv.Raft.Consensus.Prefix.{Entry}
use distrib_kv.Raft.Consensus.Settled.{Acks, Dead, Safe, Safe-Extends}
use distrib_kv.Raft.Consensus.Invariant.{Acked, Voter, Running, Calm, Voter-Calm, node_dead}
use distrib_kv.Raft.Consensus.Growth.{Unmoved, Voter-Unmoved}

module _ {S : Type 0} (n : ℕ) (g : Terms) (a : Acks) (nodes : ℕ → Raft S) (calls : Calls)
    (sent : List AppendEntriesRequest) (c : ℕ) (r : Raft S) (el : Elected (nodes c) r)
    (run : Running g r.current_term (nodes c)) (inv : Inv n nodes calls)
    (logs : Logs n g nodes calls sent) (v : Acked n g a nodes calls) where
  abbrev won_term : ℕ
  won_term = r.current_term

  abbrev after_win : Terms
  after_win = crowned g won_term c r.log

  empty_before : g.log won_term ≡ []
  empty_before = logs.unwon won_term run.2

  win-Extends : Extends g after_win
  win-Extends = crowned-Extends g won_term c r.log run.2 empty_before

  up : (t k : ℕ) → Dead n a nodes t k → Dead n a (update nodes c r) t k
  up = node_dead n g a nodes calls c r el.term

  -- The new leader has written nothing in its term yet.
  win_back : (t k : ℕ) → Entry after_win t k → (won_term ≢ t) × Entry g t k
  win_back t k (e, at, same) = elim (update_cases g.log won_term r.log t) [
    | inl (q, is) ↦ absurd (
        let here : view (nodes c).log k ≡ some e = (rw (is, el.log) at at) in
        let root = (logs.replicas c).rooted k e here k (omega arith) in
        let none_there : g.log e.term ≡ [] = ap g.log (same ∙ sym q) ∙ empty_before in
        let there : view [] k ≡ some e = ap (λ l. view l k) (sym none_there) ∙ sym root ∙ here in
        omega (arith, log_at_bounds 0 [] k e there))
    | inr (ne, is) ↦ (ne, (e, rw is at at, same))
  ]

  win_unwon : (t : ℕ) → after_win.won t ≡ none → g.won t ≡ none
  win_unwon t h = elim (update_cases g.won won_term (some c) t) [
    | inl (q, at) ↦ cc
    | inr (ne, at) ↦ sym at ∙ h
  ]

  -- Either some voter had acknowledged the index, or none of them ever will.
  win_main :
      (t k : ℕ)
      → t < won_term
      → n ≤ 2 * tally n (calls c won_term)
      → Entry g t k
      → Safe (Dead n a nodes) g (nodes c).log t k
  win_main t k lt enough e =
      elim (search_below n (λ p. is_backing (calls c won_term p) && leb k (a t p))) [
        | inl (p, small, h) ↦
            let backs : is_backing (calls c won_term p) ≡ true = ground arith in
            (v.voters c).granted won_term p (backing-grant _ backs) run t k lt (ground arith) e
        | inr none_has ↦
            let le =
              count_mono n (λ p. is_backing (calls c won_term p))
                (λ p. ltb t (nodes p).current_term && ltb (a t p) k)
                (λ p small backs.
                  let out = none_has p small in
                  let held = inv.held c won_term p (backing-grant _ backs) in ground arith) in
            inr (omega (arith, tally-eq-count n (calls c won_term)))
      ]

  win-Unmoved :
      (d : ℕ)
      → Unmoved (Dead n a nodes) (Dead n a (update nodes c r)) g after_win a a calls d (nodes d)
  win-Unmoved d = record {
    extends = win-Extends;
    mono = up;
    unwon = win_unwon;
    low = (v.voters d).low;
    kept = λ t k le e. (le, (win_back t k e).1);
    granted = λ t p grant u k lt le e. (le, (win_back u k e).1);
  }

  win_sorted :
      (t k m : ℕ) (e x : LogEntry)
      → view (after_win.log t) k ≡ some e
      → view (after_win.log t) m ≡ some x
      → k ≤ m
      → e.term ≤ x.term
  win_sorted t k m e x at_k at_m le = elim (update_cases g.log won_term r.log t) [
    | inr (ne, is) ↦ v.history.sorted t k m e x (rw is at at_k) (rw is at at_m) le
    | inl (q, is) ↦
        let here : view (nodes c).log m ≡ some x = rw (is, el.log) at at_m in
        let first : view (nodes c).log k ≡ some e = rw (is, el.log) at at_k in
        let root = (logs.replicas c).rooted m x here in
        v.history.sorted x.term k m e x (sym (root k le) ∙ first)
          (sym (root m (omega arith)) ∙ here) le
  ]

  pub Acked-win :
      r.current_term ≡ (nodes c).current_term
      → n ≤ 2 * tally n (calls c won_term)
      → Acked n after_win a (update nodes c r) calls
  Acked-win same enough =
      let dead = Dead n a (update nodes c r) in
      let all : (d : ℕ) → Voter (Dead n a (update nodes c r)) after_win a calls d (nodes d) =
        λ d. Voter-Unmoved _ _ g after_win a a calls d (nodes d) (win-Unmoved d) (v.voters d) in
      let calm : Calm (nodes c) r = record {
        log = el.log;
        term = el.term;
        running = λ h. cc (el.role);
      } in
      record {
        voters =
            update_all (λ d s. Voter (Dead n a (update nodes c r)) after_win a calls d s) nodes c r
              all (Voter-Calm _ after_win a calls c (nodes c) r calm (all c));
        history = record {
          bound = λ t p. elim (update_cases g.log won_term r.log t) [
            | inl (q, is) ↦
                let b = v.history.bound t p in
                let z : length (g.log t) ≡ 0 = (rw (← q, empty_before) refl) in omega arith
            | inr (ne, is) ↦ rw is (v.history.bound t p)
          ];
          own = λ t i k won e.
              let (ne, e') = win_back t k e in
              elim (update_cases g.won won_term (some c) t) [
                | inl (q, _) ↦ absurd (ne q)
                | inr (_, at) ↦ v.history.own t i k (sym at ∙ won) e'
              ];
          sorted = win_sorted;
          ceiling = λ t k e at. elim (update_cases g.log won_term r.log t) [
            | inl (q, is) ↦ omega (arith, q, same, (v.voters c).within k e (rw (is, el.log) at at))
            | inr (ne, is) ↦ v.history.ceiling t k e (rw is at at)
          ];
          main = λ t u i k lt won e.
              let (ne, e') = win_back t k e in
              elim (update_cases g.log won_term r.log u) [
                | inl (q, is) ↦
                    subst (λ l. Safe (Dead n a (update nodes c r)) after_win l t k)
                      (sym (is ∙ el.log))
                      (Safe-Extends (Dead n a nodes) (Dead n a (update nodes c r)) g after_win
                        (nodes c).log t k win-Extends (up t k) e'
                        (win_main t k (omega arith) enough e'))
                | inr (far, is) ↦ elim (update_cases g.won won_term (some c) u) [
                  | inl (q, _) ↦ absurd (far q)
                  | inr (_, at) ↦
                      subst (λ l. Safe (Dead n a (update nodes c r)) after_win l t k) (sym is)
                        (Safe-Extends (Dead n a nodes) (Dead n a (update nodes c r)) g after_win
                          (g.log u) t k win-Extends (up t k) e'
                          (v.history.main t u i k lt (sym at ∙ won) e'))
                ]
              ];
        };
      }
