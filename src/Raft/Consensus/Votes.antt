-- ===== src/Raft/Consensus/Votes.antt =====
-- The up-to-date test of `RequestVote` (raft/election.go): a candidate that passes it has what its voter
-- had acknowledged.
use distrib_kv.Prelude.{
  ℕ, ◌≤◌, ◌<◌, ◌≡◌, refl, sym, ap, ◌∙◌, inl, inr, List, [], none, some, leb, Bool-cases,
  Option-cases, arith, length,
}
use distrib_kv.Raft.Types.{
  LogEntry, RequestVoteRequest, RequestVoteResponse, Outcome, reply, fail, panic,
}
use distrib_kv.Raft.Persister.{Persister}
use distrib_kv.Raft.Node.{Raft, get_last_log_info}
use distrib_kv.Raft.Log.{log_at_bounds}
use distrib_kv.Raft.Election.{handle_request_vote}
use distrib_kv.Raft.Election.Votes.{UpToDate, handle_request_vote-Granted}
use distrib_kv.Raft.Cluster.{asked, answer}
use distrib_kv.Raft.Cluster.Tally.{is_grant}
use distrib_kv.Raft.Replicas.Terms.{Terms, view, view_within, Rooted}
use distrib_kv.Raft.Replicas.Invariant.{Replica}
use distrib_kv.Raft.Consensus.Prefix.{Entry, Entry-bounds, last_info}
use distrib_kv.Raft.Consensus.Settled.{Acks, Safe}
use distrib_kv.Raft.Consensus.Invariant.{History, Asked, Backs}

module _ (dead : ℕ → ℕ → Type 0) (g : Terms) (a : Acks) (history : History dead g a)
    (unwon : (t : ℕ) → g.won t ≡ none → g.log t ≡ []) where
  -- A log whose last entry is of a later term than the entry.
  later_Safe :
      (l : List LogEntry) (x : LogEntry) (u k : ℕ)
      → Rooted g l
      → view l (length l) ≡ some x
      → Entry g u k
      → u < x.term
      → Safe dead g l u k
  later_Safe l x u k rooted last (e, at, same) lt = elim (Option-cases (g.won x.term)) [
    | inl none_won ↦ absurd (
        let empty = unwon x.term none_won in
        let there : view [] (length l) ≡ some x =
          (rw empty at (sym (rooted (length l) x last (length l) (omega arith)) ∙ last)) in
        omega (arith, log_at_bounds 0 [] (length l) x there))
    | inr (i, won) ↦ elim (history.main u x.term i k lt won (e, at, same)) [
      | inr d ↦ inr d
      | inl agree ↦
          let there = sym (rooted (length l) x last (length l) (omega arith)) ∙ last in
          elim (Bool-cases (leb k (length l))) [
            | inl inside ↦ inl (λ m le. rooted (length l) x last m (ground arith) ∙ agree m le)
            | inr outside ↦ absurd (
                let order =
                  history.sorted x.term (length l) k x e there (agree k (omega arith) ∙ at)
                    (ground arith) in
                omega arith)
          ]
    ]
  ]

module _ {S : Type 0} (dead : ℕ → ℕ → Type 0) (g : Terms) (a : Acks) (history : History dead g a)
    (unwon : (t : ℕ) → g.won t ≡ none → g.log t ≡ []) where
  vote_Safe :
      (v c : ℕ) (rv rc : Raft S) (req : RequestVoteRequest) (u k : ℕ)
      → Replica g v rv
      → Replica g c rc
      → (req.last_log_index ≡ (get_last_log_info rc).0)
        × (req.last_log_term ≡ (get_last_log_info rc).1)
      → UpToDate req rv
      → Entry g u k
      → Safe dead g rv.log u k
      → Safe dead g rc.log u k
  vote_Safe v c rv rc req u k wv wc told newer entry (inr d) = inr d
  vote_Safe v c rv rc req u k wv wc told newer (e, at, same) (inl agree) =
      let here : view rv.log k ≡ some e = agree k (omega arith) ∙ at in
      let inside = view_within rv.log k e here in
      let pos = (Entry-bounds g u k (e, at, same)).0 in
      elim (last_info rv wv.consecutive) [
        | inl (empty, _) ↦ absurd (
            let h : view [] k ≡ some e = (rw empty at here) in
            omega (arith, log_at_bounds 0 [] k e h))
        | inr (y, last_y, info_y) ↦
            let iy : (get_last_log_info rv).0 ≡ length rv.log = ap (λ p. p.0) info_y in
            let ty : (get_last_log_info rv).1 ≡ y.term = ap (λ p. p.1) info_y in
            let order : e.term ≤ y.term =
              history.sorted y.term k (length rv.log) e y
                (sym (wv.rooted (length rv.log) y last_y k inside) ∙ here)
                (sym (wv.rooted (length rv.log) y last_y (length rv.log) (omega arith)) ∙ last_y)
                inside in
            elim (last_info rc wc.consecutive) [
              | inl (empty, info) ↦ absurd (
                  let ic : (get_last_log_info rc).0 ≡ 0 = ap (λ p. p.0) info in
                  let tc : (get_last_log_info rc).1 ≡ 0 = ap (λ p. p.1) info in ground arith)
              | inr (x, last_x, info_x) ↦
                  let ix : (get_last_log_info rc).0 ≡ length rc.log = ap (λ p. p.0) info_x in
                  let tx : (get_last_log_info rc).1 ≡ x.term = ap (λ p. p.1) info_x in
                  elim newer [
                    | inl later ↦
                        later_Safe dead g a history unwon rc.log x u k wc.rooted last_x
                          (e, at, same) (omega (arith, order, told.1))
                    | inr (equal, longer) ↦
                        let q : y.term ≡ x.term = omega (arith, told.1) in
                        let long : length rv.log ≤ length rc.log = omega (arith, told.0) in
                        inl (λ m le.
                          wc.rooted (length rc.log) x last_x m (omega arith)
                          ∙ sym (ap (λ t. view (g.log t) m) q)
                          ∙ sym (wv.rooted (length rv.log) y last_y m (omega arith))
                          ∙ agree m le)
                  ]
            ]
      ]

  -- The answer to a request of a candidate that is still running.
  pub answer-Backs :
      (P : Persister S) (p c t : ℕ) (req : RequestVoteRequest) (rp rc : Raft S)
      {out : Outcome RequestVoteResponse} {r' : Raft S}
      → handle_request_vote P req rp ≡ (out, r')
      → Replica g p rp
      → Replica g c rc
      → Asked g t (asked req) rc
      → ((u k : ℕ) → k ≤ a u p → Entry g u k → Safe dead g rp.log u k)
      → Backs dead g a t p (answer out) rc
  unfolding answer is_grant
  answer-Backs P p c t req rp rc {out = reply x} ran wp wc asks kept grant run u k lt le e =
      let ok = handle_request_vote-Granted P req rp ran grant in
      vote_Safe p c rp rc req u k wp wc (asks req refl run) ok.up_to_date e (kept u k le e)
  answer-Backs P p c t req rp rc {out = fail x} ran wp wc asks kept grant run u k lt le e = cc
  answer-Backs P p c t req rp rc {out = panic} ran wp wc asks kept grant run u k lt le e = cc
