-- ===== src/Raft/Consensus/Safety.antt =====
-- A cluster (raft/) commits one log.
use mathlib.Core.Path.{subst}
use distrib_kv.Prelude.{
  ℕ, zero, suc, ◌+◌, ◌%◌, ◌≤◌, ◌<◌, ◌≡◌, refl, sym, ap, ◌∙◌, inl, inr, List, ◌∷◌, some, arith,
  length, get_elem?, lookup, insert, nat_key,
}
use distrib_kv.Raft.Types.{leader, AppendEntriesRequest}
use distrib_kv.Raft.Persister.{Persister}
use distrib_kv.Raft.Node.{Raft, Peer}
use distrib_kv.Raft.Sender.{send, plan_append, on_append_reply, ack_peer, back_off_peer}
use distrib_kv.Raft.Sender.Requests.{build_request-Describes}
use distrib_kv.Raft.Events.{append_reply, step}
use distrib_kv.Raft.Cluster.{Calls, update, is_calm}
use distrib_kv.Raft.Cluster.Steady.{Steady, step-Steady, length-insert_of_mem}
use distrib_kv.Raft.Cluster.Steps.{other-Inv}
use distrib_kv.Raft.Replicas.Handlers.{on_append_reply-Quiet}
use distrib_kv.Raft.Replicas.Invariant.{request_change}
use distrib_kv.Raft.Replicas.Matching.{planned, built}
use distrib_kv.Raft.Consensus.{
  Reply, Exchange, Turn, elects, acts, ships, merges, hears, Turns, begun, turned,
}
use distrib_kv.Raft.Consensus.Members.{
  Covered, Covered_below, Absent-insert, Roster-insert, Matches-insert, Matches-lookup,
}
use distrib_kv.Raft.Consensus.Handlers.{on_append_reply_cases}
use distrib_kv.Raft.Consensus.Commits.{Member, Member-update_commit_index}
use distrib_kv.Raft.Consensus.Elections.{Whole, election-Whole}
use distrib_kv.Raft.Consensus.Receiving.{merges-Whole}
use distrib_kv.Raft.Consensus.Acting.{own_cases, own_calm, kept_Whole, written_Whole, Quiet-Whole}

module _ {S : Type 0} (P : Persister S) (n : ℕ) where
  module _ (nodes : ℕ → Raft S) (calls : Calls) (sent : List AppendEntriesRequest)
      (replies : List Reply) (w : Whole n nodes calls sent replies) where
    ships-Whole :
        (i peer term commit : ℕ) (req : AppendEntriesRequest)
        → commit ≤ (nodes i).commit_index
        → plan_append peer term commit (nodes i) ≡ send req
        → Whole n nodes calls (req ∷ sent) replies
    ships-Whole i peer term commit req le h =
        let r = nodes i in
        let (leads, current, (next, lo, asked)) = planned P peer term commit r h in
        let (id, same) = built P term commit r next asked in
        let v = w.logs.replicas i in
        let now : r.current_term ≡ req.term = current ∙ sym same in
        let won : w.terms.won req.term ≡ some i = rw now at (v.leads leads) in
        let log : r.log ≡ w.terms.log req.term = elim (v.holds req.term won) [
          | inl past ↦ absurd (omega arith)
          | inr (_, _, log) ↦ log
        ] in
        let d = build_request-Describes term commit r next (rw v.base v.consecutive) lo asked in
        let below =
          Covered_below n w.terms w.acks r.log r.current_term r.commit_index req.leader_commit
            (omega (arith, d.2)) (w.commits.members i).covered in
        record {
          elections = w.elections;
          terms = w.terms;
          acks = w.acks;
          logs =
              request_change n w.terms nodes calls sent req
                (won ∙ ap some (sym (id ∙ w.elections.id i))) (rw (v.base, log) at d.0) w.logs;
          acked = w.acked;
          commits = record {
            members = w.commits.members;
            shipped = shipped_more req (rw (log, now) at below);
            told = w.commits.told;
          };
        }
      where
        shipped_more :
            (req : AppendEntriesRequest)
            → Covered n w.terms w.acks (w.terms.log req.term) req.term req.leader_commit
            → (k : ℕ) (q : AppendEntriesRequest) → get_elem? (req ∷ sent) k ≡ some q
            → Covered n w.terms w.acks (w.terms.log q.term) q.term q.leader_commit
        shipped_more req new zero q at =
            subst (λ x. Covered n w.terms w.acks (w.terms.log x.term) x.term x.leader_commit)
              (let e : req ≡ q = cc in e) new
        shipped_more req new (suc k) q at = w.commits.shipped k q at

    -- A leader that hears from a peer knows no more than the peer has acknowledged.
    heard_Member :
        (l : ℕ) (from : ℕ) (p p' : Peer)
        → lookup from (nodes l).peers ≡ some p
        → (nodes l).state ≡ leader
        → p'.match_index ≤ w.acks (nodes l).current_term from
        → Member n w.terms w.acks l (record (nodes l) { peers = insert from p' (nodes l).peers })
    heard_Member l from p p' found lead le =
        let m = w.commits.members l in
        record {
          company = (
            Absent-insert l from p' p (nodes l).peers found m.company.0,
            Roster-insert n from p' p (nodes l).peers found m.company.1,
          );
          inside = m.inside;
          matches = λ h.
              Matches-insert (w.acks (nodes l).current_term) from p' (nodes l).peers le
                (m.matches lead);
          covered = m.covered;
        }

    hears-Whole :
        (k : ℕ) (rep : Reply)
        → get_elem? replies k ≡ some rep
        → let l = rep.request.leader_id in
          Whole n
            (update nodes l (on_append_reply rep.from rep.request rep.response (nodes l)).0)
            calls
            sent
            replies
    unfolding step is_calm ack_peer back_off_peer
    hears-Whole k rep at =
        let l = rep.request.leader_id in
        let e = append_reply rep.from rep.request rep.response in
        let r' = (on_append_reply rep.from rep.request rep.response (nodes l)).0 in
        let q = on_append_reply-Quiet rep.from rep.request rep.response (nodes l) in
        let s : Steady (nodes l) r' = step-Steady P e (nodes l) refl in
        let inv = other-Inv P n nodes calls l e refl w.elections in
        elim (on_append_reply_cases rep.from rep.request rep.response (nodes l)) [
          | inl t ↦ kept_Whole P n nodes calls sent replies w l r' s inv q (inl t.peers) t.commit
          | inr (p, found, lead, term, case) ↦
              let m = w.commits.members l in
              let v = w.logs.replicas l in
              let known =
                Matches-lookup (w.acks (nodes l).current_term) rep.from p (nodes l).peers found
                  (m.matches lead) in
              Quiet-Whole P n nodes calls sent replies w l r' s inv q (elim case [
                | inl is ↦
                    subst (λ x. Member n w.terms w.acks l x) (sym is)
                      (heard_Member l rep.from p (back_off_peer p) found lead known)
                | inr (good, is) ↦
                    let end = rep.request.prev_log_index + length rep.request.entries in
                    let acked : end ≤ w.acks (nodes l).current_term rep.from =
                      rw term (w.commits.told k rep at good) in
                    let p' = ack_peer end p in
                    let mid : Raft S = record (nodes l) {
                      peers = insert rep.from p' (nodes l).peers;
                    } in
                    let won = v.leads lead in
                    let log : (nodes l).log ≡ w.terms.log (nodes l).current_term =
                      elim (v.holds (nodes l).current_term won) [
                        | inl past ↦ absurd (omega arith)
                        | inr (_, _, log) ↦ log
                      ] in
                    subst (λ x. Member n w.terms w.acks l x) (sym is)
                      (Member-update_commit_index n w.terms w.acks l mid
                        (omega (
                          arith,
                          length-insert_of_mem rep.from p' p (nodes l).peers found,
                          w.elections.size l,
                        ))
                        v.base (λ _. log)
                        (λ j _ x. w.acked.history.own (nodes l).current_term l j won x)
                        (heard_Member l rep.from p p' found lead (ground arith)))
              ])
        ]

  abbrev HoldsAll : Exchange S → Type 0
  HoldsAll s = Whole n s.system.nodes s.system.calls s.sent s.replies

  Turn-Whole : {s t : Exchange S} → n % 2 ≡ 1 → 1 < n → Turn P n s t → HoldsAll s → HoldsAll t
  unfolding step
  Turn-Whole {s} odd many (elects st e) w = election-Whole P n s.sent s.replies st odd many e w
  Turn-Whole {s} odd many (acts i e own) w =
      let nodes = s.system.nodes in
      let r = step P e (nodes i) in
      let st = step-Steady P e (nodes i) (own_calm P e own) in
      let inv = other-Inv P n nodes s.system.calls i e (own_calm P e own) w.elections in
      elim (own_cases P e (nodes i) own) [
        | inl (q, ps, c) ↦ kept_Whole P n nodes s.system.calls s.sent s.replies w i r st inv q ps c
        | inr (sub, p) ↦ written_Whole P n nodes s.system.calls s.sent s.replies w i r st inv sub p
      ]
  Turn-Whole {s} odd many (ships i peer term commit {req} le h) w =
      ships-Whole s.system.nodes s.system.calls s.sent s.replies w i peer term commit req le h
  Turn-Whole {s} odd many (merges i k req at far) w =
      let (won, described) = w.logs.requests k req at in
      merges-Whole P n odd s.system.nodes s.system.calls s.sent s.replies w i req won described
        (w.commits.shipped k req at) far
  Turn-Whole {s} odd many (hears k rep at) w =
      hears-Whole s.system.nodes s.system.calls s.sent s.replies w k rep at

  pub Turns-Whole : {s t : Exchange S} → n % 2 ≡ 1 → 1 < n → Turns P n s t → HoldsAll s → HoldsAll t
  Turns-Whole odd many begun w = w
  Turns-Whole odd many (turned ts t) w = Turn-Whole odd many t (Turns-Whole odd many ts w)
