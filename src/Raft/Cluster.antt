-- ===== src/Raft/Cluster.antt =====
-- The elections of a cluster (raft/election.go): the nodes, and the RequestVote call that one
-- goroutine of `sendRequestVote` makes to one peer in one election.
pub mod Tally
pub mod Steady
pub mod Handlers
pub mod Steps
pub mod Campaigns
pub mod Safety
pub mod Runs
pub mod Invariant
use distrib_kv.Prelude.{
  ℕ, zero, suc, ◌+◌, ◌<◌, ◌≡◌, List, [], ◌∷◌, Bool, true, false, ◌==◌, ◌&&◌, ◌||◌, if◌then◌else◌,
}
use distrib_kv.Raft.Types.{
  RequestVoteRequest, RequestVoteResponse, follower, Outcome, reply, fail, panic,
}
use distrib_kv.Raft.Persister.{Persister}
use distrib_kv.Raft.Node.{
  Raft, Spawn, request_vote, append_entries, install_snapshot, heartbeat, is_leader,
}
use distrib_kv.Raft.Election.{
  become_candidate, become_leader, vote_request, count_vote, handle_request_vote,
}
use distrib_kv.Raft.Events.{
  Event, elect, lead, begin, halt, vote_reply, vote_rpc, append_rpc, install_rpc, append_reply,
  install_reply, submit, compact, apply, step,
}

-- Where the call of a candidate to a peer stands. The candidate's own vote has the place of a call to
-- itself. `counted` keeps whether `sendRequestVote` goes on to `becomeLeader`.
pub data Call : Type 0 where
  idle asking own : Call
  asked : RequestVoteRequest → Call
  answered : RequestVoteResponse → Call
  counted : RequestVoteResponse → (wins : Bool) → Call

abbrev pub update {ℓ} : {A : Type ℓ} → (ℕ → A) → ℕ → A → ℕ → A
update f i a j = if i == j then a else f j

-- Calls by candidate, term and peer.
abbrev pub Calls : Type 0
Calls = ℕ → ℕ → ℕ → Call

abbrev pub set_call : ℕ → ℕ → ℕ → Call → Calls → Calls
set_call c t p v calls d u q = if c == d && (t == u && p == q) then v else calls d u q

abbrev pub set_row : ℕ → ℕ → (ℕ → Call) → Calls → Calls
set_row c t f calls d u q = if c == d && t == u then f q else calls d u q

-- A goroutine is started for the peer.
unfoldable pub is_asked : List Spawn → ℕ → Bool
is_asked [] p = false
is_asked (request_vote i term ∷ ss) p = i == p || is_asked ss p
is_asked (append_entries i term commit ∷ ss) p = is_asked ss p
is_asked (install_snapshot i term ∷ ss) p = is_asked ss p
is_asked (heartbeat ∷ ss) p = is_asked ss p

-- The calls of an election that begins.
unfoldable pub opened : ℕ → List Spawn → ℕ → Call
unfolding is_asked
opened c spawns p = if c == p then own else if is_asked spawns p then asking else idle

unfoldable pub answer : Outcome RequestVoteResponse → Call
answer (reply a) = answered a
answer (fail e) = idle
answer panic = idle

-- What stands between a goroutine and its reply; any of it may be lost.
unfoldable pub is_open : Call → Bool
is_open idle = false
is_open asking = true
is_open own = false
is_open (asked req) = true
is_open (answered a) = true
is_open (counted a wins) = false

-- The events that are no part of an election.
unfoldable pub is_calm : Event → Bool
is_calm elect = false
is_calm lead = false
is_calm begin = true
is_calm halt = true
is_calm (vote_reply term resp) = false
is_calm (vote_rpc req) = false
is_calm (append_rpc req) = true
is_calm (install_rpc req) = true
is_calm (append_reply peer req resp) = true
is_calm (install_reply peer req resp) = true
is_calm (submit cmd) = true
is_calm (compact index d) = true
is_calm (apply sends) = true

pub record System (S : Type 0) : Type 0 where
  pub nodes : ℕ → Raft S
  pub calls : Calls

module _ {S : Type 0} (P : Persister S) (n : ℕ) where
  -- One step of a cluster of the nodes below `n`. No node restarts. `wins` is the section of
  -- `becomeLeader`: any step may come between the count and it, but for one that changes the
  -- candidate's term.
  pub data Step (s : System S) : System S → Type 0 where
    campaigns :
        (c : ℕ) {r' : Raft S} {spawns : List Spawn}
        → c < n
        → (s.nodes c).shutdown || is_leader (s.nodes c) ≡ false
        → become_candidate P (s.nodes c) ≡ (r', spawns)
        → Step s (record {
          nodes = update s.nodes c r';
          calls = set_row c ((s.nodes c).current_term + 1) (opened c spawns) s.calls;
        })
    asks :
        (c t p : ℕ)
        → s.calls c t p ≡ asking
        → Step s (record s { calls = set_call c t p (asked (vote_request t (s.nodes c))) s.calls })
    answers :
        (c t p : ℕ) (req : RequestVoteRequest) {out : Outcome RequestVoteResponse} {r' : Raft S}
        → s.calls c t p ≡ asked req
        → handle_request_vote P req (s.nodes p) ≡ (out, r')
        → Step s
            (record { nodes = update s.nodes p r'; calls = set_call c t p (answer out) s.calls })
    counts :
        (c t p : ℕ) (a : RequestVoteResponse) {r' : Raft S} {won : Bool}
        → p < n
        → s.calls c t p ≡ answered a
        → count_vote t a (s.nodes c) ≡ (r', won)
        → Step s
            (record { nodes = update s.nodes c r'; calls = set_call c t p (counted a won) s.calls })
    wins :
        (c t p : ℕ) (a : RequestVoteResponse)
        → s.calls c t p ≡ counted a true
        → (s.nodes c).current_term ≡ t
        → Step s (record s { nodes = update s.nodes c (become_leader (s.nodes c)).0 })
    loses :
        (c t p : ℕ)
        → is_open (s.calls c t p) ≡ true
        → Step s (record s { calls = set_call c t p idle s.calls })
    other :
        (i : ℕ) (e : Event)
        → is_calm e ≡ true
        → Step s (record s { nodes = update s.nodes i (step P e (s.nodes i)) })

  pub data Reach (s : System S) : System S → Type 0 where
    here : Reach s s
    next : {t u : System S} → Reach s t → Step t u → Reach s u
