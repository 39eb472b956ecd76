-- ===== src/Raft/Consensus.antt =====
-- The commit of a cluster (raft/election.go, raft/replication.go): the nodes, the AppendEntries requests
-- that were sent, and the replies that were given. A reply too may come at any later time, again and
-- again, or never.
pub mod Counting
pub mod Prefix
pub mod Settled
pub mod Invariant
pub mod Votes
pub mod Candidates
pub mod Growth
pub mod Winning
pub mod Writing
pub mod Delivering
pub mod Majority
pub mod Members
pub mod Handlers
pub mod Commits
pub mod Elections
pub mod Receiving
pub mod Acting
pub mod Safety
pub mod Agreement
pub mod Runs
use distrib_kv.Prelude.{ℕ, ◌≡◌, ◌≢◌, ◌≤◌, List, [], ◌∷◌, some, Bool, true, false, get_elem?}
use distrib_kv.Raft.Types.{AppendEntriesRequest, AppendEntriesResponse, Outcome, reply, fail, panic}
use distrib_kv.Raft.Persister.{Persister}
use distrib_kv.Raft.Node.{Raft}
use distrib_kv.Raft.Replication.{handle_append_entries}
use distrib_kv.Raft.Sender.{send, plan_append, on_append_reply}
use distrib_kv.Raft.Events.{
  Event, elect, lead, begin, halt, vote_reply, vote_rpc, append_rpc, install_rpc, append_reply,
  install_reply, submit, compact, apply, step,
}
use distrib_kv.Raft.Cluster.{update, System, Step}
use distrib_kv.Raft.Replicas.{is_election}

-- The answer of a node to a request.
pub record Reply : Type 0 where
  pub from : ℕ
  pub request : AppendEntriesRequest
  pub response : AppendEntriesResponse

pub record Exchange (S : Type 0) : Type 0 where
  pub system : System S
  pub sent : List AppendEntriesRequest
  pub replies : List Reply

-- The events of a node that involve no other node, and do not compact the log.
unfoldable pub is_own : Event → Bool
is_own elect = false
is_own lead = false
is_own begin = true
is_own halt = true
is_own (vote_reply term resp) = false
is_own (vote_rpc req) = false
is_own (append_rpc req) = false
is_own (install_rpc req) = false
is_own (append_reply peer req resp) = false
is_own (install_reply peer req resp) = false
is_own (submit cmd) = true
is_own (compact index d) = false
is_own (apply sends) = true

-- An error or a panic is no reply.
unfoldable pub note :
    ℕ → AppendEntriesRequest → Outcome AppendEntriesResponse → List Reply → List Reply
note i req (reply a) rs = record { from = i; request = req; response = a } ∷ rs
note i req (fail e) rs = rs
note i req panic rs = rs

module _ {S : Type 0} (P : Persister S) (n : ℕ) where
  -- A request carries a commit index that its leader has had.
  pub data Turn (s : Exchange S) : Exchange S → Type 0 where
    elects :
        {t : System S} (st : Step P n s.system t)
        → is_election P n st ≡ true
        → Turn s (record s { system = t })
    acts :
        (i : ℕ) (e : Event)
        → is_own e ≡ true
        → Turn s (record s {
          system = record s.system {
            nodes = update s.system.nodes i (step P e (s.system.nodes i));
          };
        })
    ships :
        (i peer term commit : ℕ) {req : AppendEntriesRequest}
        → commit ≤ (s.system.nodes i).commit_index
        → plan_append peer term commit (s.system.nodes i) ≡ send req
        → Turn s (record s { sent = req ∷ s.sent })
    merges :
        (i k : ℕ) (req : AppendEntriesRequest)
        → get_elem? s.sent k ≡ some req
        → req.leader_id ≢ i
        → Turn s (record s {
          system = record s.system {
            nodes = update s.system.nodes i (handle_append_entries P req (s.system.nodes i)).1;
          };
          replies = note i req (handle_append_entries P req (s.system.nodes i)).0 s.replies;
        })
    hears :
        (k : ℕ) (rep : Reply)
        → get_elem? s.replies k ≡ some rep
        → Turn s (record s {
          system = record s.system {
            nodes =
                update s.system.nodes rep.request.leader_id
                  (on_append_reply rep.from rep.request rep.response
                    (s.system.nodes rep.request.leader_id)).0;
          };
        })

  pub data Turns (s : Exchange S) : Exchange S → Type 0 where
    begun : Turns s s
    turned : {t u : Exchange S} → Turns s t → Turn t u → Turns s u
