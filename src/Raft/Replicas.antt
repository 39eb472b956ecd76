-- ===== src/Raft/Replicas.antt =====
-- The logs of a cluster (raft/election.go and raft/replication.go): the nodes and their elections, and
-- the AppendEntries requests that were sent. A request may be delivered at any later time, again and
-- again, or never, and a reply may say anything.
pub mod Handlers
pub mod Terms
pub mod Invariant
pub mod Crowning
pub mod Growing
pub mod Merging
pub mod Elections
pub mod Matching
pub mod Runs
use distrib_kv.Prelude.{ℕ, ◌≡◌, ◌≢◌, List, [], ◌∷◌, some, Bool, true, false, get_elem?}
use distrib_kv.Raft.Types.{AppendEntriesRequest}
use distrib_kv.Raft.Persister.{Persister}
use distrib_kv.Raft.Node.{Raft}
use distrib_kv.Raft.Sender.{send, plan_append}
use distrib_kv.Raft.Events.{
  Event, elect, lead, begin, halt, vote_reply, vote_rpc, append_rpc, install_rpc, append_reply,
  install_reply, submit, compact, apply, step,
}
use distrib_kv.Raft.Cluster.{
  update, System, Step, campaigns, asks, answers, counts, wins, loses, other,
}

-- The events outside elections that take no request from another node and do not compact the log.
unfoldable pub is_local : Event → Bool
is_local elect = false
is_local lead = false
is_local begin = true
is_local halt = true
is_local (vote_reply term resp) = false
is_local (vote_rpc req) = false
is_local (append_rpc req) = false
is_local (install_rpc req) = false
is_local (append_reply peer req resp) = true
is_local (install_reply peer req resp) = true
is_local (submit cmd) = true
is_local (compact index d) = false
is_local (apply sends) = true

module _ {S : Type 0} (P : Persister S) (n : ℕ) where
  unfoldable pub is_election : {s t : System S} → Step P n s t → Bool
  is_election (campaigns c lt live e) = true
  is_election (asks c t p at) = true
  is_election (answers c t p req at e) = true
  is_election (counts c t p a lt at e) = true
  is_election (wins c t p a at same) = true
  is_election (loses c t p open_call) = true
  is_election (other i e calm) = false

-- The requests that were sent so far, the last one first.
pub record Network (S : Type 0) : Type 0 where
  pub system : System S
  pub sent : List AppendEntriesRequest

module _ {S : Type 0} (P : Persister S) (n : ℕ) where
  pub data Move (s : Network S) : Network S → Type 0 where
    election :
        {t : System S} (st : Step P n s.system t)
        → is_election P n st ≡ true
        → Move s (record s { system = t })
    event :
        (i : ℕ) (e : Event)
        → is_local e ≡ true
        → Move s (record s {
          system = record s.system {
            nodes = update s.system.nodes i (step P e (s.system.nodes i));
          };
        })
    sends :
        (i peer term commit : ℕ) {req : AppendEntriesRequest}
        → plan_append peer term commit (s.system.nodes i) ≡ send req
        → Move s (record s { sent = req ∷ s.sent })
    delivers :
        (i k : ℕ) (req : AppendEntriesRequest)
        → get_elem? s.sent k ≡ some req
        → req.leader_id ≢ i
        → Move s (record s {
          system = record s.system {
            nodes = update s.system.nodes i (step P (append_rpc req) (s.system.nodes i));
          };
        })

  pub data Moves (s : Network S) : Network S → Type 0 where
    still : Moves s s
    after : {t u : Network S} → Moves s t → Move t u → Moves s u
