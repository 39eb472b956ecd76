-- ===== src/Raft/Node.antt =====
-- raft/raft.go: the `Raft` struct, its peers and its small helpers. Locks are not modelled: each
-- definition is one critical section, and what a section spawns is returned as a list.
use distrib_kv.Prelude.{
  ℕ, ◌-◌, List, [], ◌∷◌, Option, none, some, Bool, true, false, ltb, leb, if◌then◌else◌, Assoc,
  get_elem?, get_last?, String,
}
use distrib_kv.Raft.Types.{Bytes, LogEntry, State, follower, candidate, leader, ApplyMsg}
use distrib_kv.Raft.Persister.{Persister}
use mathlib.Core.Option

-- The election timer: not created before `Start`, stopped by a leader, else running.
pub data Timer : Type 0 where
  unset stopped armed : Timer

pub record Peer : Type 0 where
  pub address : String
  pub conn : Bool  -- conn and raftClient are set and cleared together
  pub next_index : ℕ
  pub match_index : ℕ

-- Over the store `S` of its persister. The ids -1 of `votedFor` and `leaderId` are none.
pub record Raft (S : Type 0) : Type 0 where
  pub server_id : ℕ
  pub peers : Assoc ℕ Peer
  pub current_term : ℕ
  pub voted_for : Option ℕ
  pub log : List LogEntry
  pub log_base : ℕ
  pub snapshot : Bytes
  pub snapshot_index : ℕ
  pub snapshot_term : ℕ
  pub state : State
  pub commit_index : ℕ
  pub last_applied : ℕ
  pub leader_id : Option ℕ
  pub election_timer : Timer
  pub votes_received : ℕ
  pub apply_ch : List ApplyMsg  -- what the buffered channel holds, oldest first
  pub commit_ch : Bool  -- whether a wake-up is pending
  pub persister : S
  pub snapshot_threshold : ℕ
  pub started : Bool
  pub shutdown : Bool

-- The goroutines that a critical section starts once it has released the lock.
pub data Spawn : Type 0 where
  request_vote : (peer term : ℕ) → Spawn
  append_entries : (peer term commit : ℕ) → Spawn
  install_snapshot : (peer term : ℕ) → Spawn
  heartbeat : Spawn

abbrev pub apply_ch_cap : ℕ
apply_ch_cap = 100

-- The keys of `peers`, in the order of one iteration.
unfoldable pub ids : Assoc ℕ Peer → List ℕ
ids [] = []
ids ((i, p) ∷ ps) = i ∷ ids ps

-- log[idx - base - 1], and none out of range; below the base the index is negative.
unfoldable pub log_at : ℕ → List LogEntry → ℕ → Option LogEntry
log_at base log idx = if leb idx base then none else get_elem? log (idx - base - 1)

module _ {S : Type 0} where
  unfoldable pub is_leader : Raft S → Bool
  is_leader r = elim r.state [ follower ↦ false | candidate ↦ false | leader ↦ true ]

  unfoldable pub get_leader_id : Raft S → Option ℕ
  unfolding is_leader
  get_leader_id r = if is_leader r then some r.server_id else r.leader_id

  -- (0, 0) for an empty log.
  unfoldable pub get_last_log_info : Raft S → ℕ × ℕ
  get_last_log_info r = elim (get_last? r.log) [ none ↦ (0, 0) | some e ↦ (e.index, e.term) ]

  unfoldable pub reset_election_timer : Raft S → Raft S
  reset_election_timer r = elim r.election_timer [
    | unset ↦ r
    | stopped ↦ record r { election_timer = armed }
    | armed ↦ record r { election_timer = armed }
  ]

  unfoldable pub stop_election_timer : Raft S → Raft S
  stop_election_timer r = elim r.election_timer [
    | unset ↦ r
    | stopped ↦ record r { election_timer = stopped }
    | armed ↦ record r { election_timer = stopped }
  ]

  -- A full channel drops the signal.
  unfoldable pub signal_commit : Raft S → Raft S
  signal_commit r = record r { commit_ch = true }

  unfoldable pub persist : Persister S → Raft S → Option (Raft S)
  persist P r =
      Option.map (λ s. record r { persister = s })
        (P.save r.current_term r.voted_for r.log r.persister)

  unfoldable pub step_down : ℕ → Raft S → Raft S
  step_down new_term r = record r {
    current_term = new_term;
    voted_for = none;
    state = follower;
    leader_id = none;
    votes_received = 0;
  }

  -- Rule 2 of both RPC handlers: a higher term makes this node a follower without a vote.
  unfoldable pub adopt_term : ℕ → Raft S → Raft S
  adopt_term term r =
      if ltb r.current_term term
      then record r { current_term = term; voted_for = none; state = follower }
      else r
