-- ===== src/Raft/Lifecycle.antt =====
-- raft/raft.go: construction and recovery, `Start` and `Shutdown`, the dialling of peers, and the
-- apply loop.
pub mod Delivery
use distrib_kv.Prelude.{
  nat_key, ℕ, zero, suc, ◌+◌, ◌-◌, List, [], ◌∷◌, ◌++◌, Option, none, some, Bool, true, false, ltb,
  leb, not, if◌then◌else◌, length, get_last?, lookup, Assoc, String, ℤ, pos, pos_part, ltb_ℤ, leb_ℤ,
}
use distrib_kv.Raft.Types.{Bytes, follower, ApplyMsg, bad_config, Outcome, reply, fail}
use distrib_kv.Raft.Persister.{Persister, SnapshotRead, found, no_snapshot, unreadable}
use distrib_kv.Raft.Node.{Raft, Peer, unset, armed, apply_ch_cap, log_at, stop_election_timer}
use distrib_kv.Raft.Snapshot.{snapshot_msg}

pub record Config : Type 0 where
  pub server_id : ℤ
  pub own_addr : String
  pub peers : Assoc ℕ String
  pub election_timeout_min : ℤ
  pub election_timeout_max : ℤ
  pub heartbeat_interval : ℤ
  pub snapshot_threshold : ℕ

-- The checks of `validate`, in order; a persister is always given.
unfoldable pub validate : Config → Bool
validate c =
    if ltb_ℤ c.server_id (pos 0) then false else elim (lookup (pos_part c.server_id) c.peers) [
      | some a ↦ false
      | none ↦
          if leb_ℤ c.election_timeout_min (pos 0)
          then false
          else if leb_ℤ c.election_timeout_max (pos 0)
          then false
          else if leb_ℤ c.election_timeout_max c.election_timeout_min
          then false
          else not (leb_ℤ c.heartbeat_interval (pos 0))
    ]

unfoldable pub new_peers : Assoc ℕ String → Assoc ℕ Peer
new_peers [] = []
new_peers ((i, a) ∷ ps) =
    (i, record { address = a; conn = false; next_index = 1; match_index = 0 }) ∷ new_peers ps

-- `ensureConnected`: whether the dial succeeds is the environment's choice.
unfoldable pub ensure_connected : Bool → Peer → Option Peer
ensure_connected dials p =
    if p.conn then some p else if dials then some (record p { conn = true }) else none

unfoldable pub close_peers : Assoc ℕ Peer → Assoc ℕ Peer
close_peers [] = []
close_peers ((i, p) ∷ ps) = (i, record p { conn = false }) ∷ close_peers ps

module _ {S : Type 0} where
  unfoldable pub fresh : Config → S → Raft S
  unfolding new_peers
  fresh c s = record {
    server_id = pos_part c.server_id;
    peers = new_peers c.peers;
    current_term = 0;
    voted_for = none;
    log = [];
    log_base = 0;
    snapshot = [];
    snapshot_index = 0;
    snapshot_term = 0;
    state = follower;
    commit_index = 0;
    last_applied = 0;
    leader_id = none;
    election_timer = unset;
    votes_received = 0;
    apply_ch = [];
    commit_ch = false;
    persister = s;
    snapshot_threshold = c.snapshot_threshold;
    started = false;
    shutdown = false;
  }

  -- The commit index reaches the last entry of the log; without a snapshot all of it counts as
  -- applied.
  unfoldable pub floor_commit : Bool → Raft S → Raft S
  floor_commit has_snapshot r = elim (get_last? r.log) [
    | none ↦ r
    | some e ↦
        let c = if ltb r.commit_index e.index then e.index else r.commit_index in
        record r { commit_index = c; last_applied = if has_snapshot then r.last_applied else c }
  ]

  unfoldable pub restore_snapshot : Bytes → ℕ → ℕ → Raft S → Raft S
  restore_snapshot d i t r = record r {
    log_base = i;
    snapshot_index = i;
    snapshot_term = t;
    snapshot = d;
    commit_index = if ltb r.commit_index i then i else r.commit_index;
    last_applied = i;
  }

  unfoldable pub load_snapshot_state : SnapshotRead → Raft S → Raft S
  unfolding floor_commit restore_snapshot
  load_snapshot_state (found d i t) r =
      if ltb (length r.apply_ch) apply_ch_cap
      then floor_commit true
          (record (restore_snapshot d i t r) { apply_ch = r.apply_ch ++ snapshot_msg d i t ∷ [] })
      else restore_snapshot d i t r
  load_snapshot_state no_snapshot r = floor_commit false r
  load_snapshot_state unreadable r = floor_commit false r

  -- `loadPersistedState`; an error of `Load` leaves the fresh state.
  unfoldable pub load_persisted_state : Persister S → Raft S → Raft S
  unfolding load_snapshot_state
  load_persisted_state P r = elim (P.load r.persister) [
    | none ↦ r
    | some h ↦
        load_snapshot_state (P.load_snapshot r.persister)
          (record r { current_term = h.current_term; voted_for = h.voted_for; log = h.log })
  ]

  -- `NewRaft`.
  unfoldable pub new_raft : Persister S → Config → S → Outcome (Raft S)
  unfolding fresh load_persisted_state
  new_raft P c s =
      if validate c then reply (load_persisted_state P (fresh c s)) else fail bad_config

  unfoldable pub start : Raft S → Raft S
  start r = if r.started then r else record r { started = true; election_timer = armed }

  unfoldable pub stop : Raft S → Raft S
  unfolding close_peers stop_election_timer
  stop r =
      if r.shutdown
      then r
      else stop_election_timer (record r { shutdown = true; peers = close_peers r.peers })

  -- The locked part of one round of `applyPendingEntries`: the next message, unless the node has
  -- caught up or its log lacks the entry.
  unfoldable pub next_apply : Raft S → Option (ApplyMsg × Raft S)
  next_apply r =
      if leb r.commit_index r.last_applied
      then none
      else elim (log_at r.log_base r.log (r.last_applied + 1)) [
        | none ↦ none
        | some e ↦ some (
          record {
            command_valid = true;
            command = e.command;
            command_index = e.index;
            snapshot_valid = false;
            snapshot_data = [];
            last_included_index = 0;
            last_included_term = 0;
          },
          record r { last_applied = r.last_applied + 1 },
        )
      ]

  -- `applyPendingEntries` with `sends` messages taken by the channel before the node is cancelled:
  -- the messages sent, and the node. A cancelled send takes its increment back.
  unfoldable pub apply_pending : ℕ → Raft S → List ApplyMsg × Raft S
  apply_pending zero r = elim (next_apply r) [
    | none ↦ ([], r)
    | some (msg, r') ↦ ([], record r' { last_applied = r'.last_applied - 1 })
  ]
  apply_pending (suc sends) r = elim (next_apply r) [
    | none ↦ ([], r)
    | some (msg, r') ↦ let rest = apply_pending sends r' in (msg ∷ rest.0, rest.1)
  ]
