-- ===== src/Kv/Snapshot.antt =====
-- kv/snapshot.go: the image of the state machine that travels in a snapshot.
pub mod RoundTrip
use distrib_kv.Prelude.{
  ℕ, ◌-◌, [], ◌∷◌, Option, none, some, Bool, ltb, ◌==◌, ◌&&◌, ◌||◌, if◌then◌else◌, Assoc, nat_key,
  String, str_eq,
}
use distrib_kv.Raft.Types.{Bytes, ApplyMsg}
use distrib_kv.Raft.Persister.{Persister}
use distrib_kv.Raft.Node.{Raft}
use distrib_kv.Kv.Types.{
  Err, not_leader, timeout, key_not_found, too_many_pending, shutting_down, unknown_op,
  bad_encoding, not_encoded, raft_failed, DuplicateEntry, Dups, Server, SnapshotEntry, Codec,
}
use distrib_kv.Kv.Dedup.{is_expired}
use distrib_kv.Raft.Snapshot

-- err.Error() of the sentinels; the texts of the other errors depend on what they wrap.
unfoldable pub err_text : Err → String
err_text not_leader = "not leader"
err_text timeout = "timeout waiting for commit"
err_text key_not_found = "key not found"
err_text too_many_pending = "too many pending operations"
err_text shutting_down = "server shutting down"
err_text (unknown_op k) = "unknown op type"
err_text bad_encoding = "deserialize command"
err_text not_encoded = "serialize op"
err_text raft_failed = "persist command"

unfoldable pub err_string : Option Err → String
unfolding err_text
err_string none = ""
err_string (some e) = err_text e

-- Only one sentinel comes back; any other text is no error.
unfoldable pub sentinel_err : String → Option Err
sentinel_err s =
    if str_eq s "" then none else if str_eq s "key not found" then some key_not_found else none

unfoldable pub snapshot_entry : DuplicateEntry → SnapshotEntry
unfolding err_string
snapshot_entry e = record {
  value = e.result.value;
  err = err_string e.result.err;
  timestamp = e.timestamp;
}

-- The entries of one client that are kept: not the (0, 0) sentinel, and not expired.
unfoldable pub image_entries : ℕ → ℕ → Assoc ℕ DuplicateEntry → Assoc ℕ SnapshotEntry
unfolding snapshot_entry
image_entries now client [] = []
image_entries now client ((seq, e) ∷ m) =
    let rest = image_entries now client m in
    if client == 0 && seq == 0
    then rest
    else if is_expired now e
    then rest
    else (seq, snapshot_entry e) ∷ rest

-- A client without a kept entry gets no map.
unfoldable pub image_dedup : ℕ → Dups → Assoc ℕ (Assoc ℕ SnapshotEntry)
unfolding image_entries
image_dedup now [] = []
image_dedup now ((client, cm) ∷ d) =
    let rest = image_dedup now d in
    elim (image_entries now client cm) [ [] ↦ rest | x ∷ xs ↦ (client, x ∷ xs) ∷ rest ]

-- `serializeSnapshot`.
unfoldable pub serialize_snapshot : Codec → ℕ → Assoc String String → Dups → Option Bytes
unfolding image_dedup
serialize_snapshot c now state d =
    c.encode_payload (record { state = state; dedup = image_dedup now d })

unfoldable pub live_entry : SnapshotEntry → DuplicateEntry
unfolding sentinel_err
live_entry e = record {
  result = record { value = e.value; err = sentinel_err e.err };
  timestamp = e.timestamp;
}

unfoldable pub live_entries : Assoc ℕ SnapshotEntry → Assoc ℕ DuplicateEntry
unfolding live_entry
live_entries [] = []
live_entries ((seq, e) ∷ m) = (seq, live_entry e) ∷ live_entries m

unfoldable pub live_dedup : Assoc ℕ (Assoc ℕ SnapshotEntry) → Dups
unfolding live_entries
live_dedup [] = []
live_dedup ((client, m) ∷ d) = (client, live_entries m) ∷ live_dedup d

-- `deserializeSnapshot`.
unfoldable pub deserialize_snapshot : Codec → Bytes → Option (Assoc String String × Dups)
unfolding live_dedup
deserialize_snapshot c b = elim (c.decode_payload b) [
  | none ↦ none
  | some p ↦ some (p.state, live_dedup p.dedup)
]

-- `handleSnapshotMsg`: an unreadable image changes nothing.
unfoldable pub handle_snapshot_msg : Codec → ApplyMsg → Server → Server
unfolding deserialize_snapshot
handle_snapshot_msg c msg s = elim (deserialize_snapshot c msg.snapshot_data) [
  | none ↦ s
  | some (state, dedup) ↦ record s {
    state = state;
    duplicates = dedup;
    last_applied = msg.last_included_index;
    last_snapshot_index = msg.last_included_index;
    recent = [];
  }
]

-- lastApplied - lastSnapshotIndex < threshold; a negative difference is below every threshold.
abbrev pub below_threshold : ℕ → Server → Bool
below_threshold threshold s = ltb (s.last_applied - s.last_snapshot_index) threshold

module _ {S : Type 0} where
  -- `takeSnapshot`, with the engine that it calls.
  unfoldable pub take_snapshot : Persister S → Codec → ℕ → Server → Raft S → Server × Raft S
  take_snapshot P c now s rf =
      if rf.snapshot_threshold == 0 || below_threshold rf.snapshot_threshold s
      then (s, rf)
      else elim (serialize_snapshot c now s.state s.duplicates) [
        | none ↦ (s, rf)
        | some b ↦
            let res = Snapshot.take_snapshot P s.last_applied b rf in
            elim res.1 [
              | some e ↦ (s, res.0)
              | none ↦ (record s { last_snapshot_index = s.last_applied }, res.0)
            ]
      ]
