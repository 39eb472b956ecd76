-- ===== src/Kv/Types.antt =====
-- kv/types.go: operations, results, the server's state, and the encodings of encoding/json that the
-- server relies on. The int64 ids of clients and requests are kept as their bit patterns; times are in
-- nanoseconds.
use distrib_kv.Prelude.{
  ℕ, ◌*◌, ◌^◌, ◌≡◌, Option, none, some, Bool, String, Assoc, lookup, nat_key, string_key,
}
use distrib_kv.Raft.Types.{Bytes}

pub data OpKind : Type 0 where
  op_get op_put op_append : OpKind
  op_other : ℕ → OpKind

pub record Op : Type 0 where
  pub kind : OpKind
  pub key : String
  pub value : String
  pub client_id : ℕ
  pub sequence_id : ℕ

pub data Err : Type 0 where
  not_leader timeout key_not_found too_many_pending shutting_down : Err
  unknown_op : OpKind → Err
  bad_encoding not_encoded raft_failed : Err

-- `Result{Value, Err}`.
pub record Result : Type 0 where
  pub value : String
  pub err : Option Err

pub record DuplicateEntry : Type 0 where
  pub result : Result
  pub timestamp : ℕ

-- A waiter, with the number of its result channel.
pub record PendingOp : Type 0 where
  pub index : ℕ
  pub op : Op
  pub result_ch : ℕ

abbrev pub Dups : Type 0
Dups = Assoc ℕ (Assoc ℕ DuplicateEntry)

-- `channels` holds what stands in each result channel, which has room for one result.
pub record Server : Type 0 where
  pub state : Assoc String String
  pub duplicates : Dups
  pub pending_ops : Assoc ℕ PendingOp
  pub recent : Assoc ℕ Result
  pub channels : Assoc ℕ Result
  pub max_pending : ℕ
  pub dead : Bool
  pub last_applied : ℕ
  pub last_snapshot_index : ℕ

abbrev pub default_max_pending_ops : ℕ
default_max_pending_ops = 1000

abbrev pub max_duplicates : ℕ
max_duplicates = 100

abbrev pub duplicate_expiry : ℕ
duplicate_expiry = 10 * 10 ^ 9

-- The JSON form of a cached result, where the error is a text.
pub record SnapshotEntry : Type 0 where
  pub value : String
  pub err : String
  pub timestamp : ℕ

pub record Payload : Type 0 where
  pub state : Assoc String String
  pub dedup : Assoc ℕ (Assoc ℕ SnapshotEntry)

abbrev pub dedup_at : ℕ → ℕ → Assoc ℕ (Assoc ℕ SnapshotEntry) → Option SnapshotEntry
dedup_at c s m = elim (lookup c m) [ none ↦ none | some cm ↦ lookup s cm ]

-- The same keys with the same values, in any order.
pub record SamePayload (p q : Payload) : Type 0 where
  pub state : (k : String) → lookup k q.state ≡ lookup k p.state
  pub dedup : (c s : ℕ) → dedup_at c s q.dedup ≡ dedup_at c s p.dedup

-- encoding/json on the two values that the server marshals: what was encoded decodes to the same
-- value. (For texts of valid UTF-8, as protobuf requires of its strings.)
pub record Codec : Type 0 where
  pub encode : Op → Option Bytes
  pub decode : Bytes → Option Op
  pub encode_payload : Payload → Option Bytes
  pub decode_payload : Bytes → Option Payload
  pub decode-encode : (op : Op) (b : Bytes) → encode op ≡ some b → decode b ≡ some op
  pub decode_payload-encode_payload :
      (p : Payload) (b : Bytes)
      → encode_payload p ≡ some b
      → (q : Payload) × (decode_payload b ≡ some q) × SamePayload p q
