-- ===== src/Kv/Rpc.antt =====
-- kv/server.go: `submitOperation` up to the engine, and the handlers Get, Put and Append around it.
-- The ids of a request are 0: clients send none.
pub mod Reads
use distrib_kv.Prelude.{
  ℕ, Option, none, some, Bool, true, false, not, if◌then◌else◌, String, ℤ, pos, negsuc,
}
use distrib_kv.Raft.Types.{Bytes}
use distrib_kv.Raft.Node.{Raft, is_leader, get_leader_id}
use distrib_kv.Kv.Types.{
  OpKind, Op, op_get, op_put, op_append, Err, not_leader, not_encoded, Result, Server, Codec,
}
use distrib_kv.Kv.Snapshot.{err_text}
use distrib_kv.Kv.Server.{check_duplicate}

pub record GetResponse : Type 0 where
  pub success : Bool
  pub value : String
  pub error : String
  pub wrong_leader : Bool
  pub leader_id : ℤ

-- The answer of Put and of Append.
pub record WriteResponse : Type 0 where
  pub success : Bool
  pub error : String
  pub wrong_leader : Bool
  pub leader_id : ℤ

unfoldable pub get_op : String → Op
get_op k = record { kind = op_get; key = k; value = ""; client_id = 0; sequence_id = 0 }

unfoldable pub put_op : String → String → Op
put_op k v = record { kind = op_put; key = k; value = v; client_id = 0; sequence_id = 0 }

unfoldable pub append_op : String → String → Op
append_op k v = record { kind = op_append; key = k; value = v; client_id = 0; sequence_id = 0 }

-- What `submitOperation` does before `ReplicateCommand`.
pub data Begun : Type 0 where
  failed : Err → Begun
  cached_result : Result → Begun
  submitting : Bytes → Begun

unfoldable pub begin_submit : Codec → ℕ → Op → Server → Begun × Server
begin_submit c now op s = elim (c.encode op) [
  | none ↦ (failed not_encoded, s)
  | some b ↦
      let hit = check_duplicate now op s in
      elim hit.0 [ some e ↦ (cached_result e.result, hit.1) | none ↦ (submitting b, hit.1) ]
]

-- GetLeaderId, which is -1 where the leader is not known.
unfoldable pub leader_hint : Option ℕ → ℤ
leader_hint none = negsuc 0
leader_hint (some i) = pos i

module _ {S : Type 0} where
  unfoldable pub wrong_leader_get : Raft S → GetResponse
  unfolding leader_hint
  wrong_leader_get rf = record {
    success = false;
    value = "";
    error = "";
    wrong_leader = true;
    leader_id = leader_hint (get_leader_id rf);
  }

  unfoldable pub wrong_leader_write : Raft S → WriteResponse
  unfolding leader_hint
  wrong_leader_write rf = record {
    success = false;
    error = "";
    wrong_leader = true;
    leader_id = leader_hint (get_leader_id rf);
  }

  unfoldable pub error_get : Err → Raft S → GetResponse
  unfolding wrong_leader_get
  error_get not_leader rf = wrong_leader_get rf
  error_get e rf = record {
    success = false;
    value = "";
    error = err_text e;
    wrong_leader = false;
    leader_id = pos 0;
  }

  unfoldable pub error_write : Err → Raft S → WriteResponse
  unfolding wrong_leader_write
  error_write not_leader rf = wrong_leader_write rf
  error_write e rf = record {
    success = false;
    error = err_text e;
    wrong_leader = false;
    leader_id = pos 0;
  }

  -- `Get`, once `submitOperation` has returned.
  unfoldable pub respond_get : Option Err × Result → Raft S → GetResponse
  unfolding error_get
  respond_get (some e, res) rf = error_get e rf
  respond_get (none, res) rf = elim res.err [
    | some e ↦ record {
      success = false;
      value = "";
      error = err_text e;
      wrong_leader = false;
      leader_id = pos 0;
    }
    | none ↦ record {
      success = true;
      value = res.value;
      error = "";
      wrong_leader = false;
      leader_id = pos 0;
    }
  ]

  -- `Put` and `Append`, once `submitOperation` has returned. The result is not looked at.
  unfoldable pub respond_write : Option Err × Result → Raft S → WriteResponse
  unfolding error_write
  respond_write (some e, res) rf = error_write e rf
  respond_write (none, res) rf = record {
    success = true;
    error = "";
    wrong_leader = false;
    leader_id = pos 0;
  }

  -- The handlers up to `submitOperation`: an answer, or the operation.
  unfoldable pub begin_get : String → Raft S → Option GetResponse × Op
  unfolding wrong_leader_get get_op
  begin_get k rf = (if not (is_leader rf) then some (wrong_leader_get rf) else none, get_op k)

  unfoldable pub begin_put : String → String → Raft S → Option WriteResponse × Op
  unfolding wrong_leader_write put_op
  begin_put k v rf = (if not (is_leader rf) then some (wrong_leader_write rf) else none, put_op k v)

  unfoldable pub begin_append : String → String → Raft S → Option WriteResponse × Op
  unfolding wrong_leader_write append_op
  begin_append k v rf =
      (if not (is_leader rf) then some (wrong_leader_write rf) else none, append_op k v)
