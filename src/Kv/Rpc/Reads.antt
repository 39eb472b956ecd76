-- ===== src/Kv/Rpc/Reads.antt =====
-- A Get from the registration of its handler to the answer (kv/server.go, kv/apply.go).
use distrib_kv.Prelude.{
  ℕ, ◌≡◌, refl, Option, none, some, true, false, lookup, insert, nat_key, string_key, arith, String,
  pos, lookup-insert, ==_refl,
}
use distrib_kv.Raft.Types.{ApplyMsg}
use distrib_kv.Raft.Persister.{Persister}
use distrib_kv.Raft.Node.{Raft}
use distrib_kv.Kv.Types.{Op, op_get, Result, PendingOp, Dups, Server, Codec}
use distrib_kv.Kv.Snapshot.{err_text}
use distrib_kv.Kv.Machine.{view, spec_state, spec_result}
use distrib_kv.Kv.Server.{Walk, register, process_apply_msg, delivered, finish_wait}
use distrib_kv.Kv.Server.Hits.{fresh_entry}
use distrib_kv.Kv.Server.Refinement.{process_apply_msg_refines, Answered}
use distrib_kv.Kv.Server.Waiters.{HasRoom, register_waits}
use distrib_kv.Kv.Rpc.{GetResponse, get_op, respond_get}

-- What a Get of a key with this value is answered.
abbrev pub get_answer : Option String → GetResponse
get_answer none = record {
  success = false;
  value = "";
  error = "key not found";
  wrong_leader = false;
  leader_id = pos 0;
}
get_answer (some v) = record {
  success = true;
  value = v;
  error = "";
  wrong_leader = false;
  leader_id = pos 0;
}

-- Without ids the cache is not asked.
no_ids_no_hit : (now : ℕ) (op : Op) (d : Dups) → op.client_id ≡ 0 → fresh_entry now op d ≡ none
no_ids_no_hit now op d h = ground (arith, h)

respond_get-spec_result :
    {S : Type 0} (k : String) (index : ℕ) (m : Option String) (s : Server) (rf : Raft S)
    → respond_get (finish_wait index (delivered (spec_result op_get (get_op k) (λ j. m))) s).0 rf
      ≡ get_answer m
unfolding respond_get finish_wait err_text get_op
respond_get-spec_result k index none s rf = refl
respond_get-spec_result k index (some v) s rf = refl

module _ {S : Type 0} (P : Persister S) (c : Codec) (walk : Walk) where
  registered_refines :
      (now ch : ℕ) (op : Op) (msg : ApplyMsg) (s : Server) (rf : Raft S)
      → HasRoom s
      → lookup msg.command_index s.recent ≡ none
      → lookup ch s.channels ≡ none
      → msg.snapshot_valid ≡ false
      → msg.command_valid ≡ true
      → c.decode msg.command ≡ some op
      → op.client_id ≡ 0
      → let s' = (process_apply_msg P c walk now msg (register msg.command_index ch op s).1 rf).0 in
        (view s'.state ≡ spec_state op.kind op (view s.state))
        × Answered msg.command_index ch (spec_result op.kind op (view s.state)) s'
  registered_refines now ch op msg s rf room r e sv cv d ids =
      let w : PendingOp = record { index = msg.command_index; op = op; result_ch = ch } in
      let s1 : Server = record s { pending_ops = insert msg.command_index w s.pending_ops } in
      let there : lookup msg.command_index s1.pending_ops ≡ some w =
        (ground (
          arith,
          lookup-insert msg.command_index msg.command_index w s.pending_ops,
          ==_refl msg.command_index,
        )) in
      let done = process_apply_msg_refines P c walk now msg s1 rf w sv cv there e in
      let miss = no_ids_no_hit now op s.duplicates ids in
      rw (register_waits msg.command_index ch op s room.0 room.1 r) (rw (d, miss) at done)

  -- A handler of Get registers on a server with room for it, with nothing in the stash for its
  -- index and an empty channel. The message of its index carries the Get. Then the handler has a
  -- result, its answer is the value that the map has for the key, or `key not found`, and the map
  -- is as before.
  pub get_reads_map :
      (now ch : ℕ) (k : String) (msg : ApplyMsg) (s : Server) (rf : Raft S)
      → HasRoom s
      → lookup msg.command_index s.recent ≡ none
      → lookup ch s.channels ≡ none
      → msg.snapshot_valid ≡ false
      → msg.command_valid ≡ true
      → c.decode msg.command ≡ some (get_op k)
      → let s' =
          (process_apply_msg P c walk now msg
            (register msg.command_index ch (get_op k) s).1
            rf).0 in
        (res : Result) × (lookup ch s'.channels ≡ some res)
        × (respond_get (finish_wait msg.command_index (delivered res) s').0 rf
            ≡ get_answer (lookup k s.state))
        × (view s'.state ≡ view s.state)
  unfolding get_op
  get_reads_map now ch k msg s rf room r e sv cv d =
      let (st, ans) = registered_refines now ch (get_op k) msg s rf room r e sv cv d refl in
      let s' =
        (process_apply_msg P c walk now msg (register msg.command_index ch (get_op k) s).1 rf).0 in
      (
        spec_result op_get (get_op k) (view s.state),
        ans.answer,
        respond_get-spec_result k msg.command_index (lookup k s.state) s' rf,
        st,
      )
