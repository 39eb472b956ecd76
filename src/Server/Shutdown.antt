-- ===== src/Server/Shutdown.antt =====
-- What `Shutdown` of server/run.go leaves of a node.
use distrib_kv.Prelude.{ℕ, ◌≡◌, refl, [], some, true, false, lookup, nat_key, arith}
use distrib_kv.Raft.Persister.{Persister}
use distrib_kv.Raft.Node.{Raft, stop_election_timer}
use distrib_kv.Raft.Election.{become_candidate, become_leader, send_heartbeats}
use distrib_kv.Raft.Lifecycle.{stop}
use distrib_kv.Kv.Types.{Op, Result, PendingOp, shutting_down}
use distrib_kv.Kv.Server.{refused, register}
use distrib_kv.Kv.Server.Stop.{kill_releases}
use distrib_kv.Server.{Process, shut_down}

module _ {S : Type 0} where
  stop-shutdown : (r : Raft S) → (stop r).shutdown ≡ true
  unfolding stop stop_election_timer
  stop-shutdown r = ground arith

  stop_idem : (r : Raft S) → stop (stop r) ≡ stop r
  unfolding stop
  stop_idem r = ground (arith, stop-shutdown r)

  -- After Shutdown, whatever timer fires, the engine starts no election, takes no leadership and
  -- sends no heartbeat; the state machine refuses to wait for another operation, and a handler that
  -- waited has a result, if the state machine was not dead before; calls are not served, the
  -- listener is closed, and a second Shutdown changes nothing.
  pub shut_down_stops :
      (P : Persister S) (p : Process S) (i ch j : ℕ) (w : PendingOp) (op : Op)
      → p.kvs.dead ≡ false
      → lookup i p.kvs.pending_ops ≡ some w
      → let q = shut_down p in
        (become_candidate P q.rf ≡ (q.rf, []))
        × (become_leader q.rf ≡ (q.rf, []))
        × (send_heartbeats q.rf ≡ [])
        × ((register j ch op q.kvs).0 ≡ refused shutting_down)
        × ((res : Result) × (lookup w.result_ch q.kvs.channels ≡ some res))
        × (q.serving ≡ false)
        × (q.listening ≡ false)
        × (shut_down q ≡ q)
  unfolding shut_down
  shut_down_stops P p i ch j w op alive waits =
      let (res, none_left, late, again) = kill_releases p.kvs i ch w j op alive waits in
      let stopped = stop-shutdown p.rf in
      (
        (unfold become_candidate in ground (arith, stopped)),
        (unfold become_leader in ground (arith, stopped)),
        (unfold send_heartbeats in ground (arith, stopped)),
        late,
        res,
        refl,
        refl,
        (rw (stop_idem p.rf, again) refl),
      )
