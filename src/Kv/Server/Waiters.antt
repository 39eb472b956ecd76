-- ===== src/Kv/Server/Waiters.antt =====
-- The hand-over of a result from the apply loop to the handler that waits for it
-- (kv/apply.go notifyWaiter, kv/server.go submitOperation).
use distrib_kv.Prelude.{
  ℕ, ◌≤◌, ◌<◌, ◌≡◌, refl, ap, [], ◌∷◌, none, some, false, Assoc, lookup, insert, delete, length,
  nat_key, arith, ==_refl, lookup-insert, lookup-delete,
}
use distrib_kv.Kv.Types.{Op, Result, PendingOp, Server, too_many_pending}
use distrib_kv.Kv.Server.{
  Walk, bound_recent, send_result, notify_waiter, refused, answered, waiting, register,
}

bound_recent_small : (max : ℕ) (m : Assoc ℕ Result) → length m ≤ max → bound_recent max m ≡ m
unfolding bound_recent
bound_recent_small max [] h = refl
bound_recent_small max (x ∷ m) h = ground (arith, h)

length-bound_recent : (max : ℕ) (m : Assoc ℕ Result) → length (bound_recent max m) ≤ max
unfolding bound_recent
length-bound_recent max [] = omega arith
length-bound_recent max (x ∷ m) = ground (arith, length-bound_recent max m)

pub lookup-send_result :
    (ch : ℕ) (res : Result) (m : Assoc ℕ Result)
    → lookup ch m ≡ none
    → lookup ch (send_result ch res m) ≡ some res
unfolding send_result
lookup-send_result ch res m h = ground (arith, h, lookup-insert ch ch res m, ==_refl ch)

pub register_waits :
    (index ch : ℕ) (op : Op) (s : Server)
    → s.dead ≡ false
    → length s.pending_ops < s.max_pending
    → lookup index s.recent ≡ none
    → register index ch op s ≡ (
      waiting,
      record s {
        pending_ops =
            insert index (record { index = index; op = op; result_ch = ch }) s.pending_ops;
      },
    )
unfolding register
register_waits index ch op s d n r = ground (arith, d, n, r)

pub register_answered :
    (index ch : ℕ) (op : Op) (s : Server) {res : Result}
    → s.dead ≡ false
    → length s.pending_ops < s.max_pending
    → lookup index s.recent ≡ some res
    → register index ch op s ≡ (
      answered res,
      record s {
        pending_ops =
            insert index (record { index = index; op = op; result_ch = ch }) s.pending_ops;
        recent = delete index s.recent;
      },
    )
unfolding register
register_answered index ch op s d n r = ground (arith, d, n, r)

notify_waiting :
    (walk : Walk) (index : ℕ) (res : Result) (s : Server) {p : PendingOp}
    → lookup index s.pending_ops ≡ some p
    → notify_waiter walk index res s ≡ record s {
      pending_ops = delete index s.pending_ops;
      channels = send_result p.result_ch res s.channels;
    }
unfolding notify_waiter
notify_waiting walk index res s h = ground (arith, h)

pub notify_stashes :
    (walk : Walk) (index : ℕ) (res : Result) (s : Server)
    → lookup index s.pending_ops ≡ none
    → length (walk (insert index res s.recent)) ≤ s.max_pending
    → notify_waiter walk index res s ≡ record s { recent = walk (insert index res s.recent) }
unfolding notify_waiter
notify_stashes walk index res s h n =
    ground (arith, h, bound_recent_small s.max_pending (walk (insert index res s.recent)) n)

pub full_refuses :
    (index ch : ℕ) (op : Op) (s : Server)
    → s.dead ≡ false
    → s.max_pending ≤ length s.pending_ops
    → (register index ch op s).0 ≡ refused too_many_pending
unfolding register
full_refuses index ch op s d n = ground (arith, d, n)

-- The server has a waiter's place left.
abbrev pub HasRoom : Server → Type 0
HasRoom s = (s.dead ≡ false) × (length s.pending_ops < s.max_pending)

-- The result of an index reaches the handler that registers for it, whichever comes first, if the
-- server is not dead and has a waiter's place, nothing waits or stands in the stash for the index,
-- and the channel is empty. Registered first, the handler waits, and the result stands in its
-- channel and the waiter is gone. Notified first, the handler has the result at once, if the stash
-- with the result does not exceed its bound and the order of its walk loses no entry of the index.
pub result_reaches_handler :
    (walk : Walk) (index ch : ℕ) (op : Op) (res : Result) (s : Server)
    → HasRoom s
    → lookup index s.pending_ops ≡ none
    → lookup index s.recent ≡ none
    → lookup ch s.channels ≡ none
    → length (walk (insert index res s.recent)) ≤ s.max_pending
    → lookup index (walk (insert index res s.recent)) ≡ lookup index (insert index res s.recent)
    → let first = register index ch op s in
      let told = notify_waiter walk index res first.1 in
      ((first.0 ≡ waiting)
        × (lookup ch told.channels ≡ some res)
        × (lookup index told.pending_ops ≡ none))
      × ((register index ch op (notify_waiter walk index res s)).0 ≡ answered res)
result_reaches_handler walk index ch op res s room p r c size keep =
    let w : PendingOp = record { index = index; op = op; result_ch = ch } in
    let s' : Server = record s { pending_ops = insert index w s.pending_ops } in
    let there : lookup index s'.pending_ops ≡ some w =
      ground (arith, lookup-insert index index w s.pending_ops, ==_refl index) in
    let first = register_waits index ch op s room.0 room.1 r in
    let told = notify_waiting walk index res s' there in
    let stash = notify_stashes walk index res s p size in
    let kept : lookup index (walk (insert index res s.recent)) ≡ some res =
      ground (arith, keep, lookup-insert index index res s.recent, ==_refl index) in
    (
      (
        ap (λ x. x.0) first,
        rw (first, told) (lookup-send_result ch res s.channels c),
        rw (first, told) (ground (arith, lookup-delete index index s'.pending_ops, ==_refl index)),
      ),
      rw stash (
          ap (λ x. x.0)
            (register_answered index ch op (record s { recent = walk (insert index res s.recent) })
              room.0 room.1 kept)),
    )
