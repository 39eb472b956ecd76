-- ===== src/Kv/Server/Stop.antt =====
-- `Kill` of kv/server.go: what it leaves to the handlers that wait.
use distrib_kv.Prelude.{
  ℕ, ◌≡◌, inl, inr, [], ◌∷◌, some, false, ◌==◌, Bool-cases, Option-cases, Assoc, lookup, nat_key,
  arith, ==_iff, lookup-insert,
}
use distrib_kv.Kv.Types.{Op, Result, PendingOp, Server, shutting_down}
use distrib_kv.Kv.Server.{send_result, refused, register, notify_all, kill}
use distrib_kv.Kv.Server.Waiters.{lookup-send_result}

abbrev shut : Result
shut = record { value = ""; err = some shutting_down }

send_keeps :
    (c : ℕ) (res : Result) (m : Assoc ℕ Result) (ch : ℕ) {old : Result}
    → lookup ch m ≡ some old
    → lookup ch (send_result c res m) ≡ some old
unfolding send_result
send_keeps c res m ch h = ground (arith, h, lookup-insert c ch res m, ==_iff c ch)

send_fills :
    (c : ℕ) (res : Result) (m : Assoc ℕ Result)
    → (out : Result) × (lookup c (send_result c res m) ≡ some out)
send_fills c res m = elim (Option-cases (lookup c m)) [
  | inl h ↦ (res, lookup-send_result c res m h)
  | inr (old, h) ↦ (old, send_keeps c res m c h)
]

-- What stands in a channel stays there.
notify_all_keeps :
    (ps : Assoc ℕ PendingOp) (m : Assoc ℕ Result) (ch : ℕ) {res : Result}
    → lookup ch m ≡ some res
    → lookup ch (notify_all ps m) ≡ some res
unfolding notify_all
notify_all_keeps [] m ch h = h
notify_all_keeps ((i, p) ∷ ps) m ch h =
    notify_all_keeps ps (send_result p.result_ch shut m) ch (send_keeps p.result_ch shut m ch h)

notify_all_fills :
    (ps : Assoc ℕ PendingOp) (m : Assoc ℕ Result) (i : ℕ) {p : PendingOp}
    → lookup i ps ≡ some p
    → (res : Result) × (lookup p.result_ch (notify_all ps m) ≡ some res)
unfolding notify_all lookup
notify_all_fills [] m i h = cc
notify_all_fills ((j, q) ∷ ps) m i {p} h = elim (Bool-cases (j == i)) [
  | inl e ↦
      let f = send_fills q.result_ch shut m in
      let same : q ≡ p = ground (arith, e, h) in
      (f.0, rw (← same) (notify_all_keeps ps (send_result q.result_ch shut m) q.result_ch f.1))
  | inr e ↦ notify_all_fills ps (send_result q.result_ch shut m) i {p = p} (ground (arith, e, h))
]

-- On a server that is not dead, for a handler that waits: after Kill its channel holds a result, no
-- waiter is left, a later registration is refused because the server shuts down, and a second Kill
-- changes nothing.
pub kill_releases :
    (s : Server) (i ch : ℕ) (p : PendingOp) (j : ℕ) (op : Op)
    → s.dead ≡ false
    → lookup i s.pending_ops ≡ some p
    → ((res : Result) × (lookup p.result_ch (kill s).channels ≡ some res))
      × ((kill s).pending_ops ≡ [])
      × ((register j ch op (kill s)).0 ≡ refused shutting_down)
      × (kill (kill s) ≡ kill s)
unfolding kill
kill_releases s i ch p j op d h = (
  rw (d, kill) (notify_all_fills s.pending_ops s.channels i h),
  ground (arith, d),
  (unfold register in ground (arith, d)),
  ground (arith, d),
)
