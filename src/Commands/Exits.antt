-- ===== src/Commands/Exits.antt =====
-- What the exit codes of cmd/kvserver/main.go mean.
use distrib_kv.Prelude.{
  ◌≡◌, ◌≢◌, refl, ◌↔◌, Option, some, Bool, true, false, String, ℤ, pos, int_eq_iff, arith,
  Option-cases, inl, inr,
}
use distrib_kv.Config.{Config, Node, Loaded, loaded, refused, node_by_id}
use distrib_kv.Server.{Process, Started, started, failed, crashed, shut_down}
use distrib_kv.Commands.{
  ServingStatus, Wake, signalled, serve_returned, run_server, run_health_check,
}

run_server_stopped :
    {S : Type 0} (i : ℤ) (s : Started S) (w : Wake)
    → (run_server i s w).0 ≡ 0
    → (i ≢ pos 0)
      × (w ≢ serve_returned true)
      × ((p : Process S) × (s ≡ started p) × ((run_server i s w).1 ≡ some (shut_down p)))
unfolding run_server
run_server_stopped i (failed e l) w h = absurd (ground arith)
run_server_stopped i crashed w h = absurd (ground arith)
run_server_stopped i (started p) signalled h =
    (λ e. ground (arith, int_eq_iff i (pos 0)), λ e. cc, (p, refl, ground arith))
run_server_stopped i (started p) (serve_returned true) h = absurd (ground arith)
run_server_stopped i (started p) (serve_returned false) h =
    (λ e. ground (arith, int_eq_iff i (pos 0)), λ e. cc, (p, refl, ground arith))

run_server-zero :
    {S : Type 0} (i : ℤ) (s : Started S) (w : Wake)
    → (i ≢ pos 0)
      × (w ≢ serve_returned true)
      × ((p : Process S) × (s ≡ started p) × ((run_server i s w).1 ≡ some (shut_down p)))
    → (run_server i s w).0 ≡ 0
unfolding run_server
run_server-zero i (failed e l) w (n, b, (p, h, k)) = cc
run_server-zero i crashed w (n, b, (p, h, k)) = cc
run_server-zero i (started q) signalled (n, b, (p, h, k)) = ground arith
run_server-zero i (started q) (serve_returned true) (n, b, (p, h, k)) = absurd (b refl)
run_server-zero i (started q) (serve_returned false) (n, b, (p, h, k)) = ground arith

-- `kvserver` exits with 0 exactly if it was given an id that is not 0, its node started, and it was
-- woken by a signal or by a Serve that returned no error; then the node has been shut down.
pub run_server_zero :
    {S : Type 0} (i : ℤ) (s : Started S) (w : Wake)
    → ((run_server i s w).0 ≡ 0) ↔ (
        (i ≢ pos 0)
        × (w ≢ serve_returned true)
        × ((p : Process S) × (s ≡ started p) × ((run_server i s w).1 ≡ some (shut_down p))))
run_server_zero i s w = (run_server_stopped i s w, run_server-zero i s w)

abbrev Passed : ℤ → Loaded → Bool → (String → Option ServingStatus) → Type 0
Passed i l dials reply =
    (i ≢ pos 0)
    × (dials ≡ true)
    × ((c : Config) × (n : Node) × (s : ServingStatus) × (l ≡ loaded c)
        × (node_by_id i c ≡ some n)
        × (reply n.listen_addr ≡ some s)
        × ((run_health_check i l dials reply).1 ≡ some s))

exit_zero_means :
    (i : ℤ) (l : Loaded) (dials : Bool) (reply : String → Option ServingStatus)
    → (run_health_check i l dials reply).0 ≡ 0
    → Passed i l dials reply
unfolding run_health_check
exit_zero_means i (refused e) dials reply h = absurd (ground arith)
exit_zero_means i (loaded c) false reply h = absurd (ground arith)
exit_zero_means i (loaded c) true reply h = elim (Option-cases (node_by_id i c)) [
  | inl none_there ↦ absurd (ground arith)
  | inr (n, there) ↦ elim (Option-cases (reply n.listen_addr)) [
    | inl silent ↦ absurd (ground arith)
    | inr (s, answered) ↦ (
      λ e. ground (arith, int_eq_iff i (pos 0)),
      refl,
      (c, n, s, refl, there, answered, ground arith),
    )
  ]
]

run_health_check-zero :
    (i : ℤ) (l : Loaded) (dials : Bool) (reply : String → Option ServingStatus)
    → Passed i l dials reply
    → (run_health_check i l dials reply).0 ≡ 0
unfolding run_health_check
run_health_check-zero i (refused x) dials reply (n, d, (c, m, s, e, there, answered, k)) = cc
run_health_check-zero i (loaded x) dials reply (n, d, (c, m, s, e, there, answered, k)) =
    ground (arith, int_eq_iff i (pos 0))

-- `kvserver healthcheck` exits with 0 exactly if it was given an id that is not 0, the configuration
-- was loaded and has a node with the id, dialling works, and the call to the node's address returns a
-- status; then it prints that status.
pub run_health_check_zero :
    (i : ℤ) (l : Loaded) (dials : Bool) (reply : String → Option ServingStatus)
    → ((run_health_check i l dials reply).0 ≡ 0) ↔ (
        (i ≢ pos 0)
        × (dials ≡ true)
        × ((c : Config) × (n : Node) × (s : ServingStatus) × (l ≡ loaded c)
            × (node_by_id i c ≡ some n)
            × (reply n.listen_addr ≡ some s)
            × ((run_health_check i l dials reply).1 ≡ some s)))
run_health_check_zero i l dials reply =
    (exit_zero_means i l dials reply, run_health_check-zero i l dials reply)
