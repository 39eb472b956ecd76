-- ===== src/Commands.antt =====
-- cmd/kvserver/main.go, cmd/smoke/main.go and health/service.go: the programs, up to their exit codes.
-- Flags are parsed; signals, dialling, time and what a server answers are the environment.
pub mod Exits
pub mod Tests
use distrib_kv.Prelude.{
  ℕ, List, [], ◌∷◌, Option, none, some, Bool, true, false, if◌then◌else◌, String, str_eq, ℤ, pos,
  pos_part, int_eq,
}
use distrib_kv.Config.{Config, Node, Loaded, loaded, refused, node_by_id}
use distrib_kv.Kv.Rpc.{GetResponse, WriteResponse}
use distrib_kv.Kv.Clerk.{Clerk, make_clerk, Try, Ended, done, gave_up, clerk_get, clerk_do}
use distrib_kv.Server.{Process, Started, started, failed, crashed, shut_down}

-- health/service.go
pub data ServingStatus : Type 0 where
  unknown serving not_serving service_unknown : ServingStatus

-- `Check`, whatever service it is asked for.
unfoldable pub check : String → ServingStatus
check service = serving

-- What a call of `Watch` ends with.
pub data StreamEnd : Type 0 where
  unimplemented : StreamEnd

unfoldable pub watch : String → StreamEnd
watch service = unimplemented

-- How the wait of `runServer` ends: a signal, or the return of grpcServer.Serve, which may be an error.
pub data Wake : Type 0 where
  signalled : Wake
  serve_returned : (failed : Bool) → Wake

-- `runServer`: the exit code, and the node as the process leaves it. A panic exits with 2.
module _ {S : Type 0} where
  unfoldable pub run_server : ℤ → Started S → Wake → ℕ × Option (Process S)
  run_server i s w = if int_eq i (pos 0) then (2, none) else elim s [
    | failed e listening ↦ (1, none)
    | crashed ↦ (2, none)
    | started p ↦ elim w [
      | signalled ↦ (0, some (shut_down p))
      | serve_returned bad ↦ if bad then (1, some p) else (0, some (shut_down p))
    ]
  ]

-- `runHealthCheck`: the exit code, and the status that it prints. `reply` is what the call to the
-- address returns.
unfoldable pub run_health_check :
    ℤ → Loaded → (dials : Bool) → (reply : String → Option ServingStatus) → ℕ × Option ServingStatus
run_health_check i l dials reply = if int_eq i (pos 0) then (2, none) else elim l [
  | refused e ↦ (1, none)
  | loaded c ↦ elim (node_by_id i c) [
    | none ↦ (1, none)
    | some n ↦
        if dials
        then elim (reply n.listen_addr) [ none ↦ (1, none) | some s ↦ (0, some s) ]
        else (1, none)
  ]
]

-- The addresses and the ids that the smoke test gives to its Clerk.
unfoldable pub addresses : List Node → List String
addresses [] = []
addresses (n ∷ ns) = n.listen_addr ∷ addresses ns

unfoldable pub node_ids : List Node → List ℕ
node_ids [] = []
node_ids (n ∷ ns) = pos_part n.id ∷ node_ids ns

-- What the servers answer to the three calls of one attempt.
pub record Replies : Type 0 where
  pub to_put : ℕ → ℕ → Try WriteResponse
  pub to_append : ℕ → ℕ → Try WriteResponse
  pub to_get : ℕ → ℕ → Try GetResponse

-- `tryOnce`; true: no error. A panic of the Clerk is an error.
unfoldable pub try_once : ℕ → List Node → Replies → Bool
unfolding addresses node_ids
try_once client ns r = elim (make_clerk (addresses ns) (node_ids ns) client) [
  | none ↦ false
  | some ck ↦
      let (put, ck1) = clerk_do r.to_put ck in
      elim put [
        | gave_up ↦ false
        | done a ↦
            let (append, ck2) = clerk_do r.to_append ck1 in
            elim append [
              | gave_up ↦ false
              | done b ↦ elim (clerk_get r.to_get ck2).0 [
                | gave_up ↦ false
                | done v ↦ str_eq v "hello-world"
              ]
            ]
      ]
]

-- `run`, for the attempts that begin before the timeout; each has a Clerk of its own.
unfoldable pub smoke_loop : List Node → ℕ → Replies → List (ℕ × Replies) → Bool
unfolding try_once
smoke_loop ns client r [] = try_once client ns r
smoke_loop ns client r ((client', r') ∷ more) =
    let rest = smoke_loop ns client' r' more in if try_once client ns r then true else rest

unfoldable pub smoke_run : Loaded → ℕ → Replies → List (ℕ × Replies) → Bool
unfolding smoke_loop
smoke_run (refused e) client r more = false
smoke_run (loaded c) client r more = smoke_loop c.nodes client r more
