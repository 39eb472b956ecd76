-- ===== src/Kv/Clerk.antt =====
-- kv/clerk.go: the client library. Connections are made on first use; whether dialling and the call
-- succeed, and what the server answers, is the environment's choice, attempt by attempt.
pub mod Retries
use distrib_kv.Prelude.{
  ℕ, zero, suc, ◌+◌, ◌*◌, ◌^◌, ◌%◌, List, [], ◌∷◌, Option, none, some, Bool, true, false, ltb, leb,
  ◌==◌, if◌then◌else◌, length, get_elem?, String, ℤ, pos, negsuc,
}
use distrib_kv.Kv.Rpc.{GetResponse, WriteResponse}

-- The leader id -1 is none.
pub record Clerk : Type 0 where
  pub servers : List String
  pub server_ids : List ℕ
  pub leader_id : Option ℕ
  pub client_id : ℕ
  pub seq_num : ℕ

-- `MakeClerk`, with the random client id; none is the panic.
unfoldable pub make_clerk : List String → List ℕ → ℕ → Option Clerk
make_clerk [] ids client = none
make_clerk (s ∷ ss) ids client = some (record {
  servers = s ∷ ss;
  server_ids = ids;
  leader_id = none;
  client_id = client;
  seq_num = 0;
})

-- The first position of an id.
unfoldable pub position : ℕ → List ℕ → Option ℕ
position l [] = none
position l (i ∷ is) =
    let rest = position l is in
    if i == l then some 0 else elim rest [ none ↦ none | some n ↦ some (suc n) ]

unfoldable pub round_robin : Clerk → ℕ
round_robin ck = ck.seq_num % length ck.servers

-- `pickServer`.
unfoldable pub pick_server : Clerk → ℕ
unfolding position round_robin
pick_server ck = elim ck.leader_id [
  | none ↦ round_robin ck
  | some l ↦ elim (position l ck.server_ids) [ none ↦ round_robin ck | some i ↦ i ]
]

-- `updateLeader`.
unfoldable pub update_leader : ℤ → Clerk → Clerk
update_leader (pos i) ck = record ck { leader_id = some i }
update_leader (negsuc n) ck = record ck { leader_id = none }

-- ck.serverIds[serverIdx], of a list as long as `servers`.
unfoldable pub cache_leader : ℕ → Clerk → Clerk
cache_leader idx ck = record ck { leader_id = get_elem? ck.server_ids idx }

-- The nanoseconds that `backoff` sleeps: int64 arithmetic, capped at a second, or a second if the
-- product is negative.
unfoldable pub backoff_delay : ℕ → ℕ
backoff_delay attempt =
    let d = (50 * 2 ^ attempt * 10 ^ 6) % 2 ^ 64 in
    if leb (2 ^ 63) d then 10 ^ 9 else if ltb (10 ^ 9) d then 10 ^ 9 else d

-- One attempt.
pub data Try (A : Type 0) : Type 0 where
  dial_fails rpc_fails : Try A
  replies : A → Try A

-- How the loop ends: with a value, or in a panic.
pub data Ended (A : Type 0) : Type 0 where
  done : A → Ended A
  gave_up : Ended A

abbrev pub max_clerk_attempts : ℕ
max_clerk_attempts = 1000

-- The loop of `Get`, with `left` attempts left: `env` answers the attempt at the server.
unfoldable pub get_loop : (ℕ → ℕ → Try GetResponse) → ℕ → ℕ → Clerk → Ended String × Clerk
get_loop env zero attempt ck = (gave_up, ck)
get_loop env (suc left) attempt ck =
    let idx = pick_server ck in
    elim (env attempt idx) [
      | dial_fails ↦ get_loop env left (suc attempt) ck
      | rpc_fails ↦ get_loop env left (suc attempt) ck
      | replies r ↦ elim r.wrong_leader [
        | true ↦ get_loop env left (suc attempt) (update_leader r.leader_id ck)
        | false ↦ (done r.value, cache_leader idx ck)
      ]
    ]

-- The loop of `Do`: a sequence number is taken once the server has been dialled.
unfoldable pub do_loop : (ℕ → ℕ → Try WriteResponse) → ℕ → ℕ → Clerk → Ended Bool × Clerk
do_loop env zero attempt ck = (gave_up, ck)
do_loop env (suc left) attempt ck =
    let idx = pick_server ck in
    let next : Clerk = record ck { seq_num = ck.seq_num + 1 } in
    elim (env attempt idx) [
      | dial_fails ↦ do_loop env left (suc attempt) ck
      | rpc_fails ↦ do_loop env left (suc attempt) next
      | replies r ↦ elim r.wrong_leader [
        | true ↦ do_loop env left (suc attempt) (update_leader r.leader_id next)
        | false ↦ elim r.success [
          | false ↦ do_loop env left (suc attempt) next
          | true ↦ (done true, cache_leader idx next)
        ]
      ]
    ]

unfoldable pub clerk_get : (ℕ → ℕ → Try GetResponse) → Clerk → Ended String × Clerk
unfolding get_loop
clerk_get env ck = get_loop env max_clerk_attempts 0 ck

-- `Do`, and `Put` and `Append`, which differ in the request only.
unfoldable pub clerk_do : (ℕ → ℕ → Try WriteResponse) → Clerk → Ended Bool × Clerk
unfolding do_loop
clerk_do env ck = do_loop env max_clerk_attempts 0 ck
