-- ===== src/Kv/Clerk/Retries.antt =====
-- How the retry loops of kv/clerk.go choose their servers.
use distrib_kv.Prelude.{ℕ, zero, suc, ◌+◌, ◌≡◌, refl, ◌⊎◌, inl, inr, some, arith}
use distrib_kv.Kv.Rpc.{WriteResponse}
use distrib_kv.Kv.Clerk.{
  Clerk, position, pick_server, Try, dial_fails, rpc_fails, gave_up, do_loop, clerk_do,
  max_clerk_attempts,
}

-- The cached leader, whatever the sequence number.
pick_server_cached :
    (ck : Clerk) (l i : ℕ)
    → ck.leader_id ≡ some l
    → position l ck.server_ids ≡ some i
    → pick_server ck ≡ i
unfolding pick_server
pick_server_cached ck l i h p = ground (arith, h, p)

do_loop_stuck :
    (env : ℕ → ℕ → Try WriteResponse) (left attempt l i : ℕ) (ck : Clerk)
    → ck.leader_id ≡ some l
    → position l ck.server_ids ≡ some i
    → ((a : ℕ) → (env a i ≡ dial_fails) ⊎ (env a i ≡ rpc_fails))
    → (do_loop env left attempt ck).0 ≡ gave_up
unfolding do_loop
do_loop_stuck env zero attempt l i ck h p down = refl
do_loop_stuck env (suc left) attempt l i ck h p down =
    let at = pick_server_cached ck l i h p in
    elim (down attempt) [
      | inl d ↦ rw (at, do_loop, d) (do_loop_stuck env left (suc attempt) l i ck h p down)
      | inr d ↦
          rw (at, do_loop, d)
            (do_loop_stuck env left (suc attempt) l i (record ck { seq_num = ck.seq_num + 1 }) h p
              down)
    ]

-- If the cached leader of a Clerk is one of its servers, and every attempt at that server fails to
-- dial or to call, Do gives up after all its attempts, whatever the other servers would answer.
pub cached_leader_is_kept :
    (env : ℕ → ℕ → Try WriteResponse) (l i : ℕ) (ck : Clerk)
    → ck.leader_id ≡ some l
    → position l ck.server_ids ≡ some i
    → ((a : ℕ) → (env a i ≡ dial_fails) ⊎ (env a i ≡ rpc_fails))
    → (clerk_do env ck).0 ≡ gave_up
unfolding clerk_do
cached_leader_is_kept env l i ck h p down = do_loop_stuck env max_clerk_attempts 0 l i ck h p down
