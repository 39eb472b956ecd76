-- ===== src/Kv/Server/Leak.antt =====
-- A waiter that stays behind (kv/server.go, submitOperation).
use distrib_kv.Prelude.{
  ℕ, zero, suc, ◌+◌, ◌≤◌, ◌<◌, ◌≡◌, refl, ap, ◌∙◌, [], ◌∷◌, none, some, false, Assoc, lookup,
  insert, delete, length, nat_key, arith, ==_iff, ==_refl, lookup-insert,
}
use distrib_kv.Kv.Types.{Op, Result, PendingOp, Server, too_many_pending}
use distrib_kv.Kv.Server.{Walk, notify_waiter, refused, answered, register, new_server}
use distrib_kv.Kv.Server.Waiters.{register_answered, notify_stashes, full_refuses}

-- The rounds: each result comes before its handler, which has it at once and returns.
unfoldable pub early_rounds : Walk → ℕ → ℕ → (ℕ → Op) → (ℕ → Result) → Server → Server
early_rounds walk zero index op res s = s
early_rounds walk (suc n) index op res s =
    early_rounds walk n (suc index) op res
      (register index index (op index) (notify_waiter walk index (res index) s)).1

-- The state of a server after rounds: nothing in `recent`, and every place up to `index` is behind.
record Leaked (max index used : ℕ) (s : Server) : Type 0 where
  pub alive : s.dead ≡ false
  pub bound : s.max_pending ≡ max
  pub recent : s.recent ≡ []
  pub unused : (i : ℕ) → index ≤ i → lookup i s.pending_ops ≡ none
  pub places : length s.pending_ops ≡ used

length-insert_new :
    {A : Type 0} (k : ℕ) (v : A) (m : Assoc ℕ A)
    → lookup k m ≡ none
    → length (insert k v m) ≡ suc (length m)
unfolding insert lookup
length-insert_new k v [] h = refl
length-insert_new k v ((j, w) ∷ m) h = ground (arith, length-insert_new k v m)

round-Leaked :
    (walk : Walk) (max index used : ℕ) (op : Op) (res : Result) (s : Server)
    → ((x : ℕ × Result) → walk (x ∷ []) ≡ x ∷ [])
    → Leaked max index used s
    → used < max
    → Leaked max (suc index) (suc used) (register index index op (notify_waiter walk index res s)).1
round-Leaked walk max index used op res s one l room =
    let w : PendingOp = record { index = index; op = op; result_ch = index } in
    let alone : walk (insert index res s.recent) ≡ (index, res) ∷ [] =
      rw l.recent (unfold insert in one (index, res)) in
    let s' : Server = record s { recent = walk (insert index res s.recent) } in
    let stash =
      notify_stashes walk index res s (l.unused index (omega arith))
        (rw alone (omega (arith, room, l.bound))) in
    let found : lookup index s'.recent ≡ some res =
      rw alone (unfold lookup in ground (arith, ==_refl index)) in
    let answer =
      register_answered index index op s' l.alive (omega (arith, l.places, l.bound, room)) found in
    let emptied : delete index s'.recent ≡ [] =
      rw alone (unfold delete in ground (arith, ==_refl index)) in
    rw (stash, answer)
      (record {
        alive = l.alive;
        bound = l.bound;
        recent = emptied;
        unused = λ i h. ground (
          arith,
          h,
          ==_iff index i,
          lookup-insert index i w s.pending_ops,
          l.unused i (omega (arith, h)),
        );
        places =
            length-insert_new index w s.pending_ops (l.unused index (omega arith))
            ∙ ap suc l.places;
      })

rounds-Leaked :
    (walk : Walk) (max n index used : ℕ) (op : ℕ → Op) (res : ℕ → Result) (s : Server)
    → ((x : ℕ × Result) → walk (x ∷ []) ≡ x ∷ [])
    → Leaked max index used s
    → used + n ≤ max
    → Leaked max (index + n) (used + n) (early_rounds walk n index op res s)
unfolding early_rounds
rounds-Leaked walk max zero index used op res s one l room =
    let e : index + 0 ≡ index = omega arith in let u : used + 0 ≡ used = omega arith in rw (e, u) l
rounds-Leaked walk max (suc n) index used op res s one l room =
    let e : index + suc n ≡ suc index + n = omega arith in
    let u : used + suc n ≡ suc used + n = omega arith in
    let next =
      round-Leaked walk max index used (op index) (res index) s one l (omega (arith, room)) in
    rw (e, u)
      (rounds-Leaked walk max n (suc index) (suc used) op res
        (register index index (op index) (notify_waiter walk index (res index) s)).1 one next
        (omega (arith, room)))

round_answered :
    (walk : Walk) (max index used : ℕ) (op : Op) (res : Result) (s : Server)
    → ((x : ℕ × Result) → walk (x ∷ []) ≡ x ∷ [])
    → Leaked max index used s
    → used < max
    → (register index index op (notify_waiter walk index res s)).0 ≡ answered res
round_answered walk max index used op res s one l room =
    let alone : walk (insert index res s.recent) ≡ (index, res) ∷ [] =
      rw l.recent (unfold insert in one (index, res)) in
    let s' : Server = record s { recent = walk (insert index res s.recent) } in
    let stash =
      notify_stashes walk index res s (l.unused index (omega arith))
        (rw alone (omega (arith, room, l.bound))) in
    let found : lookup index s'.recent ≡ some res =
      rw alone (unfold lookup in ground (arith, ==_refl index)) in
    rw stash (
      ap (λ x. x.0)
        (register_answered index index op s' l.alive (omega (arith, l.places, l.bound, room))
          found))

new_server-Leaked : (max index : ℕ) → 0 < max → Leaked max index 0 (new_server max)
unfolding new_server
new_server-Leaked max index h = record {
  alive = refl;
  bound = ground (arith, h);
  recent = refl;
  unused = λ i _. unfold lookup in refl;
  places = refl;
}

-- On a new server, as many results as it may have waiters each come before their handler registers:
-- the handler of every one of these rounds has its result at once, and returns. After all of them
-- no handler waits, and yet every further operation that is registered is refused, as too many are
-- pending. The walk of a map with one entry is that entry.
pub answered_waiters_leak :
    (walk : Walk) (max index j ch n : ℕ) (op : ℕ → Op) (res : ℕ → Result) (next : Op)
    → ((x : ℕ × Result) → walk (x ∷ []) ≡ x ∷ [])
    → n < max
    → let after : ℕ → Server = λ n. early_rounds walk n index op res (new_server max) in
      ((register
          (index + n)
          (index + n)
          (op (index + n))
          (notify_waiter walk (index + n) (res (index + n)) (after n))).0
        ≡ answered (res (index + n)))
      × ((register j ch next (after max)).0 ≡ refused too_many_pending)
answered_waiters_leak walk max index j ch n op res next one h =
    let start = new_server-Leaked max index (omega (arith, h)) in
    let after : (n : ℕ)
        → n ≤ max
        → Leaked max (index + n) (0 + n) (early_rounds walk n index op res (new_server max)) =
      λ n h.
        rounds-Leaked walk max n index 0 op res (new_server max) one start (omega (arith, h)) in
    (
      round_answered walk max (index + n) (0 + n) (op (index + n)) (res (index + n))
          (early_rounds walk n index op res (new_server max)) one (after n (omega (arith, h)))
          (omega (arith, h)),
      full_refuses j ch next (early_rounds walk max index op res (new_server max))
          (after max (omega arith)).alive
          (omega (arith, (after max (omega arith)).places, (after max (omega arith)).bound)),
    )
