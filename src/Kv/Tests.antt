-- ===== src/Kv/Tests.antt =====
-- Runs of the key-value server on concrete states, with a codec for two commands, a Get and small
-- images in place of encoding/json.
use distrib_kv.Prelude.{
  ℕ, ◌≤◌, ◌≡◌, refl, [], ◌∷◌, Option, none, some, arith, length, lookup, insert, nat_key,
  string_key, Assoc, String, str_eq, str_eq_iff, if◌then◌else◌, ◌&&◌, ◌==◌,
}
use distrib_kv.Raft.Types.{Bytes}
use distrib_kv.Kv.Types.{
  Op, op_put, op_get, op_append, Result, PendingOp, DuplicateEntry, Server, Codec, max_duplicates,
  SnapshotEntry, Payload, shutting_down, too_many_pending,
}
use distrib_kv.Kv.Dedup.{cleanup_duplicates, drop_expired, evict}
use distrib_kv.Kv.Dedup.Bound.{cleanup_duplicates_bounded}
use distrib_kv.Kv.Machine.{apply_command, apply_all, apply_all_refines, view, spec_all, spec_result}
use distrib_kv.Kv.Server.{
  new_server, notify_waiter, register, waiting, refused, answered, kill, Walk,
}
use distrib_kv.Kv.Server.Waiters.{result_reaches_handler}
use distrib_kv.Kv.Server.Leak.{answered_waiters_leak, early_rounds}
use distrib_kv.Kv.Server.Stop.{kill_releases}

abbrev pub set_a : Op
set_a = record { kind = op_put; key = "a"; value = "1"; client_id = 5; sequence_id = 1 }

abbrev pub add_a : Op
add_a = record { kind = op_append; key = "a"; value = "2"; client_id = 5; sequence_id = 2 }

abbrev pub get_a : Op
get_a = record { kind = op_get; key = "a"; value = ""; client_id = 0; sequence_id = 0 }

apply_all_refines_example :
    (view (apply_all (set_a ∷ add_a ∷ []) []) ≡ spec_all (set_a ∷ add_a ∷ []) (view []))
    × ((apply_command get_a (apply_all (set_a ∷ add_a ∷ []) [])).0
        ≡ spec_result op_get get_a (spec_all (set_a ∷ add_a ∷ []) (view [])))
apply_all_refines_example = apply_all_refines (set_a ∷ add_a ∷ []) get_a []

abbrev pub ok : Result
ok = record { value = ""; err = none }

abbrev pub entry : DuplicateEntry
entry = record { result = record { value = "1"; err = none }; timestamp = 100 }

abbrev pub empty : Server
empty = new_server 2

-- A client with one cached result.
abbrev pub caching : Server
caching = record empty { state = ("a", "1") ∷ []; duplicates = (5, (2, entry) ∷ []) ∷ [] }

abbrev pub one_cached : Assoc ℕ DuplicateEntry
one_cached = (2, entry) ∷ []

-- A codec for two commands, and for images of one key and one cached result with fixed texts.
abbrev pub encode_image : Assoc String String → Assoc ℕ (Assoc ℕ SnapshotEntry) → Option Bytes
encode_image ((k, v) ∷ []) ((c, (s, e) ∷ []) ∷ []) =
    if str_eq k "a" && str_eq v "1" && str_eq e.value "1" && str_eq e.err ""
    then some (c ∷ s ∷ e.timestamp ∷ [])
    else none
encode_image _ _ = none

abbrev pub decode_image : Bytes → Option Payload
decode_image (c ∷ s ∷ t ∷ []) = some (record {
  state = ("a", "1") ∷ [];
  dedup = (c, (s, record { value = "1"; err = ""; timestamp = t }) ∷ []) ∷ [];
})
decode_image _ = none

pub decode_image-encode_image :
    (st : Assoc String String) (d : Assoc ℕ (Assoc ℕ SnapshotEntry)) (b : Bytes)
    → encode_image st d ≡ some b
    → decode_image b ≡ some (record { state = st; dedup = d })
decode_image-encode_image [] d b h = absurd (ground arith)
decode_image-encode_image ((k, v) ∷ x ∷ st) d b h = absurd (ground arith)
decode_image-encode_image ((k, v) ∷ []) [] b h = absurd (ground arith)
decode_image-encode_image ((k, v) ∷ []) ((c, []) ∷ d) b h = absurd (ground arith)
decode_image-encode_image ((k, v) ∷ []) ((c, (s, e) ∷ x ∷ m) ∷ d) b h = absurd (ground arith)
decode_image-encode_image ((k, v) ∷ []) ((c, (s, e) ∷ []) ∷ y ∷ d) b h = absurd (ground arith)
decode_image-encode_image ((k, v) ∷ []) ((c, (s, e) ∷ []) ∷ []) b h =
    ground (arith, str_eq_iff k "a", str_eq_iff v "1", str_eq_iff e.value "1", str_eq_iff e.err "")

abbrev pub decode_command : Bytes → Option Op
decode_command (x ∷ []) =
    if x == 1
    then some set_a
    else if x == 2
    then some add_a
    else if x == 3
    then some get_a
    else none
decode_command _ = none

pub none_encoded : (op : Op) (b : Bytes) → none ≡ some b → decode_command b ≡ some op
none_encoded op b h = absurd (ground arith)

abbrev pub codec : Codec
codec = record {
  encode = λ op. none;
  decode = decode_command;
  encode_payload = λ p. encode_image p.state p.dedup;
  decode_payload = decode_image;
  decode-encode = none_encoded;
  decode_payload-encode_payload = λ p b h. (
    p,
    decode_image-encode_image p.state p.dedup b h,
    record { state = λ k. refl; dedup = λ c s. refl },
  );
}

abbrev pub same_walk : Walk
same_walk m = m

cleanup_duplicates_bounded_example : length one_cached ≤ max_duplicates
unfolding cleanup_duplicates drop_expired evict lookup insert
cleanup_duplicates_bounded_example =
    cleanup_duplicates_bounded 200 5 ((5, (2, entry) ∷ []) ∷ []) {cm = one_cached} refl

result_reaches_handler_example :
    let first = register 7 3 set_a caching in
    let told = notify_waiter same_walk 7 ok first.1 in
    ((first.0 ≡ waiting) × (lookup 3 told.channels ≡ some ok) × (lookup 7 told.pending_ops ≡ none))
    × ((register 7 3 set_a (notify_waiter same_walk 7 ok caching)).0 ≡ answered ok)
unfolding new_server lookup insert
result_reaches_handler_example =
    result_reaches_handler same_walk 7 3 set_a ok caching (refl, omega arith) refl refl refl
      (omega arith) refl

answered_waiters_leak_example :
    ((register 8 8 set_a (
        notify_waiter same_walk 8 ok
          (early_rounds same_walk 1 7 (λ i. set_a) (λ i. ok) (new_server 2)))).0
      ≡ answered ok)
    × ((register 30 30 get_a (early_rounds same_walk 2 7 (λ i. set_a) (λ i. ok) (new_server 2))).0
        ≡ refused too_many_pending)
answered_waiters_leak_example =
    answered_waiters_leak same_walk 2 7 30 30 1 (λ i. set_a) (λ i. ok) get_a (λ x. refl)
      (omega arith)

abbrev pub handler : PendingOp
handler = record { index = 7; op = set_a; result_ch = 3 }

abbrev pub waiting_server : Server
waiting_server = record caching { pending_ops = (7, handler) ∷ [] }

kill_releases_example :
    ((res : Result) × (lookup 3 (kill waiting_server).channels ≡ some res))
    × ((kill waiting_server).pending_ops ≡ [])
    × ((register 9 4 get_a (kill waiting_server)).0 ≡ refused shutting_down)
    × (kill (kill waiting_server) ≡ kill waiting_server)
unfolding new_server lookup
kill_releases_example = kill_releases waiting_server 7 4 handler 9 get_a refl refl
