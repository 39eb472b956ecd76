-- ===== src/Kv/Snapshot/RoundTrip.antt =====
-- A snapshot of the state machine, taken and handed over (kv/snapshot.go).
use distrib_kv.Prelude.{
  ℕ, ◌≡◌, refl, ap, ◌∙◌, ◌⊎◌, inl, inr, List, [], ◌∷◌, Option, none, some, false, ◌==◌, ◌&&◌, Assoc,
  lookup, lookup_nil, lookup_cons, nat_key, string_key, arith, String, ==_iff,
}
use distrib_kv.Raft.Types.{ApplyMsg}
use distrib_kv.Kv.Types.{
  Err, not_leader, timeout, too_many_pending, shutting_down, unknown_op, bad_encoding, not_encoded,
  raft_failed, key_not_found, DuplicateEntry, Dups, Server, SnapshotEntry, Payload, Codec, dedup_at,
}
use distrib_kv.Kv.Dedup.{is_expired}
use distrib_kv.Kv.Dedup.Once.{cached}
use distrib_kv.Kv.Snapshot.{
  err_text, err_string, sentinel_err, snapshot_entry, image_entries, image_dedup,
  serialize_snapshot, live_entry, live_entries, live_dedup, deserialize_snapshot,
  handle_snapshot_msg,
}

-- What the text form of an error is restored to.
abbrev pub restored_err : Option Err → Option Err
restored_err none = none
restored_err (some key_not_found) = some key_not_found
restored_err (some e) = none

sentinel_err-err_string : (e : Option Err) → sentinel_err (err_string e) ≡ restored_err e
unfolding sentinel_err err_string err_text
sentinel_err-err_string none = refl
sentinel_err-err_string (some not_leader) = refl
sentinel_err-err_string (some timeout) = refl
sentinel_err-err_string (some key_not_found) = refl
sentinel_err-err_string (some too_many_pending) = refl
sentinel_err-err_string (some shutting_down) = refl
sentinel_err-err_string (some (unknown_op k)) = refl
sentinel_err-err_string (some bad_encoding) = refl
sentinel_err-err_string (some not_encoded) = refl
sentinel_err-err_string (some raft_failed) = refl

abbrev pub restored : DuplicateEntry → DuplicateEntry
restored e = record {
  result = record { value = e.result.value; err = restored_err e.result.err };
  timestamp = e.timestamp;
}

live_entry-snapshot_entry : (e : DuplicateEntry) → live_entry (snapshot_entry e) ≡ restored e
unfolding live_entry snapshot_entry
live_entry-snapshot_entry e = rw (sentinel_err-err_string e.result.err) refl

-- A fresh entry of a real id is in the image.
lookup-image_entries :
    (now client q : ℕ) (m : Assoc ℕ DuplicateEntry) {e : DuplicateEntry}
    → (client == 0 && q == 0) ≡ false
    → lookup q m ≡ some e
    → is_expired now e ≡ false
    → lookup q (image_entries now client m) ≡ some (snapshot_entry e)
unfolding image_entries
lookup-image_entries now client q [] i h f = ground (arith, lookup_nil {V = DuplicateEntry} q)
lookup-image_entries now client q ((j, x) ∷ m) {e} i h f = ground (
  arith,
  ==_iff j q,
  lookup_cons q j x m,
  lookup_cons q j (snapshot_entry x) (image_entries now client m),
  lookup-image_entries now client q m {e = e},
)

List-cases : {A : Type 0} (xs : List A) → (xs ≡ []) ⊎ ((x : A) × (ys : List A) × (xs ≡ x ∷ ys))
List-cases [] = inl refl
List-cases (x ∷ xs) = inr (x, xs, refl)

dedup_at-image_dedup :
    (now c q : ℕ) (d : Dups) {e : DuplicateEntry}
    → (c == 0 && q == 0) ≡ false
    → cached c q d ≡ some e
    → is_expired now e ≡ false
    → dedup_at c q (image_dedup now d) ≡ some (snapshot_entry e)
unfolding image_dedup
dedup_at-image_dedup now c q [] i h f = ground (arith, lookup_nil {V = Assoc ℕ DuplicateEntry} c)
dedup_at-image_dedup now c q ((j, cm) ∷ d) {e} i h f = elim (List-cases (image_entries now j cm)) [
  | inl n ↦ ground (
    arith,
    n,
    ==_iff j c,
    lookup_cons c j cm d,
    lookup_nil {V = SnapshotEntry} q,
    lookup-image_entries now j q cm {e = e},
    dedup_at-image_dedup now c q d {e = e},
  )
  | inr (x, xs, n) ↦ ground (
    arith,
    n,
    ==_iff j c,
    lookup_cons c j cm d,
    lookup_cons c j (x ∷ xs) (image_dedup now d),
    lookup-image_entries now j q cm {e = e},
    dedup_at-image_dedup now c q d {e = e},
  )
]

lookup-live_entries :
    (q : ℕ) (m : Assoc ℕ SnapshotEntry) {e : SnapshotEntry}
    → lookup q m ≡ some e
    → lookup q (live_entries m) ≡ some (live_entry e)
unfolding live_entries
lookup-live_entries q [] h = ground (arith, lookup_nil {V = SnapshotEntry} q)
lookup-live_entries q ((j, x) ∷ m) {e} h = ground (
  arith,
  lookup_cons q j x m,
  lookup_cons q j (live_entry x) (live_entries m),
  lookup-live_entries q m {e = e},
)

cached-live_dedup :
    (c q : ℕ) (d : Assoc ℕ (Assoc ℕ SnapshotEntry)) {e : SnapshotEntry}
    → dedup_at c q d ≡ some e
    → cached c q (live_dedup d) ≡ some (live_entry e)
unfolding live_dedup
cached-live_dedup c q [] h = ground (arith, lookup_nil {V = Assoc ℕ SnapshotEntry} c)
cached-live_dedup c q ((j, m) ∷ d) {e} h = ground (
  arith,
  lookup_cons c j m d,
  lookup_cons c j (live_entries m) (live_dedup d),
  cached-live_dedup c q d {e = e},
  lookup-live_entries q m {e = e},
)

handle_decoded :
    (c : Codec) (msg : ApplyMsg) (s : Server) {p : Payload}
    → c.decode_payload msg.snapshot_data ≡ some p
    → handle_snapshot_msg c msg s ≡ record s {
      state = p.state;
      duplicates = live_dedup p.dedup;
      last_applied = msg.last_included_index;
      last_snapshot_index = msg.last_included_index;
      recent = [];
    }
unfolding handle_snapshot_msg deserialize_snapshot
handle_decoded c msg s h = rw (h, handle_snapshot_msg, deserialize_snapshot) refl

-- A server that takes over the image of another one has the same value at every key, the snapshot's
-- place in the log as its applied index, and every cached result of a real id that was fresh when
-- the image was made, up to the error, of which only `key not found` is restored.
pub snapshot_restores :
    (c : Codec) (now : ℕ) (s s' : Server) (msg : ApplyMsg) (k : String) (client q : ℕ)
    (e : DuplicateEntry)
    → serialize_snapshot c now s.state s.duplicates ≡ some msg.snapshot_data
    → (client == 0 && q == 0) ≡ false
    → cached client q s.duplicates ≡ some e
    → is_expired now e ≡ false
    → let t = handle_snapshot_msg c msg s' in
      (lookup k t.state ≡ lookup k s.state)
      × (t.last_applied ≡ msg.last_included_index)
      × (cached client q t.duplicates ≡ some (restored e))
unfolding serialize_snapshot
snapshot_restores c now s s' msg k client q e h i l f =
    let (p, d, same) =
      c.decode_payload-encode_payload
        (record { state = s.state; dedup = image_dedup now s.duplicates }) msg.snapshot_data h in
    let at = same.dedup client q ∙ dedup_at-image_dedup now client q s.duplicates i l f in
    rw (handle_decoded c msg s' d) (
      same.state k,
      refl,
      cached-live_dedup client q p.dedup at ∙ ap some (live_entry-snapshot_entry e),
    )
