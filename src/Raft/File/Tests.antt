-- ===== src/Raft/File/Tests.antt =====
-- Runs of `FilePersister` with simple encodings in place of encoding/json and base64.
use Prim.Native.Char.{Char, code}
use text.Mathlib.TextBridge.{to_list, of_list, to_list-of_list}
use mathlib.Core.Option
use distrib_kv.Prelude.{
  ℕ, zero, suc, ◌+◌, ◌≡◌, ◌≢◌, refl, ap, ◌∙◌, List, [], ◌∷◌, Option, none, some, false, ◌==◌,
  if◌then◌else◌, str_eq, str_eq_iff, arith, String,
}
use distrib_kv.Raft.Types.{Bytes, LogEntry}
use distrib_kv.Raft.Persister.{found}
use distrib_kv.Raft.File.{
  no_fault, temp_file, atomic_write, FilePersister, FileCodec, PersistentState, PersistentEntry,
  persistent_log, file_save, file_load, file_save_snapshot, file_load_snapshot,
}
use distrib_kv.Raft.File.RoundTrip.{
  Separate, file_load-file_save, file_load_snapshot-file_save_snapshot,
}

-- A number in unary: as many ones, and a zero.
abbrev unary : ℕ → List Char → List Char
unary zero cs = "0" ∷ cs
unary (suc n) cs = "1" ∷ unary n cs

abbrev write_unary : Bytes → List Char
write_unary [] = []
write_unary (n ∷ b) = unary n (write_unary b)

abbrev read_unary : ℕ → List Char → Option Bytes
read_unary n [] = some []
read_unary n (c ∷ cs) =
    let more = read_unary (suc n) cs in
    let rest = read_unary 0 cs in if code c == 48 then Option.map (◌∷◌ n) rest else more

read_unary-unary :
    (n k : ℕ) (cs : List Char)
    → read_unary k (unary n cs) ≡ Option.map (◌∷◌ (k + n)) (read_unary 0 cs)
read_unary-unary zero k cs = let e : k + 0 ≡ k = omega arith in rw e refl
read_unary-unary (suc n) k cs =
    let e : k + suc n ≡ suc k + n = omega arith in rw e (read_unary-unary n (suc k) cs)

pub read_unary-write_unary : (b : Bytes) → read_unary 0 (write_unary b) ≡ some b
read_unary-write_unary [] = refl
read_unary-write_unary (n ∷ b) =
    let e : 0 + n ≡ n = omega arith in
    read_unary-unary n 0 (write_unary b) ∙ rw (e, read_unary-write_unary b) refl

-- States with one entry, which has no command.
abbrev marshal_state : PersistentState → Option Bytes
marshal_state s = elim s.voted_for [
  | none ↦ none
  | some v ↦ elim s.log [
    | [] ↦ none
    | e ∷ es ↦ elim es [
      | x ∷ xs ↦ none
      | [] ↦ if str_eq e.command "" then some (s.current_term ∷ v ∷ e.index ∷ e.term ∷ []) else none
    ]
  ]
]

abbrev unmarshal_state : Bytes → Option PersistentState
unmarshal_state (t ∷ v ∷ i ∷ et ∷ []) = some (record {
  current_term = t;
  voted_for = some v;
  log = record { index = i; term = et; command = "" } ∷ [];
})
unmarshal_state _ = none

unmarshal_fields :
    (t : ℕ) (v : Option ℕ) (l : List PersistentEntry) (b : Bytes)
    → marshal_state (record { current_term = t; voted_for = v; log = l }) ≡ some b
    → unmarshal_state b ≡ some (record { current_term = t; voted_for = v; log = l })
unmarshal_fields t none l b h = absurd (ground arith)
unmarshal_fields t (some v) [] b h = absurd (ground arith)
unmarshal_fields t (some v) (e ∷ x ∷ xs) b h = absurd (ground arith)
unmarshal_fields t (some v) (e ∷ []) b h = ground (arith, str_eq_iff e.command "")

pub unmarshal_state-marshal_state :
    (s : PersistentState) (b : Bytes) → marshal_state s ≡ some b → unmarshal_state b ≡ some s
unmarshal_state-marshal_state s b h = unmarshal_fields s.current_term s.voted_for s.log b h

abbrev pub codec : FileCodec
codec = record {
  marshal = marshal_state;
  unmarshal = unmarshal_state;
  base64_encode = λ b. of_list (write_unary b);
  base64_decode = λ s. read_unary 0 (to_list s);
  unmarshal-marshal = unmarshal_state-marshal_state;
  base64_decode-base64_encode =
      λ b. ap (read_unary 0) (to_list-of_list (write_unary b)) ∙ read_unary-write_unary b;
}

abbrev files : FilePersister
files = record { filename = "data/raft-state.json"; snapshot_file = "data/snapshot.bin" }

differ : (s t : String) → str_eq s t ≡ false → s ≢ t
differ s t h e = ground (arith, h, (str_eq_iff s t).1 e)

files-Separate : Separate files
files-Separate = record {
  state_temp = differ (temp_file files.filename) files.filename refl;
  state_temp_snapshot = differ (temp_file files.filename) files.snapshot_file refl;
  snapshot_temp = differ (temp_file files.snapshot_file) files.snapshot_file refl;
  snapshot_temp_state = differ (temp_file files.snapshot_file) files.filename refl;
  files = differ files.filename files.snapshot_file refl;
  files' = differ files.snapshot_file files.filename refl;
}

abbrev pub entry : LogEntry
entry = record { index = 1; term = 3; command = [] }

file_load-file_save_example :
    (file_load codec files (file_save codec no_fault files 3 (some 2) (entry ∷ []) []).1
      ≡ some (record { current_term = 3; voted_for = some 2; log = entry ∷ [] }))
    × (file_load_snapshot files (file_save codec no_fault files 3 (some 2) (entry ∷ []) []).1
        ≡ file_load_snapshot files [])
unfolding file_save persistent_log atomic_write
file_load-file_save_example =
    file_load-file_save codec no_fault files 3 (some 2) (entry ∷ []) [] files-Separate

file_load_snapshot-file_save_snapshot_example :
    (file_load_snapshot files (file_save_snapshot no_fault files (5 ∷ []) 300 2 []).1
      ≡ found (5 ∷ []) 300 2)
    × (file_load codec files (file_save_snapshot no_fault files (5 ∷ []) 300 2 []).1
        ≡ file_load codec files [])
unfolding file_save_snapshot atomic_write
file_load_snapshot-file_save_snapshot_example =
    file_load_snapshot-file_save_snapshot codec no_fault files (5 ∷ []) 300 2 [] files-Separate
      (omega arith) (omega arith)
