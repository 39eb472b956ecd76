-- ===== src/Raft/File.antt =====
-- `FilePersister` of raft/persister.go over a disk. encoding/json and base64 are parameters; what the
-- operating system makes of a write is an argument.
pub mod Atomic
pub mod RoundTrip
pub mod Interface
pub mod Names
pub mod Tests
use Prim.Native.String.{◌++◌ as append_text}
use distrib_kv.Prelude.{
  ℕ, zero, suc, ◌+◌, ◌*◌, ◌/◌, ◌%◌, ◌≡◌, List, [], ◌∷◌, ◌++◌, Option, none, some, Bool, true, false,
  ltb, ◌==◌, ◌&&◌, if◌then◌else◌, length, take, drop, Assoc, lookup, insert, delete, string_key,
  String,
}
use distrib_kv.Config.Paths.{join_path, dir_path}
use distrib_kv.Raft.Types.{Bytes, LogEntry}
use distrib_kv.Raft.Persister.{HardState, SnapshotRead, found, no_snapshot, unreadable}

-- The files by name.
abbrev pub Disk : Type 0
Disk = Assoc String Bytes

-- How a write ends: the step that fails, and for a failed write what it left in the file; `removed`
-- says whether the clean-up of the temporary file works.
pub data Fault : Type 0 where
  no_fault mkdir_fails : Fault
  write_fails : (left : Option Bytes) → Fault
  open_fails sync_fails close_fails rename_fails : (removed : Bool) → Fault

abbrev pub temp_file : String → String
temp_file target = append_text target ".tmp"

-- What a write that failed leaves in the file.
unfoldable pub leave : String → Option Bytes → Disk → Disk
leave f none d = d
leave f (some b) d = insert f b d

-- The temporary file was written, and a later step failed.
unfoldable pub clean_up : Bool → String → Bytes → Disk → Disk
clean_up removed f bytes d = if removed then delete f (insert f bytes d) else insert f bytes d

-- `atomicWrite`; true: it returned no error.
unfoldable pub atomic_write : Fault → String → Bytes → Disk → Bool × Disk
unfolding leave clean_up
atomic_write no_fault target bytes d =
    (true, insert target bytes (delete (temp_file target) (insert (temp_file target) bytes d)))
atomic_write mkdir_fails target bytes d = (false, d)
atomic_write (write_fails left) target bytes d = (false, leave (temp_file target) left d)
atomic_write (open_fails removed) target bytes d =
    (false, clean_up removed (temp_file target) bytes d)
atomic_write (sync_fails removed) target bytes d =
    (false, clean_up removed (temp_file target) bytes d)
atomic_write (close_fails removed) target bytes d =
    (false, clean_up removed (temp_file target) bytes d)
atomic_write (rename_fails removed) target bytes d =
    (false, clean_up removed (temp_file target) bytes d)

pub record FilePersister : Type 0 where
  pub filename : String
  pub snapshot_file : String

-- `NewFilePersister`.
unfoldable pub new_file_persister : String → FilePersister
unfolding join_path dir_path
new_file_persister filename = record {
  filename = filename;
  snapshot_file = join_path (dir_path filename) "snapshot.bin";
}

-- The JSON shapes; the -1 of votedFor is none.
pub record PersistentEntry : Type 0 where
  pub index : ℕ
  pub term : ℕ
  pub command : String

pub record PersistentState : Type 0 where
  pub current_term : ℕ
  pub voted_for : Option ℕ
  pub log : List PersistentEntry

-- encoding/json on that shape, and base64: what was encoded decodes to itself.
pub record FileCodec : Type 0 where
  pub marshal : PersistentState → Option Bytes
  pub unmarshal : Bytes → Option PersistentState
  pub base64_encode : Bytes → String
  pub base64_decode : String → Option Bytes
  pub unmarshal-marshal :
      (s : PersistentState) (b : Bytes) → marshal s ≡ some b → unmarshal b ≡ some s
  pub base64_decode-base64_encode : (b : Bytes) → base64_decode (base64_encode b) ≡ some b

-- PutUint64 and Uint64 in little-endian order, on `k` bytes.
unfoldable pub put_uint : ℕ → ℕ → Bytes
put_uint zero n = []
put_uint (suc k) n = n % 256 ∷ put_uint k (n / 256)

unfoldable pub get_uint : Bytes → ℕ
get_uint [] = 0
get_uint (b ∷ bs) = b + 256 * get_uint bs

-- "DSKVSNP1"
abbrev pub snapshot_magic : Bytes
snapshot_magic = 68 ∷ 83 ∷ 75 ∷ 86 ∷ 83 ∷ 78 ∷ 80 ∷ 49 ∷ []

abbrev pub snapshot_hdr_sz : ℕ
snapshot_hdr_sz = length snapshot_magic + 8 + 8

unfoldable pub same_bytes : Bytes → Bytes → Bool
same_bytes [] [] = true
same_bytes [] (y ∷ ys) = false
same_bytes (x ∷ xs) [] = false
same_bytes (x ∷ xs) (y ∷ ys) = let rest = same_bytes xs ys in x == y && rest

module _ (c : FileCodec) where
  unfoldable pub persistent_log : List LogEntry → List PersistentEntry
  persistent_log [] = []
  persistent_log (e ∷ es) =
      record { index = e.index; term = e.term; command = c.base64_encode e.command }
      ∷ persistent_log es

  -- `Save`.
  unfoldable pub file_save :
      Fault → FilePersister → ℕ → Option ℕ → List LogEntry → Disk → Bool × Disk
  unfolding persistent_log
  file_save fault p t v l d =
      elim (c.marshal (record { current_term = t; voted_for = v; log = persistent_log l })) [
        | none ↦ (false, d)
        | some b ↦ atomic_write fault p.filename b d
      ]

  unfoldable pub decode_log : List PersistentEntry → Option (List LogEntry)
  decode_log [] = some []
  decode_log (e ∷ es) =
      let rest = decode_log es in
      elim (c.base64_decode e.command) [
        | none ↦ none
        | some b ↦ elim rest [
          | none ↦ none
          | some l ↦ some (record { index = e.index; term = e.term; command = b } ∷ l)
        ]
      ]

  -- `Load`: an error is none.
  unfoldable pub file_load : FilePersister → Disk → Option HardState
  unfolding decode_log
  file_load p d = elim (lookup p.filename d) [
    | none ↦ none
    | some b ↦ elim (c.unmarshal b) [
      | none ↦ none
      | some s ↦ elim (decode_log s.log) [
        | none ↦ none
        | some l ↦ some (record { current_term = s.current_term; voted_for = s.voted_for; log = l })
      ]
    ]
  ]

-- The header and the payload.
unfoldable pub snapshot_image : Bytes → ℕ → ℕ → Bytes
unfolding put_uint
snapshot_image bytes i t = snapshot_magic ++ put_uint 8 i ++ put_uint 8 t ++ bytes

-- `SaveSnapshot`.
unfoldable pub file_save_snapshot : Fault → FilePersister → Bytes → ℕ → ℕ → Disk → Bool × Disk
unfolding snapshot_image
file_save_snapshot fault p bytes i t d =
    atomic_write fault p.snapshot_file (snapshot_image bytes i t) d

-- The checks of `LoadSnapshot` on the raw file.
unfoldable pub read_image : Bytes → SnapshotRead
unfolding same_bytes get_uint
read_image raw =
    if ltb (length raw) snapshot_hdr_sz
    then unreadable
    else if same_bytes (take 8 raw) snapshot_magic
    then found (drop snapshot_hdr_sz raw) (get_uint (take 8 (drop 8 raw)))
        (get_uint (take 8 (drop 16 raw)))
    else unreadable

-- `LoadSnapshot`.
unfoldable pub file_load_snapshot : FilePersister → Disk → SnapshotRead
unfolding read_image
file_load_snapshot p d = elim (lookup p.snapshot_file d) [
  | none ↦ no_snapshot
  | some raw ↦ read_image raw
]
