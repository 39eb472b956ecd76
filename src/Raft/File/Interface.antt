-- ===== src/Raft/File/Interface.antt =====
-- `FilePersister` of raft/persister.go as the store of the engine, on a disk whose writes do not fail.
use distrib_kv.Prelude.{
  ℕ, ◌^◌, ◌<◌, ◌≡◌, inl, inr, List, Option, none, some, Bool, true, false, ltb, ◌&&◌, if◌then◌else◌,
  arith, Bool-cases, ltb→lt,
}
use distrib_kv.Raft.Types.{Bytes, LogEntry}
use distrib_kv.Raft.Persister.{Persister, found}
use distrib_kv.Raft.File.{
  Disk, no_fault, FilePersister, FileCodec, file_save, file_load, file_save_snapshot,
  file_load_snapshot,
}
use distrib_kv.Raft.File.RoundTrip.{
  Separate, file_load-file_save, file_load_snapshot-file_save_snapshot,
}

-- The disk after a call that returned no error.
abbrev success : Bool × Disk → Option Disk
success out = if out.0 then some out.1 else none

module _ (c : FileCodec) (p : FilePersister) where
  unfoldable pub save : ℕ → Option ℕ → List LogEntry → Disk → Option Disk
  save t v l d = success (file_save c no_fault p t v l d)

  -- An index and a term are int values, and below 2^64.
  unfoldable pub save_snapshot : Bytes → ℕ → ℕ → Disk → Option Disk
  save_snapshot b i t d =
      if ltb i (2 ^ 64) && ltb t (2 ^ 64)
      then success (file_save_snapshot no_fault p b i t d)
      else none

  success_eq : (out : Bool × Disk) {d : Disk} → success out ≡ some d → out ≡ (true, d)
  success_eq (true, x) h = ground arith
  success_eq (false, x) h = cc

  save_snapshot_inv :
      (b : Bytes) (i t : ℕ) (d d' : Disk)
      → save_snapshot b i t d ≡ some d'
      → (i < 2 ^ 64) × (t < 2 ^ 64) × (file_save_snapshot no_fault p b i t d ≡ (true, d'))
  unfolding save_snapshot
  save_snapshot_inv b i t d d' h = elim (Bool-cases (ltb i (2 ^ 64))) [
    | inl hi ↦ elim (Bool-cases (ltb t (2 ^ 64))) [
      | inl ht ↦ (
        ltb→lt i (2 ^ 64) hi,
        ltb→lt t (2 ^ 64) ht,
        success_eq (file_save_snapshot no_fault p b i t d) (let k = (rw (hi, ht) at h) in k),
      )
      | inr ht ↦ absurd (let h' : ◌≡◌ {A = Option Disk} none (some d') = (rw (hi, ht) at h) in cc)
    ]
    | inr hi ↦ absurd (let h' : ◌≡◌ {A = Option Disk} none (some d') = (rw hi at h) in cc)
  ]

  module _ (s : Separate p) where
    pub load-save :
        (t : ℕ) (v : Option ℕ) (l : List LogEntry) (d d' : Disk)
        → save t v l d ≡ some d'
        → file_load c p d' ≡ some (record { current_term = t; voted_for = v; log = l })
    unfolding save
    load-save t v l d d' h =
        let e = success_eq (file_save c no_fault p t v l d) h in
        let k = (file_load-file_save c no_fault p t v l d s).0 in ground (arith, e, k)

    pub load_snapshot-save :
        (t : ℕ) (v : Option ℕ) (l : List LogEntry) (d d' : Disk)
        → save t v l d ≡ some d'
        → file_load_snapshot p d' ≡ file_load_snapshot p d
    unfolding save
    load_snapshot-save t v l d d' h =
        let e = success_eq (file_save c no_fault p t v l d) h in
        let k = (file_load-file_save c no_fault p t v l d s).1 in ground (arith, e, k)

    pub load_snapshot-save_snapshot :
        (b : Bytes) (i t : ℕ) (d d' : Disk)
        → save_snapshot b i t d ≡ some d'
        → file_load_snapshot p d' ≡ found b i t
    unfolding save_snapshot
    load_snapshot-save_snapshot b i t d d' h =
        let (hi, ht, e) = save_snapshot_inv b i t d d' h in
        let k = (file_load_snapshot-file_save_snapshot c no_fault p b i t d s hi ht).0 in
        ground (arith, e, k)

    pub load-save_snapshot :
        (b : Bytes) (i t : ℕ) (d d' : Disk)
        → save_snapshot b i t d ≡ some d'
        → file_load c p d' ≡ file_load c p d
    unfolding save_snapshot
    load-save_snapshot b i t d d' h =
        let (hi, ht, e) = save_snapshot_inv b i t d d' h in
        let k = (file_load_snapshot-file_save_snapshot c no_fault p b i t d s hi ht).1 in
        ground (arith, e, k)

    -- `FilePersister` meets the interface.
    abbrev pub file_persister : Persister Disk
    file_persister = record {
      save = save;
      load = file_load c p;
      save_snapshot = save_snapshot;
      load_snapshot = file_load_snapshot p;
      load-save = load-save;
      load_snapshot-save = load_snapshot-save;
      load_snapshot-save_snapshot = load_snapshot-save_snapshot;
      load-save_snapshot = load-save_snapshot;
    }
