-- ===== src/Raft/File/RoundTrip.antt =====
-- What `FilePersister` of raft/persister.go reads back after a write, whole or failed.
use native.Mathlib.Omega.{pow_step}
use distrib_kv.Prelude.{
  ℕ, zero, suc, ◌/◌, ◌^◌, ◌≤◌, ◌<◌, ◌≡◌, ◌≢◌, refl, ap, sym, ◌∙◌, inl, inr, List, [], ◌∷◌, Option,
  none, some, true, le→ltb, if◌then◌else◌, length, take, drop, lookup, string_key, arith,
  Option-cases,
}
use distrib_kv.Raft.Types.{Bytes, LogEntry}
use distrib_kv.Raft.Persister.{HardState, SnapshotRead, found, no_snapshot}
use distrib_kv.Raft.File.{
  Disk, Fault, temp_file, atomic_write, FilePersister, FileCodec, put_uint, get_uint,
  snapshot_magic, snapshot_hdr_sz, same_bytes, persistent_log, decode_log, file_save, file_load,
  snapshot_image, file_save_snapshot, read_image, file_load_snapshot,
}
use distrib_kv.Raft.File.Atomic.{atomic_write_target}

-- The two files and their temporary files are four different ones.
pub record Separate (p : FilePersister) : Type 0 where
  pub state_temp : temp_file p.filename ≢ p.filename
  pub state_temp_snapshot : temp_file p.filename ≢ p.snapshot_file
  pub snapshot_temp : temp_file p.snapshot_file ≢ p.snapshot_file
  pub snapshot_temp_state : temp_file p.snapshot_file ≢ p.filename
  pub files : p.filename ≢ p.snapshot_file
  pub files' : p.snapshot_file ≢ p.filename

pub get_uint-put_uint : (k n : ℕ) → n < 256 ^ k → get_uint (put_uint k n) ≡ n
unfolding get_uint put_uint
get_uint-put_uint zero n h = omega arith
get_uint-put_uint (suc k) n h =
    let step = pow_step 256 k in
    let rest = get_uint-put_uint k (n / 256) (omega (arith, h, step)) in omega (arith, rest)

read_image_valid :
    (raw : Bytes)
    → snapshot_hdr_sz ≤ length raw
    → same_bytes (take 8 raw) snapshot_magic ≡ true
    → read_image raw
      ≡ found
          (drop snapshot_hdr_sz raw)
          (get_uint (take 8 (drop 8 raw)))
          (get_uint (take 8 (drop 16 raw)))
unfolding read_image
read_image_valid raw long magic = rw (le→ltb (length raw) snapshot_hdr_sz long, magic) refl

read_image-snapshot_image :
    (bytes : Bytes) (i t : ℕ)
    → i < 256 ^ 8
    → t < 256 ^ 8
    → read_image (snapshot_image bytes i t) ≡ found bytes i t
unfolding snapshot_image put_uint same_bytes
read_image-snapshot_image bytes i t hi ht =
    read_image_valid (snapshot_image bytes i t) (omega arith) refl
    ∙ ap (λ x. found bytes x (get_uint (put_uint 8 t))) (get_uint-put_uint 8 i hi)
    ∙ ap (found bytes i) (get_uint-put_uint 8 t ht)

decode_log-persistent_log :
    (c : FileCodec) (l : List LogEntry) → decode_log c (persistent_log c l) ≡ some l
unfolding decode_log persistent_log
decode_log-persistent_log c [] = refl
decode_log-persistent_log c (e ∷ es) =
    rw (c.base64_decode-base64_encode e.command, decode_log-persistent_log c es) refl

-- `Load` and `LoadSnapshot`, on what stands in the file.
abbrev read_state : FileCodec → Option Bytes → Option HardState
read_state c o = elim o [
  | none ↦ none
  | some b ↦ elim (c.unmarshal b) [
    | none ↦ none
    | some s ↦ elim (decode_log c s.log) [
      | none ↦ none
      | some l ↦ some (record { current_term = s.current_term; voted_for = s.voted_for; log = l })
    ]
  ]
]

abbrev read_snapshot : Option Bytes → SnapshotRead
read_snapshot o = elim o [ none ↦ no_snapshot | some raw ↦ read_image raw ]

file_load_reads :
    (c : FileCodec) (p : FilePersister) (d : Disk)
    → file_load c p d ≡ read_state c (lookup p.filename d)
unfolding file_load
file_load_reads c p d = refl

file_load_snapshot_reads :
    (p : FilePersister) (d : Disk)
    → file_load_snapshot p d ≡ read_snapshot (lookup p.snapshot_file d)
unfolding file_load_snapshot
file_load_snapshot_reads p d = refl

read_state_saved :
    (c : FileCodec) (t : ℕ) (v : Option ℕ) (l : List LogEntry) (b : Bytes)
    → c.marshal (record { current_term = t; voted_for = v; log = persistent_log c l }) ≡ some b
    → read_state c (some b) ≡ some (record { current_term = t; voted_for = v; log = l })
read_state_saved c t v l b e =
    rw
      (
        c.unmarshal-marshal (record { current_term = t; voted_for = v; log = persistent_log c l }) b
            e,
        read_state,
        decode_log-persistent_log c l,
      )
      refl

-- After FilePersister.Save, however the write ends, Load finds the saved state if Save returned no
-- error, and what it found before otherwise; LoadSnapshot finds what it found before. The two files
-- and their temporary files are four different ones.
pub file_load-file_save :
    (c : FileCodec) (fault : Fault) (p : FilePersister) (t : ℕ) (v : Option ℕ) (l : List LogEntry)
    (d : Disk)
    → Separate p
    → let out = file_save c fault p t v l d in
      (file_load c p out.1 ≡ (
        if out.0
        then some (record { current_term = t; voted_for = v; log = l })
        else file_load c p d))
      × (file_load_snapshot p out.1 ≡ file_load_snapshot p d)
unfolding file_save
file_load-file_save c fault p t v l d s =
    elim (Option-cases
      (c.marshal (record { current_term = t; voted_for = v; log = persistent_log c l }))) [
        | inl e ↦ rw (e, file_save) (refl, refl)
        | inr (b, e) ↦
            let out = atomic_write fault p.filename b d in
            let (mine, other) =
              atomic_write_target fault p.filename p.snapshot_file b d s.state_temp
                s.state_temp_snapshot s.files in
            let back = read_state_saved c t v l b e in
            rw (e, file_save)
              (
                ground (
                  arith,
                  file_load_reads c p out.1,
                  file_load_reads c p d,
                  ap (read_state c) mine,
                  back,
                ),
                file_load_snapshot_reads p out.1
                    ∙ ap read_snapshot other
                    ∙ sym (file_load_snapshot_reads p d),
              )
      ]

-- After FilePersister.SaveSnapshot of an index and a term below 2^64, however the write ends,
-- LoadSnapshot finds the saved bytes, index and term if SaveSnapshot returned no error, and what it
-- found before otherwise; Load finds what it found before. The two files and their temporary files
-- are four different ones.
pub file_load_snapshot-file_save_snapshot :
    (c : FileCodec) (fault : Fault) (p : FilePersister) (bytes : Bytes) (i t : ℕ) (d : Disk)
    → Separate p
    → i < 2 ^ 64
    → t < 2 ^ 64
    → let out = file_save_snapshot fault p bytes i t d in
      (file_load_snapshot p out.1 ≡ (if out.0 then found bytes i t else file_load_snapshot p d))
      × (file_load c p out.1 ≡ file_load c p d)
unfolding file_save_snapshot
file_load_snapshot-file_save_snapshot c fault p bytes i t d s hi ht =
    let out = atomic_write fault p.snapshot_file (snapshot_image bytes i t) d in
    let (mine, other) =
      atomic_write_target fault p.snapshot_file p.filename (snapshot_image bytes i t) d
        s.snapshot_temp s.snapshot_temp_state s.files' in
    let back = read_image-snapshot_image bytes i t (omega (arith, hi)) (omega (arith, ht)) in
    (
      ground (
        arith,
        file_load_snapshot_reads p out.1,
        file_load_snapshot_reads p d,
        ap read_snapshot mine,
        back,
      ),
      file_load_reads c p out.1 ∙ ap (read_state c) other ∙ sym (file_load_reads c p d),
    )
