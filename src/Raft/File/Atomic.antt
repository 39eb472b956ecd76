-- ===== src/Raft/File/Atomic.antt =====
-- `atomicWrite` of raft/persister.go.
use distrib_kv.Prelude.{
  ◌≡◌, ◌≢◌, refl, inl, inr, Option, none, some, Bool, false, if◌then◌else◌, lookup, insert, delete,
  string_key, String, str_eq, str_eq_iff, arith, lookup-insert, lookup-delete, Bool-cases,
}
use distrib_kv.Raft.Types.{Bytes}
use distrib_kv.Raft.File.{
  Disk, Fault, no_fault, mkdir_fails, write_fails, open_fails, sync_fails, close_fails,
  rename_fails, temp_file, leave, clean_up, atomic_write,
}

pub str_eq-false : (s t : String) → s ≢ t → str_eq s t ≡ false
str_eq-false s t n = elim (Bool-cases (str_eq s t)) [
  | inl e ↦ absurd (n ((str_eq_iff s t).0 e))
  | inr e ↦ e
]

leave_other :
    (f g : String) (b : Option Bytes) (d : Disk) → f ≢ g → lookup g (leave f b d) ≡ lookup g d
unfolding leave
leave_other f g none d n = refl
leave_other f g (some b) d n = ground (arith, lookup-insert f g b d, str_eq-false f g n)

clean_up_other :
    (removed : Bool) (f g : String) (b : Bytes) (d : Disk)
    → f ≢ g
    → lookup g (clean_up removed f b d) ≡ lookup g d
unfolding clean_up
clean_up_other removed f g b d n =
    ground (arith, lookup-insert f g b d, lookup-delete f g (insert f b d), str_eq-false f g n)

pub atomic_write_target :
    (fault : Fault) (target other : String) (bytes : Bytes) (d : Disk)
    → temp_file target ≢ target
    → temp_file target ≢ other
    → target ≢ other
    → let out = atomic_write fault target bytes d in
      (lookup target out.1 ≡ (if out.0 then some bytes else lookup target d))
      × (lookup other out.1 ≡ lookup other d)
unfolding atomic_write
atomic_write_target mkdir_fails target other bytes d n m k = (refl, refl)
atomic_write_target (write_fails left) target other bytes d n m k =
    (leave_other (temp_file target) target left d n, leave_other (temp_file target) other left d m)
atomic_write_target (open_fails removed) target other bytes d n m k = (
  clean_up_other removed (temp_file target) target bytes d n,
  clean_up_other removed (temp_file target) other bytes d m,
)
atomic_write_target (sync_fails removed) target other bytes d n m k = (
  clean_up_other removed (temp_file target) target bytes d n,
  clean_up_other removed (temp_file target) other bytes d m,
)
atomic_write_target (close_fails removed) target other bytes d n m k = (
  clean_up_other removed (temp_file target) target bytes d n,
  clean_up_other removed (temp_file target) other bytes d m,
)
atomic_write_target (rename_fails removed) target other bytes d n m k = (
  clean_up_other removed (temp_file target) target bytes d n,
  clean_up_other removed (temp_file target) other bytes d m,
)
atomic_write_target no_fault target other bytes d n m k =
    let tmp = temp_file target in
    let d' = delete tmp (insert tmp bytes d) in
    (
      ground (arith, lookup-insert target target bytes d', str_eq_iff target target),
      ground (
        arith,
        lookup-insert target other bytes d',
        lookup-delete tmp other (insert tmp bytes d),
        lookup-insert tmp other bytes d,
        str_eq-false target other k,
        str_eq-false tmp other m,
      ),
    )
