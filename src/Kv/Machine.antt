-- ===== src/Kv/Machine.antt =====
-- `applyCommandLocked` of kv/apply.go, and the map that it implements.
use Prim.Native.String.{◌++◌}
use mathlib.Core.Path.{fun_ext}
use distrib_kv.Prelude.{
  ◌≡◌, refl, List, [], ◌∷◌, Option, none, some, if◌then◌else◌, String, Assoc, lookup, insert,
  string_key, str_eq, lookup-insert, arith,
}
use distrib_kv.Kv.Types.{
  Op, OpKind, op_get, op_put, op_append, op_other, Result, key_not_found, unknown_op,
}

abbrev pub done : Result
done = record { value = ""; err = none }

-- state[key], which is "" for a missing key.
unfoldable pub value_or_empty : Option String → String
value_or_empty none = ""
value_or_empty (some v) = v

unfoldable pub apply_kind : OpKind → Op → Assoc String String → Result × Assoc String String
apply_kind op_put op m = (done, insert op.key op.value m)
apply_kind op_append op m = (done, insert op.key (value_or_empty (lookup op.key m) ++ op.value) m)
apply_kind op_get op m = elim (lookup op.key m) [
  | none ↦ (record { value = ""; err = some key_not_found }, m)
  | some v ↦ (record { value = v; err = none }, m)
]
apply_kind (op_other n) op m = (record { value = ""; err = some (unknown_op (op_other n)) }, m)

unfoldable pub apply_command : Op → Assoc String String → Result × Assoc String String
unfolding apply_kind
apply_command op m = apply_kind op.kind op m

-- What a client is promised: a map from keys to texts.
abbrev pub KvMap : Type 0
KvMap = String → Option String

abbrev pub set_key : KvMap → String → String → KvMap
set_key f k v j = if str_eq k j then some v else f j

abbrev pub spec_state : OpKind → Op → KvMap → KvMap
spec_state op_put op f = set_key f op.key op.value
spec_state op_append op f = set_key f op.key (value_or_empty (f op.key) ++ op.value)
spec_state op_get op f = f
spec_state (op_other n) op f = f

abbrev pub spec_result : OpKind → Op → KvMap → Result
spec_result op_get op f = elim (f op.key) [
  | none ↦ record { value = ""; err = some key_not_found }
  | some v ↦ record { value = v; err = none }
]
spec_result (op_other n) op f = record { value = ""; err = some (unknown_op (op_other n)) }
spec_result _ op f = done

abbrev pub view : Assoc String String → KvMap
view m k = lookup k m

-- One command does to the map what the specification says, and answers what it says.
apply_kind_refines :
    (k : OpKind) (op : Op) (m : Assoc String String)
    → ((apply_kind k op m).0 ≡ spec_result k op (view m))
      × ((j : String) → view (apply_kind k op m).1 j ≡ spec_state k op (view m) j)
unfolding apply_kind
apply_kind_refines op_put op m = (refl, λ j. lookup-insert op.key j op.value m)
apply_kind_refines op_append op m =
    (refl, λ j. lookup-insert op.key j (value_or_empty (lookup op.key m) ++ op.value) m)
apply_kind_refines op_get op m = (ground arith, λ j. ground arith)
apply_kind_refines (op_other n) op m = (refl, λ j. refl)

-- The commands of a log, one after the other.
unfoldable pub apply_all : List Op → Assoc String String → Assoc String String
apply_all [] m = m
apply_all (op ∷ ops) m = apply_all ops (apply_command op m).1

abbrev pub spec_all : List Op → KvMap → KvMap
spec_all [] f = f
spec_all (op ∷ ops) f = spec_all ops (spec_state op.kind op f)

pub view-apply_command :
    (op : Op) (m : Assoc String String)
    → view (apply_command op m).1 ≡ spec_state op.kind op (view m)
unfolding apply_command
view-apply_command op m = fun_ext (apply_kind_refines op.kind op m).1

pub apply_command_result :
    (op : Op) (m : Assoc String String) → (apply_command op m).0 ≡ spec_result op.kind op (view m)
unfolding apply_command
apply_command_result op m = (apply_kind_refines op.kind op m).0

-- A log of commands, applied from any map, leaves the map that the specification of Get, Put and
-- Append gives, and the next command is answered as the specification says.
pub apply_all_refines :
    (ops : List Op) (op : Op) (m : Assoc String String)
    → (view (apply_all ops m) ≡ spec_all ops (view m))
      × ((apply_command op (apply_all ops m)).0 ≡ spec_result op.kind op (spec_all ops (view m)))
unfolding apply_all
apply_all_refines [] op m = (refl, (unfold apply_command in (apply_kind_refines op.kind op m).0))
apply_all_refines (o ∷ ops) op m =
    rw (← view-apply_command o m) (apply_all_refines ops op (apply_command o m).1)
