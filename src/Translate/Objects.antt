-- ===== src/Translate/Objects.antt =====
-- The first switch of processAnOpcode: fields, classes and arrays, which the constant pool is
-- resolved for, and the check that an access is allowed.
use shujit.Base.{
  ℕ, List, [], ◌∷◌, Option, none, some, ◌>>=◌, Bool, ◌||◌, ◌&&◌, not, ◌==◌, if◌then◌else◌, ℤ, pos,
}
use shujit.Opcode.{
  opc_getstatic, opc_putstatic, opc_getfield, opc_putfield, opc_getstatic2, opc_putstatic2,
  opc_getfield2, opc_putfield2, opc_getstatic_quick, opc_putstatic_quick, opc_getstatic2_quick,
  opc_putstatic2_quick, opc_getfield_quick, opc_putfield_quick, opc_getfield2_quick,
  opc_putfield2_quick, opc_getfield_quick_w, opc_putfield_quick_w, opc_inv_head, opc_invoke_core,
  opc_invoke_core_compiled, opc_invokevirtual, opc_invokevirtual_obj, opc_invokespecial,
  opc_inv_spe_varspace, opc_invokestatic_quick, opc_inv_stq_varspace, opc_invokestatic,
  opc_invokeinterface, opc_invokeignored_static, opc_invokeignored_static_quick,
  opc_invoke_recursive, opc_new, opc_new_quick, opc_anewarray, opc_newarray, opc_anewarray_quick,
  opc_multianewarray, opc_multianewarray_quick, opc_checkcast, opc_checkcast_quick, opc_instanceof,
  opc_instanceof_quick, opc_throw_noclassdef, opc_throw_nofield, opc_throw_instantiation,
  opc_throw_illegalaccess, opc_wide,
}
use shujit.Translate.Bytes.{among, byte_at, get_uint16}
use shujit.Translate.Vm.{Vm, Resolved, resolved, no_class, no_member, other_error, Field, Class}
use shujit.Translate.Decode.{
  Decoded, insn, omitted, failed, with_operand, decode_simple, decode_indexed,
}

-- The opcodes of an access: for one word and for two.
abbrev sized : Field → ℕ → ℕ → ℕ
sized f one two = if f.two_words then two else one

-- `ADJUST_ACCESS_STATIC`: quick instructions unless the class may be not initialized when the code
-- runs.
unfoldable pub access_static : Vm → ℕ → Resolved Field → ℕ → ℕ → ℕ → ℕ → Decoded
access_static vm operand (resolved f) one two one_quick two_quick =
    insn
      (if vm.opt_codedb || not f.initialized then sized f one two else sized f one_quick two_quick)
      (pos operand) 0
access_static vm operand no_class one two one_quick two_quick =
    insn opc_throw_noclassdef (pos operand) 3
access_static vm operand no_member one two one_quick two_quick =
    insn opc_throw_nofield (pos operand) 3
access_static vm operand other_error one two one_quick two_quick = failed

-- `ADJUST_ACCESS_FIELD`
unfoldable pub access_field : ℕ → Resolved Field → ℕ → ℕ → Decoded
access_field operand (resolved f) one two = insn (sized f one two) (pos operand) 0
access_field operand no_class one two = insn opc_throw_noclassdef (pos operand) 3
access_field operand no_member one two = insn opc_throw_nofield (pos operand) 3
access_field operand other_error one two = failed

-- `new` and `anewarray`: a class that is not found is reported when the code runs.
unfoldable pub access_class : ℕ → ℕ → Resolved Class → Decoded
access_class code_opcode operand (resolved c) =
    if code_opcode == opc_new
    then (if c.interface_or_abstract
        then insn opc_throw_instantiation (pos operand) 3
        else if c.accessible
        then insn opc_new (pos operand) 0
        else insn opc_throw_illegalaccess (pos operand) 3)
    else insn code_opcode (pos operand) 0
access_class code_opcode operand no_class = insn opc_throw_noclassdef (pos operand) 3
access_class code_opcode operand no_member = failed
access_class code_opcode operand other_error = failed

-- `instanceof`: a test for java.lang.Object is omitted. After an error other than
-- NoClassDefFoundError the code goes on with the unresolved entry: `none`.
unfoldable pub access_instanceof : ℕ → Resolved Class → Option Decoded
access_instanceof operand (resolved c) =
    some (if c.is_object then omitted else insn opc_instanceof (pos operand) 0)
access_instanceof operand no_class = some (insn opc_throw_noclassdef (pos operand) 3)
access_instanceof operand no_member = none
access_instanceof operand other_error = none

-- The opcodes whose operand is a 16-bit index that is kept as it is.
abbrev pub keeps_index : List ℕ
keeps_index =
    opc_getstatic_quick ∷ opc_putstatic_quick ∷ opc_getstatic2_quick ∷ opc_putstatic2_quick
    ∷ opc_inv_head ∷ opc_invoke_core ∷ opc_invoke_core_compiled ∷ opc_invokevirtual
    ∷ opc_invokevirtual_obj ∷ opc_invokespecial ∷ opc_inv_spe_varspace ∷ opc_invokestatic_quick
    ∷ opc_inv_stq_varspace ∷ opc_invokestatic ∷ opc_invokeinterface ∷ opc_invokeignored_static
    ∷ opc_invokeignored_static_quick ∷ opc_invoke_recursive ∷ opc_new_quick ∷ []

-- The cases whose operand is an index of the constant pool.
unfoldable pub decode_pool : Vm → ℕ → ℕ → Option Decoded
unfolding access_static access_field access_class access_instanceof
decode_pool vm opcode operand =
    if opcode == opc_getstatic
    then some (
        access_static vm operand (vm.field operand) opc_getstatic opc_getstatic2 opc_getstatic_quick
          opc_getstatic2_quick)
    else if opcode == opc_putstatic
    then some (
        access_static vm operand (vm.field operand) opc_putstatic opc_putstatic2 opc_putstatic_quick
          opc_putstatic2_quick)
    else if among opcode (opc_getfield ∷ opc_getfield_quick_w ∷ [])
    then some (access_field operand (vm.field operand) opc_getfield opc_getfield2)
    else if among opcode (opc_putfield ∷ opc_putfield_quick_w ∷ [])
    then some (access_field operand (vm.field operand) opc_putfield opc_putfield2)
    else if among opcode (opc_new ∷ opc_anewarray ∷ [])
    then some (access_class opcode operand (vm.klass operand))
    else if among opcode (opc_instanceof ∷ opc_instanceof_quick ∷ [])
    then access_instanceof operand (vm.klass operand)
    else if opcode == opc_anewarray_quick
    then with_operand opc_anewarray operand
    else if among opcode (opc_multianewarray ∷ opc_multianewarray_quick ∷ [])
    then with_operand opc_multianewarray operand
    else if among opcode (opc_checkcast ∷ opc_checkcast_quick ∷ [])
    then with_operand opc_checkcast operand
    else with_operand opcode operand

abbrev pub reads_pool : ℕ → Bool
reads_pool opcode = among opcode (
    opc_getstatic ∷ opc_putstatic ∷ opc_getfield ∷ opc_getfield_quick_w ∷ opc_putfield
    ∷ opc_putfield_quick_w ∷ opc_new ∷ opc_anewarray ∷ opc_instanceof ∷ opc_instanceof_quick
    ∷ opc_anewarray_quick ∷ opc_multianewarray ∷ opc_multianewarray_quick ∷ opc_checkcast
    ∷ opc_checkcast_quick ∷ keeps_index)

-- The quick forms with an 8-bit operand, and `newarray`.
unfoldable pub decode_quick : ℕ → Option ℕ
decode_quick opcode =
    if opcode == opc_getfield_quick
    then some opc_getfield
    else if opcode == opc_putfield_quick
    then some opc_putfield
    else if opcode == opc_getfield2_quick
    then some opc_getfield2
    else if opcode == opc_putfield2_quick
    then some opc_putfield2
    else if opcode == opc_newarray
    then some opc_newarray
    else none

-- The switch, for an opcode that is not `wide`.
unfoldable pub decode_once : Vm → List ℕ → ℤ → ℕ → Option Decoded
unfolding decode_pool decode_quick decode_simple decode_indexed byte_at get_uint16
decode_once vm code byteoff opcode =
    if reads_pool opcode
    then (do operand ← get_uint16 code byteoff 1; decode_pool vm opcode operand)
    else elim (decode_quick opcode) as (λ r. Option Decoded) [
      | some code_opcode ↦ do operand ← byte_at code byteoff 1; with_operand code_opcode operand
      | none ↦ decode_indexed opcode (decode_simple code byteoff opcode)
    ]

-- `wide` goes to the switch again with the opcode behind it. Behind another `wide` it would never
-- leave it: `none`.
unfoldable pub decode : Vm → List ℕ → ℤ → ℕ → Option Decoded
unfolding decode_once byte_at
decode vm code byteoff opcode =
    if opcode == opc_wide
    then (do
      widened ← byte_at code byteoff 1
      if widened == opc_wide then none else decode_once vm code byteoff widened)
    else decode_once vm code byteoff opcode

abbrev pub reads_field : ℕ → Bool
reads_field code_opcode = among code_opcode (
    opc_getfield ∷ opc_getfield2 ∷ opc_getstatic ∷ opc_getstatic2 ∷ opc_getstatic_quick
    ∷ opc_getstatic2_quick ∷ [])

abbrev pub writes_field : ℕ → Bool
writes_field code_opcode = among code_opcode (
    opc_putfield ∷ opc_putfield2 ∷ opc_putstatic ∷ opc_putstatic2 ∷ opc_putstatic_quick
    ∷ opc_putstatic2_quick ∷ [])

-- The second switch: an access that is not allowed throws when the code runs. A final field may be
-- written by its own class only.
unfoldable pub check_field : ℕ → Resolved Field → ℤ → ℕ → Option Decoded
check_field code_opcode (resolved f) operand byteinc = some (
    if f.accessible && not (writes_field code_opcode && f.is_final && not f.own_class)
    then insn code_opcode operand byteinc
    else insn opc_throw_illegalaccess operand 3)
check_field code_opcode r operand byteinc = none

unfoldable pub check_access : Vm → Decoded → Option Decoded
unfolding check_field
check_access vm (insn code_opcode (pos operand) byteinc) =
    if reads_field code_opcode || writes_field code_opcode
    then check_field code_opcode (vm.field operand) (pos operand) byteinc
    else some (insn code_opcode (pos operand) byteinc)
check_access vm d = some d
