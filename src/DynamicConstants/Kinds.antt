-- ===== src/DynamicConstants/Kinds.antt =====
-- The case labels of the switch.
use shujit.Base.{ℕ, [], ◌∷◌, ◌==◌, if◌then◌else◌}
use shujit.Opcode.{
  opc_sync_static_enter, opc_sync_static_exit, opc_bipush, opc_tableswitch, opc_lookupswitch,
  opc_getstatic, opc_putstatic, opc_getstatic2, opc_putstatic2, opc_getstatic_quick,
  opc_putstatic_quick, opc_getstatic2_quick, opc_putstatic2_quick, opc_invokevirtual,
  opc_invokevirtual_obj, opc_invokespecial, opc_invokestatic_quick, opc_invokestatic,
  opc_invokeinterface, opc_new, opc_new_quick, opc_anewarray, opc_checkcast, opc_instanceof,
  opc_multianewarray, opc_inlined_enter, opc_inlined_exit,
}
use shujit.Translate.Bytes.{among}

-- `class_operand` has the opcode of the byte code for which the class is resolved.
pub data Link : Type 0 where
  own_class string_constant table_switch lookup_switch static_field static_quick : Link
  dispatched direct_method interface_method : Link
  class_operand : ℕ → Link
  array_class enter exit nothing : Link

unfoldable pub link_of_method : ℕ → Link
link_of_method opcode =
    if among opcode (opc_invokevirtual ∷ opc_invokevirtual_obj ∷ [])
    then dispatched
    else if among opcode (opc_invokespecial ∷ opc_invokestatic_quick ∷ opc_invokestatic ∷ [])
    then direct_method
    else if opcode == opc_invokeinterface
    then interface_method
    else if opcode == opc_inlined_enter
    then enter
    else if opcode == opc_inlined_exit
    then exit
    else nothing

unfoldable pub link_of_class : ℕ → Link
unfolding link_of_method
link_of_class opcode =
    if among opcode (opc_new ∷ opc_new_quick ∷ [])
    then class_operand opc_new
    else if among opcode (opc_anewarray ∷ opc_checkcast ∷ opc_instanceof ∷ [])
    then class_operand opcode
    else if opcode == opc_multianewarray
    then array_class
    else link_of_method opcode

unfoldable pub link_of : ℕ → Link
unfolding link_of_class
link_of opcode =
    if among opcode (opc_sync_static_enter ∷ opc_sync_static_exit ∷ [])
    then own_class
    else if opcode == opc_bipush
    then string_constant
    else if opcode == opc_tableswitch
    then table_switch
    else if opcode == opc_lookupswitch
    then lookup_switch
    else if among opcode (opc_getstatic ∷ opc_putstatic ∷ opc_getstatic2 ∷ opc_putstatic2 ∷ [])
    then static_field
    else if among opcode (
        opc_getstatic_quick ∷ opc_putstatic_quick ∷ opc_getstatic2_quick ∷ opc_putstatic2_quick
        ∷ [])
    then static_quick
    else link_of_class opcode
