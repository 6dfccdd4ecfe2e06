-- ===== src/WriteCode/Kinds.antt =====
-- The case labels of the switch that resolves constants, and how many constants each has.
use shujit.Base.{ℕ, List, [], ◌∷◌, ◌==◌, if◌then◌else◌}
use shujit.Opcode.{
  opc_bipush, opc_ldc2_w, opc_iload, opc_fload_fld, opc_istore, opc_istld, opc_fst_fstore, opc_ret,
  opc_lload, opc_lstore, opc_lstld, opc_dload_dld, opc_dst_dstore, opc_iinc, opc_jsr,
  opc_tableswitch, opc_lookupswitch, opc_getfield, opc_getfield2, opc_putfield, opc_putfield2,
  opc_inv_head, opc_invoke_core, opc_invoke_core_compiled, opc_invokevirtual, opc_invokevirtual_obj,
  opc_inv_spe_varspace, opc_inv_stq_varspace, opc_invoke_recursive, opc_invoke_recursive_1,
  opc_invoke_recursive_2, opc_invoke_recursive_3, opc_inlined_enter, opc_inlined_exit, opc_newarray,
  opc_multianewarray, opc_invokeignored_quick, opc_invokeignored_static,
  opc_invokeignored_static_quick,
}
use shujit.Translate.Bytes.{among}

pub data Kind : Type 0 where
  push_word push_two_words variable long_variable double_variable increment_variable : Kind
  return_offset switch_bounds switch_pairs member_slot callee_args callee_slot callee_space : Kind
  recursive_call recursive_jump enter_inlined exit_inlined operand_itself : Kind
  dimensions ignored_args ignored_static no_constant : Kind

-- The labels behind the invocations.
unfoldable pub kind_of_call : ℕ → Kind
kind_of_call opcode =
    if opcode == opc_invoke_recursive
    then recursive_call
    else if among opcode
        (opc_invoke_recursive_1 ∷ opc_invoke_recursive_2 ∷ opc_invoke_recursive_3 ∷ [])
    then recursive_jump
    else if opcode == opc_inlined_enter
    then enter_inlined
    else if opcode == opc_inlined_exit
    then exit_inlined
    else if opcode == opc_newarray
    then operand_itself
    else if opcode == opc_multianewarray
    then dimensions
    else if opcode == opc_invokeignored_quick
    then ignored_args
    else if among opcode (opc_invokeignored_static ∷ opc_invokeignored_static_quick ∷ [])
    then ignored_static
    else no_constant

-- The labels of fields and invocations.
unfoldable pub kind_of_member : ℕ → Kind
unfolding kind_of_call
kind_of_member opcode =
    if among opcode (opc_getfield ∷ opc_getfield2 ∷ opc_putfield ∷ opc_putfield2 ∷ [])
    then member_slot
    else if among opcode (opc_inv_head ∷ opc_invoke_core ∷ opc_invoke_core_compiled ∷ [])
    then callee_args
    else if among opcode (opc_invokevirtual ∷ opc_invokevirtual_obj ∷ [])
    then callee_slot
    else if among opcode (opc_inv_spe_varspace ∷ opc_inv_stq_varspace ∷ [])
    then callee_space
    else kind_of_call opcode

unfoldable pub kind_of : ℕ → Kind
unfolding kind_of_member
kind_of opcode =
    if opcode == opc_bipush
    then push_word
    else if opcode == opc_ldc2_w
    then push_two_words
    else if among opcode
        (opc_iload ∷ opc_fload_fld ∷ opc_istore ∷ opc_istld ∷ opc_fst_fstore ∷ opc_ret ∷ [])
    then variable
    else if among opcode (opc_lload ∷ opc_lstore ∷ opc_lstld ∷ [])
    then long_variable
    else if among opcode (opc_dload_dld ∷ opc_dst_dstore ∷ [])
    then double_variable
    else if opcode == opc_iinc
    then increment_variable
    else if opcode == opc_jsr
    then return_offset
    else if opcode == opc_tableswitch
    then switch_bounds
    else if opcode == opc_lookupswitch
    then switch_pairs
    else kind_of_member opcode

-- How many words are copied behind each place of `constant_table` that the case uses.
abbrev pub words_at_place : Kind → List ℕ
words_at_place push_two_words = 1 ∷ 1 ∷ []
words_at_place long_variable = 1 ∷ 1 ∷ []
words_at_place increment_variable = 2 ∷ []
words_at_place switch_bounds = 1 ∷ 1 ∷ []
words_at_place recursive_call = 1 ∷ 1 ∷ []
words_at_place enter_inlined = 1 ∷ 1 ∷ []
words_at_place no_constant = []
words_at_place push_word = 1 ∷ []
words_at_place variable = 1 ∷ []
words_at_place double_variable = 1 ∷ []
words_at_place return_offset = 1 ∷ []
words_at_place switch_pairs = 1 ∷ []
words_at_place member_slot = 1 ∷ []
words_at_place callee_args = 1 ∷ []
words_at_place callee_slot = 1 ∷ []
words_at_place callee_space = 1 ∷ []
words_at_place recursive_jump = 1 ∷ []
words_at_place exit_inlined = 1 ∷ []
words_at_place operand_itself = 1 ∷ []
words_at_place dimensions = 1 ∷ []
words_at_place ignored_args = 1 ∷ []
words_at_place ignored_static = 1 ∷ []
