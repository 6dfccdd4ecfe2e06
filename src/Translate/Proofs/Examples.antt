-- ===== src/Translate/Proofs/Examples.antt =====
-- The translation of small methods.
use shujit.Base.{
  ℕ, ◌^◌, ◌-◌, ◌≡◌, ◌≢◌, refl, inl, arith, List, [], ◌∷◌, some, some-injective, ℤ, pos, negsuc,
  get_elem?, true, false,
}
use shujit.Opcode.{
  opc_epilogue, opc_iload_0, opc_iadd, opc_ireturn, opc_monitorenter, opc_methodhead, opc_start,
  opc_iload, opc_bipush, opc_stateto1, opc_end, opc_methodtail,
}
use shujit.Translate.Vm.{Vm, Insn, State, no_class}
use shujit.Translate.Bytes.{instruction_length, tableswitch_length, get_int32, byte_at, get_uint16}
use shujit.Translate.Decode.{decode_simple, decode_constant, decode_indexed, indexed, local_index}
use shujit.Translate.Objects.{decode, check_access}
use shujit.Translate.Process.{add, passed, finish, join_end, process_an_opcode, process_all}
use shujit.Translate.Plan.{plan, plan_float}
use shujit.Translate.Loop.{
  Outcome, done, running, by_plan, one_instruction, advance, translate_loop, head_opcodes,
  tail_opcodes, method_tail, finished, make_pc_table, int_max,
}
use shujit.Translate.Proofs.AddsAt.{AddsAt}
use shujit.Translate.Proofs.Own.{one_instruction-AddsAt}
use shujit.Translate.Proofs.Ends.{monitor_hangs}

abbrev vm : Vm
vm = record {
  field = λ n. no_class;
  klass = λ n. no_class;
  method = λ n. no_class;
  flags = λ n. (false, false);
  in_try = λ n. false;
  class_name = "Add";
  strict = false;
  synchronized = false;
  static_method = true;
  has_handlers = false;
  fpu_double = true;
  opt_codedb = false;
  opt_ignlock = true;
  opt_ignstrictfp = false;
  opt_frcstrictfp = false;
}

-- iload_0, bipush -2, iadd, ireturn
abbrev start : State
start = record {
  table = [];
  may_throw = false;
  may_jump = false;
  ninsn = 0;
  code = opc_iload_0 ∷ 16 ∷ 254 ∷ opc_iadd ∷ opc_ireturn ∷ [];
}

abbrev translated : Outcome
translated = make_pc_table vm 6 5 start

opcodes_of : List Insn → List (ℕ × ℤ)
opcodes_of [] = []
opcodes_of (i ∷ is) = (i.opcode, i.byteoff) ∷ opcodes_of is

opcodes_of_run : Outcome → List (ℕ × ℤ)
opcodes_of_run (done s) = opcodes_of s.table
opcodes_of_run o = []

-- The `return` of the method and its `end` are joined at the offset of the `return`.
translated_test :
    opcodes_of_run translated
    ≡ (opc_methodhead, negsuc 0)
      ∷ (opc_start, negsuc 0)
      ∷ (opc_iload, pos 0)
      ∷ (opc_bipush, pos 1)
      ∷ (opc_iadd, pos 3)
      ∷ (opc_stateto1, pos 4)
      ∷ (opc_end, pos 4)
      ∷ (opc_epilogue, pos int_max)
      ∷ (opc_methodtail, pos int_max)
      ∷ []
unfolding make_pc_table finished method_tail head_opcodes tail_opcodes translate_loop advance
    one_instruction by_plan plan plan_float process_all process_an_opcode join_end finish passed add
    decode check_access decode_simple decode_constant decode_indexed indexed local_index byte_at
    instruction_length get_uint16 opcodes_of opcodes_of_run
translated_test = refl

abbrev loaded : State
loaded = record {
  table = record { opcode = opc_iload; operand = pos 0; byteoff = pos 0 } ∷ [];
  may_throw = false;
  may_jump = false;
  ninsn = 1;
  code = start.code;
}

loaded_run : one_instruction vm 6 start 0 ≡ some (some (loaded, 1))
unfolding one_instruction by_plan plan process_an_opcode finish passed add decode check_access
    decode_indexed indexed instruction_length
loaded_run = refl

loads : get_elem? start.code 0 ≢ some opc_epilogue
loads e = absurd (omega (arith, some-injective _ _ e))

one_instruction-AddsAt_example : AddsAt (pos 0) start loaded
one_instruction-AddsAt_example = one_instruction-AddsAt vm 6 start loaded 0 1 loads loaded_run

-- A method whose only instruction is `monitorenter`.
abbrev enter : State
enter = record {
  table = [];
  may_throw = false;
  may_jump = false;
  ninsn = 0;
  code = opc_monitorenter ∷ [];
}

monitor_hangs_example : translate_loop vm 1 1000 0 enter ≡ running
monitor_hangs_example =
    monitor_hangs vm 1 1000 0 opc_monitorenter enter refl (inl refl) (omega arith) refl

-- A `tableswitch` with the bounds 5 and 0, at the offset 6 behind six `nop`s: it has the length -2, and the loop goes
-- back to the offset 4.
abbrev backward : State
backward = record start {
  code = 0 ∷ 0 ∷ 0 ∷ 0 ∷ 0 ∷ 0 ∷ 170 ∷ 0 ∷ 0 ∷ 0 ∷ 0 ∷ 0 ∷ 0 ∷ 0 ∷ 0 ∷ 5 ∷ 0 ∷ 0 ∷ 0 ∷ 0 ∷ 177 ∷ [];
}

backward_length : instruction_length backward.code 170 6 ≡ some (2 ^ 32 - 2)
unfolding instruction_length tableswitch_length get_int32 get_uint16 byte_at
backward_length = refl
