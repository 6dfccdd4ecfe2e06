-- ===== src/Translate/Process.antt =====
-- processAnOpcode: an instruction is decoded, checked, added to the table, and passed.
use shujit.Base.{
  ℕ, List, [], ◌∷◌, ◌++◌, Option, none, some, ◌>>=◌, ◌||◌, ◌==◌, ltb, if◌then◌else◌, ℤ, pos, negsuc,
}
use shujit.Opcode.{opc_end, opc_return, opc_epilogue, opc_nonnull_quick}
use shujit.Translate.Bytes.{instruction_length}
use shujit.Translate.Vm.{Vm, Insn, State}
use shujit.Translate.Decode.{Decoded, insn, omitted, failed}
use shujit.Translate.Objects.{decode, check_access}

-- The case of `opc_epilogue`: a `return` before the `end` is dropped, and the `end` takes its
-- offset.
unfoldable pub join_end : List Insn → List Insn
join_end [] = []
join_end (a ∷ []) = a ∷ []
join_end (a ∷ b ∷ []) =
    if b.opcode == opc_end
    then (if a.opcode == opc_return then record b { byteoff = a.byteoff } ∷ [] else a ∷ b ∷ [])
    else a ∷ b ∷ []
join_end (a ∷ b ∷ c ∷ rest) = a ∷ join_end (b ∷ c ∷ rest)

-- `pctableAdd`, and the flags of the code of the instruction.
unfoldable pub add : Vm → State → ℕ → ℤ → ℤ → State
add vm s code_opcode operand byteoff =
    let (throws, jumps) = vm.flags code_opcode in
    record s {
      table = s.table ++ record { opcode = code_opcode; operand = operand; byteoff = byteoff } ∷ [];
      may_throw = s.may_throw || throws;
      may_jump = s.may_jump || jumps;
    }

-- The value returned: an increment, or an exception, -1.
pub data Returned : Type 0 where
  increment : ℕ → Returned
  exception : Returned

-- The last part: an instruction of the byte code is passed, unless `byteinc` was set.
unfoldable pub passed : State → ℕ → ℤ → ℕ → Option ℕ
passed s opcode (pos pc) byteinc =
    if byteinc == 0
    then (if ltb opc_nonnull_quick opcode then some 0 else instruction_length s.code opcode pc)
    else some byteinc
passed s opcode (negsuc n) byteinc =
    if byteinc == 0 then (if ltb opc_nonnull_quick opcode then some 0 else none) else some byteinc

unfoldable pub finish : Vm → State → ℕ → ℤ → Decoded → Option (State × Returned)
finish vm s opcode byteoff (insn code_opcode operand byteinc) = do
  inc ← passed s opcode byteoff byteinc
  some (add vm s code_opcode operand byteoff, increment inc)
finish vm s opcode byteoff omitted = some (s, increment 3)
finish vm s opcode byteoff failed = some (s, exception)

unfoldable pub process_an_opcode : Vm → State → ℕ → ℤ → Option (State × Returned)
process_an_opcode vm s opcode byteoff =
    let s' = if opcode == opc_epilogue then record s { table = join_end s.table } else s in
    (do d ← decode vm s.code byteoff opcode; d' ← check_access vm d; finish vm s' opcode byteoff d')

-- Calls in a row whose results are not looked at.
unfoldable pub process_all : Vm → State → List ℕ → ℤ → Option State
process_all vm s [] byteoff = some s
process_all vm s (opcode ∷ opcodes) byteoff = do
  (s', r) ← process_an_opcode vm s opcode byteoff
  process_all vm s' opcodes byteoff
