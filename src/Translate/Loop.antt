-- ===== src/Translate/Loop.antt =====
-- makePCTable: the head of the method, the loop over the byte code, and the tail.
use shujit.Base.{
  ℕ, zero, suc, ◌+◌, ◌-◌, ◌^◌, List, [], ◌∷◌, ◌++◌, Option, none, some, ◌>>=◌, Bool, ◌||◌, ◌&&◌,
  not, ltb, if◌then◌else◌, pos, negsuc, get_elem?,
}
use shujit.Opcode.{
  opc_methodhead, opc_methodtail, opc_start, opc_end, opc_exc_handler, opc_epilogue,
  opc_sync_static_enter, opc_sync_static_exit, opc_sync_obj_enter, opc_sync_obj_exit,
  opc_strict_enter, opc_strict_exit, opc_fppc_save, opc_fppc_double, opc_fppc_restore,
}
use shujit.Translate.Vm.{Vm, State}
use shujit.Translate.Process.{increment, exception, process_an_opcode, process_all}
use shujit.Translate.Plan.{Plan, around, returns, invokes, default_case, skipped, fatal, plan}
use shujit.Translate.Invoke.{invoke}

-- The end of a run. `thrown`: an exception, the function returns 1. `fault`: a read outside the byte code, or a fatal
-- error. `running`: the fuel ran out.
pub data Outcome : Type 0 where
  done : State → Outcome
  thrown fault running : Outcome

-- One pass through the loop: the state and the increment. The outer `none` is a fault, the inner one
-- an exception.
unfoldable pub by_plan : Vm → ℕ → State → ℕ → ℕ → Plan → Option (Option (State × ℕ))
by_plan vm fuel s opcode pc (around before after) = do
  s1 ← process_all vm s before (pos pc)
  (s2, r) ← process_an_opcode vm s1 opcode (pos pc)
  s3 ← process_all vm s2 after (pos pc)
  elim r as (λ r. Option (Option (State × ℕ))) [
    | increment inc ↦ some (some (s3, inc))
    | exception ↦ none
  ]
by_plan vm fuel s opcode pc (returns opcodes) = do
  s1 ← process_all vm s opcodes (pos pc)
  some (some (s1, 1))
by_plan vm fuel s opcode pc invokes = invoke vm fuel s opcode pc
by_plan vm fuel s opcode pc default_case = do
  (s1, r) ← process_an_opcode vm s opcode (pos pc)
  elim r as (λ r. Option (Option (State × ℕ))) [
    | increment inc ↦ some (some (s1, inc))
    | exception ↦ some none
  ]
by_plan vm fuel s opcode pc skipped = some (some (s, 0))
by_plan vm fuel s opcode pc fatal = none

unfoldable pub one_instruction : Vm → ℕ → State → ℕ → Option (Option (State × ℕ))
one_instruction vm fuel s pc = do
  opcode ← get_elem? s.code pc
  by_plan vm fuel (record s { ninsn = s.ninsn + 1 }) opcode pc (plan vm opcode)

-- `byteoff += byteinc`, with `byteinc` given by its 32 bits; `none`: the sum is negative.
unfoldable pub advance : ℕ → ℕ → Option ℕ
advance pc inc =
    if ltb inc (2 ^ 31)
    then some (pc + inc)
    else if ltb (pc + inc) (2 ^ 32)
    then none
    else some (pc + inc - 2 ^ 32)

-- `while (byteoff < endoff)`. A negative offset, also one that has come from an overflow, is below `endoff`, and the
-- read of the next instruction is a fault. The fuel also bounds the `goto`s that are followed behind a call: where it does not reach
-- the end is `fault`.
unfoldable pub translate_loop : Vm → ℕ → ℕ → ℕ → State → Outcome
translate_loop vm endoff zero pc s = running
translate_loop vm endoff (suc fuel) pc s =
    if ltb pc endoff
    then elim (one_instruction vm (suc fuel) s pc) as (λ r. Outcome) [
      | none ↦ fault
      | some none ↦ thrown
      | some (some (s', inc)) ↦ elim (advance pc inc) as (λ r. Outcome) [
        | none ↦ fault
        | some pc' ↦ translate_loop vm endoff fuel pc' s'
      ]
    ]
    else if ltb pc (2 ^ 31)
    then done s
    else fault

-- `(ACC_STRICT && !OPT_IGNSTRICTFP) || OPT_FRCSTRICTFP`
abbrev pub is_strict : Vm → Bool
is_strict vm = (vm.strict && not vm.opt_ignstrictfp) || vm.opt_frcstrictfp

abbrev pub when : Bool → List ℕ → List ℕ
when c opcodes = if c then opcodes else []

abbrev pub locks : Vm → Bool
locks vm = vm.synchronized && not vm.opt_ignlock

-- The instructions before the loop, at offset -1.
unfoldable pub head_opcodes : Vm → List ℕ
head_opcodes vm =
    opc_methodhead
    ∷ (when (is_strict vm)
          (when (not vm.fpu_double) (opc_fppc_save ∷ opc_fppc_double ∷ []) ++ opc_strict_enter ∷ [])
        ++ (when (locks vm)
              ((if vm.static_method then opc_sync_static_enter else opc_sync_obj_enter) ∷ [])
            ++ opc_start ∷ []))

-- The instructions behind the loop, at offset INT_MAX, after `end`.
unfoldable pub tail_opcodes : Vm → Bool → List ℕ
tail_opcodes vm may_throw =
    when (vm.has_handlers || may_throw) (opc_exc_handler ∷ [])
    ++ (opc_epilogue
        ∷ (when (locks vm)
              ((if vm.static_method then opc_sync_static_exit else opc_sync_obj_exit) ∷ [])
            ++ (when (is_strict vm)
                  (when (not vm.fpu_double) (opc_fppc_restore ∷ []) ++ opc_strict_exit ∷ [])
                ++ opc_methodtail ∷ [])))

abbrev pub int_max : ℕ
int_max = 2147483647

unfoldable pub method_tail : Vm → State → Option State
method_tail vm s = do
  s' ← process_all vm s (opc_end ∷ []) (pos int_max)
  process_all vm s' (tail_opcodes vm s'.may_throw) (pos int_max)

unfoldable pub finished : Vm → Outcome → Outcome
finished vm (done s) = elim (method_tail vm s) as (λ r. Outcome) [
  | none ↦ fault
  | some s' ↦ done s'
]
finished vm r = r

-- `endoff` is the length of the byte code.
unfoldable pub make_pc_table : Vm → ℕ → ℕ → State → Outcome
make_pc_table vm fuel endoff s =
    elim (process_all vm s (head_opcodes vm) (negsuc 0)) as (λ r. Outcome) [
      | none ↦ fault
      | some s' ↦ finished vm (translate_loop vm endoff fuel 0 s')
    ]
