-- ===== src/States.antt =====
-- compile.c, updateStates: the state of the register cache before each internal instruction.
-- A pointer to a method block is the integer of its bits, as the stack holds it. The generated table
-- of code pieces, the constant pools and the return sizes are parameters.
use shujit.Base.{Bool, ℕ, List, [], ◌∷◌, Option, some, ◌>>=◌, ℤ, ◌||◌, ◌==◌, if◌then◌else◌, Realloc}
use shujit.Stack.{Stack, new_stack, push_to_stack, pop_from_stack}
use shujit.PcEntry.{PcEntry, set_state}
use shujit.Opcode.{
  opc_return, opc_epilogue, opc_goto, opc_ret, opc_tableswitch, opc_lookupswitch, opc_jsr,
  opc_athrow, opc_invoke_core, opc_invoke_core_compiled, opc_inlined_exit, opc_inlined_enter,
}

-- `STSTA`: a piece of code that leaves the state as it is.
abbrev pub ststa : ℕ
ststa = 5

-- What the pass reads: `code_table[opcode][state].last_state`, `constant_pool[operand].mb` in the class
-- of a method, and `ret_size` of a method, `none` if its code info cannot be prepared.
pub record Program : Type 0 where
  pub last_state : ℕ → ℕ → ℕ
  pub pool_method : ℤ → ℤ → ℤ
  pub ret_size : ℤ → Option ℕ

-- `STATE_AFTER_JUMP`, `STATE_AFTER_JSR` and `STATE_AFTER_ATHROW` are all `ST0`.
abbrev pub state_after_jump : ℕ
state_after_jump = 0

-- The state after an invocation that returns so many words.
pub state_of_result : ℕ → ℕ
state_of_result size = if size == 0 then 0 else if size == 1 then 1 else 4

-- The first switch: the state recorded for an instruction.
pub current_state : ℕ → ℕ → ℕ
current_state opcode st = if opcode == opc_return || opcode == opc_epilogue then 0 else st

-- The case labels of the second switch.
abbrev pub jumps_away : ℕ → Bool
jumps_away opcode =
    opcode == opc_goto
    || opcode == opc_ret
    || opcode == opc_tableswitch
    || opcode == opc_lookupswitch
    || opcode == opc_jsr
    || opcode == opc_athrow

abbrev pub invokes : ℕ → Bool
invokes opcode = opcode == opc_invoke_core || opcode == opc_invoke_core_compiled

module _ (p : Program) where
  -- The second switch. `entry_state` is the state that the row of the table was taken at, and `st` the
  -- one recorded.
  pub next_state : ℤ → PcEntry → ℕ → ℕ → Option ℕ
  next_state mb entry entry_state st =
      if jumps_away entry.opcode
      then some state_after_jump
      else if entry.opcode == opc_inlined_exit
      then (do size ← p.ret_size mb; some (state_of_result size))
      else if invokes entry.opcode
      then (do size ← p.ret_size (p.pool_method mb entry.operand); some (state_of_result size))
      else if p.last_state entry.opcode entry_state == ststa
      then some st
      else some (p.last_state entry.opcode entry_state)

  module _ (mem : Realloc ℤ) where
    -- The third switch: the method that the instructions come from, and its callers.
    pub next_method : PcEntry → ℤ → Stack → ℤ × Stack
    next_method entry mb stack =
        if entry.opcode == opc_inlined_enter
        then (p.pool_method mb entry.operand, push_to_stack mem stack mb)
        else if entry.opcode == opc_inlined_exit
        then pop_from_stack stack
        else (mb, stack)

    pub update_loop : List PcEntry → ℕ → ℤ → Stack → Option (List PcEntry)
    update_loop [] st mb stack = some []
    update_loop (entry ∷ entries) st mb stack =
        let recorded = current_state entry.opcode st in
        let (mb', stack') = next_method entry mb stack in
        let rest = λ (st' : ℕ). update_loop entries st' mb' stack' in
        (do
          st' ← next_state mb entry st recorded
          done ← rest st'
          some (set_state entry recorded ∷ done))

    pub update_states : ℤ → List PcEntry → Option (List PcEntry)
    update_states mb entries = update_loop entries 0 mb (new_stack mem)
