-- ===== src/Eager.antt =====
-- optimize.c, eagerCompilation: the methods that are called directly are compiled, and their calls
-- are marked.
-- A method block is the integer of its address. What the calls of compileMethod and
-- prepareCompiledCodeInfo lead to is a parameter.
use shujit.Base.{
  Bool, ℕ, List, [], ◌∷◌, Option, none, some, ◌>>=◌, ℤ, not, ◌||◌, ◌&&◌, ◌==◌, if◌then◌else◌,
  Realloc,
}
use shujit.Stack.{Stack, new_stack, push_to_stack, pop_from_stack}
use shujit.PcEntry.{PcEntry}
use shujit.Opcode.{
  opc_inlined_enter, opc_inlined_exit, opc_invokespecial, opc_invokestatic, opc_invokestatic_quick,
  opc_invoke_core, opc_invoke_core_compiled,
}

-- `pool_method`: `constant_pool[operand].mb` in the class of a method. `prepared`: the method has code
-- info, or it can be prepared. `abstract_or_native`: its access flags. `compiled`: its invoker is
-- invokeJITCompiledMethod, once compileMethod was called if its code was not made yet.
pub record Program : Type 0 where
  pub pool_method : ℤ → ℤ → ℤ
  pub prepared : ℤ → Bool
  pub abstract_or_native : ℤ → Bool
  pub compiled : ℤ → Bool

abbrev pub calls : ℕ → Bool
calls opcode =
    opcode == opc_invokespecial || opcode == opc_invokestatic || opcode == opc_invokestatic_quick

abbrev pub is_core : ℕ → Bool
is_core opcode = opcode == opc_invoke_core || opcode == opc_invoke_core_compiled

module _ (p : Program) where
  -- The rest of the case, at the core instruction of a call of `method`.
  pub mark : ℤ → PcEntry → PcEntry
  mark method entry =
      if p.prepared method && not (p.abstract_or_native method) && p.compiled method
      then record entry { opcode = opc_invoke_core_compiled }
      else entry

  module _ (mem : Realloc ℤ) where
    -- `searching` is the method whose core instruction is looked for. `none`: the search runs
    -- behind the table.
    pub eager_loop : List PcEntry → Option ℤ → ℤ → Stack → Option (List PcEntry)
    eager_loop [] none mb stack = some []
    eager_loop [] (some method) mb stack = none
    eager_loop (entry ∷ entries) (some method) mb stack =
        let found = eager_loop entries none mb stack in
        let more = eager_loop entries (some method) mb stack in
        if is_core entry.opcode
        then (do done ← found; some (mark method entry ∷ done))
        else (do done ← more; some (entry ∷ done))
    eager_loop (entry ∷ entries) none mb stack =
        let inner =
          eager_loop entries none (p.pool_method mb entry.operand) (push_to_stack mem stack mb) in
        let (caller, popped) = pop_from_stack stack in
        let outer = eager_loop entries none caller popped in
        let search = eager_loop entries (some (p.pool_method mb entry.operand)) mb stack in
        let next = eager_loop entries none mb stack in
        (do
          done ←
              (if entry.opcode == opc_inlined_enter
                then inner
                else if entry.opcode == opc_inlined_exit
                then outer
                else if calls entry.opcode
                then search
                else next)
          some (entry ∷ done))

    pub eager_compilation : ℤ → List PcEntry → Option (List PcEntry)
    eager_compilation mb entries = eager_loop entries none mb (new_stack mem)
