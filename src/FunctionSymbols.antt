-- ===== src/FunctionSymbols.antt =====
-- compile.c, resolveFunctionSymbols: the calls of run-time functions in the finished code. The generated table of such
-- calls is a parameter, with the addresses that the linker has found.
pub mod Calls
mod Examples
use shujit.Base.{ℕ, ◌+◌, List, [], ◌∷◌, Option, none, some, ◌>>=◌, ◌==◌, if◌then◌else◌, write_at}
use shujit.PcEntry.{PcEntry, state}
use shujit.Jump.{le_bytes, displacement}

-- A row of `func_table[opcode][state]`: the rows end at a negative offset, here the end of the list.
pub record Function : Type 0 where
  pub offset : ℕ
  pub address : ℕ

-- `start` is the address of the code, and `at` the place of the operand in it.
unfoldable pub write_call : ℕ → ℕ → ℕ → List ℕ → List ℕ
write_call start at address code = write_at at (le_bytes (displacement address (start + at))) code

-- `none`: a symbol that was not resolved, and the end of the VM.
unfoldable pub resolve_functions : ℕ → ℕ → List Function → List ℕ → Option (List ℕ)
unfolding write_call
resolve_functions start nativeoff [] code = some code
resolve_functions start nativeoff (f ∷ functions) code =
    let rest =
      resolve_functions start nativeoff functions
        (write_call start (nativeoff + f.offset) f.address code) in
    if f.address == 0 then none else rest

unfoldable pub resolve_function_symbols :
    (ℕ → ℕ → List Function) → ℕ → List PcEntry → List ℕ → Option (List ℕ)
unfolding resolve_functions
resolve_function_symbols func_table start [] code = some code
resolve_function_symbols func_table start (e ∷ entries) code = do
  code' ← resolve_functions start e.nativeoff (func_table e.opcode (state e)) code
  resolve_function_symbols func_table start entries code'
