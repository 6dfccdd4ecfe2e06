-- ===== src/FunctionSymbols/Examples.antt =====
-- Two calls, in code that begins at the address 1000.
use shujit.Base.{
  ℕ, ◌+◌, ◌≡◌, inr, List, [], ◌∷◌, some, length, replicate, pos, arith, refl, write_at,
}
use shujit.PcEntry.{PcEntry}
use shujit.FunctionSymbols.{Function, write_call, resolve_functions, resolve_function_symbols}
use shujit.FunctionSymbols.Calls.{calls, AllReach, resolve_function_symbols-AllReach}

-- Each piece of code has one call, behind its first byte.
abbrev functions : ℕ → ℕ → List Function
functions opcode st = record { offset = 1; address = 2000 + opcode } ∷ []

abbrev entry : ℕ → ℕ → PcEntry
entry opcode nativeoff = record {
  opcode = opcode;
  flag = 0;
  operand = pos 0;
  byteoff = pos 0;
  increasing_byteoff = pos 0;
  nativeoff = nativeoff;
}

abbrev entries : List PcEntry
entries = entry 3 0 ∷ entry 4 5 ∷ []

-- The operands are 998 and 994: 2003 - 1005, and 2004 - 1010.
operands :
    resolve_function_symbols functions 1000 entries (replicate 10 0xe8)
    ≡ some (0xe8 ∷ 230 ∷ 3 ∷ 0 ∷ 0 ∷ 0xe8 ∷ 226 ∷ 3 ∷ 0 ∷ 0 ∷ [])
unfolding resolve_function_symbols resolve_functions write_call write_at
operands = refl

resolve_function_symbols-AllReach_example :
    (code : List ℕ) × (resolve_function_symbols functions 1000 entries (replicate 10 0xe8)
      ≡ some code)
    × (length code ≡ 10)
    × AllReach 1000 code (calls functions entries)
resolve_function_symbols-AllReach_example =
    resolve_function_symbols-AllReach 1000 functions entries (replicate 10 0xe8)
      ((inr (omega arith), tt), (tt, tt)) (omega arith)
