-- ===== src/Jump/Examples.antt =====
-- Jumps resolved in a small piece of code.
use shujit.Base.{
  ℕ, ◌≡◌, refl, pos, negsuc, List, [], ◌∷◌, some, false, length, arith, write_at, ltb,
  if◌then◌else◌,
}
use shujit.PcEntry.{PcEntry}
use shujit.PcTable.{PcTable, pctable_get_by_pc, search_pc, first_of_run}
use shujit.Jump.{native_target, resolve_jump, resolve_jump_instructions, shorten_jmp, shorten_jcc}
use shujit.Jump.Machine.{next}
use shujit.Jump.Exits.{
  Places, resolve_bytepcs, resolve_jumpexcs, resolve_exit, resolve_exits, resolve_exc_ret,
  resolve_exit_lands,
}
use shujit.Jump.Sites.{plain, jmp, jcc, emit, jumps, Does, resolve_jump_instructions-Does}

abbrev native_entry : ℕ → ℕ → PcEntry
native_entry offset native = record {
  opcode = 0;
  flag = 0;
  operand = negsuc 0;
  byteoff = pos offset;
  increasing_byteoff = pos offset;
  nativeoff = native;
}

-- The byte code at 3 lies at 1 in native code, and that at 8 at 1000.
abbrev table : PcTable
table = record {
  entries = native_entry 3 1 ∷ native_entry 8 1000 ∷ [];
  len = 2;
  size = 2;
  ninsn = 2;
}

abbrev native : ℕ → ℕ
native tgtoff = if ltb tgtoff 8 then 1 else 1000

-- A `jne` to 3, which becomes short, and a `jmp` to 8, which stays near.
resolved :
    resolve_jump_instructions table
      (jumps 0 (plain (0x52 ∷ 0x51 ∷ []) ∷ jcc 5 3 ∷ jmp 8 ∷ []))
      (emit (plain (0x52 ∷ 0x51 ∷ []) ∷ jcc 5 3 ∷ jmp 8 ∷ []))
    ≡ some (0x52 ∷ 0x51 ∷ 0x75 ∷ 0xfd ∷ 0xeb ∷ 0x02 ∷ 0x90 ∷ 0x90 ∷ 0xe9 ∷ 0xdb ∷ 0x03 ∷ 0 ∷ 0 ∷ [])
unfolding resolve_jump_instructions native_target pctable_get_by_pc search_pc first_of_run
    resolve_jump shorten_jmp shorten_jcc write_at
resolved = refl

resolve_jump_instructions-Does_example :
    (code : List ℕ) × (resolve_jump_instructions table
        (jumps 0 (plain (0x52 ∷ 0x51 ∷ []) ∷ jcc 5 3 ∷ jmp 8 ∷ []))
        (emit (plain (0x52 ∷ 0x51 ∷ []) ∷ jcc 5 3 ∷ jmp 8 ∷ []))
      ≡ some code)
    × (length code ≡ length (emit (plain (0x52 ∷ 0x51 ∷ []) ∷ jcc 5 3 ∷ jmp 8 ∷ [])))
    × Does native code 2 (jcc 5 3)
unfolding native_target pctable_get_by_pc search_pc first_of_run
resolve_jump_instructions-Does_example =
    resolve_jump_instructions-Does native table (plain (0x52 ∷ 0x51 ∷ []) ∷ []) (jcc 5 3)
      (jmp 8 ∷ []) (tt, ((omega arith, refl, omega arith), ((refl, omega arith), tt))) (omega arith)

resolve_exit_lands_example :
    (next (λ c. false) (resolve_exit (0x50 ∷ 0xe9 ∷ 0 ∷ 0 ∷ 0 ∷ 0 ∷ 0xc3 ∷ []) 7 2) 1 ≡ some 7)
    × (length (resolve_exit (0x50 ∷ 0xe9 ∷ 0 ∷ 0 ∷ 0 ∷ 0 ∷ 0xc3 ∷ []) 7 2) ≡ 7)
resolve_exit_lands_example =
    resolve_exit_lands (0x50 ∷ []) (0xc3 ∷ []) 7 0 0 0 0 (λ c. false) (omega arith)

-- An instruction at 0 with its byte code offset at 1, a jump to the handler at 40, and no return.
abbrev places : Places
places = record { bytepcs = λ o s. 1 ∷ []; jumpexcs = λ o s. 6 ∷ []; return_jump = λ s. 0 }

exits_resolved :
    resolve_exc_ret places 40 50 (0x68 ∷ 0 ∷ 0 ∷ 0 ∷ 0 ∷ 0xe9 ∷ 0 ∷ 0 ∷ 0 ∷ 0 ∷ []) (
      record {
        opcode = 3;
        flag = 0;
        operand = pos 0;
        byteoff = pos 9;
        increasing_byteoff = pos 9;
        nativeoff = 0;
      }
      ∷ [])
    ≡ 0x68 ∷ 9 ∷ 0 ∷ 0 ∷ 0 ∷ 0xeb ∷ 33 ∷ 0x90 ∷ 0x90 ∷ 0x90 ∷ []
unfolding resolve_exc_ret resolve_exits resolve_bytepcs resolve_jumpexcs resolve_exit shorten_jmp
    write_at
exits_resolved = refl
