-- ===== src/Inlining/Examples.antt =====
-- A call that is inlined, and the offsets of the result.
use shujit.Base.{
  true, false, ℕ, ◌+◌, ◌≡◌, refl, List, [], ◌∷◌, ◌++◌, some, pos, padded, length, arith,
}
use shujit.PcEntry.{PcEntry, no_nativeoff}
use shujit.PcTable.{PcTable, no_entry}
use shujit.PcTable.Search.{IsSorted}
use shujit.Inlining.{Callee, Program, set_increasing, inlined_code, up_to_end, splice}
use shujit.Inlining.Increasing.{Nested, done, plain, group, set_increasing-IsSorted}
use shujit.Inlining.Splice.{Holds, Spliced, splice-total}
use shujit.Opcode.{opc_inlined_enter, opc_inlined_exit, opc_start, opc_end}

abbrev entry_of : ℕ → ℕ → PcEntry
entry_of opcode offset = record {
  opcode = opcode;
  flag = 0;
  operand = pos 7;
  byteoff = pos offset;
  increasing_byteoff = pos offset;
  nativeoff = no_nativeoff;
}

-- The code inlined at offset 3 has offsets 0 and 9 of its own.
abbrev nested : List PcEntry
nested =
    entry_of 3 0
    ∷ entry_of opc_inlined_enter 3
    ∷ entry_of 4 0
    ∷ entry_of 5 9
    ∷ entry_of opc_inlined_exit 3
    ∷ entry_of 6 6
    ∷ []

abbrev brackets : Nested nested
brackets = plain (entry_of 3 0) (omega arith) (omega arith) (
    group (entry_of opc_inlined_enter 3) (entry_of opc_inlined_exit 3) refl refl
      (plain (entry_of 4 0) (omega arith) (omega arith)
        (plain (entry_of 5 9) (omega arith) (omega arith) done))
      (plain (entry_of 6 6) (omega arith) (omega arith) done))

set_increasing-IsSorted_example : IsSorted (set_increasing nested) (length (set_increasing nested))
set_increasing-IsSorted_example =
    set_increasing-IsSorted brackets (omega arith, (omega arith, (omega arith, tt)))

-- The code between `start` and `end`.
copied :
    inlined_code (entry_of opc_start 0 ∷ entry_of 4 0 ∷ entry_of opc_end 1 ∷ [])
    ≡ some (entry_of 4 0 ∷ [])
unfolding inlined_code up_to_end
copied = refl

abbrev synchronized : Callee
synchronized = record { is_static = true; is_synchronized = true; may_inline = true; pctable = [] }

abbrev program : Program
program = record {
  pool_method = λ mb operand. operand;
  native_or_abstract = λ mb. false;
  is_strict = λ mb. false;
  callee = λ mb. some synchronized;
  ignore_lock = false;
}

abbrev six : List PcEntry
six = entry_of 1 3 ∷ entry_of 2 3 ∷ entry_of 3 3 ∷ entry_of 184 3 ∷ entry_of 4 3 ∷ entry_of 5 3 ∷ []

abbrev before : List PcEntry
before = entry_of 3 0 ∷ []

abbrev table : PcTable
table = record { entries = before ++ (six ++ entry_of 6 6 ∷ []); len = 8; size = 8; ninsn = 0 }

table-Holds : Holds table (before ++ (six ++ entry_of 6 6 ∷ []))
table-Holds = record {
  valid = record { block = refl; inside = omega arith; some_room = omega arith };
  same = refl;
  fits = omega arith;
}

splice-total_example :
    (t' : PcTable) × (next : ℕ) × (splice
        (padded no_entry)
        program
        table
        (length before + 3)
        (pos 7)
        (pos 3)
        synchronized
        (entry_of 4 0 ∷ [])
      ≡ some (t', next))
    × Spliced
        (padded no_entry)
        before
        program
        synchronized
        (pos 7)
        (pos 3)
        (entry_of 4 0 ∷ [])
        (entry_of 6 6 ∷ [])
        t'
        next
splice-total_example =
    splice-total (padded no_entry) before program table six (entry_of 6 6 ∷ []) (entry_of 4 0 ∷ [])
      (pos 7) (pos 3) synchronized table-Holds refl (omega arith)
