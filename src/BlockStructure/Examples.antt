-- ===== src/BlockStructure/Examples.antt =====
-- A loop of two instructions gets its marks and a check.
use shujit.Base.{ℕ, ◌≡◌, refl, arith, List, [], ◌∷◌, pos, negsuc, ◌+ℤ◌, padded, take}
use shujit.Opcode.{opc_iconst_0, opc_goto, opc_athrow}
use shujit.PcEntry.{
  PcEntry, block_head, loop_head, loop_tail, set_block_head, set_loop_head, set_loop_tail,
}
use shujit.PcTable.{PcTable, no_entry, pctable_get_by_pc, search_pc, first_of_run}
use shujit.PcTable.Inv.{IsValid}
use shujit.BlockStructure.{
  Outcome, done, bad_read, out_of_fuel, update_at, target_of, mark_target, jump_offset, has_check,
  insert_check, structure_jump, structure_switch, structure_entry, structure_loop,
  make_block_structure,
}
use shujit.BlockStructure.Rounds.{Structured, make_block_structure-Structured}
use shujit.Translate.Bytes.{byte_at, get_uint16, get_int16}

-- iconst_0; goto -1
abbrev code : List ℕ
code = opc_iconst_0 ∷ opc_goto ∷ 255 ∷ 255 ∷ []

abbrev at : ℕ → ℕ → PcEntry
at opcode pc = record {
  opcode = opcode;
  flag = 0;
  operand = negsuc 0;
  byteoff = pos pc;
  increasing_byteoff = pos pc;
  nativeoff = 0;
}

abbrev table : PcTable
table = record { entries = at opc_iconst_0 0 ∷ at opc_goto 1 ∷ []; len = 2; size = 2; ninsn = 2 }

table-IsValid : IsValid table
table-IsValid = record { block = refl; inside = omega arith; some_room = omega arith }

-- The opcode, and the bits block head, loop head and loop tail, of each entry.
marks : List PcEntry → List (ℕ × ℕ × ℕ × ℕ)
marks [] = []
marks (e ∷ es) = (e.opcode, block_head e, loop_head e, loop_tail e) ∷ marks es

marks_of : Outcome → List (ℕ × ℕ × ℕ × ℕ)
marks_of (done t) = marks (take t.len t.entries)
marks_of bad_read = []
marks_of out_of_fuel = []

-- athrow; goto -1: an instruction between the target and the jump checks for exceptions already.
abbrev thrown : PcTable
thrown = record { entries = at opc_athrow 0 ∷ at opc_goto 1 ∷ []; len = 2; size = 2; ninsn = 2 }

marked :
    marks_of
      (make_block_structure (padded no_entry) (opc_athrow ∷ opc_goto ∷ 255 ∷ 255 ∷ []) thrown)
    ≡ (opc_athrow, 1, 1, 0) ∷ (opc_goto, 0, 0, 1) ∷ []
unfolding make_block_structure structure_loop structure_entry structure_jump structure_switch
    insert_check has_check mark_target jump_offset update_at target_of marks marks_of
    pctable_get_by_pc search_pc ◌+ℤ◌ first_of_run set_loop_head set_block_head set_loop_tail byte_at
    get_int16 get_uint16 block_head loop_head loop_tail
marked = refl

make_block_structure-Structured_example :
    Structured table 2 (make_block_structure (padded no_entry) code table)
make_block_structure-Structured_example =
    make_block_structure-Structured (padded no_entry) code table table-IsValid (omega arith)
