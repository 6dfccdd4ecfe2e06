-- ===== src/PcTable/Examples.antt =====
-- Runs of the pc table, over memory whose fresh slots hold `no_entry`.
use shujit.Base.{
  ◌^◌, ℕ, zero, suc, ◌≡◌, refl, ◌<◌, pos, negsuc, ◌<ℤ◌, [], ◌∷◌, ◌++◌, some, take, drop, padded,
  arith, Realloc,
}
use shujit.PcEntry.{PcEntry, no_nativeoff, set_state, set_block_head, set_loop_head, set_loop_tail}
use shujit.PcEntry.Laws.{set_flags, Reads, flags}
use shujit.PcTable.{
  PcTable, no_entry, pctable_insert, pctable_ninsert, pctable_ndelete, found, fault,
  pctable_get_by_pc, search_pc, first_of_run,
}
use shujit.PcTable.Inv.{IsValid, view}
use shujit.PcTable.Edit.{Fresh, pctable_ninsert-total, pctable_insert-total, pctable_ndelete_lem}
use shujit.PcTable.Ascends.{Ascends-IsSorted}
use shujit.PcTable.Search.{
  key, IsSorted, IsFirst, pctable_get_by_pc-IsFirst, pctable_get_by_pc_above,
}

abbrev entry_at : ℕ → ℕ → PcEntry
entry_at opcode offset = record {
  opcode = opcode;
  flag = 0;
  operand = negsuc 0;
  byteoff = pos offset;
  increasing_byteoff = pos offset;
  nativeoff = no_nativeoff;
}

abbrev memory : Realloc PcEntry
memory = padded no_entry

-- Three entries, two of them of the byte code at offset 4, in a block of four.
abbrev three : PcTable
three = record {
  entries = entry_at 3 0 ∷ entry_at 256 4 ∷ entry_at 54 4 ∷ entry_at 177 9 ∷ [];
  len = 3;
  size = 4;
  ninsn = 0;
}

three-IsValid : IsValid three
three-IsValid = record { block = refl; inside = omega arith; some_room = omega arith }

three-IsSorted : IsSorted three.entries 3
three-IsSorted = Ascends-IsSorted three.entries 3 (omega arith) (omega arith)

first_at_4 : pctable_get_by_pc three (pos 4) ≡ found 1
unfolding pctable_get_by_pc search_pc first_of_run
first_at_4 = refl

pctable_get_by_pc-IsFirst_example :
    (k : ℕ) × (pctable_get_by_pc three (pos 4) ≡ found k) × IsFirst three.entries (pos 4) 3 k
pctable_get_by_pc-IsFirst_example =
    pctable_get_by_pc-IsFirst three three-IsValid (pos 4) 2 three-IsSorted (omega arith) refl

-- The same entries in a block of three.
abbrev three_full : PcTable
three_full = record three { entries = entry_at 3 0 ∷ entry_at 256 4 ∷ entry_at 54 4 ∷ []; size = 3 }

pctable_get_by_pc_above_example : pctable_get_by_pc three_full (pos 9) ≡ fault
pctable_get_by_pc_above_example =
    pctable_get_by_pc_above three_full
      (record { block = refl; inside = omega arith; some_room = omega arith }) (pos 9) above refl
  where
    above : (i : ℕ) → i < 3 → key three_full.entries i <ℤ pos 9
    above zero h = omega arith
    above (suc zero) h = omega arith
    above (suc (suc zero)) h = omega arith
    above (suc (suc (suc i))) h = absurd (omega arith)

-- Two more entries do not fit: the block doubles.
pctable_ninsert-total_example :
    (t' : PcTable) × (pctable_ninsert memory three 1 (entry_at 1 2 ∷ entry_at 2 2 ∷ []) ≡ some t')
    × IsValid t'
    × (view t' ≡ take 1 (view three) ++ ((entry_at 1 2 ∷ entry_at 2 2 ∷ []) ++ drop 1 (view three)))
    × (t'.size < 2 ^ 31)
pctable_ninsert-total_example =
    pctable_ninsert-total memory three three-IsValid 1 (entry_at 1 2 ∷ entry_at 2 2 ∷ [])
      (omega arith) (omega arith) (omega arith)

pctable_insert-total_example :
    (t' : PcTable) × (e : PcEntry) × (pctable_insert memory three 1 253
        (negsuc 0)
        (pos 4)
        0xf
        no_nativeoff
      ≡ some t')
    × IsValid t'
    × (view t' ≡ take 1 (view three) ++ (e ∷ drop 1 (view three)))
    × Fresh e 253 (negsuc 0) (pos 4) 0xf no_nativeoff
pctable_insert-total_example =
    pctable_insert-total memory three three-IsValid 1 253 (negsuc 0) (pos 4) 0xf no_nativeoff
      (omega arith) (omega arith) (omega arith)

pctable_ndelete_lem_example :
    IsValid (pctable_ndelete three 1 2)
    × (view (pctable_ndelete three 1 2) ≡ take 1 (view three) ++ drop 3 (view three))
pctable_ndelete_lem_example = pctable_ndelete_lem three three-IsValid 1 2 (omega arith)

-- A word with every flag set and state 3.
abbrev flagged : PcEntry
flagged = record (entry_at 3 0) { flag = 0x73 }

set_flags_example :
    Reads (set_state flagged 1) (record (flags flagged) { state_bits = 1 })
    × Reads (set_block_head flagged) (record (flags flagged) { block = 1 })
    × Reads (set_loop_head flagged) (record (flags flagged) { head = 1 })
    × Reads (set_loop_tail flagged) (record (flags flagged) { tail = 1 })
set_flags_example = set_flags flagged (omega arith) 1 (omega arith)
