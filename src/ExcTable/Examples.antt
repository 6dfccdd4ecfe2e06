-- ===== src/ExcTable/Examples.antt =====
-- A handler at offset 4, which two entries have.
use shujit.Base.{ℕ, ◌≡◌, refl, List, [], ◌∷◌, some, pos, negsuc, arith}
use shujit.PcEntry.{PcEntry}
use shujit.PcTable.{PcTable}
use shujit.PcTable.Ascends.{Ascends-IsSorted}
use shujit.ExcTable.{CatchFrame, make_exc_table}
use shujit.ExcTable.Frames.{AllResolved, make_exc_table-total}

abbrev native_entry : ℕ → ℕ → ℕ → PcEntry
native_entry flag offset native = record {
  opcode = 3;
  flag = flag;
  operand = negsuc 0;
  byteoff = pos offset;
  increasing_byteoff = pos offset;
  nativeoff = native;
}

abbrev table : PcTable
table = record {
  entries = native_entry 0 0 10 ∷ native_entry 2 4 20 ∷ native_entry 1 4 30 ∷ [];
  len = 3;
  size = 3;
  ninsn = 2;
}

abbrev frames : List CatchFrame
frames = record { handler_pc = 4; compiled_catch_frame = 0; state = 0 } ∷ []

make_exc_table-total_example :
    (cfs' : List CatchFrame) × (make_exc_table table frames ≡ some cfs')
    × AllResolved table frames cfs'
make_exc_table-total_example =
    make_exc_table-total table
      (record { block = refl; inside = omega arith; some_room = omega arith })
      (Ascends-IsSorted table.entries 3 (omega arith) (omega arith)) frames
      ((2, omega arith, refl), tt)
