-- ===== src/Switches/Examples.antt =====
-- The tables of small switches.
use shujit.Base.{
  ◌≤◌, Option, none, replicate, padded, double_until, write_at, arith, ℕ, ◌+◌, ◌≡◌, refl, List, [],
  ◌∷◌, some, pos, negsuc, ◌+ℤ◌,
}
use shujit.PcEntry.{state}
use shujit.PcTable.{PcTable, pctable_get_by_pc, search_pc, first_of_run}
use shujit.Translate.Bytes.{get_int32, get_uint16, byte_at}
use shujit.BlockStructure.{target_of, switch_offsets, words_at}
use shujit.Switches.{
  SwitchCode, target_words, table_words, put_table, table_room, set_operand, resolve_lookupswitch,
  resolve_tableswitch,
}
use shujit.Switches.Stands.{TableStands, resolve_tableswitch-Stands}
use shujit.Contexts.Output.{Buffer, IsValid, ensure_buffer_size}

abbrev switch_code : SwitchCode
switch_code = record { goto_code = λ s l. 70 + s; last_state = λ o s. 0; place = λ o s. 1 }

-- The instruction at 0 has its native code at 40, in state 2.
abbrev table : PcTable
table = record {
  entries =
      record {
        opcode = 171;
        flag = 2;
        operand = negsuc 0;
        byteoff = pos 0;
        increasing_byteoff = pos 0;
        nativeoff = 40;
      }
      ∷ [];
  len = 1;
  size = 1;
  ninsn = 1;
}

-- lookupswitch with the default 0 and the pair of 5 and 0.
abbrev code : List ℕ
code = 171 ∷ 0 ∷ 0 ∷ 0 ∷ 0 ∷ 0 ∷ 0 ∷ 0 ∷ 0 ∷ 0 ∷ 0 ∷ 1 ∷ 0 ∷ 0 ∷ 0 ∷ 5 ∷ 0 ∷ 0 ∷ 0 ∷ 0 ∷ []

abbrev block : List ℕ
block = replicate 48 0

-- The code is 48 bytes long, and the block is full.
abbrev buffer : Buffer
buffer = record { block = block; size = 48; offset = 48 }

buffer-IsValid : IsValid buffer
buffer-IsValid = record { block = refl; inside = omega arith; some_room = omega arith }

get_pair : Option (Buffer × PcTable) → Buffer × PcTable
get_pair none = (buffer, table)
get_pair (some r) = r

unfoldable after_lookup : Buffer × PcTable
after_lookup = get_pair (resolve_lookupswitch (padded 0) switch_code code buffer table 0)

place_inside : 40 + 1 + 4 ≤ 48
place_inside = omega arith

-- tableswitch with the default 0, and the offset 0 for the number 1.
abbrev table_code : List ℕ
table_code = 170 ∷ 0 ∷ 0 ∷ 0 ∷ 0 ∷ 0 ∷ 0 ∷ 0 ∷ 0 ∷ 0 ∷ 0 ∷ 1 ∷ 0 ∷ 0 ∷ 0 ∷ 1 ∷ 0 ∷ 0 ∷ 0 ∷ 0 ∷ []

unfoldable after_table : Buffer × PcTable
after_table = get_pair (resolve_tableswitch (padded 0) switch_code table_code buffer table 0)

table_resolved :
    resolve_tableswitch (padded 0) switch_code table_code buffer table 0 ≡ some after_table
unfolding after_table get_pair resolve_tableswitch switch_offsets words_at table_words table_room
    put_table ensure_buffer_size double_until padded write_at get_int32 get_uint16 byte_at
    target_words target_of pctable_get_by_pc search_pc first_of_run ◌+ℤ◌ state set_operand
table_resolved = refl

bound_read : (at : ℕ) → at ≡ 4 → get_int32 table_code (pos 0) (at + 4) ≡ some (pos 1)
unfolding get_int32 get_uint16 byte_at
bound_read at e = rw e refl

upper_read : (at : ℕ) → at ≡ 4 → get_int32 table_code (pos 0) (at + 8) ≡ some (pos 1)
unfolding get_int32 get_uint16 byte_at
upper_read at e = rw e refl

resolve_tableswitch-Stands_example :
    TableStands (padded 0) switch_code table_code table 0 buffer after_table.0
resolve_tableswitch-Stands_example =
    resolve_tableswitch-Stands (padded 0) switch_code table_code buffer table 0 0 (pos 1) (pos 1)
      after_table refl (bound_read 4 refl) (upper_read 4 refl) (omega arith) (omega arith)
      buffer-IsValid refl place_inside table_resolved
