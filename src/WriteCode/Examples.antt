-- ===== src/WriteCode/Examples.antt =====
-- A loop of two instructions: a constant is pushed, and a `goto` goes back to it.
use shujit.Base.{
  ℕ, ◌+◌, ◌-◌, ◌%◌, ◌*◌, ◌<◌, ◌≤◌, ◌++◌, ◌≡◌, refl, List, [], ◌∷◌, some, true, false, ℤ, pos,
  length, get_elem?, Option, none, replicate, take, padded, ◌+ℤ◌, double_until, double_int,
  insert_block, write_at, ◌==◌, arith,
}
use shujit.PcEntry.{PcEntry, loop_head, state}
use shujit.PcTable.{
  no_entry, pctable_insert, reserve, filled, slot, pctable_get_by_pc, search_pc, first_of_run,
}
use shujit.JpTable.{jptable_add, extended}
use shujit.ThrowTable.{throwtable_add, make_room, larger_size, throwtable_extend}
use shujit.Contexts.Output.{written, write_to_buffer, ensure_buffer_size}
use shujit.Opcode.{opc_bipush, opc_goto}
use shujit.WriteCode.Machine.{Templates, Pools, Memory, Writing}
use shujit.WriteCode.Kinds.{
  Kind, push_word, push_two_words, variable, long_variable, double_variable, increment_variable,
  return_offset, switch_bounds, switch_pairs, member_slot, callee_args, callee_slot, callee_space,
  recursive_call, recursive_jump, enter_inlined, exit_inlined, operand_itself, dimensions,
  ignored_args, ignored_static, no_constant, kind_of, words_at_place,
}
use shujit.WriteCode.Rounds.{
  Round, next_entry, leave_loop, Ended, ended, fault, running, started, write_code, write_entry,
  write_loop, finish_tables, shrink, close_round,
}
use shujit.WriteCode.Align.{Skips, align-Skips}
use shujit.WriteCode.Piece.{put_piece, align}
use shujit.WriteCode.Branch.{branch}
use shujit.WriteCode.Constants.{resolve_constants, copy_constants}
use shujit.WriteCode.PieceLaid.{PlacesFit, HasRoom}
use shujit.WriteCode.Sound.{IsFresh}
use shujit.WriteCode.Jumps.{JumpsByCode}
use shujit.WriteCode.Every.{begins, goes_on, write_code-JumpsByCode}

abbrev memory : Memory
memory = record {
  bytes = padded 0;
  pcentries = padded no_entry;
  jpentries = padded (record { tgtoff = 0; argoff = 0 });
  throwentries =
      padded (record { start = 0; byteoff = 0; len = 0; patched_code = 0; cb = 0; opcode = 0 });
  elems = padded (pos 0);
}

-- Pieces of the same length, with constants from the second byte on.
abbrev pieces : Templates
pieces = record {
  piece = λ opcode st. replicate 50 0x40;
  signals = λ opcode st. opcode == opc_bipush;
  last_state = λ opcode st. 1;
  constant_at = λ opcode st k. 8 * k + 1;
}

abbrev pools : Pools
pools = record {
  code = λ mb. 16 ∷ 7 ∷ 167 ∷ 255 ∷ 254 ∷ [];
  pool_word = λ mb i. 0;
  pool_string = λ mb i. false;
  pool_method = λ mb i. pos 0;
  pool_class = λ mb i. 0;
  field_offset = λ mb i. 0;
  class_of = λ mb. 0;
  class_initialized = λ cb. true;
  args_size = λ mb. 1;
  nlocals = λ mb. 1;
  table_slot = λ mb. 0;
  resolve = λ mb i mask known. some known;
}

places-fit : (k : Kind) → PlacesFit (λ k. 8 * k + 1) 50 0 (words_at_place k)
places-fit push_word = omega arith
places-fit push_two_words = omega arith
places-fit variable = omega arith
places-fit long_variable = omega arith
places-fit double_variable = omega arith
places-fit increment_variable = omega arith
places-fit return_offset = omega arith
places-fit switch_bounds = omega arith
places-fit switch_pairs = omega arith
places-fit member_slot = omega arith
places-fit callee_args = omega arith
places-fit callee_slot = omega arith
places-fit callee_space = omega arith
places-fit recursive_call = omega arith
places-fit recursive_jump = omega arith
places-fit enter_inlined = omega arith
places-fit exit_inlined = omega arith
places-fit operand_itself = omega arith
places-fit dimensions = omega arith
places-fit ignored_args = omega arith
places-fit ignored_static = omega arith
places-fit no_constant = tt

pieces-HasRoom : HasRoom pieces
pieces-HasRoom = record {
  for_class = λ opcode st h. omega arith;
  for_interface = λ opcode st h. omega arith;
  for_constants = λ opcode st. places-fit (kind_of opcode);
}

abbrev entry : ℕ → ℕ → ℤ → ℕ → PcEntry
entry opcode flag operand byteoff = record {
  opcode = opcode;
  flag = flag;
  operand = operand;
  byteoff = pos byteoff;
  increasing_byteoff = pos byteoff;
  nativeoff = 0;
}

-- The constant heads the loop.
abbrev entries : List PcEntry
entries = entry opc_bipush 0x30 (pos 7) 0 ∷ entry opc_goto 1 (pos 0) 2 ∷ []

abbrev at_start : Writing
at_start =
    started memory pieces pools (pos 0) (λ mb i. true)
      (record { block = 0 ∷ []; size = 1; offset = 0 })
      (record { entries = entries; len = 2; size = 2; ninsn = 2 })
      (record { entries = record { tgtoff = 0; argoff = 0 } ∷ []; len = 0; size = 1 })
      (record { entries = []; len = 0; size = 0 }) 0 0

at_start-IsFresh : IsFresh at_start
unfolding started
at_start-IsFresh = record {
  buffer = record { block = refl; inside = omega arith; some_room = omega arith };
  empty = refl;
  start = refl;
  jptable = record {
    block = refl;
    inside = omega arith;
    some_room = omega arith;
    fits = omega arith;
  };
  no_jumps = refl;
  pctable = record { block = refl; inside = omega arith; some_room = omega arith };
  cased = omega arith;
}

get_pair : Option (ℕ × Writing) → ℕ × Writing
get_pair none = (0, at_start)
get_pair (some r) = r

unfoldable state_of : Ended → Writing
state_of (ended ret s) = s
state_of fault = at_start
state_of running = at_start

unfoldable at_end : Writing
unfolding state_of write_code
at_end = state_of (write_code memory pieces pools at_start)

-- The pushed constant, then the code for `goto`, a change of state, and the jump.
code_written : take 6 (written at_end.buffer) ≡ 0x40 ∷ 7 ∷ 0 ∷ 0 ∷ 0 ∷ 0x40 ∷ []
unfolding at_end started write_entry loop_head write_to_buffer ensure_buffer_size double_until
    double_int throwtable_add make_room larger_size throwtable_extend write_code write_loop
    finish_tables shrink put_piece branch resolve_constants close_round state pctable_insert reserve
    filled slot insert_block write_at jptable_add extended pctable_get_by_pc search_pc first_of_run
    state_of copy_constants ◌+ℤ◌ padded
code_written = refl

-- The second round, at the `goto`.
abbrev jump : PcEntry
jump = entry opc_goto 1 (pos 0) 2

get_round : Option Round → Writing
get_round none = at_start
get_round (some (next_entry i s)) = s
get_round (some (leave_loop ret s)) = s

get_writing : Option Writing → Writing
get_writing none = at_start
get_writing (some s) = s

-- The states behind the first round, behind the piece of the jump, and behind the jump.
unfoldable after_first : Writing
unfolding get_round write_entry
after_first = get_round (write_entry memory pieces pools 0 at_start)

unfoldable after_piece : Writing
unfolding get_writing after_first put_piece
after_piece = get_writing (put_piece memory pools pieces 1 jump after_first)

unfoldable after_jump : ℕ × Writing
unfolding get_pair after_piece branch
after_jump = get_pair (branch memory pieces pools 1 jump after_piece)

first_round : write_entry memory pieces pools 0 at_start ≡ some (next_entry 1 after_first)
unfolding after_first started write_entry loop_head write_to_buffer ensure_buffer_size double_until
    double_int throwtable_add make_room larger_size throwtable_extend put_piece branch
    resolve_constants close_round state pctable_insert reserve filled slot insert_block write_at
    jptable_add extended pctable_get_by_pc search_pc first_of_run copy_constants ◌+ℤ◌ padded
first_round = refl

inside_first : 0 < at_start.pctable.len
unfolding started
inside_first = omega arith

inside_second : 1 < after_first.pctable.len
unfolding after_first started write_entry loop_head write_to_buffer ensure_buffer_size double_until
    double_int throwtable_add make_room larger_size throwtable_extend put_piece branch
    resolve_constants close_round state pctable_insert reserve filled slot insert_block write_at
    jptable_add extended pctable_get_by_pc search_pc first_of_run copy_constants ◌+ℤ◌ padded
inside_second = omega arith

second_entry : get_elem? after_first.pctable.entries 1 ≡ some jump
unfolding after_first started write_entry loop_head write_to_buffer ensure_buffer_size double_until
    double_int throwtable_add make_room larger_size throwtable_extend put_piece branch
    resolve_constants close_round state pctable_insert reserve filled slot insert_block write_at
    jptable_add extended pctable_get_by_pc search_pc first_of_run copy_constants ◌+ℤ◌ padded
second_entry = refl

piece_put : put_piece memory pools pieces 1 jump after_first ≡ some after_piece
unfolding after_piece after_first started write_entry loop_head write_to_buffer ensure_buffer_size
    double_until double_int throwtable_add make_room larger_size throwtable_extend put_piece branch
    resolve_constants close_round state pctable_insert reserve filled slot insert_block write_at
    jptable_add extended pctable_get_by_pc search_pc first_of_run copy_constants ◌+ℤ◌ padded
piece_put = refl

jump_written : branch memory pieces pools 1 jump after_piece ≡ some after_jump
unfolding after_jump after_piece after_first started write_entry loop_head write_to_buffer
    ensure_buffer_size double_until double_int throwtable_add make_room larger_size
    throwtable_extend put_piece branch resolve_constants close_round state pctable_insert reserve
    filled slot insert_block write_at jptable_add extended pctable_get_by_pc search_pc first_of_run
    copy_constants ◌+ℤ◌ padded
jump_written = refl

write_code-JumpsByCode_example : JumpsByCode memory pieces jump pools after_piece after_jump.1
write_code-JumpsByCode_example =
    write_code-JumpsByCode memory pieces pools at_start 1 after_first after_piece jump after_jump
      pieces-HasRoom at_start-IsFresh
      (goes_on 0 1 at_start after_first (begins 0 at_start refl refl) inside_first first_round)
      inside_second second_entry (omega arith) (omega arith) piece_put jump_written

-- Five bytes are written, so that eleven follow: a jump over nine bytes that do nothing.
abbrev five : Writing
five = record at_start {
  buffer = record { block = 1 ∷ 2 ∷ 3 ∷ 4 ∷ 5 ∷ []; size = 5; offset = 5 };
  nativeoff = 5;
}

align-Skips_example :
    (s' : Writing) × (pad : List ℕ) × (align memory five ≡ some s')
    × (s'.nativeoff % 16 ≡ 0)
    × (five.nativeoff ≤ s'.nativeoff)
    × (s'.nativeoff < five.nativeoff + 16)
    × (written s'.buffer ≡ written five.buffer ++ pad)
    × (length pad ≡ s'.nativeoff - five.nativeoff)
    × Skips (written s'.buffer) pad five.nativeoff s'.nativeoff
align-Skips_example =
    align-Skips memory five (record { block = refl; inside = omega arith; some_room = omega arith })
      refl (omega arith)
