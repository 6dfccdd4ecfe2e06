-- ===== src/DynamicConstants/Examples.antt =====
-- A class that is pushed for a synchronized method, and a static field.
use shujit.Base.{ℕ, ◌+◌, ◌*◌, ◌≡◌, refl, inr, List, [], ◌∷◌, some, true, pos, arith, replicate, ℤ}
use shujit.PcEntry.{PcEntry, state}
use shujit.Opcode.{opc_sync_static_enter, opc_getstatic}
use shujit.Base.{get_elem?, write_at, padded}
use shujit.WriteCode.Machine.{Templates, Pools, Memory}
use shujit.PcTable.{no_entry}
use shujit.DynamicConstants.Kinds.{link_of}
use shujit.DynamicConstants.Steps.{
  Addresses, LinkEnd, all_linked, link_failed, link_fault, resolve_dynamic_constants, link_entries,
  link, put_word, resolve_first,
}
use shujit.DynamicConstants.Stays.{AllAway, StaysAt, resolve_dynamic_constants-StaysAt}

abbrev memory : Memory
memory = record {
  bytes = padded 0;
  pcentries = padded no_entry;
  jpentries = padded (record { tgtoff = 0; argoff = 0 });
  throwentries =
      padded (record { start = 0; byteoff = 0; len = 0; patched_code = 0; cb = 0; opcode = 0 });
  elems = padded (pos 0);
}

abbrev pieces : Templates
pieces = record {
  piece = λ opcode st. replicate 8 0x40;
  signals = λ opcode st. true;
  last_state = λ opcode st. 1;
  constant_at = λ opcode st k. 4 * k + 1;
}

abbrev pools : Pools
pools = record {
  code = λ mb. 16 ∷ 7 ∷ 167 ∷ 255 ∷ 254 ∷ [];
  pool_word = λ mb i. 0;
  pool_string = λ mb i. true;
  pool_method = λ mb i. pos 0;
  pool_class = λ mb i. 0;
  field_offset = λ mb i. 0;
  class_of = λ mb. 0x04030201;
  class_initialized = λ cb. true;
  args_size = λ mb. 1;
  nlocals = λ mb. 1;
  table_slot = λ mb. 0;
  resolve = λ mb i mask known. some known;
}

abbrev entry : ℕ → ℤ → ℕ → PcEntry
entry opcode operand nativeoff = record {
  opcode = opcode;
  flag = 0;
  operand = operand;
  byteoff = pos 0;
  increasing_byteoff = pos 0;
  nativeoff = nativeoff;
}

abbrev addresses : Addresses
addresses = record { static_address = λ mb i. 0x08070605; code_at = λ mb. 0; assembled = 0 }

abbrev entries : List PcEntry
entries = entry opc_sync_static_enter (pos 0) 0 ∷ entry opc_getstatic (pos 3) 8 ∷ []

abbrev code : List ℕ
code = replicate 20 0x40

abbrev resolved_code : LinkEnd
resolved_code =
    resolve_dynamic_constants memory pieces pools addresses (pos 0) (λ mb i. true) entries code

code_after : LinkEnd → List ℕ
code_after (all_linked s) = s.code
code_after (link_failed s) = []
code_after link_fault = []

-- Each word is behind the first byte of its piece.
words_in_place :
    code_after resolved_code
    ≡ 0x40 ∷ 1 ∷ 2 ∷ 3 ∷ 4 ∷ 0x40 ∷ 0x40 ∷ 0x40 ∷ 0x40 ∷ 5 ∷ 6 ∷ 7 ∷ 8 ∷ 0x40 ∷ 0x40 ∷ 0x40 ∷ 0x40
      ∷ 0x40 ∷ 0x40 ∷ 0x40 ∷ []
unfolding code_after resolve_dynamic_constants link_entries link link_of put_word resolve_first
    state write_at
words_in_place = refl

resolve_dynamic_constants-StaysAt_example : StaysAt 17 (get_elem? code 17) resolved_code
unfolding link_of
resolve_dynamic_constants-StaysAt_example =
    resolve_dynamic_constants-StaysAt memory pieces pools addresses 17 (pos 0) (λ mb i. true)
      entries code (omega arith) entries-AllAway
  where
    entries-AllAway : AllAway pieces 17 entries
    entries-AllAway = (
      record { first = inr (omega arith); second = inr (omega arith); table = tt },
      (record { first = inr (omega arith); second = inr (omega arith); table = tt }, tt),
    )
