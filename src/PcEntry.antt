-- ===== src/PcEntry.antt =====
-- compiler.h, computil.c: an entry of the pc table, and the macros that read and write the bits of
-- its flag word (state: bits 0 to 3, block head: bit 4, loop head: bit 5, loop tail: bit 6).
-- A `uint16_t` or `uint32_t` is a native ℕ; the `int32_t` fields are integers.
pub mod Bits
pub mod Laws
use shujit.Base.{ℕ, ◌/◌, ℤ, negsuc, bit_and, bit_or}

pub record PcEntry : Type 0 where
  pub opcode : ℕ
  pub flag : ℕ
  pub operand : ℤ
  pub byteoff : ℤ
  pub increasing_byteoff : ℤ
  pub nativeoff : ℕ

-- `pcentryState`, `pcentryBlockHead`, `pcentryLoopHead`, `pcentryLoopTail`
unfoldable pub state : PcEntry → ℕ
state e = bit_and e.flag 0xf

unfoldable pub block_head : PcEntry → ℕ
block_head e = bit_and (e.flag / 0x10) 0x1

unfoldable pub loop_head : PcEntry → ℕ
loop_head e = bit_and (e.flag / 0x20) 0x1

unfoldable pub loop_tail : PcEntry → ℕ
loop_tail e = bit_and (e.flag / 0x40) 0x1

-- `pcentrySetState`: `~0xf` on a 16-bit word. `st` is the bit pattern of an `int`.
unfoldable pub set_state : PcEntry → ℕ → PcEntry
set_state e st = record e { flag = bit_or (bit_and e.flag 0xfff0) (bit_and st 0xf) }

unfoldable pub set_block_head : PcEntry → PcEntry
set_block_head e = record e { flag = bit_or e.flag 0x10 }

unfoldable pub clear_block_head : PcEntry → PcEntry
clear_block_head e = record e { flag = bit_and e.flag 0xffef }

unfoldable pub set_loop_head : PcEntry → PcEntry
set_loop_head e = record e { flag = bit_or e.flag 0x20 }

unfoldable pub clear_loop_head : PcEntry → PcEntry
clear_loop_head e = record e { flag = bit_and e.flag 0xffdf }

unfoldable pub set_loop_tail : PcEntry → PcEntry
set_loop_tail e = record e { flag = bit_or e.flag 0x40 }

unfoldable pub clear_loop_tail : PcEntry → PcEntry
clear_loop_tail e = record e { flag = bit_and e.flag 0xffbf }

-- `(uint32_t)-1`, the offset of native code that is not generated yet
abbrev pub no_nativeoff : ℕ
no_nativeoff = 0xffff_ffff

-- `pcentryClear`
pub pcentry_clear : PcEntry → PcEntry
unfolding set_state clear_block_head clear_loop_head clear_loop_tail
pcentry_clear e =
    let e₁ = record e {
      opcode = 0;
      operand = negsuc 0;
      byteoff = negsuc 0;
      increasing_byteoff = negsuc 0;
    } in
    let e₂ = clear_loop_tail (clear_loop_head (clear_block_head (set_state e₁ 0))) in
    record e₂ { nativeoff = no_nativeoff }
