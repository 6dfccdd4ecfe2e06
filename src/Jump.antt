-- ===== src/Jump.antt =====
-- compile.c, resolveJumpInstructions: the operands of the jumps in the native code, and the
-- rewriting of near jumps to short ones (`SHORTEN_JUMP_INSN`).
-- The code is the list of its bytes; an `int32_t` operand is its bit pattern.
pub mod Machine
pub mod Lands
pub mod Sites
pub mod Exits
mod Examples
use shujit.Base.{
  ℕ, ◌+◌, ◌-◌, ◌%◌, ◌/◌, ◌^◌, Bool, List, [], ◌∷◌, Option, none, some, ◌>>=◌, ℤ, pos, negsuc, ltb,
  ◌==◌, if◌then◌else◌, get_elem?, get_or, write_at, int32,
}
use shujit.PcEntry.{PcEntry}
use shujit.PcTable.{PcTable, Lookup, pctable_get_by_pc}
use shujit.PcTable.Lookup.{found}
use shujit.JpTable.{JpEntry}

-- The four bytes of a 32-bit word in memory.
abbrev pub le_bytes : ℕ → List ℕ
le_bytes w = w % 256 ∷ w / 256 % 256 ∷ w / 65536 % 256 ∷ w / 16777216 % 256 ∷ []

-- `(int32_t)(char)w`
abbrev pub sign_extend : ℕ → ℕ
sign_extend w = if ltb (w % 256) 128 then w % 256 else w % 256 + (2 ^ 32 - 256)

-- `arg == ((int32_t)carg)`
abbrev pub fits_char : ℕ → Bool
fits_char w = w == sign_extend w

-- `tgtoff - (argoff + 4)` on `unsigned int`
abbrev pub displacement : ℕ → ℕ → ℕ
displacement tgtoff argoff = (tgtoff % 2 ^ 32 + 2 ^ 32 - (argoff + 4) % 2 ^ 32) % 2 ^ 32

-- `0xe9 XX XX XX XX` becomes `0xeb XX 0x90 0x90 0x90`.
pub shorten_jmp : List ℕ → ℕ → ℕ → List ℕ
shorten_jmp code argoff arg =
    let short = (arg + 3) % 2 ^ 32 in
    if fits_char short
    then write_at (argoff - 1) (0xeb ∷ short % 256 ∷ 0x90 ∷ 0x90 ∷ 0x90 ∷ []) code
    else code

-- `0x0f 0x8X XX XX XX XX` becomes `0x7X XX 0xeb 0x02 0x90 0x90`. `second` is the byte `p[1]`.
pub shorten_jcc : List ℕ → ℕ → ℕ → ℕ → List ℕ
shorten_jcc code argoff second arg =
    let short = (arg + 4) % 2 ^ 32 in
    if fits_char short
    then write_at (argoff - 2)
        ((second + 256 - 0x10) % 256 ∷ short % 256 ∷ 0xeb ∷ 0x02 ∷ 0x90 ∷ 0x90 ∷ []) code
    else code

-- The body of the loop, for a jump to the native offset `tgtoff`.
pub resolve_jump : List ℕ → ℕ → ℕ → List ℕ
resolve_jump code tgtoff argoff =
    let arg = displacement tgtoff argoff in
    let patched = write_at argoff (le_bytes arg) code in
    let second = get_or patched (argoff - 1) 0 in
    if second == 0xe9 then shorten_jmp patched argoff arg else shorten_jcc patched argoff second arg

-- `pctableGetByPC(cc, tgtoff)->nativeoff`; `none`: there is no such entry, and the code follows a
-- null pointer or one outside the block.
unfoldable pub native_target : PcTable → ℕ → Option ℕ
native_target t tgtoff = elim (pctable_get_by_pc t (int32 tgtoff)) [
  | found k ↦ do e ← get_elem? t.entries k; some (PcEntry.nativeoff e)
  | _ ↦ none
]

unfoldable pub resolve_jump_instructions : PcTable → List JpEntry → List ℕ → Option (List ℕ)
resolve_jump_instructions t [] code = some code
resolve_jump_instructions t (j ∷ jptable) code =
    let rest =
      λ (target : ℕ). resolve_jump_instructions t jptable (resolve_jump code target j.argoff) in
    native_target t j.tgtoff >>= rest
