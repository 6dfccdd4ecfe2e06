-- ===== src/Switches.antt =====
-- compile.c, resolveExcRetSwitch: the tables behind the native code that the switch instructions look up. Places and
-- offsets of generated code are parameters.
pub mod Room
pub mod Stands
mod Examples
use shujit.Base.{
  ℕ, zero, suc, ◌+◌, ◌-◌, ◌*◌, ◌/◌, List, [], ◌∷◌, ◌++◌, Option, none, some, ◌>>=◌, ◌==◌,
  if◌then◌else◌, ℤ, pos, negsuc, ◌+ℤ◌, bits32, ◌%◌, ◌^◌, get_elem?, get_or, set, length, write_at,
  Realloc,
}
use shujit.Opcode.{opc_tableswitch, opc_lookupswitch}
use shujit.PcEntry.{PcEntry, state}
use shujit.PcTable.{PcTable, pctable_get_by_pc, no_entry}
use shujit.Translate.Bytes.{get_int32, aligned, nonnegative}
use shujit.BlockStructure.{target_of, switch_offsets}
use shujit.Contexts.Output.{Buffer, ensure_buffer_size}
use shujit.Jump.{le_bytes}
use shujit.Jump.Exits.{word}

-- `goto_code state last_state` is the offset of the code for `opc_goto_st0 + state`; `last_state` and `place` are by opcode
-- and state, `place` of the operand that the offset of the table goes to.
pub record SwitchCode : Type 0 where
  pub goto_code : ℕ → ℕ → ℕ
  pub last_state : ℕ → ℕ → ℕ
  pub place : ℕ → ℕ → ℕ

-- The two words for a target: its native code, and the code that brings the cache to its state.
unfoldable pub target_words : SwitchCode → PcTable → ℕ → ℤ → Option (List ℕ)
unfolding target_of state
target_words g t last pc = do
  j ← target_of (pctable_get_by_pc t pc)
  e ← get_elem? t.entries j
  some (e.nativeoff ∷ g.goto_code (state e) last ∷ [])

-- tableswitch: the default first.
unfoldable pub table_words : SwitchCode → PcTable → ℕ → ℤ → List ℤ → Option (List ℕ)
unfolding target_words
table_words g t last byteoff [] = some []
table_words g t last byteoff (off ∷ offs) = do
  ws ← target_words g t last (byteoff +ℤ off)
  rest ← table_words g t last byteoff offs
  some (ws ++ rest)

-- The pairs of a lookupswitch, from the word `k` on.
unfoldable pub pairs_at : List ℕ → ℤ → ℕ → ℕ → Option (List (ℤ × ℤ))
unfolding get_int32
pairs_at code (negsuc p) k n = none
pairs_at code (pos pc) k zero = some []
pairs_at code (pos pc) k (suc n) = do
  match ← get_int32 code (pos pc) (aligned pc + 4 * k)
  off ← get_int32 code (pos pc) (aligned pc + 4 * (k + 1))
  rest ← pairs_at code (pos pc) (k + 2) n
  some ((match, off) ∷ rest)

-- lookupswitch: three words for each pair, and three for the default, whose match is a dummy.
unfoldable pub pair_words : SwitchCode → PcTable → ℕ → ℤ → List (ℤ × ℤ) → ℤ → Option (List ℕ)
unfolding target_words
pair_words g t last byteoff [] defoff = do
  ws ← target_words g t last (byteoff +ℤ defoff)
  some (0 ∷ ws)
pair_words g t last byteoff ((match, off) ∷ pairs) defoff = do
  ws ← target_words g t last (byteoff +ℤ off)
  rest ← pair_words g t last byteoff pairs defoff
  some (word match ∷ (ws ++ rest))

abbrev pub words_bytes : List ℕ → List ℕ
words_bytes [] = []
words_bytes (w ∷ ws) = le_bytes w ++ words_bytes ws

-- `ALIGNUP32(cc->bufp)`, in a block that is aligned.
abbrev pub align_up : Buffer → Buffer
align_up b = record b { offset = (b.offset + 3) / 4 * 4 }

-- The default and the number of pairs of a lookupswitch.
unfoldable pub lookup_head : List ℕ → ℤ → Option (ℤ × ℕ)
unfolding get_int32
lookup_head code (negsuc p) = none
lookup_head code (pos pc) = do
  defoff ← get_int32 code (pos pc) (aligned pc)
  n ← get_int32 code (pos pc) (aligned pc + 4)
  npairs ← nonnegative n
  some (defoff, npairs)

-- `entry->operand = tbloff`
unfoldable pub set_operand : PcTable → ℕ → ℕ → PcTable
set_operand t i tbloff = record t {
  entries = set t.entries i (record (get_or t.entries i no_entry) { operand = pos tbloff });
}

-- `(h - l + 2) * 8`, a 32-bit number for `ensureBufferSize`.
unfoldable pub table_room : List ℕ → ℤ → Option ℕ
unfolding get_int32
table_room code (negsuc p) = none
table_room code (pos pc) = do
  l ← get_int32 code (pos pc) (aligned pc + 4)
  h ← get_int32 code (pos pc) (aligned pc + 8)
  some ((bits32 h + (2 ^ 32 - bits32 l) + 2) * 8 % 2 ^ 32)

module _ (mem : Realloc ℕ) (g : SwitchCode) where
  -- The room is made, the offset of the table goes into the code and to the entry, and the table behind the code.
  unfoldable pub put_table : Buffer → PcTable → ℕ → ℕ → ℕ → List ℕ → Option (Buffer × PcTable)
  unfolding ensure_buffer_size set_operand
  put_table b t i at room ws = do
    r ← ensure_buffer_size mem (align_up b) room
    let patched = write_at at (le_bytes r.offset) r.block
    some (
      record r {
        block = write_at r.offset (words_bytes ws) patched;
        offset = r.offset + 4 * length ws;
      },
      set_operand t i r.offset,
    )

  unfoldable pub resolve_tableswitch : List ℕ → Buffer → PcTable → ℕ → Option (Buffer × PcTable)
  unfolding switch_offsets table_words put_table table_room state
  resolve_tableswitch code b t i = do
    let e = get_or t.entries i no_entry
    offs ← switch_offsets code opc_tableswitch e.byteoff
    room ← table_room code e.byteoff
    ws ← table_words g t (g.last_state opc_tableswitch (state e)) e.byteoff offs
    put_table b t i (e.nativeoff + g.place opc_tableswitch (state e)) room ws

  unfoldable pub resolve_lookupswitch : List ℕ → Buffer → PcTable → ℕ → Option (Buffer × PcTable)
  unfolding lookup_head pairs_at pair_words put_table state
  resolve_lookupswitch code b t i = do
    let e = get_or t.entries i no_entry
    (defoff, npairs) ← lookup_head code e.byteoff
    pairs ← pairs_at code e.byteoff 2 npairs
    ws ← pair_words g t (g.last_state opc_lookupswitch (state e)) e.byteoff pairs defoff
    put_table b t i (e.nativeoff + g.place opc_lookupswitch (state e)) ((npairs + 1) * 12) ws
