-- ===== src/WriteCode/Branch.antt =====
-- `register jump instructions to table and update nextoff`: the second half of a round, for the jumps.
use shujit.Base.{
  ℕ, suc, ◌+◌, ◌-◌, ◌++◌, ◌%◌, List, [], ◌∷◌, Option, none, some, ◌>>=◌, leb, ◌&&◌, ◌||◌, ◌==◌,
  if◌then◌else◌, ℤ, negsuc, ◌+ℤ◌, bits32, get_elem?, length,
}
use shujit.PcEntry.{PcEntry, state}
use shujit.PcTable.{pctable_get_by_pc, pctable_insert}
use shujit.BlockStructure.{target_of}
use shujit.States.{state_after_jump}
use shujit.Opcode.{
  opc_ifeq, opc_if_icmpeq, opc_ifne, opc_if_icmpne, opc_iflt, opc_if_icmplt, opc_ifge,
  opc_if_icmpge, opc_ifgt, opc_if_icmpgt, opc_ifle, opc_if_icmple, opc_if_acmpne, opc_ret,
  opc_goto_w, opc_jsr_w, opc_stateto0,
}
use shujit.Translate.Bytes.{byte_at, get_int16, get_int32, among}
use shujit.WriteCode.Machine.{
  Templates, Pools, Memory, Writing, write_bytes, register_jump, state_behind,
}

-- `tgtoff`, and the state that the target wants. A return from a subroutine has no `tgtoff`.
pub record Target : Type 0 where
  pub tgtoff : ℤ
  pub tgtstate : ℕ

-- Where the jump goes, and its offset in the byte code; `none`: no entry has it.
unfoldable pub jumpoff_at : List ℕ → ℤ → Option ℤ
unfolding get_int16 get_int32 byte_at
jumpoff_at code byteoff = do
  original ← byte_at code byteoff 0
  (if original == opc_goto_w || original == opc_jsr_w
      then get_int32 code byteoff 1
      else get_int16 code byteoff 1)

unfoldable pub jump_target : Pools → PcEntry → Writing → Option Target
unfolding jumpoff_at target_of
jump_target p e s =
    if e.opcode == opc_ret
    then some (record { tgtoff = negsuc 0; tgtstate = state_after_jump })
    else (do
      off ← jumpoff_at (p.code s.mb) e.byteoff
      k ← target_of (pctable_get_by_pc s.pctable (e.byteoff +ℤ off))
      entry ← get_elem? s.pctable.entries k
      some (record { tgtoff = e.byteoff +ℤ off; tgtstate = state entry }))

-- `rop` and `rop_rev` as the processor's number of the condition, and of its opposite, with the byte that stands before
-- it: `0x80` and `0x70`. `none` is a jump that the switch has no case for: `rop` is 0.
unfoldable pub conditions : ℕ → Option (ℕ × ℕ)
conditions opcode =
    if among opcode (opc_ifeq ∷ opc_if_icmpeq ∷ [])
    then some (4, 5)
    else if among opcode (opc_ifne ∷ opc_if_icmpne ∷ [])
    then some (5, 4)
    else if among opcode (opc_iflt ∷ opc_if_icmplt ∷ [])
    then some (12, 13)
    else if among opcode (opc_ifge ∷ opc_if_icmpge ∷ [])
    then some (13, 12)
    else if among opcode (opc_ifgt ∷ opc_if_icmpgt ∷ [])
    then some (15, 14)
    else if among opcode (opc_ifle ∷ opc_if_icmple ∷ [])
    then some (14, 15)
    else none

abbrev pub rop : Option (ℕ × ℕ) → ℕ
rop none = 0
rop (some (c, r)) = 0x80 + c

abbrev pub rop_rev : Option (ℕ × ℕ) → ℕ
rop_rev none = 0
rop_rev (some (c, r)) = 0x70 + r

module _ (mem : Memory) where
  -- `writeToBuffer`, with `nextoff` moved on.
  unfoldable pub append : List ℕ → Writing → Option Writing
  unfolding write_bytes
  append bytes s = do
    s1 ← write_bytes mem s bytes
    some (record s1 { nextoff = s1.nextoff + length bytes })

  -- `jptableAdd(cc, tgtoff, nextoff - 4)` behind a near jump.
  unfoldable pub append_jump : List ℕ → ℤ → Writing → Option Writing
  unfolding append register_jump
  append_jump opcode tgtoff s = do
    s1 ← append (opcode ++ 0 ∷ 0 ∷ 0 ∷ 0 ∷ []) s
    register_jump mem s1 (bits32 tgtoff) (s1.nextoff - 4)

  module _ (t : Templates) where
    -- The entry for the change of state, and its code.
    unfoldable pub change_state : ℕ → PcEntry → ℕ → Writing → Option Writing
    unfolding append state_behind
    change_state i e tgtstate s = do
      table ←
          pctable_insert mem.pcentries s.pctable (suc i) (opc_stateto0 + tgtstate) (negsuc 0)
            e.byteoff (state_behind t e) s.nextoff
      append (t.piece (opc_stateto0 + tgtstate) (state_behind t e)) (record s { pctable = table })

    -- A jump on a condition. The result has the next index of the loop.
    unfoldable pub conditional_jump : ℕ → PcEntry → Target → Writing → Option (ℕ × Writing)
    unfolding append append_jump change_state conditions
    conditional_jump i e target s =
        let len = length (t.piece (opc_stateto0 + target.tgtstate) (state_behind t e)) in
        let back = rop_rev (conditions e.opcode) in
        if state_behind t e == target.tgtstate
        then (do
          s1 ← append_jump (0x0f ∷ rop (conditions e.opcode) ∷ []) target.tgtoff s
          some (i, s1))
        else (do
          s1 ← append (back ∷ (len + 5) % 256 ∷ []) s
          s2 ← change_state i e target.tgtstate s1
          s3 ← append_jump (0xe9 ∷ []) target.tgtoff s2
          some (suc i, s3))

    -- `goto`, `jsr` and `ret`.
    unfoldable pub plain_jump : ℕ → PcEntry → Target → Writing → Option (ℕ × Writing)
    unfolding append append_jump change_state
    plain_jump i e target s = do
      s1 ← change_state i e target.tgtstate s
      s2 ←
          if e.opcode == opc_ret
          then append (0xff ∷ 0xe0 ∷ []) s1
          else append_jump (0xe9 ∷ []) target.tgtoff s1
      some (suc i, s2)

    unfoldable pub branch : Pools → ℕ → PcEntry → Writing → Option (ℕ × Writing)
    unfolding jump_target conditional_jump plain_jump
    branch p i e s =
        if leb opc_ifeq e.opcode && leb e.opcode opc_ret
        then (do
          target ← jump_target p e s
          (if leb e.opcode opc_if_acmpne
              then conditional_jump i e target s
              else plain_jump i e target s))
        else some (i, s)
