-- ===== src/WriteCode/Piece.antt =====
-- The first half of a round: padding before the head of a loop, the piece of code of the entry, its entry in the throw
-- table, and the break points that are patched on it.
use shujit.Base.{
  ℕ, ◌+◌, ◌-◌, ◌%◌, ◌^◌, [], ◌∷◌, Option, some, ◌>>=◌, Bool, ◌&&◌, ◌||◌, not, leb, ◌==◌,
  if◌then◌else◌, bits32, get_elem?, get_or, set, length, replicate,
}
use shujit.PcEntry.{PcEntry, state, loop_head}
use shujit.ThrowTable.{ThrowTable, throwtable_add}
use shujit.Opcode.{
  opc_exc_handler, opc_epilogue, opc_getstatic, opc_getstatic2, opc_putstatic, opc_putstatic2,
  opc_invokestatic, opc_invokeignored_static, opc_new, opc_inlined_enter, opc_new_quick,
  opc_getstatic_quick, opc_putstatic2_quick, opc_invokeignored_quick, opc_invokeinterface,
  opc_invokeinterface_quick,
}
use shujit.Translate.Bytes.{byte_at, among}
use shujit.WriteCode.Machine.{Templates, Pools, Memory, Writing, poke, write_bytes}

-- `((-nativeoff - (ALIGN_BOUND-1)) % ALIGN_BOUND) + (ALIGN_BOUND-1)`: the remainder of a number that is not
-- positive is not positive.
unfoldable pub padding : ℕ → ℕ
padding nativeoff = 15 - (nativeoff + 15) % 16

abbrev pub jump_threshold : ℕ
jump_threshold = 4

-- The entry for `throwtableAdd`, with the fields that a patch sets.
abbrev pub patch_last : ThrowTable → ℕ → ℕ → ℕ → ThrowTable
patch_last t opcode cb byte = record t {
  entries =
      set t.entries (t.len - 1)
        (record (get_or t.entries (t.len - 1)
          (record { start = 0; byteoff = 0; len = 0; patched_code = 0; cb = 0; opcode = 0 })) {
            opcode = opcode % 2 ^ 16;
            cb = cb;
            patched_code = byte;
          });
}

-- `INVINTF_PATCH_OFFSET`
abbrev pub invintf_patch_offset : ℕ
invintf_patch_offset = 0x30

-- The offsets of the exception handler, where there is none yet, and of the end of the method.
unfoldable pub note_offsets : ℕ → Writing → Writing
note_offsets opcode s =
    let handler = if s.exc_handler_nativeoff == 0 then s.nativeoff else s.exc_handler_nativeoff in
    if opcode == opc_exc_handler
    then record s { exc_handler_nativeoff = handler }
    else if opcode == opc_epilogue
    then record s { finish_return_nativeoff = s.nativeoff; exc_handler_nativeoff = handler }
    else s

-- `pctable->nativeoff = nativeoff`
unfoldable pub set_nativeoff : ℕ → PcEntry → Writing → Writing
set_nativeoff i e s = record s {
  pctable = record s.pctable {
    entries = set s.pctable.entries i (record e { nativeoff = s.nativeoff });
  };
}

-- The opcodes that need an initialized class.
abbrev pub needs_class : ℕ → Bool
needs_class opcode = among opcode (
    opc_getstatic ∷ opc_getstatic2 ∷ opc_putstatic ∷ opc_putstatic2 ∷ opc_invokestatic
    ∷ opc_invokeignored_static ∷ opc_new ∷ opc_inlined_enter ∷ [])

-- The forms of the byte code for which the class is initialized already.
unfoldable pub is_initialized_form : ℕ → ℕ → Bool
is_initialized_form opcode original =
    if opcode == opc_inlined_enter
    then not (original == opc_invokestatic)
    else original == opc_new_quick
      || ((leb opc_getstatic_quick original && leb original opc_putstatic2_quick)
          || original == opc_invokeignored_quick)

module _ (mem : Memory) where
  -- The padding, over which a jump of two bytes goes from `JUMP_THRESHOLD` on.
  unfoldable pub align : Writing → Option Writing
  unfolding padding write_bytes
  align s =
      let pad = padding s.nativeoff in
      if leb jump_threshold pad
      then (do
        s1 ← write_bytes mem s (0xeb ∷ (pad - 2) ∷ [])
        s2 ← write_bytes mem (record s1 { nativeoff = s1.nativeoff + 2 }) (replicate (pad - 2) 0x90)
        some (record s2 { nativeoff = s2.nativeoff + (pad - 2) }))
      else (do
        s1 ← write_bytes mem s (replicate pad 0x90)
        some (record s1 { nativeoff = s1.nativeoff + pad }))

  unfoldable pub align_loop_head : PcEntry → Writing → Option Writing
  unfolding align
  align_loop_head e s = if loop_head e == 1 then align s else some s

  -- `throwtableAdd` for the code of the entry.
  unfoldable pub add_throw_entry : PcEntry → ℕ → Writing → Option Writing
  add_throw_entry e len s = do
    t ← throwtable_add mem.throwentries s.throwtable s.nativeoff len (bits32 e.increasing_byteoff)
    some (record s { throwtable = t })

  -- `int $3` on the byte at `offset` of the code, with an entry that keeps the byte.
  unfoldable pub set_break : PcEntry → ℕ → ℕ → ℕ → Writing → Option Writing
  unfolding add_throw_entry
  set_break e len cb offset s = do
    s1 ← add_throw_entry e len s
    byte ← get_elem? s1.buffer.block (s1.nativeoff + offset)
    some (
        poke (s1.nativeoff + offset) (0xcc ∷ [])
          (record s1 { throwtable = patch_last s1.throwtable e.opcode cb byte }))

  module _ (p : Pools) where
    -- The first cases of the switch for break points.
    unfoldable pub break_for_class : PcEntry → ℕ → ℕ → Writing → Option Writing
    unfolding is_initialized_form set_break
    break_for_class e len original s =
        let cb = p.class_of (p.pool_method s.mb e.operand) in
        if is_initialized_form e.opcode original
        then some s
        else if e.opcode == opc_new
        then set_break e len (p.pool_class s.mb e.operand) 0 s
        else if p.class_initialized cb
        then some s
        else set_break e len cb 0 s

    -- `cb` stays as `throwtableAdd` sets it for an interface.
    unfoldable pub break_for_interface : PcEntry → ℕ → ℕ → Writing → Option Writing
    unfolding set_break
    break_for_interface e len original s =
        if original == opc_invokeinterface_quick
        then some s
        else set_break e len 0 invintf_patch_offset s

    unfoldable pub add_break : PcEntry → ℕ → Writing → Option Writing
    unfolding break_for_class break_for_interface
    add_break e len s =
        if needs_class e.opcode
        then (do original ← byte_at (p.code s.mb) e.byteoff 0; break_for_class e len original s)
        else if e.opcode == opc_invokeinterface
        then (do original ← byte_at (p.code s.mb) e.byteoff 0; break_for_interface e len original s)
        else some s

    -- From the padding to `nextoff = nativeoff + codep->length`.
    unfoldable pub put_piece : Templates → ℕ → PcEntry → Writing → Option Writing
    unfolding align_loop_head note_offsets write_bytes set_nativeoff add_throw_entry add_break
    put_piece t i e s = do
      let code = t.piece e.opcode (state e)
      s1 ← align_loop_head e s
      s2 ←
          write_bytes mem (note_offsets e.opcode (record s1 { insn_head_off = s1.buffer.offset }))
            code
      let s3 = set_nativeoff i e s2
      s4 ← if t.signals e.opcode (state e) then add_throw_entry e (length code) s3 else some s3
      s5 ← add_break e (length code) s4
      some (record s5 { nextoff = s5.nativeoff + length code })
