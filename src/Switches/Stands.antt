-- ===== src/Switches/Stands.antt =====
-- The table of a switch stands behind the code, inside the buffer.
use shujit.Base.{
  ◌/◌, ◌%◌, ◌≤◌, drop, take, subst, write_at, length-write_at, take-write_at, length-take,
  drop-append_eq, Realloc, ◌<◌, ◌^◌, ◌≤ℤ◌, pos_part, neg_part, get_or, ℕ, ◌+◌, ◌*◌, ◌≡◌, sym, ap,
  ◌∙◌, arith, List, some, some-injective, bind-some, length, ℤ, pos,
}
use shujit.PcEntry.{PcEntry, state}
use shujit.Opcode.{opc_tableswitch, opc_lookupswitch}
use shujit.PcTable.{PcTable, no_entry}
use shujit.Translate.Bytes.{get_int32, aligned}
use shujit.BlockStructure.{switch_offsets}
use shujit.Contexts.Output.{Buffer, IsValid, written, ensure_buffer_size}
use shujit.WriteCode.Grown.{ensure_buffer_size-some}
use shujit.Jump.{le_bytes}
use shujit.Switches.{
  SwitchCode, table_words, pairs_at, pair_words, words_bytes, align_up, put_table, table_room,
  lookup_head, resolve_tableswitch,
}
use shujit.Switches.Room.{
  length-table_words, length-switch_offsets, table_room-is, length-words_bytes,
}

-- The entry at an index.
abbrev pub entry_at : PcTable → ℕ → PcEntry
entry_at t i = get_or t.entries i no_entry

-- A table of these words stands in whole at the aligned end of the code, inside the buffer.
pub record Stands (ws : List ℕ) (b b' : Buffer) : Type 0 where
  pub valid : IsValid b'
  pub behind : b'.offset ≡ (b.offset + 3) / 4 * 4 + 4 * length ws
  pub in_place : drop ((b.offset + 3) / 4 * 4) (written b') ≡ words_bytes ws

-- A buffer of whole words is still one when its end is aligned.
align_up-IsValid : (b : Buffer) → IsValid b → b.size % 4 ≡ 0 → IsValid (align_up b)
align_up-IsValid b v whole = record {
  block = v.block;
  inside = omega (arith, v.inside);
  some_room = v.some_room;
}

module _ (mem : Realloc ℕ) (g : SwitchCode) where
  put_table-Stands :
      (b : Buffer) (t : PcTable) (i at room : ℕ) (ws : List ℕ) (r : Buffer × PcTable)
      → IsValid b
      → b.size % 4 ≡ 0
      → at + 4 ≤ b.offset
      → 4 * length ws ≤ room
      → put_table mem g b t i at room ws ≡ some r
      → Stands ws b r.0
  unfolding put_table
  put_table-Stands b t i at room ws r v whole place enough run =
      let (c, e1, k1) = bind-some (ensure_buffer_size mem (align_up b) room) _ r run in
      let d = ensure_buffer_size-some mem (align_up b) room c (align_up-IsValid b v whole) e1 in
      let bytes = words_bytes ws in
      let patched = write_at at (le_bytes c.offset) c.block in
      let size = length-words_bytes ws in
      let same : length patched ≡ length c.block =
        length-write_at at (le_bytes c.offset) c.block
          (omega (arith, d.same_offset, d.valid.inside, d.valid.block, place)) in
      let room' : c.offset + length bytes ≤ length patched =
        omega (arith, size, same, d.enough, d.same_offset, d.valid.block, enough) in
      subst (λ (x : Buffer × PcTable). Stands ws b x.0) (some-injective _ _ k1)
        (record {
          valid = record {
            block = length-write_at c.offset bytes patched room' ∙ same ∙ d.valid.block;
            inside = omega (arith, room', size, same, d.valid.block);
            some_room = d.valid.some_room;
          };
          behind = ap (λ (n : ℕ). n + 4 * length ws) d.same_offset;
          in_place =
              ap
                (λ (n : ℕ).
                  drop ((b.offset + 3) / 4 * 4)
                    (take (c.offset + n) (write_at c.offset bytes patched)))
                (sym size)
              ∙ ap (drop ((b.offset + 3) / 4 * 4)) (take-write_at c.offset bytes patched room')
              ∙ drop-append_eq ((b.offset + 3) / 4 * 4) (take c.offset patched) bytes
                  (omega (arith, length-take c.offset patched, room', d.same_offset));
        })

  -- The table of a lookupswitch, by the pairs of the byte code.
  pub record LookupStands (code : List ℕ) (t : PcTable) (i : ℕ) (b b' : Buffer) : Type 0 where
    pub defoff : ℤ
    pub npairs : ℕ
    pub pairs : List (ℤ × ℤ)
    pub ws : List ℕ
    pub head : lookup_head code (entry_at t i).byteoff ≡ some (defoff, npairs)
    pub reads : pairs_at code (entry_at t i).byteoff 2 npairs ≡ some pairs
    pub makes :
        pair_words g t
          (g.last_state opc_lookupswitch (state (entry_at t i)))
          (entry_at t i).byteoff
          pairs
          defoff
        ≡ some ws
    pub stands : Stands ws b b'

  -- The table of a tableswitch, by the offsets of the byte code.
  pub record TableStands (code : List ℕ) (t : PcTable) (i : ℕ) (b b' : Buffer) : Type 0 where
    pub offs : List ℤ
    pub ws : List ℕ
    pub reads : switch_offsets code opc_tableswitch (entry_at t i).byteoff ≡ some offs
    pub makes :
        table_words g t
          (g.last_state opc_tableswitch (state (entry_at t i)))
          (entry_at t i).byteoff
          offs
        ≡ some ws
    pub stands : Stands ws b b'

  -- When the table of a tableswitch has been made, it stands in whole behind the code, at a multiple of four, with the
  -- words for the default and for all offsets of the byte code, and no write has gone out of the buffer: the room that is
  -- made is enough. Conditions: the bounds of the switch are in order and less than 2 ^ 28 apart, the buffer is valid, of
  -- whole words, and the operand of the instruction lies in the code.
  pub resolve_tableswitch-Stands :
      (code : List ℕ) (b : Buffer) (t : PcTable) (i pc : ℕ) (l h : ℤ) (r : Buffer × PcTable)
      → (entry_at t i).byteoff ≡ pos pc
      → get_int32 code (pos pc) (aligned pc + 4) ≡ some l
      → get_int32 code (pos pc) (aligned pc + 8) ≡ some h
      → l ≤ℤ h
      → pos_part h + neg_part l < pos_part l + neg_part h + 2 ^ 28
      → IsValid b
      → b.size % 4 ≡ 0
      → (entry_at t i).nativeoff + g.place opc_tableswitch (state (entry_at t i)) + 4 ≤ b.offset
      → resolve_tableswitch mem g code b t i ≡ some r
      → TableStands code t i b r.0
  unfolding resolve_tableswitch
  resolve_tableswitch-Stands code b t i pc l h r at low high order near v whole place run =
      let e = entry_at t i in
      let last = g.last_state opc_tableswitch (state e) in
      let (offs, e1, k1) = bind-some (switch_offsets code opc_tableswitch e.byteoff) _ r run in
      let (room, e2, k2) = bind-some (table_room code e.byteoff) _ r k1 in
      let (ws, e3, k3) = bind-some (table_words g t last e.byteoff offs) _ r k2 in
      let room_is =
        table_room-is code pc l h room low high order near
          (subst (λ (z : ℤ). table_room code z ≡ some room) at e2) in
      let count =
        length-switch_offsets code pc l h offs low high
          (subst (λ (z : ℤ). switch_offsets code opc_tableswitch z ≡ some offs) at e1) in
      record {
        offs = offs;
        ws = ws;
        reads = e1;
        makes = e3;
        stands =
            put_table-Stands b t i (e.nativeoff + g.place opc_tableswitch (state e)) room ws r v
              whole place
              (omega (arith, count, room_is, length-table_words g t last e.byteoff offs ws e3)) k3;
      }
