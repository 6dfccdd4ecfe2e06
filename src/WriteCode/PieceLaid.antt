-- ===== src/WriteCode/PieceLaid.antt =====
-- The first half of a round puts the piece of the entry behind what is laid.
use shujit.Base.{
  ℕ, suc, ◌+◌, ◌-◌, ◌*◌, ◌≤◌, ◌<◌, ◌≡◌, refl, ap, sym, ◌∙◌, List, [], ◌∷◌, Option, some,
  some-injective, bind-some, either_branch, subst, true, Bool-cases, inl, inr, leb, ◌==◌,
  if◌then◌else◌, length, length-replicate, replicate, length-set, get_elem?, bits32, arith,
}
use shujit.PcEntry.{PcEntry, state, loop_head}
use shujit.ThrowTable.{throwtable_add}
use shujit.Opcode.{
  opc_invokeinterface, opc_exc_handler, opc_epilogue, opc_new, opc_invokeinterface_quick,
}
use shujit.WriteCode.Kinds.{kind_of, words_at_place}
use shujit.Translate.Bytes.{byte_at}
use shujit.WriteCode.Machine.{Templates, Pools, Memory, Writing, write_bytes}
use shujit.WriteCode.Piece.{
  padding, jump_threshold, note_offsets, set_nativeoff, needs_class, is_initialized_form,
  invintf_patch_offset, align, align_loop_head, add_throw_entry, set_break, break_for_class,
  break_for_interface, add_break, put_piece,
}
use shujit.WriteCode.Keeps.{
  IsCased, AllCased-set, Good, Open, Piece, poke-OpenTo, write_bytes-Good, write_bytes-Piece,
}

note_offsets-Good :
    (count opcode : ℕ) (s : Writing) → Good count s → Good count (note_offsets opcode s)
unfolding note_offsets
note_offsets-Good count opcode s g =
    either_branch (Good count) (opcode == opc_exc_handler) g
      (either_branch (Good count) (opcode == opc_epilogue) g g)

note_offsets-head :
    (opcode : ℕ) (s : Writing)
    → s.insn_head_off ≡ s.buffer.offset
    → (note_offsets opcode s).insn_head_off ≡ (note_offsets opcode s).buffer.offset
unfolding note_offsets
note_offsets-head opcode s e =
    either_branch (λ (s : Writing). s.insn_head_off ≡ s.buffer.offset) (opcode == opc_exc_handler) e
      (either_branch (λ (s : Writing). s.insn_head_off ≡ s.buffer.offset) (opcode == opc_epilogue) e
        e)

set_nativeoff-Piece :
    (count i len : ℕ) (e : PcEntry) (s : Writing)
    → IsCased e
    → Piece count len s
    → Piece count len (set_nativeoff i e s)
unfolding set_nativeoff
set_nativeoff-Piece count i len e s c (o, n) = (
  record {
    before = o.before;
    bytes = o.bytes;
    behind = o.behind;
    laid = o.laid;
    is_here = o.is_here;
    is_head = o.is_head;
    at_end = o.at_end;
    size = o.size;
    table = record {
      block = length-set s.pctable.entries i (record e { nativeoff = s.nativeoff }) ∙ o.table.block;
      inside = o.table.inside;
      some_room = o.table.some_room;
    };
    cased =
        AllCased-set s.pctable.len i s.pctable.entries (record e { nativeoff = s.nativeoff })
          o.cased c;
  },
  n,
)

module _ (mem : Memory) where
  align-Good : (count : ℕ) (s s' : Writing) → Good count s → align mem s ≡ some s' → Good count s'
  unfolding align
  align-Good count s s' g e = elim (Bool-cases (leb jump_threshold (padding s.nativeoff))) [
    | inl long ↦
        let pad = padding s.nativeoff in
        let (s1, e1, k1) = bind-some _ _ s' (rw long at e) in
        let (s2, e2, k2) = bind-some _ _ s' k1 in
        let g1 = write_bytes-Good mem count s (0xeb ∷ (pad - 2) ∷ []) 2 s1 g refl e1 in
        subst (Good count) (some-injective _ _ k2) (
          write_bytes-Good mem count (record s1 { nativeoff = s1.nativeoff + 2 })
            (replicate (pad - 2) 0x90) (pad - 2) s2 g1 (length-replicate (pad - 2) 0x90) e2)
    | inr short ↦
        let pad = padding s.nativeoff in
        let (s1, e1, k1) = bind-some _ _ s' (rw short at e) in
        subst (Good count) (some-injective _ _ k1) (
          write_bytes-Good mem count s (replicate pad 0x90) pad s1 g (length-replicate pad 0x90) e1)
  ]

  align_loop_head-Good :
      (count : ℕ) (e : PcEntry) (s s' : Writing)
      → Good count s
      → align_loop_head mem e s ≡ some s'
      → Good count s'
  unfolding align_loop_head
  align_loop_head-Good count e s s' g k = elim (Bool-cases (loop_head e == 1)) [
    | inl h ↦ align-Good count s s' g (rw h at k)
    | inr h ↦ subst (Good count) (some-injective _ _ (rw h at k)) g
  ]

  add_throw_entry-Piece :
      (count : ℕ) (e : PcEntry) (n len : ℕ) (s s' : Writing)
      → Piece count len s
      → add_throw_entry mem e n s ≡ some s'
      → Piece count len s'
  unfolding add_throw_entry
  add_throw_entry-Piece count e n len s s' o k =
      let added =
        throwtable_add mem.throwentries s.throwtable s.nativeoff n (bits32 e.increasing_byteoff) in
      let (t, e1, k1) = bind-some added _ s' k in subst (Piece count len) (some-injective _ _ k1) o

  set_break-Piece :
      (count : ℕ) (e : PcEntry) (n cb offset len : ℕ) (s s' : Writing)
      → offset < len
      → Piece count len s
      → set_break mem e n cb offset s ≡ some s'
      → Piece count len s'
  unfolding set_break
  set_break-Piece count e n cb offset len s s' h o k =
      let (s1, e1, k1) = bind-some (add_throw_entry mem e n s) _ s' k in
      let (byte, e2, k2) = bind-some (get_elem? s1.buffer.block (s1.nativeoff + offset)) _ s' k1 in
      let o1 = add_throw_entry-Piece count e n len s s1 o e1 in
      subst (Piece count len) (some-injective _ _ k2) (
        poke-OpenTo (s1.nativeoff + len) len offset (s1.nativeoff + offset) (0xcc ∷ []) s1
            (ap (λ (n : ℕ). n + offset) (o1.0.is_here ∙ sym o1.0.is_head)) (omega arith) o1.0,
        o1.1,
      )

  module _ (p : Pools) (count : ℕ) (e : PcEntry) (n len : ℕ) (s s' : Writing)
      (o : Piece count len s) where
    keep : some s ≡ some s' → Piece count len s'
    keep k = subst (Piece count len) (some-injective _ _ k) o

    break_for_class-Piece :
        (original : ℕ)
        → 0 < len
        → break_for_class mem p e n original s ≡ some s'
        → Piece count len s'
    unfolding break_for_class
    break_for_class-Piece original h =
        let cb = p.class_of (p.pool_method s.mb e.operand) in
        let P = λ (r : Option Writing). r ≡ some s' → Piece count len s' in
        either_branch P (is_initialized_form e.opcode original) keep (
          either_branch P (e.opcode == opc_new)
            (set_break-Piece count e n (p.pool_class s.mb e.operand) 0 len s s' h o)
            (either_branch P (p.class_initialized cb) keep
              (set_break-Piece count e n cb 0 len s s' h o)))

    break_for_interface-Piece :
        (original : ℕ)
        → invintf_patch_offset < len
        → break_for_interface mem p e n original s ≡ some s'
        → Piece count len s'
    unfolding break_for_interface
    break_for_interface-Piece original h =
        let P = λ (r : Option Writing). r ≡ some s' → Piece count len s' in
        either_branch P (original == opc_invokeinterface_quick) keep
          (set_break-Piece count e n 0 invintf_patch_offset len s s' h o)

    -- The pieces with break points have the bytes that the break points stand on.
    add_break-Piece :
        (needs_class e.opcode ≡ true → 0 < len)
        → (e.opcode ≡ opc_invokeinterface → invintf_patch_offset < len)
        → add_break mem p e n s ≡ some s'
        → Piece count len s'
    unfolding add_break
    add_break-Piece hc hi k = elim (Bool-cases (needs_class e.opcode)) [
      | inl c ↦
          let (original, e1, k1) = bind-some (byte_at (p.code s.mb) e.byteoff 0) _ s' (rw c at k) in
          break_for_class-Piece original (hc c) k1
      | inr c ↦ elim (Bool-cases (e.opcode == opc_invokeinterface)) [
        | inl d ↦
            let (original, e1, k1) =
              bind-some (byte_at (p.code s.mb) e.byteoff 0) _ s' (rw (c, d) at k) in
            break_for_interface-Piece original (hi (ground arith)) k1
        | inr d ↦ keep (rw (c, d) at k)
      ]
    ]

-- What the templates must have room for: the break points, and the words of all constants of an instruction.
abbrev pub PlacesFit : (ℕ → ℕ) → ℕ → ℕ → List ℕ → Type 0
PlacesFit place len k [] = Unit {0}
PlacesFit place len k (n ∷ ns) = (place k + 4 * n ≤ len) × PlacesFit place len (suc k) ns

pub record HasRoom (t : Templates) : Type 0 where
  pub for_class : (opcode st : ℕ) → needs_class opcode ≡ true → 0 < length (t.piece opcode st)
  pub for_interface :
      (opcode st : ℕ)
      → opcode ≡ opc_invokeinterface
      → invintf_patch_offset < length (t.piece opcode st)
  pub for_constants :
      (opcode st : ℕ)
      → PlacesFit
          (t.constant_at opcode st)
          (length (t.piece opcode st))
          0
          (words_at_place (kind_of opcode))

module _ (mem : Memory) (p : Pools) (t : Templates) (room : HasRoom t) where
  -- The whole half: the piece is open, and ends where the buffer ends.
  pub put_piece-Open :
      (count i : ℕ) (e : PcEntry) (s s' : Writing)
      → IsCased e
      → Good count s
      → put_piece mem p t i e s ≡ some s'
      → Open (length (t.piece e.opcode (state e))) s' × (s'.pctable.len ≡ count)
  unfolding put_piece
  put_piece-Open count i e s s' c g k =
      let code = t.piece e.opcode (state e) in
      let len = length code in
      let (s1, e1, k1) = bind-some (align_loop_head mem e s) _ s' k in
      let at_head = note_offsets e.opcode (record s1 { insn_head_off = s1.buffer.offset }) in
      let (s2, e2, k2) = bind-some (write_bytes mem at_head code) _ s' k1 in
      let s3 = set_nativeoff i e s2 in
      let (s4, e4, k4) =
        bind-some (if t.signals e.opcode (state e) then add_throw_entry mem e len s3 else some s3) _
          s' k2 in
      let (s5, e5, k5) = bind-some (add_break mem p e len s4) _ s' k4 in
      let g1 = align_loop_head-Good mem count e s s1 g e1 in
      let o2 =
        write_bytes-Piece mem count at_head code s2
          (note_offsets-Good count e.opcode (record s1 { insn_head_off = s1.buffer.offset }) g1)
          (note_offsets-head e.opcode (record s1 { insn_head_off = s1.buffer.offset }) refl) e2 in
      let o3 = set_nativeoff-Piece count i len e s2 c o2 in
      let o4 =
        either_branch (λ (r : Option Writing). r ≡ some s4 → Piece count len s4)
          (t.signals e.opcode (state e)) (add_throw_entry-Piece mem count e len len s3 s4 o3)
          (λ q. subst (Piece count len) (some-injective _ _ q) o3) e4 in
      let o5 =
        add_break-Piece mem p count e len len s4 s5 o4 (room.for_class e.opcode (state e))
          (room.for_interface e.opcode (state e)) e5 in
      subst (λ (x : Writing). Open len x × (x.pctable.len ≡ count)) (some-injective _ _ k5) o5
