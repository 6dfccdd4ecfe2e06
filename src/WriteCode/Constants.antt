-- ===== src/WriteCode/Constants.antt =====
-- `resolve constants`: the words that are copied into the piece of code, the changes of method at inlined code, and the
-- resolution of entries of the constant pool.
use shujit.Base.{
  ℕ, suc, ◌+◌, ◌-◌, ◌*◌, ◌/◌, ◌%◌, ◌^◌, List, [], ◌∷◌, Option, none, some, ◌>>=◌, Bool, true, false,
  not, ltb, ◌||◌, ◌==◌, if◌then◌else◌, ℤ, pos, negsuc, sub_ℕ, pos_part, ◌+ℤ◌, bits32, take,
}
use shujit.Stack.{push_to_stack, pop_from_stack}
use shujit.PcEntry.{PcEntry, state}
use shujit.Jump.{displacement}
use shujit.Opcode.{
  opc_ldc, opc_ldc_w, opc_ldc_quick, opc_ldc_w_quick, opc_ldc2_w, opc_wide, opc_getfield_quick,
  opc_getfield2_quick, opc_putfield_quick, opc_putfield2_quick, opc_getfield, opc_getfield2,
  opc_start,
}
use shujit.Translate.Bytes.{byte_at, get_int16, get_int32, aligned, among}
use shujit.WriteCode.Machine.{Templates, Pools, Memory, Writing, poke_word}
use shujit.WriteCode.Kinds.{
  Kind, push_word, push_two_words, variable, long_variable, double_variable, increment_variable,
  return_offset, switch_bounds, switch_pairs, member_slot, callee_args, callee_slot, callee_space,
  recursive_call, recursive_jump, enter_inlined, exit_inlined, operand_itself, dimensions,
  ignored_args, ignored_static, no_constant, kind_of,
}

-- The words for each place of `constant_table`, in order, and the state; or `goto writecode_done` with `ret`, true for a
-- failure.
pub data Resolution : Type 0 where
  words : List (List ℕ) → Writing → Resolution
  leave : Bool → Writing → Resolution

-- `n * -4` on an `int32_t`, as its bit pattern.
abbrev pub times_minus_4 : ℤ → ℕ
times_minus_4 (pos n) = (2 ^ 32 - 4 * n % 2 ^ 32) % 2 ^ 32
times_minus_4 (negsuc n) = 4 * suc n % 2 ^ 32

-- `(signed char)`
abbrev pub signed_char : ℕ → ℤ
signed_char b = if ltb b 128 then pos b else negsuc (255 - b)

abbrev pub one : ℕ → Writing → Option Resolution
one w s = some (words ((w ∷ []) ∷ []) s)

abbrev pub two : ℕ → ℕ → Writing → Option Resolution
two w w' s = some (words ((w ∷ []) ∷ (w' ∷ []) ∷ []) s)

-- The masks of the kinds of constants that an instruction may name.
abbrev pub word_constants : ℕ
word_constants = 2 ^ 3 + 2 ^ 4 + 2 ^ 8

abbrev pub two_word_constants : ℕ
two_word_constants = 2 ^ 5 + 2 ^ 6

abbrev pub field_constants : ℕ
field_constants = 2 ^ 9

abbrev pub method_constants : ℕ
method_constants = 2 ^ 10 + 2 ^ 11

-- A variable of `iinc`, with what is added to it.
unfoldable pub increment_of : List ℕ → ℤ → Option ℤ
unfolding byte_at get_int16
increment_of code byteoff = do
  original ← byte_at code byteoff 0
  (if original == opc_wide
      then get_int16 code byteoff 4
      else (do b ← byte_at code byteoff 2; some (signed_char b)))

-- The native offset of the first `opc_start`.
unfoldable pub start_offset : List PcEntry → Option ℕ
start_offset [] = none
start_offset (e ∷ entries) =
    let rest = start_offset entries in if e.opcode == opc_start then some e.nativeoff else rest

-- The forms in which the operand is the slot itself, for `getfield` and `putfield`.
abbrev pub is_quick_member : ℕ → ℕ → Bool
is_quick_member opcode original =
    if among opcode (opc_getfield ∷ opc_getfield2 ∷ [])
    then among original (opc_getfield_quick ∷ opc_getfield2_quick ∷ [])
    else among original (opc_putfield_quick ∷ opc_putfield2_quick ∷ [])

module _ (mem : Memory) (t : Templates) (p : Pools) (e : PcEntry) where
  -- An entry that is not resolved is resolved first.
  unfoldable pub with_constant : ℕ → Writing → (Writing → Option Resolution) → Option Resolution
  with_constant mask s cont =
      if s.resolved s.mb e.operand
      then cont s
      else elim (p.resolve s.mb e.operand mask s.resolved) as (λ r. Option Resolution) [
        | none ↦ some (leave true s)
        | some resolved ↦ cont (record s { resolved = resolved })
      ]

  -- A string is resolved later, with the dynamic constants.
  unfoldable pub pool_word_or_later : Writing → Option Resolution
  pool_word_or_later s =
      if p.pool_string s.mb e.operand then some (words [] s) else one (p.pool_word s.mb e.operand) s

  unfoldable pub resolve_push : Writing → Option Resolution
  unfolding byte_at with_constant pool_word_or_later
  resolve_push s = do
    original ← byte_at (p.code s.mb) e.byteoff 0
    (if original == opc_ldc || original == opc_ldc_w
        then with_constant word_constants s pool_word_or_later
        else if original == opc_ldc_quick || original == opc_ldc_w_quick
        then pool_word_or_later s
        else one (bits32 e.operand) s)

  unfoldable pub pool_two_words : Writing → Option Resolution
  pool_two_words s = two (p.pool_word s.mb (e.operand +ℤ pos 1)) (p.pool_word s.mb e.operand) s

  unfoldable pub resolve_push_two : Writing → Option Resolution
  unfolding byte_at with_constant pool_two_words
  resolve_push_two s = do
    original ← byte_at (p.code s.mb) e.byteoff 0
    (if original == opc_ldc2_w
        then with_constant two_word_constants s pool_two_words
        else pool_two_words s)

  -- `CONST_GETMEMBER`: the `goto` stands behind the inner `if`, not in it.
  unfoldable pub resolve_member : Writing → Option Resolution
  unfolding byte_at
  resolve_member s = do
    original ← byte_at (p.code s.mb) e.byteoff 0
    (if is_quick_member e.opcode original
        then one (bits32 e.operand) s
        else if not (s.resolved s.mb e.operand)
        then elim (p.resolve s.mb e.operand field_constants s.resolved)
            as (λ r. Option Resolution) [
              | none ↦ some (leave true s)
              | some resolved ↦ some (leave false (record s { resolved = resolved }))
            ]
        else one (p.field_offset s.mb e.operand / 4) s)

  -- `tgt_off - arg_off - 4`, for the place `k`.
  unfoldable pub to_start : ℕ → Writing → Option ℕ
  unfolding start_offset
  to_start k s = do
    start ← start_offset (take s.pctable.len s.pctable.entries)
    some (displacement start (s.insn_head_off + t.constant_at e.opcode (state e) k))

  abbrev pub callee : Writing → ℤ
  callee s = p.pool_method s.mb e.operand

  -- `if (localvar_space > 0) localvar_space *= 4; else localvar_space = 0;`
  unfoldable pub variable_space : ℤ → ℕ
  variable_space method =
      if ltb (p.args_size method) (p.nlocals method)
      then 4 * (p.nlocals method - p.args_size method)
      else 0

  unfoldable pub enter_method : Writing → Option Resolution
  enter_method s =
      two (bits32 (sub_ℕ (4 * p.args_size (callee s)) 4))
        (times_minus_4 (sub_ℕ (p.nlocals (callee s)) 1))
        (record s { stack = push_to_stack mem.elems s.stack s.mb; mb = callee s })

  unfoldable pub exit_method : Writing → Option Resolution
  exit_method s =
      let (mb, stack) = pop_from_stack s.stack in
      let s' = record s { mb = mb; stack = stack } in
      one (times_minus_4 (pos (p.nlocals (callee s')))) s'

  -- The switch.
  unfoldable pub constants : Kind → Writing → Option Resolution
  unfolding byte_at get_int32 resolve_push resolve_push_two increment_of resolve_member to_start
      variable_space enter_method exit_method with_constant
  constants push_word s = resolve_push s
  constants push_two_words s = resolve_push_two s
  constants variable s = one (times_minus_4 e.operand) s
  constants long_variable s =
      let index = times_minus_4 (e.operand +ℤ pos 1) in two index ((index + 4) % 2 ^ 32) s
  constants double_variable s = one (times_minus_4 (e.operand +ℤ pos 1)) s
  constants increment_variable s = do
    by ← increment_of (p.code s.mb) e.byteoff
    some (words ((times_minus_4 e.operand ∷ bits32 by ∷ []) ∷ []) s)
  constants return_offset s = one s.nextoff s
  constants switch_bounds s = do
    l ← get_int32 (p.code s.mb) e.byteoff (aligned (pos_part e.byteoff) + 4)
    h ← get_int32 (p.code s.mb) e.byteoff (aligned (pos_part e.byteoff) + 8)
    two (bits32 l) (bits32 h) s
  constants switch_pairs s = do
    npairs ← get_int32 (p.code s.mb) e.byteoff (aligned (pos_part e.byteoff) + 4)
    one (bits32 npairs) s
  constants member_slot s = resolve_member s
  constants callee_args s = one (p.args_size (callee s)) s
  constants callee_slot s = one (p.table_slot (callee s)) s
  constants callee_space s = one (variable_space (callee s)) s
  constants recursive_call s = do offset ← to_start 1 s; two (p.args_size (callee s)) offset s
  constants recursive_jump s = do offset ← to_start 0 s; one offset s
  constants enter_inlined s = enter_method s
  constants exit_inlined s = exit_method s
  constants operand_itself s = one (bits32 e.operand) s
  constants dimensions s = do n ← byte_at (p.code s.mb) e.byteoff 3; one n s
  constants ignored_args s = do n ← byte_at (p.code s.mb) e.byteoff 1; one n s
  constants ignored_static s =
      with_constant method_constants s (λ s'. one (p.args_size (callee s')) s')
  constants no_constant s = some (words [] s)

  -- `memcpy(bufp + constant_table[opcode][state][k], ...)`: the words of one place lie behind each other.
  unfoldable pub copy_words : ℕ → List ℕ → Writing → Writing
  copy_words at [] s = s
  copy_words at (w ∷ ws) s = copy_words (at + 4) ws (poke_word at w s)

  unfoldable pub copy_constants : ℕ → List (List ℕ) → Writing → Writing
  unfolding copy_words
  copy_constants k [] s = s
  copy_constants k (ws ∷ wss) s =
      copy_constants (suc k) wss
        (copy_words (s.insn_head_off + t.constant_at e.opcode (state e) k) ws s)

  unfoldable pub resolve_constants : Writing → Option Resolution
  unfolding constants kind_of
  resolve_constants s = constants (kind_of e.opcode) s
