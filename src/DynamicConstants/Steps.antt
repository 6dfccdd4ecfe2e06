-- ===== src/DynamicConstants/Steps.antt =====
-- One entry of the pc table, and the loop over all of them.
use shujit.Base.{
  ℕ, zero, suc, ◌+◌, ◌-◌, ◌*◌, ◌%◌, ◌^◌, List, [], ◌∷◌, Option, none, some, ◌>>=◌, ◌||◌, ◌==◌,
  if◌then◌else◌, ℤ, pos_part, neg_part, bits32, get_or, write_at,
}
use shujit.Stack.{Stack, push_to_stack, pop_from_stack, new_stack}
use shujit.PcEntry.{PcEntry, state}
use shujit.Jump.{le_bytes}
use shujit.Opcode.{opc_ldc, opc_ldc_w, opc_ldc_quick, opc_ldc_w_quick, opc_multianewarray}
use shujit.Translate.Bytes.{byte_at, get_int32, aligned}
use shujit.WriteCode.Machine.{Templates, Pools, Memory, ResolvedEntries}
use shujit.WriteCode.Constants.{word_constants, field_constants, method_constants}
use shujit.DynamicConstants.Kinds.{
  Link, own_class, string_constant, table_switch, lookup_switch, static_field, static_quick,
  dispatched, direct_method, interface_method, class_operand, array_class, enter, exit, nothing,
  link_of,
}

-- `static_address` of a field, `code_at` is `mb->code`, `assembled` is the address of `assembledCode`.
pub record Addresses : Type 0 where
  pub static_address : ℤ → ℤ → ℕ
  pub code_at : ℤ → ℕ
  pub assembled : ℕ

-- `code` is `CompiledCode` of the method compiled, whose switches alone have tables: an inlined method has no jump.
pub record Linking : Type 0 where
  pub code : List ℕ
  pub mb : ℤ
  pub stack : Stack
  pub resolved : ResolvedEntries

-- The end of a round, or `goto resolvedyn_done` with `ret` 1.
pub data Linked : Type 0 where
  linked failed : Linking → Linked

-- The loop's end. `fault`: a read outside the byte code.
pub data LinkEnd : Type 0 where
  all_linked link_failed : Linking → LinkEnd
  link_fault : LinkEnd

abbrev pub class_constants : ℕ
class_constants = 2 ^ 7

-- A word of the code in memory.
abbrev pub word_at : List ℕ → ℕ → ℕ
word_at code at =
    get_or code at 0
    + 256 * get_or code (at + 1) 0
    + 65536 * get_or code (at + 2) 0
    + 16777216 * get_or code (at + 3) 0

-- `tblp[k] += (int32_t)assembledCode; tblp += n;` for so many rows, where `stride` is 4 * n.
unfoldable pub relocate : ℕ → ℕ → ℕ → ℕ → List ℕ → List ℕ
relocate assembled stride zero at code = code
relocate assembled stride (suc rows) at code =
    relocate assembled stride rows (at + stride)
      (write_at at (le_bytes ((word_at code at + assembled) % 2 ^ 32)) code)

-- `h - l + 2`, if that is positive.
abbrev pub rows_of_table : ℤ → ℤ → ℕ
rows_of_table l h = pos_part h + neg_part l + 2 - (pos_part l + neg_part h)

module _ (mem : Memory) (t : Templates) (p : Pools) (a : Addresses) (e : PcEntry) where
  -- `memcpy(bufp + constant_table[opcode][state][k], &word, 4)`
  unfoldable pub put_word : ℕ → ℕ → Linking → Linking
  put_word k word s = record s {
    code = write_at (e.nativeoff + t.constant_at e.opcode (state e) k) (le_bytes word) s.code;
  }

  unfoldable pub resolve_first : ℕ → Linking → (Linking → Linked) → Linked
  resolve_first mask s cont =
      if s.resolved s.mb e.operand
      then cont s
      else elim (p.resolve s.mb e.operand mask s.resolved) as (λ r. Linked) [
        | none ↦ failed s
        | some resolved ↦ cont (record s { resolved = resolved })
      ]

  unfoldable pub link_string : Linking → Linked
  unfolding put_word
  link_string s =
      if p.pool_string s.mb e.operand
      then linked (put_word 0 (p.pool_word s.mb e.operand) s)
      else linked s

  unfoldable pub link_table : Linking → Option Linked
  unfolding relocate get_int32
  link_table s = do
    l ← get_int32 (p.code s.mb) e.byteoff (aligned (pos_part e.byteoff) + 4)
    h ← get_int32 (p.code s.mb) e.byteoff (aligned (pos_part e.byteoff) + 8)
    some (
        linked (record s {
          code = relocate a.assembled 8 (rows_of_table l h) (bits32 e.operand + 4) s.code;
        }))

  -- One row more than pairs: the default.
  unfoldable pub link_lookup : Linking → Option Linked
  unfolding relocate get_int32
  link_lookup s = do
    npairs ← get_int32 (p.code s.mb) e.byteoff (aligned (pos_part e.byteoff) + 4)
    some (
        linked (record s {
          code = relocate a.assembled 12 (suc (pos_part npairs)) (bits32 e.operand + 8) s.code;
        }))

  -- `_CONST_NEW`, with the place that the class goes to.
  unfoldable pub link_class : ℕ → ℕ → Linking → Option Linked
  unfolding byte_at resolve_first put_word
  link_class resolved_for place s = do
    original ← byte_at (p.code s.mb) e.byteoff 0
    let set_class = λ (s' : Linking). linked (put_word place (p.pool_class s'.mb e.operand) s')
    some (
        if original == resolved_for then resolve_first class_constants s set_class else set_class s)

  unfoldable pub set_interface : Linking → Linked
  unfolding put_word
  set_interface s = linked (
      put_word 1 (bits32 (p.pool_method s.mb e.operand))
        (put_word 0 ((a.code_at s.mb + bits32 e.byteoff + 4) % 2 ^ 32) s))

  unfoldable pub leave_inlined : Linking → Linked
  leave_inlined s =
      let (mb, stack) = pop_from_stack s.stack in linked (record s { mb = mb; stack = stack })

  -- The switch. At an inlined method the caller is pushed first.
  unfoldable pub link : Link → Linking → Option Linked
  unfolding put_word resolve_first link_string link_table link_lookup link_class set_interface
      leave_inlined byte_at
  link own_class s = some (linked (put_word 0 (p.class_of s.mb) s))
  link string_constant s = do
    original ← byte_at (p.code s.mb) e.byteoff 0
    some (
        if original == opc_ldc
          || (original == opc_ldc_w || (original == opc_ldc_quick || original == opc_ldc_w_quick))
        then resolve_first word_constants s link_string
        else linked s)
  link table_switch s = link_table s
  link lookup_switch s = link_lookup s
  link static_field s = some (
      resolve_first field_constants s
        (λ s'. linked (put_word 0 (a.static_address s'.mb e.operand) s')))
  link static_quick s = some (linked (put_word 0 (a.static_address s.mb e.operand) s))
  link dispatched s = some (resolve_first method_constants s linked)
  link direct_method s = some (
      resolve_first method_constants s
        (λ s'. linked (put_word 0 (bits32 (p.pool_method s'.mb e.operand)) s')))
  link interface_method s = some (resolve_first method_constants s set_interface)
  link (class_operand resolved_for) s = link_class resolved_for 0 s
  link array_class s = link_class opc_multianewarray 1 s
  link enter s = some (
      resolve_first method_constants (record s { stack = push_to_stack mem.elems s.stack s.mb })
        (λ s'. linked (record s' { mb = p.pool_method s'.mb e.operand })))
  link exit s = some (leave_inlined s)
  link nothing s = some (linked s)

module _ (mem : Memory) (t : Templates) (p : Pools) (a : Addresses) where
  unfoldable pub link_entries : List PcEntry → Linking → LinkEnd
  unfolding link link_of
  link_entries [] s = all_linked s
  link_entries (e ∷ entries) s = elim (link mem t p a e (link_of e.opcode) s) as (λ r. LinkEnd) [
    | none ↦ link_fault
    | some (failed s') ↦ link_failed s'
    | some (linked s') ↦ link_entries entries s'
  ]

  -- The entries in use, from the method compiled on.
  unfoldable pub resolve_dynamic_constants : ℤ → ResolvedEntries → List PcEntry → List ℕ → LinkEnd
  unfolding link_entries
  resolve_dynamic_constants mb resolved entries code =
      link_entries entries
        (record { code = code; mb = mb; stack = new_stack mem.elems; resolved = resolved })
