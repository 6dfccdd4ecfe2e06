-- ===== src/Inlining.antt =====
-- optimize.c, methodInlining: the code of small callees is copied into the caller's pc table, and
-- every entry gets an offset that the search by program counter can use.
-- A method block is the integer of its address. What is known of a callee (its access flags, its
-- code info after compileMethod brought it to STAGE_INTERNAL_CODE) and the constant pools are
-- parameters. USE_SSE2 is not defined; PATCH_WITH_SIGTRAP is.
pub mod Increasing
pub mod Splice
mod Examples
use shujit.Base.{
  Bool, true, false, ℕ, zero, suc, ◌+◌, ◌-◌, ◌≡◌, List, [], ◌∷◌, Option, none, some, ◌>>=◌, ℤ, pos,
  negsuc, ◌+ℤ◌, ltb_ℤ, not, ◌||◌, ◌&&◌, ◌==◌, ltb, if◌then◌else◌, Realloc, length, get_elem?,
}
use shujit.Stack.{Stack, new_stack, push_to_stack, pop_from_stack}
use shujit.PcEntry.{PcEntry, loop_head, loop_tail, no_nativeoff}
use shujit.PcTable.{PcTable, pctable_insert, pctable_ninsert, pctable_ndelete}
use shujit.Opcode.{
  opc_start, opc_end, opc_return, opc_stateto0, opc_inlined_enter, opc_inlined_exit,
  opc_sync_static_enter, opc_sync_static_exit, opc_sync_obj_enter, opc_sync_obj_exit,
  opc_invokespecial, opc_invokestatic, opc_invokestatic_quick,
}

-- One round of the loop that sets `increasing_byteoff`: the entry, `locked_byteoff` and
-- `inlined_nest_count`.
abbrev pub with_increasing : PcEntry → ℤ → PcEntry
with_increasing entry locked = record entry {
  increasing_byteoff = if ltb_ℤ locked (pos 0) then entry.byteoff else locked;
}

abbrev pub next_locked : PcEntry → ℤ → ℤ → ℤ
next_locked entry locked count =
    if entry.opcode == opc_inlined_enter
    then (if ltb_ℤ (pos 0) count then locked else entry.byteoff)
    else if entry.opcode == opc_inlined_exit
    then (if ltb_ℤ (pos 0) (count +ℤ negsuc 0) then locked else negsuc 0)
    else locked

abbrev pub next_count : PcEntry → ℤ → ℤ
next_count entry count =
    if entry.opcode == opc_inlined_enter
    then count +ℤ pos 1
    else if entry.opcode == opc_inlined_exit
    then count +ℤ negsuc 0
    else count

pub increasing_loop : List PcEntry → ℤ → ℤ → List PcEntry
increasing_loop [] locked count = []
increasing_loop (entry ∷ entries) locked count =
    with_increasing entry locked
    ∷ increasing_loop entries (next_locked entry locked count) (next_count entry count)

pub set_increasing : List PcEntry → List PcEntry
set_increasing entries = increasing_loop entries (negsuc 0) (pos 0)

-- The instructions to copy: those behind the first `start`, up to the first `end` or `return`.
-- `none`: there is no such instruction, and the code uses a variable that is not set.
pub up_to_end : List PcEntry → Option (List PcEntry)
up_to_end [] = none
up_to_end (entry ∷ entries) =
    let rest = up_to_end entries in
    if entry.opcode == opc_end || entry.opcode == opc_return
    then some []
    else (do code ← rest; some (entry ∷ code))

pub inlined_code : List PcEntry → Option (List PcEntry)
inlined_code [] = none
inlined_code (entry ∷ entries) =
    let rest = inlined_code entries in if entry.opcode == opc_start then up_to_end entries else rest

-- What the pass reads of a callee: two access flags, and its code info.
pub record Callee : Type 0 where
  pub is_static : Bool
  pub is_synchronized : Bool
  pub may_inline : Bool
  pub pctable : List PcEntry

-- `native_or_abstract`, `is_strict`: access flags of a method.
-- `callee`: `none` if the code info cannot be prepared. `ignore_lock` is the option OPT_IGNLOCK.
pub record Program : Type 0 where
  pub pool_method : ℤ → ℤ → ℤ
  pub native_or_abstract : ℤ → Bool
  pub is_strict : ℤ → Bool
  pub callee : ℤ → Option Callee
  pub ignore_lock : Bool

-- `(access & ACC_SYNCHRONIZED) && !OPT_SETQ(OPT_IGNLOCK)`
abbrev pub locks : Program → Callee → Bool
locks p method = method.is_synchronized && not p.ignore_lock

abbrev pub sync_exit : Callee → ℕ
sync_exit method = if method.is_static then opc_sync_static_exit else opc_sync_obj_exit

abbrev pub sync_enter : Callee → ℕ
sync_enter method = if method.is_static then opc_sync_static_enter else opc_sync_obj_enter

module _ (mem : Realloc PcEntry) where
  -- `pctableInsert(cc, insert_point, opcode, operand, byteoff, 0, -1)`
  abbrev insert_at : PcTable → ℕ → ℕ → ℤ → ℤ → Option PcTable
  insert_at t point opcode operand byteoff =
      pctable_insert mem t point opcode operand byteoff 0 no_nativeoff

  abbrev insert_if : Bool → PcTable → ℕ → ℕ → ℤ → Option PcTable
  insert_if c t point opcode byteoff =
      if c then insert_at t point opcode (negsuc 0) byteoff else some t

  -- The six entries of the invocation at `point` make way for the code of the callee. The result is
  -- the table and the next value of `i`.
  pub splice_at : Program → PcTable → ℕ → ℤ → ℤ → Callee → List PcEntry → Option (PcTable × ℕ)
  splice_at p t point operand byteoff method code = do
    t ← insert_at (pctable_ndelete t point 6) point opc_inlined_exit operand byteoff
    t ← insert_if (locks p method) t point (sync_exit method) byteoff
    t ← pctable_ninsert mem t point code
    t ← insert_if (locks p method) t point (sync_enter method) byteoff
    t ← insert_at t point opc_inlined_enter operand byteoff
    t ← insert_at t point opc_stateto0 (negsuc 0) byteoff
    some (t, point + 3 + length code + (if locks p method then 2 else 0))

  -- `i` is the index of the invocation's own entry, the fourth of the six.
  pub splice : Program → PcTable → ℕ → ℤ → ℤ → Callee → List PcEntry → Option (PcTable × ℕ)
  splice p t i operand byteoff method code = splice_at p t (i - 3) operand byteoff method code

  abbrev pub same_strictness : Program → ℤ → ℤ → Bool
  same_strictness p mb method =
      if p.is_strict mb then p.is_strict method else not (p.is_strict method)

  abbrev pub calls : ℕ → Bool
  calls opcode =
      opcode == opc_invokespecial || opcode == opc_invokestatic || opcode == opc_invokestatic_quick

  -- `loop_depth` of methodInlining0 is compared with the threshold 0 and is never negative, so the
  -- comparison holds; it has no other use. The result is the table and `inlined`; the first
  -- `none` says that the fuel ran out, an index left the table or the callee has no code to copy.
  pub inline_loop :
      (stacks : Realloc ℤ) → Program → ℕ → PcTable → ℕ → ℤ → Stack → Bool → Option (PcTable × Bool)
  inline_loop stacks p zero t i mb stack inlined = none
  inline_loop stacks p (suc fuel) t i mb stack inlined =
      if ltb i t.len
      then (do
        entry ← get_elem? t.entries i
        let method = p.pool_method mb entry.operand
        let entered =
            inline_loop stacks p fuel t (i + 1) method (push_to_stack stacks stack mb) inlined
        let (caller, popped) = pop_from_stack stack
        let left = inline_loop stacks p fuel t (i + 1) caller popped inlined
        let next = inline_loop stacks p fuel t (i + 1) mb stack inlined
        let spliced = λ (info : Callee). (do
          code ← inlined_code info.pctable
          (t', i') ← (if ltb i 3 then none else splice p t i entry.operand entry.byteoff info code)
          inline_loop stacks p fuel t' i' mb stack true)
        let called = λ (found : Option Callee). elim found as (λ x. Option (PcTable × Bool)) [
          | none ↦ some (t, false)
          | some info ↦
              if info.may_inline && same_strictness p mb method then spliced info else next
        ]
        (if entry.opcode == opc_inlined_enter
            then entered
            else if entry.opcode == opc_inlined_exit
            then left
            else if calls entry.opcode && not (p.native_or_abstract method)
            then called (p.callee method)
            else next))
      else some (t, inlined)

  -- `methodInlining0`
  pub inline_once : (stacks : Realloc ℤ) → Program → ℕ → PcTable → ℤ → Option (PcTable × Bool)
  inline_once stacks p fuel t mb = inline_loop stacks p fuel t 0 mb (new_stack stacks) false
