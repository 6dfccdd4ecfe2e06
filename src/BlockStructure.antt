-- ===== src/BlockStructure.antt =====
-- compile.c: makeBlockStructure marks the targets of jumps, and the ends of loops, in the pc table, and inserts checks for
-- exceptions into loops (EXC_CHECK_IN_LOOP). The branch for `opc_jsr` behind that for jumps cannot be reached.
pub mod Skeleton
pub mod Rounds
mod Examples
use shujit.Base.{
  ℕ, zero, suc, ◌+◌, ◌-◌, ◌*◌, List, [], ◌∷◌, Option, none, some, ◌>>=◌, Bool, true, false, ◌||◌,
  ◌&&◌, ◌==◌, ltb, leb, if◌then◌else◌, ℤ, pos, negsuc, ◌+ℤ◌, ltb_ℤ, set, take, drop, get_or,
  get_elem?, Realloc,
}
use shujit.Opcode.{
  opc_ifeq, opc_jsr, opc_goto_w, opc_tableswitch, opc_lookupswitch, opc_inv_head, opc_athrow,
  opc_exc_check,
}
use shujit.PcEntry.{PcEntry, set_block_head, set_loop_head, set_loop_tail, no_nativeoff}
use shujit.PcTable.{
  PcTable, no_entry, pctable_insert, Lookup, found, null, fault, running, pctable_get_by_pc,
}
use shujit.Translate.Bytes.{byte_at, get_int16, get_int32, aligned, table_size, nonnegative}

unfoldable pub update_at : PcTable → ℕ → (PcEntry → PcEntry) → PcTable
update_at t j f = record t { entries = set t.entries j (f (get_or t.entries j no_entry)) }

-- `none`: the code reads through the null pointer, or outside the table.
unfoldable pub target_of : Lookup → Option ℕ
target_of (found j) = some j
target_of null = none
target_of fault = none
target_of running = none

abbrev pub is_backward : ℤ → Bool
is_backward off = ltb_ℤ off (pos 0)

-- The target of an instruction at index `i` and `byteoff`.
unfoldable pub mark_target : PcTable → ℕ → ℤ → ℤ → Option PcTable
unfolding update_at target_of
mark_target t i byteoff off = do
  j ← target_of (pctable_get_by_pc t (byteoff +ℤ off))
  let t1 = update_at t j set_block_head
  some (if is_backward off then update_at (update_at t1 j set_loop_head) i set_loop_tail else t1)

unfoldable pub mark_targets : PcTable → ℕ → ℤ → List ℤ → Option PcTable
unfolding mark_target
mark_targets t i byteoff [] = some t
mark_targets t i byteoff (off ∷ offs) = do
  t1 ← mark_target t i byteoff off
  mark_targets t1 i byteoff offs

-- `jump offset`
unfoldable pub jump_offset : List ℕ → ℤ → Option ℤ
unfolding byte_at get_int16 get_int32
jump_offset code byteoff = do
  b ← byte_at code byteoff 0
  let far = get_int32 code byteoff 1
  let near = get_int16 code byteoff 1
  if b == opc_goto_w then far else near

abbrev pub is_check : PcEntry → Bool
is_check e = e.opcode == opc_inv_head || e.opcode == opc_athrow

abbrev pub any_check : List PcEntry → Bool
any_check [] = false
any_check (e ∷ es) = is_check e || any_check es

-- `for (j = tgtpc; j < i; j++)`: the byte code offset of the target is taken for an index.
unfoldable pub has_check : PcTable → ℤ → ℕ → Option Bool
has_check t (pos tgtpc) i = some (any_check (take (i - tgtpc) (drop tgtpc t.entries)))
has_check t (negsuc n) i = none

-- The words of a switch from `argp + k` on, `step` words apart.
unfoldable pub words_at : List ℕ → ℕ → ℕ → ℕ → ℕ → Option (List ℤ)
words_at code pc k step zero = some []
words_at code pc k step (suc n) =
    let rest = words_at code pc (k + step) step n in
    (do w ← get_int32 code (pos pc) (aligned pc + 4 * k); ws ← rest; some (w ∷ ws))

-- A loop whose bound is negative does not run.
abbrev pub count_or_zero : Option ℕ → ℕ
count_or_zero none = 0
count_or_zero (some n) = n

-- The offsets in the order in which they are marked, the default first.
unfoldable pub switch_offsets : List ℕ → ℕ → ℤ → Option (List ℤ)
unfolding words_at get_int32
switch_offsets code opcode (pos pc) =
    if opcode == opc_tableswitch
    then (do
      off ← get_int32 code (pos pc) (aligned pc)
      l ← get_int32 code (pos pc) (aligned pc + 4)
      h ← get_int32 code (pos pc) (aligned pc + 8)
      offs ← words_at code pc 3 1 (count_or_zero (table_size l h))
      some (off ∷ offs))
    else (do
      off ← get_int32 code (pos pc) (aligned pc)
      npairs ← get_int32 code (pos pc) (aligned pc + 4)
      offs ← words_at code pc 3 2 (count_or_zero (nonnegative npairs))
      some (off ∷ offs))
switch_offsets code opcode (negsuc n) = none

-- The end of a run, as a table or as a read through a null pointer or outside the table or the byte code.
pub data Outcome : Type 0 where
  done : PcTable → Outcome
  bad_read out_of_fuel : Outcome

module _ (mem : Realloc PcEntry) (code : List ℕ) where
  -- A check is inserted before a jump backward, and the index moves on with the jump.
  unfoldable pub insert_check : PcTable → ℕ → ℤ → ℤ → Option (PcTable × ℕ)
  unfolding has_check
  insert_check t i byteoff off =
      if is_backward off
      then (do
        checked ← has_check t (byteoff +ℤ off) i
        let inserted = (do
          t1 ← pctable_insert mem t i opc_exc_check (negsuc 0) byteoff 0xffff no_nativeoff
          some (t1, suc i))
        if checked then some (t, i) else inserted)
      else some (t, i)

  -- if*, goto, jsr
  unfoldable pub structure_jump : PcTable → ℕ → ℤ → Option (PcTable × ℕ)
  unfolding jump_offset mark_target insert_check
  structure_jump t i byteoff = do
    off ← jump_offset code byteoff
    t1 ← mark_target t i byteoff off
    insert_check t1 i byteoff off

  unfoldable pub structure_switch : PcTable → ℕ → ℕ → ℤ → Option (PcTable × ℕ)
  unfolding switch_offsets mark_targets
  structure_switch t i opcode byteoff = do
    offs ← switch_offsets code opcode byteoff
    t1 ← mark_targets t i byteoff offs
    some (t1, i)

  -- One round: the table, and the index that it leaves.
  unfoldable pub structure_entry : PcTable → ℕ → Option (PcTable × ℕ)
  unfolding structure_jump structure_switch
  structure_entry t i =
      let e = get_or t.entries i no_entry in
      if leb opc_ifeq e.opcode && leb e.opcode opc_jsr
      then structure_jump t i e.byteoff
      else if e.opcode == opc_tableswitch || e.opcode == opc_lookupswitch
      then structure_switch t i e.opcode e.byteoff
      else some (t, i)

  unfoldable pub structure_loop : ℕ → PcTable → ℕ → Outcome
  unfolding structure_entry
  structure_loop zero t i = out_of_fuel
  structure_loop (suc fuel) t i =
      if ltb i t.len
      then elim (structure_entry t i) as (λ r. Outcome) [
        | none ↦ bad_read
        | some (t1, j) ↦ structure_loop fuel t1 (suc j)
      ]
      else done t

  -- A round for each entry, and one for the test that ends the loop.
  unfoldable pub make_block_structure : PcTable → Outcome
  unfolding structure_loop
  make_block_structure t = structure_loop (suc t.len) t 0
