-- ===== src/PcTable.antt =====
-- computil.c: the pc table of a compiler context, an array of entries that grows.
-- `entries` is the allocated block, `size` is `pctablesize` and `len` is `pctablelen`. A pointer
-- into the table is an index, and `none` as the result of an operation that grows the table means
-- that the doubling of the size does not end.
pub mod Inv
pub mod Edit
pub mod Search
pub mod Ascends
mod Examples
use shujit.Base.{
  ℕ, suc, ◌+◌, ◌-◌, ◌%◌, ◌^◌, ◌/◌, List, [], ◌∷◌, Option, none, some, ◌>>=◌, ℤ, pos, negsuc,
  pos_part, ltb, leb, ltb_ℤ, eqb_ℤ, ◌||◌, ◌==◌, if◌then◌else◌, length, get_elem?, get_or, write_at,
  insert_block, delete_block, Realloc, double_until, double_int, int32, zero,
}
use shujit.PcEntry.{
  PcEntry, set_state, clear_block_head, clear_loop_head, clear_loop_tail, no_nativeoff,
}

pub record PcTable : Type 0 where
  pub entries : List PcEntry
  pub len : ℕ
  pub size : ℕ
  pub ninsn : ℕ

-- Stands for no entry: every read below is inside the block.
abbrev pub no_entry : PcEntry
no_entry = record {
  opcode = 0;
  flag = 0;
  operand = pos 0;
  byteoff = pos 0;
  increasing_byteoff = pos 0;
  nativeoff = 0;
}

-- The slot `i` as it lies in memory: the flag word is 16 bits wide.
unfoldable pub slot : List PcEntry → ℕ → PcEntry
slot xs i = let e = get_or xs i no_entry in record e { flag = e.flag % 2 ^ 16 }

-- `opcode` is cut to a `uint16_t`.
unfoldable pub filled : PcEntry → ℕ → ℤ → ℤ → ℕ → ℕ → PcEntry
filled old opcode operand byteoff st nativeoff = clear_loop_tail (
    clear_loop_head (
      clear_block_head (
        set_state
          (record {
            opcode = opcode % 2 ^ 16;
            flag = old.flag;
            operand = operand;
            byteoff = byteoff;
            increasing_byteoff = byteoff;
            nativeoff = nativeoff;
          })
          st)))

unfoldable pub pctable_clear : PcTable → PcTable
pctable_clear t = record t { ninsn = 0; len = 0 }

pub pctable_len : PcTable → ℕ
pctable_len t = t.len

pub pctable_set_len : PcTable → ℕ → PcTable
pctable_set_len t len = record t { len = len }

module _ (mem : Realloc PcEntry) where
  -- `pctableExtend`
  pub pctable_extend : PcTable → ℕ → PcTable
  pctable_extend t size =
      if ltb size t.size then t else record t { entries = mem.grow t.entries size; size = size }

  -- `if (need > pctablesize) { do { pctablesize <<= 1; } while (need > pctablesize); ... }`
  unfoldable pub reserve : PcTable → ℕ → Option PcTable
  reserve t need =
      if ltb t.size need
      then (do
        size ← double_until (suc need) t.size need
        some (record t { entries = mem.grow t.entries size; size = size }))
      else some t

  -- The test and the loop of pctableNInsert, which compare `int`s.
  unfoldable pub reserve_int : PcTable → ℕ → Option PcTable
  reserve_int t need =
      if ltb_ℤ (int32 t.size) (int32 (need % 2 ^ 32))
      then (do
        size ← double_int (suc need) t.size (int32 (need % 2 ^ 32))
        some (record t { entries = mem.grow t.entries size; size = size }))
      else some t

  pub pctable_add : PcTable → ℕ → ℤ → ℤ → Option PcTable
  pctable_add t opcode operand byteoff = do
    r ← reserve t (t.len + 1)
    some (record r {
      entries =
          write_at r.len (filled (slot r.entries r.len) opcode operand byteoff 0 no_nativeoff ∷ [])
            r.entries;
      len = r.len + 1;
    })

  -- `srcentry`, `srclen` are the list `src`.
  pub pctable_ninsert : PcTable → ℕ → List PcEntry → Option PcTable
  pctable_ninsert t index src = do
    r ← reserve_int t (t.len + length src)
    some (record r { entries = insert_block r.len index src r.entries; len = r.len + length src })

  unfoldable pub pctable_insert : PcTable → ℕ → ℕ → ℤ → ℤ → ℕ → ℕ → Option PcTable
  pctable_insert t index opcode operand byteoff st nativeoff = do
    r ← reserve t (t.len + 1)
    some (record r {
      entries =
          insert_block r.len index
            (filled (slot r.entries index) opcode operand byteoff st nativeoff ∷ []) r.entries;
      len = r.len + 1;
    })

unfoldable pub pctable_ndelete : PcTable → ℕ → ℕ → PcTable
pctable_ndelete t index n = record t {
  entries = delete_block t.len index n t.entries;
  len = t.len - n;
}

pub pctable_delete : PcTable → ℕ → PcTable
pctable_delete t index = pctable_ndelete t index 1

-- The entry behind the one at `index`, if the table has one there.
pub pctable_next : PcTable → ℕ → Option ℕ
pctable_next t index = if ltb (index + 1) t.len then some (index + 1) else none

pub pctable_get : PcTable → ℤ → Option ℕ
pctable_get t index =
    if ltb_ℤ index (pos 0) || leb t.len (pos_part index) then none else some (pos_part index)

-- The end of a search by program counter. `fault`: it read a slot that is not allocated.
-- `running`: the fuel ran out.
pub data Lookup : Type 0 where
  found : ℕ → Lookup
  null fault running : Lookup

-- `while (--index >= 0) ...; index++;`
unfoldable pub first_of_run : List PcEntry → ℤ → ℕ → ℕ
first_of_run entries byteoff zero = zero
first_of_run entries byteoff (suc index) =
    let rest = first_of_run entries byteoff index in
    if eqb_ℤ (get_or entries index no_entry).increasing_byteoff byteoff then rest else suc index

-- One round of the search reads the slot in the middle of l and h.
unfoldable pub search_pc : List PcEntry → ℤ → ℕ → ℕ → ℕ → Lookup
search_pc entries byteoff zero l h = running
search_pc entries byteoff (suc fuel) l h =
    let index = l + (h - l) / 2 in
    let above = search_pc entries byteoff fuel (index + 1) h in
    let below = search_pc entries byteoff fuel l index in
    elim (get_elem? entries index) [
      | none ↦ fault
      | some e ↦
          if eqb_ℤ e.increasing_byteoff byteoff
          then found (first_of_run entries byteoff index)
          else if l == h
          then null
          else if ltb_ℤ e.increasing_byteoff byteoff
          then above
          else below
    ]

unfoldable pub pctable_get_by_pc : PcTable → ℤ → Lookup
pctable_get_by_pc t byteoff = search_pc t.entries byteoff (suc t.len) 0 t.len
