-- ===== src/Peephole.antt =====
-- optimize.c, peepholeOptimization: pairs and longer runs of internal instructions become one.
-- The pass looks at an entry and those behind it, and deletes only behind it. So the table is the
-- list of its entries in use (PcTable.Edit shows what each table operation does to it), and a case of
-- the switch gives the entry at hand and the entries behind it.
pub mod Targets
mod Examples
use shujit.Base.{
  ℕ, zero, suc, List, [], ◌∷◌, Option, none, some, ◌>>=◌, Bool, ◌&&◌, ◌==◌, if◌then◌else◌, eqb_ℤ,
  length,
}
use shujit.PcEntry.{PcEntry, state, block_head}
use shujit.Opcode.{
  opc_dst, opc_flush_cache, opc_dld, opc_fill_cache, opc_lstore, opc_dst_dstore, opc_lastore,
  opc_dst_dastore, opc_fst, opc_istore, opc_fst_fstore, opc_iastore1, opc_fst_fastore, opc_iload,
  opc_fld, opc_fload_fld, opc_lload, opc_dload_dld, opc_istld, opc_lstld, opc_iaload,
  opc_faload_fld, opc_laload, opc_daload_dld,
}

-- `entry1` and what stands behind it, unless there is none or it heads a block: the macro
-- GET_1_ENTRY, whose `break` leaves the case.
pub get_entry : List PcEntry → Option (PcEntry × List PcEntry)
get_entry [] = none
get_entry (e ∷ es) = if block_head e == 1 then none else some (e, es)

abbrev pub Rewritten : Type 0
Rewritten = PcEntry × List PcEntry

-- The rest of a case when no entry is missing; otherwise nothing changes.
abbrev pub or_same : PcEntry → List PcEntry → Option Rewritten → Rewritten
or_same entry rest none = (entry, rest)
or_same entry rest (some r) = r

pub dst_case : PcEntry → List PcEntry → Rewritten
dst_case entry rest = or_same entry rest (do
  (entry1, rest1) ← get_entry rest
  (entry2, rest2) ← get_entry rest1
  some (
      if state entry == 0 && entry1.opcode == opc_flush_cache && entry2.opcode == opc_dld
      then (entry1, rest2)
      else if state entry == 0 && entry1.opcode == opc_fill_cache && entry2.opcode == opc_lstore
      then (record entry { opcode = opc_dst_dstore; operand = entry2.operand }, rest2)
      else if state entry == 0 && entry1.opcode == opc_fill_cache && entry2.opcode == opc_lastore
      then (record entry { opcode = opc_dst_dastore }, rest2)
      else (entry, rest)))

-- The second part of the case of `opc_fst`: GET_4_ENTRIES, and three entries deleted.
pub fst_fastore_case : PcEntry → List PcEntry → Rewritten
fst_fastore_case entry rest = or_same entry rest (do
  (entry1, rest1) ← get_entry rest
  (entry2, rest2) ← get_entry rest1
  (entry3, rest3) ← get_entry rest2
  (entry4, rest4) ← get_entry rest3
  some (
      if state entry == 0 && entry1.opcode == opc_iastore1
      then (record entry { opcode = opc_fst_fastore; operand = entry4.operand }, rest3)
      else (entry, rest)))

pub fst_case : PcEntry → List PcEntry → Rewritten
fst_case entry rest = or_same entry rest (do
  (entry1, rest1) ← get_entry rest
  some (
      if state entry == 0 && entry1.opcode == opc_istore
      then (record entry { opcode = opc_fst_fstore; operand = entry1.operand }, rest1)
      else fst_fastore_case entry rest))

-- The cases of `opc_iload` and `opc_lload`: a flush of the cache, then a load to the FPU.
pub load_case : ℕ → ℕ → PcEntry → List PcEntry → Rewritten
load_case load fused entry rest = or_same entry rest (do
  (entry1, rest1) ← get_entry rest
  (entry2, rest2) ← get_entry rest1
  some (
      if entry1.opcode == opc_flush_cache && entry2.opcode == load
      then (
        record entry { opcode = opc_flush_cache },
        record entry1 { opcode = fused; operand = entry.operand } ∷ rest2,
      )
      else (entry, rest)))

-- The cases of `opc_istore` and `opc_lstore`: a load of what was just stored.
pub store_case : ℕ → ℕ → PcEntry → List PcEntry → Rewritten
store_case load fused entry rest = or_same entry rest (do
  (entry1, rest1) ← get_entry rest
  some (
      if entry1.opcode == load && eqb_ℤ entry.operand entry1.operand
      then (record entry { opcode = fused }, rest1)
      else (entry, rest)))

-- The cases of `opc_iaload` and `opc_laload`.
pub array_load_case : ℕ → ℕ → PcEntry → List PcEntry → Rewritten
array_load_case load fused entry rest = or_same entry rest (do
  (entry1, rest1) ← get_entry rest
  (entry2, rest2) ← get_entry rest1
  some (
      if entry1.opcode == opc_flush_cache && entry2.opcode == load
      then (record entry { opcode = fused }, rest2)
      else (entry, rest)))

-- The switch.
pub rewritten : PcEntry → List PcEntry → Rewritten
rewritten entry rest =
    if entry.opcode == opc_dst
    then dst_case entry rest
    else if entry.opcode == opc_fst
    then fst_case entry rest
    else if entry.opcode == opc_iload
    then load_case opc_fld opc_fload_fld entry rest
    else if entry.opcode == opc_lload
    then load_case opc_dld opc_dload_dld entry rest
    else if entry.opcode == opc_istore
    then store_case opc_iload opc_istld entry rest
    else if entry.opcode == opc_lstore
    then store_case opc_lload opc_lstld entry rest
    else if entry.opcode == opc_iaload
    then array_load_case opc_fld opc_faload_fld entry rest
    else if entry.opcode == opc_laload
    then array_load_case opc_dld opc_daload_dld entry rest
    else (entry, rest)

-- `for (i = 0; i < pctableLen(cc); i++)`; the fuel bounds the rounds.
pub peephole_loop : ℕ → List PcEntry → List PcEntry
peephole_loop zero entries = entries
peephole_loop (suc fuel) [] = []
peephole_loop (suc fuel) (entry ∷ rest) =
    let (entry', rest') = rewritten entry rest in entry' ∷ peephole_loop fuel rest'

pub peephole_optimization : List PcEntry → List PcEntry
peephole_optimization entries = peephole_loop (length entries) entries
