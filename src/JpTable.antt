-- ===== src/JpTable.antt =====
-- compiler.h, computil.c: the table of jump instructions that wait for their targets.
pub mod Laws
mod Examples
use shujit.Base.{
  ℕ, suc, ◌+◌, List, [], ◌∷◌, Option, some, ◌>>=◌, ltb, leb, if◌then◌else◌, write_at, Realloc,
  double_int, ltb_ℤ, int32, pos, not, ◌%◌, ◌^◌, ◌+ℤ◌,
}

-- `tgtoff`: the byte code offset of the target. `argoff`: where the operand lies in native code.
pub record JpEntry : Type 0 where
  pub tgtoff : ℕ
  pub argoff : ℕ

pub record JpTable : Type 0 where
  pub entries : List JpEntry
  pub len : ℕ
  pub size : ℕ

module _ (mem : Realloc JpEntry) where
  -- The test and the loop that double the size, on `int`s that are given by their 32 bits:
  -- `jptablelen >= jptablesize` is `jptablesize < jptablelen + 1`.
  unfoldable pub extended : JpTable → Option JpTable
  extended t =
      if ltb_ℤ (int32 t.size) (int32 t.len +ℤ pos 1)
      then (do
        size ← double_int (suc (suc t.len)) t.size (int32 t.len +ℤ pos 1)
        some (record t { entries = mem.grow t.entries size; size = size }))
      else some t

  unfoldable pub jptable_add : JpTable → ℕ → ℕ → Option JpTable
  jptable_add t tgtoff argoff = do
    r ← extended t
    some (record r {
      entries = write_at r.len (record { tgtoff = tgtoff; argoff = argoff } ∷ []) r.entries;
      len = (r.len + 1) % 2 ^ 32;
    })
