-- ===== src/ExcTable.antt =====
-- compile.c, makeExcTable: each exception handler gets its place in the native code.
pub mod Frames
mod Examples
use shujit.Base.{ℕ, List, [], ◌∷◌, Option, none, some, ◌>>=◌, pos, get_elem?}
use shujit.PcEntry.{state}
use shujit.PcTable.{PcTable, Lookup, pctable_get_by_pc}
use shujit.PcTable.Lookup.{found}

-- The fields that the function reads or writes; `handler_pc` is unsigned.
pub record CatchFrame : Type 0 where
  pub handler_pc : ℕ
  pub compiled_catch_frame : ℕ
  pub state : ℕ

-- `none`: the handler has no entry, and the code follows a null pointer or one outside the block.
pub with_native : PcTable → CatchFrame → Lookup → Option CatchFrame
with_native t cf (found k) = do
  table ← get_elem? t.entries k
  some (record cf { compiled_catch_frame = table.nativeoff; state = state table })
with_native t cf r = none

pub make_exc_table : PcTable → List CatchFrame → Option (List CatchFrame)
make_exc_table t [] = some []
make_exc_table t (cf ∷ cfs) = do
  done ← with_native t cf (pctable_get_by_pc t (pos cf.handler_pc))
  rest ← make_exc_table t cfs
  some (done ∷ rest)
