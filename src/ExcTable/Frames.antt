-- ===== src/ExcTable/Frames.antt =====
-- Every handler is found where its byte code begins.
use shujit.Base.{ℕ, ◌<◌, ◌≡◌, refl, List, [], ◌∷◌, some, pos, get_or, get_elem?-eq-get_or, arith}
use shujit.PcEntry.{state}
use shujit.PcTable.{PcTable, no_entry, pctable_get_by_pc}
use shujit.PcTable.Inv.{IsValid}
use shujit.PcTable.Search.{key, IsSorted, IsFirst, pctable_get_by_pc-IsFirst}
use shujit.ExcTable.{CatchFrame, with_native, make_exc_table}

-- Every handler starts at the byte code of an entry.
abbrev pub HandlersIn : PcTable → List CatchFrame → Type 0
HandlersIn t [] = Unit {0}
HandlersIn t (cf ∷ cfs) =
    ((i : ℕ) × (i < t.len) × (key t.entries i ≡ pos cf.handler_pc)) × HandlersIn t cfs

-- The frame has the native offset and the state of the first entry of the handler's byte code.
pub record Resolved (t : PcTable) (cf cf' : CatchFrame) : Type 0 where
  pub index : ℕ
  pub first : IsFirst t.entries (pos cf.handler_pc) t.len index
  pub same_pc : cf'.handler_pc ≡ cf.handler_pc
  pub native_is : cf'.compiled_catch_frame ≡ (get_or t.entries index no_entry).nativeoff
  pub state_is : cf'.state ≡ state (get_or t.entries index no_entry)

abbrev pub AllResolved : PcTable → List CatchFrame → List CatchFrame → Type 0
AllResolved t [] [] = Unit {0}
AllResolved t [] (cf' ∷ cfs') = ⊥
AllResolved t (cf ∷ cfs) [] = ⊥
AllResolved t (cf ∷ cfs) (cf' ∷ cfs') = Resolved t cf cf' × AllResolved t cfs cfs'

module _ (t : PcTable) (v : IsValid t) (sorted : IsSorted t.entries t.len) where
  with_native-total :
      (cf : CatchFrame) (i : ℕ)
      → i < t.len
      → key t.entries i ≡ pos cf.handler_pc
      → (cf' : CatchFrame) × (with_native t cf (pctable_get_by_pc t (pos cf.handler_pc)) ≡ some cf')
        × Resolved t cf cf'
  unfolding with_native
  with_native-total cf i h e =
      let (k, run, first) = pctable_get_by_pc-IsFirst t v (pos cf.handler_pc) i sorted h e in
      let entry = get_or t.entries k no_entry in
      (
        record cf { compiled_catch_frame = entry.nativeoff; state = state entry },
        rw (
          run,
          get_elem?-eq-get_or t.entries k no_entry (omega (arith, first.inside, v.block, v.inside)),
        ),
        record { index = k; first = first; same_pc = refl; native_is = refl; state_is = refl },
      )

  -- In a valid table in the order of the search, with every handler at the byte code of an entry, the
  -- loop ends, and each frame keeps its handler and gets the native offset and the state of the first
  -- entry of that byte code.
  pub make_exc_table-total :
      (cfs : List CatchFrame)
      → HandlersIn t cfs
      → (cfs' : List CatchFrame) × (make_exc_table t cfs ≡ some cfs') × AllResolved t cfs cfs'
  unfolding make_exc_table
  make_exc_table-total [] ok = ([], refl, tt)
  make_exc_table-total (cf ∷ cfs) ok =
      let (i, h, e) = ok.0 in
      let (cf', run, done) = with_native-total cf i h e in
      let (cfs', run', all) = make_exc_table-total cfs ok.1 in
      (cf' ∷ cfs', rw (run, run'), (done, all))
