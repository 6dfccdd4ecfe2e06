-- ===== src/JpTable/Examples.antt =====
-- Runs of the jump table.
use shujit.Base.{ℕ, ◌≡◌, refl, [], ◌∷◌, ◌++◌, some, padded, arith}
use shujit.JpTable.{JpEntry, JpTable, jptable_add}
use shujit.JpTable.Laws.{IsValid, view, jptable_add-total}

abbrev jump_to : ℕ → ℕ → JpEntry
jump_to tgtoff argoff = record { tgtoff = tgtoff; argoff = argoff }

-- A full block of one entry.
abbrev one : JpTable
one = record { entries = jump_to 3 40 ∷ []; len = 1; size = 1 }

jptable_add-total_example :
    (t' : JpTable) × (jptable_add (padded (jump_to 0 0)) one 8 60 ≡ some t')
    × IsValid t'
    × (view t' ≡ view one ++ record { tgtoff = 8; argoff = 60 } ∷ [])
jptable_add-total_example =
    jptable_add-total (padded (jump_to 0 0)) one 8 60
      (record { block = refl; inside = omega arith; some_room = omega arith; fits = omega arith })
      (omega arith)
