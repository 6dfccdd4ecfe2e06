-- ===== src/ThrowTable/Examples.antt =====
-- Runs of the throw table.
use shujit.Base.{
  ℕ, zero, suc, ◌+◌, ◌%◌, ◌^◌, ◌<◌, ◌≤◌, ◌≡◌, refl, [], ◌∷◌, ◌++◌, some, padded, arith,
}
use shujit.ThrowTable.{ThrowEntry, ThrowTable, throwtable_add, found, fault, throwtable_get}
use shujit.ThrowTable.Laws.{IsValid, view, throwtable_add-total}
use shujit.ThrowTable.Search.{IsSorted, entry, no_throw, throwtable_get_finds, throwtable_get_empty}

abbrev range : ℕ → ℕ → ℕ → ThrowEntry
range start len byteoff = record {
  start = start;
  byteoff = byteoff;
  len = len;
  patched_code = 0x90;
  cb = 0;
  opcode = 0;
}

abbrev no_block : ThrowTable
no_block = record { entries = []; len = 0; size = 0 }

no_block-IsValid : IsValid no_block
no_block-IsValid = record { block = refl; inside = omega arith }

-- Native code at 10 to 13 and at 20 to 26.
abbrev two : ThrowTable
two = record { entries = range 10 4 3 ∷ range 20 7 9 ∷ []; len = 2; size = 2 }

two-IsSorted : IsSorted two.entries 2
two-IsSorted = record { apart = apart; no_wrap = no_wrap }
  where
    apart :
        (i j : ℕ)
        → i < j
        → j < 2
        → (entry two.entries i).start + (entry two.entries i).len ≤ (entry two.entries j).start
    apart i zero h k = absurd (omega arith)
    apart zero (suc zero) h k = omega arith
    apart (suc i) (suc zero) h k = absurd (omega arith)
    apart i (suc (suc j)) h k = absurd (omega arith)

    no_wrap : (i : ℕ) → i < 2 → (entry two.entries i).start + (entry two.entries i).len < 2 ^ 32
    no_wrap zero h = omega arith
    no_wrap (suc zero) h = omega arith
    no_wrap (suc (suc i)) h = absurd (omega arith)

throwtable_get_finds_example : throwtable_get two 22 ≡ found 1
throwtable_get_finds_example =
    throwtable_get_finds two 22 1 (record { block = refl; inside = omega arith }) two-IsSorted
      (omega arith) (omega arith)

throwtable_get_empty_example : throwtable_get no_block 22 ≡ fault
throwtable_get_empty_example = throwtable_get_empty no_block 22 no_block-IsValid refl

throwtable_add-total_example :
    (t' : ThrowTable) × (e : ThrowEntry) × (throwtable_add (padded no_throw) no_block 30 5 12
      ≡ some t')
    × IsValid t'
    × (view t' ≡ view no_block ++ e ∷ [])
    × (e.start ≡ 30 % 2 ^ 32)
    × (e.len ≡ 5 % 2 ^ 8)
    × (e.byteoff ≡ 12 % 2 ^ 16)
throwtable_add-total_example =
    throwtable_add-total (padded no_throw) no_block 30 5 12 no_block-IsValid (omega arith)
