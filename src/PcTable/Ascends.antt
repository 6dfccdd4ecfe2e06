-- ===== src/PcTable/Ascends.antt =====
-- A list of entries in the order that the search by program counter needs, said by recursion.
use shujit.Base.{ℕ, zero, suc, ◌<◌, ◌≤◌, ◌≤ℤ◌, ℤ, List, [], ◌∷◌, length, arith}
use shujit.PcEntry.{PcEntry}
use shujit.PcTable.Search.{key, IsSorted}

-- Every offset is at least `a`.
abbrev pub AllAbove : ℤ → List PcEntry → Type 0
AllAbove a [] = Unit
AllAbove a (x ∷ xs) = (a ≤ℤ x.increasing_byteoff) × AllAbove a xs

-- The offsets ascend.
abbrev pub Ascends : List PcEntry → Type 0
Ascends [] = Unit
Ascends (x ∷ xs) = AllAbove x.increasing_byteoff xs × Ascends xs

key_above : (a : ℤ) (xs : List PcEntry) (j : ℕ) → AllAbove a xs → j < length xs → a ≤ℤ key xs j
key_above a [] j all h = absurd (omega arith)
key_above a (x ∷ xs) zero all h = all.0
key_above a (x ∷ xs) (suc j) all h = key_above a xs j all.1 (omega arith)

pub Ascends-IsSorted : (xs : List PcEntry) (n : ℕ) → Ascends xs → n ≤ length xs → IsSorted xs n
Ascends-IsSorted [] n up le i j h k = absurd (omega arith)
Ascends-IsSorted (x ∷ xs) zero up le i j h k = absurd (omega arith)
Ascends-IsSorted (x ∷ xs) (suc n) up le zero zero h k = omega arith
Ascends-IsSorted (x ∷ xs) (suc n) up le zero (suc j) h k =
    key_above x.increasing_byteoff xs j up.0 (omega arith)
Ascends-IsSorted (x ∷ xs) (suc n) up le (suc i) zero h k = absurd (omega arith)
Ascends-IsSorted (x ∷ xs) (suc n) up le (suc i) (suc j) h k =
    Ascends-IsSorted xs n up.1 (omega arith) i j (omega arith) (omega arith)

pub AllAbove-le : (a b : ℤ) (xs : List PcEntry) → a ≤ℤ b → AllAbove b xs → AllAbove a xs
AllAbove-le a b [] le all = tt
AllAbove-le a b (x ∷ xs) le all = (omega (arith, all.0), AllAbove-le a b xs le all.1)
