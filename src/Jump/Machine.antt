-- ===== src/Jump/Machine.antt =====
-- What the processor does at a jump: the independent description that resolved code is held to.
-- The conditions are the sixteen of the x86, by their number in the opcode.
use shujit.Base.{
  ℕ, ◌+◌, ◌-◌, ◌*◌, ◌%◌, ◌^◌, Bool, List, [], ◌∷◌, Option, none, some, ◌>>=◌, leb, ltb, ◌&&◌, ◌==◌,
  if◌then◌else◌, drop,
}

-- A displacement of 32 bits at the head of the bytes, and one of 8 bits with its sign.
abbrev pub rel32 : List ℕ → Option ℕ
rel32 (a ∷ b ∷ c ∷ d ∷ bytes) = some (a + 256 * b + 65536 * c + 16777216 * d)
rel32 _ = none

abbrev pub rel8 : List ℕ → Option ℕ
rel8 (a ∷ bytes) = some (if ltb a 128 then a else a + (2 ^ 32 - 256))
rel8 _ = none

-- The address after the instruction that the bytes begin with, at address `pc`. `holds c`:
-- condition `c` holds.
module _ (holds : ℕ → Bool) where
  abbrev pub near_jcc : List ℕ → ℕ → Option ℕ
  near_jcc [] pc = none
  near_jcc (second ∷ bytes) pc =
      if leb 0x80 second && ltb second 0x90
      then (do
        d ← rel32 bytes
        some (if holds (second - 0x80) then (pc + 6 + d) % 2 ^ 32 else pc + 6))
      else none

  abbrev pub decoded : List ℕ → ℕ → Option ℕ
  decoded [] pc = none
  decoded (op ∷ bytes) pc =
      if op == 0xe9
      then (do d ← rel32 bytes; some ((pc + 5 + d) % 2 ^ 32))
      else if op == 0xeb
      then (do d ← rel8 bytes; some ((pc + 2 + d) % 2 ^ 32))
      else if op == 0x0f
      then near_jcc bytes pc
      else if leb 0x70 op && ltb op 0x80
      then (do d ← rel8 bytes; some (if holds (op - 0x70) then (pc + 2 + d) % 2 ^ 32 else pc + 2))
      else none

  unfoldable pub next : List ℕ → ℕ → Option ℕ
  next code pc = decoded (drop pc code) pc
