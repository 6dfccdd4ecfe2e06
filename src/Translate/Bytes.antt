-- ===== src/Translate/Bytes.antt =====
-- The bytes of a method, the macros that read them (compiler.h), the lengths of the instructions
-- (opcodes.c), and the last part of processAnOpcode, which finds the next instruction.
-- The VM aligns the code of a method at a multiple of four, so the alignment of a pointer is that of
-- its offset.
use shujit.Base.{
  ℕ, ◌+◌, ◌-◌, ◌*◌, ◌/◌, ◌^◌, List, [], ◌∷◌, Option, none, some, ◌>>=◌, Bool, false, ◌||◌, ◌==◌,
  ltb, if◌then◌else◌, get_elem?, ℤ, pos, negsuc, pos_part, neg_part, ltb_ℤ, int32, bits32, ◌%◌,
}
use shujit.Opcode.{opc_tableswitch, opc_lookupswitch, opc_wide, opc_iinc}

abbrev pub among : ℕ → List ℕ → Bool
among n [] = false
among n (m ∷ ms) = n == m || among n ms

-- `bytepc[k]` with `bytepc = code + byteoff`.
unfoldable pub byte_at : List ℕ → ℤ → ℕ → Option ℕ
byte_at code (pos p) k = get_elem? code (p + k)
byte_at code (negsuc p) k = none

unfoldable pub get_uint16 : List ℕ → ℤ → ℕ → Option ℕ
unfolding byte_at
get_uint16 code byteoff k = do
  a ← byte_at code byteoff k
  b ← byte_at code byteoff (k + 1)
  some (a * 256 + b)

unfoldable pub get_int16 : List ℕ → ℤ → ℕ → Option ℤ
unfolding get_uint16
get_int16 code byteoff k = do
  w ← get_uint16 code byteoff k
  some (if ltb w (2 ^ 15) then pos w else negsuc (2 ^ 16 - 1 - w))

-- `GET_INT32`, and `ntohl` of a word: the four bytes, the first one highest.
unfoldable pub get_int32 : List ℕ → ℤ → ℕ → Option ℤ
unfolding get_uint16
get_int32 code byteoff k = do
  high ← get_uint16 code byteoff k
  low ← get_uint16 code byteoff (k + 2)
  some (int32 (high * 65536 + low))

-- `ALIGNUP32(bytepc + 1) - bytepc` for an instruction at `pc`.
abbrev pub aligned : ℕ → ℕ
aligned pc = (pc + 1 + 3) / 4 * 4 - pc

-- `h - l + 1`, for a table whose bounds are in order, as the VM's verifier demands.
abbrev pub table_size : ℤ → ℤ → Option ℕ
table_size l h =
    if ltb_ℤ h l then none else some (pos_part h + neg_part l + 1 - (pos_part l + neg_part h))

abbrev pub nonnegative : ℤ → Option ℕ
nonnegative (pos n) = some n
nonnegative (negsuc n) = none

-- `argp += 3 + (h - l + 1)`, and the difference of the pointers: an `int`, given by its 32 bits. The bounds are not
-- compared, so it may be 0 or negative.
unfoldable pub tableswitch_length : List ℕ → ℕ → Option ℕ
tableswitch_length code pc = do
  l ← get_int32 code (pos pc) (aligned pc + 4)
  h ← get_int32 code (pos pc) (aligned pc + 8)
  some ((aligned pc + 4 * (4 + bits32 h + (2 ^ 32 - bits32 l))) % 2 ^ 32)

-- `argp += 2 + (npairs * 2)`, likewise.
unfoldable pub lookupswitch_length : List ℕ → ℕ → Option ℕ
lookupswitch_length code pc = do
  npairs ← get_int32 code (pos pc) (aligned pc + 4)
  some ((aligned pc + 4 * (2 + bits32 npairs * 2)) % 2 ^ 32)

abbrev pub opcode_length : List ℕ
opcode_length =
    1 ∷ 1 ∷ 1 ∷ 1 ∷ 1 ∷ 1 ∷ 1 ∷ 1 ∷ 1 ∷ 1 ∷ 1 ∷ 1 ∷ 1 ∷ 1 ∷ 1 ∷ 1 ∷ 2 ∷ 3 ∷ 2 ∷ 3 ∷ 3 ∷ 2 ∷ 2 ∷ 2
    ∷ 2 ∷ 2 ∷ 1 ∷ 1 ∷ 1 ∷ 1 ∷ 1 ∷ 1 ∷ 1 ∷ 1 ∷ 1 ∷ 1 ∷ 1 ∷ 1 ∷ 1 ∷ 1 ∷ 1 ∷ 1 ∷ 1 ∷ 1 ∷ 1 ∷ 1 ∷ 1 ∷ 1
    ∷ 1 ∷ 1 ∷ 1 ∷ 1 ∷ 1 ∷ 1 ∷ 2 ∷ 2 ∷ 2 ∷ 2 ∷ 2 ∷ 1 ∷ 1 ∷ 1 ∷ 1 ∷ 1 ∷ 1 ∷ 1 ∷ 1 ∷ 1 ∷ 1 ∷ 1 ∷ 1 ∷ 1
    ∷ 1 ∷ 1 ∷ 1 ∷ 1 ∷ 1 ∷ 1 ∷ 1 ∷ 1 ∷ 1 ∷ 1 ∷ 1 ∷ 1 ∷ 1 ∷ 1 ∷ 1 ∷ 1 ∷ 1 ∷ 1 ∷ 1 ∷ 1 ∷ 1 ∷ 1 ∷ 1 ∷ 1
    ∷ 1 ∷ 1 ∷ 1 ∷ 1 ∷ 1 ∷ 1 ∷ 1 ∷ 1 ∷ 1 ∷ 1 ∷ 1 ∷ 1 ∷ 1 ∷ 1 ∷ 1 ∷ 1 ∷ 1 ∷ 1 ∷ 1 ∷ 1 ∷ 1 ∷ 1 ∷ 1 ∷ 1
    ∷ 1 ∷ 1 ∷ 1 ∷ 1 ∷ 1 ∷ 1 ∷ 1 ∷ 1 ∷ 1 ∷ 1 ∷ 1 ∷ 1 ∷ 3 ∷ 1 ∷ 1 ∷ 1 ∷ 1 ∷ 1 ∷ 1 ∷ 1 ∷ 1 ∷ 1 ∷ 1 ∷ 1
    ∷ 1 ∷ 1 ∷ 1 ∷ 1 ∷ 1 ∷ 1 ∷ 1 ∷ 1 ∷ 1 ∷ 3 ∷ 3 ∷ 3 ∷ 3 ∷ 3 ∷ 3 ∷ 3 ∷ 3 ∷ 3 ∷ 3 ∷ 3 ∷ 3 ∷ 3 ∷ 3 ∷ 3
    ∷ 3 ∷ 2 ∷ 99 ∷ 99 ∷ 1 ∷ 1 ∷ 1 ∷ 1 ∷ 1 ∷ 1 ∷ 3 ∷ 3 ∷ 3 ∷ 3 ∷ 3 ∷ 3 ∷ 3 ∷ 5 ∷ 0 ∷ 3 ∷ 2 ∷ 3 ∷ 1
    ∷ 1 ∷ 3 ∷ 3 ∷ 1 ∷ 1 ∷ 0 ∷ 4 ∷ 3 ∷ 3 ∷ 5 ∷ 5 ∷ 1 ∷ 2 ∷ 3 ∷ 3 ∷ 3 ∷ 3 ∷ 3 ∷ 3 ∷ 3 ∷ 3 ∷ 3 ∷ 3 ∷ 3
    ∷ 3 ∷ 3 ∷ 3 ∷ 5 ∷ 3 ∷ 3 ∷ 3 ∷ 3 ∷ 4 ∷ 3 ∷ 3 ∷ 3 ∷ 3 ∷ 3 ∷ 1 ∷ []

-- `// update bytecode PC`, for an instruction of the byte code: the 32 bits of `byteinc`.
unfoldable pub instruction_length : List ℕ → ℕ → ℕ → Option ℕ
instruction_length code opcode pc =
    if opcode == opc_tableswitch
    then tableswitch_length code pc
    else if opcode == opc_lookupswitch
    then lookupswitch_length code pc
    else if opcode == opc_wide
    then (do widened ← byte_at code (pos pc) 1; some (if widened == opc_iinc then 6 else 4))
    else get_elem? opcode_length opcode
