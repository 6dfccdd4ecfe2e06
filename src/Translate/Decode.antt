-- ===== src/Translate/Decode.antt =====
-- The first switch of processAnOpcode: the code opcode and the operand.
use shujit.Base.{
  ℕ, suc, ◌-◌, List, [], ◌∷◌, Option, none, some, ◌>>=◌, ◌==◌, ltb, if◌then◌else◌, ℤ, pos, negsuc,
}
use shujit.Opcode.{
  opc_aconst_null, opc_iconst_0, opc_lconst_0, opc_fconst_0, opc_dconst_0, opc_bipush, opc_sipush,
  opc_ldc, opc_ldc_w, opc_ldc_quick, opc_ldc_w_quick, opc_ldc2_w, opc_ldc2_w_quick, opc_iload,
  opc_lload, opc_fload, opc_dload, opc_aload, opc_iload_0, opc_iload_1, opc_iload_2, opc_iload_3,
  opc_fload_0, opc_fload_1, opc_fload_2, opc_fload_3, opc_aload_0, opc_aload_1, opc_aload_2,
  opc_aload_3, opc_lload_0, opc_lload_1, opc_lload_2, opc_lload_3, opc_dload_0, opc_dload_1,
  opc_dload_2, opc_dload_3, opc_iaload, opc_faload, opc_aaload, opc_laload, opc_daload, opc_istore,
  opc_fstore, opc_astore, opc_lstore, opc_dstore, opc_istore_0, opc_istore_1, opc_istore_2,
  opc_istore_3, opc_fstore_0, opc_fstore_1, opc_fstore_2, opc_fstore_3, opc_astore_0, opc_astore_1,
  opc_astore_2, opc_astore_3, opc_lstore_0, opc_lstore_1, opc_lstore_2, opc_lstore_3, opc_dstore_0,
  opc_dstore_1, opc_dstore_2, opc_dstore_3, opc_iastore, opc_fastore, opc_lastore, opc_dastore,
  opc_iinc, opc_if_icmpeq, opc_if_acmpeq, opc_if_icmpne, opc_if_acmpne, opc_ifeq, opc_ifnull,
  opc_ifne, opc_ifnonnull, opc_goto, opc_goto_w, opc_jsr, opc_jsr_w, opc_ret, opc_wide,
}
use shujit.Translate.Bytes.{among, byte_at, get_uint16, get_int16}

-- How the switch is left: an instruction with its operand, and `byteinc` if it was set; the early
-- `return 3`; or `return -1`.
pub data Decoded : Type 0 where
  insn : ℕ → ℤ → ℕ → Decoded
  omitted failed : Decoded

abbrev pub plain : ℕ → Option Decoded
plain code_opcode = some (insn code_opcode (negsuc 0) 0)

abbrev pub with_operand : ℕ → ℕ → Option Decoded
with_operand code_opcode operand = some (insn code_opcode (pos operand) 0)

-- The opcode to throw an error with, in place of an instruction of three bytes.
abbrev pub throwing : ℕ → ℕ → Option Decoded
throwing code_opcode operand = some (insn code_opcode (pos operand) 3)

-- The operand of a load, a store or `iinc`: wider behind `wide`.
unfoldable pub local_index : List ℕ → ℤ → Option ℕ
unfolding byte_at get_uint16
local_index code byteoff = do
  b ← byte_at code byteoff 0
  let wide_index = get_uint16 code byteoff 2
  let index = byte_at code byteoff 1
  if b == opc_wide then wide_index else index

-- `opc_xload_n` and `opc_xstore_n`: the list has the opcodes of each type for n = 0, 1, 2, 3.
unfoldable pub indexed : ℕ → List (List ℕ) → ℕ → Option ℕ
indexed opcode [] n = none
indexed opcode (ops ∷ rest) n =
    let later = indexed opcode rest (suc n) in if among opcode ops then some n else later

abbrev pub word_loads : List (List ℕ)
word_loads =
    (opc_iload_0 ∷ opc_fload_0 ∷ opc_aload_0 ∷ [])
    ∷ (opc_iload_1 ∷ opc_fload_1 ∷ opc_aload_1 ∷ [])
    ∷ (opc_iload_2 ∷ opc_fload_2 ∷ opc_aload_2 ∷ [])
    ∷ (opc_iload_3 ∷ opc_fload_3 ∷ opc_aload_3 ∷ [])
    ∷ []

abbrev pub long_loads : List (List ℕ)
long_loads =
    (opc_lload_0 ∷ opc_dload_0 ∷ [])
    ∷ (opc_lload_1 ∷ opc_dload_1 ∷ [])
    ∷ (opc_lload_2 ∷ opc_dload_2 ∷ [])
    ∷ (opc_lload_3 ∷ opc_dload_3 ∷ [])
    ∷ []

abbrev pub word_stores : List (List ℕ)
word_stores =
    (opc_istore_0 ∷ opc_fstore_0 ∷ opc_astore_0 ∷ [])
    ∷ (opc_istore_1 ∷ opc_fstore_1 ∷ opc_astore_1 ∷ [])
    ∷ (opc_istore_2 ∷ opc_fstore_2 ∷ opc_astore_2 ∷ [])
    ∷ (opc_istore_3 ∷ opc_fstore_3 ∷ opc_astore_3 ∷ [])
    ∷ []

abbrev pub long_stores : List (List ℕ)
long_stores =
    (opc_lstore_0 ∷ opc_dstore_0 ∷ [])
    ∷ (opc_lstore_1 ∷ opc_dstore_1 ∷ [])
    ∷ (opc_lstore_2 ∷ opc_dstore_2 ∷ [])
    ∷ (opc_lstore_3 ∷ opc_dstore_3 ∷ [])
    ∷ []

-- The cases for the instructions that push a constant.
unfoldable pub decode_constant : List ℕ → ℤ → ℕ → Option Decoded
unfolding byte_at get_uint16 get_int16
decode_constant code byteoff opcode =
    if opcode == opc_bipush
    then (do
      b ← byte_at code byteoff 1
      some (insn opc_bipush (if ltb b 128 then pos b else negsuc (255 - b)) 0))
    else if opcode == opc_sipush
    then (do w ← get_int16 code byteoff 1; some (insn opc_bipush w 0))
    else if among opcode (opc_ldc ∷ opc_ldc_quick ∷ [])
    then (do b ← byte_at code byteoff 1; with_operand opc_bipush b)
    else (do w ← get_uint16 code byteoff 1; with_operand opc_bipush w)

-- The cases for constants, local variables, arrays of numbers, jumps and comparisons.
unfoldable pub decode_simple : List ℕ → ℤ → ℕ → Option Decoded
unfolding decode_constant local_index byte_at get_uint16 indexed
decode_simple code byteoff opcode =
    if among opcode (opc_iconst_0 ∷ opc_aconst_null ∷ opc_fconst_0 ∷ [])
    then plain opc_iconst_0
    else if among opcode (opc_lconst_0 ∷ opc_dconst_0 ∷ [])
    then plain opc_lconst_0
    else if among opcode
        (opc_bipush ∷ opc_sipush ∷ opc_ldc ∷ opc_ldc_w ∷ opc_ldc_quick ∷ opc_ldc_w_quick ∷ [])
    then decode_constant code byteoff opcode
    else if among opcode (opc_ldc2_w ∷ opc_ldc2_w_quick ∷ [])
    then (do w ← get_uint16 code byteoff 1; with_operand opc_ldc2_w w)
    else if among opcode (opc_iload ∷ opc_fload ∷ opc_aload ∷ [])
    then (do n ← local_index code byteoff; with_operand opc_iload n)
    else if among opcode (opc_lload ∷ opc_dload ∷ [])
    then (do n ← local_index code byteoff; with_operand opc_lload n)
    else if among opcode (opc_iaload ∷ opc_faload ∷ opc_aaload ∷ [])
    then plain opc_iaload
    else if among opcode (opc_laload ∷ opc_daload ∷ [])
    then plain opc_laload
    else if among opcode (opc_istore ∷ opc_fstore ∷ opc_astore ∷ [])
    then (do n ← local_index code byteoff; with_operand opc_istore n)
    else if among opcode (opc_lstore ∷ opc_dstore ∷ [])
    then (do n ← local_index code byteoff; with_operand opc_lstore n)
    else if among opcode (opc_iastore ∷ opc_fastore ∷ [])
    then plain opc_iastore
    else if among opcode (opc_lastore ∷ opc_dastore ∷ [])
    then plain opc_lastore
    else if opcode == opc_iinc
    then (do n ← local_index code byteoff; with_operand opc_iinc n)
    else if among opcode (opc_if_icmpeq ∷ opc_if_acmpeq ∷ [])
    then plain opc_if_icmpeq
    else if among opcode (opc_if_icmpne ∷ opc_if_acmpne ∷ [])
    then plain opc_if_icmpne
    else if among opcode (opc_ifeq ∷ opc_ifnull ∷ [])
    then plain opc_ifeq
    else if among opcode (opc_ifne ∷ opc_ifnonnull ∷ [])
    then plain opc_ifne
    else if among opcode (opc_goto ∷ opc_goto_w ∷ [])
    then plain opc_goto
    else if among opcode (opc_jsr ∷ opc_jsr_w ∷ [])
    then plain opc_jsr
    else if opcode == opc_ret
    then (do n ← byte_at code byteoff 1; with_operand opc_ret n)
    else plain opcode

-- `opc_xload_n`, `opc_xstore_n` give their index; the others go on.
unfoldable pub decode_indexed : ℕ → Option Decoded → Option Decoded
unfolding indexed
decode_indexed opcode others = elim (indexed opcode word_loads 0) as (λ r. Option Decoded) [
  | some n ↦ with_operand opc_iload n
  | none ↦ elim (indexed opcode long_loads 0) as (λ r. Option Decoded) [
    | some n ↦ with_operand opc_lload n
    | none ↦ elim (indexed opcode word_stores 0) as (λ r. Option Decoded) [
      | some n ↦ with_operand opc_istore n
      | none ↦ elim (indexed opcode long_stores 0) as (λ r. Option Decoded) [
        | some n ↦ with_operand opc_lstore n
        | none ↦ others
      ]
    ]
  ]
]
