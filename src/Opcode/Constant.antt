-- ===== src/Opcode/Constant.antt =====
-- opcodes.h: the opcodes that push a constant.
use shujit.Base.{ℕ}

abbrev pub opc_aconst_null : ℕ
opc_aconst_null = 1

abbrev pub opc_iconst_0 : ℕ
opc_iconst_0 = 3

abbrev pub opc_lconst_0 : ℕ
opc_lconst_0 = 9

abbrev pub opc_fconst_0 : ℕ
opc_fconst_0 = 11

abbrev pub opc_dconst_0 : ℕ
opc_dconst_0 = 14

abbrev pub opc_bipush : ℕ
opc_bipush = 16

abbrev pub opc_sipush : ℕ
opc_sipush = 17

abbrev pub opc_ldc : ℕ
opc_ldc = 18

abbrev pub opc_ldc_w : ℕ
opc_ldc_w = 19

abbrev pub opc_ldc2_w : ℕ
opc_ldc2_w = 20
