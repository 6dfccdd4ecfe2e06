-- ===== src/Opcode/Arithmetic.antt =====
-- opcodes.h: the opcodes of arithmetic and conversion.
use shujit.Base.{ℕ}

abbrev pub opc_iadd : ℕ
opc_iadd = 96

abbrev pub opc_fadd : ℕ
opc_fadd = 98

abbrev pub opc_dadd : ℕ
opc_dadd = 99

abbrev pub opc_fsub : ℕ
opc_fsub = 102

abbrev pub opc_dsub : ℕ
opc_dsub = 103

abbrev pub opc_fmul : ℕ
opc_fmul = 106

abbrev pub opc_dmul : ℕ
opc_dmul = 107

abbrev pub opc_fdiv : ℕ
opc_fdiv = 110

abbrev pub opc_ddiv : ℕ
opc_ddiv = 111

abbrev pub opc_frem : ℕ
opc_frem = 114

abbrev pub opc_drem : ℕ
opc_drem = 115

abbrev pub opc_iinc : ℕ
opc_iinc = 132

abbrev pub opc_i2f : ℕ
opc_i2f = 134

abbrev pub opc_i2d : ℕ
opc_i2d = 135

abbrev pub opc_l2f : ℕ
opc_l2f = 137

abbrev pub opc_l2d : ℕ
opc_l2d = 138

abbrev pub opc_f2d : ℕ
opc_f2d = 141

abbrev pub opc_d2f : ℕ
opc_d2f = 144
