-- ===== src/Opcode/Control.antt =====
-- opcodes.h: the opcodes of jumps, switches and returns.
use shujit.Base.{ℕ}

abbrev pub opc_ifeq : ℕ
opc_ifeq = 153

abbrev pub opc_ifne : ℕ
opc_ifne = 154

abbrev pub opc_iflt : ℕ
opc_iflt = 155

abbrev pub opc_ifge : ℕ
opc_ifge = 156

abbrev pub opc_ifgt : ℕ
opc_ifgt = 157

abbrev pub opc_ifle : ℕ
opc_ifle = 158

abbrev pub opc_if_icmpeq : ℕ
opc_if_icmpeq = 159

abbrev pub opc_if_icmpne : ℕ
opc_if_icmpne = 160

abbrev pub opc_if_icmplt : ℕ
opc_if_icmplt = 161

abbrev pub opc_if_icmpge : ℕ
opc_if_icmpge = 162

abbrev pub opc_if_icmpgt : ℕ
opc_if_icmpgt = 163

abbrev pub opc_if_icmple : ℕ
opc_if_icmple = 164

abbrev pub opc_if_acmpeq : ℕ
opc_if_acmpeq = 165

abbrev pub opc_if_acmpne : ℕ
opc_if_acmpne = 166

abbrev pub opc_goto : ℕ
opc_goto = 167

abbrev pub opc_jsr : ℕ
opc_jsr = 168

abbrev pub opc_ret : ℕ
opc_ret = 169

abbrev pub opc_tableswitch : ℕ
opc_tableswitch = 170

abbrev pub opc_lookupswitch : ℕ
opc_lookupswitch = 171

abbrev pub opc_ireturn : ℕ
opc_ireturn = 172

abbrev pub opc_lreturn : ℕ
opc_lreturn = 173

abbrev pub opc_freturn : ℕ
opc_freturn = 174

abbrev pub opc_dreturn : ℕ
opc_dreturn = 175

abbrev pub opc_areturn : ℕ
opc_areturn = 176

abbrev pub opc_return : ℕ
opc_return = 177
