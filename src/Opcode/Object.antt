-- ===== src/Opcode/Object.antt =====
-- opcodes.h: the opcodes of objects, methods and arrays.
use shujit.Base.{ℕ}

abbrev pub opc_getstatic : ℕ
opc_getstatic = 178

abbrev pub opc_putstatic : ℕ
opc_putstatic = 179

abbrev pub opc_getfield : ℕ
opc_getfield = 180

abbrev pub opc_putfield : ℕ
opc_putfield = 181

abbrev pub opc_invokevirtual : ℕ
opc_invokevirtual = 182

abbrev pub opc_invokespecial : ℕ
opc_invokespecial = 183

abbrev pub opc_invokestatic : ℕ
opc_invokestatic = 184

abbrev pub opc_invokeinterface : ℕ
opc_invokeinterface = 185

abbrev pub opc_xxxunusedxxx : ℕ
opc_xxxunusedxxx = 186

abbrev pub opc_new : ℕ
opc_new = 187

abbrev pub opc_newarray : ℕ
opc_newarray = 188

abbrev pub opc_anewarray : ℕ
opc_anewarray = 189

abbrev pub opc_athrow : ℕ
opc_athrow = 191

abbrev pub opc_checkcast : ℕ
opc_checkcast = 192

abbrev pub opc_instanceof : ℕ
opc_instanceof = 193

abbrev pub opc_monitorenter : ℕ
opc_monitorenter = 194

abbrev pub opc_monitorexit : ℕ
opc_monitorexit = 195

abbrev pub opc_wide : ℕ
opc_wide = 196

abbrev pub opc_multianewarray : ℕ
opc_multianewarray = 197

abbrev pub opc_ifnull : ℕ
opc_ifnull = 198

abbrev pub opc_ifnonnull : ℕ
opc_ifnonnull = 199

abbrev pub opc_goto_w : ℕ
opc_goto_w = 200

abbrev pub opc_jsr_w : ℕ
opc_jsr_w = 201
