-- ===== src/Opcode/Internal.antt =====
-- opcodes_internal.h: the opcodes of the frame of a method and invocations.
use shujit.Base.{ℕ}

abbrev pub opc_methodhead : ℕ
opc_methodhead = 230

abbrev pub opc_start : ℕ
opc_start = 231

abbrev pub opc_end : ℕ
opc_end = 232

abbrev pub opc_epilogue : ℕ
opc_epilogue = 233

abbrev pub opc_exc_handler : ℕ
opc_exc_handler = 234

abbrev pub opc_methodtail : ℕ
opc_methodtail = 235

abbrev pub opc_sync_obj_enter : ℕ
opc_sync_obj_enter = 236

abbrev pub opc_sync_obj_exit : ℕ
opc_sync_obj_exit = 237

abbrev pub opc_sync_static_enter : ℕ
opc_sync_static_enter = 238

abbrev pub opc_sync_static_exit : ℕ
opc_sync_static_exit = 239

abbrev pub opc_inv_head : ℕ
opc_inv_head = 240

abbrev pub opc_invoke_core : ℕ
opc_invoke_core = 241

abbrev pub opc_invoke_core_compiled : ℕ
opc_invoke_core_compiled = 242

abbrev pub opc_inv_vir_obj : ℕ
opc_inv_vir_obj = 244

abbrev pub opc_inv_vir_varspace : ℕ
opc_inv_vir_varspace = 245

abbrev pub opc_invokevirtual_obj : ℕ
opc_invokevirtual_obj = 246

abbrev pub opc_inv_spe_obj : ℕ
opc_inv_spe_obj = 247

abbrev pub opc_inv_spe_varspace : ℕ
opc_inv_spe_varspace = 248

abbrev pub opc_inv_stq_obj : ℕ
opc_inv_stq_obj = 249

abbrev pub opc_inv_stq_varspace : ℕ
opc_inv_stq_varspace = 250

abbrev pub opc_invokeignored_static : ℕ
opc_invokeignored_static = 251

abbrev pub opc_invokeignored_static_quick : ℕ
opc_invokeignored_static_quick = 252

abbrev pub opc_exc_check : ℕ
opc_exc_check = 253
