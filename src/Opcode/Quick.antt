-- ===== src/Opcode/Quick.antt =====
-- opcodes.h: the opcodes of the quick forms.
use shujit.Base.{ℕ}

abbrev pub opc_ldc_quick : ℕ
opc_ldc_quick = 203

abbrev pub opc_ldc_w_quick : ℕ
opc_ldc_w_quick = 204

abbrev pub opc_ldc2_w_quick : ℕ
opc_ldc2_w_quick = 205

abbrev pub opc_getfield_quick : ℕ
opc_getfield_quick = 206

abbrev pub opc_putfield_quick : ℕ
opc_putfield_quick = 207

abbrev pub opc_getfield2_quick : ℕ
opc_getfield2_quick = 208

abbrev pub opc_putfield2_quick : ℕ
opc_putfield2_quick = 209

abbrev pub opc_getstatic_quick : ℕ
opc_getstatic_quick = 210

abbrev pub opc_putstatic_quick : ℕ
opc_putstatic_quick = 211

abbrev pub opc_getstatic2_quick : ℕ
opc_getstatic2_quick = 212

abbrev pub opc_putstatic2_quick : ℕ
opc_putstatic2_quick = 213

abbrev pub opc_invokevirtual_quick : ℕ
opc_invokevirtual_quick = 214

abbrev pub opc_invokenonvirtual_quick : ℕ
opc_invokenonvirtual_quick = 215

abbrev pub opc_invokesuper_quick : ℕ
opc_invokesuper_quick = 216

abbrev pub opc_invokestatic_quick : ℕ
opc_invokestatic_quick = 217

abbrev pub opc_invokeinterface_quick : ℕ
opc_invokeinterface_quick = 218

abbrev pub opc_invokevirtualobject_quick : ℕ
opc_invokevirtualobject_quick = 219

abbrev pub opc_invokeignored_quick : ℕ
opc_invokeignored_quick = 220

abbrev pub opc_new_quick : ℕ
opc_new_quick = 221

abbrev pub opc_anewarray_quick : ℕ
opc_anewarray_quick = 222

abbrev pub opc_multianewarray_quick : ℕ
opc_multianewarray_quick = 223

abbrev pub opc_checkcast_quick : ℕ
opc_checkcast_quick = 224

abbrev pub opc_instanceof_quick : ℕ
opc_instanceof_quick = 225

abbrev pub opc_invokevirtual_quick_w : ℕ
opc_invokevirtual_quick_w = 226

abbrev pub opc_getfield_quick_w : ℕ
opc_getfield_quick_w = 227

abbrev pub opc_putfield_quick_w : ℕ
opc_putfield_quick_w = 228

abbrev pub opc_nonnull_quick : ℕ
opc_nonnull_quick = 229
