-- ===== src/Opcode/Float.antt =====
-- opcodes_internal.h: the opcodes of the cache, exceptions and floating point.
use shujit.Base.{ℕ}

abbrev pub opc_fill_cache : ℕ
opc_fill_cache = 256

abbrev pub opc_flush_cache : ℕ
opc_flush_cache = 257

abbrev pub opc_array_check : ℕ
opc_array_check = 258

abbrev pub opc_throw_illegalaccess : ℕ
opc_throw_illegalaccess = 259

abbrev pub opc_throw_instantiation : ℕ
opc_throw_instantiation = 260

abbrev pub opc_throw_noclassdef : ℕ
opc_throw_noclassdef = 261

abbrev pub opc_throw_nofield : ℕ
opc_throw_nofield = 262

abbrev pub opc_throw_nomethod : ℕ
opc_throw_nomethod = 263

abbrev pub opc_strict_enter : ℕ
opc_strict_enter = 264

abbrev pub opc_strict_exit : ℕ
opc_strict_exit = 265

abbrev pub opc_fld4 : ℕ
opc_fld4 = 266

abbrev pub opc_fld : ℕ
opc_fld = 267

abbrev pub opc_fst : ℕ
opc_fst = 268

abbrev pub opc_dld8 : ℕ
opc_dld8 = 269

abbrev pub opc_dld : ℕ
opc_dld = 270

abbrev pub opc_dst : ℕ
opc_dst = 271

abbrev pub opc_fppc_save : ℕ
opc_fppc_save = 272

abbrev pub opc_fppc_restore : ℕ
opc_fppc_restore = 273

abbrev pub opc_fppc_double : ℕ
opc_fppc_double = 275

abbrev pub opc_strict_fprep : ℕ
opc_strict_fprep = 277

abbrev pub opc_strict_fscdown : ℕ
opc_strict_fscdown = 278

abbrev pub opc_strict_fscup : ℕ
opc_strict_fscup = 279

abbrev pub opc_strict_fsettle : ℕ
opc_strict_fsettle = 280

abbrev pub opc_strict_dprep : ℕ
opc_strict_dprep = 281

abbrev pub opc_strict_dscdown : ℕ
opc_strict_dscdown = 282

abbrev pub opc_strict_dscup : ℕ
opc_strict_dscup = 283

abbrev pub opc_strict_dsettle : ℕ
opc_strict_dsettle = 284
