-- ===== src/Opcode/Special.antt =====
-- opcodes_internal.h: the opcodes of fields of two words, states, fused and inlined instructions.
use shujit.Base.{ℕ}

abbrev pub opc_getstatic2 : ℕ
opc_getstatic2 = 285

abbrev pub opc_putstatic2 : ℕ
opc_putstatic2 = 286

abbrev pub opc_getfield2 : ℕ
opc_getfield2 = 287

abbrev pub opc_putfield2 : ℕ
opc_putfield2 = 288

abbrev pub opc_iastore1 : ℕ
opc_iastore1 = 289

abbrev pub opc_stateto0 : ℕ
opc_stateto0 = 291

abbrev pub opc_stateto1 : ℕ
opc_stateto1 = 292

abbrev pub opc_stateto4 : ℕ
opc_stateto4 = 295

abbrev pub opc_goto_st0 : ℕ
opc_goto_st0 = 296

abbrev pub opc_fload_fld : ℕ
opc_fload_fld = 301

abbrev pub opc_dload_dld : ℕ
opc_dload_dld = 302

abbrev pub opc_faload_fld : ℕ
opc_faload_fld = 303

abbrev pub opc_daload_dld : ℕ
opc_daload_dld = 304

abbrev pub opc_fst_fstore : ℕ
opc_fst_fstore = 305

abbrev pub opc_dst_dstore : ℕ
opc_dst_dstore = 306

abbrev pub opc_fst_fastore : ℕ
opc_fst_fastore = 307

abbrev pub opc_dst_dastore : ℕ
opc_dst_dastore = 308

abbrev pub opc_istld : ℕ
opc_istld = 309

abbrev pub opc_lstld : ℕ
opc_lstld = 310

abbrev pub opc_invoke_recursive : ℕ
opc_invoke_recursive = 311

abbrev pub opc_invoke_recursive_1 : ℕ
opc_invoke_recursive_1 = 312

abbrev pub opc_invoke_recursive_2 : ℕ
opc_invoke_recursive_2 = 313

abbrev pub opc_invoke_recursive_3 : ℕ
opc_invoke_recursive_3 = 314

abbrev pub opc_inlined_enter : ℕ
opc_inlined_enter = 315

abbrev pub opc_inlined_exit : ℕ
opc_inlined_exit = 316

abbrev pub opc_sqrt : ℕ
opc_sqrt = 319

abbrev pub opc_sin : ℕ
opc_sin = 320

abbrev pub opc_cos : ℕ
opc_cos = 321

abbrev pub opc_tan : ℕ
opc_tan = 322

abbrev pub opc_atan2 : ℕ
opc_atan2 = 323

abbrev pub opc_atan : ℕ
opc_atan = 324

abbrev pub opc_log : ℕ
opc_log = 325

abbrev pub opc_floor : ℕ
opc_floor = 326

abbrev pub opc_ceil : ℕ
opc_ceil = 327

abbrev pub opc_abs_int : ℕ
opc_abs_int = 328

abbrev pub opc_abs_long : ℕ
opc_abs_long = 329

abbrev pub opc_abs_float : ℕ
opc_abs_float = 330

abbrev pub opc_abs_double : ℕ
opc_abs_double = 331

abbrev pub opc_exp : ℕ
opc_exp = 332

abbrev pub opc_asin : ℕ
opc_asin = 333

abbrev pub opc_acos : ℕ
opc_acos = 334

abbrev pub opc_java_io_bufferedinputstream_ensureopen : ℕ
opc_java_io_bufferedinputstream_ensureopen = 335
