-- ===== src/Translate/Plan.antt =====
-- The large switch of makePCTable: the internal instructions that an instruction is taken apart to.
use shujit.Base.{ℕ, List, [], ◌∷◌, Bool, ◌||◌, ◌&&◌, not, ◌==◌, if◌then◌else◌}
use shujit.Opcode.{
  opc_iaload, opc_laload, opc_faload, opc_daload, opc_aaload, opc_baload, opc_caload, opc_saload,
  opc_lstore, opc_dstore, opc_lstore_0, opc_lstore_1, opc_lstore_2, opc_lstore_3, opc_dstore_0,
  opc_dstore_1, opc_dstore_2, opc_dstore_3, opc_iastore, opc_fastore, opc_aastore, opc_bastore,
  opc_castore, opc_sastore, opc_lastore, opc_dastore, opc_fadd, opc_fsub, opc_fmul, opc_fdiv,
  opc_dadd, opc_dsub, opc_dmul, opc_ddiv, opc_i2f, opc_frem, opc_l2f, opc_drem, opc_i2d, opc_l2d,
  opc_f2d, opc_d2f, opc_ireturn, opc_freturn, opc_areturn, opc_lreturn, opc_dreturn, opc_return,
  opc_monitorenter, opc_monitorexit, opc_fill_cache, opc_flush_cache, opc_array_check, opc_iastore1,
  opc_fld, opc_fld4, opc_fst, opc_dld, opc_dld8, opc_dst, opc_strict_fprep, opc_strict_fscdown,
  opc_strict_fscup, opc_strict_fsettle, opc_strict_dprep, opc_strict_dscdown, opc_strict_dscup,
  opc_strict_dsettle, opc_stateto1, opc_stateto4, opc_invokevirtual, opc_invokevirtual_quick_w,
  opc_invokespecial, opc_invokenonvirtual_quick, opc_invokesuper_quick, opc_invokestatic,
  opc_invokestatic_quick, opc_invokeinterface, opc_invokeinterface_quick,
  opc_invokevirtualobject_quick, opc_invokevirtual_quick,
}
use shujit.Translate.Bytes.{among}
use shujit.Translate.Vm.{Vm}

-- `around before after`: calls of processAnOpcode before and after the one for the opcode itself, whose
-- result is the increment. `returns` is for the return instructions, which have calls of their own and
-- are passed by one. `default_case` also looks at an exception. `skipped`: the switch is left with
-- nothing done. `fatal`: the program ends.
pub data Plan : Type 0 where
  around : List ℕ → List ℕ → Plan
  returns : List ℕ → Plan
  invokes default_case skipped fatal : Plan

abbrev pub invocations : List ℕ
invocations =
    opc_invokevirtual ∷ opc_invokevirtual_quick_w ∷ opc_invokespecial ∷ opc_invokenonvirtual_quick
    ∷ opc_invokesuper_quick ∷ opc_invokestatic ∷ opc_invokestatic_quick ∷ opc_invokeinterface
    ∷ opc_invokeinterface_quick ∷ []

-- `OPT_FRCSTRICTFP || (!OPT_IGNSTRICTFP && strict)`
abbrev pub scales : Vm → Bool
scales vm = vm.opt_frcstrictfp || (not vm.opt_ignstrictfp && vm.strict)

-- The cases of arithmetic on floating point numbers.
unfoldable pub plan_float : Vm → ℕ → Plan
plan_float vm opcode =
    if among opcode (opc_fadd ∷ opc_fsub ∷ [])
    then around (opc_flush_cache ∷ (if opcode == opc_fadd then opc_fld else opc_fld4) ∷ [])
        (opc_fst ∷ [])
    else if among opcode (opc_fmul ∷ opc_fdiv ∷ [])
    then (let load = if opcode == opc_fmul then opc_fld else opc_fld4 in
        if scales vm
        then around (opc_flush_cache ∷ opc_strict_fprep ∷ load ∷ opc_strict_fscdown ∷ [])
            (opc_strict_fscup ∷ opc_fst ∷ opc_strict_fsettle ∷ [])
        else around (opc_flush_cache ∷ load ∷ []) (opc_fst ∷ []))
    else if among opcode (opc_dadd ∷ opc_dsub ∷ [])
    then around (opc_flush_cache ∷ (if opcode == opc_dadd then opc_dld else opc_dld8) ∷ [])
        (opc_dst ∷ [])
    else (let load = if opcode == opc_dmul then opc_dld else opc_dld8 in
        if scales vm
        then around (opc_flush_cache ∷ opc_strict_dprep ∷ load ∷ opc_strict_dscdown ∷ [])
            (opc_strict_dscup ∷ opc_dst ∷ opc_strict_dsettle ∷ [])
        else around (opc_flush_cache ∷ load ∷ []) (opc_dst ∷ []))

unfoldable pub plan : Vm → ℕ → Plan
unfolding plan_float
plan vm opcode =
    if among opcode (
      opc_iaload ∷ opc_laload ∷ opc_faload ∷ opc_daload ∷ opc_aaload ∷ opc_baload ∷ opc_caload
      ∷ opc_saload ∷ [])
    then around (opc_fill_cache ∷ opc_array_check ∷ []) []
    else if among opcode (
        opc_lstore ∷ opc_dstore ∷ opc_lstore_0 ∷ opc_dstore_0 ∷ opc_lstore_1 ∷ opc_dstore_1
        ∷ opc_lstore_2 ∷ opc_dstore_2 ∷ opc_lstore_3 ∷ opc_dstore_3 ∷ [])
    then around (opc_fill_cache ∷ []) []
    else if among opcode
        (opc_iastore ∷ opc_fastore ∷ opc_aastore ∷ opc_bastore ∷ opc_castore ∷ opc_sastore ∷ [])
    then around (opc_iastore1 ∷ opc_fill_cache ∷ opc_array_check ∷ []) []
    else if among opcode (opc_lastore ∷ opc_dastore ∷ [])
    then around (opc_fill_cache ∷ []) []
    else if among opcode
        (opc_fadd ∷ opc_fsub ∷ opc_fmul ∷ opc_fdiv ∷ opc_dadd ∷ opc_dsub ∷ opc_dmul ∷ opc_ddiv ∷ [])
    then plan_float vm opcode
    else if among opcode (opc_i2f ∷ opc_frem ∷ opc_l2f ∷ [])
    then around (opc_flush_cache ∷ []) (opc_fst ∷ [])
    else if opcode == opc_drem
    then around (opc_fill_cache ∷ []) (opc_dst ∷ [])
    else if among opcode (opc_i2d ∷ opc_l2d ∷ [])
    then around (opc_flush_cache ∷ []) (opc_dst ∷ [])
    else if opcode == opc_f2d
    then around (opc_flush_cache ∷ opc_fld ∷ []) (opc_dst ∷ [])
    else if opcode == opc_d2f
    then around (opc_flush_cache ∷ opc_dld ∷ []) (opc_fst ∷ [])
    else if among opcode (opc_ireturn ∷ opc_freturn ∷ opc_areturn ∷ [])
    then returns (opc_stateto1 ∷ opc_return ∷ [])
    else if among opcode (opc_lreturn ∷ opc_dreturn ∷ [])
    then returns (opc_stateto4 ∷ opc_return ∷ [])
    else if among opcode invocations
    then invokes
    else if among opcode (opc_invokevirtualobject_quick ∷ opc_invokevirtual_quick ∷ [])
    then fatal
    else if among opcode (opc_monitorenter ∷ opc_monitorexit ∷ [])
    then (if vm.opt_ignlock then skipped else default_case)
    else default_case
