-- ===== src/Translate/Invoke.antt =====
-- The case of makePCTable for the invocations.
use shujit.Base.{
  ℕ, zero, suc, ◌+◌, ◌%◌, List, [], ◌∷◌, Option, none, some, ◌>>=◌, Bool, false, ◌||◌, ◌&&◌, not,
  ◌==◌, leb, if◌then◌else◌, pos, ◌+ℤ◌, write_at, get_elem?,
}
use text.Mathlib.Text.{◌==◌ as str_eq}
use shujit.Opcode.{
  opc_goto, opc_goto_w, opc_ireturn, opc_return, opc_invokevirtual, opc_invokevirtual_quick_w,
  opc_invokespecial, opc_invokenonvirtual_quick, opc_invokesuper_quick, opc_invokestatic,
  opc_invokestatic_quick, opc_invokeinterface, opc_invokeignored_quick, opc_invokeignored_static,
  opc_invokeignored_static_quick, opc_invokevirtual_obj, opc_inv_head, opc_inv_vir_obj,
  opc_inv_vir_varspace, opc_inv_spe_obj, opc_inv_spe_varspace, opc_inv_stq_obj,
  opc_inv_stq_varspace, opc_invoke_core, opc_invoke_recursive, opc_invoke_recursive_1,
  opc_invoke_recursive_2, opc_invoke_recursive_3, opc_stateto0, opc_throw_noclassdef,
  opc_throw_nomethod, opc_throw_illegalaccess, opc_java_io_bufferedinputstream_ensureopen,
}
use shujit.Translate.Bytes.{among, get_uint16, get_int16, get_int32, nonnegative, opcode_length}
use shujit.Translate.Names.{codes, is_inner_access, math_inlined}
use shujit.Translate.Vm.{Vm, Resolved, resolved, no_class, no_member, other_error, Method, State}
use shujit.Translate.Process.{process_all}

-- The quick forms are taken for the others.
unfoldable pub normalized : ℕ → ℕ
normalized opcode =
    if among opcode (opc_invokevirtual ∷ opc_invokevirtual_quick_w ∷ [])
    then opc_invokevirtual
    else if among opcode
        (opc_invokespecial ∷ opc_invokenonvirtual_quick ∷ opc_invokesuper_quick ∷ [])
    then opc_invokespecial
    else if among opcode (opc_invokestatic ∷ opc_invokestatic_quick ∷ [])
    then opc_invokestatic
    else opc_invokeinterface

-- The first instruction behind a call that is not a `goto`. The fuel bounds the `goto`s; `none` when it is used up, and
-- for a read outside the byte code.
unfoldable pub behind_gotos : ℕ → List ℕ → ℕ → Option ℕ
unfolding get_int16 get_int32
behind_gotos zero code pc = none
behind_gotos (suc fuel) code pc =
    let near = (do
      d ← get_int16 code (pos pc) 1
      next ← nonnegative (pos pc +ℤ d)
      behind_gotos fuel code next) in
    let far = (do
      d ← get_int32 code (pos pc) 1
      next ← nonnegative (pos pc +ℤ d)
      behind_gotos fuel code next) in
    (do
      opcode ← get_elem? code pc
      (if opcode == opc_goto then near else if opcode == opc_goto_w then far else some opcode))

abbrev pub recursive_call : ℕ → ℕ
recursive_call args_size =
    if args_size == 1
    then opc_invoke_recursive_1
    else if args_size == 2
    then opc_invoke_recursive_2
    else if args_size == 3
    then opc_invoke_recursive_3
    else opc_invoke_recursive

-- ELIMINATE_TAIL_RECURSION: is the call of the method itself, not synchronized, in no `try`, and is a return
-- the next instruction?
unfoldable pub is_tail_call : Vm → ℕ → State → ℕ → ℕ → Method → Option Bool
is_tail_call vm fuel s pc byteinc m =
    if m.is_self && not m.is_synchronized
    then (do
      next ← behind_gotos fuel s.code (pc + byteinc)
      some (leb opc_ireturn next && leb next opc_return && not (vm.in_try pc)))
    else some false

-- An empty method is not called. Its call is rewritten to `invokeignored_quick` with the size of the
-- arguments and the need of a null check, which constructors do not have.
unfoldable pub ignored : Vm → State → ℕ → Method → Option State
ignored vm s pc m =
    let to_null_check = not m.is_static && not (str_eq m.name "<init>") in
    let opcode =
      if to_null_check
      then opc_invokeignored_quick
      else if m.initialized
      then opc_invokeignored_static_quick
      else opc_invokeignored_static in
    (do
      s' ← process_all vm s (opcode ∷ []) (pos pc)
      some (record s' {
        code =
            write_at pc
              (opc_invokeignored_quick ∷ m.args_size % 256 ∷ (if to_null_check then 1 else 0) ∷ [])
              s'.code;
      }))

abbrev pub virtual_calls : Method → List ℕ
virtual_calls m =
    opc_stateto0
    ∷ opc_inv_head
    ∷ opc_inv_vir_obj
    ∷ (if str_eq m.class_name "java/lang/Object" then opc_invokevirtual else opc_invokevirtual_obj)
    ∷ opc_inv_vir_varspace
    ∷ opc_invoke_core
    ∷ []

abbrev pub interface_calls : List ℕ
interface_calls =
    opc_stateto0 ∷ opc_inv_head ∷ opc_inv_spe_obj ∷ opc_invokeinterface ∷ opc_inv_vir_varspace
    ∷ opc_invoke_core ∷ []

abbrev pub special_calls : Method → List ℕ
special_calls m =
    if str_eq m.class_name "java/io/BufferedInputStream" && str_eq m.name "ensureOpen"
    then opc_java_io_bufferedinputstream_ensureopen ∷ []
    else opc_stateto0 ∷ opc_inv_head ∷ opc_inv_spe_obj ∷ opc_invokespecial ∷ opc_inv_spe_varspace
      ∷ opc_invoke_core ∷ []

-- The test of OPT_CODEDB stands under `#ifdef CODEDB`, a macro that is nowhere defined.
abbrev pub static_core : Method → List ℕ
static_core m =
    opc_stateto0
    ∷ opc_inv_head
    ∷ opc_inv_stq_obj
    ∷ (if m.initialized then opc_invokestatic_quick else opc_invokestatic)
    ∷ opc_inv_stq_varspace
    ∷ opc_invoke_core
    ∷ []

abbrev pub static_calls : Method → List ℕ
static_calls m = elim (math_inlined m.class_name m.name m.signature) as (λ r. List ℕ) [
  | some opcode ↦ opcode ∷ []
  | none ↦ static_core m
]

-- From the label `makepc_invokespecial` on: special and static calls, and virtual calls of private and
-- final methods.
unfoldable pub direct : Vm → ℕ → State → ℕ → ℕ → ℕ → Method → Option State
direct vm fuel s opcode pc byteinc m =
    if not m.native_or_abstract && m.first_opcode == opc_return then ignored vm s pc m else (do
      tail ← is_tail_call vm fuel s pc byteinc m
      process_all vm s
          (if tail
            then opc_stateto0 ∷ recursive_call m.args_size ∷ []
            else if opcode == opc_invokespecial
            then special_calls m
            else static_calls m)
          (pos pc))

-- VerifyFieldAccess, or an access to or from an inner class.
abbrev pub allowed : Vm → Method → Bool
allowed vm m =
    m.accessible || is_inner_access (codes vm.class_name) (codes m.class_name) m.same_domain

unfoldable pub invoke_resolved : Vm → ℕ → State → ℕ → ℕ → ℕ → Method → Option State
invoke_resolved vm fuel s opcode pc byteinc m =
    if not (allowed vm m)
    then process_all vm s (opc_throw_illegalaccess ∷ []) (pos pc)
    else if opcode == opc_invokevirtual
    then (if m.is_private || m.is_final
        then direct vm fuel s opc_invokespecial pc byteinc m
        else process_all vm s (virtual_calls m) (pos pc))
    else if opcode == opc_invokeinterface
    then process_all vm s interface_calls (pos pc)
    else direct vm fuel s opcode pc byteinc m

-- By the outcome of the resolution. The inner `none` is an exception, which ends the translation.
unfoldable pub invoke_method :
    Vm → ℕ → State → ℕ → ℕ → ℕ → Resolved Method → Option (Option (State × ℕ))
invoke_method vm fuel s opcode pc byteinc (resolved m) = do
  s' ← invoke_resolved vm fuel s opcode pc byteinc m
  some (some (s', byteinc))
invoke_method vm fuel s opcode pc byteinc no_class = do
  s' ← process_all vm s (opc_throw_noclassdef ∷ []) (pos pc)
  some (some (s', byteinc))
invoke_method vm fuel s opcode pc byteinc no_member = do
  s' ← process_all vm s (opc_throw_nomethod ∷ []) (pos pc)
  some (some (s', byteinc))
invoke_method vm fuel s opcode pc byteinc other_error = some none

unfoldable pub invoke : Vm → ℕ → State → ℕ → ℕ → Option (Option (State × ℕ))
invoke vm fuel s opcode pc = do
  operand ← get_uint16 s.code (pos pc) 1
  byteinc ← get_elem? opcode_length (normalized opcode)
  invoke_method vm fuel s (normalized opcode) pc byteinc (vm.method operand)
