-- ===== src/Translate/Proofs/Bounded.antt =====
-- The increments that the switch of processAnOpcode sets are small.
use shujit.Base.{
  ℕ, ◌<◌, ◌^◌, arith, Bool, if◌then◌else◌, either_branch, ◌==◌, ◌||◌, List, Option, none, some,
  ◌>>=◌, ℤ, pos, negsuc,
}
use shujit.Opcode.{
  opc_wide, opc_getstatic, opc_getstatic2, opc_getstatic_quick, opc_getstatic2_quick, opc_putstatic,
  opc_putstatic2, opc_putstatic_quick, opc_putstatic2_quick, opc_getfield, opc_getfield2,
  opc_putfield, opc_putfield2,
}
use shujit.Translate.Bytes.{byte_at, get_uint16}
use shujit.Translate.Vm.{Vm, Field, Class, Resolved, resolved, no_class, no_member, other_error}
use shujit.Translate.Decode.{
  Decoded, insn, omitted, failed, decode_simple, decode_constant, decode_indexed, with_operand,
}
use shujit.Translate.Objects.{
  decode, decode_once, decode_pool, decode_quick, check_access, check_field, access_static,
  access_field, access_class, access_instanceof, reads_pool, reads_field, writes_field,
}

abbrev pub Bounded : ℕ → Type 0
Bounded n = n < 2 ^ 31

abbrev pub BoundedBy : Decoded → Type 0
BoundedBy (insn code_opcode operand byteinc) = Bounded byteinc
BoundedBy omitted = Unit {0}
BoundedBy failed = Unit {0}

abbrev pub AllBounded : Option Decoded → Type 0
AllBounded none = Unit {0}
AllBounded (some d) = BoundedBy d

bind-Bounded :
    {A : Type 0} (o : Option A) (f : A → Option Decoded)
    → ((a : A) → AllBounded (f a))
    → AllBounded (o >>= f)
bind-Bounded none f h = tt
bind-Bounded (some a) f h = h a

abbrev zero_inc : 0 < 2 ^ 31
zero_inc = omega arith

branch-Bounded :
    (c : Bool) (a b : Option Decoded)
    → AllBounded a
    → AllBounded b
    → AllBounded (if c then a else b)
branch-Bounded c a b p q = either_branch AllBounded c p q

decode_constant-Bounded :
    (code : List ℕ) (byteoff : ℤ) (opcode : ℕ) → AllBounded (decode_constant code byteoff opcode)
unfolding decode_constant
decode_constant-Bounded code byteoff opcode = ground arith

decode_simple-Bounded :
    (code : List ℕ) (byteoff : ℤ) (opcode : ℕ) → AllBounded (decode_simple code byteoff opcode)
unfolding decode_simple
decode_simple-Bounded code byteoff opcode =
    ground (arith, decode_constant-Bounded code byteoff opcode)

decode_indexed-Bounded :
    (opcode : ℕ) (others : Option Decoded)
    → AllBounded others
    → AllBounded (decode_indexed opcode others)
unfolding decode_indexed
decode_indexed-Bounded opcode others h = ground arith

access_static-Bounded :
    (vm : Vm) (operand : ℕ) (r : Resolved Field) (one two one_quick two_quick : ℕ)
    → BoundedBy (access_static vm operand r one two one_quick two_quick)
unfolding access_static
access_static-Bounded vm operand (resolved f) one two one_quick two_quick = zero_inc
access_static-Bounded vm operand no_class one two one_quick two_quick = omega arith
access_static-Bounded vm operand no_member one two one_quick two_quick = omega arith
access_static-Bounded vm operand other_error one two one_quick two_quick = tt

access_field-Bounded :
    (operand : ℕ) (r : Resolved Field) (one two : ℕ) → BoundedBy (access_field operand r one two)
unfolding access_field
access_field-Bounded operand (resolved f) one two = zero_inc
access_field-Bounded operand no_class one two = omega arith
access_field-Bounded operand no_member one two = omega arith
access_field-Bounded operand other_error one two = tt

access_class-Bounded :
    (code_opcode operand : ℕ) (r : Resolved Class) → BoundedBy (access_class code_opcode operand r)
unfolding access_class
access_class-Bounded code_opcode operand (resolved c) = ground arith
access_class-Bounded code_opcode operand no_class = omega arith
access_class-Bounded code_opcode operand no_member = tt
access_class-Bounded code_opcode operand other_error = tt

access_instanceof-Bounded :
    (operand : ℕ) (r : Resolved Class) → AllBounded (access_instanceof operand r)
unfolding access_instanceof
access_instanceof-Bounded operand (resolved c) = ground arith
access_instanceof-Bounded operand no_class = omega arith
access_instanceof-Bounded operand no_member = tt
access_instanceof-Bounded operand other_error = tt

decode_pool-Bounded : (vm : Vm) (opcode operand : ℕ) → AllBounded (decode_pool vm opcode operand)
unfolding decode_pool
decode_pool-Bounded vm opcode operand = ground (
  arith,
  access_static-Bounded vm operand (vm.field operand) opc_getstatic opc_getstatic2
      opc_getstatic_quick opc_getstatic2_quick,
  access_static-Bounded vm operand (vm.field operand) opc_putstatic opc_putstatic2
      opc_putstatic_quick opc_putstatic2_quick,
  access_field-Bounded operand (vm.field operand) opc_getfield opc_getfield2,
  access_field-Bounded operand (vm.field operand) opc_putfield opc_putfield2,
  access_class-Bounded opcode operand (vm.klass operand),
  access_instanceof-Bounded operand (vm.klass operand),
)

quick-Bounded :
    (o : Option ℕ) (code : List ℕ) (byteoff : ℤ) (others : Option Decoded)
    → AllBounded others
    → AllBounded (elim o as (λ r. Option Decoded) [
      | some code_opcode ↦ do operand ← byte_at code byteoff 1; with_operand code_opcode operand
      | none ↦ others
    ])
quick-Bounded none code byteoff others h = h
quick-Bounded (some o) code byteoff others h =
    bind-Bounded (byte_at code byteoff 1) (with_operand o) (λ n. zero_inc)

decode_once-Bounded :
    (vm : Vm) (code : List ℕ) (byteoff : ℤ) (opcode : ℕ)
    → AllBounded (decode_once vm code byteoff opcode)
unfolding decode_once
decode_once-Bounded vm code byteoff opcode =
    branch-Bounded (reads_pool opcode) _ _
      (bind-Bounded (get_uint16 code byteoff 1) _ (decode_pool-Bounded vm opcode))
      (quick-Bounded (decode_quick opcode) code byteoff _
        (decode_indexed-Bounded opcode _ (decode_simple-Bounded code byteoff opcode)))

pub decode-Bounded :
    (vm : Vm) (code : List ℕ) (byteoff : ℤ) (opcode : ℕ)
    → AllBounded (decode vm code byteoff opcode)
unfolding decode
decode-Bounded vm code byteoff opcode =
    branch-Bounded (opcode == opc_wide) _ _
      (bind-Bounded (byte_at code byteoff 1) _ (λ widened.
        branch-Bounded (widened == opc_wide) none _ tt
          (decode_once-Bounded vm code byteoff widened)))
      (decode_once-Bounded vm code byteoff opcode)

check_field-Bounded :
    (code_opcode : ℕ) (r : Resolved Field) (operand : ℤ) (byteinc : ℕ)
    → Bounded byteinc
    → AllBounded (check_field code_opcode r operand byteinc)
unfolding check_field
check_field-Bounded code_opcode (resolved f) operand byteinc h = ground arith
check_field-Bounded code_opcode no_class operand byteinc h = tt
check_field-Bounded code_opcode no_member operand byteinc h = tt
check_field-Bounded code_opcode other_error operand byteinc h = tt

pub check_access-Bounded : (vm : Vm) (d : Decoded) → BoundedBy d → AllBounded (check_access vm d)
unfolding check_access
check_access-Bounded vm (insn code_opcode (pos operand) byteinc) h =
    branch-Bounded (reads_field code_opcode || writes_field code_opcode) _ _
      (check_field-Bounded code_opcode (vm.field operand) (pos operand) byteinc h) h
check_access-Bounded vm (insn code_opcode (negsuc n) byteinc) h = h
check_access-Bounded vm omitted h = tt
check_access-Bounded vm failed h = tt
