-- ===== src/Translate/Vm.antt =====
-- What the translation reads of the Java VM and of the options, and what it keeps.
use Prim.Native.String.{String}
use shujit.Base.{ℕ, List, Bool, ℤ}

-- The outcome of resolving an entry of the constant pool: done, or the error that was thrown.
-- `no_member` is NoSuchMethodError or NoSuchFieldError.
pub data Resolved (A : Type 0) : Type 0 where
  resolved : A → Resolved A
  no_class no_member other_error : Resolved A

-- `accessible` is the result of VerifyFieldAccess or VerifyClassAccess.
pub record Field : Type 0 where
  pub two_words : Bool
  pub initialized : Bool
  pub accessible : Bool
  pub is_final : Bool
  pub own_class : Bool

pub record Class : Type 0 where
  pub interface_or_abstract : Bool
  pub accessible : Bool
  pub is_object : Bool

-- `final` is the flag of the method or of its class. `same_domain`: the protection domain and the loader are
-- those of the calling class. `first_opcode` is `code[0]` of a method with code.
pub record Method : Type 0 where
  pub accessible : Bool
  pub same_domain : Bool
  pub is_private : Bool
  pub is_final : Bool
  pub is_static : Bool
  pub is_synchronized : Bool
  pub native_or_abstract : Bool
  pub initialized : Bool
  pub first_opcode : ℕ
  pub args_size : ℕ
  pub is_self : Bool
  pub class_name : String
  pub name : String
  pub signature : String

-- `flags` of a code opcode: OPC_THROW_MASK and OPC_JUMP_MASK of its assembled code. `in_try` is
-- `searchCatchFrame` at a byte code offset. `strict`, `synchronized`, `static_method` and
-- `has_handlers` are of the method translated; `fpu_double` is `is_fpupc_double`.
pub record Vm : Type 0 where
  pub field : ℕ → Resolved Field
  pub klass : ℕ → Resolved Class
  pub method : ℕ → Resolved Method
  pub flags : ℕ → Bool × Bool
  pub in_try : ℕ → Bool
  pub class_name : String
  pub strict : Bool
  pub synchronized : Bool
  pub static_method : Bool
  pub has_handlers : Bool
  pub fpu_double : Bool
  pub opt_codedb : Bool
  pub opt_ignlock : Bool
  pub opt_ignstrictfp : Bool
  pub opt_frcstrictfp : Bool

-- What is added to the table: the arguments of `pctableAdd`.
pub record Insn : Type 0 where
  pub opcode : ℕ
  pub operand : ℤ
  pub byteoff : ℤ

-- The compiler context and the byte code, which invocations of empty methods are rewritten in.
pub record State : Type 0 where
  pub table : List Insn
  pub may_throw : Bool
  pub may_jump : Bool
  pub ninsn : ℕ
  pub code : List ℕ
