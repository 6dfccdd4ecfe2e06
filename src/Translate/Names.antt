-- ===== src/Translate/Names.antt =====
-- The names of classes and methods that makePCTable looks at: the rule for inner classes, and the
-- methods of Math and StrictMath that have internal instructions of their own.
use Prim.Native.Char.{code}
use Prim.Native.String.{String}
use text.Mathlib.Text.{◌==◌ as str_eq}
use shujit.Base.{
  ℕ, zero, suc, List, [], ◌∷◌, Option, none, some, ◌>>=◌, Bool, true, false, not, ◌||◌, ◌&&◌, ◌==◌,
  if◌then◌else◌,
}
use shujit.Opcode.{
  opc_sqrt, opc_sin, opc_cos, opc_tan, opc_atan2, opc_atan, opc_log, opc_floor, opc_ceil, opc_exp,
  opc_asin, opc_acos, opc_abs_int, opc_abs_long, opc_abs_float, opc_abs_double,
}

-- The characters of a string.
abbrev pub codes : String → List ℕ
codes String.[] = []
codes (String.◌∷◌ c s) = code c ∷ codes s

-- `strchr(name, '$')`, as the length of what stands before it.
unfoldable pub before_dollar : List ℕ → Option ℕ
before_dollar [] = none
before_dollar (c ∷ name) = if c == b'$' then some 0 else (do n ← before_dollar name; some (suc n))

-- `!strncmp(a, b, len)`
unfoldable pub same_prefix : ℕ → List ℕ → List ℕ → Bool
same_prefix zero a b = true
same_prefix (suc len) [] [] = true
same_prefix (suc len) [] (d ∷ b) = false
same_prefix (suc len) (c ∷ a) [] = false
same_prefix (suc len) (c ∷ a) (d ∷ b) = c == d && same_prefix len a b

-- The length `len` that the two class names are compared to; 0 stands for no comparison.
unfoldable pub shared_length : Option ℕ → Option ℕ → ℕ
shared_length (some n) none = n
shared_length (some n) (some m) = 0
shared_length none (some m) = m
shared_length none none = 0

-- The access that VerifyFieldAccess refuses is allowed between a class and its inner class, of one
-- protection domain and loader.
pub is_inner_access : List ℕ → List ℕ → Bool → Bool
is_inner_access src method same_domain =
    let len = shared_length (before_dollar src) (before_dollar method) in
    not (len == 0) && same_domain && same_prefix len src method

abbrev pub first_match : {A : Type 0} → String → List (String × A) → Option A
first_match name [] = none
first_match name ((n, a) ∷ rest) = if str_eq name n then some a else first_match name rest

-- The methods of `java/lang/Math`, by name.
abbrev pub math_methods : List (String × ℕ)
math_methods =
    ("sqrt", opc_sqrt)
    ∷ ("sin", opc_sin)
    ∷ ("cos", opc_cos)
    ∷ ("tan", opc_tan)
    ∷ ("atan2", opc_atan2)
    ∷ ("atan", opc_atan)
    ∷ ("log", opc_log)
    ∷ ("floor", opc_floor)
    ∷ ("ceil", opc_ceil)
    ∷ ("exp", opc_exp)
    ∷ ("asin", opc_asin)
    ∷ ("acos", opc_acos)
    ∷ []

-- `abs`, by signature.
abbrev pub abs_methods : List (String × ℕ)
abs_methods =
    ("(I)I", opc_abs_int)
    ∷ ("(J)J", opc_abs_long)
    ∷ ("(F)F", opc_abs_float)
    ∷ ("(D)D", opc_abs_double)
    ∷ []

-- The instruction for a static method, if it is inlined (SPECIAL_INLINING).
unfoldable pub math_inlined : String → String → String → Option ℕ
math_inlined cname mname sig =
    let general = if str_eq cname "java/lang/Math" then first_match mname math_methods else none in
    let absolute =
      if (str_eq cname "java/lang/Math" || str_eq cname "java/lang/StrictMath")
        && str_eq mname "abs"
      then first_match sig abs_methods
      else none in
    elim general as (λ r. Option ℕ) [ none ↦ absolute | some opcode ↦ some opcode ]
