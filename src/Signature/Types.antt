-- ===== src/Signature/Types.antt =====
-- The types of the Java VM's grammar, their signatures, sizes and terse letters: what the parser of
-- computil.c, prepareCompiledCodeInfo, is meant to read.
use shujit.Base.{ℕ, ◌≢◌, List, [], ◌∷◌, ◌++◌, Option, none, some, replicate}
use shujit.Signature.{
  terse_sig_object, terse_sig_long, terse_sig_double, terse_sig_boolean, terse_sig_byte,
  terse_sig_short, terse_sig_char, terse_sig_int, terse_sig_float, terse_sig_void,
}

-- A class name is the characters between `L` and `;`.
pub data ElemType : Type 0 where
  boolean byte short char int float double long : ElemType
  class_type : List ℕ → ElemType

-- An array has `suc dims` dimensions.
pub data JavaType : Type 0 where
  elem : ElemType → JavaType
  array : ℕ → ElemType → JavaType

unfoldable pub print_elem : ElemType → List ℕ
print_elem boolean = b'Z' ∷ []
print_elem byte = b'B' ∷ []
print_elem short = b'S' ∷ []
print_elem char = b'C' ∷ []
print_elem int = b'I' ∷ []
print_elem float = b'F' ∷ []
print_elem double = b'D' ∷ []
print_elem long = b'J' ∷ []
print_elem (class_type name) = b'L' ∷ (name ++ b';' ∷ [])

unfoldable pub print_type : JavaType → List ℕ
print_type (elem e) = print_elem e
print_type (array dims e) = b'[' ∷ (replicate dims b'[' ++ print_elem e)

unfoldable pub print_all : List JavaType → List ℕ
print_all [] = []
print_all (t ∷ ts) = print_type t ++ print_all ts

-- `none` is `void`.
unfoldable pub print_result : Option JavaType → List ℕ
print_result none = b'V' ∷ []
print_result (some t) = print_type t

abbrev pub size : JavaType → ℕ
size (elem double) = 2
size (elem long) = 2
size t = 1

abbrev pub terse : JavaType → ℕ
terse (elem boolean) = terse_sig_boolean
terse (elem byte) = terse_sig_byte
terse (elem short) = terse_sig_short
terse (elem char) = terse_sig_char
terse (elem int) = terse_sig_int
terse (elem float) = terse_sig_float
terse (elem double) = terse_sig_double
terse (elem long) = terse_sig_long
terse t = terse_sig_object

abbrev pub result_size : Option JavaType → ℕ
result_size none = 0
result_size (some t) = size t

abbrev pub result_terse : Option JavaType → ℕ
result_terse none = terse_sig_void
result_terse (some t) = terse t

abbrev pub NoSemicolon : List ℕ → Type 0
NoSemicolon [] = Unit {0}
NoSemicolon (c ∷ name) = (c ≢ b';') × NoSemicolon name

abbrev pub GoodElem : ElemType → Type 0
GoodElem (class_type name) = NoSemicolon name
GoodElem e = Unit {0}

abbrev pub Good : JavaType → Type 0
Good (elem e) = GoodElem e
Good (array dims e) = GoodElem e

abbrev pub AllGood : List JavaType → Type 0
AllGood [] = Unit {0}
AllGood (t ∷ ts) = Good t × AllGood ts

abbrev pub GoodResult : Option JavaType → Type 0
GoodResult none = Unit {0}
GoodResult (some t) = Good t

-- The characters behind the opening parenthesis.
abbrev pub print_signature : List JavaType → Option JavaType → List ℕ
print_signature args ret = print_all args ++ (b')' ∷ print_result ret)
