-- ===== src/Signature.antt =====
-- computil.c, prepareCompiledCodeInfo: the sizes of a method's arguments and its terse signature,
-- from the signature that the class file gives.
-- A string is the list of its characters before the null character; reading past it is `none`, as
-- are the two fatal errors.
pub mod Types
pub mod RoundTrip
mod Examples
use shujit.Base.{
  Bool, true, false, ℕ, zero, suc, List, [], ◌∷◌, ◌++◌, Option, none, some, ◌>>=◌, ltb, ◌==◌,
  if◌then◌else◌, length,
}

abbrev pub as_buf_size : ℕ
as_buf_size = 256

-- The values of TERSE_SIG_*.
abbrev pub terse_sig_object : ℕ
terse_sig_object = 1

abbrev pub terse_sig_long : ℕ
terse_sig_long = 2

abbrev pub terse_sig_double : ℕ
terse_sig_double = 3

abbrev pub terse_sig_boolean : ℕ
terse_sig_boolean = 4

abbrev pub terse_sig_byte : ℕ
terse_sig_byte = 5

abbrev pub terse_sig_short : ℕ
terse_sig_short = 6

abbrev pub terse_sig_char : ℕ
terse_sig_char = 7

abbrev pub terse_sig_int : ℕ
terse_sig_int = 8

abbrev pub terse_sig_float : ℕ
terse_sig_float = 9

abbrev pub terse_sig_void : ℕ
terse_sig_void = 10

abbrev pub terse_sig_endfunc : ℕ
terse_sig_endfunc = 11

-- `while (*(sig++) != ';');`
pub skip_class : List ℕ → Option (List ℕ)
skip_class [] = none
skip_class (c ∷ sig) = let rest = skip_class sig in if c == b';' then some sig else rest

-- `while (*sig == '[') sig++;`
pub skip_dims : List ℕ → List ℕ
skip_dims [] = []
skip_dims (c ∷ sig) = let rest = skip_dims sig in if c == b'[' then rest else c ∷ sig

-- `if (*sig++ == 'L') while (*(sig++) != ';');`
pub skip_elem : List ℕ → Option (List ℕ)
skip_elem [] = none
skip_elem (c ∷ sig) = if c == b'L' then skip_class sig else some sig

-- One round of the loop at `*sig == c`: the size, the terse letter and the rest.
pub one_round : ℕ → List ℕ → Option ((ℕ × ℕ) × List ℕ)
one_round c sig =
    if c == b')'
    then some ((0, terse_sig_endfunc), sig)
    else if c == b'V'
    then some ((0, terse_sig_void), sig)
    else if c == b'Z'
    then some ((1, terse_sig_boolean), sig)
    else if c == b'B'
    then some ((1, terse_sig_byte), sig)
    else if c == b'S'
    then some ((1, terse_sig_short), sig)
    else if c == b'C'
    then some ((1, terse_sig_char), sig)
    else if c == b'I'
    then some ((1, terse_sig_int), sig)
    else if c == b'F'
    then some ((1, terse_sig_float), sig)
    else if c == b'D'
    then some ((2, terse_sig_double), sig)
    else if c == b'J'
    then some ((2, terse_sig_long), sig)
    else if c == b'L'
    then (do rest ← skip_class (c ∷ sig); some ((1, terse_sig_object), rest))
    else if c == b'['
    then (do rest ← skip_elem (skip_dims sig); some ((1, terse_sig_object), rest))
    else none

-- The fields of a code info that the parser sets. `ret_sig` is `none` until it is set.
pub record Parsed : Type 0 where
  pub argsizes : List ℕ
  pub terse_sig : List ℕ
  pub ret_sig : Option (List ℕ)

-- `while (*sig)`; every round takes a character or more.
pub parse_loop : ℕ → List ℕ → Parsed → Option Parsed
parse_loop fuel [] r = some r
parse_loop zero (c ∷ sig) r = none
parse_loop (suc fuel) (c ∷ sig) r = do
  ((size, terse), rest) ← one_round c sig
  let r' : Parsed = record {
    argsizes = r.argsizes ++ size ∷ [];
    terse_sig = r.terse_sig ++ terse ∷ [];
    ret_sig = if c == b')' then some rest else r.ret_sig;
  }
  let more = parse_loop fuel rest r'
  if ltb (length r'.argsizes) as_buf_size then more else none

-- `sizes[--i]`
pub last : List ℕ → Option ℕ
last [] = none
last (n ∷ []) = some n
last (n ∷ m ∷ ns) = last (m ∷ ns)

-- The parsed fields and `ret_size`. The first character of the signature is skipped.
pub prepare_compiled_code_info : Bool → List ℕ → Option (Parsed × ℕ)
prepare_compiled_code_info is_static [] = none
prepare_compiled_code_info is_static (c ∷ sig) = do
  r ←
      parse_loop (length sig) sig
        (record { argsizes = if is_static then [] else 1 ∷ []; terse_sig = []; ret_sig = none })
  ret_size ← last r.argsizes
  some (r, ret_size)
