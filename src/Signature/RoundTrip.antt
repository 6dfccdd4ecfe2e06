-- ===== src/Signature/RoundTrip.antt =====
-- What the parser of computil.c, prepareCompiledCodeInfo, makes of a signature of the grammar.
use shujit.Base.{
  Bool, true, false, ℕ, zero, suc, ◌+◌, ◌≤◌, ◌<◌, ◌≡◌, refl, ap, sym, ◌∙◌, List, [], ◌∷◌, ◌++◌,
  append_assoc, append-nil, map, Option, none, some, ltb, ◌==◌, if◌then◌else◌, length,
  length-append, replicate, arith,
}
use shujit.Signature.{
  skip_class, skip_dims, skip_elem, one_round, Parsed, parse_loop, last, prepare_compiled_code_info,
  terse_sig_void, terse_sig_endfunc,
}
use shujit.Signature.Types.{
  ElemType, JavaType, boolean, byte, short, char, int, float, double, long, class_type, elem, array,
  print_elem, print_type, print_all, print_result, print_signature, size, terse, result_size,
  result_terse, NoSemicolon, GoodElem, Good, AllGood, GoodResult,
}

skip_class-name :
    (name rest : List ℕ) → NoSemicolon name → skip_class (name ++ (b';' ∷ rest)) ≡ some rest
unfolding skip_class
skip_class-name [] rest ok = refl
skip_class-name (c ∷ name) rest ok =
    let no : (c == b';') ≡ false = ground (arith, ok.0) in rw (no, skip_class-name name rest ok.1)

skip_class-L :
    (name rest : List ℕ)
    → NoSemicolon name
    → skip_class (b'L' ∷ (name ++ (b';' ∷ rest))) ≡ some rest
unfolding skip_class
skip_class-L name rest ok = skip_class-name name rest ok

skip_elem-print_elem :
    (dims : ℕ) (e : ElemType) (rest : List ℕ)
    → GoodElem e
    → skip_elem (skip_dims (replicate dims b'[' ++ (print_elem e ++ rest))) ≡ some rest
unfolding skip_elem skip_dims print_elem
skip_elem-print_elem zero boolean rest ok = refl
skip_elem-print_elem zero byte rest ok = refl
skip_elem-print_elem zero short rest ok = refl
skip_elem-print_elem zero char rest ok = refl
skip_elem-print_elem zero int rest ok = refl
skip_elem-print_elem zero float rest ok = refl
skip_elem-print_elem zero double rest ok = refl
skip_elem-print_elem zero long rest ok = refl
skip_elem-print_elem zero (class_type name) rest ok =
    rw (append_assoc name (b';' ∷ []) rest) (skip_class-name name rest ok)
skip_elem-print_elem (suc dims) e rest ok = skip_elem-print_elem dims e rest ok

-- The first character of a type and the others.
first : JavaType → ℕ
first (elem boolean) = b'Z'
first (elem byte) = b'B'
first (elem short) = b'S'
first (elem char) = b'C'
first (elem int) = b'I'
first (elem float) = b'F'
first (elem double) = b'D'
first (elem long) = b'J'
first (elem (class_type name)) = b'L'
first (array dims e) = b'['

others : JavaType → List ℕ
others (elem (class_type name)) = name ++ b';' ∷ []
others (elem e) = []
others (array dims e) = replicate dims b'[' ++ print_elem e

print_type-first : (t : JavaType) → print_type t ≡ first t ∷ others t
unfolding print_type print_elem first others
print_type-first (elem boolean) = refl
print_type-first (elem byte) = refl
print_type-first (elem short) = refl
print_type-first (elem char) = refl
print_type-first (elem int) = refl
print_type-first (elem float) = refl
print_type-first (elem double) = refl
print_type-first (elem long) = refl
print_type-first (elem (class_type name)) = refl
print_type-first (array dims e) = refl

one_round-first :
    (t : JavaType) (rest : List ℕ)
    → Good t
    → one_round (first t) (others t ++ rest) ≡ some ((size t, terse t), rest)
unfolding one_round first others
one_round-first (elem boolean) rest ok = refl
one_round-first (elem byte) rest ok = refl
one_round-first (elem short) rest ok = refl
one_round-first (elem char) rest ok = refl
one_round-first (elem int) rest ok = refl
one_round-first (elem float) rest ok = refl
one_round-first (elem double) rest ok = refl
one_round-first (elem long) rest ok = refl
one_round-first (elem (class_type name)) rest ok =
    rw (append_assoc name (b';' ∷ []) rest, skip_class-L name rest ok)
one_round-first (array dims e) rest ok =
    rw (append_assoc (replicate dims b'[') (print_elem e) rest, skip_elem-print_elem dims e rest ok)

one_round-end : (sig : List ℕ) → one_round b')' sig ≡ some ((0, terse_sig_endfunc), sig)
unfolding one_round
one_round-end sig = refl

first-not_end : (t : JavaType) → (first t == b')') ≡ false
unfolding first
first-not_end (elem boolean) = refl
first-not_end (elem byte) = refl
first-not_end (elem short) = refl
first-not_end (elem char) = refl
first-not_end (elem int) = refl
first-not_end (elem float) = refl
first-not_end (elem double) = refl
first-not_end (elem long) = refl
first-not_end (elem (class_type name)) = refl
first-not_end (array dims e) = refl

-- What a round adds.
abbrev added : Parsed → ℕ → ℕ → Option (List ℕ) → Parsed
added r n c ret = record {
  argsizes = r.argsizes ++ n ∷ [];
  terse_sig = r.terse_sig ++ c ∷ [];
  ret_sig = ret;
}

parse_loop-round :
    (fuel c : ℕ) (sig rest : List ℕ) (r : Parsed) (n t : ℕ)
    → one_round c sig ≡ some ((n, t), rest)
    → length r.argsizes < 255
    → parse_loop (suc fuel) (c ∷ sig) r
      ≡ parse_loop fuel rest (added r n t (if c == b')' then some rest else r.ret_sig))
unfolding parse_loop
parse_loop-round fuel c sig rest r n t e room =
    let small : ltb (length (r.argsizes ++ n ∷ [])) 256 ≡ true =
      ground (arith, length-append r.argsizes (n ∷ [])) in
    rw (e, small)

parse_loop-type :
    (fuel : ℕ) (t : JavaType) (rest : List ℕ) (r : Parsed)
    → Good t
    → length r.argsizes < 255
    → parse_loop (suc fuel) (print_type t ++ rest) r
      ≡ parse_loop fuel rest (added r (size t) (terse t) r.ret_sig)
parse_loop-type fuel t rest r ok room = rw (print_type-first t) (
    parse_loop-round fuel (first t) (others t ++ rest) rest r (size t) (terse t)
      (one_round-first t rest ok) room
    ∙ rw (first-not_end t))

parse_loop-nil : (fuel : ℕ) (r : Parsed) → parse_loop fuel [] r ≡ some r
unfolding parse_loop
parse_loop-nil fuel r = refl

parse_loop-result :
    (fuel : ℕ) (ret : Option JavaType) (r : Parsed)
    → GoodResult ret
    → length r.argsizes < 255
    → parse_loop (suc fuel) (print_result ret) r
      ≡ some (added r (result_size ret) (result_terse ret) r.ret_sig)
unfolding print_result one_round
parse_loop-result fuel none r ok room =
    parse_loop-round fuel b'V' [] [] r 0 terse_sig_void refl room ∙ parse_loop-nil fuel _
parse_loop-result fuel (some t) r ok room =
    ap (λ sig. parse_loop (suc fuel) sig r) (sym (append-nil (print_type t)))
    ∙ parse_loop-type fuel t [] r ok room
    ∙ parse_loop-nil fuel _

parse_loop-args :
    (args : List JavaType) (ret : Option JavaType) (fuel : ℕ) (r : Parsed)
    → AllGood args
    → GoodResult ret
    → length args + 2 ≤ fuel
    → length r.argsizes + length args < 254
    → parse_loop fuel (print_signature args ret) r
      ≡ some (record {
        argsizes = r.argsizes ++ (map size args ++ 0 ∷ result_size ret ∷ []);
        terse_sig = r.terse_sig ++ (map terse args ++ terse_sig_endfunc ∷ result_terse ret ∷ []);
        ret_sig = some (print_result ret);
      })
unfolding print_all
parse_loop-args args ret zero r ok ok' enough room = absurd (omega arith)
parse_loop-args args ret (suc zero) r ok ok' enough room = absurd (omega arith)
parse_loop-args [] ret (suc (suc fuel)) r ok ok' enough room =
    let r' = added r 0 terse_sig_endfunc (some (print_result ret)) in
    parse_loop-round (suc fuel) b')' (print_result ret) (print_result ret) r 0 terse_sig_endfunc
      (one_round-end (print_result ret)) (omega arith)
    ∙ parse_loop-result fuel ret r' ok' (omega (arith, length-append r.argsizes (0 ∷ [])))
    ∙ rw (
      append_assoc r.argsizes (0 ∷ []) (result_size ret ∷ []),
      append_assoc r.terse_sig (terse_sig_endfunc ∷ []) (result_terse ret ∷ []),
    )
parse_loop-args (t ∷ args) ret (suc (suc fuel)) r ok ok' enough room =
    let r' = added r (size t) (terse t) r.ret_sig in
    ap (λ sig. parse_loop (suc (suc fuel)) sig r)
      (append_assoc (print_type t) (print_all args) (b')' ∷ print_result ret))
    ∙ parse_loop-type (suc fuel) t (print_signature args ret) r ok.0 (omega arith)
    ∙ parse_loop-args args ret (suc fuel) r' ok.1 ok' (omega arith)
        (omega (arith, length-append r.argsizes (size t ∷ [])))
    ∙ rw (
      append_assoc r.argsizes (size t ∷ []) (map size args ++ 0 ∷ result_size ret ∷ []),
      append_assoc r.terse_sig (terse t ∷ [])
          (map terse args ++ terse_sig_endfunc ∷ result_terse ret ∷ []),
    )

print_all-length : (args : List JavaType) → length args ≤ length (print_all args)
unfolding print_all
print_all-length [] = omega arith
print_all-length (t ∷ args) =
    rw (print_type-first t)
      (omega (arith, print_all-length args, length-append (others t) (print_all args)))

print_result-length : (ret : Option JavaType) → 1 ≤ length (print_result ret)
unfolding print_result
print_result-length none = omega arith
print_result-length (some t) = rw (print_type-first t) (omega arith)

last-append : (ns : List ℕ) (n : ℕ) → last (ns ++ n ∷ []) ≡ some n
unfolding last
last-append [] n = refl
last-append (a ∷ []) n = refl
last-append (a ∷ b ∷ ns) n = last-append (b ∷ ns) n

abbrev pub receiver : Bool → List ℕ
receiver is_static = if is_static then [] else 1 ∷ []

-- The signature of a method with at most 252 arguments is parsed to the end. The argument sizes are
-- 1 for the receiver unless the method is static, then the size in words of each argument, 0 for the
-- closing parenthesis, and the size of the result, which is also `ret_size`. The terse signature has
-- one letter for each argument, the end of the arguments and the result, and `ret_sig` is the
-- signature of the result. Condition: no class name has a semicolon.
pub prepare_compiled_code_info-print_signature :
    (is_static : Bool) (args : List JavaType) (ret : Option JavaType)
    → AllGood args
    → GoodResult ret
    → length args ≤ 252
    → prepare_compiled_code_info is_static (b'(' ∷ print_signature args ret)
      ≡ some (
        record {
          argsizes = receiver is_static ++ (map size args ++ 0 ∷ result_size ret ∷ []);
          terse_sig = map terse args ++ terse_sig_endfunc ∷ result_terse ret ∷ [];
          ret_sig = some (print_result ret);
        },
        result_size ret,
      )
unfolding prepare_compiled_code_info
prepare_compiled_code_info-print_signature is_static args ret ok ok' few =
    let sig = print_signature args ret in
    let start : Parsed = record { argsizes = receiver is_static; terse_sig = []; ret_sig = none } in
    let one : length (receiver is_static) ≤ 1 = ground arith in
    let enough : length args + 2 ≤ length sig = omega (
      arith,
      length-append (print_all args) (b')' ∷ print_result ret),
      print_all-length args,
      print_result-length ret,
    ) in
    let sizes = receiver is_static ++ (map size args ++ 0 ∷ result_size ret ∷ []) in
    let at_end : last sizes ≡ some (result_size ret) =
      rw
        (
          ← append_assoc (map size args) (0 ∷ []) (result_size ret ∷ []),
          ← append_assoc (receiver is_static) (map size args ++ 0 ∷ []) (result_size ret ∷ []),
        )
        (last-append (receiver is_static ++ (map size args ++ 0 ∷ [])) (result_size ret)) in
    rw (parse_loop-args args ret (length sig) start ok ok' enough (omega arith), at_end)
