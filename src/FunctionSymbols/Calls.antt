-- ===== src/FunctionSymbols/Calls.antt =====
-- Every call goes to its function.
use shujit.Base.{
  ℕ, ◌+◌, ◌%◌, ◌^◌, ◌≤◌, ◌<◌, ◌≡◌, ◌≢◌, refl, ap, sym, ◌∙◌, subst, ◌⊎◌, inl, inr, List, [], ◌∷◌,
  ◌++◌, some, ◌==◌, false, length, length-take, take, drop, get_or, get_elem?-eq-get_or,
  some-injective, get_or-append, write_at, length-write_at, get_elem?-write_at, arith,
}
use shujit.PcEntry.{PcEntry, state}
use shujit.Jump.{le_bytes, displacement}
use shujit.DynamicConstants.Steps.{word_at}
use shujit.FunctionSymbols.{Function, write_call, resolve_functions, resolve_function_symbols}

-- The operand of a call, and its function.
pub record Call : Type 0 where
  pub place : ℕ
  pub function : ℕ

abbrev pub calls_of : ℕ → List Function → List Call
calls_of nativeoff [] = []
calls_of nativeoff (f ∷ functions) =
    record { place = nativeoff + f.offset; function = f.address } ∷ calls_of nativeoff functions

abbrev pub calls : (ℕ → ℕ → List Function) → List PcEntry → List Call
calls func_table [] = []
calls func_table (e ∷ entries) =
    calls_of e.nativeoff (func_table e.opcode (state e)) ++ calls func_table entries

-- The operands do not overlap.
abbrev pub IsApart : Call → List Call → Type 0
IsApart c [] = Unit {0}
IsApart c (d ∷ ds) = ((d.place + 4 ≤ c.place) ⊎ (c.place + 4 ≤ d.place)) × IsApart c ds

abbrev pub AllApart : List Call → Type 0
AllApart [] = Unit {0}
AllApart (c ∷ cs) = IsApart c cs × AllApart cs

-- Every function is there, in 32 bits, and every operand is inside code of so many bytes.
abbrev pub AllInside : ℕ → List Call → Type 0
AllInside len [] = Unit {0}
AllInside len (c ∷ cs) =
    ((c.function ≢ 0) × (c.function < 2 ^ 32) × (c.place + 4 ≤ len)) × AllInside len cs

-- The processor adds the operand to the address behind it.
abbrev pub Reaches : ℕ → List ℕ → Call → Type 0
Reaches start code c = (start + c.place + 4 + word_at code c.place) % 2 ^ 32 ≡ c.function

abbrev pub AllReach : ℕ → List ℕ → List Call → Type 0
AllReach start code [] = Unit {0}
AllReach start code (c ∷ cs) = Reaches start code c × AllReach start code cs

get_or-write_at :
    (i : ℕ) (ys xs : List ℕ) (k : ℕ)
    → k < length xs
    → i + length ys ≤ length xs
    → (k < i) ⊎ (i + length ys ≤ k)
    → get_or (write_at i ys xs) k 0 ≡ get_or xs k 0
get_or-write_at i ys xs k h room d = some-injective _ _ (
    sym
      (get_elem?-eq-get_or (write_at i ys xs) k 0 (omega (arith, h, length-write_at i ys xs room)))
    ∙ get_elem?-write_at i ys xs k h d
    ∙ get_elem?-eq-get_or xs k 0 h)

outside :
    (c d : Call) (k : ℕ)
    → (d.place + 4 ≤ c.place) ⊎ (c.place + 4 ≤ d.place)
    → c.place ≤ k
    → k < c.place + 4
    → (k < d.place) ⊎ (d.place + 4 ≤ k)
outside c d k (inl after) low high = inr (omega arith)
outside c d k (inr before) low high = inl (omega arith)

word_at-append :
    (pre rest : List ℕ) (w : ℕ)
    → w < 2 ^ 32
    → word_at (pre ++ (le_bytes w ++ rest)) (length pre) ≡ w
word_at-append pre rest w h =
    let read = λ (k : ℕ). get_or-append pre (le_bytes w ++ rest) k 0 in
    let here : get_or (pre ++ (le_bytes w ++ rest)) (length pre) 0 ≡ w % 256 =
      ap (λ (k : ℕ). get_or (pre ++ (le_bytes w ++ rest)) k 0) (omega arith) ∙ read 0 in
    rw (here, read 1, read 2, read 3) (omega arith)

word_at-write_at :
    (at w : ℕ) (code : List ℕ)
    → w < 2 ^ 32
    → at + 4 ≤ length code
    → word_at (write_at at (le_bytes w) code) at ≡ w
unfolding write_at
word_at-write_at at w code h room =
    let n : length (take at code) ≡ at = omega (arith, length-take at code) in
    subst (λ (k : ℕ). word_at (take at code ++ (le_bytes w ++ drop (at + 4) code)) k ≡ w) n
      (word_at-append (take at code) (drop (at + 4) code) w h)

module _ (start : ℕ) where
  -- A call that is written reaches its function.
  write_call-Reaches :
      (c : Call) (code : List ℕ)
      → c.function < 2 ^ 32
      → c.place + 4 ≤ length code
      → Reaches start (write_call start c.place c.function code) c
  unfolding write_call
  write_call-Reaches c code small room =
      rw
        (word_at-write_at c.place (displacement c.function (start + c.place)) code (omega arith)
          room)
        (omega (arith, small))

  -- It leaves the others as they are.
  write_call-apart :
      (c d : Call) (code : List ℕ)
      → c.place + 4 ≤ length code
      → d.place + 4 ≤ length code
      → (d.place + 4 ≤ c.place) ⊎ (c.place + 4 ≤ d.place)
      → word_at (write_call start d.place d.function code) c.place ≡ word_at code c.place
  unfolding write_call
  write_call-apart c d code room room' apart =
      let bytes = le_bytes (displacement d.function (start + d.place)) in
      let same : (k : ℕ)
          → c.place ≤ k
          → k < c.place + 4
          → get_or (write_at d.place bytes code) k 0 ≡ get_or code k 0 =
        λ k low high.
          get_or-write_at d.place bytes code k (omega arith) room' (outside c d k apart low high) in
      rw (
        same c.place (omega arith) (omega arith),
        same (c.place + 1) (omega arith) (omega arith),
        same (c.place + 2) (omega arith) (omega arith),
        same (c.place + 3) (omega arith) (omega arith),
      )

  -- All calls, one behind the other.
  abbrev write_calls : List Call → List ℕ → List ℕ
  write_calls [] code = code
  write_calls (c ∷ cs) code = write_calls cs (write_call start c.place c.function code)

  length-write_call :
      (c : Call) (code : List ℕ)
      → c.place + 4 ≤ length code
      → length (write_call start c.place c.function code) ≡ length code
  unfolding write_call
  length-write_call c code room =
      length-write_at c.place (le_bytes (displacement c.function (start + c.place))) code room

  inside_written :
      (c : Call) (cs : List Call) (code : List ℕ)
      → c.place + 4 ≤ length code
      → AllInside (length code) cs
      → AllInside (length (write_call start c.place c.function code)) cs
  inside_written c cs code room =
      subst (λ (n : ℕ). AllInside n cs) (sym (length-write_call c code room))

  length-write_calls :
      (cs : List Call) (code : List ℕ)
      → AllInside (length code) cs
      → length (write_calls cs code) ≡ length code
  length-write_calls [] code i = refl
  length-write_calls (c ∷ cs) code i =
      length-write_calls cs (write_call start c.place c.function code)
        (inside_written c cs code i.0.2 i.1)
      ∙ length-write_call c code i.0.2

  write_calls-keeps :
      (c : Call) (ds : List Call) (code : List ℕ)
      → IsApart c ds
      → AllInside (length code) ds
      → c.place + 4 ≤ length code
      → word_at (write_calls ds code) c.place ≡ word_at code c.place
  write_calls-keeps c [] code a i room = refl
  write_calls-keeps c (d ∷ ds) code a i room =
      write_calls-keeps c ds (write_call start d.place d.function code) a.1
        (inside_written d ds code i.0.2 i.1) (omega (arith, room, length-write_call d code i.0.2))
      ∙ write_call-apart c d code room i.0.2 a.0

  write_calls-AllReach :
      (cs : List Call) (code : List ℕ)
      → AllApart cs
      → AllInside (length code) cs
      → AllReach start (write_calls cs code) cs
  write_calls-AllReach [] code a i = tt
  write_calls-AllReach (c ∷ cs) code a i =
      let code' = write_call start c.place c.function code in
      let kept =
        write_calls-keeps c cs code' a.0 (inside_written c cs code i.0.2 i.1)
          (omega (arith, i.0.2, length-write_call c code i.0.2)) in
      (
        rw kept (write_call-Reaches c code i.0.1 i.0.2),
        write_calls-AllReach cs code' a.1 (inside_written c cs code i.0.2 i.1),
      )

  write_calls-append :
      (cs ds : List Call) (code : List ℕ)
      → write_calls (cs ++ ds) code ≡ write_calls ds (write_calls cs code)
  write_calls-append [] ds code = refl
  write_calls-append (c ∷ cs) ds code =
      write_calls-append cs ds (write_call start c.place c.function code)

  -- Every function is there.
  abbrev AllFound : List Call → Type 0
  AllFound [] = Unit {0}
  AllFound (c ∷ cs) = (c.function ≢ 0) × AllFound cs

  AllInside-AllFound : (len : ℕ) (cs : List Call) → AllInside len cs → AllFound cs
  AllInside-AllFound len [] i = tt
  AllInside-AllFound len (c ∷ cs) i = (i.0.0, AllInside-AllFound len cs i.1)

  split-AllFound : (cs ds : List Call) → AllFound (cs ++ ds) → AllFound cs × AllFound ds
  split-AllFound [] ds f = (tt, f)
  split-AllFound (c ∷ cs) ds f = let (g, h) = split-AllFound cs ds f.1 in ((f.0, g), h)

  resolve_functions-write_calls :
      (nativeoff : ℕ) (functions : List Function) (code : List ℕ)
      → AllFound (calls_of nativeoff functions)
      → resolve_functions start nativeoff functions code
        ≡ some (write_calls (calls_of nativeoff functions) code)
  unfolding resolve_functions
  resolve_functions-write_calls nativeoff [] code f = refl
  resolve_functions-write_calls nativeoff (x ∷ functions) code f =
      let found : (x.address == 0) ≡ false = ground (arith, f.0) in
      rw found (
        resolve_functions-write_calls nativeoff functions
          (write_call start (nativeoff + x.offset) x.address code) f.1)

  module _ (func_table : ℕ → ℕ → List Function) where
    symbols-write_calls :
        (entries : List PcEntry) (code : List ℕ)
        → AllFound (calls func_table entries)
        → resolve_function_symbols func_table start entries code
          ≡ some (write_calls (calls func_table entries) code)
    unfolding resolve_function_symbols
    symbols-write_calls [] code f = refl
    symbols-write_calls (e ∷ entries) code f =
        let functions = func_table e.opcode (state e) in
        let here = calls_of e.nativeoff functions in
        let (g, h) = split-AllFound here (calls func_table entries) f in
        rw (resolve_functions-write_calls e.nativeoff functions code g)
          (symbols-write_calls entries (write_calls here code) h)
        ∙ ap some (sym (write_calls-append here (calls func_table entries) code))

    -- When all functions of the calls in the table have addresses, which fit in 32 bits, and the operands of the calls
    -- lie in the code and do not overlap, then resolveFunctionSymbols ends, keeps the length of the code, and leaves
    -- every call going to its function, from the address that the code has.
    pub resolve_function_symbols-AllReach :
        (entries : List PcEntry) (code : List ℕ)
        → AllApart (calls func_table entries)
        → AllInside (length code) (calls func_table entries)
        → (code' : List ℕ) × (resolve_function_symbols func_table start entries code ≡ some code')
          × (length code' ≡ length code)
          × AllReach start code' (calls func_table entries)
    resolve_function_symbols-AllReach entries code a i =
        let cs = calls func_table entries in
        (
          write_calls cs code,
          symbols-write_calls entries code (AllInside-AllFound (length code) cs i),
          length-write_calls cs code i,
          write_calls-AllReach cs code a i,
        )
