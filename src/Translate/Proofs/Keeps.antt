-- ===== src/Translate/Proofs/Keeps.antt =====
-- What the internal instructions keep, an instruction of the byte code keeps.
use shujit.Base.{
  false, ℕ, ◌+◌, ◌≡◌, refl, List, [], ◌∷◌, Option, none, some, ◌>>=◌, Option-cases, either_branch,
  inl, inr, arith, pos, ◌==◌, ◌||◌, not, ◌&&◌, get_elem?,
}
use Prim.Native.String.{String}
use text.Mathlib.Text.{◌==◌ as str_eq}
use shujit.Opcode.{
  opc_invokespecial, opc_return, opc_epilogue, opc_invokevirtual, opc_invokeinterface,
}
use shujit.Translate.Bytes.{get_uint16, opcode_length}
use shujit.Translate.Names.{math_inlined, first_match, math_methods, abs_methods}
use shujit.Translate.Vm.{Vm, Method, Resolved, resolved, no_class, no_member, other_error, State}
use shujit.Translate.Process.{Returned, increment, exception, process_an_opcode, process_all}
use shujit.Translate.Plan.{Plan, around, returns, invokes, default_case, skipped, fatal, plan}
use shujit.Translate.Invoke.{
  static_core, normalized, recursive_call, ignored, virtual_calls, special_calls, static_calls,
  direct, allowed, invoke_resolved, invoke_method, invoke,
}
use shujit.Translate.Loop.{by_plan, one_instruction}
use shujit.Translate.Proofs.AddsAt.{NoEpilogue}
use shujit.Translate.Proofs.Parts.{
  Clean, plan-Clean, Gives, GivesNext, Gives-bind, then-Gives, then-GivesNext, GivesNext-bind,
}

recursive_call-NoEpilogue : (n : ℕ) → NoEpilogue (recursive_call n ∷ [])
recursive_call-NoEpilogue n = ground arith

abbrev six :
    (false ≡ false)
    × ((false ≡ false)
        × ((false ≡ false) × ((false ≡ false) × ((false ≡ false) × ((false ≡ false) × Unit {0})))))
six = (refl, (refl, (refl, (refl, (refl, (refl, tt))))))

special_calls-NoEpilogue : (m : Method) → NoEpilogue (special_calls m)
special_calls-NoEpilogue m =
    either_branch NoEpilogue
      (str_eq m.class_name "java/io/BufferedInputStream" && str_eq m.name "ensureOpen") (refl, tt)
      six

OtherOpcode : Option ℕ → Type 0
OtherOpcode none = Unit {0}
OtherOpcode (some o) = (o == opc_epilogue) ≡ false

AllOther : List (String × ℕ) → Type 0
AllOther [] = Unit {0}
AllOther ((name, o) ∷ rest) = ((o == opc_epilogue) ≡ false) × AllOther rest

first_match-OtherOpcode :
    (key : String) (xs : List (String × ℕ)) → AllOther xs → OtherOpcode (first_match key xs)
unfolding OtherOpcode AllOther
first_match-OtherOpcode key [] h = tt
first_match-OtherOpcode key ((name, o) ∷ rest) h =
    either_branch OtherOpcode (str_eq key name) h.0 (first_match-OtherOpcode key rest h.1)

first_of-OtherOpcode :
    (a b : Option ℕ)
    → OtherOpcode a
    → OtherOpcode b
    → OtherOpcode (elim a as (λ r. Option ℕ) [ none ↦ b | some opcode ↦ some opcode ])
unfolding OtherOpcode
first_of-OtherOpcode none b ha hb = hb
first_of-OtherOpcode (some o) b ha hb = ha

math_inlined-OtherOpcode : (c m sig : String) → OtherOpcode (math_inlined c m sig)
unfolding math_inlined OtherOpcode AllOther
math_inlined-OtherOpcode c m sig =
    let by_name = first_match-OtherOpcode m math_methods (
      refl,
      (refl, (refl, (refl, (refl, (refl, (refl, (refl, (refl, (refl, (refl, (refl, tt))))))))))),
    ) in
    let by_signature = first_match-OtherOpcode sig abs_methods (refl, (refl, (refl, (refl, tt)))) in
    first_of-OtherOpcode _ _
      (either_branch OtherOpcode (str_eq c "java/lang/Math") {b = none} by_name tt)
      (either_branch OtherOpcode
        ((str_eq c "java/lang/Math" || str_eq c "java/lang/StrictMath") && str_eq m "abs")
        {b = none} by_signature tt)

call_or_inlined-NoEpilogue :
    (m : Method) (o : Option ℕ)
    → OtherOpcode o
    → NoEpilogue (elim o as (λ r. List ℕ) [ some opcode ↦ opcode ∷ [] | none ↦ static_core m ])
unfolding OtherOpcode
call_or_inlined-NoEpilogue m (some o) h = (h, tt)
call_or_inlined-NoEpilogue m none h = ground arith

static_calls-NoEpilogue : (m : Method) → NoEpilogue (static_calls m)
static_calls-NoEpilogue m =
    call_or_inlined-NoEpilogue m _ (math_inlined-OtherOpcode m.class_name m.name m.signature)

virtual_calls-NoEpilogue : (m : Method) → NoEpilogue (virtual_calls m)
virtual_calls-NoEpilogue m = ground arith

module _ (vm : Vm) (pc : ℕ) (P : State → Type 0)
    (all_kept : (s : State) (opcodes : List ℕ)
      → NoEpilogue opcodes
      → P s
      → Gives P (process_all vm s opcodes (pos pc)))
    (code_kept : (s : State) (c : List ℕ) → P s → P (record s { code = c }))
    (count_kept : (s : State) (n : ℕ) → P s → P (record s { ninsn = n })) where
  ignored-Gives : (s : State) (m : Method) → P s → Gives P (ignored vm s pc m)
  unfolding ignored
  ignored-Gives s m p =
      then-Gives P _ _ (all_kept s _ (ground arith) p) (λ s' p'. code_kept s' _ p')

  direct-Gives :
      (fuel : ℕ) (s : State) (opcode byteinc : ℕ) (m : Method)
      → P s
      → Gives P (direct vm fuel s opcode pc byteinc m)
  unfolding direct
  direct-Gives fuel s opcode byteinc m p =
      either_branch (Gives P) (not m.native_or_abstract && m.first_opcode == opc_return)
        (ignored-Gives s m p)
        (Gives-bind P _ _ (λ tail.
          all_kept s _
            (either_branch NoEpilogue tail (refl, recursive_call-NoEpilogue m.args_size)
              (either_branch NoEpilogue (opcode == opc_invokespecial) (special_calls-NoEpilogue m)
                (static_calls-NoEpilogue m)))
            p))

  invoke_resolved-Gives :
      (fuel : ℕ) (s : State) (opcode byteinc : ℕ) (m : Method)
      → P s
      → Gives P (invoke_resolved vm fuel s opcode pc byteinc m)
  unfolding invoke_resolved
  invoke_resolved-Gives fuel s opcode byteinc m p =
      either_branch (Gives P) (not (allowed vm m)) (all_kept s _ (refl, tt) p) (
        either_branch (Gives P) (opcode == opc_invokevirtual)
          (either_branch (Gives P) (m.is_private || m.is_final)
            (direct-Gives fuel s opc_invokespecial byteinc m p)
            (all_kept s _ (virtual_calls-NoEpilogue m) p))
          (either_branch (Gives P) (opcode == opc_invokeinterface) (all_kept s _ six p)
            (direct-Gives fuel s opcode byteinc m p)))

  invoke_method-GivesNext :
      (fuel : ℕ) (s : State) (opcode byteinc : ℕ) (m : Resolved Method)
      → P s
      → GivesNext P (invoke_method vm fuel s opcode pc byteinc m)
  unfolding invoke_method
  invoke_method-GivesNext fuel s opcode byteinc (resolved m) p =
      then-GivesNext P _ _ (invoke_resolved-Gives fuel s opcode byteinc m p) (λ s' p'. p')
  invoke_method-GivesNext fuel s opcode byteinc no_class p =
      then-GivesNext P _ _ (all_kept s _ (refl, tt) p) (λ s' p'. p')
  invoke_method-GivesNext fuel s opcode byteinc no_member p =
      then-GivesNext P _ _ (all_kept s _ (refl, tt) p) (λ s' p'. p')
  invoke_method-GivesNext fuel s opcode byteinc other_error p = tt

  invoke-GivesNext :
      (fuel : ℕ) (s : State) (opcode : ℕ) → P s → GivesNext P (invoke vm fuel s opcode pc)
  unfolding invoke
  invoke-GivesNext fuel s opcode p = GivesNext-bind P (get_uint16 s.code (pos pc) 1) _ (λ operand.
      GivesNext-bind P (get_elem? opcode_length (normalized opcode)) _ (λ byteinc.
        invoke_method-GivesNext fuel s (normalized opcode) byteinc (vm.method operand) p))

  around_next :
      (s : State) (after : List ℕ)
      → NoEpilogue after
      → (o : Option (State × Returned)) → ((s2 : State) (r : Returned) → o ≡ some (s2, r) → P s2)
      → GivesNext P (do
        (s2, r) ← o
        s3 ← process_all vm s2 after (pos pc)
        elim r as (λ r. Option (Option (State × ℕ))) [
          | increment inc ↦ some (some (s3, inc))
          | exception ↦ none
        ])
  around_next s after clean none k = tt
  around_next s after clean (some (s2, increment inc)) k =
      then-GivesNext P _ _ (all_kept s2 after clean (k s2 (increment inc) refl)) (λ s3 p3. p3)
  around_next s after clean (some (s2, exception)) k =
      then-GivesNext P _ _ (all_kept s2 after clean (k s2 exception refl)) (λ s3 p3. tt)

  default_next :
      (o : Option (State × Returned))
      → ((s1 : State) (r : Returned) → o ≡ some (s1, r) → P s1)
      → GivesNext P (do
        (s1, r) ← o
        elim r as (λ r. Option (Option (State × ℕ))) [
          | increment inc ↦ some (some (s1, inc))
          | exception ↦ some none
        ])
  default_next none k = tt
  default_next (some (s1, increment inc)) k = k s1 (increment inc) refl
  default_next (some (s1, exception)) k = tt

  by_plan-GivesNext :
      (fuel : ℕ) (s : State) (opcode : ℕ) (pl : Plan)
      → Clean pl
      → ((s s' : State) (r : Returned)
          → P s
          → process_an_opcode vm s opcode (pos pc) ≡ some (s', r)
          → P s')
      → P s
      → GivesNext P (by_plan vm fuel s opcode pc pl)
  unfolding by_plan
  by_plan-GivesNext fuel s opcode (around before after) clean k p =
      then-GivesNext P (process_all vm s before (pos pc)) _ (all_kept s before clean.0 p) (λ s1 p1.
        around_next s1 after clean.1 (process_an_opcode vm s1 opcode (pos pc))
          (λ s2 r. k s1 s2 r p1))
  by_plan-GivesNext fuel s opcode (returns opcodes) clean k p =
      then-GivesNext P _ _ (all_kept s _ clean p) (λ s' p'. p')
  by_plan-GivesNext fuel s opcode invokes clean k p = invoke-GivesNext fuel s opcode p
  by_plan-GivesNext fuel s opcode default_case clean k p =
      default_next (process_an_opcode vm s opcode (pos pc)) (λ s' r. k s s' r p)
  by_plan-GivesNext fuel s opcode skipped clean k p = p
  by_plan-GivesNext fuel s opcode fatal clean k p = tt

  pub one_instruction-GivesNext :
      (fuel : ℕ) (s : State)
      → ((s1 s' : State) (r : Returned) (opcode : ℕ)
          → get_elem? s.code pc ≡ some opcode
          → P s1
          → process_an_opcode vm s1 opcode (pos pc) ≡ some (s', r)
          → P s')
      → P s
      → GivesNext P (one_instruction vm fuel s pc)
  unfolding one_instruction
  one_instruction-GivesNext fuel s k p = elim (Option-cases (get_elem? s.code pc)) [
    | inl e ↦ rw e tt
    | inr (opcode, e) ↦ rw e (
        by_plan-GivesNext fuel (record s { ninsn = s.ninsn + 1 }) opcode (plan vm opcode)
          (plan-Clean vm opcode) (λ s1 s' r. k s1 s' r opcode e) (count_kept s _ p))
  ]
