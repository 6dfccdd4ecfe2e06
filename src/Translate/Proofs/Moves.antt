-- ===== src/Translate/Proofs/Moves.antt =====
-- Which instructions move the loop over the byte code on.
use shujit.Base.{
  ℕ, ◌+◌, ◌<◌, ◌⊎◌, true, ==_iff, ◌^◌, List, either_branch, ◌≢◌, arith, ltb, ◌==◌, ◌||◌, ◌&&◌, Bool,
  false, Bool-cases, subst, ◌≡◌, [], ◌∷◌, Option, none, some, ◌>>=◌, Option-cases, inl, inr, pos,
  get_elem?,
}
use shujit.Opcode.{
  opc_nonnull_quick, opc_xxxunusedxxx, opc_monitorenter, opc_monitorexit, opc_epilogue,
  opc_tableswitch, opc_lookupswitch,
}
use shujit.Translate.Bytes.{among, get_uint16, opcode_length, instruction_length}
use shujit.Translate.Vm.{Vm, Method, Resolved, resolved, no_class, no_member, other_error, State}
use shujit.Translate.Decode.{Decoded, insn, omitted, failed}
use shujit.Translate.Objects.{decode, check_access}
use shujit.Translate.Process.{
  Returned, increment, exception, passed, finish, process_an_opcode, process_all,
}
use shujit.Translate.Plan.{
  Plan, around, returns, invokes, default_case, skipped, fatal, plan, plan_float,
}
use shujit.Translate.Invoke.{normalized, invoke_resolved, invoke_method, invoke}
use shujit.Translate.Proofs.Positive.{
  Positive, switches, not_forward, instruction_length-Positive, normalized-Positive,
}
use shujit.Translate.Proofs.Bounded.{
  Bounded, BoundedBy, AllBounded, decode-Bounded, check_access-Bounded,
}
use shujit.Translate.Loop.{by_plan, one_instruction}

-- The instructions that are not passed: the unused one, which has the length 0, the numbers above the byte code,
-- and `monitorenter` and `monitorexit` when locks are ignored.
abbrev pub stalls : Vm → ℕ → Bool
stalls vm opcode =
    opcode == opc_xxxunusedxxx
    || (ltb opc_nonnull_quick opcode
        || (vm.opt_ignlock && among opcode (opc_monitorenter ∷ opc_monitorexit ∷ [])))

-- An instruction that does not lead forward: one that stalls, or a switch whose length is 0 or negative as an `int`.
abbrev pub stands : Vm → List ℕ → ℕ → ℕ → Bool
stands vm code opcode pc =
    stalls vm opcode || (among opcode switches && not_forward (instruction_length code opcode pc))

stalls_other :
    (vm : Vm) (opcode : ℕ)
    → stalls vm opcode ≡ false
    → (opcode ≢ opc_xxxunusedxxx) × (ltb opc_nonnull_quick opcode ≡ false)
stalls_other vm opcode e = (ground arith, ground arith)

passed-Positive :
    (vm : Vm) (s : State) (opcode pc byteinc : ℕ)
    → stands vm s.code opcode pc ≡ false
    → Bounded byteinc
    → Positive (passed s opcode (pos pc) byteinc)
unfolding passed Positive
passed-Positive vm s opcode pc byteinc moves small =
    let (un, under) = stalls_other vm opcode (ground arith) in
    let on : (among opcode switches && not_forward (instruction_length s.code opcode pc)) ≡ false =
      ground arith in
    elim (Bool-cases (byteinc == 0)) [
      | inl e ↦ rw e (rw under (instruction_length-Positive s.code opcode pc un on))
      | inr e ↦ rw e (ground arith)
    ]

-- An instruction with a result moves on.
Moves : Option (State × Returned) → Type 0
Moves none = Unit {0}
Moves (some (s, increment inc)) = (0 < inc) × (inc < 2 ^ 31)
Moves (some (s, exception)) = Unit {0}

Moves-bind :
    {A : Type 0} (o : Option A) (f : A → Option (State × Returned))
    → ((a : A) → Moves (f a))
    → Moves (o >>= f)
unfolding Moves
Moves-bind none f h = tt
Moves-bind (some a) f h = h a

Moves-bound :
    (o : Option Decoded) (f : Decoded → Option (State × Returned))
    → AllBounded o
    → ((d : Decoded) → BoundedBy d → Moves (f d))
    → Moves (o >>= f)
unfolding Moves
Moves-bound none f b h = tt
Moves-bound (some d) f b h = h d b

finish-Moves :
    (vm : Vm) (s : State) (opcode pc : ℕ) (d : Decoded)
    → stands vm s.code opcode pc ≡ false
    → BoundedBy d
    → Moves (finish vm s opcode (pos pc) d)
unfolding finish Moves Positive
finish-Moves vm s opcode pc (insn code_opcode operand byteinc) moves small =
    elim (Option-cases (passed s opcode (pos pc) byteinc)) [
      | inl e ↦ rw e tt
      | inr (inc, e) ↦ rw e (subst Positive e (passed-Positive vm s opcode pc byteinc moves small))
    ]
finish-Moves vm s opcode pc omitted moves small = omega arith
finish-Moves vm s opcode pc failed moves small = tt

process_an_opcode-Moves :
    (vm : Vm) (s : State) (opcode pc : ℕ)
    → stands vm s.code opcode pc ≡ false
    → Moves (process_an_opcode vm s opcode (pos pc))
unfolding process_an_opcode Moves
process_an_opcode-Moves vm s opcode pc moves =
    Moves-bound (decode vm s.code (pos pc) opcode) _ (decode-Bounded vm s.code (pos pc) opcode)
      (λ d small. Moves-bound (check_access vm d) _ (check_access-Bounded vm d small) (λ d' small'.
        finish-Moves vm _ opcode pc d'
          (either_branch (λ (s1 : State). stands vm s1.code opcode pc ≡ false)
            (opcode == opc_epilogue) moves moves)
          small'))

-- The same for a pass through the loop.
MovesOn : Option (Option (State × ℕ)) → Type 0
MovesOn none = Unit {0}
MovesOn (some none) = Unit {0}
MovesOn (some (some (s, inc))) = (0 < inc) × (inc < 2 ^ 31)

MovesOn-bind :
    {A : Type 0} (o : Option A) (f : A → Option (Option (State × ℕ)))
    → ((a : A) → MovesOn (f a))
    → MovesOn (o >>= f)
unfolding MovesOn
MovesOn-bind none f h = tt
MovesOn-bind (some a) f h = h a

after_Moves :
    (o : Option (State × Returned)) (f : State → Option State)
    → Moves o
    → MovesOn (do
      (s2, r) ← o
      s3 ← f s2
      elim r as (λ r. Option (Option (State × ℕ))) [
        | increment inc ↦ some (some (s3, inc))
        | exception ↦ none
      ])
unfolding Moves MovesOn
after_Moves none f h = tt
after_Moves (some (s2, increment inc)) f h = MovesOn-bind (f s2) _ (λ s3. h)
after_Moves (some (s2, exception)) f h = MovesOn-bind (f s2) _ (λ s3. tt)

default_Moves :
    (o : Option (State × Returned))
    → Moves o
    → MovesOn (do
      (s1, r) ← o
      elim r as (λ r. Option (Option (State × ℕ))) [
        | increment inc ↦ some (some (s1, inc))
        | exception ↦ some none
      ])
unfolding Moves MovesOn
default_Moves none h = tt
default_Moves (some (s1, increment inc)) h = h
default_Moves (some (s1, exception)) h = tt

invoke_method-MovesOn :
    (vm : Vm) (fuel : ℕ) (s : State) (opcode pc byteinc : ℕ) (m : Resolved Method)
    → (0 < byteinc) × (byteinc < 2 ^ 31)
    → MovesOn (invoke_method vm fuel s opcode pc byteinc m)
unfolding invoke_method MovesOn
invoke_method-MovesOn vm fuel s opcode pc byteinc (resolved m) lt =
    MovesOn-bind (invoke_resolved vm fuel s opcode pc byteinc m) _ (λ s'. lt)
invoke_method-MovesOn vm fuel s opcode pc byteinc no_class lt =
    MovesOn-bind (process_all vm s _ (pos pc)) _ (λ s'. lt)
invoke_method-MovesOn vm fuel s opcode pc byteinc no_member lt =
    MovesOn-bind (process_all vm s _ (pos pc)) _ (λ s'. lt)
invoke_method-MovesOn vm fuel s opcode pc byteinc other_error lt = tt

invoke-MovesOn :
    (vm : Vm) (fuel : ℕ) (s : State) (opcode pc : ℕ) → MovesOn (invoke vm fuel s opcode pc)
unfolding invoke MovesOn Positive
invoke-MovesOn vm fuel s opcode pc = MovesOn-bind (get_uint16 s.code (pos pc) 1) _ (λ operand.
    elim (Option-cases (get_elem? opcode_length (normalized opcode))) [
      | inl e ↦ rw e tt
      | inr (byteinc, e) ↦ rw e (
          invoke_method-MovesOn vm fuel s (normalized opcode) pc byteinc (vm.method operand)
            (subst Positive e (normalized-Positive opcode)))
    ])

-- The plans for instructions that move on: a switch is looked at as it is.
NoSkip : ℕ → Plan → Type 0
NoSkip opcode (around before after) = among opcode switches ≡ false
NoSkip opcode (returns opcodes) = Unit {0}
NoSkip opcode invokes = Unit {0}
NoSkip opcode default_case = Unit {0}
NoSkip opcode skipped = ⊥
NoSkip opcode fatal = Unit {0}

IsSkipped : Plan → Type 0
IsSkipped (around before after) = ⊥
IsSkipped (returns opcodes) = ⊥
IsSkipped invokes = ⊥
IsSkipped default_case = ⊥
IsSkipped skipped = Unit {0}
IsSkipped fatal = ⊥

plan-IsSkipped : (vm : Vm) (opcode : ℕ) → stalls vm opcode ≡ false → IsSkipped (plan vm opcode) → ⊥
unfolding plan plan_float IsSkipped
plan-IsSkipped vm opcode moves = ground arith

other_NoSkip :
    (opcode : ℕ) (p : Plan) → among opcode switches ≡ false → (IsSkipped p → ⊥) → NoSkip opcode p
unfolding NoSkip IsSkipped
other_NoSkip opcode (around before after) other h = other
other_NoSkip opcode (returns opcodes) other h = tt
other_NoSkip opcode invokes other h = tt
other_NoSkip opcode default_case other h = tt
other_NoSkip opcode skipped other h = h tt
other_NoSkip opcode fatal other h = tt

switch_NoSkip :
    (vm : Vm) (opcode : ℕ)
    → (opcode ≡ opc_tableswitch) ⊎ (opcode ≡ opc_lookupswitch)
    → NoSkip opcode (plan vm opcode)
unfolding plan NoSkip
switch_NoSkip vm opcode (inl e) = rw e tt
switch_NoSkip vm opcode (inr e) = rw e tt

which_switch :
    (opcode : ℕ)
    → among opcode switches ≡ true
    → (opcode ≡ opc_tableswitch) ⊎ (opcode ≡ opc_lookupswitch)
which_switch opcode h = elim (Bool-cases (opcode == opc_tableswitch)) [
  | inl e ↦ inl ((==_iff opcode opc_tableswitch).0 e)
  | inr other ↦ inr (ground arith)
]

plan-NoSkip : (vm : Vm) (opcode : ℕ) → stalls vm opcode ≡ false → NoSkip opcode (plan vm opcode)
plan-NoSkip vm opcode moves = elim (Bool-cases (among opcode switches)) [
  | inl switch ↦ switch_NoSkip vm opcode (which_switch opcode switch)
  | inr other ↦ other_NoSkip opcode (plan vm opcode) other (plan-IsSkipped vm opcode moves)
]

by_plan-MovesOn :
    (vm : Vm) (fuel : ℕ) (s : State) (opcode pc : ℕ) (p : Plan)
    → stands vm s.code opcode pc ≡ false
    → NoSkip opcode p
    → MovesOn (by_plan vm fuel s opcode pc p)
unfolding by_plan MovesOn NoSkip
by_plan-MovesOn vm fuel s opcode pc (around before after) moves skip =
    MovesOn-bind (process_all vm s before (pos pc)) _ (λ s1.
      after_Moves (process_an_opcode vm s1 opcode (pos pc)) (λ s2. process_all vm s2 after (pos pc))
        (process_an_opcode-Moves vm s1 opcode pc (ground arith)))
by_plan-MovesOn vm fuel s opcode pc (returns opcodes) moves skip =
    MovesOn-bind (process_all vm s opcodes (pos pc)) _ (λ s1. omega arith)
by_plan-MovesOn vm fuel s opcode pc invokes moves skip = invoke-MovesOn vm fuel s opcode pc
by_plan-MovesOn vm fuel s opcode pc default_case moves skip =
    default_Moves (process_an_opcode vm s opcode (pos pc))
      (process_an_opcode-Moves vm s opcode pc moves)
by_plan-MovesOn vm fuel s opcode pc skipped moves skip = absurd skip
by_plan-MovesOn vm fuel s opcode pc fatal moves skip = tt

pub one_instruction_advances :
    (vm : Vm) (fuel : ℕ) (s s' : State) (opcode pc inc : ℕ)
    → get_elem? s.code pc ≡ some opcode
    → stands vm s.code opcode pc ≡ false
    → one_instruction vm fuel s pc ≡ some (some (s', inc))
    → (0 < inc) × (inc < 2 ^ 31)
unfolding one_instruction MovesOn
one_instruction_advances vm fuel s s' opcode pc inc at moves run =
    let counted = record s { ninsn = s.ninsn + 1 } in
    let f = λ (o : ℕ). by_plan vm fuel counted o pc (plan vm o) in
    let same = subst (λ o. (o >>= f) ≡ some (some (s', inc))) at run in
    subst MovesOn same (
      by_plan-MovesOn vm fuel counted opcode pc (plan vm opcode) moves
        (plan-NoSkip vm opcode (ground arith)))
