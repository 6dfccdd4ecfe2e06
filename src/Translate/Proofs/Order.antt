-- ===== src/Translate/Proofs/Order.antt =====
-- The table that the translation builds is in the order of the byte code.
use shujit.Base.{
  ℕ, arith, ◌==◌, either_branch, bind-some, some-injective, subst, ◌≡◌, List, [], ◌∷◌, ◌++◌, some,
  Option-cases, inl, inr, ℤ, pos, ◌≤ℤ◌,
}
use shujit.Opcode.{opc_end, opc_return, opc_epilogue}
use shujit.Translate.Vm.{Vm, Insn, State}
use shujit.Translate.Decode.{Decoded, insn, omitted, failed}
use shujit.Translate.Objects.{decode, check_access}
use shujit.Translate.Process.{
  Returned, add, passed, finish, join_end, process_an_opcode, process_all,
}
use shujit.Translate.Proofs.AddsAt.{NoEpilogue}
use shujit.Translate.Proofs.Parts.{Gives}

-- Every offset is at least `a`.
abbrev pub AllFrom : ℤ → List Insn → Type 0
AllFrom a [] = Unit {0}
AllFrom a (i ∷ is) = (a ≤ℤ i.byteoff) × AllFrom a is

-- The offsets ascend, and none is over `limit`.
abbrev pub InOrder : ℤ → List Insn → Type 0
InOrder limit [] = Unit {0}
InOrder limit (i ∷ is) = (i.byteoff ≤ℤ limit) × AllFrom i.byteoff is × InOrder limit is

pub InOrder-le : (a b : ℤ) (is : List Insn) → a ≤ℤ b → InOrder a is → InOrder b is
InOrder-le a b [] le h = tt
InOrder-le a b (i ∷ is) le h = (omega (arith, h.0), h.1, InOrder-le a b is le h.2)

AllFrom-snoc :
    (a : ℤ) (is : List Insn) (i : Insn) → a ≤ℤ i.byteoff → AllFrom a is → AllFrom a (is ++ i ∷ [])
AllFrom-snoc a [] i le h = (le, tt)
AllFrom-snoc a (x ∷ is) i le h = (h.0, AllFrom-snoc a is i le h.1)

InOrder-snoc : (is : List Insn) (i : Insn) → InOrder i.byteoff is → InOrder i.byteoff (is ++ i ∷ [])
InOrder-snoc [] i h = (omega arith, tt, tt)
InOrder-snoc (x ∷ is) i h = (h.0, AllFrom-snoc x.byteoff is i h.0 h.1, InOrder-snoc is i h.2)

AllFrom-join_end : (a : ℤ) (is : List Insn) → AllFrom a is → AllFrom a (join_end is)
unfolding join_end
AllFrom-join_end a [] h = tt
AllFrom-join_end a (x ∷ []) h = h
AllFrom-join_end a (x ∷ y ∷ []) h =
    either_branch (AllFrom a) (y.opcode == opc_end)
      (either_branch (AllFrom a) (x.opcode == opc_return) (h.0, tt) h) h
AllFrom-join_end a (x ∷ y ∷ z ∷ rest) h = (h.0, AllFrom-join_end a (y ∷ z ∷ rest) h.1)

InOrder-join_end : (limit : ℤ) (is : List Insn) → InOrder limit is → InOrder limit (join_end is)
unfolding join_end
InOrder-join_end limit [] h = tt
InOrder-join_end limit (x ∷ []) h = h
InOrder-join_end limit (x ∷ y ∷ []) h =
    either_branch (InOrder limit) (y.opcode == opc_end)
      (either_branch (InOrder limit) (x.opcode == opc_return) (h.0, tt, tt) h) h
InOrder-join_end limit (x ∷ y ∷ z ∷ rest) h =
    (h.0, AllFrom-join_end x.byteoff (y ∷ z ∷ rest) h.1, InOrder-join_end limit (y ∷ z ∷ rest) h.2)

finish-InOrder :
    (vm : Vm) (s s' : State) (opcode : ℕ) (byteoff : ℤ) (d : Decoded) (r : Returned)
    → InOrder byteoff s.table
    → finish vm s opcode byteoff d ≡ some (s', r)
    → InOrder byteoff s'.table
unfolding finish add
finish-InOrder vm s s' opcode byteoff (insn code_opcode operand byteinc) r h e =
    let (inc, _, e') = bind-some (passed s opcode byteoff byteinc) _ (s', r) e in
    subst (λ x. InOrder byteoff x.0.table) (some-injective _ _ e')
      (InOrder-snoc s.table (record { opcode = code_opcode; operand = operand; byteoff = byteoff })
        h)
finish-InOrder vm s s' opcode byteoff omitted r h e =
    subst (λ x. InOrder byteoff x.0.table) (some-injective _ _ e) h
finish-InOrder vm s s' opcode byteoff failed r h e =
    subst (λ x. InOrder byteoff x.0.table) (some-injective _ _ e) h

pub process_an_opcode-InOrder :
    (vm : Vm) (s s' : State) (opcode : ℕ) (byteoff : ℤ) (r : Returned)
    → InOrder byteoff s.table
    → process_an_opcode vm s opcode byteoff ≡ some (s', r)
    → InOrder byteoff s'.table
unfolding process_an_opcode
process_an_opcode-InOrder vm s s' opcode byteoff r h e =
    let (d, _, e1) = bind-some (decode vm s.code byteoff opcode) _ (s', r) e in
    let (d', _, e2) = bind-some (check_access vm d) _ (s', r) e1 in
    finish-InOrder vm _ s' opcode byteoff d' r
      (either_branch (λ (s1 : State). InOrder byteoff s1.table) (opcode == opc_epilogue)
        (InOrder-join_end byteoff s.table h) h)
      e2

pub process_all-InOrder :
    (vm : Vm) (s s' : State) (opcodes : List ℕ) (byteoff : ℤ)
    → InOrder byteoff s.table
    → process_all vm s opcodes byteoff ≡ some s'
    → InOrder byteoff s'.table
unfolding process_all
process_all-InOrder vm s s' [] byteoff h e =
    subst (λ x. InOrder byteoff x.table) (some-injective _ _ e) h
process_all-InOrder vm s s' (opcode ∷ opcodes) byteoff h e =
    let ((s1, r), e1, e2) = bind-some (process_an_opcode vm s opcode byteoff) _ s' e in
    process_all-InOrder vm s1 s' opcodes byteoff
      (process_an_opcode-InOrder vm s s1 opcode byteoff r h e1) e2

pub process_all-Gives-InOrder :
    (vm : Vm) (pc : ℕ) (s : State) (opcodes : List ℕ)
    → NoEpilogue opcodes
    → InOrder (pos pc) s.table
    → Gives (λ s'. InOrder (pos pc) s'.table) (process_all vm s opcodes (pos pc))
process_all-Gives-InOrder vm pc s opcodes others h =
    elim (Option-cases (process_all vm s opcodes (pos pc))) [
      | inl e ↦ rw e tt
      | inr (s', e) ↦ rw e (process_all-InOrder vm s s' opcodes (pos pc) h e)
    ]
