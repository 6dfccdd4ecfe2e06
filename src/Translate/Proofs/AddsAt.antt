-- ===== src/Translate/Proofs/AddsAt.antt =====
-- An instruction of the byte code adds entries with its own offset behind those that are there.
use shujit.Base.{
  ℕ, ◌≡◌, refl, ap, sym, ◌∙◌, List, [], ◌∷◌, ◌++◌, append_assoc, append-nil, some, bind-some,
  some-injective, subst, ◌==◌, false, if◌then◌else◌, ℤ,
}
use shujit.Opcode.{opc_epilogue}
use shujit.Translate.Vm.{Vm, Insn, State}
use shujit.Translate.Decode.{Decoded, insn, omitted, failed}
use shujit.Translate.Objects.{decode, check_access}
use shujit.Translate.Process.{
  Returned, add, passed, finish, process_an_opcode, process_all, join_end,
}

abbrev pub AllAt : ℤ → List Insn → Type 0
AllAt byteoff [] = Unit {0}
AllAt byteoff (i ∷ is) = (i.byteoff ≡ byteoff) × AllAt byteoff is

AllAt-append :
    (byteoff : ℤ) (is js : List Insn)
    → AllAt byteoff is
    → AllAt byteoff js
    → AllAt byteoff (is ++ js)
AllAt-append byteoff [] js hi hj = hj
AllAt-append byteoff (i ∷ is) js hi hj = (hi.0, AllAt-append byteoff is js hi.1 hj)

-- The table of `s'` is that of `s` with entries at `byteoff` behind it.
pub record AddsAt (byteoff : ℤ) (s s' : State) : Type 0 where
  pub new : List Insn
  pub appended : s'.table ≡ s.table ++ new
  pub at_offset : AllAt byteoff new

pub AddsAt-refl : (byteoff : ℤ) (s : State) → AddsAt byteoff s s
AddsAt-refl byteoff s = record { new = []; appended = sym (append-nil s.table); at_offset = tt }

pub AddsAt-trans :
    (byteoff : ℤ) {s s' s'' : State}
    → AddsAt byteoff s s'
    → AddsAt byteoff s' s''
    → AddsAt byteoff s s''
AddsAt-trans byteoff {s = s} a b = record {
  new = a.new ++ b.new;
  appended = b.appended ∙ ap (λ t. t ++ b.new) a.appended ∙ append_assoc s.table a.new b.new;
  at_offset = AllAt-append byteoff a.new b.new a.at_offset b.at_offset;
}

add-AddsAt :
    (vm : Vm) (s : State) (opcode : ℕ) (operand byteoff : ℤ)
    → AddsAt byteoff s (add vm s opcode operand byteoff)
unfolding add
add-AddsAt vm s opcode operand byteoff = record {
  new = record { opcode = opcode; operand = operand; byteoff = byteoff } ∷ [];
  appended = refl;
  at_offset = (refl, tt);
}

finish-AddsAt :
    (vm : Vm) (s s' : State) (opcode : ℕ) (byteoff : ℤ) (d : Decoded) (r : Returned)
    → finish vm s opcode byteoff d ≡ some (s', r)
    → AddsAt byteoff s s'
unfolding finish
finish-AddsAt vm s s' opcode byteoff (insn code_opcode operand byteinc) r e =
    let (inc, _, e') = bind-some (passed s opcode byteoff byteinc) _ (s', r) e in
    let same : add vm s code_opcode operand byteoff ≡ s' = ap (λ x. x.0) (some-injective _ _ e') in
    subst (AddsAt byteoff s) same (add-AddsAt vm s code_opcode operand byteoff)
finish-AddsAt vm s s' opcode byteoff omitted r e =
    subst (AddsAt byteoff s) (ap (λ x. x.0) (some-injective _ _ e)) (AddsAt-refl byteoff s)
finish-AddsAt vm s s' opcode byteoff failed r e =
    subst (AddsAt byteoff s) (ap (λ x. x.0) (some-injective _ _ e)) (AddsAt-refl byteoff s)

-- processAnOpcode, but for the epilogue.
pub process_an_opcode-AddsAt :
    (vm : Vm) (s s' : State) (opcode : ℕ) (byteoff : ℤ) (r : Returned)
    → (opcode == opc_epilogue) ≡ false
    → process_an_opcode vm s opcode byteoff ≡ some (s', r)
    → AddsAt byteoff s s'
unfolding process_an_opcode
process_an_opcode-AddsAt vm s s' opcode byteoff r other e =
    let (d, _, e1) = bind-some (decode vm s.code byteoff opcode) _ (s', r) e in
    let (d', _, e2) = bind-some (check_access vm d) _ (s', r) e1 in
    finish-AddsAt vm s s' opcode byteoff d' r (
      subst
        (λ c.
          finish vm (if c then record s { table = join_end s.table } else s) opcode byteoff d'
          ≡ some (s', r))
        other e2)

abbrev pub NoEpilogue : List ℕ → Type 0
NoEpilogue [] = Unit {0}
NoEpilogue (o ∷ os) = ((o == opc_epilogue) ≡ false) × NoEpilogue os

pub process_all-AddsAt :
    (vm : Vm) (s s' : State) (opcodes : List ℕ) (byteoff : ℤ)
    → NoEpilogue opcodes
    → process_all vm s opcodes byteoff ≡ some s'
    → AddsAt byteoff s s'
unfolding process_all
process_all-AddsAt vm s s' [] byteoff others e =
    subst (AddsAt byteoff s) (some-injective _ _ e) (AddsAt-refl byteoff s)
process_all-AddsAt vm s s' (opcode ∷ opcodes) byteoff others e =
    let ((s1, r), e1, e2) = bind-some (process_an_opcode vm s opcode byteoff) _ s' e in
    AddsAt-trans byteoff (process_an_opcode-AddsAt vm s s1 opcode byteoff r others.0 e1)
      (process_all-AddsAt vm s1 s' opcodes byteoff others.1 e2)
