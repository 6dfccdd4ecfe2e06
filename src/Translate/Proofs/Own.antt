-- ===== src/Translate/Proofs/Own.antt =====
-- An instruction of the byte code adds entries with its own offset.
use shujit.Base.{
  false, ℕ, ◌≡◌, ◌≢◌, subst, ◌==◌, ==_iff, Bool-cases, inl, inr, List, some, Option-cases, pos,
  get_elem?,
}
use shujit.Opcode.{opc_epilogue}
use shujit.Translate.Vm.{Vm, State}
use shujit.Translate.Process.{process_all}
use shujit.Translate.Loop.{one_instruction}
use shujit.Translate.Proofs.AddsAt.{
  AddsAt, AddsAt-refl, AddsAt-trans, NoEpilogue, process_all-AddsAt, process_an_opcode-AddsAt,
}
use shujit.Translate.Proofs.Parts.{Gives, GivesNext}
use shujit.Translate.Proofs.Keeps.{one_instruction-GivesNext}

all_kept :
    (vm : Vm) (s0 : State) (pc : ℕ) (s : State) (opcodes : List ℕ)
    → NoEpilogue opcodes
    → AddsAt (pos pc) s0 s
    → Gives (AddsAt (pos pc) s0) (process_all vm s opcodes (pos pc))
all_kept vm s0 pc s opcodes others a = elim (Option-cases (process_all vm s opcodes (pos pc))) [
  | inl e ↦ rw e tt
  | inr (s', e) ↦
      rw e (AddsAt-trans (pos pc) a (process_all-AddsAt vm s s' opcodes (pos pc) others e))
]

other_than_epilogue : (opcode : ℕ) → opcode ≢ opc_epilogue → (opcode == opc_epilogue) ≡ false
other_than_epilogue opcode ne = elim (Bool-cases (opcode == opc_epilogue)) [
  | inl e ↦ absurd (ne ((==_iff opcode opc_epilogue).0 e))
  | inr e ↦ e
]

-- An instruction of the byte code that is not the number of the internal `epilogue` only appends to the table, and
-- what it appends has the offset of the instruction.
pub one_instruction-AddsAt :
    (vm : Vm) (fuel : ℕ) (s s' : State) (pc inc : ℕ)
    → get_elem? s.code pc ≢ some opc_epilogue
    → one_instruction vm fuel s pc ≡ some (some (s', inc))
    → AddsAt (pos pc) s s'
one_instruction-AddsAt vm fuel s s' pc inc ne e = subst (GivesNext (AddsAt (pos pc) s)) e (
    one_instruction-GivesNext vm pc (AddsAt (pos pc) s) (all_kept vm s pc)
      (λ s1 c a. record { new = a.new; appended = a.appended; at_offset = a.at_offset })
      (λ s1 n a. record { new = a.new; appended = a.appended; at_offset = a.at_offset }) fuel s
      (λ s1 s2 r opcode at a run. AddsAt-trans (pos pc) a (
        process_an_opcode-AddsAt vm s1 s2 opcode (pos pc) r
          (other_than_epilogue opcode (λ same. ne (rw (at, same)))) run))
      (AddsAt-refl (pos pc) s))
