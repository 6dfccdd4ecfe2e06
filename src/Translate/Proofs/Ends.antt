-- ===== src/Translate/Proofs/Ends.antt =====
-- When the loop over the byte code ends, and when it does not.
use shujit.Base.{
  ℕ, zero, suc, ◌+◌, ◌<◌, arith, lt→ltb, bind-some, true, ◌^◌, ◌≡◌, refl, ◌⊎◌, some, inl, inr,
  get_elem?,
}
use shujit.Opcode.{opc_monitorenter, opc_monitorexit}
use shujit.Translate.Vm.{Vm, State}
use shujit.Translate.Plan.{plan}
use shujit.Translate.Loop.{
  Outcome, done, thrown, fault, running, by_plan, one_instruction, advance, translate_loop,
}
use shujit.Translate.Proofs.Moves.{stands}

-- The loop comes from one offset and state to another.
pub data Reaches (vm : Vm) (endoff : ℕ) : ℕ → ℕ → State → ℕ → State → Type 0 where
  here : (fuel pc : ℕ) (s : State) → Reaches vm endoff fuel pc s pc s
  later :
      (fuel pc inc pc1 : ℕ) (s s1 : State) (pc' : ℕ) (s' : State)
      → one_instruction vm (suc fuel) s pc ≡ some (some (s1, inc))
      → advance pc inc ≡ some pc1
      → Reaches vm endoff fuel pc1 s1 pc' s'
      → Reaches vm endoff (suc fuel) pc s pc' s'

-- The loop stands at an instruction that it does not go forward from.
pub record Stuck (vm : Vm) (endoff fuel pc : ℕ) (s : State) : Type 0 where
  pub at : ℕ
  pub state : State
  pub opcode : ℕ
  pub reached : Reaches vm endoff fuel pc s at state
  pub inside : at < endoff
  pub read : get_elem? state.code at ≡ some opcode
  pub stalled : stands vm state.code opcode at ≡ true

OutcomeIsRunning : Outcome → Type 0
OutcomeIsRunning running = Unit {0}
OutcomeIsRunning (done s) = ⊥
OutcomeIsRunning thrown = ⊥
OutcomeIsRunning fault = ⊥

-- A positive `int` is added as it is.
pub advance-forward : (pc inc : ℕ) → inc < 2 ^ 31 → advance pc inc ≡ some (pc + inc)
unfolding advance
advance-forward pc inc h = ground arith

pub later_Stuck :
    (vm : Vm) (endoff fuel pc inc : ℕ) (s s1 : State)
    → one_instruction vm (suc fuel) s pc ≡ some (some (s1, inc))
    → inc < 2 ^ 31
    → Stuck vm endoff fuel (pc + inc) s1
    → Stuck vm endoff (suc fuel) pc s
later_Stuck vm endoff fuel pc inc s s1 run small k = record {
  at = k.at;
  state = k.state;
  opcode = k.opcode;
  reached =
      later fuel pc inc (pc + inc) s s1 k.at k.state run (advance-forward pc inc small) k.reached;
  inside = k.inside;
  read = k.read;
  stalled = k.stalled;
}

-- An instruction that the loop goes on behind has been read.
pub has_opcode :
    (vm : Vm) (fuel pc inc : ℕ) (s s1 : State)
    → one_instruction vm fuel s pc ≡ some (some (s1, inc))
    → (opcode : ℕ) × (get_elem? s.code pc ≡ some opcode)
unfolding one_instruction
has_opcode vm fuel pc inc s s1 run =
    let (opcode, e, _) = bind-some (get_elem? s.code pc) _ (some (s1, inc)) run in (opcode, e)

ignored_lock :
    (vm : Vm) (fuel pc opcode : ℕ) (s : State)
    → vm.opt_ignlock ≡ true
    → (opcode ≡ opc_monitorenter) ⊎ (opcode ≡ opc_monitorexit)
    → get_elem? s.code pc ≡ some opcode
    → one_instruction vm fuel s pc ≡ some (some (record s { ninsn = s.ninsn + 1 }, 0))
unfolding one_instruction plan by_plan
ignored_lock vm fuel pc opcode s ign (inl e) read = rw (read, e, ign) refl
ignored_lock vm fuel pc opcode s ign (inr e) read = rw (read, e, ign) refl

-- When locks are ignored, the translation of a method does not end, whatever the fuel, once it comes to a
-- `monitorenter` or a `monitorexit`: the instruction is not passed.
pub monitor_hangs :
    (vm : Vm) (endoff fuel pc opcode : ℕ) (s : State)
    → vm.opt_ignlock ≡ true
    → (opcode ≡ opc_monitorenter) ⊎ (opcode ≡ opc_monitorexit)
    → pc < endoff
    → get_elem? s.code pc ≡ some opcode
    → translate_loop vm endoff fuel pc s ≡ running
unfolding translate_loop advance
monitor_hangs vm endoff zero pc opcode s ign monitor inside read = refl
monitor_hangs vm endoff (suc fuel) pc opcode s ign monitor inside read =
    let here' : pc + 0 ≡ pc = omega arith in
    rw (lt→ltb pc endoff inside) (
      rw (ignored_lock vm (suc fuel) pc opcode s ign monitor read) (
        rw here' (
          monitor_hangs vm endoff fuel pc opcode (record s { ninsn = s.ninsn + 1 }) ign monitor
            inside read)))
