-- ===== src/Translate/Proofs/Parts.antt =====
-- The parts of an instruction: the sequences of internal instructions that the switch of makePCTable
-- gives each.
use shujit.Base.{ℕ, Option, none, some, ◌>>=◌, arith}
use shujit.Translate.Vm.{Vm, State}
use shujit.Translate.Plan.{
  Plan, around, returns, invokes, default_case, skipped, fatal, plan, plan_float,
}
use shujit.Translate.Proofs.AddsAt.{NoEpilogue}

-- The lists of a plan do not have the epilogue.
abbrev pub Clean : Plan → Type 0
Clean (around before after) = NoEpilogue before × NoEpilogue after
Clean (returns opcodes) = NoEpilogue opcodes
Clean invokes = Unit {0}
Clean default_case = Unit {0}
Clean skipped = Unit {0}
Clean fatal = Unit {0}

plan_float-Clean : (vm : Vm) (opcode : ℕ) → Clean (plan_float vm opcode)
unfolding plan_float
plan_float-Clean vm opcode = ground arith

pub plan-Clean : (vm : Vm) (opcode : ℕ) → Clean (plan vm opcode)
unfolding plan
plan-Clean vm opcode = ground arith

module _ (P : State → Type 0) where
  -- Where there is a result, `P` holds of it.
  abbrev pub Gives : Option State → Type 0
  Gives none = Unit {0}
  Gives (some s) = P s

  abbrev pub GivesNext : Option (Option (State × ℕ)) → Type 0
  GivesNext none = Unit {0}
  GivesNext (some none) = Unit {0}
  GivesNext (some (some (s, inc))) = P s

  pub Gives-bind :
      {A : Type 0} (o : Option A) (f : A → Option State) → ((a : A) → Gives (f a)) → Gives (o >>= f)
  Gives-bind none f h = tt
  Gives-bind (some a) f h = h a

  pub then-Gives :
      (o : Option State) (f : State → Option State)
      → Gives o
      → ((s : State) → P s → Gives (f s))
      → Gives (o >>= f)
  then-Gives none f h k = tt
  then-Gives (some s) f h k = k s h

  pub then-GivesNext :
      (o : Option State) (f : State → Option (Option (State × ℕ)))
      → Gives o
      → ((s : State) → P s → GivesNext (f s))
      → GivesNext (o >>= f)
  then-GivesNext none f h k = tt
  then-GivesNext (some s) f h k = k s h

  pub GivesNext-bind :
      {A : Type 0} (o : Option A) (f : A → Option (Option (State × ℕ)))
      → ((a : A) → GivesNext (f a))
      → GivesNext (o >>= f)
  GivesNext-bind none f h = tt
  GivesNext-bind (some a) f h = h a
