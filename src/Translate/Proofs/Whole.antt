-- ===== src/Translate/Proofs/Whole.antt =====
-- The order of the whole table: the head at -1, the byte code, and the tail at INT_MAX.
use shujit.Base.{ℕ, ◌≡◌, some, negsuc}
use shujit.Translate.Vm.{Vm, State}
use shujit.Translate.Process.{process_all}
use shujit.Translate.Loop.{Outcome, done, thrown, fault, running, head_opcodes}
use shujit.Translate.Proofs.Ends.{Stuck}

-- What holds of the state that a run ends with.
abbrev pub Ended : (State → Type 0) → Outcome → Type 0
Ended P (done s) = P s
Ended P thrown = Unit {0}
Ended P fault = Unit {0}
Ended P running = Unit {0}

-- The loop, behind the head of the method, comes to an instruction that it does not go forward from.
abbrev pub StuckBehindHead : Vm → ℕ → ℕ → State → Type 0
StuckBehindHead vm endoff fuel s =
    (s' : State) × (process_all vm s (head_opcodes vm) (negsuc 0) ≡ some s')
    × Stuck vm endoff fuel 0 s'
