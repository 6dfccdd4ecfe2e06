-- ===== src/Stages/Laws.antt =====
-- compileMethod enters and leaves the monitor as often, and a method that is compiled to the end is run as native code.
use shujit.Base.{
  ℕ, ◌+◌, ◌-◌, ◌≡◌, refl, subst, arith, List, Option, none, some, ◌>>=◌, Bool, true, false,
  either_branch, ◌||◌, not,
}
use shujit.Contexts.{
  Stage, start, internal_code, static_part, complete, Work, World, Malloc, get_compiler_context,
}
use shujit.Stages.{
  compile_and_invoke, Method, Passes, Machine, access2invoker, is_jit_compiled, reached,
  set_invoker, set_stage, set_work, set_inlineability, finish_code, from_static_part, set_code,
  code_written, table_made, from_internal_code, from_start, from_data_base, by_stage, compile_in,
  compile_method, enter_monitor, stage_done, release, compile_failed,
}

-- The monitor has been left once.
Leaves : ℕ → Machine × Bool → Type 0
Leaves n r = r.0.method.monitor ≡ n - 1

stage_done-Leaves : (m : Machine) → Leaves m.method.monitor (stage_done m)
unfolding Leaves
stage_done-Leaves m = refl

compile_failed-Leaves : (c : ℕ) (m : Machine) → Leaves m.method.monitor (compile_failed c m)
unfolding Leaves
compile_failed-Leaves c m = refl

monitor-set_inlineability :
    (p : Passes) (k : Work) (m : Method) → (set_inlineability p k m).monitor ≡ m.monitor
unfolding set_inlineability
monitor-set_inlineability p k m = ground arith

module _ (p : Passes) (c : ℕ) (target : Stage) where
  from_static_part-Leaves : (m : Machine) → Leaves m.method.monitor (from_static_part p c target m)
  unfolding from_static_part finish_code
  from_static_part-Leaves m =
      either_branch (Leaves m.method.monitor) (reached (m.world.contexts c).stage target)
        (stage_done-Leaves (set_invoker compile_and_invoke m))
        (stage_done-Leaves (release c (set_stage c complete (finish_code p c target m))))

  code_written-Leaves :
      (r : Work × Bool) (m : Machine) → Leaves m.method.monitor (code_written p c target r m)
  unfolding code_written set_code
  code_written-Leaves (k, true) m = compile_failed-Leaves c (set_work c k m)
  code_written-Leaves (k, false) m =
      let k2 = p.resolve_exc_ret_switch (p.resolve_jump_instructions k) in
      from_static_part-Leaves (set_stage c static_part (set_code p c target k2 (set_work c k2 m)))

  from_internal_code-Leaves :
      (m : Machine) → Leaves m.method.monitor (from_internal_code p c target m)
  unfolding from_internal_code
  from_internal_code-Leaves m =
      either_branch (Leaves m.method.monitor) (reached (m.world.contexts c).stage target)
        (stage_done-Leaves (set_invoker compile_and_invoke m)) (code_written-Leaves _ m)

  table_made-Leaves :
      (r : Work × Bool) (m : Machine) → Leaves m.method.monitor (table_made p c target r m)
  unfolding table_made
  table_made-Leaves (k, true) m = compile_failed-Leaves c (set_work c k m)
  table_made-Leaves (k, false) m =
      let k2 = p.peephole_optimization (p.make_block_structure k) in
      subst (λ n. Leaves n (table_made p c target (k, false) m))
        (monitor-set_inlineability p k2 m.method)
        (from_internal_code-Leaves (
          set_stage c internal_code
            (set_work c k2 (record m { method = set_inlineability p k2 m.method }))))

  from_data_base-Leaves :
      (o : Option (Work × List ℕ)) (m : Machine)
      → Leaves m.method.monitor (from_data_base p c target o m)
  unfolding from_data_base from_start
  from_data_base-Leaves none m = table_made-Leaves _ m
  from_data_base-Leaves (some (k, code)) m = from_static_part-Leaves (
      set_stage c static_part
        (set_work c k (record m { method = record m.method { compiled_code = some code } })))

  by_stage-Leaves :
      (stage : Stage) (m : Machine) → Leaves m.method.monitor (by_stage p c target stage m)
  unfolding by_stage
  by_stage-Leaves complete m = stage_done-Leaves m
  by_stage-Leaves internal_code m =
      from_internal_code-Leaves (set_invoker (access2invoker m.method) m)
  by_stage-Leaves static_part m = from_static_part-Leaves (set_invoker (access2invoker m.method) m)
  by_stage-Leaves start m = from_data_base-Leaves _ (set_invoker (access2invoker m.method) m)

Balanced : Machine → Machine × Bool → Type 0
Balanced m r = r.0.method.monitor ≡ m.method.monitor

entered-Balanced :
    (m : Machine) (r : Machine × Bool) → Leaves (m.method.monitor + 1) r → Balanced m r
unfolding Leaves Balanced
entered-Balanced m r h = omega (arith, h)

unchanged-Balanced :
    (m : Machine) (w : World) (failed : Bool) → Balanced m (record m { world = w }, failed)
unfolding Balanced
unchanged-Balanced m w failed = refl

compile_in-Balanced :
    (p : Passes) (target : Stage) (c : ℕ) (m : Machine) → Balanced m (compile_in p target c m)
unfolding compile_in
compile_in-Balanced p target c m =
    let stage = (m.world.contexts c).stage in
    either_branch (Balanced m) (reached stage target) (unchanged-Balanced m m.world false)
      (entered-Balanced m _ (by_stage-Leaves p c target stage (enter_monitor m)))

BalancedIfAny : Machine → Option (Machine × Bool) → Type 0
BalancedIfAny m none = Unit {0}
BalancedIfAny m (some r) = Balanced m r

compile_method-BalancedIfAny :
    (p : Passes) (mem : Malloc) (mb : ℕ) (target : Stage) (m : Machine)
    → BalancedIfAny m (compile_method p mem mb target m)
unfolding compile_method
compile_method-BalancedIfAny p mem mb target m =
    either_branch (BalancedIfAny m)
      ((m.method.is_abstract || m.method.is_native) || is_jit_compiled m.method.invoker)
      (held false)
      (either_branch (BalancedIfAny m) (not m.method.has_code) (held true)
        (got (get_compiler_context mem mb m.world)))
  where
    held : (failed : Bool) → BalancedIfAny m (some (m, failed))
    held failed = unfold BalancedIfAny in unchanged-Balanced m m.world failed

    got :
        (o : Option (ℕ × World))
        → BalancedIfAny m (do (c, w) ← o; some (compile_in p target c (record m { world = w })))
    got none = unfold BalancedIfAny in tt
    got (some (c, w)) =
        unfold BalancedIfAny in
        unfold Balanced in compile_in-Balanced p target c (record m { world = w })

-- compileMethod leaves the monitor of the method as often as it enters it, however it ends.
pub compile_method_balanced :
    (p : Passes) (mem : Malloc) (mb : ℕ) (target : Stage) (m m' : Machine) (failed : Bool)
    → compile_method p mem mb target m ≡ some (m', failed)
    → m'.method.monitor ≡ m.method.monitor
unfolding BalancedIfAny Balanced
compile_method_balanced p mem mb target m m' failed run =
    subst (BalancedIfAny m) run (compile_method-BalancedIfAny p mem mb target m)
