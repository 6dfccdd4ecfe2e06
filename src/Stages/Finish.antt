-- ===== src/Stages/Finish.antt =====
-- A method that is compiled to the last stage is run as native code.
use shujit.Base.{
  ℕ, ◌≡◌, refl, sym, ap, ◌∙◌, subst, arith, List, Option, none, some, none-ne-some, some-injective,
  ◌>>=◌, Option-cases, inl, inr, Bool, true, false, Bool-cases, either_branch, ◌||◌, not, ◌==◌,
  ==_iff,
}
use mathlib.Core.Bool.{true≢false}
use shujit.Contexts.{
  Stage, start, internal_code, static_part, complete, Work, Info, World, Malloc, prepare_info,
  prepared, context_for, retain, get_compiler_context,
}
use shujit.Contexts.Laws.{cc_of}
use shujit.Contexts.Pool.{get_compiler_context-Clean}
use shujit.Stages.{
  Invoker, jit_compiled, Passes, Machine, access2invoker, is_jit_compiled, reached, set_invoker,
  set_stage, set_work, set_inlineability, finish_code, from_static_part, set_code, code_written,
  table_made, from_internal_code, from_start, from_data_base, by_stage, compile_in, compile_method,
  enter_monitor,
}

-- Where there was no failure, the method is run as native code.
Runs : Machine × Bool → Type 0
Runs (m, false) = m.method.invoker ≡ jit_compiled
Runs (m, true) = Unit {0}

reached-set_stage :
    (c : ℕ) (st target : Stage) (m : Machine)
    → reached st target ≡ false
    → reached ((set_stage c st m).world.contexts c).stage target ≡ false
reached-set_stage c st target m e = let self : (c == c) ≡ true = (==_iff c c).1 refl in rw self e

module _ (p : Passes) (c : ℕ) where
  from_static_part-Runs :
      (m : Machine)
      → reached (m.world.contexts c).stage complete ≡ false
      → Runs (from_static_part p c complete m)
  unfolding from_static_part finish_code Runs
  from_static_part-Runs m e = rw e refl

  code_written-Runs : (r : Work × Bool) (m : Machine) → Runs (code_written p c complete r m)
  unfolding code_written Runs
  code_written-Runs (k, true) m = tt
  code_written-Runs (k, false) m =
      let k2 = p.resolve_exc_ret_switch (p.resolve_jump_instructions k) in
      from_static_part-Runs (set_stage c static_part (set_code p c complete k2 (set_work c k2 m)))
        (reached-set_stage c static_part complete (set_code p c complete k2 (set_work c k2 m)) refl)

  from_internal_code-Runs :
      (m : Machine)
      → reached (m.world.contexts c).stage complete ≡ false
      → Runs (from_internal_code p c complete m)
  unfolding from_internal_code
  from_internal_code-Runs m e = rw e (
      code_written-Runs
        (p.write_code
          (p.update_states (p.eager_compilation (p.method_inlining (m.world.contexts c).work))))
        m)

  table_made-Runs : (r : Work × Bool) (m : Machine) → Runs (table_made p c complete r m)
  unfolding table_made Runs
  table_made-Runs (k, true) m = tt
  table_made-Runs (k, false) m =
      let k2 = p.peephole_optimization (p.make_block_structure k) in
      let m1 = set_work c k2 (record m { method = set_inlineability p k2 m.method }) in
      from_internal_code-Runs (set_stage c internal_code m1)
        (reached-set_stage c internal_code complete m1 refl)

  from_data_base-Runs :
      (o : Option (Work × List ℕ)) (m : Machine) → Runs (from_data_base p c complete o m)
  unfolding from_data_base from_start
  from_data_base-Runs none m = table_made-Runs (p.make_pc_table (m.world.contexts c).work) m
  from_data_base-Runs (some (k, code)) m =
      let m1 = set_work c k (record m { method = record m.method { compiled_code = some code } }) in
      from_static_part-Runs (set_stage c static_part m1)
        (reached-set_stage c static_part complete m1 refl)

  by_stage-Runs :
      (stage : Stage) (m : Machine)
      → (m.world.contexts c).stage ≡ stage
      → reached stage complete ≡ false
      → Runs (by_stage p c complete stage m)
  unfolding by_stage
  by_stage-Runs complete m same e = absurd (true≢false e)
  by_stage-Runs internal_code m same e =
      from_internal_code-Runs (set_invoker (access2invoker m.method) m) (rw same refl)
  by_stage-Runs static_part m same e =
      from_static_part-Runs (set_invoker (access2invoker m.method) m) (rw same refl)
  by_stage-Runs start m same e = from_data_base-Runs _ (set_invoker (access2invoker m.method) m)

  -- A context at the last stage means that the method runs compiled.
  compile_in-Runs :
      (m : Machine)
      → (reached (m.world.contexts c).stage complete ≡ true → m.method.invoker ≡ jit_compiled)
      → Runs (compile_in p complete c m)
  unfolding compile_in Runs
  compile_in-Runs m h = elim (Bool-cases (reached (m.world.contexts c).stage complete)) [
    | inl e ↦ rw e (h e)
    | inr e ↦ rw e (by_stage-Runs (m.world.contexts c).stage (enter_monitor m) refl e)
  ]

known_context :
    (o : Option Info) (d : ℕ) → (o >>= (λ (i : Info). i.cc)) ≡ some d → (prepared o).cc ≡ some d
unfolding prepared
known_context none d e = absurd (none-ne-some d e)
known_context (some i) d e = e

Kept : World → ℕ → ℕ × World → Type 0
Kept w mb (c, w') = (cc_of w mb ≡ some c) × ((w'.contexts c).stage ≡ (w.contexts c).stage)

retain-Kept :
    (w : World) (mb d : ℕ) → cc_of w mb ≡ some d → Kept w mb (d, retain d (prepare_info mb w))
unfolding Kept retain prepare_info
retain-Kept w mb d e = let self : (d == d) ≡ true = (==_iff d d).1 refl in (e, rw self refl)

-- A context that the method has is kept at its stage.
get_compiler_context-Kept :
    (mem : Malloc) (mb d : ℕ) (w : World) (c : ℕ) (w' : World)
    → cc_of w mb ≡ some d
    → get_compiler_context mem mb w ≡ some (c, w')
    → Kept w mb (c, w')
unfolding get_compiler_context context_for
get_compiler_context-Kept mem mb d w c w' has run =
    let run' =
      subst (λ o. (context_for mem mb o (prepare_info mb w) >>= counted_once) ≡ some (c, w'))
        (known_context (w.infos mb) d has) run in
    subst (Kept w mb) (some-injective _ _ run') (retain-Kept w mb d has)
  where
    counted_once : ℕ × World → Option (ℕ × World)
    counted_once (x, v) = some (x, retain x v)

-- When a context at the last stage means that the method runs compiled, so it does of the context that
-- getCompilerContext gives.
finished_context :
    (mem : Malloc) (mb : ℕ) (w : World) (c : ℕ) (w' : World) (J : Type 0)
    → ((d : ℕ) → cc_of w mb ≡ some d → reached (w.contexts d).stage complete ≡ true → J)
    → get_compiler_context mem mb w ≡ some (c, w')
    → reached (w'.contexts c).stage complete ≡ true
    → J
unfolding Kept
finished_context mem mb w c w' J h run at_end = elim (Option-cases (cc_of w mb)) [
  | inl e ↦
      let begins = (get_compiler_context-Clean mem mb w c w' e run).begins in
      absurd (true≢false (sym at_end ∙ ap (λ st. reached st complete) begins))
  | inr (d, e) ↦
      let (has, same) = get_compiler_context-Kept mem mb d w c w' e run in
      h c has (ap (λ st. reached st complete) (sym same) ∙ at_end)
]

RunsIfAny : Option (Machine × Bool) → Type 0
RunsIfAny none = Unit {0}
RunsIfAny (some r) = Runs r

with_context :
    (p : Passes) (m : Machine) (o : Option (ℕ × World))
    → ((c : ℕ) (w : World)
        → o ≡ some (c, w)
        → reached (w.contexts c).stage complete ≡ true
        → m.method.invoker ≡ jit_compiled)
    → RunsIfAny (do (c, w) ← o; some (compile_in p complete c (record m { world = w })))
unfolding RunsIfAny
with_context p m none h = tt
with_context p m (some (c, w)) h = compile_in-Runs p c (record m { world = w }) (h c w refl)

jit-compiled : (i : Invoker) → is_jit_compiled i ≡ true → i ≡ jit_compiled
jit-compiled i e = ground arith

already : (m : Machine) → m.method.invoker ≡ jit_compiled → RunsIfAny (some (m, false))
unfolding RunsIfAny Runs
already m e = e

failed : (m : Machine) → RunsIfAny (some (m, true))
unfolding RunsIfAny Runs
failed m = tt

compile_method-RunsIfAny :
    (p : Passes) (mem : Malloc) (mb : ℕ) (m : Machine)
    → (m.method.is_abstract || m.method.is_native) ≡ false
    → ((c : ℕ)
        → cc_of m.world mb ≡ some c
        → reached (m.world.contexts c).stage complete ≡ true
        → m.method.invoker ≡ jit_compiled)
    → RunsIfAny (compile_method p mem mb complete m)
unfolding compile_method
compile_method-RunsIfAny p mem mb m java h = elim (Bool-cases (is_jit_compiled m.method.invoker)) [
  | inl jit ↦ rw (java, jit) (already m (jit-compiled m.method.invoker jit))
  | inr other ↦
      rw (java, other)
        (either_branch RunsIfAny (not m.method.has_code) (failed m) (
          with_context p m (get_compiler_context mem mb m.world) (λ c w got.
            finished_context mem mb m.world c w (m.method.invoker ≡ jit_compiled) h got)))
]

-- When a method is neither abstract nor native, and runs as native code if its context is at the
-- last stage, then compileMethod to the last stage fails or leaves a method that is run as native code.
pub compile_method_runs :
    (p : Passes) (mem : Malloc) (mb : ℕ) (m m' : Machine)
    → (m.method.is_abstract || m.method.is_native) ≡ false
    → ((c : ℕ)
        → cc_of m.world mb ≡ some c
        → reached (m.world.contexts c).stage complete ≡ true
        → m.method.invoker ≡ jit_compiled)
    → compile_method p mem mb complete m ≡ some (m', false)
    → m'.method.invoker ≡ jit_compiled
unfolding RunsIfAny Runs
compile_method_runs p mem mb m m' java h run =
    subst RunsIfAny run (compile_method-RunsIfAny p mem mb m java h)
