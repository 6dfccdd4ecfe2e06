-- ===== src/Stages.antt =====
-- compile.c, computil.c: compileMethod takes a method from one stage to the next, and access2invoker names what runs a
-- method meanwhile. The passes are parameters here; what they do is in the files of their names. What methodInlining and
-- eagerCompilation do to other methods is left out, and so are counters, code sizes and code that are written to
-- files.
pub mod Laws
pub mod Finish
mod Examples
use shujit.Base.{
  ℕ, ◌+◌, ◌-◌, List, [], ◌∷◌, Option, none, some, ◌>>=◌, Bool, true, false, not, ◌||◌, ◌&&◌, leb,
  if◌then◌else◌, take,
}
use shujit.PcEntry.{PcEntry}
use shujit.Contexts.{
  Stage, start, internal_code, static_part, complete, Work, Context, World, Malloc, put,
  get_compiler_context, release_compiler_context,
}

pub data Invoker : Type 0 where
  abstract_method lazy_native_method synchronized_java_method java_method compile_and_invoke
        jit_compiled :
      Invoker

pub data Inlineability : Type 0 where
  inline_unknown inline_dont inline_may : Inlineability

-- The parts of a method block and of its CodeInfo that change. `monitor` counts how often the monitor of the
-- CodeInfo is entered.
pub record Method : Type 0 where
  pub is_abstract : Bool
  pub is_native : Bool
  pub is_synchronized : Bool
  pub has_handlers : Bool
  pub has_code : Bool
  pub invoker : Invoker
  pub machine_compiled : Bool
  pub compiled_code : Option (List ℕ)
  pub inlineability : Inlineability
  pub inline_table : List PcEntry
  pub monitor : ℕ

-- What the passes do. Those that may fail say so.
pub record Passes : Type 0 where
  pub make_pc_table : Work → Work × Bool
  pub make_block_structure : Work → Work
  pub peephole_optimization : Work → Work
  pub method_inlining : Work → Work
  pub eager_compilation : Work → Work
  pub update_states : Work → Work
  pub write_code : Work → Work × Bool
  pub resolve_jump_instructions : Work → Work
  pub resolve_exc_ret_switch : Work → Work
  pub resolve_dynamic_constants : List ℕ → List ℕ
  pub resolve_function_symbols : List ℕ → List ℕ
  pub read_compiled_code : Work → Option (Work × List ℕ)
  pub opt_codedb : Bool
  pub inlining_maxlen : ℕ

pub record Machine : Type 0 where
  pub world : World
  pub method : Method

unfoldable pub access2invoker : Method → Invoker
access2invoker m =
    if m.is_abstract
    then abstract_method
    else if m.is_native
    then lazy_native_method
    else if m.is_synchronized
    then synchronized_java_method
    else java_method

abbrev pub is_jit_compiled : Invoker → Bool
is_jit_compiled jit_compiled = true
is_jit_compiled abstract_method = false
is_jit_compiled lazy_native_method = false
is_jit_compiled synchronized_java_method = false
is_jit_compiled java_method = false
is_jit_compiled compile_and_invoke = false

abbrev pub number : Stage → ℕ
number start = 0
number internal_code = 1
number static_part = 2
number complete = 3

-- `cc->stage >= target_stage`
abbrev pub reached : Stage → Stage → Bool
reached stage target = leb (number target) (number stage)

abbrev pub set_invoker : Invoker → Machine → Machine
set_invoker i m = record m { method = record m.method { invoker = i } }

abbrev pub set_stage : ℕ → Stage → Machine → Machine
set_stage c stage m = record m {
  world = record m.world {
    contexts = put c (record (m.world.contexts c) { stage = stage }) m.world.contexts;
  };
}

abbrev pub set_work : ℕ → Work → Machine → Machine
set_work c k m = record m {
  world = record m.world {
    contexts = put c (record (m.world.contexts c) { work = k }) m.world.contexts;
  };
}

abbrev pub enter_monitor : Machine → Machine
enter_monitor m = record m { method = record m.method { monitor = m.method.monitor + 1 } }

abbrev pub exit_monitor : Machine → Machine
exit_monitor m = record m { method = record m.method { monitor = m.method.monitor - 1 } }

-- The label `stage_done`; the Boolean is the value returned, true for a failure.
abbrev pub stage_done : Machine → Machine × Bool
stage_done m = (exit_monitor m, false)

abbrev pub release : ℕ → Machine → Machine
release c m = record m { world = release_compiler_context c m.world }

-- The label `compile_failed`.
abbrev pub compile_failed : ℕ → Machine → Machine × Bool
compile_failed c m =
    let m1 = exit_monitor m in
    (release c (record m1 { method = record m1.method { machine_compiled = false } }), true)

-- The test for inlining, with the copy of the internal instructions.
unfoldable pub set_inlineability : Passes → Work → Method → Method
set_inlineability p k m =
    if not m.is_synchronized
      && (not m.has_handlers && (not k.may_jump && leb k.pctable.len p.inlining_maxlen))
    then record m {
      inlineability = inline_may;
      inline_table = take k.pctable.len k.pctable.entries;
    }
    else record m { inlineability = inline_dont }

abbrev pub resolved_code : Passes → Option (List ℕ) → Option (List ℕ)
resolved_code p none = none
resolved_code p (some code) = some (p.resolve_function_symbols (p.resolve_dynamic_constants code))

module _ (p : Passes) (c : ℕ) (target : Stage) where
  -- The code is finished, and its method runs it.
  unfoldable pub finish_code : Machine → Machine
  finish_code m = record m {
    method = record m.method {
      compiled_code = resolved_code p m.method.compiled_code;
      machine_compiled = true;
      invoker = jit_compiled;
    };
  }

  -- From the label `stage_static_part` on.
  unfoldable pub from_static_part : Machine → Machine × Bool
  unfolding finish_code
  from_static_part m =
      if reached (m.world.contexts c).stage target
      then stage_done (set_invoker compile_and_invoke m)
      else stage_done (release c (set_stage c complete (finish_code m)))

  -- The generated code is set to the method.
  unfoldable pub set_code : Work → Machine → Machine
  set_code k m = record m {
    method = record m.method { compiled_code = some (take k.buffer.offset k.buffer.block) };
  }

  -- By the value of writeCode.
  unfoldable pub code_written : Work × Bool → Machine → Machine × Bool
  unfolding from_static_part set_code
  code_written (k, true) m = compile_failed c (set_work c k m)
  code_written (k, false) m =
      let k2 = p.resolve_exc_ret_switch (p.resolve_jump_instructions k) in
      from_static_part (set_stage c static_part (set_code k2 (set_work c k2 m)))

  -- From the label `stage_internal_code` on.
  unfoldable pub from_internal_code : Machine → Machine × Bool
  unfolding code_written
  from_internal_code m =
      if reached (m.world.contexts c).stage target
      then stage_done (set_invoker compile_and_invoke m)
      else code_written
          (p.write_code
            (p.update_states (p.eager_compilation (p.method_inlining (m.world.contexts c).work))))
          m

  -- By the value of makePCTable.
  unfoldable pub table_made : Work × Bool → Machine → Machine × Bool
  unfolding from_internal_code set_inlineability
  table_made (k, true) m = compile_failed c (set_work c k m)
  table_made (k, false) m =
      let k2 = p.peephole_optimization (p.make_block_structure k) in
      from_internal_code (
        set_stage c internal_code
          (set_work c k2 (record m { method = set_inlineability p k2 m.method })))

  unfoldable pub from_start : Machine → Machine × Bool
  unfolding table_made
  from_start m = table_made (p.make_pc_table (m.world.contexts c).work) m

  -- A compilation of nothing yet looks in the data base first.
  unfoldable pub from_data_base : Option (Work × List ℕ) → Machine → Machine × Bool
  unfolding from_static_part from_start
  from_data_base none m = from_start m
  from_data_base (some (k, code)) m = from_static_part (
      set_stage c static_part
        (set_work c k (record m { method = record m.method { compiled_code = some code } })))

  -- `jump into an intermediate stage`
  unfoldable pub by_stage : Stage → Machine → Machine × Bool
  unfolding access2invoker from_data_base
  by_stage complete m = stage_done m
  by_stage internal_code m = from_internal_code (set_invoker (access2invoker m.method) m)
  by_stage static_part m = from_static_part (set_invoker (access2invoker m.method) m)
  by_stage start m =
      from_data_base (if p.opt_codedb then p.read_compiled_code (m.world.contexts c).work else none)
        (set_invoker (access2invoker m.method) m)

-- With the context at hand.
unfoldable pub compile_in : Passes → Stage → ℕ → Machine → Machine × Bool
unfolding by_stage
compile_in p target c m =
    let stage = (m.world.contexts c).stage in
    if reached stage target then (m, false) else by_stage p c target stage (enter_monitor m)

-- `none`: a null pointer is written through, where no memory is left for a context.
unfoldable pub compile_method : Passes → Malloc → ℕ → Stage → Machine → Option (Machine × Bool)
unfolding compile_in
compile_method p mem mb target m =
    if (m.method.is_abstract || m.method.is_native) || is_jit_compiled m.method.invoker
    then some (m, false)
    else if not m.method.has_code
    then some (m, true)
    else (do
      (c, w) ← get_compiler_context mem mb m.world
      some (compile_in p target c (record m { world = w })))
