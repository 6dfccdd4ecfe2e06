-- ===== src/Stages/Examples.antt =====
-- Compilations of a method whose passes change nothing.
use shujit.Base.{
  ℕ, ◌≡◌, refl, List, [], Option, none, some, none-ne-some, Bool, true, false, replicate,
  length-replicate, ◌>>=◌,
}
use shujit.PcTable.{no_entry, pctable_clear}
use shujit.JpTable.{JpEntry}
use shujit.Contexts.{
  start, internal_code, complete, World, Malloc, with_cc, set_cc, reset_compiler_context, new_work,
  new_compiler_context, prepared, prepare_info, take_context, context_for, retain,
  get_compiler_context, release_compiler_context,
}
use shujit.Stages.{
  Invoker, java_method, jit_compiled, inline_unknown, Passes, Machine, access2invoker,
  set_inlineability, finish_code, from_static_part, set_code, code_written, from_internal_code,
  table_made, from_start, from_data_base, by_stage, compile_in, compile_method,
}
use shujit.Stages.Laws.{compile_method_balanced}
use shujit.Stages.Finish.{compile_method_runs}

abbrev no_jump : JpEntry
no_jump = record { tgtoff = 0; argoff = 0 }

abbrev mem : Malloc
mem = record {
  has_room = λ w. true;
  bytes = λ n. replicate n 0;
  pcentries = λ n. replicate n no_entry;
  jpentries = λ n. replicate n no_jump;
  length-bytes = λ n. length-replicate n 0;
  length-pcentries = λ n. length-replicate n no_entry;
  length-jpentries = λ n. length-replicate n no_jump;
}

abbrev passes : Passes
passes = record {
  make_pc_table = λ k. (k, false);
  make_block_structure = λ k. k;
  peephole_optimization = λ k. k;
  method_inlining = λ k. k;
  eager_compilation = λ k. k;
  update_states = λ k. k;
  write_code = λ k. (k, false);
  resolve_jump_instructions = λ k. k;
  resolve_exc_ret_switch = λ k. k;
  resolve_dynamic_constants = λ c. c;
  resolve_function_symbols = λ c. c;
  read_compiled_code = λ k. none;
  opt_codedb = false;
  inlining_maxlen = 20;
}

abbrev machine : Machine
machine = record {
  world = record {
    infos = λ mb. none;
    contexts = λ c. record { mb = 0; ref_count = 0; stage = start; work = new_work mem };
    pool = [];
    fresh = 0;
  };
  method = record {
    is_abstract = false;
    is_native = false;
    is_synchronized = false;
    has_handlers = false;
    has_code = true;
    invoker = java_method;
    machine_compiled = false;
    compiled_code = none;
    inlineability = inline_unknown;
    inline_table = [];
    monitor = 0;
  };
}

-- The outcome of a run: what runs the method, its monitor, and the failure.
outcome : Option (Machine × Bool) → Option (Invoker × ℕ × Bool)
outcome none = none
outcome (some (m, failed)) = some (m.method.invoker, m.method.monitor, failed)

compiled_at_once :
    outcome (compile_method passes mem 7 complete machine) ≡ some (jit_compiled, 0, false)
unfolding outcome compile_method get_compiler_context prepare_info prepared context_for take_context
    new_compiler_context retain compile_in by_stage from_data_base from_start table_made
    set_inlineability from_internal_code code_written set_code from_static_part finish_code
    reset_compiler_context pctable_clear
compiled_at_once = refl

abbrev taken : World
taken = retain 0 (
    reset_compiler_context 0 (new_work mem) 7 (record (prepare_info 7 machine.world) { fresh = 1 }))

abbrev compiled : Machine
compiled = (compile_in passes complete 0 (record machine { world = taken })).0

compiled_run : compile_method passes mem 7 complete machine ≡ some (compiled, false)
unfolding compile_method get_compiler_context prepare_info prepared context_for take_context
    new_compiler_context retain compile_in by_stage from_data_base from_start table_made
    set_inlineability from_internal_code code_written set_code from_static_part finish_code
    reset_compiler_context pctable_clear
compiled_run = refl

compile_method_balanced_example : compiled.method.monitor ≡ 0
compile_method_balanced_example =
    compile_method_balanced passes mem 7 complete machine compiled false compiled_run

compile_method_runs_example : compiled.method.invoker ≡ jit_compiled
compile_method_runs_example =
    compile_method_runs passes mem 7 machine compiled refl (λ c e. absurd (none-ne-some c e))
      compiled_run

-- Of a method that is compiled in two steps, the context is never released: one reference is left.
references : Option (Machine × Bool) → Option (ℕ × List ℕ)
references none = none
references (some (m, failed)) = some ((m.world.contexts 0).ref_count, m.world.pool)

in_two_steps : Option (Machine × Bool)
in_two_steps = do
  (m, failed) ← compile_method passes mem 7 internal_code machine
  compile_method passes mem 7 complete m

kept_for_ever : references in_two_steps ≡ some (1, [])
unfolding references in_two_steps release_compiler_context set_cc with_cc access2invoker
    compile_method get_compiler_context prepare_info prepared context_for take_context
    new_compiler_context retain compile_in by_stage from_data_base from_start table_made
    set_inlineability from_internal_code code_written set_code from_static_part finish_code
    reset_compiler_context pctable_clear
kept_for_ever = refl
