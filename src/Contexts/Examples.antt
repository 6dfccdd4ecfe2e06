-- ===== src/Contexts/Examples.antt =====
-- A method takes a context and gives it back.
use shujit.Base.{
  ◌≡◌, refl, arith, [], ◌∷◌, ◌++◌, none, some, none-ne-some, true, replicate, length-replicate,
  padded,
}
use shujit.PcTable.{no_entry}
use shujit.JpTable.{JpEntry}
use shujit.Contexts.{
  start, Context, World, Malloc, with_cc, set_cc, reset_compiler_context, new_work,
  new_compiler_context, prepared, prepare_info, take_context, context_for, retain,
  get_compiler_context, release_compiler_context,
}
use shujit.Contexts.Output.{Buffer, IsValid, written, write_to_buffer, write_to_buffer-total}
use shujit.Contexts.Laws.{cc_of, IsSound}
use shujit.Contexts.Pool.{
  Clean, get_compiler_context-IsSound, release_compiler_context-IsSound, get_compiler_context-Clean,
}

abbrev no_jump : JpEntry
no_jump = record { tgtoff = 0; argoff = 0 }

abbrev pub mem : Malloc
mem = record {
  has_room = λ w. true;
  bytes = λ n. replicate n 0;
  pcentries = λ n. replicate n no_entry;
  jpentries = λ n. replicate n no_jump;
  length-bytes = λ n. length-replicate n 0;
  length-pcentries = λ n. length-replicate n no_entry;
  length-jpentries = λ n. length-replicate n no_jump;
}

abbrev pub blank : Context
blank = record { mb = 0; ref_count = 0; stage = start; work = new_work mem }

abbrev pub world : World
world = record { infos = λ mb. none; contexts = λ c. blank; pool = []; fresh = 0 }

pub world-IsSound : IsSound world
world-IsSound = record { owned = λ mb c e. absurd (none-ne-some c e); distinct = tt; under = tt }

abbrev taken : World
taken =
    retain 0
      (reset_compiler_context 0 (new_work mem) 7 (record (prepare_info 7 world) { fresh = 1 }))

taken_run : get_compiler_context mem 7 world ≡ some (0, taken)
unfolding get_compiler_context context_for take_context new_compiler_context prepared prepare_info
taken_run = refl

get_compiler_context-IsSound_example : IsSound taken
get_compiler_context-IsSound_example =
    get_compiler_context-IsSound mem 7 world 0 taken world-IsSound taken_run

taken_cc : cc_of taken 7 ≡ some 0
unfolding retain reset_compiler_context set_cc with_cc prepare_info prepared
taken_cc = refl

release_compiler_context-IsSound_example : IsSound (release_compiler_context 0 taken)
release_compiler_context-IsSound_example =
    release_compiler_context-IsSound 7 0 taken
      (get_compiler_context-IsSound mem 7 world 0 taken world-IsSound taken_run) taken_cc

get_compiler_context-Clean_example : Clean 7 (taken.contexts 0)
get_compiler_context-Clean_example = get_compiler_context-Clean mem 7 world 0 taken refl taken_run

-- The released context is in the pool, and the method has none.
released_pool : (release_compiler_context 0 taken).pool ≡ 0 ∷ []
unfolding release_compiler_context retain reset_compiler_context set_cc prepare_info
released_pool = refl

abbrev small : Buffer
small = record { block = 1 ∷ 2 ∷ []; size = 2; offset = 1 }

small-IsValid : IsValid small
small-IsValid = record { block = refl; inside = omega arith; some_room = omega arith }

write_to_buffer-total_example :
    (b' : Buffer) × (write_to_buffer (padded 0) small (7 ∷ 8 ∷ 9 ∷ []) ≡ some b')
    × IsValid b'
    × (written b' ≡ written small ++ 7 ∷ 8 ∷ 9 ∷ [])
write_to_buffer-total_example =
    write_to_buffer-total (padded 0) small (7 ∷ 8 ∷ 9 ∷ []) small-IsValid (omega arith)
