-- ===== src/Contexts.antt =====
-- computil.c, compiler.h: the compiler contexts, their pool, and the buffer of a context.
-- A context has an address, and the pool is the list of the addresses that `next` links. The fields `ee` and `next`
-- and the monitors, which each function enters and leaves again, are not kept.
pub mod Output
pub mod Laws
pub mod Pool
mod Examples
use shujit.Base.{
  ℕ, suc, ◌+◌, ◌-◌, ◌≡◌, List, [], ◌∷◌, Option, none, some, ◌>>=◌, Bool, true, false, ◌==◌, leb,
  if◌then◌else◌, length,
}
use shujit.PcEntry.{PcEntry}
use shujit.PcTable.{PcTable, pctable_clear}
use shujit.JpTable.{JpEntry, JpTable}
use shujit.Contexts.Output.{Buffer}

pub data Stage : Type 0 where
  start internal_code static_part complete : Stage

-- The tables that a compilation fills.
pub record Work : Type 0 where
  pub may_throw : Bool
  pub may_jump : Bool
  pub buffer : Buffer
  pub pctable : PcTable
  pub jptable : JpTable

-- `mb` is the number of a method.
pub record Context : Type 0 where
  pub mb : ℕ
  pub ref_count : ℕ
  pub stage : Stage
  pub work : Work

-- What the context needs of a method's CodeInfo.
pub record Info : Type 0 where
  pub cc : Option ℕ

-- `infos` is `CompiledCodeInfo` of each method, `contexts` is the memory, `pool` is `cc_pool`. `fresh` is the
-- address that sysMalloc gives next.
pub record World : Type 0 where
  pub infos : ℕ → Option Info
  pub contexts : ℕ → Context
  pub pool : List ℕ
  pub fresh : ℕ

-- `sysMalloc` of the Java VM: a new block has the length asked for, what stands in it is not known, and there may
-- be none.
pub record Malloc : Type 0 where
  pub has_room : World → Bool
  pub bytes : ℕ → List ℕ
  pub pcentries : ℕ → List PcEntry
  pub jpentries : ℕ → List JpEntry
  pub length-bytes : (n : ℕ) → length (bytes n) ≡ n
  pub length-pcentries : (n : ℕ) → length (pcentries n) ≡ n
  pub length-jpentries : (n : ℕ) → length (jpentries n) ≡ n

abbrev pub default_buf_size : ℕ
default_buf_size = 8192

abbrev pub default_pctable_size : ℕ
default_pctable_size = 128

abbrev pub default_jptable_size : ℕ
default_jptable_size = 128

abbrev pub put {ℓ} : {A : Type ℓ} → ℕ → A → (ℕ → A) → ℕ → A
put k a f i = if i == k then a else f i

-- `info->cc = cc`, if the method has an info.
unfoldable pub with_cc : Option ℕ → Option Info → Option Info
with_cc cc none = none
with_cc cc (some info) = some (record { cc = cc })

unfoldable pub set_cc : ℕ → Option ℕ → World → World
unfolding with_cc
set_cc mb cc w = record w { infos = put mb (with_cc cc (w.infos mb)) w.infos }

unfoldable pub cleared : Work → Work
cleared k = record {
  may_throw = false;
  may_jump = false;
  buffer = record k.buffer { offset = 0 };
  pctable = pctable_clear k.pctable;
  jptable = record k.jptable { len = 0 };
}

unfoldable pub reset_compiler_context : ℕ → Work → ℕ → World → World
unfolding set_cc cleared
reset_compiler_context c k mb w = set_cc mb (some c) (record w {
  contexts = put c (record { mb = mb; ref_count = 0; stage = start; work = cleared k }) w.contexts;
})

-- The tables of a new context, which resetCompilerContext clears.
unfoldable pub new_work : Malloc → Work
new_work mem = record {
  may_throw = false;
  may_jump = false;
  buffer = record { block = mem.bytes default_buf_size; size = default_buf_size; offset = 0 };
  pctable = record {
    entries = mem.pcentries default_pctable_size;
    len = 0;
    size = default_pctable_size;
    ninsn = 0;
  };
  jptable = record {
    entries = mem.jpentries default_jptable_size;
    len = 0;
    size = default_jptable_size;
  };
}

-- `none` stands for the null pointer.
unfoldable pub new_compiler_context : Malloc → ℕ → World → Option (ℕ × World)
unfolding new_work reset_compiler_context
new_compiler_context mem mb w =
    if mem.has_room w
    then some (
      w.fresh,
      reset_compiler_context w.fresh (new_work mem) mb (record w { fresh = suc w.fresh }),
    )
    else none

-- `prepareCompiledCodeInfo`, where the method has no info.
unfoldable pub prepared : Option Info → Info
prepared none = record { cc = none }
prepared (some info) = info

unfoldable pub prepare_info : ℕ → World → World
unfolding prepared
prepare_info mb w = record w { infos = put mb (some (prepared (w.infos mb))) w.infos }

-- A context from the pool, or a new one.
unfoldable pub take_context : Malloc → ℕ → List ℕ → World → Option (ℕ × World)
unfolding new_compiler_context reset_compiler_context
take_context mem mb [] w = new_compiler_context mem mb w
take_context mem mb (c ∷ rest) w =
    some (c, reset_compiler_context c (w.contexts c).work mb (record w { pool = rest }))

unfoldable pub retain : ℕ → World → World
retain c w = record w {
  contexts = put c (record (w.contexts c) { ref_count = (w.contexts c).ref_count + 1 }) w.contexts;
}

-- The context that the method has, if it has one.
unfoldable pub context_for : Malloc → ℕ → Option ℕ → World → Option (ℕ × World)
unfolding take_context
context_for mem mb none w = take_context mem mb w.pool w
context_for mem mb (some c) w = some (c, w)

-- `none`: the code writes through the null pointer.
unfoldable pub get_compiler_context : Malloc → ℕ → World → Option (ℕ × World)
unfolding prepare_info context_for retain
get_compiler_context mem mb w = do
  let w1 = prepare_info mb w
  (c, w2) ← context_for mem mb (prepared (w.infos mb)).cc w1
  some (c, retain c w2)

-- `ref_count--; if (ref_count <= 0)`. A count that would be negative is 0 here: the context is released all
-- the same, and the count is set when it leaves the pool.
unfoldable pub release_compiler_context : ℕ → World → World
unfolding set_cc
release_compiler_context c w =
    let w1 = record w {
      contexts =
          put c (record (w.contexts c) { ref_count = (w.contexts c).ref_count - 1 }) w.contexts;
    } in
    if leb (w.contexts c).ref_count 1
    then (let w2 = set_cc (w.contexts c).mb none w1 in record w2 { pool = c ∷ w2.pool })
    else w1
