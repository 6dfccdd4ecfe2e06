-- ===== src/WriteCode/Machine.antt =====
-- What writeCode reads and keeps. `METHOD_INLINING`, `EXC_BY_SIGNAL`, `PATCH_WITH_SIGTRAP`, `ALIGN_JUMP_TARGET`,
-- `INVINTF_INLINE_CACHE` and `ELIMINATE_TAIL_RECURSION` are set; `METAVM` and `RUNTIME_DEBUG` are not.
use shujit.Base.{ℕ, List, Option, some, ◌>>=◌, Bool, ℤ, Realloc, if◌then◌else◌, ◌==◌, write_at}
use shujit.Stack.{Stack}
use shujit.PcEntry.{PcEntry, state}
use shujit.PcTable.{PcTable}
use shujit.JpTable.{JpEntry, JpTable, jptable_add}
use shujit.ThrowTable.{ThrowEntry, ThrowTable}
use shujit.Contexts.Output.{Buffer, write_to_buffer}
use shujit.States.{ststa}
use shujit.Jump.{le_bytes}

-- `piece` is the code at `assembledCode + code_table[opcode][state].offset`, of the length given there. `signals`:
-- `OPC_SIGNAL_MASK` of the byte before it. `constant_at` is `constant_table`.
pub record Templates : Type 0 where
  pub piece : ℕ → ℕ → List ℕ
  pub signals : ℕ → ℕ → Bool
  pub last_state : ℕ → ℕ → ℕ
  pub constant_at : ℕ → ℕ → ℕ → ℕ

-- Which entries of the constant pool of a method's class are resolved.
abbrev pub ResolvedEntries : Type 0
ResolvedEntries = ℤ → ℤ → Bool

-- Methods are pointers, as in the stack; the constant pool of a method is that of its class. `resolve` is
-- `ResolveClassConstantFromClass2`, by the method, the index and the kinds of constants allowed; `none` is an exception.
pub record Pools : Type 0 where
  pub code : ℤ → List ℕ
  pub pool_word : ℤ → ℤ → ℕ
  pub pool_string : ℤ → ℤ → Bool
  pub pool_method : ℤ → ℤ → ℤ
  pub pool_class : ℤ → ℤ → ℕ
  pub field_offset : ℤ → ℤ → ℕ
  pub class_of : ℤ → ℕ
  pub class_initialized : ℕ → Bool
  pub args_size : ℤ → ℕ
  pub nlocals : ℤ → ℕ
  pub table_slot : ℤ → ℕ
  pub resolve : ℤ → ℤ → ℕ → ResolvedEntries → Option ResolvedEntries

pub record Memory : Type 0 where
  pub bytes : Realloc ℕ
  pub pcentries : Realloc PcEntry
  pub jpentries : Realloc JpEntry
  pub throwentries : Realloc ThrowEntry
  pub elems : Realloc ℤ

-- The context, the code info of the method, and the local variables. The size of the code is an `int`.
pub record Writing : Type 0 where
  pub buffer : Buffer
  pub pctable : PcTable
  pub jptable : JpTable
  pub throwtable : ThrowTable
  pub exc_handler_nativeoff : ℕ
  pub finish_return_nativeoff : ℕ
  pub nativeoff : ℕ
  pub nextoff : ℕ
  pub insn_head_off : ℕ
  pub mb : ℤ
  pub stack : Stack
  pub resolved : ResolvedEntries

-- `cc->buffer[at] = byte`, and `memcpy` of a word.
abbrev pub poke : ℕ → List ℕ → Writing → Writing
poke at bytes s = record s { buffer = record s.buffer { block = write_at at bytes s.buffer.block } }

abbrev pub poke_word : ℕ → ℕ → Writing → Writing
poke_word at word = poke at (le_bytes word)

-- `last_state`, with `STSTA` for the state that is there.
unfoldable pub state_behind : Templates → PcEntry → ℕ
state_behind t e =
    let last = t.last_state e.opcode (state e) in if last == ststa then state e else last

module _ (mem : Memory) where
  -- `writeToBuffer`, where the offset is counted elsewhere.
  unfoldable pub write_bytes : Writing → List ℕ → Option Writing
  write_bytes s bytes = do
    b ← write_to_buffer mem.bytes s.buffer bytes
    some (record s { buffer = b })

  -- `jptableAdd`
  unfoldable pub register_jump : Writing → ℕ → ℕ → Option Writing
  register_jump s tgtoff argoff = do
    j ← jptable_add mem.jpentries s.jptable tgtoff argoff
    some (record s { jptable = j })
