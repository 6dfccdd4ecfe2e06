-- ===== src/Lib.antt =====
-- shuJIT, a just-in-time compiler for the Classic Java VM on x86: the tables that the compiler works
-- on, the passes over its internal code, and the saving of compiled code.
--
-- compileMethod translates byte code to a table of internal instructions (the pc table), improves the
-- table, writes native code for its entries and resolves the jumps between them; the compiled code may be
-- kept in a data base. The parts, and the files that model them:
--   Stack       stack.c, stack.h: the stack that passes use to follow inlined methods.
--   PcEntry     compiler.h (pcentry and its macros), computil.c (pcentryClear).
--   PcTable     computil.c (pctable*): the table that grows, and its search by program counter.
--   JpTable     computil.c (jptableAdd): the jumps to resolve.
--   BlockStructure  compile.c (makeBlockStructure): targets of jumps, loops, and checks in loops.
--   Peephole    optimize.c (peepholeOptimization).
--   Inlining    optimize.c (methodInlining, methodInlining0).
--   Eager       optimize.c (eagerCompilation).
--   States      compile.c (updateStates): the state of the register cache before each instruction.
--   Jump        compile.c (resolveJumpInstructions, and resolveExcRetSwitch in Exits): operands, and short
--               forms (SHORTEN_JUMP_INSN).
--   Switches    compile.c (resolveExcRetSwitch): the tables of the switch instructions.
--   ExcTable    compile.c (makeExcTable).
--   ThrowTable  computil.c (throwtableExtend, throwtableAdd, throwtableGet): what a signal at a native
--               address stands for.
--   Signature   computil.c (prepareCompiledCodeInfo, the loop over the signature).
--   CodeDb      codedb.c (writeCompiledCode, readCompiledCode).
--   Translate   compile.c (makePCTable, processAnOpcode), the macros GET_UINT16 and the like of compiler.h,
--               opcodes.c (opcode_length): byte code to internal instructions. Bytes reads the byte code,
--               Decode and Objects are the first switch of processAnOpcode, Process is the rest of it, Plan
--               and Invoke are the switch of makePCTable, Loop is its loop with head and tail.
--   Contexts    computil.c (getCompilerContext, releaseCompilerContext and what they call; ensureBufferSize,
--               writeToBuffer): the memory of contexts with their pool, and the buffer for code.
--   Stages      compile.c (compileMethod), computil.c (access2invoker): the passes are parameters.
--   WriteCode   compile.c (writeCode): native code for the pc table. Machine has the parameters and the state, Piece
--               padding, code and break points, Branch the jumps, Kinds and Constants the switch that resolves
--               constants, Rounds the loop; Jumps and Every have the jumps against
--               the byte code.
--   DynamicConstants  compile.c (resolveDynamicConstants): addresses that are put into the finished code.
--   FunctionSymbols  compile.c (resolveFunctionSymbols): the calls of run-time functions.
--   Opcode      opcodes.h, opcodes_internal.h: the opcodes that are named.
--   Base        lists over the native numbers, integers, memory blocks and growing arrays.
-- Translate gives the offsets that PcTable searches, and BlockStructure reads the byte code as it does. Jump,
-- Inlining, CodeDb and the passes use PcTable and PcEntry; States, Inlining and Eager use Stack; Stages uses
-- Contexts.
-- Each folder holds the theorems about the file of its name, and Examples its runs.
--
-- How the code is modelled. A struct is a record with the fields' names, an array that grows is the list of
-- the allocated slots with a length in use and a size, and a pointer into it is an index. Reads and writes
-- outside an array are a result of their own (`fault`) or `none`. Numbers of a fixed width wrap with
-- `% 2 ^ w`; an `int32_t` that may be negative is an integer, or its 32 bits where it is a size or an
-- increment, which are compared with their sign. sysRealloc is a parameter (Base.Memory,
-- Realloc): the new block has the length asked for and keeps the old elements. The dbm library is a
-- parameter (CodeDb, Dbm). Constant pools, access flags, generated tables and the result of compiling
-- another method are parameters of the passes.
--
-- Loops that run on fuel: the doubling of a size (as much fuel as slots are needed), the searches (one more
-- than the length of the table), the peephole pass (the number of entries), the block structure (one more
-- than the number of entries), the signature (its length). The theorems show that this is enough. The loop
-- over the byte code (Translate.Loop, translate_loop) takes its fuel as an argument: the theorems say how
-- much is enough, and when none is. The same fuel bounds the gotos that are followed behind a recursive
-- call; where it does not reach, the outcome is `fault`. inline_loop takes its fuel as an argument, and only
-- its body's splice has a theorem.
--
-- Not modelled: the assembler
-- templates, signals, invokers, run-time support, options, and MetaVM; debugging output everywhere. The
-- compilations that a pass starts for other methods are parameters, or left out (Stages).
pub mod Base
pub mod Stack
pub mod PcEntry
pub mod PcTable
pub mod JpTable
pub mod Jump
pub mod Opcode
pub mod Peephole
pub mod States
pub mod ThrowTable
pub mod CodeDb
pub mod Inlining
pub mod Signature
pub mod Eager
pub mod ExcTable
pub mod Translate
pub mod WriteCode
pub mod DynamicConstants
pub mod FunctionSymbols
pub mod BlockStructure
pub mod Contexts
pub mod Stages
pub mod Switches
