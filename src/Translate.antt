-- ===== src/Translate.antt =====
-- compile.c, makePCTable and processAnOpcode: byte code becomes internal instructions.
-- The pc table is the list of what is added to it (PcTable.Edit shows what the table operations do to
-- such a list). What the Java VM knows of fields, classes and methods is a parameter. The features are
-- those of compiler.h on x86 without USE_SSE2 and METAVM; the VM is 1.2 or later.
-- `none` as the outcome of a step is a fault: a read outside the byte code, or of an unresolved entry
-- of the constant pool.
pub mod Bytes
pub mod Names
pub mod Vm
pub mod Decode
pub mod Objects
pub mod Process
pub mod Invoke
pub mod Plan
pub mod Loop
pub mod Proofs
