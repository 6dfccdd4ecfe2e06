-- ===== src/WriteCode.antt =====
-- compile.c, writeCode: native code for the entries of the pc table. The pieces of code that the assembler made, with their
-- states and the places of their constants, are a parameter; so are the constant pools and their resolution.
-- Machine has the state and the parameters, Piece what is written for an entry, Branch the jumps behind it, Constants the
-- switch that resolves constants, and Rounds the loop. Layout says when a buffer and its jump table are laid as sites.
pub mod Machine
pub mod Piece
pub mod Branch
pub mod Kinds
pub mod Constants
pub mod Rounds
pub mod Grown
pub mod Layout
pub mod Keeps
pub mod PieceLaid
pub mod AppendLaid
pub mod BranchLaid
pub mod Appends
pub mod Jumps
pub mod ConstantsLaid
pub mod Sound
pub mod Align
pub mod Every
mod Examples
