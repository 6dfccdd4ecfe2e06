-- ===== src/Translate/Proofs.antt =====
-- What the translation of byte code does to the table.
pub mod Bounded
pub mod Positive
pub mod Moves
pub mod AddsAt
pub mod Parts
pub mod Keeps
pub mod Own
pub mod Order
pub mod Ends
pub mod Whole
mod Examples
