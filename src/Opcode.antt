-- ===== src/Opcode.antt =====
-- opcodes.h, opcodes_internal.h: the opcodes of the byte code (below 230) and of the internal code
-- that the model names.
mod Constant
mod Load
mod Store
mod Arithmetic
mod Control
mod Object
mod Quick
mod Internal
mod Float
mod Special
pub use Constant.*
pub use Load.*
pub use Store.*
pub use Arithmetic.*
pub use Control.*
pub use Object.*
pub use Quick.*
pub use Internal.*
pub use Float.*
pub use Special.*
