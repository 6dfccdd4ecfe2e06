-- ===== src/DynamicConstants.antt =====
-- compile.c, resolveDynamicConstants: addresses are put into code that is ready to run, at each compilation and whenever
-- code comes from the data base. `METAVM` is not set, and `PATCH_WITH_SIGTRAP` is.
pub mod Kinds
pub mod Steps
pub mod Stays
mod Examples
