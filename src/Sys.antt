-- ===== src/Sys.antt =====
-- The crate crates/riaps-sys.
pub mod Thread
pub mod Probe
pub mod Fpu
