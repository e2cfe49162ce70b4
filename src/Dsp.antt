-- ===== src/Dsp.antt =====
-- The crate crates/riaps-dsp.
pub mod EventBus
pub mod Node
pub mod Publication
pub mod Graph
