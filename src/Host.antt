-- ===== src/Host.antt =====
-- crates/riaps-host: the block adapter between a sound device and the signal graph.
pub mod Fifo
pub mod Blocks
pub mod Rounds
pub mod Timing
pub mod Session
pub mod Device
pub mod Adapter
