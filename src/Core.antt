-- ===== src/Core.antt =====
-- crates/riaps-core: the lock-free primitives.
pub mod Spsc
pub mod Queue
pub mod Emergency
pub mod Gc
pub mod Rcu
