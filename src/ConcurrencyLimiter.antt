-- ===== src/ConcurrencyLimiter.antt =====
-- src/concurrency_limiter.rs: how many codegen threads may run at once.
pub mod State
pub mod Capacity
pub mod System
pub mod Safety
pub mod Poison
