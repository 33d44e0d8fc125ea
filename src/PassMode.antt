-- ===== src/PassMode.antt =====
-- src/abi/pass_mode.rs: how an argument is passed.
pub mod Params
pub mod Values
pub mod Covers
pub mod Casted
pub mod CastRoundTrip
