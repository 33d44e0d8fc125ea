-- ===== src/Optimize.antt =====
-- src/optimize/: the peephole optimizations.
pub mod Peephole
pub mod Meaning
