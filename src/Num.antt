-- ===== src/Num.antt =====
-- src/num.rs: operations on integers, booleans, floats and pointers.
pub mod Compare
pub mod IntOps
pub mod FloatOps
pub mod Exact
pub mod Overflow
pub mod Order
pub mod WidePointers
pub mod FloatMinMax
pub mod Saturating
