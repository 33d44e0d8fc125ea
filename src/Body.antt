-- ===== src/Body.antt =====
-- src/base.rs: the code of a function body.
pub mod Places
pub mod Operands
pub mod Syntax
pub mod Statements
pub mod Terminators
pub mod Branches
pub mod Jumps
pub mod Repeats
pub mod Assigns
