-- ===== src/Body/Syntax.antt =====
-- The statements and terminators of MIR (rustc_middle::mir) as src/base.rs matches on them. Types have been
-- monomorphized. A place is a local with its projections.
use rustc_codegen_cranelift.Common.{ℕ, Bool, Option, List}
use Prim.Native.String.{String}
use rustc_codegen_cranelift.Codegen.{RustTy, BinOp}
use rustc_codegen_cranelift.Body.Places.{PlaceElem}
use rustc_codegen_cranelift.Body.Operands.{Operand, ConstValue}

pub record MirPlace : Type 0 where
  pub base : ℕ
  pub elems : List PlaceElem

pub data UnOp : Type 0 where
  not neg ptr_metadata : UnOp

-- `scalar_cast` stands for the casts between integers, floats and pointers.
pub data CastKind : Type 0 where
  scalar_cast unsafe_fn_pointer unsize transmute mut_to_const_pointer array_to_pointer : CastKind

pub data NullOp : Type 0 where
  size_of align_of ub_checks : NullOp
  offset_of : List ℕ → NullOp

-- `adt` has the variant and the active field of a union.
pub data AggregateKind : Type 0 where
  array other_aggregate : AggregateKind
  adt : ℕ → Option ℕ → AggregateKind

-- The aggregate of a raw pointer has its type, the data and the metadata.
pub data Rvalue : Type 0 where
  use_operand : Operand → Rvalue
  copy_for_deref ref_to raw_ptr_to discriminant len : MirPlace → Rvalue
  binary_op : BinOp → Operand → Operand → Rvalue
  unary_op : UnOp → Operand → Rvalue
  cast : CastKind → Operand → RustTy → Rvalue
  repeat : Operand → ℕ → Rvalue
  shallow_init_box : Operand → RustTy → Rvalue
  nullary_op : NullOp → RustTy → Rvalue
  raw_ptr_aggregate : RustTy → Operand → Operand → Rvalue
  aggregate : AggregateKind → List Operand → Rvalue

pub data Statement : Type 0 where
  set_discriminant : MirPlace → ℕ → Statement
  assign : MirPlace → Rvalue → Statement
  storage_live storage_dead : ℕ → Statement
  copy_non_overlapping : Operand → Operand → Operand → Statement
  no_code coverage : Statement

-- The messages of assertions with values, and the symbol of the panic function of the others, which
-- may be a check for overflow that is optional.
pub data AssertKind : Type 0 where
  bounds_check misaligned_pointer_dereference : Operand → Operand → AssertKind
  other_assert : String → Bool → AssertKind

-- `none` as the location of an assertion is the caller's.
pub data Terminator : Type 0 where
  goto : ℕ → Terminator
  return unwind_resume unreachable not_at_codegen : Terminator
  assert_that : Operand → Bool → AssertKind → ℕ → Option ConstValue → Terminator
  switch_int : Operand → List (ℕ × ℕ) → ℕ → Terminator
  unwind_terminate : String → Terminator

pub record BasicBlockData : Type 0 where
  pub statements : List Statement
  pub terminator : Terminator
  pub is_cleanup : Bool
