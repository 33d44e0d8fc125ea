-- ===== src/ValueAndPlace.antt =====
-- src/value_and_place.rs: the values that code generation computes with.
pub mod Assignable
pub mod Place
pub mod Write
pub mod ReadBack
pub mod ReadBackPair
pub mod Fields
pub mod Elements
pub mod Literals
use rustc_codegen_cranelift.Common.{
  ℕ, ◌+◌, ◌-◌, ◌*◌, ◌/◌, ◌^◌, Option, none, some, ltb, if◌then◌else◌,
}
use rustc_codegen_cranelift.Common.Int.{pos}
use rustc_codegen_cranelift.Clif.{Ty, by, Clif}
use rustc_codegen_cranelift.Codegen.{
  Tcx, Cg, pure, fail, lift, ◌>>=◌, Result, ok, panic, Layout, BackendRepr, scalar, scalar_pair,
  vector, Primitive,
}
use rustc_codegen_cranelift.Pointer.{Pointer}
use rustc_codegen_cranelift.Pointer
use rustc_codegen_cranelift.Types.{scalar_to_clif_type}

pub data CValueInner (c : Clif) : Type 0 where
  by_ref : Pointer c → Option c.Value → CValueInner c
  by_val : c.Value → CValueInner c
  by_val_pair : c.Value → c.Value → CValueInner c

pub record CValue (c : Clif) : Type 0 where
  pub inner : CValueInner c
  pub layout : Layout

-- `Size::align_to`, for an alignment that is not zero.
unfoldable pub align_to : ℕ → ℕ → ℕ
align_to size align = (size + align - 1) / align * align

module _ (c : Clif) (tcx : Tcx) (pointer_type : Ty) where
  open c use {Value}

  abbrev pub val : Value → Layout → CValue c
  val v layout = record { inner = by_val v; layout = layout }

  abbrev pub val_pair : Value → Value → Layout → CValue c
  val_pair a b layout = record { inner = by_val_pair a b; layout = layout }

  abbrev pub at_ref : Pointer c → Layout → CValue c
  at_ref p layout = record { inner = by_ref p none; layout = layout }

  -- Where the second scalar of a pair lies. A primitive has at most 16 bytes and as large an alignment, so that
  -- the offset is always an `Offset32`.
  unfoldable pub scalar_pair_calculate_b_offset : Primitive → Primitive → ℕ
  unfolding align_to
  scalar_pair_calculate_b_offset a b = align_to (tcx.prim_size a) (tcx.prim_align b)

  repr_type : BackendRepr → Result Ty
  unfolding scalar_to_clif_type
  repr_type (scalar s) = scalar_to_clif_type tcx s
  repr_type (vector element count) = elim (scalar_to_clif_type tcx element) [
    | ok t ↦
        if ltb count (2 ^ 32)
        then elim (tcx.type_by t count) [ some u ↦ ok u | none ↦ panic ]
        else panic
    | panic ↦ panic
  ]
  repr_type _ = panic

  load_inner : CValueInner c → BackendRepr → Cg c Value
  unfolding repr_type
  load_inner (by_ref p none) repr =
      lift (repr_type repr) >>= λ t. Pointer.load_ptr c pointer_type p t
  load_inner (by_ref p (some meta)) repr = fail
  load_inner (by_val v) repr = pure v
  load_inner (by_val_pair a b) repr = fail

  unfoldable pub load_scalar : CValue c → Cg c Value
  unfolding load_inner
  load_scalar v = load_inner v.inner v.layout.backend_repr

  unfoldable pub load_pair_at : Pointer c → BackendRepr → Cg c (Value × Value)
  load_pair_at p (scalar_pair a b) = do
    ty1 ← lift (scalar_to_clif_type tcx a)
    ty2 ← lift (scalar_to_clif_type tcx b)
    val1 ← Pointer.load_ptr c pointer_type p ty1
    q ← lift (Pointer.offset_i64 c pointer_type p (pos (scalar_pair_calculate_b_offset a b)))
    val2 ← Pointer.load_ptr c pointer_type q ty2
    pure (val1, val2)
  load_pair_at p _ = fail

  load_pair_inner : CValueInner c → BackendRepr → Cg c (Value × Value)
  unfolding load_pair_at
  load_pair_inner (by_ref p none) repr = load_pair_at p repr
  load_pair_inner (by_ref p (some meta)) repr = fail
  load_pair_inner (by_val v) repr = fail
  load_pair_inner (by_val_pair a b) repr = pure (a, b)

  unfoldable pub load_scalar_pair : CValue c → Cg c (Value × Value)
  unfolding load_pair_inner
  load_scalar_pair v = load_pair_inner v.inner v.layout.backend_repr
