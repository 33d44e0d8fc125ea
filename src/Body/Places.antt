-- ===== src/Body/Places.antt =====
-- src/base.rs, `codegen_place`: the place that MIR names by a local and a list of projections, and
-- `codegen_array_len`. Types have been monomorphized.
use rustc_codegen_cranelift.Common.{ℕ, ◌-◌, Bool, true, false, not, leb, Option, List, [], ◌∷◌}
use rustc_codegen_cranelift.Common.Int.{ℤ, pos, ◌+ℤ◌, ◌-ℤ◌, ◌*ℤ◌}
use rustc_codegen_cranelift.Clif.{Ty, Clif, iadd_imm}
use rustc_codegen_cranelift.Codegen.{
  Tcx, Cg, pure, fail, lift, assert, unwrap, ◌>>=◌, ◌>>◌, Result, ok, RustTy, array, slice,
}
use rustc_codegen_cranelift.Pointer.{Pointer}
use rustc_codegen_cranelift.Pointer
use rustc_codegen_cranelift.FunctionCx.{as_i64}
use rustc_codegen_cranelift.Unsize.{usize_const}
use rustc_codegen_cranelift.ValueAndPlace
use rustc_codegen_cranelift.ValueAndPlace.Place.{
  CPlace, for_ptr, for_ptr_with_extra, to_cvalue, to_ptr, to_ptr_unsized, place_transmute_type,
  place_index, place_deref, downcast_variant,
}
use rustc_codegen_cranelift.ValueAndPlace.Fields.{place_field}

-- rustc_middle::mir::PlaceElem
pub data PlaceElem : Type 0 where
  deref : PlaceElem
  opaque_cast subtype : RustTy → PlaceElem
  field index : ℕ → PlaceElem
  constant_index : ℕ → Bool → PlaceElem
  subslice : ℕ → ℕ → Bool → PlaceElem
  downcast : ℕ → PlaceElem

-- `a as i64 * b as i64`, which wraps.
unfoldable pub mul_i64 : ℕ → ℕ → ℤ
unfolding as_i64
mul_i64 a b = as_i64 (as_i64 (pos a) *ℤ as_i64 (pos b))

unfoldable pub neg_i64 : ℤ → ℤ
unfolding as_i64
neg_i64 z = as_i64 (pos 0 -ℤ z)

-- `local_map` has the places of the locals.
module _ (c : Clif) (tcx : Tcx) (pointer_type : Ty) (depth : ℕ)
    (local_map : ℕ → Option (CPlace c)) where
  open c use {Value, binary_imm}

  array_len : RustTy → CPlace c → Result Value
  unfolding usize_const to_ptr_unsized
  array_len (array _ len) place = ok (usize_const c tcx pointer_type len)
  array_len (slice _) place = elim (to_ptr_unsized c tcx pointer_type place) [
    | ok q ↦ ok q.1
    | Result.panic ↦ Result.panic
  ]
  array_len _ place = Result.panic

  unfoldable pub codegen_array_len : CPlace c → Result Value
  unfolding array_len
  codegen_array_len place = array_len place.layout.ty place

  constant_index_value : ℕ → Bool → CPlace c → Cg c Value
  unfolding usize_const codegen_array_len as_i64 neg_i64
  constant_index_value offset false place = pure (usize_const c tcx pointer_type offset)
  constant_index_value offset true place = do
    len ← lift (codegen_array_len place)
    pure (binary_imm iadd_imm len (neg_i64 (as_i64 (pos offset))))

  subslice_of : RustTy → ℕ → ℕ → Bool → CPlace c → Cg c (CPlace c)
  unfolding to_ptr to_ptr_unsized as_i64 mul_i64 neg_i64
  subslice_of (array elem _) from to from_end place = do
    assert (not from_end)
    ptr ← lift (to_ptr c tcx pointer_type place)
    assert (leb from to)
    q ← lift (Pointer.offset_i64 c pointer_type ptr (mul_i64 (tcx.layout_of elem).size from))
    pure (for_ptr c tcx pointer_type q (tcx.layout_of (array elem (to - from))))
  subslice_of (slice elem) from to from_end place = do
    assert from_end
    (ptr, len) ← lift (to_ptr_unsized c tcx pointer_type place)
    q ← lift (Pointer.offset_i64 c pointer_type ptr (mul_i64 (tcx.layout_of elem).size from))
    let shorter = binary_imm iadd_imm len (neg_i64 (as_i64 (pos from) +ℤ as_i64 (pos to)))
    pure (for_ptr_with_extra c tcx pointer_type q shorter place.layout)
  subslice_of _ from to from_end place = fail

  unfoldable pub project : PlaceElem → CPlace c → Cg c (CPlace c)
  unfolding place_deref place_transmute_type place_field place_index to_cvalue constant_index_value
      subslice_of downcast_variant
  project deref place = place_deref c tcx pointer_type place
  project (opaque_cast _) place = fail
  project (subtype ty) place = pure (place_transmute_type c tcx pointer_type place ty)
  project (field n) place = place_field c tcx pointer_type depth place n
  project (index n) place = do
    index_place ← unwrap (local_map n)
    v ← to_cvalue c tcx pointer_type index_place
    i ← ValueAndPlace.load_scalar c tcx pointer_type v
    place_index c tcx pointer_type place i
  project (constant_index offset from_end) place =
      constant_index_value offset from_end place >>= place_index c tcx pointer_type place
  project (subslice from to from_end) place = subslice_of place.layout.ty from to from_end place
  project (downcast variant) place = lift (downcast_variant c tcx pointer_type place variant)

  projections : List PlaceElem → CPlace c → Cg c (CPlace c)
  unfolding project
  projections [] place = pure place
  projections (elem ∷ elems) place = project elem place >>= projections elems

  unfoldable pub codegen_place : ℕ → List PlaceElem → Cg c (CPlace c)
  unfolding projections
  codegen_place n elems = unwrap (local_map n) >>= projections elems
