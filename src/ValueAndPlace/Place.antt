-- ===== src/ValueAndPlace/Place.antt =====
-- src/value_and_place.rs, `CPlace`: a place that a value is written to or read from, and the values and
-- places inside others at a distance that is known.
use rustc_codegen_cranelift.Common.{
  ℕ, ◌+◌, ◌-◌, ◌*◌, ◌^◌, ◌==◌, ltb, leb, Option, none, some, if◌then◌else◌,
}
use rustc_codegen_cranelift.Common.Int.{pos}
use rustc_codegen_cranelift.Clif.{Ty, Clif, imul_imm}
use rustc_codegen_cranelift.Codegen.{
  Tcx, Cg, pure, fail, lift, assert, unwrap, reads, ◌>>=◌, ◌>>◌, Result, ok, panic, Layout, RustTy,
  array, slice,
}
use rustc_codegen_cranelift.Types.{clif_type, clif_pair_type, has_ptr_meta}
use rustc_codegen_cranelift.Pointer.{Pointer}
use rustc_codegen_cranelift.Pointer
use rustc_codegen_cranelift.FunctionCx.{create_stack_slot, as_i64}
use rustc_codegen_cranelift.ValueAndPlace.{CValue, CValueInner, by_ref, by_val, by_val_pair}
use rustc_codegen_cranelift.ValueAndPlace

pub data CPlaceInner (c : Clif) : Type 0 where
  var : ℕ → ℕ → CPlaceInner c
  var_pair : ℕ → ℕ → ℕ → CPlaceInner c
  place_addr : Pointer c → Option c.Value → CPlaceInner c

pub record CPlace (c : Clif) : Type 0 where
  pub inner : CPlaceInner c
  pub layout : Layout

module _ (c : Clif) (tcx : Tcx) (pointer_type : Ty) where
  open c use {Value, binary_imm, use_var, declare_var}

  abbrev pub for_ptr : Pointer c → Layout → CPlace c
  for_ptr ptr layout = record { inner = place_addr ptr none; layout = layout }

  abbrev pub for_ptr_with_extra : Pointer c → Value → Layout → CPlace c
  for_ptr_with_extra ptr extra layout = record {
    inner = place_addr ptr (some extra);
    layout = layout;
  }

  -- A slot on the stack, or no memory for an empty type.
  unfoldable pub new_stack_slot : Layout → Cg c (CPlace c)
  unfolding create_stack_slot
  new_stack_slot layout =
      assert (tcx.is_sized layout.ty)
      >> (if layout.size == 0
          then pure (for_ptr (Pointer.dangling_at c pointer_type layout.pref_align) layout)
          else if leb (2 ^ 32 - 1 - 16) layout.size
          then fail
          else (assert (ltb layout.pref_align (2 ^ 32))
              >> (create_stack_slot c tcx pointer_type layout.size layout.pref_align >>= λ slot.
                  pure (for_ptr slot layout))))

  unfoldable pub declare : Ty → Cg c ℕ
  declare t fx = let (n, fx') = declare_var t fx in ok (n, fx')

  unfoldable pub new_var : ℕ → Layout → Cg c (CPlace c)
  unfolding clif_type declare
  new_var loc layout = do
    t ← lift (clif_type tcx layout.ty)
    ty ← unwrap t
    n ← declare ty
    pure (record { inner = var loc n; layout = layout })

  unfoldable pub new_var_pair : ℕ → Layout → Cg c (CPlace c)
  unfolding clif_pair_type declare
  new_var_pair loc layout = do
    t ← lift (clif_pair_type tcx layout.ty)
    (ty1, ty2) ← unwrap t
    n1 ← declare ty1
    n2 ← declare ty2
    pure (record { inner = var_pair loc n1 n2; layout = layout })

  value_in : CPlaceInner c → Layout → Cg c (CValue c)
  value_in (var _ n) layout =
      reads (use_var n) >>= λ v. pure (ValueAndPlace.val c tcx pointer_type v layout)
  value_in (var_pair _ n m) layout = do
    v1 ← reads (use_var n)
    v2 ← reads (use_var m)
    pure (ValueAndPlace.val_pair c tcx pointer_type v1 v2 layout)
  value_in (place_addr ptr extra) layout =
      pure (record { inner = by_ref ptr extra; layout = layout })

  -- The value that the place holds.
  unfoldable pub to_cvalue : CPlace c → Cg c (CValue c)
  unfolding value_in
  to_cvalue place = value_in place.inner place.layout

  ptr_of : CPlaceInner c → Result (Pointer c)
  ptr_of (place_addr ptr none) = ok ptr
  ptr_of _ = panic

  unfoldable pub to_ptr : CPlace c → Result (Pointer c)
  unfolding ptr_of
  to_ptr place = ptr_of place.inner

  ptr_unsized_of : CPlaceInner c → Result (Pointer c × Value)
  ptr_unsized_of (place_addr ptr (some extra)) = ok (ptr, extra)
  ptr_unsized_of _ = panic

  unfoldable pub to_ptr_unsized : CPlace c → Result (Pointer c × Value)
  unfolding ptr_unsized_of
  to_ptr_unsized place = ptr_unsized_of place.inner

  try_ptr_of : CPlaceInner c → Result (Option (Pointer c))
  try_ptr_of (place_addr ptr none) = ok (some ptr)
  try_ptr_of (place_addr ptr (some _)) = panic
  try_ptr_of _ = ok none

  unfoldable pub place_try_to_ptr : CPlace c → Result (Option (Pointer c))
  unfolding try_ptr_of
  place_try_to_ptr place = try_ptr_of place.inner

  unfoldable pub place_transmute_type : CPlace c → RustTy → CPlace c
  place_transmute_type place ty = record { inner = place.inner; layout = tcx.layout_of ty }

  unfoldable pub downcast_variant : CPlace c → ℕ → Result (CPlace c)
  downcast_variant place variant =
      if tcx.is_sized place.layout.ty
      then ok (record { inner = place.inner; layout = tcx.for_variant place.layout variant })
      else panic

  -- The element of an array or a slice.
  unfoldable pub indexed : RustTy → CPlaceInner c → Result (Layout × Pointer c)
  indexed (array elem _) (place_addr addr none) = ok (tcx.layout_of elem, addr)
  indexed (slice elem) (place_addr addr (some extra)) = ok (tcx.layout_of elem, addr)
  indexed _ _ = panic

  unfoldable pub place_index : CPlace c → Value → Cg c (CPlace c)
  unfolding indexed as_i64
  place_index place index = do
    (elem_layout, ptr) ← lift (indexed place.layout.ty place.inner)
    let offset = binary_imm imul_imm index (as_i64 (pos elem_layout.size))
    pure (for_ptr (Pointer.offset_value c pointer_type ptr offset) elem_layout)

  unfoldable pub place_deref : CPlace c → Cg c (CPlace c)
  unfolding to_cvalue has_ptr_meta
  place_deref place = do
    pointee ← unwrap (tcx.builtin_deref place.layout.ty)
    let inner_layout = tcx.layout_of pointee
    wide ← lift (has_ptr_meta tcx inner_layout.ty)
    v ← to_cvalue place
    if wide
        then (do
          (addr, extra) ← ValueAndPlace.load_scalar_pair c tcx pointer_type v
          pure (for_ptr_with_extra (Pointer.new c pointer_type addr) extra inner_layout))
        else (do
          addr ← ValueAndPlace.load_scalar c tcx pointer_type v
          pure (for_ptr (Pointer.new c pointer_type addr) inner_layout))

  -- A reference to the place.
  unfoldable pub place_ref : CPlace c → Layout → Cg c (CValue c)
  unfolding has_ptr_meta to_ptr to_ptr_unsized
  place_ref place layout = do
    wide ← lift (has_ptr_meta tcx place.layout.ty)
    if wide
        then (do
          (ptr, extra) ← lift (to_ptr_unsized place)
          pure (
              ValueAndPlace.val_pair c tcx pointer_type (Pointer.get_addr c pointer_type ptr) extra
                layout))
        else (do
          ptr ← lift (to_ptr place)
          pure (ValueAndPlace.val c tcx pointer_type (Pointer.get_addr c pointer_type ptr) layout))

  -- The lane of a vector, with the layout of a lane.
  lane_ptr : CPlaceInner c → ℕ → Cg c (Pointer c)
  lane_ptr (place_addr ptr none) offset = lift (Pointer.offset_i64 c pointer_type ptr (pos offset))
  lane_ptr _ offset = fail

  unfoldable pub place_lane : CPlace c → ℕ → Cg c (CPlace c)
  unfolding lane_ptr
  place_lane place lane_idx = do
    assert (tcx.is_simd place.layout.ty)
    let (lane_count, lane_ty) = tcx.simd_size_and_type place.layout.ty
    assert (ltb lane_idx lane_count)
    ptr ← lane_ptr place.inner ((tcx.layout_of lane_ty).size * lane_idx)
    pure (for_ptr ptr (tcx.layout_of lane_ty))

  unfoldable pub place_typed_lane : CPlace c → RustTy → ℕ → Cg c (CPlace c)
  unfolding lane_ptr
  place_typed_lane place lane_ty lane_idx = do
    assert (tcx.is_simd place.layout.ty)
    let (orig_count, orig_ty) = tcx.simd_size_and_type place.layout.ty
    let lane_size = (tcx.layout_of lane_ty).size
    assert (leb ((lane_idx + 1) * lane_size) (orig_count * (tcx.layout_of orig_ty).size))
    ptr ← lane_ptr place.inner (lane_size * lane_idx)
    pure (for_ptr ptr (tcx.layout_of lane_ty))

  -- The same for values.
  value_lane_ptr : CValueInner c → ℕ → Cg c (Pointer c)
  value_lane_ptr (by_ref ptr none) offset =
      lift (Pointer.offset_i64 c pointer_type ptr (pos offset))
  value_lane_ptr _ offset = fail

  unfoldable pub value_lane : CValue c → ℕ → Cg c (CValue c)
  unfolding value_lane_ptr
  value_lane v lane_idx = do
    assert (tcx.is_simd v.layout.ty)
    let (lane_count, lane_ty) = tcx.simd_size_and_type v.layout.ty
    assert (ltb lane_idx lane_count)
    ptr ← value_lane_ptr v.inner ((tcx.layout_of lane_ty).size * lane_idx)
    pure (ValueAndPlace.at_ref c tcx pointer_type ptr (tcx.layout_of lane_ty))

  unfoldable pub value_typed_lane : CValue c → RustTy → ℕ → Cg c (CValue c)
  unfolding value_lane_ptr
  value_typed_lane v lane_ty lane_idx = do
    assert (tcx.is_simd v.layout.ty)
    let (orig_count, orig_ty) = tcx.simd_size_and_type v.layout.ty
    let lane_size = (tcx.layout_of lane_ty).size
    assert (leb ((lane_idx + 1) * lane_size) (orig_count * (tcx.layout_of orig_ty).size))
    ptr ← value_lane_ptr v.inner (lane_size * lane_idx)
    pure (ValueAndPlace.at_ref c tcx pointer_type ptr (tcx.layout_of lane_ty))

  lane_dyn : CValueInner c → Value → Layout → Cg c (CValue c)
  lane_dyn (by_ref ptr none) offset layout = pure (
      ValueAndPlace.at_ref c tcx pointer_type (Pointer.offset_value c pointer_type ptr offset)
        layout)
  lane_dyn _ offset layout = fail

  unfoldable pub value_lane_dyn : CValue c → Value → Cg c (CValue c)
  unfolding lane_dyn as_i64
  value_lane_dyn v lane_idx = do
    assert (tcx.is_simd v.layout.ty)
    let (_, lane_ty) = tcx.simd_size_and_type v.layout.ty
    let lane_layout = tcx.layout_of lane_ty
    lane_dyn v.inner (binary_imm imul_imm lane_idx (as_i64 (pos lane_layout.size))) lane_layout

  try_to_ptr_of : CValueInner c → Option (Pointer c × Option Value)
  try_to_ptr_of (by_ref ptr meta) = some (ptr, meta)
  try_to_ptr_of _ = none

  unfoldable pub try_to_ptr : CValue c → Option (Pointer c × Option Value)
  unfolding try_to_ptr_of
  try_to_ptr v = try_to_ptr_of v.inner
