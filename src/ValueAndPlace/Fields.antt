-- ===== src/ValueAndPlace/Fields.antt =====
-- src/value_and_place.rs, `codegen_field` with `value_field` and `place_field`: the fields of a struct, of
-- which the last may be of unknown size and is then aligned at run time.
use rustc_codegen_cranelift.Common.{ℕ, ◌^◌, ltb, ◌==◌, Option, none, some, if◌then◌else◌}
use rustc_codegen_cranelift.Common.Int.{pos}
use rustc_codegen_cranelift.Clif.{Ty, Clif, isub, iadd_imm, band}
use rustc_codegen_cranelift.Codegen.{
  Tcx, Cg, pure, fail, lift, assert, unwrap, ◌>>=◌, ◌>>◌, Layout, RustTy, slice, str, adt,
  BackendRepr, scalar_pair,
}
use rustc_codegen_cranelift.Types.{has_ptr_meta}
use rustc_codegen_cranelift.Pointer.{Pointer}
use rustc_codegen_cranelift.Pointer
use rustc_codegen_cranelift.FunctionCx.{as_i64}
use rustc_codegen_cranelift.Unsize.{usize_const, select_min, size_and_align_of}
use rustc_codegen_cranelift.ValueAndPlace.{CValue, CValueInner, by_ref, by_val, by_val_pair}
use rustc_codegen_cranelift.ValueAndPlace
use rustc_codegen_cranelift.ValueAndPlace.Place.{
  CPlace, CPlaceInner, var, var_pair, place_addr, for_ptr, for_ptr_with_extra,
}

-- `depth` is how deep the layouts of the program are nested.
module _ (c : Clif) (tcx : Tcx) (pointer_type : Ty) (depth : ℕ) where
  open c use {Value, iconst, binary, binary_imm, icmp, select}

  simple_field : Pointer c → Layout → ℕ → Cg c (Pointer c × Layout)
  simple_field base layout field = do
    assert (ltb (layout.offset field) (2 ^ 63))
    ptr ← lift (Pointer.offset_i64 c pointer_type base (pos (layout.offset field)))
    pure (ptr, tcx.layout_field layout field)

  packed_cap : Option ℕ → Value → Value
  unfolding usize_const select_min
  packed_cap none align = align
  packed_cap (some packed) align =
      select_min c tcx pointer_type align (usize_const c tcx pointer_type packed)

  cap_by : RustTy → Value → Value
  unfolding packed_cap
  cap_by (adt n ts) align = packed_cap (tcx.packed (adt n ts)) align
  cap_by _ align = align

  -- `(align - 1 + offset) & (0 - align)`
  unfoldable pub bump : Value → ℕ → Value
  unfolding usize_const as_i64
  bump align unaligned_offset =
      let align_sub_1 = binary isub align (usize_const c tcx pointer_type 1) in
      let and_lhs = binary_imm iadd_imm align_sub_1 (as_i64 (pos unaligned_offset)) in
      let and_rhs = binary isub (usize_const c tcx pointer_type 0) align in
      binary band and_lhs and_rhs

  aligned_field : Pointer c → Option Value → Layout → ℕ → Cg c (Pointer c × Layout)
  unfolding size_and_align_of cap_by bump
  aligned_field base extra layout field = do
    let field_layout = tcx.layout_field layout field
    (_, unsized_align) ← size_and_align_of c tcx pointer_type depth field_layout extra
    let offset = bump (cap_by layout.ty unsized_align) (layout.offset field)
    pure (Pointer.offset_value c pointer_type base offset, field_layout)

  unsized_field : RustTy → Pointer c → Option Value → Layout → ℕ → Cg c (Pointer c × Layout)
  unfolding simple_field aligned_field
  unsized_field (slice _) base extra layout field = simple_field base layout field
  unsized_field str base extra layout field = simple_field base layout field
  unsized_field _ base extra layout field = aligned_field base extra layout field

  unfoldable pub codegen_field : Pointer c → Option Value → Layout → ℕ → Cg c (Pointer c × Layout)
  unfolding simple_field unsized_field
  codegen_field base extra layout field =
      if tcx.is_sized (tcx.layout_field layout field).ty
      then simple_field base layout field
      else unsized_field (tcx.layout_field layout field).ty base extra layout field

  pair_field : BackendRepr → Value → Value → Layout → ℕ → Cg c (CValue c)
  pair_field (scalar_pair _ _) a b layout field =
      if field == 0
      then pure (ValueAndPlace.val c tcx pointer_type a (tcx.layout_field layout 0))
      else if field == 1
      then pure (ValueAndPlace.val c tcx pointer_type b (tcx.layout_field layout 1))
      else fail
  pair_field _ a b layout field = fail

  field_of_value : CValueInner c → Layout → ℕ → Cg c (CValue c)
  unfolding pair_field codegen_field
  field_of_value (by_val _) layout field = fail
  field_of_value (by_val_pair a b) layout field = pair_field layout.backend_repr a b layout field
  field_of_value (by_ref ptr none) layout field = do
    (field_ptr, field_layout) ← codegen_field ptr none layout field
    pure (ValueAndPlace.at_ref c tcx pointer_type field_ptr field_layout)
  field_of_value (by_ref ptr (some _)) layout field = fail

  -- The field of a value, in Discriminant for a value of known size.
  unfoldable pub codegen_value_field : CValue c → ℕ → Cg c (CValue c)
  unfolding field_of_value
  codegen_value_field v field = field_of_value v.inner v.layout field

  field_in_memory : Pointer c → Option Value → Layout → ℕ → Cg c (CPlace c)
  unfolding codegen_field has_ptr_meta
  field_in_memory base extra layout field = do
    (field_ptr, field_layout) ← codegen_field base extra layout field
    wide ← lift (has_ptr_meta tcx field_layout.ty)
    if wide
        then (do
          meta ← unwrap extra
          pure (for_ptr_with_extra c tcx pointer_type field_ptr meta field_layout))
        else pure (for_ptr c tcx pointer_type field_ptr field_layout)

  field_of_place : CPlaceInner c → Layout → ℕ → Cg c (CPlace c)
  unfolding field_in_memory
  field_of_place (var_pair loc n m) layout field =
      if field == 0
      then pure (record { inner = var loc n; layout = tcx.layout_field layout 0 })
      else if field == 1
      then pure (record { inner = var loc m; layout = tcx.layout_field layout 1 })
      else fail
  field_of_place (var _ _) layout field = fail
  field_of_place (place_addr base extra) layout field = field_in_memory base extra layout field

  unfoldable pub place_field : CPlace c → ℕ → Cg c (CPlace c)
  unfolding field_of_place
  place_field place field = field_of_place place.inner place.layout field
