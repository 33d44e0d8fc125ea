-- ===== src/ValueAndPlace/Write.antt =====
-- src/value_and_place.rs: writing a value to a place, `write_cvalue` and `write_cvalue_transmute`, and
-- `force_stack`, which writes a value to a fresh stack slot.
use rustc_codegen_cranelift.Common.{
  ℕ, Bool, true, false, ◌&&◌, ◌||◌, ◌==◌, leb, Option, none, some, if◌then◌else◌,
}
use rustc_codegen_cranelift.Common.Int.{pos}
use rustc_codegen_cranelift.Clif.{Ty, i32, i64, f32, f64, ty_eq, ty_bytes, is_vector, Clif, Convert}
use rustc_codegen_cranelift.Codegen.{
  Tcx, Cg, pure, fail, lift, assert, unwrap, writes, ◌>>=◌, ◌>>◌, Layout, BackendRepr, scalar,
  scalar_pair, uninhabited,
}
use rustc_codegen_cranelift.Types.{clif_type, clif_pair_type}
use rustc_codegen_cranelift.Pointer.{Pointer}
use rustc_codegen_cranelift.Pointer
use rustc_codegen_cranelift.FunctionCx.{create_stack_slot}
use rustc_codegen_cranelift.ValueAndPlace
use rustc_codegen_cranelift.ValueAndPlace.{
  CValue, CValueInner, by_ref, by_val, by_val_pair, load_scalar, load_scalar_pair,
  scalar_pair_calculate_b_offset,
}
use rustc_codegen_cranelift.ValueAndPlace.Assignable.{assignable}
use rustc_codegen_cranelift.ValueAndPlace.Place.{
  CPlace, CPlaceInner, var, var_pair, place_addr, new_stack_slot, to_ptr,
}

-- The pairs of scalar types that a bitcast goes between.
unfoldable pub same_bits : Ty → Ty → Bool
same_bits i32 f32 = true
same_bits f32 i32 = true
same_bits i64 f64 = true
same_bits f64 i64 = true
same_bits _ _ = false

unfoldable pub is_uninhabited_repr : BackendRepr → Bool
is_uninhabited_repr uninhabited = true
is_uninhabited_repr _ = false

-- Alignments for `emit_small_memory_copy`, which takes a `u8`.
unfoldable pub u8_align : ℕ → ℕ
u8_align align = if leb 256 align then 128 else align

module _ (c : Clif) (tcx : Tcx) (pointer_type : Ty) where
  open c use {Value, value_type, convert, def_var, emit_small_memory_copy}

  unfoldable pub codegen_bitcast : Ty → Value → Value
  codegen_bitcast ty v = convert Convert.bitcast ty v

  -- Through a slot on the stack, from a vector or to one.
  through_stack : Ty → Value → Cg c Value
  unfolding create_stack_slot
  through_stack dst_ty v = do
    let bytes = ty_bytes (value_type v)
    ptr ← create_stack_slot c tcx pointer_type bytes bytes
    Pointer.store_ptr c pointer_type ptr v
    Pointer.load_ptr c pointer_type ptr dst_ty

  transmuted : Ty → Value → Cg c Value
  unfolding ty_eq same_bits is_vector codegen_bitcast through_stack
  transmuted dst_ty v =
      let src_ty = value_type v in
      if ty_eq src_ty dst_ty
      then pure v
      else if same_bits src_ty dst_ty
      then pure (codegen_bitcast dst_ty v)
      else if is_vector src_ty && is_vector dst_ty
      then pure (codegen_bitcast dst_ty v)
      else if is_vector src_ty || is_vector dst_ty
      then through_stack dst_ty v
      else fail

  -- The variable becomes the data, as a value of the variable's type.
  unfoldable pub transmute_scalar : ℕ → Value → Ty → Cg c (Unit {0})
  unfolding transmuted
  transmute_scalar n v dst_ty =
      assert (ty_bytes (value_type v) == ty_bytes dst_ty)
      >> (transmuted dst_ty v >>= λ w. writes (def_var n w))

  -- Two scalars, the second at its offset.
  unfoldable pub store_pair : Pointer c → BackendRepr → Value × Value → Cg c (Unit {0})
  unfolding scalar_pair_calculate_b_offset
  store_pair ptr (scalar_pair a b) (val1, val2) =
      Pointer.store_ptr c pointer_type ptr val1
      >> (lift (
            Pointer.offset_i64 c pointer_type ptr
              (pos (ValueAndPlace.scalar_pair_calculate_b_offset c tcx pointer_type a b)))
          >>= λ q. Pointer.store_ptr c pointer_type q val2)
  store_pair ptr _ vals = fail

  -- A value in memory is loaded and stored where it is a scalar or a pair of them, and else copied.
  unfoldable pub copy_from : Pointer c → Layout → Pointer c → Layout → BackendRepr → Cg c (Unit {0})
  unfolding load_scalar load_scalar_pair store_pair u8_align
  copy_from ptr dst from src (scalar s) =
      load_scalar c tcx pointer_type (record { inner = by_ref from none; layout = src }) >>= λ v.
      Pointer.store_ptr c pointer_type ptr v
  copy_from ptr dst from src (scalar_pair a b) =
      load_scalar_pair c tcx pointer_type (record { inner = by_ref from none; layout = src })
      >>= store_pair ptr (scalar_pair a b)
  copy_from ptr dst from src _ = writes (
      emit_small_memory_copy (Pointer.get_addr c pointer_type ptr)
        (Pointer.get_addr c pointer_type from) dst.size (u8_align dst.align) (u8_align src.align))

  write_inner : Pointer c → Layout → CValueInner c → Layout → Cg c (Unit {0})
  unfolding copy_from store_pair
  write_inner ptr dst (by_val v) src = Pointer.store_ptr c pointer_type ptr v
  write_inner ptr dst (by_val_pair a b) src = store_pair ptr src.backend_repr (a, b)
  write_inner ptr dst (by_ref from none) src = copy_from ptr dst from src src.backend_repr
  write_inner ptr dst (by_ref from (some _)) src = fail

  -- Nothing is written for an empty type, or for one without values.
  unfoldable pub write_addr : Pointer c → Layout → CValue c → Cg c (Unit {0})
  unfolding write_inner is_uninhabited_repr
  write_addr ptr dst v =
      if (dst.size == 0) || is_uninhabited_repr dst.backend_repr
      then pure tt
      else write_inner ptr dst v.inner v.layout

  -- The value is written to a slot for its own layout, with the checks of `write_cvalue`.
  spill : CValue c → Cg c (Pointer c × Option Value)
  unfolding write_addr new_stack_slot to_ptr assignable
  spill v = do
    place ← new_stack_slot c tcx pointer_type v.layout
    assert (assignable tcx 16 v.layout.ty place.layout.ty)
    assert (place.layout.size == v.layout.size)
    ptr ← lift (to_ptr c tcx pointer_type place)
    write_addr ptr place.layout v
    pure (ptr, none)

  force : CValueInner c → Layout → Cg c (Pointer c × Option Value)
  unfolding spill
  force (by_ref ptr extra) layout = pure (ptr, extra)
  force inner layout = spill (record { inner = inner; layout = layout })

  unfoldable pub force_stack : CValue c → Cg c (Pointer c × Option Value)
  unfolding force
  force_stack v = force v.inner v.layout

  is_none : Option Value → Bool
  is_none none = true
  is_none (some _) = false

  -- The value in memory, seen with the layout of the place.
  through_memory : Layout → CValue c → Cg c (CValue c)
  unfolding force_stack is_none
  through_memory dst v = do
    (ptr, extra) ← force_stack v
    assert (is_none extra)
    pure (record { inner = by_ref ptr none; layout = dst })

  unfoldable pub seen_as_scalar : Layout → CValue c → BackendRepr → Cg c (CValue c)
  unfolding through_memory
  seen_as_scalar dst v (scalar _) = pure (record { inner = v.inner; layout = dst })
  seen_as_scalar dst v _ = through_memory dst v

  unfoldable pub seen_as_pair : Layout → CValue c → BackendRepr → Cg c (CValue c)
  unfolding through_memory
  seen_as_pair dst v (scalar_pair _ _) = pure (record { inner = v.inner; layout = dst })
  seen_as_pair dst v _ = through_memory dst v

  -- The variables of the place become the scalars.
  unfoldable pub define_var : ℕ → Layout → Value → Cg c (Unit {0})
  unfolding clif_type transmute_scalar
  define_var n dst val = do
    t ← lift (clif_type tcx dst.ty)
    dst_ty ← unwrap t
    transmute_scalar n val dst_ty

  unfoldable pub define_vars : ℕ → ℕ → Layout → Value × Value → Cg c (Unit {0})
  unfolding clif_pair_type transmute_scalar
  define_vars n m dst (val1, val2) = do
    t ← lift (clif_pair_type tcx dst.ty)
    (dst_ty1, dst_ty2) ← unwrap t
    transmute_scalar n val1 dst_ty1
    transmute_scalar m val2 dst_ty2

  unfoldable pub write_place : CPlaceInner c → Layout → CValue c → Cg c (Unit {0})
  unfolding seen_as_scalar seen_as_pair load_scalar load_scalar_pair define_var define_vars
      write_addr
  write_place (var _ n) dst v = seen_as_scalar dst v v.layout.backend_repr >>= λ w.
      load_scalar c tcx pointer_type w >>= define_var n dst
  write_place (var_pair _ n m) dst v = seen_as_pair dst v v.layout.backend_repr >>= λ w.
      load_scalar_pair c tcx pointer_type w >>= define_vars n m dst
  write_place (place_addr _ (some _)) dst v = fail
  write_place (place_addr ptr none) dst v = write_addr ptr dst v

  -- `write_cvalue_maybe_transmute`
  unfoldable pub write_cvalue_transmute : CPlace c → CValue c → Cg c (Unit {0})
  unfolding write_place
  write_cvalue_transmute place v =
      assert (place.layout.size == v.layout.size) >> write_place place.inner place.layout v

  unfoldable pub write_cvalue : CPlace c → CValue c → Cg c (Unit {0})
  unfolding write_cvalue_transmute assignable
  write_cvalue place v =
      assert (assignable tcx 16 v.layout.ty place.layout.ty) >> write_cvalue_transmute place v
