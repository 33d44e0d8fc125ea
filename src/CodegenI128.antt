-- ===== src/CodegenI128.antt =====
-- src/codegen_i128.rs: the operations on 128 bit integers that are calls of the runtime library.
use Prim.Native.String.{String}
use rustc_codegen_cranelift.Common.{Bool, ◌||◌, [], ◌∷◌, Option, none, some, if◌then◌else◌}
use rustc_codegen_cranelift.Clif.{
  Ty, i8, i128, i64, by, Clif, abi_param, special_param, struct_return, ireduce,
}
use rustc_codegen_cranelift.Codegen.{
  Tcx, Cg, pure, fail, lift, ◌>>=◌, ◌>>◌, RustTy, bool, uint, int, pair_ty, UintTy, IntTy,
  rust_ty_eq, BinOp, Layout,
}
use rustc_codegen_cranelift.Types.{type_sign}
use rustc_codegen_cranelift.Pointer.{Pointer}
use rustc_codegen_cranelift.Pointer
use rustc_codegen_cranelift.FunctionCx.{create_stack_slot}
use rustc_codegen_cranelift.ValueAndPlace.{CValue}
use rustc_codegen_cranelift.ValueAndPlace
use rustc_codegen_cranelift.LibCall

unfoldable pub is_128 : RustTy → Bool
unfolding rust_ty_eq
is_128 ty = rust_ty_eq ty (uint UintTy.u128) || rust_ty_eq ty (int IntTy.i128)

module _ (c : Clif) (tcx : Tcx) (pointer_type : Ty) where
  open c use {Value, convert}

  -- `CPlace::new_stack_slot` for a type that is sized and not empty.
  slot_of : Layout → Cg c (Pointer c)
  unfolding create_stack_slot
  slot_of layout = create_stack_slot c tcx pointer_type layout.size layout.align

  div_rem : String → CValue c → CValue c → Cg c (CValue c)
  unfolding slot_of
  div_rem name lhs rhs = do
    l ← ValueAndPlace.load_scalar c tcx pointer_type lhs
    r ← ValueAndPlace.load_scalar c tcx pointer_type rhs
    if tcx.is_like_windows
        then (do
          rets ←
              LibCall.lib_call c tcx pointer_type name (abi_param i128 ∷ abi_param i128 ∷ [])
                (abi_param (by i64 2) ∷ []) (l ∷ r ∷ [])
          ret ← LibCall.first_of_list c tcx pointer_type rets
          slot ← slot_of lhs.layout
          Pointer.store_ptr c pointer_type slot ret
          pure (ValueAndPlace.at_ref c tcx pointer_type slot lhs.layout))
        else (do
          rets ←
              LibCall.lib_call c tcx pointer_type name (abi_param i128 ∷ abi_param i128 ∷ [])
                (abi_param i128 ∷ []) (l ∷ r ∷ [])
          ret ← LibCall.first_of_list c tcx pointer_type rets
          pure (ValueAndPlace.val c tcx pointer_type ret lhs.layout))

  abbrev in_some : Cg c (CValue c) → Cg c (Option (CValue c))
  in_some m = m >>= λ v. pure (some v)

  routine : BinOp → CValue c → CValue c → Bool → Cg c (Option (CValue c))
  unfolding div_rem
  routine BinOp.bit_and lhs rhs signed = pure none
  routine BinOp.bit_or lhs rhs signed = pure none
  routine BinOp.bit_xor lhs rhs signed = pure none
  routine BinOp.add lhs rhs signed = pure none
  routine BinOp.add_unchecked lhs rhs signed = pure none
  routine BinOp.sub lhs rhs signed = pure none
  routine BinOp.sub_unchecked lhs rhs signed = pure none
  routine BinOp.mul lhs rhs signed = pure none
  routine BinOp.mul_unchecked lhs rhs signed = pure none
  routine BinOp.offset lhs rhs signed = fail
  routine BinOp.div lhs rhs signed =
      in_some (div_rem (if signed then "__divti3" else "__udivti3") lhs rhs)
  routine BinOp.rem lhs rhs signed =
      in_some (div_rem (if signed then "__modti3" else "__umodti3") lhs rhs)
  routine BinOp.add_with_overflow lhs rhs signed = fail
  routine BinOp.sub_with_overflow lhs rhs signed = fail
  routine BinOp.mul_with_overflow lhs rhs signed = fail
  routine _ lhs rhs signed = pure none

  unfoldable pub maybe_codegen : BinOp → CValue c → CValue c → Cg c (Option (CValue c))
  unfolding routine is_128
  maybe_codegen bin_op lhs rhs = do
    if is_128 lhs.layout.ty || is_128 rhs.layout.ty
        then (do signed ← lift (type_sign lhs.layout.ty); routine bin_op lhs rhs signed)
        else pure none

  checked_mul_signed : CValue c → CValue c → Cg c (Option (CValue c))
  unfolding slot_of
  checked_mul_signed lhs rhs = do
    oflow_ptr ← slot_of (tcx.layout_of (int IntTy.i32))
    l ← ValueAndPlace.load_scalar c tcx pointer_type lhs
    r ← ValueAndPlace.load_scalar c tcx pointer_type rhs
    rets ←
        LibCall.lib_call_unadjusted c tcx pointer_type "__muloti4"
          (abi_param i128 ∷ abi_param i128 ∷ abi_param pointer_type ∷ []) (abi_param i128 ∷ [])
          (l ∷ r ∷ Pointer.get_addr c pointer_type oflow_ptr ∷ [])
    res ← LibCall.first_of_list c tcx pointer_type rets
    oflow ←
        ValueAndPlace.load_scalar c tcx pointer_type
          (ValueAndPlace.at_ref c tcx pointer_type oflow_ptr (tcx.layout_of (int IntTy.i32)))
    pure (
        some (
          ValueAndPlace.val_pair c tcx pointer_type res (convert ireduce i8 oflow)
            (tcx.layout_of (pair_ty lhs.layout.ty bool))))

  checked_mul_unsigned : CValue c → CValue c → Cg c (Option (CValue c))
  unfolding slot_of
  checked_mul_unsigned lhs rhs = do
    out_ptr ← slot_of (tcx.layout_of (pair_ty lhs.layout.ty bool))
    l ← ValueAndPlace.load_scalar c tcx pointer_type lhs
    r ← ValueAndPlace.load_scalar c tcx pointer_type rhs
    _ ←
        LibCall.lib_call c tcx pointer_type "__rust_u128_mulo"
          (special_param pointer_type struct_return ∷ abi_param i128 ∷ abi_param i128 ∷ []) []
          (Pointer.get_addr c pointer_type out_ptr ∷ l ∷ r ∷ [])
    pure (
        some (
          ValueAndPlace.at_ref c tcx pointer_type out_ptr
            (tcx.layout_of (pair_ty lhs.layout.ty bool))))

  checked_routine : BinOp → CValue c → CValue c → Bool → Cg c (Option (CValue c))
  unfolding checked_mul_signed checked_mul_unsigned
  checked_routine BinOp.add lhs rhs signed = pure none
  checked_routine BinOp.sub lhs rhs signed = pure none
  checked_routine BinOp.mul lhs rhs signed =
      if signed then checked_mul_signed lhs rhs else checked_mul_unsigned lhs rhs
  checked_routine _ lhs rhs signed = fail

  unfoldable pub maybe_codegen_checked : BinOp → CValue c → CValue c → Cg c (Option (CValue c))
  unfolding checked_routine is_128
  maybe_codegen_checked bin_op lhs rhs = do
    if is_128 lhs.layout.ty || is_128 rhs.layout.ty
        then (do signed ← lift (type_sign lhs.layout.ty); checked_routine bin_op lhs rhs signed)
        else pure none
