-- ===== src/Num/FloatOps.antt =====
-- src/num.rs, floats and pointers.
use rustc_codegen_cranelift.Common.{Bool, true, false, Option, none, some, [], ◌∷◌, if◌then◌else◌}
use rustc_codegen_cranelift.Common.Int.{pos}
use rustc_codegen_cranelift.Clif.{
  Ty, f32, f64, IntCc, FloatCc, Clif, Binary, fadd, fsub, fmul, fdiv, abi_param, iadd, band, bor,
  imul_imm,
}
use rustc_codegen_cranelift.Codegen.{
  Tcx, Cg, pure, fail, lift, assert, unwrap, ◌>>=◌, ◌>>◌, Result, ok, panic, RustTy, bool, char,
  uint, int, float, fn_ptr, raw_ptr, ref, FloatTy, rust_ty_eq, BinOp,
}
use rustc_codegen_cranelift.FunctionCx.{as_i64}
use rustc_codegen_cranelift.Types.{has_ptr_meta, type_sign}
use rustc_codegen_cranelift.ValueAndPlace.{CValue}
use rustc_codegen_cranelift.ValueAndPlace
use rustc_codegen_cranelift.LibCall
use rustc_codegen_cranelift.Num.Compare.{bin_op_to_intcc, codegen_compare_bin_op}
use rustc_codegen_cranelift.Num.IntOps.{codegen_bool_binop, codegen_int_binop}
use Prim.Native.String.{String}

module _ (c : Clif) where
  open c use {Value, fcmp, select}

  -- `a.is_nan() ? b : (a >= b ? b : a)`
  unfoldable pub codegen_float_min : Value → Value → Value
  codegen_float_min a b =
      let a_is_nan = fcmp FloatCc.not_equal a a in
      let a_ge_b = fcmp FloatCc.greater_than_or_equal a b in
      let temp = select a_ge_b b a in select a_is_nan b temp

  unfoldable pub codegen_float_max : Value → Value → Value
  codegen_float_max a b =
      let a_is_nan = fcmp FloatCc.not_equal a a in
      let a_le_b = fcmp FloatCc.less_than_or_equal a b in
      let temp = select a_le_b b a in select a_is_nan b temp

module _ (c : Clif) (tcx : Tcx) (pointer_type : Ty) where
  open c use {Value, binary, binary_imm, icmp, fcmp, select}

  remainder_routine : RustTy → Option (String × Ty)
  remainder_routine (float FloatTy.f32) = some ("fmodf", f32)
  remainder_routine (float FloatTy.f64) = some ("fmod", f64)
  remainder_routine _ = none

  float_rem : CValue c → Value → Value → Cg c (CValue c)
  unfolding remainder_routine
  float_rem in_lhs lhs rhs = do
    (name, ty) ← unwrap (remainder_routine in_lhs.layout.ty)
    rets ←
        LibCall.lib_call c tcx pointer_type name (abi_param ty ∷ abi_param ty ∷ [])
          (abi_param ty ∷ []) (lhs ∷ rhs ∷ [])
    ret ← LibCall.first_of_list c tcx pointer_type rets
    pure (ValueAndPlace.val c tcx pointer_type ret in_lhs.layout)

  float_opcode : BinOp → Option Binary
  float_opcode BinOp.add = some fadd
  float_opcode BinOp.sub = some fsub
  float_opcode BinOp.mul = some fmul
  float_opcode BinOp.div = some fdiv
  float_opcode _ = none

  float_cc_of : BinOp → Option FloatCc
  float_cc_of BinOp.eq = some FloatCc.equal
  float_cc_of BinOp.lt = some FloatCc.less_than
  float_cc_of BinOp.le = some FloatCc.less_than_or_equal
  float_cc_of BinOp.ne = some FloatCc.not_equal
  float_cc_of BinOp.ge = some FloatCc.greater_than_or_equal
  float_cc_of BinOp.gt = some FloatCc.greater_than
  float_cc_of _ = none

  float_arith : BinOp → CValue c → Value → Value → Option FloatCc → Cg c (CValue c)
  unfolding float_rem float_opcode
  float_arith bin_op in_lhs lhs rhs (some fltcc) =
      pure (ValueAndPlace.val c tcx pointer_type (fcmp fltcc lhs rhs) (tcx.layout_of bool))
  float_arith BinOp.rem in_lhs lhs rhs none = float_rem in_lhs lhs rhs
  float_arith bin_op in_lhs lhs rhs none = do
    opcode ← unwrap (float_opcode bin_op)
    pure (ValueAndPlace.val c tcx pointer_type (binary opcode lhs rhs) in_lhs.layout)

  unfoldable pub codegen_float_binop : BinOp → CValue c → CValue c → Cg c (CValue c)
  unfolding float_arith float_cc_of
  codegen_float_binop bin_op in_lhs in_rhs = do
    assert (rust_ty_eq in_lhs.layout.ty in_rhs.layout.ty)
    lhs ← ValueAndPlace.load_scalar c tcx pointer_type in_lhs
    rhs ← ValueAndPlace.load_scalar c tcx pointer_type in_rhs
    float_arith bin_op in_lhs lhs rhs (float_cc_of bin_op)

  -- `builtin_deref(true)`
  pointee : RustTy → Option RustTy
  pointee (raw_ptr t) = some t
  pointee (ref t) = some t
  pointee _ = none

  is_thin_ptr : Option RustTy → Result Bool
  unfolding has_ptr_meta
  is_thin_ptr none = ok true
  is_thin_ptr (some t) = elim (has_ptr_meta tcx t) [
    | ok true ↦ ok false
    | ok false ↦ ok true
    | panic ↦ panic
  ]

  thin_ptr_compare : BinOp → CValue c → CValue c → Cg c (CValue c)
  thin_ptr_compare bin_op in_lhs in_rhs = do
    lhs ← ValueAndPlace.load_scalar c tcx pointer_type in_lhs
    rhs ← ValueAndPlace.load_scalar c tcx pointer_type in_rhs
    codegen_compare_bin_op c tcx pointer_type bin_op false lhs rhs

  thin_ptr_binop : BinOp → CValue c → CValue c → Cg c (CValue c)
  unfolding thin_ptr_compare pointee as_i64
  thin_ptr_binop BinOp.eq in_lhs in_rhs = thin_ptr_compare BinOp.eq in_lhs in_rhs
  thin_ptr_binop BinOp.lt in_lhs in_rhs = thin_ptr_compare BinOp.lt in_lhs in_rhs
  thin_ptr_binop BinOp.le in_lhs in_rhs = thin_ptr_compare BinOp.le in_lhs in_rhs
  thin_ptr_binop BinOp.ne in_lhs in_rhs = thin_ptr_compare BinOp.ne in_lhs in_rhs
  thin_ptr_binop BinOp.ge in_lhs in_rhs = thin_ptr_compare BinOp.ge in_lhs in_rhs
  thin_ptr_binop BinOp.gt in_lhs in_rhs = thin_ptr_compare BinOp.gt in_lhs in_rhs
  thin_ptr_binop BinOp.offset in_lhs in_rhs = do
    pointee_ty ← unwrap (pointee in_lhs.layout.ty)
    offset ← ValueAndPlace.load_scalar c tcx pointer_type in_rhs
    let ptr_diff = binary_imm imul_imm offset (as_i64 (pos (tcx.layout_of pointee_ty).size))
    base_val ← ValueAndPlace.load_scalar c tcx pointer_type in_lhs
    pure (ValueAndPlace.val c tcx pointer_type (binary iadd base_val ptr_diff) in_lhs.layout)
  thin_ptr_binop _ in_lhs in_rhs = fail

  -- A wide pointer is compared by its address, and by its metadata where the addresses are equal.
  wide_ptr_order : BinOp → Value → Value → Value → Value → Cg c Value
  unfolding bin_op_to_intcc
  wide_ptr_order bin_op lhs_ptr lhs_extra rhs_ptr rhs_extra = do
    let ptr_eq = icmp IntCc.equal lhs_ptr rhs_ptr
    cc ← unwrap (bin_op_to_intcc bin_op false)
    let ptr_cmp = icmp cc lhs_ptr rhs_ptr
    let extra_cmp = icmp cc lhs_extra rhs_extra
    pure (select ptr_eq extra_cmp ptr_cmp)

  unfoldable pub wide_ptr_compare : BinOp → Value → Value → Value → Value → Cg c Value
  unfolding wide_ptr_order
  wide_ptr_compare BinOp.eq lhs_ptr lhs_extra rhs_ptr rhs_extra =
      pure (binary band (icmp IntCc.equal lhs_ptr rhs_ptr) (icmp IntCc.equal lhs_extra rhs_extra))
  wide_ptr_compare BinOp.ne lhs_ptr lhs_extra rhs_ptr rhs_extra =
      pure (
        binary bor (icmp IntCc.not_equal lhs_ptr rhs_ptr)
          (icmp IntCc.not_equal lhs_extra rhs_extra))
  wide_ptr_compare BinOp.lt lp le rp re = wide_ptr_order BinOp.lt lp le rp re
  wide_ptr_compare BinOp.le lp le rp re = wide_ptr_order BinOp.le lp le rp re
  wide_ptr_compare BinOp.ge lp le rp re = wide_ptr_order BinOp.ge lp le rp re
  wide_ptr_compare BinOp.gt lp le rp re = wide_ptr_order BinOp.gt lp le rp re
  wide_ptr_compare _ lp le rp re = fail

  wide_ptr_binop : BinOp → CValue c → CValue c → Cg c (CValue c)
  unfolding wide_ptr_compare
  wide_ptr_binop bin_op in_lhs in_rhs = do
    (lhs_ptr, lhs_extra) ← ValueAndPlace.load_scalar_pair c tcx pointer_type in_lhs
    (rhs_ptr, rhs_extra) ← ValueAndPlace.load_scalar_pair c tcx pointer_type in_rhs
    res ← wide_ptr_compare bin_op lhs_ptr lhs_extra rhs_ptr rhs_extra
    pure (ValueAndPlace.val c tcx pointer_type res (tcx.layout_of bool))

  unfoldable pub codegen_ptr_binop : BinOp → CValue c → CValue c → Cg c (CValue c)
  unfolding is_thin_ptr pointee thin_ptr_binop wide_ptr_binop
  codegen_ptr_binop bin_op in_lhs in_rhs = do
    thin ← lift (is_thin_ptr (pointee in_lhs.layout.ty))
    if thin then thin_ptr_binop bin_op in_lhs in_rhs else wide_ptr_binop bin_op in_lhs in_rhs

  is_compare : BinOp → Bool
  is_compare BinOp.eq = true
  is_compare BinOp.lt = true
  is_compare BinOp.le = true
  is_compare BinOp.ne = true
  is_compare BinOp.ge = true
  is_compare BinOp.gt = true
  is_compare BinOp.cmp = true
  is_compare _ = false

  -- The types whose comparisons are integer comparisons.
  is_int_like : RustTy → Bool
  is_int_like bool = true
  is_int_like (uint _) = true
  is_int_like (int _) = true
  is_int_like char = true
  is_int_like _ = false

  int_like_compare : BinOp → CValue c → CValue c → Cg c (CValue c)
  int_like_compare bin_op in_lhs in_rhs = do
    signed ← lift (type_sign in_lhs.layout.ty)
    lhs ← ValueAndPlace.load_scalar c tcx pointer_type in_lhs
    rhs ← ValueAndPlace.load_scalar c tcx pointer_type in_rhs
    codegen_compare_bin_op c tcx pointer_type bin_op signed lhs rhs

  by_type : RustTy → BinOp → CValue c → CValue c → Cg c (CValue c)
  by_type bool = codegen_bool_binop c tcx pointer_type
  by_type (uint _) = codegen_int_binop c tcx pointer_type
  by_type (int _) = codegen_int_binop c tcx pointer_type
  by_type (float _) = codegen_float_binop
  by_type (raw_ptr _) = codegen_ptr_binop
  by_type (fn_ptr _ _ _ _) = codegen_ptr_binop
  by_type _ = λ bin_op in_lhs in_rhs. fail

  unfoldable pub codegen_binop : BinOp → CValue c → CValue c → Cg c (CValue c)
  unfolding is_compare is_int_like int_like_compare by_type
  codegen_binop bin_op in_lhs in_rhs =
      if is_compare bin_op
      then (if is_int_like in_lhs.layout.ty
          then int_like_compare bin_op in_lhs in_rhs
          else by_type in_lhs.layout.ty bin_op in_lhs in_rhs)
      else by_type in_lhs.layout.ty bin_op in_lhs in_rhs
