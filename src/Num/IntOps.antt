-- ===== src/Num/IntOps.antt =====
-- src/num.rs, integers and booleans: the wrapping, the checked and the saturating operations.
use rustc_codegen_cranelift.Common.{◌-◌, ◌^◌, Bool, true, false, Option, none, some, if◌then◌else◌}
use rustc_codegen_cranelift.Common.Int.{pos, negsuc}
use rustc_codegen_cranelift.Clif.{
  Ty, i8, i16, i32, i64, ty_bits, IntCc, Clif, Binary, iadd, isub, imul, umulhi, smulhi, sdiv, udiv,
  srem, urem, band, bor, bxor, ishl, sshr, ushr, sshr_imm, uextend, sextend, ireduce,
}
use rustc_codegen_cranelift.Codegen.{
  Tcx, Cg, pure, fail, lift, assert, unwrap, ◌>>=◌, ◌>>◌, bool, pair_ty, rust_ty_eq, BinOp,
}
use rustc_codegen_cranelift.Types.{clif_type, type_sign}
use rustc_codegen_cranelift.FunctionCx.{type_min_max_value}
use rustc_codegen_cranelift.ValueAndPlace.{CValue}
use rustc_codegen_cranelift.ValueAndPlace
use rustc_codegen_cranelift.CodegenI128.{maybe_codegen, maybe_codegen_checked}

module _ (c : Clif) (tcx : Tcx) (pointer_type : Ty) where
  open c use {Value, value_type, binary, binary_imm, icmp, icmp_imm, select, convert}

  bool_opcode : BinOp → Option Binary
  bool_opcode BinOp.bit_xor = some bxor
  bool_opcode BinOp.bit_and = some band
  bool_opcode BinOp.bit_or = some bor
  bool_opcode _ = none

  unfoldable pub codegen_bool_binop : BinOp → CValue c → CValue c → Cg c (CValue c)
  unfolding bool_opcode
  codegen_bool_binop bin_op in_lhs in_rhs = do
    lhs ← ValueAndPlace.load_scalar c tcx pointer_type in_lhs
    rhs ← ValueAndPlace.load_scalar c tcx pointer_type in_rhs
    opcode ← unwrap (bool_opcode bin_op)
    pure (ValueAndPlace.val c tcx pointer_type (binary opcode lhs rhs) (tcx.layout_of bool))

  int_opcode : BinOp → Bool → Option Binary
  int_opcode BinOp.add signed = some iadd
  int_opcode BinOp.add_unchecked signed = some iadd
  int_opcode BinOp.sub signed = some isub
  int_opcode BinOp.sub_unchecked signed = some isub
  int_opcode BinOp.mul signed = some imul
  int_opcode BinOp.mul_unchecked signed = some imul
  int_opcode BinOp.div signed = some (if signed then sdiv else udiv)
  int_opcode BinOp.rem signed = some (if signed then srem else urem)
  int_opcode BinOp.bit_xor signed = some bxor
  int_opcode BinOp.bit_and signed = some band
  int_opcode BinOp.bit_or signed = some bor
  int_opcode BinOp.shl signed = some ishl
  int_opcode BinOp.shl_unchecked signed = some ishl
  int_opcode BinOp.shr signed = some (if signed then sshr else ushr)
  int_opcode BinOp.shr_unchecked signed = some (if signed then sshr else ushr)
  int_opcode _ signed = none

  -- The amount of a shift may have another type.
  is_shift : BinOp → Bool
  is_shift BinOp.shl = true
  is_shift BinOp.shl_unchecked = true
  is_shift BinOp.shr = true
  is_shift BinOp.shr_unchecked = true
  is_shift _ = false

  inline_binop : BinOp → CValue c → CValue c → Option (CValue c) → Cg c (CValue c)
  unfolding int_opcode
  inline_binop bin_op in_lhs in_rhs (some res) = pure res
  inline_binop bin_op in_lhs in_rhs none = do
    signed ← lift (type_sign in_lhs.layout.ty)
    lhs ← ValueAndPlace.load_scalar c tcx pointer_type in_lhs
    rhs ← ValueAndPlace.load_scalar c tcx pointer_type in_rhs
    opcode ← unwrap (int_opcode bin_op signed)
    pure (ValueAndPlace.val c tcx pointer_type (binary opcode lhs rhs) in_lhs.layout)

  unfoldable pub codegen_int_binop : BinOp → CValue c → CValue c → Cg c (CValue c)
  unfolding is_shift inline_binop
  codegen_int_binop bin_op in_lhs in_rhs = do
    assert (if is_shift bin_op then true else rust_ty_eq in_lhs.layout.ty in_rhs.layout.ty)
    res ← maybe_codegen c tcx pointer_type bin_op in_lhs in_rhs
    inline_binop bin_op in_lhs in_rhs res

  checked_add : Bool → Value → Value → Value × Value
  checked_add false lhs rhs =
      let val = binary iadd lhs rhs in (val, icmp IntCc.unsigned_less_than val lhs)
  checked_add true lhs rhs =
      let val = binary iadd lhs rhs in
      (
        val,
        binary bxor (icmp_imm IntCc.signed_less_than rhs (pos 0))
            (icmp IntCc.signed_less_than val lhs),
      )

  checked_sub : Bool → Value → Value → Value × Value
  checked_sub false lhs rhs =
      let val = binary isub lhs rhs in (val, icmp IntCc.unsigned_greater_than val lhs)
  checked_sub true lhs rhs =
      let val = binary isub lhs rhs in
      (
        val,
        binary bxor (icmp_imm IntCc.signed_less_than rhs (pos 0))
            (icmp IntCc.signed_greater_than val lhs),
      )

  -- In twice the width `wide`, where the product is exact.
  widened_mul : Ty → Ty → Bool → Value → Value → Value × Value
  unfolding ty_bits
  widened_mul ty wide false lhs rhs =
      let val = binary imul (convert uextend wide lhs) (convert uextend wide rhs) in
      (convert ireduce ty val, icmp_imm IntCc.unsigned_greater_than val (pos (2 ^ ty_bits ty - 1)))
  widened_mul ty wide true lhs rhs =
      let val = binary imul (convert sextend wide lhs) (convert sextend wide rhs) in
      (
        convert ireduce ty val,
        binary bor (icmp_imm IntCc.signed_less_than val (negsuc (2 ^ (ty_bits ty - 1) - 1)))
            (icmp_imm IntCc.signed_greater_than val (pos (2 ^ (ty_bits ty - 1) - 1))),
      )

  -- From the two words of the product.
  high_mul : Bool → Value → Value → Value × Value
  unfolding ty_bits
  high_mul false lhs rhs =
      (binary imul lhs rhs, icmp_imm IntCc.not_equal (binary umulhi lhs rhs) (pos 0))
  high_mul true lhs rhs =
      let val = binary imul lhs rhs in
      let val_sign = binary_imm sshr_imm val (pos (ty_bits i64 - 1)) in
      (val, icmp_imm IntCc.not_equal (binary bxor (binary smulhi lhs rhs) val_sign) (pos 0))

  checked_mul : Ty → Bool → Value → Value → Option (Value × Value)
  unfolding widened_mul high_mul
  checked_mul i8 signed lhs rhs = some (widened_mul i8 i16 signed lhs rhs)
  checked_mul i16 signed lhs rhs = some (widened_mul i16 i32 signed lhs rhs)
  checked_mul i32 signed lhs rhs = some (widened_mul i32 i64 signed lhs rhs)
  checked_mul i64 signed lhs rhs = some (high_mul signed lhs rhs)
  checked_mul _ signed lhs rhs = none

  -- The value and whether it overflowed.
  unfoldable pub checked_value : BinOp → Bool → Value → Value → Option (Value × Value)
  unfolding checked_add checked_sub checked_mul
  checked_value BinOp.add signed lhs rhs = some (checked_add signed lhs rhs)
  checked_value BinOp.sub signed lhs rhs = some (checked_sub signed lhs rhs)
  checked_value BinOp.mul signed lhs rhs = checked_mul (value_type lhs) signed lhs rhs
  checked_value _ signed lhs rhs = none

  inline_checked : BinOp → CValue c → Value → Value → Option (CValue c) → Cg c (CValue c)
  unfolding checked_value
  inline_checked bin_op in_lhs lhs rhs (some res) = pure res
  inline_checked bin_op in_lhs lhs rhs none = do
    signed ← lift (type_sign in_lhs.layout.ty)
    res ← unwrap (checked_value bin_op signed lhs rhs)
    pure (
        ValueAndPlace.val_pair c tcx pointer_type res.0 res.1
          (tcx.layout_of (pair_ty in_lhs.layout.ty bool)))

  unfoldable pub codegen_checked_int_binop : BinOp → CValue c → CValue c → Cg c (CValue c)
  unfolding inline_checked
  codegen_checked_int_binop bin_op in_lhs in_rhs = do
    lhs ← ValueAndPlace.load_scalar c tcx pointer_type in_lhs
    rhs ← ValueAndPlace.load_scalar c tcx pointer_type in_rhs
    res ← maybe_codegen_checked c tcx pointer_type bin_op in_lhs in_rhs
    inline_checked bin_op in_lhs lhs rhs res

  -- The value on overflow: a bound, chosen by the sign of the second operand.
  unfoldable pub saturate : BinOp → Bool → Value → Value → CValue c → Value → Value → Cg c Value
  saturate BinOp.add false min max rhs val has_overflow = pure (select has_overflow max val)
  saturate BinOp.sub false min max rhs val has_overflow = pure (select has_overflow min val)
  saturate BinOp.add true min max rhs val has_overflow = do
    r ← ValueAndPlace.load_scalar c tcx pointer_type rhs
    let rhs_ge_zero = icmp_imm IntCc.signed_greater_than_or_equal r (pos 0)
    pure (select has_overflow (select rhs_ge_zero max min) val)
  saturate BinOp.sub true min max rhs val has_overflow = do
    r ← ValueAndPlace.load_scalar c tcx pointer_type rhs
    let rhs_ge_zero = icmp_imm IntCc.signed_greater_than_or_equal r (pos 0)
    pure (select has_overflow (select rhs_ge_zero min max) val)
  saturate _ signed min max rhs val has_overflow = fail

  unfoldable pub codegen_saturating_int_binop : BinOp → CValue c → CValue c → Cg c (CValue c)
  unfolding saturate
  codegen_saturating_int_binop bin_op lhs rhs = do
    assert (rust_ty_eq lhs.layout.ty rhs.layout.ty)
    signed ← lift (type_sign lhs.layout.ty)
    known ← lift (clif_type tcx lhs.layout.ty)
    clif_ty ← unwrap known
    (min, max) ← type_min_max_value c clif_ty signed
    checked_res ← codegen_checked_int_binop bin_op lhs rhs
    (val, has_overflow) ← ValueAndPlace.load_scalar_pair c tcx pointer_type checked_res
    res ← saturate bin_op signed min max rhs val has_overflow
    pure (ValueAndPlace.val c tcx pointer_type res lhs.layout)
