-- ===== src/Cast.antt =====
-- src/cast.rs: conversions between integers and floats.
pub mod Integers
use Prim.Native.String.{String}
use rustc_codegen_cranelift.Common.{
  ℕ, ◌-◌, ◌^◌, Bool, true, false, Option, none, some, List, [], ◌∷◌, ◌&&◌, leb, if◌then◌else◌,
}
use rustc_codegen_cranelift.Common.Int.{ℤ, pos}
use rustc_codegen_cranelift.Clif.{
  Ty, i8, i16, i32, i64, i128, f32, f64, by, ty_bits, ty_eq, is_int, is_float, IntCc, FloatCc, Clif,
  abi_param, uextend, sextend, ireduce, fcvt_from_sint, fcvt_from_uint, fcvt_to_sint_sat,
  fcvt_to_uint_sat, fpromote, fdemote,
}
use rustc_codegen_cranelift.Codegen.{Tcx, Cg, pure, fail, unwrap, ◌>>=◌, ◌>>◌}
use rustc_codegen_cranelift.Pointer
use rustc_codegen_cranelift.FunctionCx.{type_zero_value, create_stack_slot}
use rustc_codegen_cranelift.LibCall

module _ (c : Clif) where
  open c use {Value, value_type, convert}

  -- `wider_or_equal` of two scalar types compares their widths.
  unfoldable pub clif_intcast : Value → Ty → Bool → Value
  unfolding ty_eq ty_bits
  clif_intcast val to signed =
      if ty_eq (value_type val) to
      then val
      else if leb (ty_bits (value_type val)) (ty_bits to)
      then (if signed then convert sextend to val else convert uextend to val)
      else convert ireduce to val

module _ (c : Clif) (tcx : Tcx) (pointer_type : Ty) where
  open c use {Value, value_type, iconst, icmp_imm, fcmp, select, convert}

  -- The runtime routines for 128 bit integers.
  from_i128_name : Bool → Ty → Option String
  from_i128_name true f32 = some "__floattisf"
  from_i128_name true f64 = some "__floattidf"
  from_i128_name false f32 = some "__floatuntisf"
  from_i128_name false f64 = some "__floatuntidf"
  from_i128_name _ _ = none

  to_i128_name : Bool → Ty → Option String
  to_i128_name true f32 = some "__fixsfti"
  to_i128_name true f64 = some "__fixdfti"
  to_i128_name false f32 = some "__fixunssfti"
  to_i128_name false f64 = some "__fixunsdfti"
  to_i128_name _ _ = none

  i128_to_float : Value → Bool → Ty → Cg c Value
  unfolding from_i128_name
  i128_to_float from signed to_ty = do
    name ← unwrap (from_i128_name signed to_ty)
    rets ←
        LibCall.lib_call c tcx pointer_type name (abi_param i128 ∷ []) (abi_param to_ty ∷ [])
          (from ∷ [])
    LibCall.first_of_list c tcx pointer_type rets

  int_to_float : Value → Bool → Ty → Cg c Value
  unfolding i128_to_float
  int_to_float from signed to_ty =
      if ty_eq (value_type from) i128
      then i128_to_float from signed to_ty
      else pure
          (if signed then convert fcvt_from_sint to_ty from else convert fcvt_from_uint to_ty from)

  -- On Windows the result is a vector, which passes through the stack.
  i128_through_stack : Value → Cg c Value
  i128_through_stack ret = do
    ret_ptr ← create_stack_slot c tcx pointer_type 16 16
    Pointer.store_ptr c pointer_type ret_ptr ret
    Pointer.load_ptr c pointer_type ret_ptr i128

  float_to_i128 : Value → Bool → Cg c Value
  unfolding to_i128_name i128_through_stack
  float_to_i128 from signed = do
    name ← unwrap (to_i128_name signed (value_type from))
    rets ←
        LibCall.lib_call c tcx pointer_type name (abi_param (value_type from) ∷ [])
          (abi_param (if tcx.is_like_windows then by i64 2 else i128) ∷ []) (from ∷ [])
    ret ← LibCall.first_of_list c tcx pointer_type rets
    if tcx.is_like_windows then i128_through_stack ret else pure ret

  -- The range of a narrow integer, as immediates: the signed minimum is the bit pattern of 32 bits.
  narrow_range : Ty → Bool → Option (ℤ × ℤ)
  narrow_range i8 false = some (pos 0, pos (2 ^ 8 - 1))
  narrow_range i16 false = some (pos 0, pos (2 ^ 16 - 1))
  narrow_range i8 true = some (pos (2 ^ 32 - 2 ^ 7), pos (2 ^ 7 - 1))
  narrow_range i16 true = some (pos (2 ^ 32 - 2 ^ 15), pos (2 ^ 15 - 1))
  narrow_range _ _ = none

  -- The clamping of a 32 bit integer to a narrow type.
  unfoldable pub clamp_narrow : Ty → Bool → ℤ → ℤ → Value → Value
  clamp_narrow to_ty true min max val =
      let has_underflow = icmp_imm IntCc.signed_less_than val min in
      let has_overflow = icmp_imm IntCc.signed_greater_than val max in
      let bottom_capped = select has_underflow (iconst i32 min) val in
      convert ireduce to_ty (select has_overflow (iconst i32 max) bottom_capped)
  clamp_narrow to_ty false min max val =
      let has_overflow = icmp_imm IntCc.unsigned_greater_than val max in
      convert ireduce to_ty (select has_overflow (iconst i32 max) val)

  float_to_narrow : Value → Ty → Bool → Cg c Value
  unfolding narrow_range clamp_narrow
  float_to_narrow from to_ty signed = do
    (min, max) ← unwrap (narrow_range to_ty signed)
    let val =
        if signed then convert fcvt_to_sint_sat i32 from else convert fcvt_to_uint_sat i32 from
    pure (clamp_narrow to_ty signed min max val)

  saturated_int : Value → Ty → Bool → Cg c Value
  unfolding float_to_i128 float_to_narrow
  saturated_int from i128 signed = float_to_i128 from signed
  saturated_int from i8 signed = float_to_narrow from i8 signed
  saturated_int from i16 signed = float_to_narrow from i16 signed
  saturated_int from to_ty signed =
      pure (
        if signed then convert fcvt_to_sint_sat to_ty from else convert fcvt_to_uint_sat to_ty from)

  -- A NaN becomes zero, unless saturating casts are switched off.
  nan_to_zero : Option Bool → Value → Ty → Value → Value
  nan_to_zero (some false) from to_ty val = val
  nan_to_zero _ from to_ty val = select (fcmp FloatCc.equal from from) val (type_zero_value c to_ty)

  float_to_int : Value → Ty → Bool → Cg c Value
  unfolding saturated_int nan_to_zero
  float_to_int from to_ty signed = do
    val ← saturated_int from to_ty signed
    pure (nan_to_zero tcx.saturating_float_casts from to_ty val)

  float_to_float : Value → Ty → Ty → Value
  float_to_float from f32 f64 = convert fpromote f64 from
  float_to_float from f64 f32 = convert fdemote f32 from
  float_to_float from _ _ = from

  unfoldable pub clif_int_or_float_cast : Value → Bool → Ty → Bool → Cg c Value
  unfolding int_to_float float_to_int float_to_float is_int is_float
  clif_int_or_float_cast from from_signed to_ty to_signed =
      if is_int (value_type from) && is_int to_ty
      then pure (clif_intcast c from to_ty from_signed)
      else if is_int (value_type from) && is_float to_ty
      then int_to_float from from_signed to_ty
      else if is_float (value_type from) && is_int to_ty
      then float_to_int from to_ty to_signed
      else if is_float (value_type from) && is_float to_ty
      then pure (float_to_float from (value_type from) to_ty)
      else fail
