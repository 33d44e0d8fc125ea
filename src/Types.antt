-- ===== src/Types.antt =====
-- src/common.rs, the mapping from rustc's types to Cranelift's.
use rustc_codegen_cranelift.Common.{◌==◌, Bool, true, false, Option, none, some, if◌then◌else◌}
use rustc_codegen_cranelift.Clif.{Ty, i8, i16, i32, i64, i128, f32, f64}
use rustc_codegen_cranelift.Codegen.{
  Result, ok, panic, Tcx, RustTy, bool, char, str, foreign, dynamic, fn_ptr, param, uint, int,
  float, raw_ptr, ref, slice, tuple, cons, nil, UintTy, IntTy, FloatTy, Integer, Primitive,
  int_prim, float_prim, pointer_prim,
}

infixl 5 ◌>>=◌
abbrev pub ◌>>=◌ : {A B : Type 0} → Result A → (A → Result B) → Result B
ok a >>= f = f a
panic >>= f = panic

abbrev or_none : {A B : Type 0} → Option A → (A → Result (Option B)) → Result (Option B)
or_none none f = ok none
or_none (some a) f = f a

module _ (tcx : Tcx) where
  unfoldable pub pointer_ty : Result Ty
  pointer_ty =
      if tcx.pointer_bits == 16
      then ok i16
      else if tcx.pointer_bits == 32
      then ok i32
      else if tcx.pointer_bits == 64
      then ok i64
      else panic

  unfoldable pub scalar_to_clif_type : Primitive → Result Ty
  unfolding pointer_ty
  scalar_to_clif_type (int_prim Integer.i8 _) = ok i8
  scalar_to_clif_type (int_prim Integer.i16 _) = ok i16
  scalar_to_clif_type (int_prim Integer.i32 _) = ok i32
  scalar_to_clif_type (int_prim Integer.i64 _) = ok i64
  scalar_to_clif_type (int_prim Integer.i128 _) = ok i128
  scalar_to_clif_type (float_prim FloatTy.f16) = panic
  scalar_to_clif_type (float_prim FloatTy.f32) = ok f32
  scalar_to_clif_type (float_prim FloatTy.f64) = ok f64
  scalar_to_clif_type (float_prim FloatTy.f128) = panic
  scalar_to_clif_type pointer_prim = pointer_ty

  -- Is a pointer to this type a wide pointer?
  tail_has_meta : RustTy → Result Bool
  tail_has_meta foreign = ok false
  tail_has_meta str = ok true
  tail_has_meta (slice _) = ok true
  tail_has_meta (dynamic _) = ok true
  tail_has_meta _ = panic

  unfoldable pub has_ptr_meta : RustTy → Result Bool
  unfolding tail_has_meta
  has_ptr_meta ty = if tcx.is_sized ty then ok false else tail_has_meta (tcx.struct_tail ty)

  thin_pointer_ty : RustTy → Result (Option Ty)
  unfolding has_ptr_meta pointer_ty
  thin_pointer_ty pointee = do
    wide ← has_ptr_meta pointee
    if wide then ok none else (pointer_ty >>= λ t. ok (some t))

  unfoldable pub clif_type : RustTy → Result (Option Ty)
  unfolding thin_pointer_ty pointer_ty
  clif_type bool = ok (some i8)
  clif_type (uint UintTy.u8) = ok (some i8)
  clif_type (uint UintTy.u16) = ok (some i16)
  clif_type (uint UintTy.u32) = ok (some i32)
  clif_type (uint UintTy.u64) = ok (some i64)
  clif_type (uint UintTy.u128) = ok (some i128)
  clif_type (uint UintTy.usize) = pointer_ty >>= λ t. ok (some t)
  clif_type (int IntTy.i8) = ok (some i8)
  clif_type (int IntTy.i16) = ok (some i16)
  clif_type (int IntTy.i32) = ok (some i32)
  clif_type (int IntTy.i64) = ok (some i64)
  clif_type (int IntTy.i128) = ok (some i128)
  clif_type (int IntTy.isize) = pointer_ty >>= λ t. ok (some t)
  clif_type char = ok (some i32)
  clif_type (float FloatTy.f16) = panic
  clif_type (float FloatTy.f32) = ok (some f32)
  clif_type (float FloatTy.f64) = ok (some f64)
  clif_type (float FloatTy.f128) = panic
  clif_type (fn_ptr _ _ _ _) = pointer_ty >>= λ t. ok (some t)
  clif_type (raw_ptr pointee) = thin_pointer_ty pointee
  clif_type (ref pointee) = thin_pointer_ty pointee
  clif_type param = panic
  clif_type _ = ok none

  wide_pointer_ty : RustTy → Result (Option (Ty × Ty))
  unfolding has_ptr_meta pointer_ty
  wide_pointer_ty pointee = do
    wide ← has_ptr_meta pointee
    if wide then (pointer_ty >>= λ t. ok (some (t, t))) else ok none

  unfoldable pub clif_pair_type : RustTy → Result (Option (Ty × Ty))
  unfolding clif_type wide_pointer_ty
  clif_pair_type (tuple (cons a (cons b nil))) = clif_type a >>= λ ta.
      or_none ta λ a'. clif_type b >>= λ tb. or_none tb λ b'. ok (some (a', b'))
  clif_pair_type (raw_ptr pointee) = wide_pointer_ty pointee
  clif_pair_type (ref pointee) = wide_pointer_ty pointee
  clif_pair_type _ = ok none

unfoldable pub type_sign : RustTy → Result Bool
type_sign (ref _) = ok false
type_sign (raw_ptr _) = ok false
type_sign (fn_ptr _ _ _ _) = ok false
type_sign char = ok false
type_sign (uint _) = ok false
type_sign bool = ok false
type_sign (int _) = ok true
type_sign (float _) = ok false
type_sign _ = panic
