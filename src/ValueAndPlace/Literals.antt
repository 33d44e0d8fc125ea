-- ===== src/ValueAndPlace/Literals.antt =====
-- src/value_and_place.rs: the values without data, the constants, and pointers seen at another type.
use rustc_codegen_cranelift.Common.{ℕ, ◌&&◌, ◌==◌, Bool, true, false}
use rustc_codegen_cranelift.Common.Int.{pos}
use rustc_codegen_cranelift.Clif.{Ty, f32, f64, Clif}
use rustc_codegen_cranelift.Codegen.{
  Tcx, Cg, pure, fail, lift, assert, unwrap, ◌>>=◌, ◌>>◌, Layout, RustTy, bool, char, uint, int,
  float, ref, raw_ptr, fn_ptr, UintTy, IntTy, FloatTy, Integer, Primitive, int_prim, float_prim,
  pointer_prim, BackendRepr, scalar, scalar_pair, vector, memory, uninhabited, bool_eq, float_eq,
}
use rustc_codegen_cranelift.Types.{clif_type}
use rustc_codegen_cranelift.Pointer
use rustc_codegen_cranelift.FunctionCx.{as_i64, iconst_i128}
use rustc_codegen_cranelift.Discriminant.{truncate}
use rustc_codegen_cranelift.ValueAndPlace.{CValue}
use rustc_codegen_cranelift.ValueAndPlace

-- `==` on representations.
integer_eq : Integer → Integer → Bool
integer_eq Integer.i8 Integer.i8 = true
integer_eq Integer.i16 Integer.i16 = true
integer_eq Integer.i32 Integer.i32 = true
integer_eq Integer.i64 Integer.i64 = true
integer_eq Integer.i128 Integer.i128 = true
integer_eq _ _ = false

unfoldable pub prim_eq : Primitive → Primitive → Bool
unfolding integer_eq float_eq
prim_eq (int_prim a s) (int_prim b t) = integer_eq a b && bool_eq s t
prim_eq (float_prim a) (float_prim b) = float_eq a b
prim_eq pointer_prim pointer_prim = true
prim_eq _ _ = false

unfoldable pub repr_eq : BackendRepr → BackendRepr → Bool
unfolding prim_eq
repr_eq (scalar a) (scalar b) = prim_eq a b
repr_eq (scalar_pair a b) (scalar_pair a' b') = prim_eq a a' && prim_eq b b'
repr_eq (vector a m) (vector b n) = m == n && prim_eq a b
repr_eq memory memory = true
repr_eq uninhabited uninhabited = true
repr_eq _ _ = false

unfoldable pub is_pointer : RustTy → Bool
is_pointer (ref _) = true
is_pointer (raw_ptr _) = true
is_pointer (fn_ptr _ _ _ _) = true
is_pointer _ = false

module _ (c : Clif) (tcx : Tcx) (pointer_type : Ty) where
  open c use {Value, iconst, fconst}

  abbrev pub is_zst : Layout → Bool
  is_zst layout = tcx.is_sized layout.ty && layout.size == 0

  unfoldable pub zst : Layout → Cg c (CValue c)
  zst layout = do
    assert (is_zst layout)
    pure (
        ValueAndPlace.at_ref c tcx pointer_type
          (Pointer.dangling_at c pointer_type layout.pref_align) layout)

  raw_const : Ty → ℕ → ℕ → Cg c Value
  unfolding truncate as_i64
  raw_const clif_ty size n = pure (iconst clif_ty (as_i64 (pos (truncate size n))))

  -- `u32::try_from` and `u64::try_from` want a constant of that size.
  const_of : RustTy → Ty → ℕ → ℕ → Cg c Value
  unfolding raw_const iconst_i128
  const_of (uint UintTy.u128) clif_ty size n = pure (iconst_i128 c n)
  const_of (int IntTy.i128) clif_ty size n = pure (iconst_i128 c n)
  const_of bool clif_ty size n = raw_const clif_ty size n
  const_of char clif_ty size n = raw_const clif_ty size n
  const_of (uint _) clif_ty size n = raw_const clif_ty size n
  const_of (int _) clif_ty size n = raw_const clif_ty size n
  const_of (ref _) clif_ty size n = raw_const clif_ty size n
  const_of (raw_ptr _) clif_ty size n = raw_const clif_ty size n
  const_of (fn_ptr _ _ _ _) clif_ty size n = raw_const clif_ty size n
  const_of (float FloatTy.f32) clif_ty size n = assert (size == 4) >> pure (fconst f32 n)
  const_of (float FloatTy.f64) clif_ty size n = assert (size == 8) >> pure (fconst f64 n)
  const_of _ clif_ty size n = fail

  -- The constant is given by its size in bytes and its bits.
  unfoldable pub const_val : Layout → ℕ → ℕ → Cg c (CValue c)
  unfolding clif_type const_of
  const_val layout size n = do
    assert (size == layout.size)
    t ← lift (clif_type tcx layout.ty)
    clif_ty ← unwrap t
    v ← const_of layout.ty clif_ty size n
    pure (ValueAndPlace.val c tcx pointer_type v layout)

  unfoldable pub cast_pointer_to : CValue c → Layout → Cg c (CValue c)
  unfolding is_pointer repr_eq
  cast_pointer_to v layout = do
    assert (is_pointer v.layout.ty)
    assert (is_pointer layout.ty)
    assert (repr_eq v.layout.backend_repr layout.backend_repr)
    pure (record { inner = v.inner; layout = layout })
