-- ===== src/PassMode/Params.antt =====
-- src/abi/pass_mode.rs: the parameters of a Cranelift signature that an argument or a result takes.
use rustc_codegen_cranelift.Common.{
  ℕ, zero, suc, ◌/◌, ◌%◌, ◌^◌, Bool, true, false, Option, none, some, List, [], ◌∷◌, ◌++◌, ◌&&◌,
  ltb, leb, ◌==◌, if◌then◌else◌,
}
use rustc_codegen_cranelift.Clif.{
  Ty, i8, i16, i32, i64, i128, f32, f64, AbiParam, abi_param, special_param, struct_return,
  struct_argument, uext, sext,
}
use rustc_codegen_cranelift.Codegen.{
  Tcx, Result, ok, panic, Layout, BackendRepr, scalar, scalar_pair, vector,
}
use rustc_codegen_cranelift.Types.{pointer_ty, scalar_to_clif_type, ◌>>=◌}
use rustc_codegen_cranelift.ValueAndPlace.{align_to}

-- rustc_abi::Reg, with the size in bytes.
pub data RegKind : Type 0 where
  integer float vector_reg : RegKind

pub record Reg : Type 0 where
  pub kind : RegKind
  pub size : ℕ

-- rustc_target::callconv
pub data ArgExtension : Type 0 where
  no_ext zext sign_ext : ArgExtension

pub record CastTarget : Type 0 where
  pub prefix : List (Option Reg)
  pub unit : Reg
  pub total : ℕ

pub data PassMode : Type 0 where
  ignore : PassMode
  direct : ArgExtension → PassMode
  pair : ArgExtension → ArgExtension → PassMode
  cast : CastTarget → Bool → PassMode
  indirect : ArgExtension → Option ArgExtension → Bool → PassMode

pub record ArgAbi : Type 0 where
  pub mode : PassMode
  pub layout : Layout

-- `Iterator::flatten` of options, and the collection of fallible results.
unfoldable pub flatten {ℓ} : {A : Type ℓ} → List (Option A) → List A
flatten [] = []
flatten (none ∷ os) = flatten os
flatten (some a ∷ os) = a ∷ flatten os

unfoldable pub each {ℓ ℓ'} : {A : Type ℓ} {B : Type ℓ'} → (A → Result B) → List A → Result (List B)
each f [] = ok []
each f (a ∷ rest) = elim (f a) [
  | ok b ↦ elim (each f rest) [ ok bs ↦ ok (b ∷ bs) | panic ↦ panic ]
  | panic ↦ panic
]

unfoldable pub replicate {ℓ} : {A : Type ℓ} → ℕ → A → List A
replicate zero a = []
replicate (suc n) a = a ∷ replicate n a

-- `types::I8 .. types::I128` for a register of so many bytes.
unfoldable pub integer_reg : ℕ → Result Ty
integer_reg n =
    if n == 1
    then ok i8
    else if n == 2
    then ok i16
    else if leb 3 n && leb n 4
    then ok i32
    else if leb 5 n && leb n 8
    then ok i64
    else if leb 9 n && leb n 16
    then ok i128
    else panic

unfoldable pub float_reg : ℕ → Result Ty
float_reg n = if n == 4 then ok f32 else if n == 8 then ok f64 else panic

module _ (tcx : Tcx) where
  unfoldable pub vector_reg_type : ℕ → Result Ty
  vector_reg_type n =
      if ltb n (2 ^ 32) then elim (tcx.type_by i8 n) [ some t ↦ ok t | none ↦ panic ] else panic

  unfoldable pub reg_type : RegKind → ℕ → Result Ty
  unfolding integer_reg float_reg vector_reg_type
  reg_type integer n = integer_reg n
  reg_type float n = float_reg n
  reg_type vector_reg n = vector_reg_type n

  unfoldable pub reg_to_abi_param : Reg → Result AbiParam
  unfolding reg_type
  reg_to_abi_param reg = reg_type reg.kind reg.size >>= λ t. ok (abi_param t)

  unfoldable pub apply_arg_attrs_to_abi_param : AbiParam → ArgExtension → AbiParam
  apply_arg_attrs_to_abi_param p no_ext = p
  apply_arg_attrs_to_abi_param p zext = record {
    value_type = p.value_type;
    purpose = p.purpose;
    extension = uext;
  }
  apply_arg_attrs_to_abi_param p sign_ext = record {
    value_type = p.value_type;
    purpose = p.purpose;
    extension = sext;
  }

  -- How many whole units there are, and the bytes that remain.
  unfoldable pub rest_count : CastTarget → ℕ
  rest_count target = if target.unit.size == 0 then 0 else target.total / target.unit.size

  unfoldable pub rem_bytes : CastTarget → ℕ
  rem_bytes target = if target.unit.size == 0 then 0 else target.total % target.unit.size

  -- Only integers can be split.
  unfoldable pub final_integer : RegKind → ℕ → Result (List AbiParam)
  unfolding reg_to_abi_param
  final_integer integer rem =
      reg_to_abi_param (record { kind = integer; size = rem }) >>= λ p. ok (p ∷ [])
  final_integer _ rem = panic

  unfoldable pub cast_target_to_abi_params : CastTarget → Result (List AbiParam)
  unfolding flatten each replicate rest_count rem_bytes final_integer reg_to_abi_param
  cast_target_to_abi_params target = do
    heads ← each reg_to_abi_param (flatten target.prefix)
    units ← each reg_to_abi_param (replicate (rest_count target) target.unit)
    final ←
        if rem_bytes target == 0 then ok [] else final_integer target.unit.kind (rem_bytes target)
    ok (heads ++ units ++ final)

  unfoldable pub clif_vector_type : BackendRepr → Result Ty
  unfolding scalar_to_clif_type
  clif_vector_type (vector element count) = do
    t ← scalar_to_clif_type tcx element
    if ltb count (2 ^ 32)
        then elim (tcx.type_by t count) [ some u ↦ ok u | none ↦ panic ]
        else panic
  clif_vector_type _ = panic

  direct_param : ArgExtension → BackendRepr → Result (List AbiParam)
  unfolding scalar_to_clif_type apply_arg_attrs_to_abi_param clif_vector_type
  direct_param attrs (scalar s) =
      scalar_to_clif_type tcx s >>= λ t. ok (apply_arg_attrs_to_abi_param (abi_param t) attrs ∷ [])
  direct_param attrs (vector e n) = clif_vector_type (vector e n) >>= λ t. ok (abi_param t ∷ [])
  direct_param attrs _ = panic

  pair_params : ArgExtension → ArgExtension → BackendRepr → Result (List AbiParam)
  unfolding scalar_to_clif_type apply_arg_attrs_to_abi_param
  pair_params attrs_a attrs_b (scalar_pair a b) = do
    a' ← scalar_to_clif_type tcx a
    b' ← scalar_to_clif_type tcx b
    ok (
        apply_arg_attrs_to_abi_param (abi_param a') attrs_a
        ∷ apply_arg_attrs_to_abi_param (abi_param b') attrs_b
        ∷ [])
  pair_params attrs_a attrs_b _ = panic

  -- An argument on the stack has its size rounded to the pointer's alignment.
  on_stack_param : ArgExtension → ℕ → Result (List AbiParam)
  unfolding pointer_ty apply_arg_attrs_to_abi_param align_to
  on_stack_param attrs size =
      if ltb (align_to size tcx.pointer_align) (2 ^ 32)
      then (pointer_ty tcx >>= λ t. ok (
          apply_arg_attrs_to_abi_param
            (special_param t (struct_argument (align_to size tcx.pointer_align))) attrs
          ∷ []))
      else panic

  abi_param_of : PassMode → Layout → Result (List AbiParam)
  unfolding direct_param pair_params cast_target_to_abi_params on_stack_param pointer_ty
      apply_arg_attrs_to_abi_param
  abi_param_of ignore layout = ok []
  abi_param_of (direct attrs) layout = direct_param attrs layout.backend_repr
  abi_param_of (pair a b) layout = pair_params a b layout.backend_repr
  abi_param_of (cast target true) layout = panic
  abi_param_of (cast target false) layout = cast_target_to_abi_params target
  abi_param_of (indirect attrs none true) layout = on_stack_param attrs layout.size
  abi_param_of (indirect attrs none false) layout =
      pointer_ty tcx >>= λ t. ok (apply_arg_attrs_to_abi_param (abi_param t) attrs ∷ [])
  abi_param_of (indirect attrs (some meta) true) layout = panic
  abi_param_of (indirect attrs (some meta) false) layout = pointer_ty tcx >>= λ t. ok (
      apply_arg_attrs_to_abi_param (abi_param t) attrs
      ∷ apply_arg_attrs_to_abi_param (abi_param t) meta
      ∷ [])

  unfoldable pub get_abi_param : ArgAbi → Result (List AbiParam)
  unfolding abi_param_of
  get_abi_param arg = abi_param_of arg.mode arg.layout

  direct_return : BackendRepr → Result (Option AbiParam × List AbiParam)
  unfolding scalar_to_clif_type clif_vector_type
  direct_return (scalar s) = scalar_to_clif_type tcx s >>= λ t. ok (none, abi_param t ∷ [])
  direct_return (vector e n) = clif_vector_type (vector e n) >>= λ t. ok (none, abi_param t ∷ [])
  direct_return _ = panic

  pair_return : BackendRepr → Result (Option AbiParam × List AbiParam)
  unfolding scalar_to_clif_type
  pair_return (scalar_pair a b) = do
    a' ← scalar_to_clif_type tcx a
    b' ← scalar_to_clif_type tcx b
    ok (none, abi_param a' ∷ abi_param b' ∷ [])
  pair_return _ = panic

  abi_return_of : PassMode → Layout → Result (Option AbiParam × List AbiParam)
  unfolding direct_return pair_return cast_target_to_abi_params pointer_ty
  abi_return_of ignore layout = ok (none, [])
  abi_return_of (direct _) layout = direct_return layout.backend_repr
  abi_return_of (pair _ _) layout = pair_return layout.backend_repr
  abi_return_of (cast target _) layout = cast_target_to_abi_params target >>= λ ps. ok (none, ps)
  abi_return_of (indirect _ none true) layout = panic
  abi_return_of (indirect _ none false) layout =
      pointer_ty tcx >>= λ t. ok (some (special_param t struct_return), [])
  abi_return_of (indirect _ (some _) _) layout = panic

  unfoldable pub get_abi_return : ArgAbi → Result (Option AbiParam × List AbiParam)
  unfolding abi_return_of
  get_abi_return arg = abi_return_of arg.mode arg.layout
