-- ===== src/PassMode/Values.antt =====
-- src/abi/pass_mode.rs: the value of a parameter from the parameters of the entry block.
use rustc_codegen_cranelift.Common.{ℕ, ◌+◌, ◌^◌, Option, none, some, List, [], ◌∷◌, ltb, max}
use rustc_codegen_cranelift.Common.Int.{pos}
use rustc_codegen_cranelift.Clif.{ty_bytes, Ty, ty_eq, Clif, AbiParam}
use rustc_codegen_cranelift.Codegen.{Tcx, Cg, pure, fail, lift, assert, ◌>>=◌, ◌>>◌, Layout}
use rustc_codegen_cranelift.Pointer.{Pointer}
use rustc_codegen_cranelift.Pointer
use rustc_codegen_cranelift.FunctionCx.{create_stack_slot}
use rustc_codegen_cranelift.ValueAndPlace.{CValue, by_ref}
use rustc_codegen_cranelift.ValueAndPlace
use rustc_codegen_cranelift.PassMode.Params.{
  CastTarget, cast_target_to_abi_params, get_abi_param, ArgAbi, PassMode, ignore, direct, pair,
  cast, indirect,
}

unfoldable pub param_bytes : List AbiParam → ℕ
unfolding ty_bytes
param_bytes [] = 0
param_bytes (p ∷ ps) = ty_bytes p.value_type + param_bytes ps

module _ (c : Clif) (tcx : Tcx) (pointer_type : Ty) where
  open c use {Value}

  -- Every block parameter goes to the slot, one after the other; none may be left over.
  unfoldable pub store_params : Pointer c → ℕ → List AbiParam → List Value → Cg c (Unit {0})
  unfolding ty_bytes
  store_params ptr offset [] [] = pure tt
  store_params ptr offset (p ∷ ps) (v ∷ vs) = do
    q ← lift (Pointer.offset_i64 c pointer_type ptr (pos offset))
    Pointer.store_ptr c pointer_type q v
    store_params ptr (offset + ty_bytes p.value_type) ps vs
  store_params ptr offset _ _ = fail

  unfoldable pub from_casted_value : List Value → Layout → CastTarget → Cg c (CValue c)
  unfolding store_params param_bytes cast_target_to_abi_params
  from_casted_value block_params layout target = do
    params ← lift (cast_target_to_abi_params tcx target)
    assert (ltb layout.size (2 ^ 32))
    assert (ltb layout.pref_align (2 ^ 32))
    ptr ←
        create_stack_slot c tcx pointer_type (max (param_bytes params) layout.size)
          layout.pref_align
    store_params ptr 0 params block_params
    pure (ValueAndPlace.at_ref c tcx pointer_type ptr layout)

  -- The next block parameters, whose types are those of the signature.
  unfoldable pub take_params : List AbiParam → List Value → Cg c (List Value × List Value)
  unfolding ty_eq
  take_params [] rest = pure ([], rest)
  take_params (p ∷ ps) [] = fail
  take_params (p ∷ ps) (v ∷ vs) = do
    assert (ty_eq (c.value_type v) p.value_type)
    (taken, rest) ← take_params ps vs
    pure (v ∷ taken, rest)

  unfoldable pub value_of : PassMode → Layout → List Value → Cg c (Option (CValue c))
  unfolding from_casted_value
  value_of ignore layout vs = pure none
  value_of (direct _) layout (v ∷ []) = pure (some (ValueAndPlace.val c tcx pointer_type v layout))
  value_of (pair _ _) layout (a ∷ b ∷ []) =
      pure (some (ValueAndPlace.val_pair c tcx pointer_type a b layout))
  value_of (cast target _) layout vs = from_casted_value vs layout target >>= λ v. pure (some v)
  value_of (indirect _ none _) layout (v ∷ []) =
      pure (some (ValueAndPlace.at_ref c tcx pointer_type (Pointer.new c pointer_type v) layout))
  value_of (indirect _ (some _) _) layout (v ∷ meta ∷ []) =
      pure (
        some
          (record { inner = by_ref (Pointer.new c pointer_type v) (some meta); layout = layout }))
  value_of _ layout vs = fail

  -- The value, and the block parameters that are left.
  unfoldable pub cvalue_for_param : ArgAbi → List Value → Cg c (Option (CValue c) × List Value)
  unfolding take_params value_of get_abi_param
  cvalue_for_param arg block_params_iter = do
    params ← lift (get_abi_param tcx arg)
    (block_params, rest) ← take_params params block_params_iter
    value ← value_of arg.mode arg.layout block_params
    pure (value, rest)
