-- ===== src/PassMode/Casted.antt =====
-- src/abi/pass_mode.rs: the values that an argument is passed as.
use rustc_codegen_cranelift.Common.{ℕ, ◌+◌, Bool, true, false, Option, none, some, List, [], ◌∷◌}
use rustc_codegen_cranelift.Common.Int.{pos}
use rustc_codegen_cranelift.Clif.{ty_bytes, Ty, Clif, AbiParam}
use rustc_codegen_cranelift.Codegen.{Tcx, Cg, pure, fail, lift, assert, ◌>>=◌, ◌>>◌}
use rustc_codegen_cranelift.Pointer.{Pointer}
use rustc_codegen_cranelift.Pointer
use rustc_codegen_cranelift.ValueAndPlace.{CValue}
use rustc_codegen_cranelift.ValueAndPlace
use rustc_codegen_cranelift.ValueAndPlace.Assignable.{assignable}
use rustc_codegen_cranelift.ValueAndPlace.Place.{new_stack_slot, to_ptr}
use rustc_codegen_cranelift.ValueAndPlace.Write.{force_stack, write_cvalue}
use rustc_codegen_cranelift.PassMode.Params.{
  CastTarget, cast_target_to_abi_params, ArgAbi, PassMode, ignore, direct, pair, cast, indirect,
}

module _ (c : Clif) (tcx : Tcx) (pointer_type : Ty) where
  open c use {Value}

  -- The parameters lie one after the other.
  unfoldable pub load_params : Pointer c → ℕ → List AbiParam → Cg c (List Value)
  unfolding ty_bytes
  load_params ptr offset [] = pure []
  load_params ptr offset (p ∷ ps) = do
    q ← lift (Pointer.offset_i64 c pointer_type ptr (pos offset))
    v ← Pointer.load_ptr c pointer_type q p.value_type
    vs ← load_params ptr (offset + ty_bytes p.value_type) ps
    pure (v ∷ vs)

  unfoldable pub unmeta : Option Value → Cg c (Unit {0})
  unmeta none = pure tt
  unmeta (some _) = fail

  unfoldable pub to_casted_value : CValue c → CastTarget → Cg c (List Value)
  unfolding force_stack unmeta load_params cast_target_to_abi_params
  to_casted_value arg target = do
    (ptr, meta) ← force_stack c tcx pointer_type arg
    unmeta meta
    params ← lift (cast_target_to_abi_params tcx target)
    load_params ptr 0 params

  owned_values : Pointer c → Option Value → List Value
  owned_values ptr none = Pointer.get_addr c pointer_type ptr ∷ []
  owned_values ptr (some meta) = Pointer.get_addr c pointer_type ptr ∷ meta ∷ []

  -- A copy of the argument for the callee.
  copied : CValue c → Cg c (List Value)
  unfolding new_stack_slot write_cvalue to_ptr
  copied arg = do
    place ← new_stack_slot c tcx pointer_type arg.layout
    write_cvalue c tcx pointer_type place arg
    ptr ← lift (to_ptr c tcx pointer_type place)
    pure (Pointer.get_addr c pointer_type ptr ∷ [])

  adjusted : PassMode → CValue c → Bool → Cg c (List Value)
  unfolding to_casted_value owned_values copied force_stack
  adjusted ignore arg is_owned = pure []
  adjusted (direct _) arg is_owned =
      ValueAndPlace.load_scalar c tcx pointer_type arg >>= λ v. pure (v ∷ [])
  adjusted (pair _ _) arg is_owned = do
    (a, b) ← ValueAndPlace.load_scalar_pair c tcx pointer_type arg
    pure (a ∷ b ∷ [])
  adjusted (cast target _) arg is_owned = to_casted_value arg target
  adjusted (indirect _ _ _) arg true = do
    (ptr, meta) ← force_stack c tcx pointer_type arg
    pure (owned_values ptr meta)
  adjusted (indirect _ _ _) arg false = copied arg

  unfoldable pub adjust_arg_for_abi : CValue c → ArgAbi → Bool → Cg c (List Value)
  unfolding assignable adjusted
  adjust_arg_for_abi arg arg_abi is_owned = do
    assert (assignable tcx 16 arg.layout.ty arg_abi.layout.ty)
    adjusted arg_abi.mode arg is_owned
