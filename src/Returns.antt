-- ===== src/Returns.antt =====
-- src/abi/returning.rs: where a function's result lies, how a call delivers it and what a return gives back. With
-- `make_local_place` of src/abi/mod.rs.
pub mod Forwarded
use rustc_codegen_cranelift.Common.{ℕ, Bool, Option, none, some, List, [], ◌∷◌, if◌then◌else◌}
use rustc_codegen_cranelift.Clif.{Ty, ty_eq, Clif}
use rustc_codegen_cranelift.Codegen.{
  Tcx, Cg, pure, fail, lift, assert, unwrap, ◌>>=◌, ◌>>◌, Layout, BackendRepr, scalar_pair,
}
use rustc_codegen_cranelift.Pointer.{Pointer}
use rustc_codegen_cranelift.Pointer
use rustc_codegen_cranelift.Analyze.{SsaKind, is_ssa}
use rustc_codegen_cranelift.ValueAndPlace.{CValue}
use rustc_codegen_cranelift.ValueAndPlace
use rustc_codegen_cranelift.ValueAndPlace.Place.{
  CPlace, for_ptr, new_stack_slot, new_var, new_var_pair, to_ptr, to_cvalue, place_try_to_ptr,
}
use rustc_codegen_cranelift.ValueAndPlace.Write.{write_cvalue}
use rustc_codegen_cranelift.PassMode.Params.{
  CastTarget, ArgAbi, PassMode, ignore, direct, pair, cast, indirect,
}
use rustc_codegen_cranelift.PassMode.Values.{from_casted_value}
use rustc_codegen_cranelift.PassMode.Casted.{to_casted_value}

module _ (c : Clif) (tcx : Tcx) (pointer_type : Ty) where
  open c use {Value, value_type}

  unfoldable pub ssa_place : ℕ → Layout → BackendRepr → Cg c (CPlace c)
  unfolding new_var new_var_pair
  ssa_place loc layout (scalar_pair _ _) = new_var_pair c tcx pointer_type loc layout
  ssa_place loc layout _ = new_var c tcx pointer_type loc layout

  unfoldable pub make_local_place : ℕ → Layout → Bool → Cg c (CPlace c)
  unfolding ssa_place new_stack_slot
  make_local_place loc layout ssa =
      assert (tcx.is_sized layout.ty)
      >> (if ssa
          then ssa_place loc layout layout.backend_repr
          else new_stack_slot c tcx pointer_type layout)

  unfoldable pub return_param_of :
      PassMode → SsaKind → Layout → List Value → Cg c (CPlace c × List Value)
  unfolding is_ssa make_local_place
  return_param_of (indirect _ none _) kind layout (ret_param ∷ rest) = do
    assert (ty_eq (value_type ret_param) pointer_type)
    pure (for_ptr c tcx pointer_type (Pointer.new c pointer_type ret_param) layout, rest)
  return_param_of (indirect _ none _) kind layout [] = fail
  return_param_of (indirect _ (some _) _) kind layout params = fail
  return_param_of _ kind layout params = do
    ssa ← lift (is_ssa tcx kind layout.ty)
    place ← make_local_place 0 layout ssa
    pure (place, params)

  -- The place of the result, and the block parameters that are left. `RETURN_PLACE` is the local 0.
  unfoldable pub codegen_return_param : ArgAbi → SsaKind → List Value → Cg c (CPlace c × List Value)
  unfolding return_param_of
  codegen_return_param ret kind params = return_param_of ret.mode kind ret.layout params

  -- The place for the result if it is not the place that is asked for, and the pointer to pass.
  pointed : Option (Pointer c) → Layout → Cg c (Option (CPlace c) × Option Value)
  unfolding new_stack_slot to_ptr
  pointed (some ptr) layout = pure (none, some (Pointer.get_addr c pointer_type ptr))
  pointed none layout = do
    place ← new_stack_slot c tcx pointer_type layout
    ptr ← lift (to_ptr c tcx pointer_type place)
    pure (some place, some (Pointer.get_addr c pointer_type ptr))

  return_arg : PassMode → Layout → CPlace c → Cg c (Option (CPlace c) × Option Value)
  unfolding pointed place_try_to_ptr
  return_arg (indirect _ none _) layout ret_place = do
    ret_ptr ← lift (place_try_to_ptr c tcx pointer_type ret_place)
    pointed ret_ptr layout
  return_arg (indirect _ (some _) _) layout ret_place = fail
  return_arg _ layout ret_place = pure (none, none)

  copy_back : Option (CPlace c) → CPlace c → Cg c (Unit {0})
  unfolding to_cvalue write_cvalue
  copy_back none ret_place = pure tt
  copy_back (some temp) ret_place =
      to_cvalue c tcx pointer_type temp >>= write_cvalue c tcx pointer_type ret_place

  -- The results go to the place.
  deliver : PassMode → Layout → CPlace c → Option (CPlace c) → List Value → Cg c (Unit {0})
  unfolding write_cvalue from_casted_value copy_back
  deliver ignore layout ret_place temp results = pure tt
  deliver (direct _) layout ret_place temp (v ∷ _) =
      write_cvalue c tcx pointer_type ret_place (ValueAndPlace.val c tcx pointer_type v layout)
  deliver (direct _) layout ret_place temp [] = fail
  deliver (pair _ _) layout ret_place temp (a ∷ b ∷ _) =
      write_cvalue c tcx pointer_type ret_place
        (ValueAndPlace.val_pair c tcx pointer_type a b layout)
  deliver (pair _ _) layout ret_place temp _ = fail
  deliver (cast target _) layout ret_place temp results =
      from_casted_value c tcx pointer_type results ret_place.layout target
      >>= write_cvalue c tcx pointer_type ret_place
  deliver (indirect _ none _) layout ret_place temp results = copy_back temp ret_place
  deliver (indirect _ (some _) _) layout ret_place temp results = fail

  -- `f` appends the call and gives its results.
  unfoldable pub codegen_with_call_return_arg :
      ArgAbi → CPlace c → (Option Value → Cg c (List Value)) → Cg c (Unit {0})
  unfolding return_arg deliver
  codegen_with_call_return_arg ret_arg_abi ret_place f = do
    (temp, return_ptr) ← return_arg ret_arg_abi.mode ret_arg_abi.layout ret_place
    results ← f return_ptr
    deliver ret_arg_abi.mode ret_arg_abi.layout ret_place temp results

  returned : PassMode → CPlace c → Cg c (List Value)
  unfolding to_cvalue to_casted_value
  returned ignore place = pure []
  returned (indirect _ none _) place = pure []
  returned (indirect _ (some _) _) place = fail
  returned (direct _) place = do
    value ← to_cvalue c tcx pointer_type place
    v ← ValueAndPlace.load_scalar c tcx pointer_type value
    pure (v ∷ [])
  returned (pair _ _) place = do
    value ← to_cvalue c tcx pointer_type place
    (a, b) ← ValueAndPlace.load_scalar_pair c tcx pointer_type value
    pure (a ∷ b ∷ [])
  returned (cast target _) place = do
    value ← to_cvalue c tcx pointer_type place
    to_casted_value c tcx pointer_type value target

  -- What `return_` gives back, from the place of the result.
  unfoldable pub codegen_return : ArgAbi → CPlace c → Cg c (List Value)
  unfolding returned
  codegen_return ret place = returned ret.mode place
