-- ===== src/LibCall.antt =====
-- src/abi/mod.rs, `lib_call`: calls of the runtime library. On Windows a 128 bit integer is passed
-- and returned through a stack slot.
use Prim.Native.String.{String}
use rustc_codegen_cranelift.Common.{Bool, false, List, [], ◌∷◌, if◌then◌else◌, leb, length}
use rustc_codegen_cranelift.Clif.{Ty, i128, ty_eq, Clif, AbiParam, abi_param}
use rustc_codegen_cranelift.Codegen.{Tcx, Cg, pure, ◌>>=◌, ◌>>◌, ok, panic}
use rustc_codegen_cranelift.Pointer
use rustc_codegen_cranelift.FunctionCx.{create_stack_slot}

module _ (c : Clif) (tcx : Tcx) (pointer_type : Ty) where
  open c use {Value, Fx, call}

  unfoldable pub lib_call_unadjusted :
      String → List AbiParam → List AbiParam → List Value → Cg c (List Value)
  lib_call_unadjusted name params returns args fx =
      let (results, fx') = call name params returns args fx in
      if leb (length results) 2 then ok (results, fx') else panic

  adjust_arg : AbiParam → Value → Cg c (AbiParam × Value)
  unfolding create_stack_slot
  adjust_arg param arg =
      if ty_eq param.value_type i128
      then (do
        arg_ptr ← create_stack_slot c tcx pointer_type 16 16
        Pointer.store_ptr c pointer_type arg_ptr arg
        pure (abi_param pointer_type, Pointer.get_addr c pointer_type arg_ptr))
      else pure (param, arg)

  -- `zip` stops at the shorter of the two.
  adjust_args : List AbiParam → List Value → Cg c (List AbiParam × List Value)
  unfolding adjust_arg
  adjust_args (param ∷ params) (arg ∷ args) = do
    (param', arg') ← adjust_arg param arg
    (params', args') ← adjust_args params args
    pure (param' ∷ params', arg' ∷ args')
  adjust_args _ _ = pure ([], [])

  indirect_return : List AbiParam → Bool
  indirect_return (ret ∷ []) = ty_eq ret.value_type i128
  indirect_return _ = false

  call_indirect : String → List AbiParam → List Value → Cg c (List Value)
  unfolding lib_call_unadjusted create_stack_slot
  call_indirect name params args = do
    ret_ptr ← create_stack_slot c tcx pointer_type 16 16
    _ ←
        lib_call_unadjusted name (abi_param pointer_type ∷ params) []
          (Pointer.get_addr c pointer_type ret_ptr ∷ args)
    ret ← Pointer.load_ptr c pointer_type ret_ptr i128
    pure (ret ∷ [])

  windows_call : String → List AbiParam → List AbiParam → List Value → Cg c (List Value)
  unfolding adjust_args indirect_return lib_call_unadjusted call_indirect
  windows_call name params returns args = adjust_args params args >>= λ adjusted.
      if indirect_return returns
      then call_indirect name adjusted.0 adjusted.1
      else lib_call_unadjusted name adjusted.0 returns adjusted.1

  unfoldable pub lib_call : String → List AbiParam → List AbiParam → List Value → Cg c (List Value)
  unfolding windows_call lib_call_unadjusted
  lib_call name params returns args =
      if tcx.is_like_windows
      then windows_call name params returns args
      else lib_call_unadjusted name params returns args

  -- `[0]`
  abbrev pub first_of_list : List Value → Cg c Value
  first_of_list [] fx = panic
  first_of_list (v ∷ _) fx = ok (v, fx)
