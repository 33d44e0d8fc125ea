-- ===== src/Panics.antt =====
-- src/base.rs, `codegen_panic_nounwind`, with `anonymous_str` of src/common.rs: a call of a panic function,
-- after which the program stops.
use Prim.Native.String.{String, len}
use rustc_codegen_cranelift.Common.{List, [], ◌∷◌, map, if◌then◌else◌}
use rustc_codegen_cranelift.Common.Int.{pos}
use rustc_codegen_cranelift.Clif.{Ty, Clif, abi_param}
use rustc_codegen_cranelift.Codegen.{Tcx, Cg, ok, writes, ◌>>=◌}
use rustc_codegen_cranelift.FunctionCx.{as_i64}
use rustc_codegen_cranelift.LibCall.{lib_call}

module _ (c : Clif) (tcx : Tcx) (pointer_type : Ty) where
  open c use {Value, value_type, iconst, trap, anonymous_data}

  anonymous_str : String → Cg c Value
  anonymous_str msg fx = let (v, fx') = anonymous_data msg fx in ok (v, fx')

  unfoldable pub codegen_panic_inner : String → List Value → Cg c (Unit {0})
  unfolding lib_call
  codegen_panic_inner symbol args =
      if tcx.is_upstream_call
      then writes (trap 2)
      else (lib_call c tcx pointer_type symbol (map (λ v. abi_param (value_type v)) args) [] args
          >>= λ _. writes (trap 1))

  unfoldable pub codegen_panic_nounwind : String → Cg c (Unit {0})
  unfolding codegen_panic_inner anonymous_str as_i64
  codegen_panic_nounwind msg = do
    msg_ptr ← anonymous_str msg
    let msg_len = iconst pointer_type (as_i64 (pos (len msg)))
    codegen_panic_inner tcx.panic_nounwind_symbol (msg_ptr ∷ msg_len ∷ [])
