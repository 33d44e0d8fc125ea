-- ===== src/Prelude.antt =====
-- src/abi/mod.rs, `codegen_fn_prelude`: the places of a function's locals, filled with its parameters. Locals are
-- numbered by their position: the result, the arguments, then the variables.
pub mod Layouts
pub mod Places
use rustc_codegen_cranelift.Common.{
  ℕ, zero, suc, ◌+◌, ◌==◌, Bool, true, false, not, Option, none, some, List, [], ◌∷◌, ◌++◌, length,
  get_elem?,
}
use rustc_codegen_cranelift.Clif.{Ty, Clif}
use rustc_codegen_cranelift.Codegen.{
  Tcx, Cg, pure, fail, lift, assert, unwrap, ◌>>=◌, ◌>>◌, RustTy, tuple, Tys, nil, cons,
}
use rustc_codegen_cranelift.Pointer.{Pointer}
use rustc_codegen_cranelift.Analyze.{SsaKind, is_ssa, analyze}
use rustc_codegen_cranelift.Body.Syntax.{BasicBlockData}
use rustc_codegen_cranelift.ValueAndPlace.{CValue}
use rustc_codegen_cranelift.ValueAndPlace.Place.{CPlace, for_ptr, for_ptr_with_extra, try_to_ptr}
use rustc_codegen_cranelift.ValueAndPlace.Fields.{place_field}
use rustc_codegen_cranelift.ValueAndPlace.Write.{write_cvalue}
use rustc_codegen_cranelift.PassMode.Params.{ArgAbi}
use rustc_codegen_cranelift.PassMode.Values.{cvalue_for_param}
use rustc_codegen_cranelift.Returns.{make_local_place, codegen_return_param}

-- An argument without a value is not passed.
pub data ArgKind (c : Clif) : Type 0 where
  normal : Option (CValue c) → ArgKind c
  spread : List (Option (CValue c)) → ArgKind c

-- The function: `FnAbi` and the types of the locals, with the statements by the locals whose addresses they take.
pub record Body : Type 0 where
  pub ret : ArgAbi
  pub arg_abis : List ArgAbi
  pub c_variadic : Bool
  pub requires_caller_location : Bool
  pub arg_tys : List RustTy
  pub spread_arg : Option ℕ
  pub var_tys : List RustTy
  pub blocks : List BasicBlockData

unfoldable pub is_spread : Option ℕ → ℕ → Bool
is_spread none loc = false
is_spread (some s) loc = s == loc

field_types : Tys → ℕ
field_types nil = 0
field_types (cons t ts) = suc (field_types ts)

unfoldable pub is_empty : {A : Type 0} → List A → Bool
is_empty [] = true
is_empty (_ ∷ _) = false

module _ (c : Clif) (tcx : Tcx) (pointer_type : Ty) (depth : ℕ) where
  open c use {Value}

  -- The value of the next argument of the ABI, with the arguments and the parameters of the block that are left.
  unfoldable pub next_param :
      List ArgAbi → List Value → Cg c (Option (CValue c) × List ArgAbi × List Value)
  unfolding cvalue_for_param
  next_param [] params = fail
  next_param (abi ∷ abis) params = do
    (param, rest) ← cvalue_for_param c tcx pointer_type abi params
    pure (param, abis, rest)

  -- The parts of a tuple, their number first.
  spread_params :
      ℕ → List ArgAbi → List Value → Cg c (List (Option (CValue c)) × List ArgAbi × List Value)
  unfolding next_param
  spread_params zero abis params = pure ([], abis, params)
  spread_params (suc n) abis params = do
    (param, abis', params') ← next_param abis params
    (rest, abis'', params'') ← spread_params n abis' params'
    pure (param ∷ rest, abis'', params'')

  spread_param : RustTy → List ArgAbi → List Value → Cg c (ArgKind c × List ArgAbi × List Value)
  unfolding spread_params field_types
  spread_param (tuple tys) abis params = do
    (parts, abis', params') ← spread_params (field_types tys) abis params
    pure (spread parts, abis', params')
  spread_param _ abis params = fail

  unfoldable pub func_param :
      Bool → RustTy → List ArgAbi → List Value → Cg c (ArgKind c × List ArgAbi × List Value)
  unfolding next_param spread_param
  func_param true ty abis params = spread_param ty abis params
  func_param false ty abis params = do
    (param, abis', params') ← next_param abis params
    pure (normal param, abis', params')

  unfoldable pub func_params :
      Option ℕ
      → ℕ
      → List RustTy
      → List ArgAbi
      → List Value
      → Cg c (List (ArgKind c × RustTy) × List ArgAbi × List Value)
  unfolding func_param is_spread
  func_params spread_arg loc [] abis params = pure ([], abis, params)
  func_params spread_arg loc (ty ∷ tys) abis params = do
    (kind, abis', params') ← func_param (is_spread spread_arg loc) ty abis params
    (rest, abis'', params'') ← func_params spread_arg (suc loc) tys abis' params'
    pure ((kind, ty) ∷ rest, abis'', params'')

  write_params : CPlace c → ℕ → List (Option (CValue c)) → Cg c (Unit {0})
  unfolding place_field write_cvalue
  write_params place i [] = pure tt
  write_params place i (none ∷ ps) = write_params place (suc i) ps
  write_params place i (some v ∷ ps) =
      (place_field c tcx pointer_type depth place i >>= λ to. write_cvalue c tcx pointer_type to v)
      >> write_params place (suc i) ps

  unfoldable pub write_arg : CPlace c → ArgKind c → Cg c (Unit {0})
  unfolding write_params write_cvalue
  write_arg place (normal none) = pure tt
  write_arg place (normal (some v)) = write_cvalue c tcx pointer_type place v
  write_arg place (spread ps) = write_params place 0 ps

  -- A new place for a local.
  unfoldable pub local_place : List SsaKind → ℕ → RustTy → Cg c (CPlace c)
  unfolding is_ssa make_local_place
  local_place flags loc ty = do
    kind ← unwrap (get_elem? flags loc)
    ssa ← lift (is_ssa tcx kind ty)
    make_local_place c tcx pointer_type loc (tcx.layout_of ty) ssa

  unfoldable pub filled_place : List SsaKind → ℕ → ArgKind c → RustTy → Cg c (CPlace c)
  unfolding local_place write_arg
  filled_place flags loc kind ty = do
    place ← local_place flags loc ty
    write_arg place kind
    pure place

  -- The memory of an argument is borrowed: the callee owns it.
  unfoldable pub borrowed_or_filled :
      List SsaKind → ℕ → CValue c → RustTy → Option (Pointer c × Option Value) → Cg c (CPlace c)
  unfolding filled_place
  borrowed_or_filled flags loc v ty (some (addr, some meta)) =
      pure (for_ptr_with_extra c tcx pointer_type addr meta v.layout)
  borrowed_or_filled flags loc v ty (some (addr, none)) =
      pure (for_ptr c tcx pointer_type addr v.layout)
  borrowed_or_filled flags loc v ty none = filled_place flags loc (normal (some v)) ty

  unfoldable pub arg_place : List SsaKind → ℕ → ArgKind c → RustTy → Cg c (CPlace c)
  unfolding borrowed_or_filled filled_place try_to_ptr
  arg_place flags loc (normal (some v)) ty =
      borrowed_or_filled flags loc v ty (try_to_ptr c tcx pointer_type v)
  arg_place flags loc kind ty = filled_place flags loc kind ty

  unfoldable pub arg_places : List SsaKind → ℕ → List (ArgKind c × RustTy) → Cg c (List (CPlace c))
  unfolding arg_place
  arg_places flags loc [] = pure []
  arg_places flags loc ((kind, ty) ∷ rest) = do
    place ← arg_place flags loc kind ty
    places ← arg_places flags (suc loc) rest
    pure (place ∷ places)

  unfoldable pub var_places : List SsaKind → ℕ → List RustTy → Cg c (List (CPlace c))
  unfolding local_place
  var_places flags loc [] = pure []
  var_places flags loc (ty ∷ tys) = do
    place ← local_place flags loc ty
    places ← var_places flags (suc loc) tys
    pure (place ∷ places)

  unfoldable pub location_param :
      Bool → List ArgAbi → List Value → Cg c (Option (CValue c) × List ArgAbi × List Value)
  unfolding next_param
  location_param false abis params = pure (none, abis, params)
  location_param true abis params = do
    (param, abis', params') ← next_param abis params
    loc ← unwrap param
    pure (some loc, abis', params')

  unfoldable pub local_count : Body → ℕ
  local_count body = suc (length body.arg_tys + length body.var_tys)

  -- The places of the locals in order, and the caller's location.
  unfoldable pub codegen_fn_prelude : Body → List Value → Cg c (List (CPlace c) × Option (CValue c))
  unfolding local_count analyze codegen_return_param func_params location_param is_empty arg_places
      var_places
  codegen_fn_prelude body params = do
    flags ← lift (analyze (local_count body) body.blocks)
    kind ← unwrap (get_elem? flags 0)
    (ret_place, params1) ← codegen_return_param c tcx pointer_type body.ret kind params
    assert (not body.c_variadic)
    (args, abis2, params2) ← func_params body.spread_arg 1 body.arg_tys body.arg_abis params1
    (location, abis3, params3) ← location_param body.requires_caller_location abis2 params2
    assert (is_empty abis3)
    assert (is_empty params3)
    places ← arg_places flags 1 args
    vars ← var_places flags (suc (length body.arg_tys)) body.var_tys
    pure (ret_place ∷ places ++ vars, location)
