-- ===== src/Prelude/Places.antt =====
-- src/abi/mod.rs, `codegen_fn_prelude`: the places are those of the locals in their order.
use rustc_codegen_cranelift.Common.{
  ℕ, suc, ◌^◌, ltb, ◌≡◌, refl, sym, ap, subst, ◌∙◌, false, not, Option, none, some, List, [], ◌∷◌,
  ◌++◌, map, length, get_elem?, max,
}
use rustc_codegen_cranelift.Clif.{Ty, ty_eq, Clif}
use rustc_codegen_cranelift.Codegen.{Tcx, ok, pure, lift, assert, unwrap, ◌>>=◌, Layout, RustTy}
use rustc_codegen_cranelift.Pointer.{Pointer}
use rustc_codegen_cranelift.Pointer
use rustc_codegen_cranelift.FunctionCx.{create_stack_slot}
use rustc_codegen_cranelift.Analyze.{SsaKind, is_ssa, analyze}
use rustc_codegen_cranelift.ValueAndPlace.{CValue, by_ref}
use rustc_codegen_cranelift.ValueAndPlace
use rustc_codegen_cranelift.ValueAndPlace.Place.{CPlace, for_ptr}
use rustc_codegen_cranelift.PassMode.Params.{
  CastTarget, cast_target_to_abi_params, get_abi_param, ArgAbi, PassMode, ignore, direct, pair,
  cast, indirect,
}
use rustc_codegen_cranelift.PassMode.Values.{
  param_bytes, store_params, from_casted_value, take_params, value_of, cvalue_for_param,
}
use rustc_codegen_cranelift.Returns.{return_param_of, codegen_return_param, make_local_place}
use rustc_codegen_cranelift.Prelude.{
  ArgKind, normal, Body, next_param, func_param, func_params, is_spread, location_param,
  local_count, is_empty, arg_places, var_places, codegen_fn_prelude,
}
use rustc_codegen_cranelift.Prelude.Layouts.{
  Gives, pure-Gives, fail-Gives, >>=-Gives, skip-Gives, Fits, AllFit, make_local_place-Has,
  arg_places-HaveAll, var_places-HaveAll,
}

map-append : {A B : Type 0} (f : A → B) (xs ys : List A) → map f (xs ++ ys) ≡ map f xs ++ map f ys
map-append f [] ys = refl
map-append f (x ∷ xs) ys = ap (λ r. f x ∷ r) (map-append f xs ys)

module _ (c : Clif) (tcx : Tcx) (pointer_type : Ty) where
  open c use {Value, Fx, value_type}

  -- A value that is passed has the layout.
  abbrev pub Carries : Layout → Option (CValue c) → Type 0
  Carries l none = Unit {0}
  Carries l (some v) = v.layout ≡ l

  from_casted_value-Carries :
      (vs : List Value) (l : Layout) (target : CastTarget)
      → Gives c (λ v. v.layout ≡ l) (from_casted_value c tcx pointer_type vs l target)
  unfolding from_casted_value
  from_casted_value-Carries vs l target =
      skip-Gives c (lift (cast_target_to_abi_params tcx target)) λ params.
        skip-Gives c (assert (ltb l.size (2 ^ 32))) λ _.
          skip-Gives c (assert (ltb l.pref_align (2 ^ 32))) λ _.
            skip-Gives c
              (create_stack_slot c tcx pointer_type (max (param_bytes params) l.size) l.pref_align)
              λ ptr. skip-Gives c (store_params c tcx pointer_type ptr 0 params vs) λ _.
                pure-Gives c (λ v. v.layout ≡ l) (ValueAndPlace.at_ref c tcx pointer_type ptr l)
                  refl

  value_of-Carries :
      (mode : PassMode) (l : Layout) (vs : List Value)
      → Gives c (Carries l) (value_of c tcx pointer_type mode l vs)
  unfolding value_of
  value_of-Carries ignore l vs = pure-Gives c (Carries l) none tt
  value_of-Carries (direct _) l (v ∷ []) =
      pure-Gives c (Carries l) (some (ValueAndPlace.val c tcx pointer_type v l)) refl
  value_of-Carries (pair _ _) l (a ∷ b ∷ []) =
      pure-Gives c (Carries l) (some (ValueAndPlace.val_pair c tcx pointer_type a b l)) refl
  value_of-Carries (cast target _) l vs =
      >>=-Gives c (from_casted_value c tcx pointer_type vs l target)
        (from_casted_value-Carries vs l target) λ v h. pure-Gives c (Carries l) (some v) h
  value_of-Carries (indirect _ none _) l (v ∷ []) =
      pure-Gives c (Carries l)
        (some (ValueAndPlace.at_ref c tcx pointer_type (Pointer.new c pointer_type v) l)) refl
  value_of-Carries (indirect _ (some _) _) l (v ∷ meta ∷ []) =
      pure-Gives c (Carries l)
        (some (record { inner = by_ref (Pointer.new c pointer_type v) (some meta); layout = l }))
        refl
  value_of-Carries _ l _ = fail-Gives c (Carries l)

  cvalue_for_param-Carries :
      (abi : ArgAbi) (vs : List Value)
      → Gives c (λ r. Carries abi.layout r.0) (cvalue_for_param c tcx pointer_type abi vs)
  unfolding cvalue_for_param
  cvalue_for_param-Carries abi vs = skip-Gives c (lift (get_abi_param tcx abi)) λ params.
      skip-Gives c (take_params c tcx pointer_type params vs) λ taken.
        >>=-Gives c (value_of c tcx pointer_type abi.mode abi.layout taken.0)
          (value_of-Carries abi.mode abi.layout taken.0)
          λ v h. pure-Gives c (λ r. Carries abi.layout r.0) (v, taken.1) h

  module _ (depth : ℕ) where
    next_param-Carries :
        (abi : ArgAbi) (abis : List ArgAbi) (vs : List Value)
        → Gives c
            (λ r. Carries abi.layout r.0 × (r.1 ≡ abis))
            (next_param c tcx pointer_type depth (abi ∷ abis) vs)
    unfolding next_param
    next_param-Carries abi abis vs =
        >>=-Gives c (cvalue_for_param c tcx pointer_type abi vs) (cvalue_for_param-Carries abi vs)
          λ r h.
            pure-Gives c (λ r. Carries abi.layout r.0 × (r.1 ≡ abis)) (r.0, abis, r.1) (h, refl)

    -- The arguments of the ABI are those of the body, one for one.
    abbrev pub Passed : List RustTy → List ArgAbi → Type 0
    Passed [] abis = Unit {0}
    Passed (ty ∷ tys) [] = Unit {0}
    Passed (ty ∷ tys) (abi ∷ abis) = (abi.layout ≡ tcx.layout_of ty) × Passed tys abis

    Carries-Fits :
        (l : Layout) (ty : RustTy) (v : Option (CValue c))
        → l ≡ tcx.layout_of ty
        → Carries l v
        → Fits c tcx pointer_type depth (normal v) ty
    Carries-Fits l ty none e h = tt
    Carries-Fits l ty (some v) e h = h ∙ e

    func_param-Fits :
        (ty : RustTy) (abi : ArgAbi) (abis : List ArgAbi) (vs : List Value)
        → abi.layout ≡ tcx.layout_of ty
        → Gives c
            (λ r. Fits c tcx pointer_type depth r.0 ty × (r.1 ≡ abis))
            (func_param c tcx pointer_type depth false ty (abi ∷ abis) vs)
    unfolding func_param
    func_param-Fits ty abi abis vs e =
        >>=-Gives c (next_param c tcx pointer_type depth (abi ∷ abis) vs)
          (next_param-Carries abi abis vs)
          λ r h.
            pure-Gives c (λ r. Fits c tcx pointer_type depth r.0 ty × (r.1 ≡ abis))
              (normal r.0, r.1, r.2) (Carries-Fits abi.layout ty r.0 e h.0, h.1)

    abbrev pub Arguments : List RustTy → List (ArgKind c × RustTy) → Type 0
    Arguments tys args = AllFit c tcx pointer_type depth args × (map (λ a. a.1) args ≡ tys)

    func_params-Arguments :
        (loc : ℕ) (tys : List RustTy) (abis : List ArgAbi) (vs : List Value)
        → Passed tys abis
        → Gives c
            (λ r. Arguments tys r.0)
            (func_params c tcx pointer_type depth none loc tys abis vs)
    unfolding func_params func_param is_spread next_param
    func_params-Arguments loc [] abis vs h =
        pure-Gives c (λ r. Arguments [] r.0) ([], abis, vs) (tt, refl)
    func_params-Arguments loc (ty ∷ tys) [] vs h = fail-Gives c (λ r. Arguments (ty ∷ tys) r.0)
    func_params-Arguments loc (ty ∷ tys) (abi ∷ abis) vs (e, h) =
        >>=-Gives c (func_param c tcx pointer_type depth false ty (abi ∷ abis) vs)
          (func_param-Fits ty abi abis vs e)
          λ r f.
            >>=-Gives c (func_params c tcx pointer_type depth none (suc loc) tys r.1 r.2)
              (func_params-Arguments (suc loc) tys r.1 r.2 (subst (Passed tys) (sym f.1) h))
              λ s g.
                pure-Gives c (λ r. Arguments (ty ∷ tys) r.0) ((r.0, ty) ∷ s.0, s.1, s.2)
                  ((f.0, g.0), ap (λ ts. ty ∷ ts) g.1)

    -- The place, with the parameters that are left.
    abbrev pub HasPlace : Layout → CPlace c × List Value → Type 0
    HasPlace l r = r.0.layout ≡ l

    new_place-HasPlace :
        (kind : SsaKind) (l : Layout) (vs : List Value)
        → Gives c (HasPlace l) (
            lift (is_ssa tcx kind l.ty) >>= λ ssa.
            make_local_place c tcx pointer_type 0 l ssa >>= λ place. pure (place, vs))
    new_place-HasPlace kind l vs = skip-Gives c (lift (is_ssa tcx kind l.ty)) λ ssa.
        >>=-Gives c (make_local_place c tcx pointer_type 0 l ssa)
          (make_local_place-Has c tcx pointer_type 0 l ssa)
          λ p h. pure-Gives c (HasPlace l) (p, vs) h

    return_param_of-HasPlace :
        (mode : PassMode) (kind : SsaKind) (l : Layout) (vs : List Value)
        → Gives c (HasPlace l) (return_param_of c tcx pointer_type mode kind l vs)
    unfolding return_param_of
    return_param_of-HasPlace (indirect _ none _) kind l (v ∷ vs) =
        skip-Gives c (assert (ty_eq (value_type v) pointer_type)) λ _.
          pure-Gives c (HasPlace l)
            (for_ptr c tcx pointer_type (Pointer.new c pointer_type v) l, vs) refl
    return_param_of-HasPlace (indirect _ none _) kind l [] = fail-Gives c (HasPlace l)
    return_param_of-HasPlace (indirect _ (some _) _) kind l vs = fail-Gives c (HasPlace l)
    return_param_of-HasPlace ignore kind l vs = new_place-HasPlace kind l vs
    return_param_of-HasPlace (direct _) kind l vs = new_place-HasPlace kind l vs
    return_param_of-HasPlace (pair _ _) kind l vs = new_place-HasPlace kind l vs
    return_param_of-HasPlace (cast _ _) kind l vs = new_place-HasPlace kind l vs

    -- A body without a spread argument, whose arguments have the layouts that the ABI has for them: when its prelude
    -- comes back, there is one place for each local, in the order of the locals, with the layout of its type.
    pub codegen_fn_prelude-HaveAll :
        (body : Body) (vs : List Value) (places : List (CPlace c)) (location : Option (CValue c))
        (fx fx' : Fx)
        → body.spread_arg ≡ none
        → Passed body.arg_tys body.arg_abis
        → codegen_fn_prelude c tcx pointer_type depth body vs fx ≡ ok ((places, location), fx')
        → map (λ p. p.layout) places
          ≡ body.ret.layout ∷ map tcx.layout_of (body.arg_tys ++ body.var_tys)
    unfolding codegen_fn_prelude codegen_return_param
    codegen_fn_prelude-HaveAll body vs places location fx fx' no_spread passed run =
        gives (places, location) fx fx' run
      where
        Placed : List (CPlace c) × Option (CValue c) → Type 0
        Placed r =
            map (λ p. p.layout) r.0
            ≡ body.ret.layout ∷ map tcx.layout_of (body.arg_tys ++ body.var_tys)

        arguments :
            (abi_params : List Value)
            → Gives c
                (λ r. Arguments body.arg_tys r.0)
                (func_params c tcx pointer_type depth body.spread_arg 1 body.arg_tys body.arg_abis
                  abi_params)
        arguments abi_params =
            subst
              (λ s.
                Gives c (λ r. Arguments body.arg_tys r.0)
                  (func_params c tcx pointer_type depth s 1 body.arg_tys body.arg_abis abi_params))
              (sym no_spread) (func_params-Arguments 1 body.arg_tys body.arg_abis abi_params passed)

        gives : Gives c Placed (codegen_fn_prelude c tcx pointer_type depth body vs)
        gives =
            skip-Gives c (lift (analyze (local_count c tcx pointer_type depth body) body.blocks))
              λ flags. skip-Gives c (unwrap (get_elem? flags 0)) λ kind.
                >>=-Gives c
                  (return_param_of c tcx pointer_type body.ret.mode kind body.ret.layout vs)
                  (return_param_of-HasPlace body.ret.mode kind body.ret.layout vs)
                  λ r e. skip-Gives c (assert (not body.c_variadic)) λ _.
                    >>=-Gives c
                      (func_params c tcx pointer_type depth body.spread_arg 1 body.arg_tys
                        body.arg_abis r.1)
                      (arguments r.1)
                      λ a fits.
                        skip-Gives c
                          (location_param c tcx pointer_type depth body.requires_caller_location a.1
                            a.2)
                          λ l. skip-Gives c (assert (is_empty l.1)) λ _.
                            skip-Gives c (assert (is_empty l.2)) λ _.
                              >>=-Gives c (arg_places c tcx pointer_type depth flags 1 a.0)
                                (arg_places-HaveAll c tcx pointer_type depth flags 1 a.0 fits.0)
                                λ ps es.
                                  >>=-Gives c
                                    (var_places c tcx pointer_type depth flags
                                      (suc (length body.arg_tys)) body.var_tys)
                                    (var_places-HaveAll c tcx pointer_type depth flags
                                      (suc (length body.arg_tys)) body.var_tys)
                                    λ qs fs.
                                      pure-Gives c Placed (r.0 ∷ ps ++ qs, l.0)
                                        (rw
                                          (
                                            map-append (λ p. p.layout) ps qs,
                                            e,
                                            es,
                                            fits.1,
                                            fs,
                                            map-append tcx.layout_of body.arg_tys body.var_tys,
                                          )
                                          refl)
