-- ===== src/Prelude/Layouts.antt =====
-- src/abi/mod.rs, `codegen_fn_prelude`: the places of the locals have the layouts of their types.
use rustc_codegen_cranelift.Common.{
  ℕ, suc, ◌==◌, ◌^◌, ltb, leb, ◌≡◌, refl, ap, subst, ◌-◌, Bool, true, false, Option, none, some,
  List, [], ◌∷◌, map, get_elem?, if◌then◌else◌,
}
use rustc_codegen_cranelift.Clif.{Ty, Clif}
use rustc_codegen_cranelift.Codegen.{
  Tcx, Cg, ok, panic, pure, fail, lift, assert, unwrap, ◌>>=◌, >>=-eq-ok, Layout, BackendRepr,
  scalar_pair, RustTy,
}
use rustc_codegen_cranelift.Types.{clif_type, clif_pair_type}
use rustc_codegen_cranelift.FunctionCx.{create_stack_slot}
use rustc_codegen_cranelift.Pointer.{Pointer}
use rustc_codegen_cranelift.Pointer
use rustc_codegen_cranelift.Analyze.{SsaKind, is_ssa}
use rustc_codegen_cranelift.ValueAndPlace.{CValue}
use rustc_codegen_cranelift.ValueAndPlace.Place.{
  CPlace, var, var_pair, for_ptr, for_ptr_with_extra, new_stack_slot, new_var, new_var_pair,
  declare, try_to_ptr,
}
use rustc_codegen_cranelift.Returns.{ssa_place, make_local_place}
use rustc_codegen_cranelift.Prelude.{
  ArgKind, normal, spread, local_place, filled_place, write_arg, borrowed_or_filled, arg_place,
  arg_places, var_places,
}

module _ (c : Clif) where
  open c use {Fx}

  -- Whatever comes back has the property.
  abbrev pub Gives : {A : Type 0} → (A → Type 0) → Cg c A → Type 0
  Gives {A} P m = (a : A) (fx fx' : Fx) → m fx ≡ ok (a, fx') → P a

  ok-injective : {A B : Type 0} {x y : A × B} → ok x ≡ ok y → x.0 ≡ y.0
  ok-injective {A} {B} {x} e = ap (λ r. elim r [ ok p ↦ p.0 | panic ↦ x.0 ]) e

  pub pure-Gives : {A : Type 0} (P : A → Type 0) (a : A) → P a → Gives P (pure a)
  pure-Gives P a h b fx fx' e = subst P (ok-injective e) h

  pub fail-Gives : {A : Type 0} (P : A → Type 0) → Gives P fail
  fail-Gives P a fx fx' e = absurd (cc)

  pub >>=-Gives :
      {A B : Type 0} {Q : A → Type 0} {P : B → Type 0} (m : Cg c A) {f : A → Cg c B}
      → Gives Q m
      → ((a : A) → Q a → Gives P (f a))
      → Gives P (m >>= f)
  >>=-Gives m {f} h k b fx fx' e =
      let (a, fx1, first, second) = >>=-eq-ok m f b fx fx' e in
      k a (h a fx fx1 first) b fx1 fx' second

  pub skip-Gives :
      {A B : Type 0} {P : B → Type 0} (m : Cg c A) {f : A → Cg c B}
      → ((a : A) → Gives P (f a))
      → Gives P (m >>= f)
  skip-Gives m {f} k b fx fx' e =
      let (a, fx1, first, second) = >>=-eq-ok m f b fx fx' e in k a b fx1 fx' second

  pub either-Gives :
      {A : Type 0} (P : A → Type 0) (b : Bool) (x y : Cg c A)
      → Gives P x
      → Gives P y
      → Gives P (if b then x else y)
  either-Gives P true x y h k = h
  either-Gives P false x y h k = k

module _ (c : Clif) (tcx : Tcx) (pointer_type : Ty) where
  open c use {Value, Fx}

  abbrev pub Has : Layout → CPlace c → Type 0
  Has l p = p.layout ≡ l

  new_var-Has : (loc : ℕ) (l : Layout) → Gives c (Has l) (new_var c tcx pointer_type loc l)
  unfolding new_var
  new_var-Has loc l = skip-Gives c (lift (clif_type tcx l.ty)) λ t. skip-Gives c (unwrap t) λ ty.
      skip-Gives c (declare c tcx pointer_type ty)
        λ n. pure-Gives c (Has l) (record { inner = var loc n; layout = l }) refl

  new_var_pair-Has :
      (loc : ℕ) (l : Layout) → Gives c (Has l) (new_var_pair c tcx pointer_type loc l)
  unfolding new_var_pair
  new_var_pair-Has loc l = skip-Gives c (lift (clif_pair_type tcx l.ty)) λ t.
      skip-Gives c (unwrap t) λ both. skip-Gives c (declare c tcx pointer_type both.0) λ n.
        skip-Gives c (declare c tcx pointer_type both.1)
          λ m. pure-Gives c (Has l) (record { inner = var_pair loc n m; layout = l }) refl

  new_stack_slot-Has : (l : Layout) → Gives c (Has l) (new_stack_slot c tcx pointer_type l)
  unfolding new_stack_slot
  new_stack_slot-Has l = skip-Gives c (assert (tcx.is_sized l.ty)) λ _.
      either-Gives c (Has l) (l.size == 0) _ _
        (pure-Gives c (Has l)
          (for_ptr c tcx pointer_type (Pointer.dangling_at c pointer_type l.pref_align) l) refl)
        (either-Gives c (Has l) (leb (2 ^ 32 - 1 - 16) l.size) _ _ (fail-Gives c (Has l)) (
          skip-Gives c (assert (ltb l.pref_align (2 ^ 32))) λ _.
            skip-Gives c (create_stack_slot c tcx pointer_type l.size l.pref_align)
              λ slot. pure-Gives c (Has l) (for_ptr c tcx pointer_type slot l) refl))

  ssa_place-Has :
      (loc : ℕ) (l : Layout) (repr : BackendRepr)
      → Gives c (Has l) (ssa_place c tcx pointer_type loc l repr)
  unfolding ssa_place
  ssa_place-Has loc l (scalar_pair _ _) = new_var_pair-Has loc l
  ssa_place-Has loc l _ = new_var-Has loc l

  pub make_local_place-Has :
      (loc : ℕ) (l : Layout) (ssa : Bool)
      → Gives c (Has l) (make_local_place c tcx pointer_type loc l ssa)
  unfolding make_local_place
  make_local_place-Has loc l ssa = skip-Gives c (assert (tcx.is_sized l.ty)) λ _.
      either-Gives c (Has l) ssa _ _ (ssa_place-Has loc l l.backend_repr) (new_stack_slot-Has l)

  module _ (depth : ℕ) where
    local_place-Has :
        (flags : List SsaKind) (loc : ℕ) (ty : RustTy)
        → Gives c (Has (tcx.layout_of ty)) (local_place c tcx pointer_type depth flags loc ty)
    unfolding local_place
    local_place-Has flags loc ty = skip-Gives c (unwrap (get_elem? flags loc)) λ kind.
        skip-Gives c (lift (is_ssa tcx kind ty))
          λ ssa. make_local_place-Has loc (tcx.layout_of ty) ssa

    -- A value of an argument has the layout of its type.
    abbrev pub Fits : ArgKind c → RustTy → Type 0
    Fits (normal (some v)) ty = v.layout ≡ tcx.layout_of ty
    Fits _ ty = Unit {0}

    filled_place-Has :
        (flags : List SsaKind) (loc : ℕ) (kind : ArgKind c) (ty : RustTy)
        → Gives c (Has (tcx.layout_of ty)) (filled_place c tcx pointer_type depth flags loc kind ty)
    unfolding filled_place
    filled_place-Has flags loc kind ty =
        >>=-Gives c (local_place c tcx pointer_type depth flags loc ty)
          (local_place-Has flags loc ty)
          λ p h.
            skip-Gives c (write_arg c tcx pointer_type depth p kind)
              λ _. pure-Gives c (Has (tcx.layout_of ty)) p h

    borrowed_or_filled-Has :
        (flags : List SsaKind) (loc : ℕ) (v : CValue c) (ty : RustTy)
        (at : Option (Pointer c × Option Value))
        → v.layout ≡ tcx.layout_of ty
        → Gives c
            (Has (tcx.layout_of ty))
            (borrowed_or_filled c tcx pointer_type depth flags loc v ty at)
    unfolding borrowed_or_filled
    borrowed_or_filled-Has flags loc v ty (some (addr, some meta)) h =
        pure-Gives c (Has (tcx.layout_of ty))
          (for_ptr_with_extra c tcx pointer_type addr meta v.layout) h
    borrowed_or_filled-Has flags loc v ty (some (addr, none)) h =
        pure-Gives c (Has (tcx.layout_of ty)) (for_ptr c tcx pointer_type addr v.layout) h
    borrowed_or_filled-Has flags loc v ty none h = filled_place-Has flags loc (normal (some v)) ty

    arg_place-Has :
        (flags : List SsaKind) (loc : ℕ) (kind : ArgKind c) (ty : RustTy)
        → Fits kind ty
        → Gives c (Has (tcx.layout_of ty)) (arg_place c tcx pointer_type depth flags loc kind ty)
    unfolding arg_place
    arg_place-Has flags loc (normal (some v)) ty h =
        borrowed_or_filled-Has flags loc v ty (try_to_ptr c tcx pointer_type v) h
    arg_place-Has flags loc (normal none) ty h = filled_place-Has flags loc (normal none) ty
    arg_place-Has flags loc (spread ps) ty h = filled_place-Has flags loc (spread ps) ty

    abbrev pub AllFit : List (ArgKind c × RustTy) → Type 0
    AllFit [] = Unit {0}
    AllFit ((kind, ty) ∷ rest) = Fits kind ty × AllFit rest

    -- The places have the layouts of the types, one for each.
    abbrev pub HaveAll : List RustTy → List (CPlace c) → Type 0
    HaveAll tys ps = map (λ p. p.layout) ps ≡ map tcx.layout_of tys

    pub arg_places-HaveAll :
        (flags : List SsaKind) (loc : ℕ) (args : List (ArgKind c × RustTy))
        → AllFit args
        → Gives c
            (HaveAll (map (λ a. a.1) args))
            (arg_places c tcx pointer_type depth flags loc args)
    unfolding arg_places
    arg_places-HaveAll flags loc [] h = pure-Gives c (HaveAll []) [] refl
    arg_places-HaveAll flags loc ((kind, ty) ∷ rest) (h, hs) =
        >>=-Gives c (arg_place c tcx pointer_type depth flags loc kind ty)
          (arg_place-Has flags loc kind ty h)
          λ p e.
            >>=-Gives c (arg_places c tcx pointer_type depth flags (suc loc) rest)
              (arg_places-HaveAll flags (suc loc) rest hs)
              λ ps es. pure-Gives c (HaveAll (ty ∷ map (λ a. a.1) rest)) (p ∷ ps) (rw (e, es) refl)

    pub var_places-HaveAll :
        (flags : List SsaKind) (loc : ℕ) (tys : List RustTy)
        → Gives c (HaveAll tys) (var_places c tcx pointer_type depth flags loc tys)
    unfolding var_places
    var_places-HaveAll flags loc [] = pure-Gives c (HaveAll []) [] refl
    var_places-HaveAll flags loc (ty ∷ tys) =
        >>=-Gives c (local_place c tcx pointer_type depth flags loc ty)
          (local_place-Has flags loc ty)
          λ p e.
            >>=-Gives c (var_places c tcx pointer_type depth flags (suc loc) tys)
              (var_places-HaveAll flags (suc loc) tys)
              λ ps es. pure-Gives c (HaveAll (ty ∷ tys)) (p ∷ ps) (rw (e, es) refl)
