-- ===== src/Returns/Forwarded.antt =====
-- src/abi/returning.rs: a result that a call delivers is what a return of it gives back.
use rustc_codegen_cranelift.Common.{
  ◌≡◌, ◌≢◌, refl, Option, none, some, List, [], ◌∷◌, ◌<◌, ◌≤◌, arith,
}
use rustc_codegen_cranelift.Clif.{Ty, ty_bytes, Clif}
use rustc_codegen_cranelift.Clif.Documented.{Documented}
use rustc_codegen_cranelift.Codegen.{
  Tcx, Cg, ok, >>=-eq-ok, ◌>>◌, Layout, Primitive, scalar, scalar_pair,
}
use rustc_codegen_cranelift.Types.{scalar_to_clif_type, clif_type, clif_pair_type}
use rustc_codegen_cranelift.ValueAndPlace
use rustc_codegen_cranelift.ValueAndPlace.{
  CValue, CValueInner, by_val, by_val_pair, scalar_pair_calculate_b_offset,
}
use rustc_codegen_cranelift.ValueAndPlace.Place.{CPlace, CPlaceInner, to_cvalue}
use rustc_codegen_cranelift.ValueAndPlace.Write.{write_cvalue}
use rustc_codegen_cranelift.ValueAndPlace.ReadBack.{HoldsScalar, scalar_read_back}
use rustc_codegen_cranelift.ValueAndPlace.ReadBackPair.{HoldsPair, pair_read_back}
use rustc_codegen_cranelift.PassMode.Params.{ArgAbi, ArgExtension, direct, pair}
use rustc_codegen_cranelift.Returns.{codegen_with_call_return_arg, codegen_return}

module _ (c : Clif) (d : Documented c) (tcx : Tcx) (pointer_type : Ty) where
  open c use {Value, Fx, value_type}

  -- `return f(…)`: the call delivers to the place that is returned from.
  abbrev pub forward : ArgAbi → CPlace c → (Option Value → Cg c (List Value)) → Cg c (List Value)
  forward ret place f =
      codegen_with_call_return_arg c tcx pointer_type ret place f
      >> codegen_return c tcx pointer_type ret place

  -- A call that gives one scalar for a direct result, delivered to a variable or to memory, is returned as
  -- the same scalar.
  pub forwarded_scalar :
      (ext : ArgExtension) (i : CPlaceInner c) (l : Layout) (p : Primitive) (w : Value)
      (f : Option Value → Cg c (List Value)) (fx fx1 : Fx)
      → HoldsScalar c i
      → l.size ≢ 0
      → l.backend_repr ≡ scalar p
      → scalar_to_clif_type tcx p ≡ ok (value_type w)
      → clif_type tcx l.ty ≡ ok (some (value_type w))
      → f none fx ≡ ok (w ∷ [], fx1)
      → (fx' : Fx) × (forward
            (record { mode = direct ext; layout = l })
            (record { inner = i; layout = l })
            f
            fx
          ≡ ok (w ∷ [], fx'))
  unfolding codegen_with_call_return_arg codegen_return ValueAndPlace.load_scalar
  forwarded_scalar ext i l p w f fx fx1 holds size repr t1 t2 called =
      let place : CPlace c = record { inner = i; layout = l } in
      let (fx', back) =
        scalar_read_back c d tcx pointer_type i (by_val w) l p w fx1 holds size repr t1 t2 refl in
      let (_, fx2, written, read) =
        >>=-eq-ok (write_cvalue c tcx pointer_type place (record { inner = by_val w; layout = l }))
          _ w fx1 fx' back in
      let (v, fx3, held, loaded) =
        >>=-eq-ok (to_cvalue c tcx pointer_type place)
          (ValueAndPlace.load_scalar c tcx pointer_type) w fx2 fx' read in
      (fx', ground arith)

  -- The same of a call that gives two scalars for a pair, where the first ends before the second starts.
  pub forwarded_pair :
      (e1 e2 : ArgExtension) (i : CPlaceInner c) (l : Layout) (p q : Primitive) (w1 w2 : Value)
      (f : Option Value → Cg c (List Value)) (fx fx1 : Fx)
      → HoldsPair c d tcx pointer_type i (scalar_pair_calculate_b_offset c tcx pointer_type p q)
      → l.size ≢ 0
      → l.backend_repr ≡ scalar_pair p q
      → scalar_to_clif_type tcx p ≡ ok (value_type w1)
      → scalar_to_clif_type tcx q ≡ ok (value_type w2)
      → clif_pair_type tcx l.ty ≡ ok (some (value_type w1, value_type w2))
      → 0 < ty_bytes (value_type w1)
      → ty_bytes (value_type w1) ≤ scalar_pair_calculate_b_offset c tcx pointer_type p q
      → f none fx ≡ ok (w1 ∷ w2 ∷ [], fx1)
      → (fx' : Fx) × (forward
            (record { mode = pair e1 e2; layout = l })
            (record { inner = i; layout = l })
            f
            fx
          ≡ ok (w1 ∷ w2 ∷ [], fx'))
  unfolding codegen_with_call_return_arg codegen_return ValueAndPlace.load_scalar_pair
  forwarded_pair e1 e2 i l p q w1 w2 f fx fx1 holds size repr t1 t2 t some_bytes fits called =
      let place : CPlace c = record { inner = i; layout = l } in
      let (fx', back) =
        pair_read_back c d tcx pointer_type i (by_val_pair w1 w2) l p q w1 w2 fx1 holds size repr t1
          t2 t some_bytes fits refl in
      let (_, fx2, written, read) =
        >>=-eq-ok
          (write_cvalue c tcx pointer_type place (record { inner = by_val_pair w1 w2; layout = l }))
          _ (w1, w2) fx1 fx' back in
      let (v, fx3, held, loaded) =
        >>=-eq-ok (to_cvalue c tcx pointer_type place)
          (ValueAndPlace.load_scalar_pair c tcx pointer_type) (w1, w2) fx2 fx' read in
      (fx', ground arith)
