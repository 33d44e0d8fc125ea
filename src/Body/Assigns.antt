-- ===== src/Body/Assigns.antt =====
-- src/base.rs: what an assignment leaves in its place, from the operands to the place.
use rustc_codegen_cranelift.Common.{ℕ, ◌<◌, ◌≤◌, ◌≡◌, ◌≢◌, refl, Bool, true, Option, some, bit}
use rustc_codegen_cranelift.Common.Word.{to_word, misfits}
use rustc_codegen_cranelift.Clif.{Ty, i8, ty_bytes, is_int, Clif}
use rustc_codegen_cranelift.Clif.Documented.{Documented, modulus, half}
use rustc_codegen_cranelift.Codegen.{
  Tcx, Cg, ok, bind-ok, >>=-eq-ok, ◌>>=◌, ◌>>◌, Layout, Primitive, scalar_pair, BinOp, pair_ty,
  bool,
}
use rustc_codegen_cranelift.Types.{scalar_to_clif_type, clif_pair_type, type_sign}
use rustc_codegen_cranelift.Num.Exact.{exact}
use rustc_codegen_cranelift.Num.Overflow.{AddOrSub, checked_int_binop-Computes}
use rustc_codegen_cranelift.Num.IntOps.{codegen_checked_int_binop}
use rustc_codegen_cranelift.ValueAndPlace
use rustc_codegen_cranelift.ValueAndPlace.{
  CValue, CValueInner, by_val, by_val_pair, scalar_pair_calculate_b_offset,
}
use rustc_codegen_cranelift.ValueAndPlace.Place.{CPlace, CPlaceInner, to_cvalue}
use rustc_codegen_cranelift.ValueAndPlace.Write.{write_cvalue}
use rustc_codegen_cranelift.ValueAndPlace.ReadBackPair.{HoldsPair, pair_read_back}
use rustc_codegen_cranelift.Body.Places.{codegen_place}
use rustc_codegen_cranelift.Body.Operands.{Operand, codegen_operand}
use rustc_codegen_cranelift.Body.Syntax.{MirPlace, binary_op, assign}
use rustc_codegen_cranelift.Body.Statements.{
  overflowing_to_wrapping, codegen_binary_op, codegen_rvalue, codegen_stmt,
}

module _ (c : Clif) (d : Documented c) (tcx : Tcx) (pointer_type : Ty) (depth : ℕ)
    (local_map : ℕ → Option (CPlace c)) where
  open c use {Value, Fx, value_type}
  open d use {bits}

  abbrev val : Value → Layout → CValue c
  val = ValueAndPlace.val c tcx pointer_type

  -- The pair that a place holds after a statement.
  abbrev pub held_pair : CPlace c → Cg c (Value × Value)
  held_pair place =
      to_cvalue c tcx pointer_type place >>= ValueAndPlace.load_scalar_pair c tcx pointer_type

  checked_value :
      (checked op : BinOp) (x y res : CValue c) (fx : Fx)
      → overflowing_to_wrapping checked ≡ some op
      → codegen_checked_int_binop c tcx pointer_type op x y fx ≡ ok (res, fx)
      → codegen_binary_op c tcx pointer_type depth local_map checked x y fx ≡ ok (res, fx)
  unfolding codegen_binary_op
  checked_value checked op x y res fx wraps run = rw (wraps, codegen_binary_op) run

  -- The stages of an assignment.
  pub binary_assign-stages :
      (to : MirPlace) (l r : Operand) (op : BinOp) (place : CPlace c) (x y res : CValue c)
      (fx fx1 fx2 fx3 fx4 : Fx)
      → codegen_place c tcx pointer_type depth local_map to.base to.elems fx ≡ ok (place, fx1)
      → codegen_operand c tcx pointer_type depth local_map l fx1 ≡ ok (x, fx2)
      → codegen_operand c tcx pointer_type depth local_map r fx2 ≡ ok (y, fx3)
      → codegen_binary_op c tcx pointer_type depth local_map op x y fx3 ≡ ok (res, fx3)
      → write_cvalue c tcx pointer_type place res fx3 ≡ ok (tt, fx4)
      → codegen_stmt c tcx pointer_type depth local_map (assign to (binary_op op l r)) fx
        ≡ ok (tt, fx4)
  unfolding codegen_stmt
  binary_assign-stages to l r op place x y res fx fx1 fx2 fx3 fx4 placed left right computed
        written =
      bind-ok (codegen_place c tcx pointer_type depth local_map to.base to.elems) _ place fx fx1 _
        placed
        (unfold codegen_rvalue in
          bind-ok (codegen_operand c tcx pointer_type depth local_map l) _ x fx1 fx2 _ left (
            bind-ok (codegen_operand c tcx pointer_type depth local_map r) _ y fx2 fx3 _ right (
              bind-ok (codegen_binary_op c tcx pointer_type depth local_map op x y) _ res fx3 fx3 _
                computed written)))

  -- `to = l op r` with an overflow flag, where the operands are two integers of one type: the statement has
  -- code, after which the place holds the exact sum or difference wrapped to the type, and 1 if it does not
  -- fit the type and 0 if it does.
  pub checked_assign-holds :
      (to : MirPlace) (l r : Operand) (checked op : BinOp) (s : Bool) (i : CPlaceInner c)
      (a b : Value) (layout : Layout) (p q : Primitive) (fx fx1 fx2 fx3 : Fx)
      → overflowing_to_wrapping checked ≡ some op
      → AddOrSub op
      → codegen_place c tcx pointer_type depth local_map to.base to.elems fx
        ≡ ok (record { inner = i; layout = tcx.layout_of (pair_ty layout.ty bool) }, fx1)
      → codegen_operand c tcx pointer_type depth local_map l fx1 ≡ ok (val a layout, fx2)
      → codegen_operand c tcx pointer_type depth local_map r fx2 ≡ ok (val b layout, fx3)
      → type_sign layout.ty ≡ ok s
      → is_int (value_type a) ≡ true
      → value_type a ≡ value_type b
      → HoldsPair c d tcx pointer_type i (scalar_pair_calculate_b_offset c tcx pointer_type p q)
      → (tcx.layout_of (pair_ty layout.ty bool)).size ≢ 0
      → (tcx.layout_of (pair_ty layout.ty bool)).backend_repr ≡ scalar_pair p q
      → scalar_to_clif_type tcx p ≡ ok (value_type a)
      → scalar_to_clif_type tcx q ≡ ok i8
      → clif_pair_type tcx (tcx.layout_of (pair_ty layout.ty bool)).ty
        ≡ ok (some (value_type a, i8))
      → 0 < ty_bytes (value_type a)
      → ty_bytes (value_type a) ≤ scalar_pair_calculate_b_offset c tcx pointer_type p q
      → (v : Value) × (o : Value) × (fx' : Fx) × ((codegen_stmt c tcx pointer_type depth local_map
                (assign to (binary_op checked l r))
              >> held_pair (record { inner = i; layout = tcx.layout_of (pair_ty layout.ty bool) }))
            fx
          ≡ ok ((v, o), fx'))
        × (bits v
            ≡ to_word (modulus (value_type a)) (exact op s (half (value_type a)) (bits a) (bits b)))
        × (bits o
            ≡ bit (
                misfits s
                  (half (value_type a))
                  (exact op s (half (value_type a)) (bits a) (bits b))))
  unfolding ValueAndPlace.load_scalar_pair
  checked_assign-holds to l r checked op s i a b layout p q fx fx1 fx2 fx3 wraps add_or_sub placed
        left right sign int same holds size repr t1 t2 t some_bytes fits =
      let (v, o, computed, tv, hv, flag_type, ho) =
        checked_int_binop-Computes c d tcx pointer_type op s a b layout fx3 add_or_sub sign int
          same in
      let pl = tcx.layout_of (pair_ty layout.ty bool) in
      let place : CPlace c = record { inner = i; layout = pl } in
      let (fx', back) =
        pair_read_back c d tcx pointer_type i (by_val_pair v o) pl p q v o fx3 holds size repr
          (rw tv t1) (rw flag_type t2) (rw (tv, flag_type) t) (rw tv some_bytes) (rw tv fits)
          refl in
      let (_, fx4, written, read) =
        >>=-eq-ok
          (write_cvalue c tcx pointer_type place (record { inner = by_val_pair v o; layout = pl }))
          _ (v, o) fx3 fx' back in
      let done =
        binary_assign-stages to l r checked place (val a layout) (val b layout)
          (record { inner = by_val_pair v o; layout = pl }) fx fx1 fx2 fx3 fx4 placed left right
          (checked_value checked op _ _ _ fx3 wraps computed) written in
      (
        v,
        o,
        fx',
        bind-ok
            (codegen_stmt c tcx pointer_type depth local_map (assign to (binary_op checked l r)))
            (λ _. held_pair place) tt fx fx4 _ done read,
        hv,
        ho,
      )
