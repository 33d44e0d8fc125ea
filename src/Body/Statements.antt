-- ===== src/Body/Statements.antt =====
-- src/base.rs, `codegen_stmt`: the code of a statement. A loop that is emitted is read as the run of it, on
-- fuel.
use rustc_codegen_cranelift.Common.{
  ℕ, zero, suc, ◌^◌, ◌==◌, ltb, Bool, true, false, Option, none, some, List, [], ◌∷◌, length,
  if◌then◌else◌,
}
use rustc_codegen_cranelift.Common.Int.{pos}
use rustc_codegen_cranelift.Clif.{Ty, i8, IntCc, Clif, ty_eq, bnot, fneg, iadd_imm, imul_imm}
use rustc_codegen_cranelift.Codegen.{
  Tcx, Cg, ok, pure, fail, lift, assert, unwrap, writes, ◌>>=◌, ◌>>◌, Result, Layout, RustTy, bool,
  uint, int, float, raw_ptr, UintTy, BackendRepr, scalar, scalar_pair, BinOp,
}
use rustc_codegen_cranelift.Types.{clif_type, has_ptr_meta, type_sign}
use rustc_codegen_cranelift.Pointer
use rustc_codegen_cranelift.FunctionCx.{as_i64}
use rustc_codegen_cranelift.Cast.{clif_int_or_float_cast}
use rustc_codegen_cranelift.Num.IntOps.{codegen_checked_int_binop}
use rustc_codegen_cranelift.Num.FloatOps.{codegen_binop}
use rustc_codegen_cranelift.Discriminant.{codegen_set_discriminant, codegen_get_discriminant}
use rustc_codegen_cranelift.ValueAndPlace.{CValue}
use rustc_codegen_cranelift.ValueAndPlace
use rustc_codegen_cranelift.ValueAndPlace.Place.{
  CPlace, to_ptr, to_cvalue, place_ref, place_index, downcast_variant,
}
use rustc_codegen_cranelift.ValueAndPlace.Fields.{place_field}
use rustc_codegen_cranelift.ValueAndPlace.Write.{write_cvalue, write_cvalue_transmute}
use rustc_codegen_cranelift.ValueAndPlace.Literals.{is_zst, zst, cast_pointer_to}
use rustc_codegen_cranelift.Unsize.Coerce.{coerce_unsized_into}
use rustc_codegen_cranelift.Body.Places.{codegen_place, codegen_array_len}
use rustc_codegen_cranelift.Body.Operands.{Operand, codegen_operand}
use rustc_codegen_cranelift.Body.Syntax.{
  MirPlace, UnOp, not, neg, ptr_metadata, CastKind, scalar_cast, unsafe_fn_pointer, unsize,
  transmute, NullOp, size_of, align_of, ub_checks, offset_of, AggregateKind, array, adt, Rvalue,
  use_operand, copy_for_deref, ref_to, raw_ptr_to, discriminant, len, binary_op, unary_op, cast,
  repeat, shallow_init_box, nullary_op, raw_ptr_aggregate, aggregate, Statement, set_discriminant,
  assign, copy_non_overlapping, coverage,
}

unfoldable pub overflowing_to_wrapping : BinOp → Option BinOp
overflowing_to_wrapping BinOp.add_with_overflow = some BinOp.add
overflowing_to_wrapping BinOp.sub_with_overflow = some BinOp.sub
overflowing_to_wrapping BinOp.mul_with_overflow = some BinOp.mul
overflowing_to_wrapping _ = none

is_raw_ptr : RustTy → Bool
is_raw_ptr (raw_ptr _) = true
is_raw_ptr _ = false

module _ (c : Clif) (tcx : Tcx) (pointer_type : Ty) (depth : ℕ)
    (local_map : ℕ → Option (CPlace c)) where
  open c use {Value, iconst, icmp_imm, unary, binary_imm, is_nonzero, call_memset, call_memcpy}

  abbrev val : Value → Layout → CValue c
  val = ValueAndPlace.val c tcx pointer_type

  abbrev load_scalar : CValue c → Cg c Value
  load_scalar = ValueAndPlace.load_scalar c tcx pointer_type

  abbrev write : CPlace c → CValue c → Cg c (Unit {0})
  write = write_cvalue c tcx pointer_type

  abbrev place_of : MirPlace → Cg c (CPlace c)
  place_of p = codegen_place c tcx pointer_type depth local_map p.base p.elems

  abbrev operand : Operand → Cg c (CValue c)
  operand = codegen_operand c tcx pointer_type depth local_map

  -- The discriminant is written to its field of the place.
  discriminant_written : CPlace c → Option (ℕ × CValue c) → Cg c (Unit {0})
  unfolding place_field write_cvalue
  discriminant_written place none = pure tt
  discriminant_written place (some (field, v)) = do
    to ← place_field c tcx pointer_type depth place field
    write to v

  unfoldable pub set_discriminant_at : CPlace c → ℕ → Cg c (Unit {0})
  unfolding codegen_set_discriminant discriminant_written
  set_discriminant_at place variant_index =
      codegen_set_discriminant c tcx pointer_type place.layout variant_index
      >>= discriminant_written place

  written_if : CPlace c → Option (CValue c) → Cg c (Unit {0})
  unfolding write_cvalue
  written_if place none = pure tt
  written_if place (some v) = write place v

  unfoldable pub codegen_binary_op : BinOp → CValue c → CValue c → Cg c (CValue c)
  unfolding overflowing_to_wrapping codegen_checked_int_binop codegen_binop
  codegen_binary_op bin_op lhs rhs = elim (overflowing_to_wrapping bin_op) [
    | some wrapping ↦ codegen_checked_int_binop c tcx pointer_type wrapping lhs rhs
    | none ↦ codegen_binop c tcx pointer_type bin_op lhs rhs
  ]

  not_of : RustTy → Layout → Value → Cg c (CValue c)
  not_of bool layout v = pure (val (icmp_imm IntCc.equal v (pos 0)) layout)
  not_of (uint _) layout v = pure (val (unary bnot v) layout)
  not_of (int _) layout v = pure (val (unary bnot v) layout)
  not_of _ layout v = fail

  neg_of : RustTy → Layout → Value → Cg c (CValue c)
  neg_of (int _) layout v = pure (val (c.ineg v) layout)
  neg_of (float _) layout v = pure (val (unary fneg v) layout)
  neg_of _ layout v = fail

  metadata_of : BackendRepr → CValue c → Layout → Cg c (CValue c)
  unfolding zst ValueAndPlace.load_scalar_pair
  metadata_of (scalar _) v dest_layout = zst c tcx pointer_type dest_layout
  metadata_of (scalar_pair _ _) v dest_layout = do
    (_, meta) ← ValueAndPlace.load_scalar_pair c tcx pointer_type v
    pure (val meta dest_layout)
  metadata_of _ v dest_layout = fail

  unfoldable pub codegen_unary_op : UnOp → CValue c → Layout → Cg c (CValue c)
  unfolding not_of neg_of metadata_of ValueAndPlace.load_scalar
  codegen_unary_op not v dest_layout = load_scalar v >>= not_of v.layout.ty v.layout
  codegen_unary_op neg v dest_layout = load_scalar v >>= neg_of v.layout.ty v.layout
  codegen_unary_op ptr_metadata v dest_layout = metadata_of v.layout.backend_repr v dest_layout

  is_wide_ptr : RustTy → Result Bool
  unfolding has_ptr_meta
  is_wide_ptr ty = elim (tcx.builtin_deref ty) [
    | none ↦ ok false
    | some pointee ↦ has_ptr_meta tcx pointee
  ]

  scalar_cast_of : CValue c → RustTy → Layout → Cg c (CValue c)
  unfolding is_wide_ptr cast_pointer_to clif_type type_sign clif_int_or_float_cast
      ValueAndPlace.load_scalar ValueAndPlace.load_scalar_pair
  scalar_cast_of v to_ty dest_layout = do
    from_wide ← lift (is_wide_ptr v.layout.ty)
    if from_wide
        then (do
          to_wide ← lift (is_wide_ptr to_ty)
          if to_wide
              then cast_pointer_to c tcx pointer_type v dest_layout
              else (ValueAndPlace.load_scalar_pair c tcx pointer_type v >>= λ both.
                  pure (val both.0 dest_layout)))
        else (do
          t ← lift (clif_type tcx to_ty)
          to_clif_ty ← unwrap t
          from ← load_scalar v
          from_sign ← lift (type_sign v.layout.ty)
          to_sign ← lift (type_sign to_ty)
          res ← clif_int_or_float_cast c tcx pointer_type from from_sign to_clif_ty to_sign
          pure (val res dest_layout))

  codegen_cast : CastKind → CValue c → RustTy → CPlace c → Cg c (Unit {0})
  unfolding scalar_cast_of cast_pointer_to write_cvalue write_cvalue_transmute coerce_unsized_into
  codegen_cast scalar_cast v to_ty lval = scalar_cast_of v to_ty lval.layout >>= write lval
  codegen_cast unsafe_fn_pointer v to_ty lval =
      cast_pointer_to c tcx pointer_type v (tcx.layout_of to_ty) >>= write lval
  codegen_cast unsize v to_ty lval = coerce_unsized_into c tcx pointer_type depth depth v lval
  codegen_cast transmute v to_ty lval = write_cvalue_transmute c tcx pointer_type lval v
  codegen_cast _ v to_ty lval = fail

  -- The rounds of the loop from an index; the fuel is one more than the rounds.
  unfoldable pub repeat_loop : CPlace c → CValue c → ℕ → ℕ → Value → Cg c (Unit {0})
  unfolding place_index write_cvalue as_i64
  repeat_loop lval v times zero index = fail
  repeat_loop lval v times (suc fuel) index =
      elim (is_nonzero (icmp_imm IntCc.equal index (as_i64 (pos times)))) [
        | true ↦ pure tt
        | false ↦
            (place_index c tcx pointer_type lval index >>= λ to. write to v)
            >> repeat_loop lval v times fuel (binary_imm iadd_imm index (pos 1))
      ]

  fill_bytes : CPlace c → CValue c → ℕ → Cg c (Unit {0})
  unfolding to_ptr as_i64 ValueAndPlace.load_scalar
  fill_bytes lval v times = do
    ptr ← lift (to_ptr c tcx pointer_type lval)
    byte ← load_scalar v
    writes (
        call_memset (Pointer.get_addr c pointer_type ptr) byte
          (iconst pointer_type (as_i64 (pos times))))

  unfoldable pub is_i8 : Option Ty → Bool
  unfolding ty_eq
  is_i8 none = false
  is_i8 (some t) = ty_eq t i8

  unfoldable pub codegen_repeat : CPlace c → CValue c → ℕ → Cg c (Unit {0})
  unfolding repeat_loop fill_bytes is_i8 clif_type
  codegen_repeat lval v times =
      if v.layout.size == 0
      then pure tt
      else (lift (clif_type tcx v.layout.ty) >>= λ t.
          if is_i8 t
          then fill_bytes lval v times
          else repeat_loop lval v times (suc times) (iconst pointer_type (pos 0)))

  abbrev usize_layout : Layout
  usize_layout = tcx.layout_of (uint UintTy.usize)

  -- `i64::try_from(val).unwrap()`
  usize_value : ℕ → Cg c (CValue c)
  usize_value n = assert (ltb n (2 ^ 63)) >> pure (val (iconst pointer_type (pos n)) usize_layout)

  null_value : NullOp → Layout → Cg c (CValue c)
  unfolding usize_value
  null_value size_of layout = usize_value layout.size
  null_value align_of layout = usize_value layout.align
  null_value (offset_of fields) layout = usize_value (tcx.offset_of_subfield layout fields)
  null_value ub_checks layout =
      pure (val (iconst i8 (pos (if tcx.ub_checks then 1 else 0))) (tcx.layout_of bool))

  raw_ptr_of : CValue c → CValue c → Layout → Cg c (CValue c)
  unfolding is_raw_ptr cast_pointer_to ValueAndPlace.load_scalar
  raw_ptr_of data_value meta layout = do
    assert (is_raw_ptr data_value.layout.ty)
    assert (is_raw_ptr layout.ty)
    if is_zst c tcx pointer_type meta.layout
        then cast_pointer_to c tcx pointer_type data_value layout
        else (do
          a ← load_scalar data_value
          b ← load_scalar meta
          pure (ValueAndPlace.val_pair c tcx pointer_type a b layout))

  -- An element of an array, or a field.
  part_of : AggregateKind → CPlace c → ℕ → Cg c (CPlace c)
  unfolding place_index place_field
  part_of array place i = place_index c tcx pointer_type place (iconst pointer_type (pos i))
  part_of _ place i = place_field c tcx pointer_type depth place i

  active_or : Option ℕ → ℕ → ℕ
  active_or none i = i
  active_or (some active) i = active

  fill_parts : AggregateKind → CPlace c → Option ℕ → ℕ → List Operand → Cg c (Unit {0})
  unfolding part_of active_or codegen_operand write_cvalue
  fill_parts kind place active i [] = pure tt
  fill_parts kind place active i (o ∷ os) = do
    v ← operand o
    to ← part_of kind place (active_or active i)
    write to v
    fill_parts kind place active (suc i) os

  is_single : Option ℕ → List Operand → Bool
  is_single none os = true
  is_single (some _) os = length os == 1

  codegen_aggregate : AggregateKind → CPlace c → List Operand → Cg c (Unit {0})
  unfolding fill_parts is_single downcast_variant set_discriminant_at
  codegen_aggregate (adt variant active) lval os = do
    dest ← lift (downcast_variant c tcx pointer_type lval variant)
    assert (is_single active os)
    fill_parts (adt variant active) dest active 0 os
    set_discriminant_at lval variant
  codegen_aggregate kind lval os = do fill_parts kind lval none 0 os; set_discriminant_at lval 0

  unfoldable pub codegen_rvalue : CPlace c → Rvalue → Cg c (Unit {0})
  unfolding codegen_operand codegen_place write_cvalue to_cvalue place_ref codegen_binary_op
      codegen_unary_op codegen_cast codegen_get_discriminant written_if codegen_repeat
      codegen_array_len null_value raw_ptr_of codegen_aggregate ValueAndPlace.load_scalar
  codegen_rvalue lval (use_operand o) = operand o >>= write lval
  codegen_rvalue lval (copy_for_deref p) =
      place_of p >>= λ place. to_cvalue c tcx pointer_type place >>= write lval
  codegen_rvalue lval (ref_to p) =
      place_of p >>= λ place. place_ref c tcx pointer_type place lval.layout >>= write lval
  codegen_rvalue lval (raw_ptr_to p) =
      place_of p >>= λ place. place_ref c tcx pointer_type place lval.layout >>= write lval
  codegen_rvalue lval (binary_op bin_op l r) = do
    lhs ← operand l
    rhs ← operand r
    res ← codegen_binary_op bin_op lhs rhs
    write lval res
  codegen_rvalue lval (unary_op un_op o) = do
    v ← operand o
    res ← codegen_unary_op un_op v lval.layout
    write lval res
  codegen_rvalue lval (cast kind o to_ty) = operand o >>= λ v. codegen_cast kind v to_ty lval
  codegen_rvalue lval (discriminant p) = do
    place ← place_of p
    value ← to_cvalue c tcx pointer_type place
    discr ← codegen_get_discriminant c tcx pointer_type value lval.layout
    written_if lval discr
  codegen_rvalue lval (repeat o times) = operand o >>= λ v. codegen_repeat lval v times
  codegen_rvalue lval (len p) = do
    place ← place_of p
    n ← lift (codegen_array_len c tcx pointer_type depth local_map place)
    write lval (val n usize_layout)
  codegen_rvalue lval (shallow_init_box o content_ty) = do
    v ← operand o
    ptr ← load_scalar v
    write lval (val ptr (tcx.layout_of (tcx.new_box content_ty)))
  codegen_rvalue lval (nullary_op null_op ty) = do
    assert (tcx.is_sized lval.layout.ty)
    v ← null_value null_op (tcx.layout_of ty)
    write lval v
  codegen_rvalue lval (raw_ptr_aggregate ty d m) = do
    data_value ← operand d
    meta ← operand m
    v ← raw_ptr_of data_value meta (tcx.layout_of ty)
    write lval v
  codegen_rvalue lval (aggregate kind os) = codegen_aggregate kind lval os

  copied : Operand → Operand → Operand → Cg c (Unit {0})
  unfolding codegen_operand as_i64 ValueAndPlace.load_scalar
  copied src dst count = do
    d ← operand dst
    elem_size ← unwrap (tcx.pointee_size d.layout)
    to ← load_scalar d
    s ← operand src
    from ← load_scalar s
    k ← operand count
    n ← load_scalar k
    let bytes = if elem_size == 1 then n else binary_imm imul_imm n (as_i64 (pos elem_size))
    writes (call_memcpy to from bytes)

  unfoldable pub codegen_stmt : Statement → Cg c (Unit {0})
  unfolding codegen_place codegen_rvalue set_discriminant_at copied
  codegen_stmt (set_discriminant p variant_index) =
      place_of p >>= λ place. set_discriminant_at place variant_index
  codegen_stmt (assign to rval) = place_of to >>= λ lval. codegen_rvalue lval rval
  codegen_stmt (copy_non_overlapping src dst count) = copied src dst count
  codegen_stmt coverage = fail
  codegen_stmt _ = pure tt
