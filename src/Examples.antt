-- ===== src/Examples.antt =====
-- The theorems on code generation at concrete inputs, on the machine of `Clif.Concrete`.
pub mod Limiter
pub mod Memory
pub mod Assembly
pub mod Worklists
pub mod Analysis
pub mod Bodies
pub mod Control
use rustc_codegen_cranelift.Common.{
  ℕ, ◌%◌, ◌≡◌, refl, true, false, bit, arith, Option, none, some, List, [], ◌∷◌, ◌≤◌, ◌+◌, length,
  max,
}
use rustc_codegen_cranelift.Common.Word.{to_word, misfits}
use rustc_codegen_cranelift.Clif.{i8, i64, by, is_int}
use rustc_codegen_cranelift.Types.{type_sign}
use rustc_codegen_cranelift.Clif.Documented.{modulus, half}
use rustc_codegen_cranelift.Clif.Concrete.{Word, frame, word, machine, documented}
use rustc_codegen_cranelift.Codegen.{
  Tcx, Layout, RustTy, int, IntTy, BinOp, ok, pair_ty, bool, scalar, scalar_pair, uint, UintTy, adt,
  nil, ref, raw_ptr, int_prim, Integer, multiple, niche,
}
use rustc_codegen_cranelift.ValueAndPlace
use rustc_codegen_cranelift.Num.Exact.{exact}
use rustc_codegen_cranelift.Num.IntOps.{codegen_checked_int_binop}
use rustc_codegen_cranelift.FunctionCx.{create_stack_slot}
use rustc_codegen_cranelift.FunctionCx.Slots.{IsAlignment, create_stack_slot-Fits}
use rustc_codegen_cranelift.Pointer.{Pointer}
use rustc_codegen_cranelift.Pointer
use rustc_codegen_cranelift.Num.Overflow.{checked_int_binop-exact}
use rustc_codegen_cranelift.Num.Exact.{holds, reading, three_way}
use rustc_codegen_cranelift.Num.Compare.{codegen_compare_bin_op, codegen_three_way_compare}
use rustc_codegen_cranelift.Num.Order.{compare_bin_op-holds, three_way_compare-sign}
use rustc_codegen_cranelift.Num.FloatOps.{wide_ptr_compare, codegen_float_min, codegen_float_max}
use rustc_codegen_cranelift.Num.WidePointers.{wide_ptr_compare-holds}
use rustc_codegen_cranelift.Num.FloatMinMax.{pick, float_min-pick, float_max-pick}
use rustc_codegen_cranelift.Common.{◌||◌, ◌*◌, inr}
use rustc_codegen_cranelift.ValueAndPlace.{CValue, by_val_pair}
use rustc_codegen_cranelift.Types.{clif_type, pointer_ty}
use rustc_codegen_cranelift.Cast.{clif_intcast}
use rustc_codegen_cranelift.Cast.Integers.{clif_intcast-wraps}
use rustc_codegen_cranelift.Discriminant.{
  sub_u32, encode_niche, decode_niche, value_field, codegen_set_discriminant,
  codegen_get_discriminant,
}
use rustc_codegen_cranelift.Discriminant.Niche.{is_small, general, decode_niche-general}
use rustc_codegen_cranelift.Discriminant.RoundTrip.{niche_discriminant-round_trip}
use rustc_codegen_cranelift.Clif.{AbiParam}
use rustc_codegen_cranelift.PassMode.Params.{
  CastTarget, integer, flatten, cast_target_to_abi_params,
}
use rustc_codegen_cranelift.PassMode.Values.{param_bytes}
use rustc_codegen_cranelift.PassMode.Covers.{
  reg_bytes, SupportedSize, AllSupported, cast_target-covers,
}
use rustc_codegen_cranelift.Common.Int.{pos}
use rustc_codegen_cranelift.Common.Word.{signed}
use rustc_codegen_cranelift.Clif.{f32}
use rustc_codegen_cranelift.ConcurrencyLimiter.State.{
  new, try_start_job, assert_done, poison, failed, ConcurrencyLimiterState, job_started,
  assert_invariants, drop_excess_capacity, truncated, job_finished, checked_pred,
}
use rustc_codegen_cranelift.ConcurrencyLimiter.System.{
  System, attempt, token_arrives, job_ends, init, run_event, Reach, start, then_event,
}
use rustc_codegen_cranelift.ConcurrencyLimiter.Safety.{
  limiter_never_panics, limiter_capacity, limiter_progress, limiter_finishes,
}

abbrev pub layout_for : RustTy → Layout
layout_for ty = record {
  ty = ty;
  size = 1;
  align = 1;
  pref_align = 1;
  backend_repr = scalar (int_prim Integer.i8 true);
  offset = λ i. 0;
}

abbrev pointed_at : RustTy → Option RustTy
pointed_at (ref t) = some t
pointed_at (raw_ptr t) = some t
pointed_at _ = none

abbrev pub tcx : Tcx
tcx = record {
  pointer_bits = 64;
  pointer_align = 8;
  is_sized = λ ty. true;
  struct_tail = λ ty. ty;
  layout_of = layout_for;
  layout_field = λ layout i. layout_for (uint UintTy.u8);
  prim_size = λ p. 1;
  prim_align = λ p. 1;
  ordering_enum = int IntTy.i8;
  is_like_windows = false;
  is_s390x = false;
  saturating_float_casts = none;
  type_by = λ t n. some (by t n);
  variants = λ layout. multiple (int_prim Integer.i8 false) 0 (niche 0 1 3 250);
  is_uninhabited = λ layout. false;
  variant_is_uninhabited = λ layout v. false;
  discriminant_for_variant = λ ty v. some v;
  for_variant = λ layout v. layout;
  field_count = λ layout. 2;
  packed = λ ty. none;
  is_simd = λ ty. false;
  simd_size_and_type = λ ty. (1, ty);
  builtin_deref = pointed_at;
  polymorphize = false;
  panic_nounwind_symbol = "panic_nounwind";
  is_upstream_call = false;
  extern_type_message = λ ty. "extern type";
  overflow_checks = true;
  ub_checks = false;
  new_box = λ ty. ref ty;
  pointee_size = λ layout. none;
  offset_of_subfield = λ layout fields. 0;
  caller_location_ty = ref (uint UintTy.u8);
  lockstep_tails = λ source target. (source, target);
  principal = λ predicates. none;
  supertrait_vtable_slot = λ source target. none;
  vtable_allocation = λ ty trait_ref. 0;
  is_1zst = λ layout. false;
  first_variant_fields = λ ty. 0;
}

-- 100i8 + 50i8
checked_int_binop-exact_example :
    (v : Word) × (o : Word) × (codegen_checked_int_binop machine tcx i64 BinOp.add
        (ValueAndPlace.val machine tcx i64 (word i8 100) (layout_for (int IntTy.i8)))
        (ValueAndPlace.val machine tcx i64 (word i8 50) (layout_for (int IntTy.i8)))
        (frame 0)
      ≡ ok (
        ValueAndPlace.val_pair machine tcx i64 v o (layout_for (pair_ty (int IntTy.i8) bool)),
        frame 0,
      ))
    × (documented.bits v
        ≡ to_word
            (modulus i8)
            (exact BinOp.add true (half i8) (100 % modulus i8) (50 % modulus i8)))
    × (documented.bits o
        ≡ bit (
            misfits true
              (half i8)
              (exact BinOp.add true (half i8) (100 % modulus i8) (50 % modulus i8))))
unfolding documented type_sign is_int
checked_int_binop-exact_example =
    checked_int_binop-exact machine documented tcx i64 BinOp.add true (word i8 100) (word i8 50)
      (layout_for (int IntTy.i8)) (frame 0) tt refl refl refl

-- -100i8 < 50i8
compare_bin_op-holds_example :
    (v : Word) × (codegen_compare_bin_op machine tcx i64 BinOp.lt true
        (word i8 156)
        (word i8 50)
        (frame 0)
      ≡ ok (ValueAndPlace.val machine tcx i64 v (layout_for bool), frame 0))
    × (documented.bits v
        ≡ bit (
            holds BinOp.lt
              (reading true (half i8) (156 % modulus i8))
              (reading true (half i8) (50 % modulus i8))))
unfolding documented is_int
compare_bin_op-holds_example =
    compare_bin_op-holds machine documented tcx i64 BinOp.lt true (word i8 156) (word i8 50)
      (frame 0) tt refl refl

-- 200u8 <=> 100u8
three_way_compare-sign_example :
    (v : Word) × (codegen_three_way_compare machine tcx i64 false
        (word i8 200)
        (word i8 100)
        (frame 0)
      ≡ ok (ValueAndPlace.val machine tcx i64 v (layout_for (int IntTy.i8)), frame 0))
    × (signed 128 (documented.bits v)
        ≡ three_way
            (reading false (half i8) (200 % modulus i8))
            (reading false (half i8) (100 % modulus i8)))
unfolding documented is_int
three_way_compare-sign_example =
    three_way_compare-sign machine documented tcx i64 false (word i8 200) (word i8 100) (frame 0)
      refl refl

-- Two wide pointers to one address.
wide_ptr_compare-holds_example :
    (v : Word) × (wide_ptr_compare machine tcx i64 BinOp.lt
        (word i64 4096)
        (word i64 3)
        (word i64 4096)
        (word i64 7)
        (frame 0)
      ≡ ok (v, frame 0))
    × (documented.bits v
        ≡ bit (
            holds BinOp.lt
              (pos (4096 % modulus i64 * modulus i64 + 3 % modulus i64))
              (pos (4096 % modulus i64 * modulus i64 + 7 % modulus i64))))
unfolding documented
wide_ptr_compare-holds_example =
    wide_ptr_compare-holds machine documented tcx i64 BinOp.lt (word i64 4096) (word i64 3)
      (word i64 4096) (word i64 7) (frame 0) tt refl

float_min-pick_example :
    documented.bits (codegen_float_min machine (word f32 3) (word f32 5))
    ≡ pick
        (documented.same (word f32 3) (word f32 3))
        (documented.same (word f32 5) (word f32 5))
        (documented.less (word f32 5) (word f32 3) || documented.same (word f32 3) (word f32 5))
        (documented.bits (word f32 3))
        (documented.bits (word f32 5))
float_min-pick_example = float_min-pick machine documented (word f32 3) (word f32 5) refl

float_max-pick_example :
    documented.bits (codegen_float_max machine (word f32 3) (word f32 5))
    ≡ pick
        (documented.same (word f32 3) (word f32 3))
        (documented.same (word f32 5) (word f32 5))
        (documented.less (word f32 3) (word f32 5) || documented.same (word f32 3) (word f32 5))
        (documented.bits (word f32 3))
        (documented.bits (word f32 5))
float_max-pick_example = float_max-pick machine documented (word f32 3) (word f32 5) refl

-- -56i8 as u64
clif_intcast-wraps_example :
    ((clif_intcast machine (word i8 200) i64 true).ty ≡ i64)
    × (documented.bits (clif_intcast machine (word i8 200) i64 true)
        ≡ to_word (modulus i64) (reading true (half i8) (200 % modulus i8)))
unfolding documented is_int
clif_intcast-wraps_example = clif_intcast-wraps machine documented (word i8 200) i64 true refl refl

-- The niche variants 1, 2, 3 of an enum have the tags 250, 251, 252.
decode_niche-general_example :
    documented.bits (decode_niche machine (word i8 251) i64 0 1 3 250)
    ≡ general (modulus i8) (modulus i64) (251 % modulus i8) 0 1 (sub_u32 3 1) 250
unfolding documented is_small sub_u32 modulus
decode_niche-general_example =
    decode_niche-general machine documented (word i8 251) i64 0 1 3 250 refl refl (omega arith)

abbrev enum_layout : Layout
enum_layout = record {
  ty = adt 0 nil;
  size = 2;
  align = 1;
  pref_align = 1;
  backend_repr = scalar_pair (int_prim Integer.i8 false) (int_prim Integer.i8 false);
  offset = λ i. i;
}

abbrev enum_value : CValue machine
enum_value = record {
  inner = by_val_pair (encode_niche machine i8 2 1 250) (word i8 7);
  layout = enum_layout;
}

niche_discriminant-round_trip_example :
    (codegen_set_discriminant machine tcx i64 enum_layout 2 (frame 0)
      ≡ ok (
        some (
          0,
          ValueAndPlace.val machine tcx i64
              (encode_niche machine i8 2 1 250)
              (layout_for (uint UintTy.u8)),
        ),
        frame 0,
      ))
    × ((discr : Word) × (codegen_get_discriminant machine tcx i64 enum_value
            (layout_for (int IntTy.isize))
            (frame 0)
          ≡ ok (
            some (ValueAndPlace.val machine tcx i64 discr (layout_for (int IntTy.isize))),
            frame 0,
          ))
        × (documented.bits discr ≡ 2 % modulus i64))
unfolding is_small modulus clif_type pointer_ty value_field
niche_discriminant-round_trip_example =
    niche_discriminant-round_trip machine documented tcx i64 (layout_for (int IntTy.isize))
      enum_value (int_prim Integer.i8 false) 0 2 0 1 3 250 i8 i64 (frame 0) refl refl refl refl refl
      refl refl refl (omega arith) (omega arith) (omega arith) (omega arith) (omega arith) refl

-- Two registers of eight bytes for thirteen bytes, after a prefix of two.
abbrev thirteen : CastTarget
thirteen = record {
  prefix = some (record { kind = integer; size = 2 }) ∷ none ∷ [];
  unit = record { kind = integer; size = 8 };
  total = 13;
}

cast_target-covers_example :
    (ps : List AbiParam) × (cast_target_to_abi_params tcx thirteen ≡ ok ps)
    × (reg_bytes (flatten thirteen.prefix) + 13 ≤ param_bytes ps)
unfolding SupportedSize AllSupported flatten
cast_target-covers_example =
    cast_target-covers tcx thirteen ((omega arith, omega arith), tt) (omega arith, omega arith)
      (omega arith) (inr refl)

-- 64 bytes at a multiple of 32, in a frame whose next slot begins at 48.
create_stack_slot-Fits_example :
    (n : ℕ) × (p : Pointer machine) × (create_stack_slot machine tcx i64 64 32 (frame 3)
      ≡ ok (p, (machine.create_sized_stack_slot n 4 (frame 3)).1))
    × ((documented.bits (Pointer.get_addr machine i64 p) % 32 ≡ 0)
        × (documented.slot_base (machine.create_sized_stack_slot n 4 (frame 3)).0
            ≤ documented.bits (Pointer.get_addr machine i64 p))
        × (documented.bits (Pointer.get_addr machine i64 p) + 64
            ≤ documented.slot_base (machine.create_sized_stack_slot n 4 (frame 3)).0 + n))
unfolding documented IsAlignment modulus
create_stack_slot-Fits_example =
    create_stack_slot-Fits machine documented tcx i64 64 32 (frame 3) refl (inr (omega arith, refl))
      (λ l. refl) (omega arith) (omega arith) (λ n h. omega arith)
