-- ===== src/Examples/Memory.antt =====
-- The theorems on places, pointers and unsized values at concrete inputs.
use rustc_codegen_cranelift.Common.{◌≡◌, refl, ◌+◌, ◌*◌, ◌%◌, Bool, arith, none, some, true, false}
use rustc_codegen_cranelift.Common.Int.{pos, negsuc, ◌+ℤ◌}
use rustc_codegen_cranelift.Clif.{i8, i64, is_int, ty_bits, ty_bytes}
use rustc_codegen_cranelift.Types.{scalar_to_clif_type, clif_type, clif_pair_type}
use rustc_codegen_cranelift.Clif.Documented.{modulus}
use rustc_codegen_cranelift.Clif.Concrete.{frame, word, machine, documented}
use rustc_codegen_cranelift.Codegen.{
  Tcx, Layout, RustTy, int, IntTy, uint, UintTy, array, slice, adt, nil, pair_ty, ok, int_prim,
  Integer, scalar, scalar_pair, memory,
}
use rustc_codegen_cranelift.Pointer.{Pointer, stack, offset_value}
use rustc_codegen_cranelift.Pointer.Addresses.{
  Moves, address, IsPointer, offset_i64-address, offset_value-address,
}
use rustc_codegen_cranelift.ValueAndPlace.{
  by_val, by_val_pair, load_scalar, load_scalar_pair, scalar_pair_calculate_b_offset, align_to,
}
use rustc_codegen_cranelift.ValueAndPlace.Place.{place_addr, indexed}
use rustc_codegen_cranelift.ValueAndPlace.ReadBack.{HoldsScalar, read_back, scalar_read_back}
use rustc_codegen_cranelift.ValueAndPlace.ReadBackPair.{HoldsPair, read_pair_back, pair_read_back}
use rustc_codegen_cranelift.ValueAndPlace.Elements.{IsAt, place_index-address}
use rustc_codegen_cranelift.Unsize.{size_and_align_of}
use rustc_codegen_cranelift.Unsize.Dynamic.{dyn_size, dyn_align, Fits}
use rustc_codegen_cranelift.Unsize.Computed.{Gives, size_and_align_of-dynamic}
use rustc_codegen_cranelift.Examples.{layout_for, tcx}

abbrev byte_slot : Pointer machine
byte_slot = record { base = stack 32; offset = pos 4 }

-- A byte in a stack slot.
scalar_read_back_example :
    (fx' : machine.Fx) × (read_back machine documented tcx i64
        (record { inner = place_addr byte_slot none; layout = layout_for (int IntTy.i8) })
        (record { inner = by_val (word i8 7); layout = layout_for (int IntTy.i8) })
        (frame 0)
      ≡ ok (word i8 7, fx'))
unfolding HoldsScalar scalar_to_clif_type clif_type load_scalar
scalar_read_back_example =
    scalar_read_back machine documented tcx i64 (place_addr byte_slot none) (by_val (word i8 7))
      (layout_for (int IntTy.i8)) (int_prim Integer.i8 true) (word i8 7) (frame 0) tt (ground arith)
      refl refl refl refl

abbrev pair_layout : Layout
pair_layout = record {
  ty = pair_ty (int IntTy.i8) (int IntTy.i8);
  size = 2;
  align = 1;
  pref_align = 1;
  backend_repr = scalar_pair (int_prim Integer.i8 true) (int_prim Integer.i8 true);
  offset = λ i. i;
}

pair_read_back_example :
    (fx' : machine.Fx) × (read_pair_back machine documented tcx i64
        (record { inner = place_addr byte_slot none; layout = pair_layout })
        (record { inner = by_val_pair (word i8 7) (word i8 9); layout = pair_layout })
        (frame 0)
      ≡ ok ((word i8 7, word i8 9), fx'))
unfolding HoldsPair ◌+ℤ◌ scalar_pair_calculate_b_offset scalar_to_clif_type clif_pair_type ty_bytes
    load_scalar_pair
pair_read_back_example =
    pair_read_back machine documented tcx i64 (place_addr byte_slot none)
      (by_val_pair (word i8 7) (word i8 9)) pair_layout (int_prim Integer.i8 true)
      (int_prim Integer.i8 true) (word i8 7) (word i8 9) (frame 0) (tt, pos 5, refl) (ground arith)
      refl refl refl refl (omega arith) (omega arith) refl

offset_i64-address_example : Moves machine documented i64 byte_slot (negsuc 7)
unfolding IsPointer ◌+ℤ◌
offset_i64-address_example = offset_i64-address machine documented i64 byte_slot (negsuc 7) tt refl

offset_value-address_example :
    address machine documented i64 (offset_value machine i64 byte_slot (word i64 100))
    ≡ (address machine documented i64 byte_slot + 100) % modulus i64
unfolding IsPointer documented
offset_value-address_example =
    offset_value-address machine documented i64 byte_slot (word i64 100) tt refl

place_index-address_example :
    IsAt machine documented tcx i64
      (record { inner = place_addr byte_slot none; layout = layout_for (array (int IntTy.i8) 10) })
      (word i64 3)
      (frame 0)
      (layout_for (int IntTy.i8))
      ((address machine documented i64 byte_slot + 3 * 1) % modulus i64)
unfolding IsPointer indexed is_int ty_bits modulus documented
place_index-address_example =
    place_index-address machine documented tcx i64 (place_addr byte_slot none)
      (layout_for (array (int IntTy.i8) 10)) (int IntTy.i8) byte_slot (word i64 3) (frame 0) refl
      refl (omega arith) (omega arith) tt refl

-- A struct of a number of two bytes and a slice of such numbers, aligned to 4.
abbrev unsized_layout : RustTy → Layout
unsized_layout (slice t) = record {
  ty = slice t;
  size = 0;
  align = 2;
  pref_align = 2;
  backend_repr = memory;
  offset = λ i. 0;
}
unsized_layout (adt n ts) = record {
  ty = adt n ts;
  size = 2;
  align = 4;
  pref_align = 4;
  backend_repr = memory;
  offset = λ i. i * 2;
}
unsized_layout t = record {
  ty = t;
  size = 2;
  align = 2;
  pref_align = 2;
  backend_repr = scalar (int_prim Integer.i16 false);
  offset = λ i. 0;
}

abbrev last_of : RustTy → RustTy
last_of (adt n ts) = slice (uint UintTy.u16)
last_of _ = uint UintTy.u16

abbrev known : RustTy → Bool
known (adt n ts) = false
known (slice t) = false
known _ = true

abbrev unsized_tcx : Tcx
unsized_tcx = record tcx {
  is_sized = known;
  layout_of = unsized_layout;
  layout_field = λ l i. unsized_layout (last_of l.ty);
}

-- Four elements: 10 bytes, rounded up to 12.
size_and_align_of-dynamic_example :
    Gives machine documented unsized_tcx i64
      (frame 0)
      (size_and_align_of machine unsized_tcx i64 2 (unsized_layout (adt 1 nil)) (some (word i64 4)))
      (dyn_size machine documented unsized_tcx i64
        (word i64 4)
        (frame 0)
        2
        (unsized_layout (adt 1 nil)))
      (dyn_align machine documented unsized_tcx i64
        (word i64 4)
        (frame 0)
        2
        (unsized_layout (adt 1 nil)))
unfolding is_int ty_bits modulus Fits dyn_size dyn_align documented align_to
size_and_align_of-dynamic_example =
    size_and_align_of-dynamic machine documented unsized_tcx i64 refl (omega arith) (word i64 4)
      (frame 0) refl 2 (unsized_layout (adt 1 nil))
      (
        refl,
        omega arith,
        (omega arith, omega arith, omega arith),
        tt,
        omega arith,
        omega arith,
        2,
        omega arith,
        refl,
        1,
        refl,
        refl,
      )
