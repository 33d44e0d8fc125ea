-- ===== src/Examples/Bodies.antt =====
-- The theorems on function bodies, returns and saturating arithmetic at concrete inputs.
use rustc_codegen_cranelift.Common.{
  List, Option, map, ℕ, ◌≡◌, ◌++◌, replicate, refl, ◌*◌, ◌%◌, Bool, arith, none, true, false, [],
  ◌∷◌,
}
use rustc_codegen_cranelift.Common.Int.{pos, ◌+ℤ◌}
use rustc_codegen_cranelift.Clif.{abi_param, i8, i64, is_int, ty_bits, ty_bytes}
use rustc_codegen_cranelift.Types.{
  has_ptr_meta, scalar_to_clif_type, clif_type, clif_pair_type, type_sign,
}
use rustc_codegen_cranelift.Clif.Documented.{modulus, half}
use rustc_codegen_cranelift.Clif.Concrete.{Word, frame, word, machine, documented}
use rustc_codegen_cranelift.Codegen.{
  Result, panic, Tcx, Layout, RustTy, int, IntTy, uint, UintTy, bool, pair_ty, ok, pure, int_prim,
  Integer, scalar_pair, pointer_prim, slice, BinOp, array, ref,
}
use rustc_codegen_cranelift.Num.Exact.{exact, reading}
use rustc_codegen_cranelift.Num.IntOps.{codegen_saturating_int_binop}
use rustc_codegen_cranelift.Num.Saturating.{clamp, saturating_int_binop-clamps}
use rustc_codegen_cranelift.Pointer.{Pointer, stack}
use rustc_codegen_cranelift.ValueAndPlace
use rustc_codegen_cranelift.ValueAndPlace.{CValue, load_scalar, scalar_pair_calculate_b_offset}
use rustc_codegen_cranelift.ValueAndPlace.Place.{CPlace, var, place_addr}
use rustc_codegen_cranelift.ValueAndPlace.ReadBack.{HoldsScalar}
use rustc_codegen_cranelift.ValueAndPlace.ReadBackPair.{HoldsPair}
use rustc_codegen_cranelift.PassMode.Params.{
  get_abi_param, CastTarget, integer, cast_target_to_abi_params, direct, pair, no_ext,
}
use rustc_codegen_cranelift.PassMode.Values.{param_bytes, from_casted_value}
use rustc_codegen_cranelift.PassMode.Casted.{to_casted_value}
use rustc_codegen_cranelift.PassMode.CastRoundTrip.{casted_round_trip}
use rustc_codegen_cranelift.Returns.Forwarded.{forward, forwarded_scalar, forwarded_pair}
use rustc_codegen_cranelift.Unsize.Slices.{refs, read_coerced, coerce_unsized_into-slice}
use rustc_codegen_cranelift.Variadic.{
  FnAbi, drop, is_indirect, integer_registers_used, params_of, adjust_call_for_c_variadic, all_int,
  no_struct_arguments,
}
use rustc_codegen_cranelift.Variadic.Stack.{filled, filled_values, variadic_arguments-Stack}
use rustc_codegen_cranelift.PassMode.Params.{ArgAbi}
use rustc_codegen_cranelift.Prelude.{Body, codegen_fn_prelude}
use rustc_codegen_cranelift.Prelude.Places.{codegen_fn_prelude-HaveAll}
use rustc_codegen_cranelift.Examples.{layout_for, tcx}

-- 100i8.saturating_add(50)
saturating_int_binop-clamps_example :
    (w : Word) × (codegen_saturating_int_binop machine tcx i64 BinOp.add
        (ValueAndPlace.val machine tcx i64 (word i8 100) (layout_for (int IntTy.i8)))
        (ValueAndPlace.val machine tcx i64 (word i8 50) (layout_for (int IntTy.i8)))
        (frame 0)
      ≡ ok (ValueAndPlace.val machine tcx i64 w (layout_for (int IntTy.i8)), frame 0))
    × (w.ty ≡ i8)
    × (reading true (half i8) (documented.bits w)
        ≡ clamp true
            (half i8)
            (exact BinOp.add true (half i8) (100 % modulus i8) (50 % modulus i8)))
unfolding documented type_sign is_int clif_type
saturating_int_binop-clamps_example =
    saturating_int_binop-clamps machine documented tcx i64 BinOp.add true (word i8 100) (word i8 50)
      (layout_for (int IntTy.i8)) (frame 0) tt refl refl refl refl

-- Two registers of 8 bytes.
abbrev two_registers : CastTarget
two_registers = record { prefix = []; unit = record { kind = integer; size = 8 }; total = 16 }

casted_round_trip_example :
    (v : CValue machine) × (fx' : machine.Fx) × (from_casted_value machine tcx i64
        (word i64 7 ∷ word i64 9 ∷ [])
        (layout_for (int IntTy.i128))
        two_registers
        (frame 0)
      ≡ ok (v, fx'))
    × (to_casted_value machine tcx i64 v two_registers fx' ≡ ok (word i64 7 ∷ word i64 9 ∷ [], fx'))
unfolding cast_target_to_abi_params ty_bytes param_bytes
casted_round_trip_example =
    casted_round_trip machine documented i64 tcx two_registers (layout_for (int IntTy.i128)) _
      (word i64 7 ∷ word i64 9 ∷ []) (frame 0) refl (refl, omega arith, (refl, omega arith, tt))
      (omega arith) (omega arith) (omega arith)

abbrev pub slot : Pointer machine
slot = record { base = stack 32; offset = pos 4 }

forwarded_scalar_example :
    (fx' : machine.Fx) × (forward machine documented tcx i64
        (record { mode = direct no_ext; layout = layout_for (int IntTy.i8) })
        (record { inner = place_addr slot none; layout = layout_for (int IntTy.i8) })
        (λ ptr. pure (word i8 7 ∷ []))
        (frame 0)
      ≡ ok (word i8 7 ∷ [], fx'))
unfolding HoldsScalar scalar_to_clif_type clif_type
forwarded_scalar_example =
    forwarded_scalar machine documented tcx i64 no_ext (place_addr slot none)
      (layout_for (int IntTy.i8)) (int_prim Integer.i8 true) (word i8 7)
      (λ ptr. pure (word i8 7 ∷ [])) (frame 0) (frame 0) tt (ground arith) refl refl refl refl

abbrev pub flagged : RustTy → Layout
flagged ty = record {
  ty = ty;
  size = 2;
  align = 1;
  pref_align = 1;
  backend_repr = scalar_pair (int_prim Integer.i8 true) (int_prim Integer.i8 false);
  offset = λ i. i;
}

forwarded_pair_example :
    (fx' : machine.Fx) × (forward machine documented tcx i64
        (record { mode = pair no_ext no_ext; layout = flagged (pair_ty (int IntTy.i8) bool) })
        (record { inner = place_addr slot none; layout = flagged (pair_ty (int IntTy.i8) bool) })
        (λ ptr. pure (word i8 7 ∷ word i8 1 ∷ []))
        (frame 0)
      ≡ ok (word i8 7 ∷ word i8 1 ∷ [], fx'))
unfolding HoldsPair ◌+ℤ◌ scalar_pair_calculate_b_offset scalar_to_clif_type clif_pair_type ty_bytes
forwarded_pair_example =
    forwarded_pair machine documented tcx i64 no_ext no_ext (place_addr slot none)
      (flagged (pair_ty (int IntTy.i8) bool)) (int_prim Integer.i8 true) (int_prim Integer.i8 false)
      (word i8 7) (word i8 1) (λ ptr. pure (word i8 7 ∷ word i8 1 ∷ [])) (frame 0) (frame 0)
      (tt, pos 5, refl) (ground arith) refl refl refl refl (omega arith) (omega arith) refl

-- Slices have no size of their own.
abbrev is_known : RustTy → Bool
is_known (slice _) = false
is_known _ = true

abbrev slices_tcx : Tcx
slices_tcx = record tcx { is_sized = is_known; prim_size = λ p. 8; prim_align = λ p. 8 }

abbrev fat_pointer : Layout
fat_pointer = record {
  ty = ref (slice (uint UintTy.u8));
  size = 16;
  align = 8;
  pref_align = 8;
  backend_repr = scalar_pair pointer_prim (int_prim Integer.i64 false);
  offset = λ i. 8 * i;
}

-- `&[u8; 3]` as `&[u8]`, in memory.
coerce_unsized_into-slice_example :
    (len : Word) × (fx' : machine.Fx) × (read_coerced machine documented slices_tcx i64 1 1
        (ValueAndPlace.val machine slices_tcx i64
          (word i64 4096)
          (layout_for (ref (array (uint UintTy.u8) 3))))
        (record { inner = place_addr slot none; layout = fat_pointer })
        (frame 0)
      ≡ ok ((word i64 4096, len), fx'))
    × (documented.bits len ≡ 3)
unfolding HoldsPair ◌+ℤ◌ scalar_pair_calculate_b_offset scalar_to_clif_type clif_pair_type ty_bytes
    is_int ty_bits load_scalar modulus has_ptr_meta
coerce_unsized_into-slice_example =
    coerce_unsized_into-slice machine documented slices_tcx i64 1 0
      (ValueAndPlace.val machine slices_tcx i64 (word i64 4096)
        (layout_for (ref (array (uint UintTy.u8) 3))))
      (place_addr slot none) fat_pointer (array (uint UintTy.u8) 3) (slice (uint UintTy.u8))
      (uint UintTy.u8) (uint UintTy.u8) 3 pointer_prim (int_prim Integer.i64 false) (word i64 4096)
      (frame 0) (frame 0) refs refl refl refl (omega arith) (omega arith) refl refl (omega arith)
      (tt, pos 12, refl) (ground arith) refl refl refl refl (omega arith) (omega arith)

abbrev byte_arg : ArgAbi
byte_arg = record { mode = direct no_ext; layout = layout_for (int IntTy.i8) }

-- A function of one fixed argument, called with two.
abbrev printf_abi : FnAbi
printf_abi = record {
  ret = byte_arg;
  args = byte_arg ∷ byte_arg ∷ [];
  fixed_count = 1;
  conv_is_c = true;
}

variadic_arguments-Stack_example :
    (adjust_call_for_c_variadic machine tcx true printf_abi []
        (word i8 1 ∷ word i8 2 ∷ [])
        (frame 0)
      ≡ ok (
        (
          filled machine tcx 7 (abi_param i8 ∷ []) (abi_param i8 ∷ []),
          filled_values machine tcx 7 (word i8 1 ∷ []) (word i8 2 ∷ []),
        ),
        frame 0,
      ))
    × (integer_registers_used (drop 0 ((abi_param i8 ∷ []) ++ replicate 7 (abi_param i64))) ≡ 8)
unfolding is_indirect params_of get_abi_param scalar_to_clif_type drop all_int no_struct_arguments
    is_int integer_registers_used ty_bits
variadic_arguments-Stack_example =
    variadic_arguments-Stack machine tcx printf_abi [] (abi_param i8 ∷ []) (abi_param i8 ∷ [])
      (word i8 1 ∷ []) (word i8 2 ∷ []) 0 (frame 0) refl (omega arith) refl (omega arith) refl refl
      (omega arith) refl refl refl refl refl refl

-- fn f(a: i8) -> i8 with one variable, called with 5.
abbrev one_argument : Body
one_argument = record {
  ret = byte_arg;
  arg_abis = byte_arg ∷ [];
  c_variadic = false;
  requires_caller_location = false;
  arg_tys = int IntTy.i8 ∷ [];
  spread_arg = none;
  var_tys = int IntTy.i8 ∷ [];
  blocks = [];
}

abbrev byte_var : ℕ → ℕ → CPlace machine
byte_var loc n = record { inner = var loc n; layout = layout_for (int IntTy.i8) }

abbrev after_prelude : Result ((List (CPlace machine) × Option (CValue machine)) × machine.Fx)
unfolding codegen_fn_prelude
after_prelude = codegen_fn_prelude machine tcx i64 1 one_argument (word i8 5 ∷ []) (frame 0)

abbrev filled_frame : machine.Fx
filled_frame = elim after_prelude [ ok r ↦ r.1 | panic ↦ frame 0 ]

codegen_fn_prelude-HaveAll_example :
    map (λ p. p.layout) (byte_var 0 0 ∷ byte_var 1 1 ∷ byte_var 2 3 ∷ [])
    ≡ layout_for (int IntTy.i8) ∷ layout_for (int IntTy.i8) ∷ layout_for (int IntTy.i8) ∷ []
unfolding codegen_fn_prelude
codegen_fn_prelude-HaveAll_example =
    codegen_fn_prelude-HaveAll machine tcx i64 1 one_argument (word i8 5 ∷ [])
      (byte_var 0 0 ∷ byte_var 1 1 ∷ byte_var 2 3 ∷ []) none (frame 0) filled_frame refl (refl, tt)
      refl
