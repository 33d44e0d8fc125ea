-- ===== src/Examples/Control.antt =====
-- The theorems on statements and terminators at concrete inputs.
use Prim.Native.String.{String}
use rustc_codegen_cranelift.Common.{
  ℕ, ◌⊎◌, ◌≡◌, refl, ◌^◌, Bool, arith, Option, none, some, true, false, List, [], ◌∷◌, ltb, bit,
}
use rustc_codegen_cranelift.Common.Int.{ℤ, pos, ◌+ℤ◌}
use rustc_codegen_cranelift.Common.Word.{to_word, out_of_range, misfits, mod_below}
use rustc_codegen_cranelift.Clif.{i8, i16, i64, is_int, ty_bits, ty_bytes, IntCc}
use rustc_codegen_cranelift.Types.{scalar_to_clif_type, clif_type, clif_pair_type, type_sign}
use rustc_codegen_cranelift.Clif.Documented.{modulus, half}
use rustc_codegen_cranelift.Clif.Concrete.{Word, frame, word, machine, documented, pattern_of}
use rustc_codegen_cranelift.Codegen.{
  Tcx, Layout, RustTy, int, IntTy, tuple, bool, pair_ty, ok, int_prim, Integer, BinOp, ◌>>◌, array,
}
use rustc_codegen_cranelift.Num.Exact.{exact}
use rustc_codegen_cranelift.ValueAndPlace
use rustc_codegen_cranelift.ValueAndPlace.{CValue, load_scalar, scalar_pair_calculate_b_offset}
use rustc_codegen_cranelift.ValueAndPlace.Place.{CPlace, place_addr}
use rustc_codegen_cranelift.ValueAndPlace.ReadBackPair.{HoldsPair}
use rustc_codegen_cranelift.PassMode.Params.{ArgAbi, direct, no_ext}
use rustc_codegen_cranelift.Optimize.Peephole.{
  ValueDef, result, not_a_result, unary_imm, iconst, int_compare_imm, DefsDocumented,
}
use rustc_codegen_cranelift.Body.Operands.{Operand, constant, scalar_int}
use rustc_codegen_cranelift.Body.Places.{codegen_place}
use rustc_codegen_cranelift.Body.Operands.{codegen_operand}
use rustc_codegen_cranelift.Body.Syntax.{
  MirPlace, BasicBlockData, storage_dead, return, other_assert, assign, binary_op,
}
use rustc_codegen_cranelift.Body.Statements.{
  codegen_repeat, is_i8, codegen_stmt, overflowing_to_wrapping,
}
use rustc_codegen_cranelift.Body.Repeats.{Counts, write_each, repeat-writes}
use rustc_codegen_cranelift.Body.Assigns.{held_pair, checked_assign-holds}
use rustc_codegen_cranelift.Body.Terminators.{
  Exit, jump, mir_block, failure, codegen_switch_int, scalar_operand, failed_assert, codegen_assert,
  codegen_goto, codegen_block, is_bool,
}
use rustc_codegen_cranelift.Body.Branches.{goes, SwitchOk, target_of, switch_int-goes}
use rustc_codegen_cranelift.Body.Jumps.{assert-goes, then_some, goto-block}
use rustc_codegen_cranelift.Examples.{layout_for, tcx}
use rustc_codegen_cranelift.Examples.Bodies.{slot, flagged}

-- On the machine every value of less than 63 bits is a constant.
abbrev defined_by : Bool → Word → ValueDef machine
defined_by true v = result (unary_imm iconst (pos (pattern_of v))) 0
defined_by false v = not_a_result

abbrev value_def : Word → ValueDef machine
value_def v = defined_by (ltb (pattern_of v) (2 ^ 63)) v

not_compared :
    (b : Bool) (v a : Word) (cc' : IntCc) (n : ℤ)
    → defined_by b v ≡ result (int_compare_imm cc' a n) 0
    → ⊥
not_compared true v a cc' n e = cc
not_compared false v a cc' n e = cc

constant_is :
    (b : Bool) (v : Word) (n : ℤ)
    → ltb (pattern_of v) (2 ^ 63) ≡ b
    → defined_by b v ≡ result (unary_imm iconst n) 0
    → (out_of_range (2 ^ 63) n ≡ false) × (pattern_of v ≡ to_word (2 ^ 64) n)
constant_is true v n small e =
    let same : pos (pattern_of v) ≡ n = cc in
    rw (← same) (ground arith, ground (arith, mod_below (pattern_of v) (2 ^ 64)))
constant_is false v n small e = absurd (cc)

definitions : DefsDocumented machine documented value_def
unfolding documented
definitions = record {
  compare_def = λ v a cc' n e. absurd (not_compared _ v a cc' n e);
  const_def = λ v n e. constant_is _ v n refl e;
}

abbrev no_locals : ℕ → Option (CPlace machine)
no_locals n = none

abbrev plain : ArgAbi
plain = record { mode = direct no_ext; layout = layout_for (int IntTy.i8) }

abbrev symbol : String → String
symbol item = item

-- A Boolean that is known to be true.
switch_int-goes_example :
    (exit : Exit machine) × (codegen_switch_int machine tcx i64 4 no_locals value_def symbol none
        plain []
        (ValueAndPlace.val machine tcx i64 (word i8 1) (layout_for bool))
        ((0, 3) ∷ [])
        4
        (frame 0)
      ≡ ok (exit, frame 0))
    × (goes machine documented exit ≡ some (mir_block (target_of ((0, 3) ∷ []) 4 1)))
unfolding SwitchOk is_bool load_scalar documented modulus ty_bits target_of
switch_int-goes_example =
    switch_int-goes machine documented tcx i64 4 no_locals value_def definitions symbol none plain
      [] (ValueAndPlace.val machine tcx i64 (word i8 1) (layout_for bool)) (word i8 1) ((0, 3) ∷ [])
      4 (frame 0) (frame 0) refl (omega arith, omega arith)

abbrev true_operand : Operand
true_operand = constant (scalar_int 1 1) bool

-- An addition that did not overflow, as `expected` of the flag is false: it did, so it panics.
assert-goes_example :
    (exit : Exit machine) × (fx' : machine.Fx) × (codegen_assert machine tcx i64 4 no_locals
        value_def symbol none plain [] true_operand false
        (other_assert "panic_add_overflow" true)
        3
        (some (scalar_int 1 5))
        (frame 0)
      ≡ ok (exit, fx'))
    × (goes machine documented exit ≡ some failure)
unfolding scalar_operand failed_assert load_scalar documented modulus ty_bits
assert-goes_example =
    assert-goes machine tcx i64 4 no_locals value_def symbol none plain [] documented true_operand
      false (other_assert "panic_add_overflow" true) 3 (some (scalar_int 1 5)) (word i8 1) (frame 0)
      (frame 0) (frame 0) refl refl

abbrev returning_body : List BasicBlockData
returning_body =
    record { statements = storage_dead 1 ∷ []; terminator = return; is_cleanup = false } ∷ []

goto-block_example :
    (then_some machine tcx i64 4 no_locals value_def symbol none plain returning_body
        (codegen_goto machine tcx i64 4 no_locals value_def symbol none plain returning_body 0)
        (frame 0)
      ≡ ok (some (jump (mir_block 0)), frame 0))
    ⊎ (then_some machine tcx i64 4 no_locals value_def symbol none plain returning_body
          (codegen_goto machine tcx i64 4 no_locals value_def symbol none plain returning_body 0)
          (frame 0)
        ≡ codegen_block machine tcx i64 4 no_locals value_def symbol none plain returning_body true
            (record { statements = storage_dead 1 ∷ []; terminator = return; is_cleanup = false })
            (frame 0))
goto-block_example =
    goto-block machine tcx i64 4 no_locals value_def symbol none plain returning_body 0
      (record { statements = storage_dead 1 ∷ []; terminator = return; is_cleanup = false })
      (frame 0) refl refl

-- [7i16; 2]
repeat-writes_example :
    (is : List Word) × Counts machine documented tcx i64 4 no_locals 0 is 2
    × ((fx : machine.Fx)
        → codegen_repeat machine tcx i64 4 no_locals
            (record { inner = place_addr slot none; layout = layout_for (array (int IntTy.i16) 2) })
            (ValueAndPlace.val machine tcx i64 (word i16 7) (layout_for (int IntTy.i16)))
            2
            fx
          ≡ write_each machine documented tcx i64 4 no_locals
              (record {
                inner = place_addr slot none;
                layout = layout_for (array (int IntTy.i16) 2);
              })
              (ValueAndPlace.val machine tcx i64 (word i16 7) (layout_for (int IntTy.i16)))
              is
              fx)
unfolding is_int ty_bits modulus clif_type is_i8
repeat-writes_example =
    repeat-writes machine documented tcx i64 4 no_locals
      (record { inner = place_addr slot none; layout = layout_for (array (int IntTy.i16) 2) })
      (ValueAndPlace.val machine tcx i64 (word i16 7) (layout_for (int IntTy.i16))) 2 (some i16)
      refl (omega arith) (omega arith) (omega arith) (ground arith) refl refl

-- The layouts of pairs with a flag.
abbrev flag_layouts : RustTy → Layout
flag_layouts (tuple ts) = flagged (tuple ts)
flag_layouts ty = layout_for ty

abbrev flag_tcx : Tcx
flag_tcx = record tcx { layout_of = flag_layouts }

abbrev one_local : ℕ → Option (CPlace machine)
one_local n =
    some (record { inner = place_addr slot none; layout = flagged (pair_ty (int IntTy.i8) bool) })

abbrev result_place : MirPlace
result_place = record { base = 0; elems = [] }

-- 100i8.overflowing_add(50)
checked_assign-holds_example :
    (v : Word) × (o : Word) × (fx' : machine.Fx) × ((codegen_stmt machine flag_tcx i64 4 one_local (
            assign result_place (
              binary_op BinOp.add_with_overflow
                (constant (scalar_int 1 100) (int IntTy.i8))
                (constant (scalar_int 1 50) (int IntTy.i8))))
          >> held_pair machine documented flag_tcx i64 4 one_local (record {
            inner = place_addr slot none;
            layout = flagged (pair_ty (int IntTy.i8) bool);
          }))
        (frame 0)
      ≡ ok ((v, o), fx'))
    × (documented.bits v ≡ to_word (modulus i8) (exact BinOp.add true (half i8) 100 50))
    × (documented.bits o ≡ bit (misfits true (half i8) (exact BinOp.add true (half i8) 100 50)))
unfolding overflowing_to_wrapping codegen_place codegen_operand type_sign is_int HoldsPair ◌+ℤ◌
    scalar_pair_calculate_b_offset scalar_to_clif_type clif_pair_type ty_bytes modulus ty_bits
    documented
checked_assign-holds_example =
    checked_assign-holds machine documented flag_tcx i64 4 one_local result_place
      (constant (scalar_int 1 100) (int IntTy.i8)) (constant (scalar_int 1 50) (int IntTy.i8))
      BinOp.add_with_overflow BinOp.add true (place_addr slot none) (word i8 100) (word i8 50)
      (layout_for (int IntTy.i8)) (int_prim Integer.i8 true) (int_prim Integer.i8 false) (frame 0)
      (frame 0) (frame 0) (frame 0) refl tt refl refl refl refl refl refl (tt, pos 5, refl)
      (ground arith) refl refl refl refl (omega arith) (omega arith)
