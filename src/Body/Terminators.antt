-- ===== src/Body/Terminators.antt =====
-- src/base.rs, the terminators in `codegen_fn_body`: where control goes at the end of a block. A block of MIR is
-- its own number here, and `failure` the block that an assertion creates.
use Prim.Native.String.{String}
use rustc_codegen_cranelift.Common.{
  ℕ, ◌==◌, Bool, true, false, not, ◌&&◌, ◌||◌, Option, none, some, List, [], ◌∷◌, get_elem?,
  if◌then◌else◌,
}
use rustc_codegen_cranelift.Clif.{Ty, Clif}
use rustc_codegen_cranelift.Codegen.{Tcx, Cg, pure, fail, unwrap, writes, ◌>>=◌, ◌>>◌, RustTy, bool}
use rustc_codegen_cranelift.Panics.{codegen_panic_inner}
use rustc_codegen_cranelift.Optimize.Peephole.{
  ValueDef, maybe_unwrap_bool_not, maybe_known_branch_taken,
}
use rustc_codegen_cranelift.PassMode.Params.{ArgAbi}
use rustc_codegen_cranelift.Returns.{codegen_return}
use rustc_codegen_cranelift.ValueAndPlace.{CValue}
use rustc_codegen_cranelift.ValueAndPlace
use rustc_codegen_cranelift.ValueAndPlace.Place.{CPlace}
use rustc_codegen_cranelift.Body.Operands.{
  Operand, ConstValue, codegen_operand, codegen_const_value,
}
use rustc_codegen_cranelift.Body.Statements.{codegen_stmt}
use rustc_codegen_cranelift.Body.Syntax.{
  Statement, storage_dead, AssertKind, bounds_check, misaligned_pointer_dereference, other_assert,
  Terminator, goto, return, unwind_resume, unreachable, not_at_codegen, assert_that, switch_int,
  unwind_terminate, BasicBlockData,
}

pub data Block : Type 0 where
  mir_block : ℕ → Block
  failure : Block

-- The last instruction of a block. A switch of cranelift_frontend goes to the block of the entry with the value.
pub data Exit (c : Clif) : Type 0 where
  jump : Block → Exit c
  brif : c.Value → Block → Block → Exit c
  switch : c.Value → List (ℕ × Block) → Block → Exit c
  return_values : List c.Value → Exit c
  trapped : Exit c

-- May the assertion be left out when overflows are not checked?
unfoldable pub is_optional_overflow_check : AssertKind → Bool
is_optional_overflow_check (other_assert _ optional) = optional
is_optional_overflow_check _ = false

unfoldable pub is_storage_dead : Statement → Bool
is_storage_dead (storage_dead _) = true
is_storage_dead _ = false

unfoldable pub can_immediately_return : List Statement → Bool
unfolding is_storage_dead
can_immediately_return [] = true
can_immediately_return (s ∷ ss) = is_storage_dead s && can_immediately_return ss

unfoldable pub is_bool : RustTy → Bool
is_bool bool = true
is_bool _ = false

-- One target, with the value 0.
unfoldable pub is_zero_test : List (ℕ × ℕ) → Bool
is_zero_test ((value, _) ∷ []) = value == 0
is_zero_test _ = false

unfoldable pub blocks_of : List (ℕ × ℕ) → List (ℕ × Block)
blocks_of [] = []
blocks_of ((value, bb) ∷ rest) = (value, mir_block bb) ∷ blocks_of rest

-- `symbol` names the function of a lang item, and `caller_location` is the implicit argument.
module _ (c : Clif) (tcx : Tcx) (pointer_type : Ty) (depth : ℕ) (local_map : ℕ → Option (CPlace c))
    (value_def : c.Value → ValueDef c) (symbol : String → String)
    (caller_location : Option (CValue c)) (ret : ArgAbi) (mir : List BasicBlockData) where
  open c use {Value, trap}

  abbrev operand : Operand → Cg c (CValue c)
  operand = codegen_operand c tcx pointer_type depth local_map

  unfoldable pub scalar_operand : Operand → Cg c Value
  unfolding codegen_operand ValueAndPlace.load_scalar
  scalar_operand o = operand o >>= ValueAndPlace.load_scalar c tcx pointer_type

  location_value : Option ConstValue → Cg c (CValue c)
  unfolding codegen_const_value
  location_value none = unwrap caller_location
  location_value (some const_loc) =
      codegen_const_value c tcx pointer_type const_loc tcx.caller_location_ty

  -- `get_caller_location`, as a pointer.
  location_scalar : Option ConstValue → Cg c Value
  unfolding location_value ValueAndPlace.load_scalar
  location_scalar loc = location_value loc >>= ValueAndPlace.load_scalar c tcx pointer_type

  panic_call : String → List Value → Cg c (Unit {0})
  unfolding codegen_panic_inner
  panic_call item args = codegen_panic_inner c tcx pointer_type (symbol item) args

  -- What stands in the block of the failure. It changes the state of that block only.
  unfoldable pub failed_assert : AssertKind → Option ConstValue → Cg c (Unit {0})
  unfolding scalar_operand location_scalar panic_call
  failed_assert (bounds_check len index) loc = do
    l ← scalar_operand len
    i ← scalar_operand index
    location ← location_scalar loc
    panic_call "panic_bounds_check" (i ∷ l ∷ location ∷ [])
  failed_assert (misaligned_pointer_dereference required found) loc = do
    r ← scalar_operand required
    f ← scalar_operand found
    location ← location_scalar loc
    panic_call "panic_misaligned_pointer_dereference" (r ∷ f ∷ location ∷ [])
  failed_assert (other_assert panic_function _) loc = do
    location ← location_scalar loc
    panic_call panic_function (location ∷ [])

  unfoldable pub codegen_assert :
      Operand → Bool → AssertKind → ℕ → Option ConstValue → Cg c (Exit c)
  unfolding is_optional_overflow_check scalar_operand failed_assert
  codegen_assert cond expected msg target loc =
      if not tcx.overflow_checks && is_optional_overflow_check msg
      then pure (jump (mir_block target))
      else (do
        v ← scalar_operand cond
        failed_assert msg loc
        pure (
            if expected
            then brif v (mir_block target) failure
            else brif v failure (mir_block target)))

  -- A branch on a value that is tested to be zero, or not to be, when it is known to be taken or not.
  unfoldable pub branch_known : Option Bool → Value → Bool → ℕ → ℕ → Exit c
  branch_known (some taken) tested test_zero then_block else_block =
      jump (mir_block (if taken then then_block else else_block))
  branch_known none tested test_zero then_block else_block =
      if test_zero
      then brif tested (mir_block else_block) (mir_block then_block)
      else brif tested (mir_block then_block) (mir_block else_block)

  unfoldable pub bool_branch : Value → Bool → ℕ → ℕ → Exit c
  unfolding maybe_unwrap_bool_not maybe_known_branch_taken branch_known
  bool_branch discr zero_taken then_block else_block =
      let (tested, is_inverted) = maybe_unwrap_bool_not c value_def discr in
      let test_zero = if is_inverted then not zero_taken else zero_taken in
      branch_known (maybe_known_branch_taken c value_def tested test_zero) tested test_zero
        then_block else_block

  -- A value other than 0 and 1 is no value of a Boolean.
  unfoldable pub bool_switch : Value → List (ℕ × ℕ) → ℕ → Cg c (Exit c)
  unfolding bool_branch
  bool_switch discr ((value, then_block) ∷ []) otherwise =
      if value == 0
      then pure (bool_branch discr true then_block otherwise)
      else if value == 1
      then pure (bool_branch discr false then_block otherwise)
      else fail
  bool_switch discr _ otherwise = fail

  unfoldable pub codegen_switch_int : CValue c → List (ℕ × ℕ) → ℕ → Cg c (Exit c)
  unfolding is_bool is_zero_test blocks_of bool_switch ValueAndPlace.load_scalar
  codegen_switch_int v targets otherwise = do
    discr ← ValueAndPlace.load_scalar c tcx pointer_type v
    if is_bool v.layout.ty || is_zero_test targets
        then bool_switch discr targets otherwise
        else pure (switch discr (blocks_of targets) (mir_block otherwise))

  -- `RETURN_PLACE` is the local 0.
  unfoldable pub returned : Cg c (Exit c)
  unfolding codegen_return
  returned = do
    place ← unwrap (local_map 0)
    vs ← codegen_return c tcx pointer_type ret place
    pure (return_values vs)

  unfoldable pub is_return : Terminator → Bool
  is_return return = true
  is_return _ = false

  -- A jump to a block that only returns is a return.
  unfoldable pub codegen_goto : ℕ → Cg c (Exit c)
  unfolding is_return can_immediately_return returned
  codegen_goto target = do
    block ← unwrap (get_elem? mir target)
    if is_return block.terminator && can_immediately_return block.statements
        then returned
        else pure (jump (mir_block target))

  unfoldable pub codegen_terminator : Terminator → Cg c (Exit c)
  unfolding codegen_goto returned codegen_assert codegen_switch_int codegen_operand panic_call
  codegen_terminator (goto target) = codegen_goto target
  codegen_terminator return = returned
  codegen_terminator (assert_that cond expected msg target loc) =
      codegen_assert cond expected msg target loc
  codegen_terminator (switch_int discr targets otherwise) =
      operand discr >>= λ v. codegen_switch_int v targets otherwise
  codegen_terminator (unwind_terminate item) = panic_call item [] >> pure trapped
  codegen_terminator unwind_resume = writes (trap 1) >> pure trapped
  codegen_terminator unreachable = writes (trap 1) >> pure trapped
  codegen_terminator not_at_codegen = fail

  unfoldable pub codegen_stmts : List Statement → Cg c (Unit {0})
  unfolding codegen_stmt
  codegen_stmts [] = pure tt
  codegen_stmts (s ∷ ss) = codegen_stmt c tcx pointer_type depth local_map s >> codegen_stmts ss

  -- A block of the body: unreachable ones trap, and those for unwinding have no code.
  unfoldable pub codegen_block : Bool → BasicBlockData → Cg c (Option (Exit c))
  unfolding codegen_stmts codegen_terminator
  codegen_block reachable block =
      if not reachable
      then (writes (trap 1) >> pure (some trapped))
      else if block.is_cleanup
      then pure none
      else (codegen_stmts block.statements
          >> (codegen_terminator block.terminator >>= λ exit. pure (some exit)))
