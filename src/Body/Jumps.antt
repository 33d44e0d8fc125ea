-- ===== src/Body/Jumps.antt =====
-- src/base.rs: the code of assertions and of jumps.
use Prim.Native.String.{String}
use rustc_codegen_cranelift.Common.{
  ℕ, ◌≡◌, refl, sym, ap, ◌∙◌, ◌⊎◌, inl, inr, Bool-cases, Bool, true, false, not, ◌&&◌, ◌||◌, Option,
  some, ◌==◌, arith, List, [], ◌∷◌, get_elem?, if◌then◌else◌,
}
use rustc_codegen_cranelift.Clif.{Ty, Clif}
use rustc_codegen_cranelift.Clif.Documented.{Documented}
use rustc_codegen_cranelift.Codegen.{Tcx, Cg, ok, panic, bind-ok, ◌>>=◌, pure, bool_eq}
use rustc_codegen_cranelift.Optimize.Peephole.{ValueDef}
use rustc_codegen_cranelift.PassMode.Params.{ArgAbi}
use rustc_codegen_cranelift.ValueAndPlace.{CValue}
use rustc_codegen_cranelift.ValueAndPlace.Place.{CPlace}
use rustc_codegen_cranelift.Body.Operands.{Operand, ConstValue}
use rustc_codegen_cranelift.Body.Statements.{codegen_stmt}
use rustc_codegen_cranelift.Body.Syntax.{
  Statement, storage_dead, Terminator, return, AssertKind, BasicBlockData,
}
use rustc_codegen_cranelift.Body.Terminators.{
  mir_block, failure, Exit, jump, brif, is_optional_overflow_check, scalar_operand, failed_assert,
  codegen_assert, can_immediately_return, is_storage_dead, is_return, codegen_goto, codegen_stmts,
  codegen_terminator, codegen_block, returned,
}
use rustc_codegen_cranelift.Body.Branches.{goes}

module _ (c : Clif) (tcx : Tcx) (pointer_type : Ty) (depth : ℕ) (local_map : ℕ → Option (CPlace c))
    (value_def : c.Value → ValueDef c) (symbol : String → String)
    (caller_location : Option (CValue c)) (ret : ArgAbi) (mir : List BasicBlockData) where
  open c use {Value, Fx}

  abbrev assertion : Operand → Bool → AssertKind → ℕ → Option ConstValue → Cg c (Exit c)
  assertion =
      codegen_assert c tcx pointer_type depth local_map value_def symbol caller_location ret mir

  -- Overflows are not checked, and the assertion is a check for one.
  abbrev pub unchecked : AssertKind → Bool
  unchecked msg = not tcx.overflow_checks && is_optional_overflow_check msg

  abbrev pub asserted : Documented c → Bool → AssertKind → Value → Bool
  asserted d expected msg v = unchecked msg || bool_eq expected (not (d.bits v == 0))

  brif-goes :
      (d : Documented c) (expected : Bool) (v : Value) (target : ℕ)
      → goes c d (
          if expected then brif v (mir_block target) failure else brif v failure (mir_block target))
        ≡ some (if bool_eq expected (not (d.bits v == 0)) then mir_block target else failure)
  unfolding goes
  brif-goes d true v target = rw (d.is_nonzero_bits v) refl
  brif-goes d false v target = rw (d.is_nonzero_bits v) (ground arith)

  -- An assertion goes on to its target exactly when the condition is as expected, or when it checks for an
  -- overflow in a session that does not; else it goes to the block of the failure.
  pub assert-goes :
      (d : Documented c) (cond : Operand) (expected : Bool) (msg : AssertKind) (target : ℕ)
      (loc : Option ConstValue) (v : Value) (fx fx1 fx2 : Fx)
      → scalar_operand c tcx pointer_type depth local_map value_def symbol caller_location ret mir
          cond fx
        ≡ ok (v, fx1)
      → failed_assert c tcx pointer_type depth local_map value_def symbol caller_location ret mir
          msg loc fx1
        ≡ ok (tt, fx2)
      → (exit : Exit c) × (fx' : Fx) × (assertion cond expected msg target loc fx ≡ ok (exit, fx'))
        × (goes c d exit ≡ some (if asserted d expected msg v then mir_block target else failure))
  unfolding codegen_assert
  assert-goes d cond expected msg target loc v fx fx1 fx2 loaded failed =
      by_check (unchecked msg) refl
    where
      by_check :
          (u : Bool)
          → unchecked msg ≡ u
          → (exit : Exit c) × (fx' : Fx) × (assertion cond expected msg target loc fx
              ≡ ok (exit, fx'))
            × (goes c d exit
                ≡ some (
                    if u || bool_eq expected (not (d.bits v == 0))
                    then mir_block target
                    else failure))
      by_check true e = (jump (mir_block target), fx, rw e refl, unfold goes in refl)
      by_check false e = (_, fx2, rw e (ground arith), brif-goes d expected v target)

  dead-statements :
      (ss : List Statement) (fx : Fx)
      → can_immediately_return ss ≡ true
      → codegen_stmts c tcx pointer_type depth local_map value_def symbol caller_location ret mir ss
          fx
        ≡ ok (tt, fx)
  unfolding can_immediately_return is_storage_dead codegen_stmts codegen_stmt
  dead-statements [] fx h = refl
  dead-statements (storage_dead l ∷ ss) fx h = dead-statements ss fx h
  dead-statements (_ ∷ ss) fx h = absurd (cc)

  abbrev returning : Cg c (Exit c)
  returning = returned c tcx pointer_type depth local_map value_def symbol caller_location ret mir

  abbrev pub then_some : Cg c (Exit c) → Cg c (Option (Exit c))
  then_some m = m >>= λ exit. pure (some exit)

  abbrev block_of : ℕ → Cg c (Exit c)
  block_of target =
      codegen_goto c tcx pointer_type depth local_map value_def symbol caller_location ret mir
        target

  abbrev pub code_of : BasicBlockData → Cg c (Option (Exit c))
  code_of block =
      codegen_block c tcx pointer_type depth local_map value_def symbol caller_location ret mir true
        block

  -- A return after statements without code has the code of its block.
  returning-block :
      (ss : List Statement) (fx : Fx)
      → can_immediately_return ss ≡ true
      → then_some returning fx
        ≡ code_of (record { statements = ss; terminator = return; is_cleanup = false }) fx
  unfolding codegen_block codegen_terminator
  returning-block ss fx dead = sym (
      bind-ok
        (codegen_stmts c tcx pointer_type depth local_map value_def symbol caller_location ret mir
          ss)
        (λ _. then_some returning) tt fx fx (then_some returning fx) (dead-statements ss fx dead)
        refl)

  goto-returned :
      (target : ℕ) (ss : List Statement) (fx : Fx)
      → get_elem? mir target
        ≡ some (record { statements = ss; terminator = return; is_cleanup = false })
      → can_immediately_return ss ≡ true
      → block_of target fx ≡ returning fx
  unfolding codegen_goto is_return
  goto-returned target ss fx found dead = rw found (rw dead refl)

  goto-jumps :
      (target : ℕ) (ss : List Statement) (fx : Fx)
      → get_elem? mir target
        ≡ some (record { statements = ss; terminator = return; is_cleanup = false })
      → can_immediately_return ss ≡ false
      → block_of target fx ≡ ok (jump (mir_block target), fx)
  unfolding codegen_goto is_return
  goto-jumps target ss fx found live = rw found (rw live refl)

  goto_either :
      (target : ℕ) (t : Terminator) (ss : List Statement) (fx : Fx)
      → get_elem? mir target ≡ some (record { statements = ss; terminator = t; is_cleanup = false })
      → (then_some (block_of target) fx ≡ ok (some (jump (mir_block target)), fx))
        ⊎ (then_some (block_of target) fx
            ≡ code_of (record { statements = ss; terminator = t; is_cleanup = false }) fx)
  unfolding codegen_goto is_return
  goto_either target return ss fx found = elim (Bool-cases (can_immediately_return ss)) [
    | inl dead ↦ inr (
        ap (λ r. elim r [ ok (a, fx') ↦ ok (some a, fx') | panic ↦ panic ])
          (goto-returned target ss fx found dead)
        ∙ returning-block ss fx dead)
    | inr live ↦ inl (
        ap (λ r. elim r [ ok (a, fx') ↦ ok (some a, fx') | panic ↦ panic ])
          (goto-jumps target ss fx found live))
  ]
  goto_either target _ ss fx found = inl (rw found refl)

  -- A jump to a block of the body that is not for unwinding, whatever its statements and its terminator are: it
  -- comes back with the jump, or it has the very code of the block, with its effects and its exit.
  pub goto-block :
      (target : ℕ) (block : BasicBlockData) (fx : Fx)
      → get_elem? mir target ≡ some block
      → block.is_cleanup ≡ false
      → (then_some
            (codegen_goto c tcx pointer_type depth local_map value_def symbol caller_location ret
              mir target)
            fx
          ≡ ok (some (jump (mir_block target)), fx))
        ⊎ (then_some
              (codegen_goto c tcx pointer_type depth local_map value_def symbol caller_location ret
                mir target)
              fx
            ≡ codegen_block c tcx pointer_type depth local_map value_def symbol caller_location ret
                mir true block fx)
  goto-block target block fx found kept = rw (ap (λ b. record block { is_cleanup = b }) kept) (
      goto_either target block.terminator block.statements fx
        (found ∙ ap (λ b. some (record block { is_cleanup = b })) kept))
