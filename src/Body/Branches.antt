-- ===== src/Body/Branches.antt =====
-- src/base.rs: the branches that are emitted go where MIR says, whatever is known of the tested value.
use Prim.Native.String.{String}
use rustc_codegen_cranelift.Common.{
  ℕ, zero, suc, ◌<◌, ◌≡◌, refl, ap, ◌∙◌, Bool, true, false, not, ◌||◌, Option, none, some, ◌==◌,
  arith, List, [], ◌∷◌, if◌then◌else◌, inl, inr, ◌⊎◌,
}
use rustc_codegen_cranelift.Clif.{Ty, Clif}
use rustc_codegen_cranelift.Clif.Documented.{Documented}
use rustc_codegen_cranelift.Codegen.{Tcx, Cg, ok, bind-ok, pure}
use rustc_codegen_cranelift.Optimize.Peephole.{
  ValueDef, DefsDocumented, maybe_unwrap_bool_not, maybe_known_branch_taken,
}
use rustc_codegen_cranelift.Optimize.Meaning.{unwrapped-tests, known-taken}
use rustc_codegen_cranelift.PassMode.Params.{ArgAbi}
use rustc_codegen_cranelift.ValueAndPlace.{CValue}
use rustc_codegen_cranelift.ValueAndPlace
use rustc_codegen_cranelift.ValueAndPlace.Place.{CPlace}
use rustc_codegen_cranelift.Body.Syntax.{BasicBlockData}
use rustc_codegen_cranelift.Body.Terminators.{
  Block, mir_block, Exit, jump, brif, switch, return_values, trapped, is_bool, is_zero_test,
  branch_known, bool_branch, bool_switch, blocks_of, codegen_switch_int,
}

-- MIR: the block of the first target with the value, or the block otherwise.
unfoldable pub target_of : List (ℕ × ℕ) → ℕ → ℕ → ℕ
target_of [] otherwise n = otherwise
target_of ((value, bb) ∷ rest) otherwise n = if value == n then bb else target_of rest otherwise n

-- A Boolean is 0 or 1, and is compared with one of them.
unfoldable pub SwitchOk : Bool → List (ℕ × ℕ) → ℕ → Type 0
SwitchOk true ((value, _) ∷ []) n = (value < 2) × (n < 2)
SwitchOk true _ n = ⊥
SwitchOk false _ n = Unit {0}

unfoldable pub entry_for : List (ℕ × Block) → Block → ℕ → Block
entry_for [] otherwise n = otherwise
entry_for ((value, b) ∷ rest) otherwise n = if value == n then b else entry_for rest otherwise n

entry_for-blocks_of :
    (targets : List (ℕ × ℕ)) (otherwise n : ℕ)
    → entry_for (blocks_of targets) (mir_block otherwise) n
      ≡ mir_block (target_of targets otherwise n)
unfolding entry_for blocks_of target_of
entry_for-blocks_of [] otherwise n = refl
entry_for-blocks_of ((value, bb) ∷ rest) otherwise n =
    ground (arith, entry_for-blocks_of rest otherwise n)

-- A test that is turned round twice.
turned :
    (inverted zero_taken z w : Bool)
    → (if inverted then not w else w) ≡ z
    → (if (if inverted then not zero_taken else zero_taken) then w else not w)
      ≡ (if zero_taken then z else not z)
turned inverted zero_taken z w e = ground arith

module _ (c : Clif) (d : Documented c) where
  -- Where the block goes at run time.
  unfoldable pub goes : Exit c → Option Block
  unfolding entry_for
  goes (jump b) = some b
  goes (brif v b b') = some (if c.is_nonzero v then b else b')
  goes (switch v entries otherwise) = some (entry_for entries otherwise (d.bits v))
  goes (return_values _) = none
  goes trapped = none

module _ (c : Clif) (d : Documented c) (tcx : Tcx) (pointer_type : Ty) (depth : ℕ)
    (local_map : ℕ → Option (CPlace c)) (value_def : c.Value → ValueDef c)
    (defs : DefsDocumented c d value_def) (symbol : String → String)
    (caller_location : Option (CValue c)) (ret : ArgAbi) (mir : List BasicBlockData) where
  open c use {Value, Fx}
  open d use {bits}

  -- The truth of a test for zero, or of one that is not zero.
  abbrev test : Value → Bool → Bool
  test v test_zero = if test_zero then bits v == 0 else not (bits v == 0)

  branch_known-goes :
      (k : Option Bool) (v : Value) (test_zero : Bool) (then_block else_block : ℕ)
      → maybe_known_branch_taken c value_def v test_zero ≡ k
      → goes c d (
          branch_known c tcx pointer_type depth local_map value_def symbol caller_location ret mir k
            v test_zero then_block else_block)
        ≡ some (mir_block (if test v test_zero then then_block else else_block))
  unfolding branch_known goes
  branch_known-goes (some taken) v test_zero t e known =
      ap (λ b. some (mir_block (if b then t else e)))
        (known-taken c d value_def defs v test_zero taken known)
  branch_known-goes none v true t e known = rw (d.is_nonzero_bits v) (ground arith)
  branch_known-goes none v false t e known = rw (d.is_nonzero_bits v) (ground arith)

  bool_branch-goes :
      (v : Value) (zero_taken : Bool) (then_block else_block : ℕ)
      → goes c d (
          bool_branch c tcx pointer_type depth local_map value_def symbol caller_location ret mir v
            zero_taken then_block else_block)
        ≡ some (mir_block (if test v zero_taken then then_block else else_block))
  unfolding bool_branch
  bool_branch-goes v zero_taken t e =
      let u = maybe_unwrap_bool_not c value_def v in
      branch_known-goes _ u.0 (if u.1 then not zero_taken else zero_taken) t e refl
      ∙ ap (λ b. some (mir_block (if b then t else e)))
          (turned u.1 zero_taken (bits v == 0) (bits u.0 == 0)
            (unwrapped-tests c d value_def defs v))

  abbrev Goes : Cg c (Exit c) → Fx → Fx → ℕ → Type 0
  Goes m fx fx' bb =
      (exit : Exit c) × (m fx ≡ ok (exit, fx')) × (goes c d exit ≡ some (mir_block bb))

  -- `b` says that the switch is on Booleans, or tests for zero only.
  bool_switch-Goes :
      (v : Value) (value bb otherwise : ℕ) (fx : Fx)
      → (value ≡ 0) ⊎ ((value ≡ 1) × (bits v < 2))
      → Goes
          (bool_switch c tcx pointer_type depth local_map value_def symbol caller_location ret mir v
            ((value, bb) ∷ [])
            otherwise)
          fx
          fx
          (target_of ((value, bb) ∷ []) otherwise (bits v))
  unfolding bool_switch target_of
  bool_switch-Goes v value bb otherwise fx (inl zero_value) =
      (_, rw zero_value refl, bool_branch-goes v true bb otherwise ∙ rw zero_value (ground arith))
  bool_switch-Goes v value bb otherwise fx (inr (one, is_bit)) =
      (_, rw one refl, bool_branch-goes v false bb otherwise ∙ rw one (ground arith))

  abbrev emitted : CValue c → List (ℕ × ℕ) → ℕ → Cg c (Exit c)
  emitted =
      codegen_switch_int c tcx pointer_type depth local_map value_def symbol caller_location ret mir

  -- The code after the load of the value.
  chosen-Goes :
      (b z : Bool) (v : Value) (targets : List (ℕ × ℕ)) (otherwise : ℕ) (fx : Fx)
      → is_zero_test targets ≡ z
      → SwitchOk b targets (bits v)
      → Goes
          (if b || z
            then bool_switch c tcx pointer_type depth local_map value_def symbol caller_location ret
                mir v targets otherwise
            else pure (switch v (blocks_of targets) (mir_block otherwise)))
          fx
          fx
          (target_of targets otherwise (bits v))
  unfolding SwitchOk is_zero_test
  chosen-Goes true z v ((value, bb) ∷ []) otherwise fx e (small, is_bit) =
      bool_switch-Goes v value bb otherwise fx (below_two value small is_bit)
    where
      below_two : (n : ℕ) → n < 2 → bits v < 2 → (n ≡ 0) ⊎ ((n ≡ 1) × (bits v < 2))
      below_two zero h k = inl refl
      below_two (suc zero) h k = inr (refl, k)
      below_two (suc (suc n)) h k = absurd (omega arith)
  chosen-Goes true z v [] otherwise fx e h = absurd h
  chosen-Goes true z v (_ ∷ _ ∷ _) otherwise fx e h = absurd h
  chosen-Goes false true v ((value, bb) ∷ []) otherwise fx e h =
      bool_switch-Goes v value bb otherwise fx (inl (ground arith))
  chosen-Goes false true v [] otherwise fx e h = absurd (cc)
  chosen-Goes false true v (_ ∷ _ ∷ _) otherwise fx e h = absurd (cc)
  chosen-Goes false false v targets otherwise fx e h =
      (_, refl, unfold goes in ap some (entry_for-blocks_of targets otherwise (bits v)))

  -- A switch comes back with a branch to the block that MIR names for the value of the discriminant, also
  -- where the test is one of a negated value or has a result that is known. A Boolean is 0 or 1, and is
  -- switched on with one target.
  pub switch_int-goes :
      (v : CValue c) (discr : Value) (targets : List (ℕ × ℕ)) (otherwise : ℕ) (fx fx' : Fx)
      → ValueAndPlace.load_scalar c tcx pointer_type v fx ≡ ok (discr, fx')
      → SwitchOk (is_bool v.layout.ty) targets (bits discr)
      → (exit : Exit c) × (emitted v targets otherwise fx ≡ ok (exit, fx'))
        × (goes c d exit ≡ some (mir_block (target_of targets otherwise (bits discr))))
  unfolding codegen_switch_int
  switch_int-goes v discr targets otherwise fx fx' loaded h =
      let (exit, run, to) =
        chosen-Goes (is_bool v.layout.ty) _ discr targets otherwise fx' refl h in
      (
        exit,
        bind-ok (ValueAndPlace.load_scalar c tcx pointer_type v) _ discr fx fx' _ loaded run,
        to,
      )
