-- ===== src/InlineAsm/Registers.antt =====
-- src/inline_asm.rs, `allocate_registers`: explicit registers first, then the classes of operands that
-- are both read and written or written early, then inputs and late outputs.
use rustc_codegen_cranelift.Common.{
  ℕ, ◌+◌, true, false, Option, none, some, List, [], ◌∷◌, set, replicate, length,
}
use rustc_codegen_cranelift.Codegen.{Result, ok, panic}
use rustc_codegen_cranelift.InlineAsm.{
  AsmTarget, reg, class, Operand, input, output, in_out, Allocated, contains_key, used_in, used_out,
  insert, mark_in, mark_out, first_free,
}

pub record Allocation : Type 0 where
  pub allocated : Allocated
  pub regs : List (Option ℕ)

-- A register for operand `i`, and the map with it.
abbrev pub assigned : Allocation → ℕ → ℕ → Allocated → Allocation
assigned s i r a = record { allocated = a; regs = set s.regs i (some r) }

-- The three passes, each the step for one operand.
unfoldable pub explicit_step : {V P : Type 0} → ℕ → Operand V P → Allocation → Allocation
explicit_step i (input (reg r) _) s = assigned s i r (mark_in s.allocated r)
explicit_step i (output (reg r) true _) s = assigned s i r (mark_out s.allocated r)
explicit_step i (output (reg r) false _) s = assigned s i r (insert s.allocated r (true, true))
explicit_step i (in_out (reg r) _ _ _) s = assigned s i r (insert s.allocated r (true, true))
explicit_step i _ s = s

-- The register that was found, or `expect("cannot allocate registers")`.
unfoldable pub take_reg : Allocation → ℕ → (ℕ → Allocated) → Option ℕ → Result Allocation
take_reg s i mark none = panic
take_reg s i mark (some r) = ok (assigned s i r (mark r))

module _ (target : AsmTarget) where
  unfoldable pub both_step : {V P : Type 0} → ℕ → Operand V P → Allocation → Result Allocation
  both_step i (output (class k) false _) s =
      take_reg s i (λ r. insert s.allocated r (true, true))
        (first_free target (contains_key s.allocated) (target.allocatable k))
  both_step i (in_out (class k) _ _ _) s =
      take_reg s i (λ r. insert s.allocated r (true, true))
        (first_free target (contains_key s.allocated) (target.allocatable k))
  both_step i _ s = ok s

  unfoldable pub single_step : {V P : Type 0} → ℕ → Operand V P → Allocation → Result Allocation
  single_step i (input (class k) _) s =
      take_reg s i (mark_in s.allocated)
        (first_free target (used_in s.allocated) (target.allocatable k))
  single_step i (output (class k) true _) s =
      take_reg s i (mark_out s.allocated)
        (first_free target (used_out s.allocated) (target.allocatable k))
  single_step i _ s = ok s

-- A pass over the operands from index `i`.
unfoldable pub pass :
    {V P : Type 0}
    → (ℕ → Operand V P → Allocation → Result Allocation)
    → ℕ
    → List (Operand V P)
    → Allocation
    → Result Allocation
pass step i [] s = ok s
pass step i (o ∷ os) s = elim (step i o s) [ ok s' ↦ pass step (i + 1) os s' | panic ↦ panic ]

abbrev pub no_registers : {V P : Type 0} → List (Operand V P) → Allocation
no_registers os = record { allocated = λ r. none; regs = replicate (length os) none }

unfoldable pub allocate_registers :
    {V P : Type 0} → AsmTarget → List (Operand V P) → Result (List (Option ℕ))
unfolding pass explicit_step both_step single_step
allocate_registers target os =
    elim (pass (λ i o s. ok (explicit_step i o s)) 0 os (no_registers os)) [
      | panic ↦ panic
      | ok s ↦ elim (pass (both_step target) 0 os s) [
        | panic ↦ panic
        | ok s' ↦ elim (pass (single_step target) 0 os s') [ panic ↦ panic | ok s'' ↦ ok s''.regs ]
      ]
    ]
