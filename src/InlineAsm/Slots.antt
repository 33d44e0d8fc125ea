-- ===== src/InlineAsm/Slots.antt =====
-- src/inline_asm.rs, `allocate_stack_slots`: where the registers are saved, and where the operands lie between
-- the code around the assembly and the assembly.
use rustc_codegen_cranelift.Common.{
  ℕ, ◌+◌, Bool, not, max, Option, none, some, List, [], ◌∷◌, ◌==◌, if◌then◌else◌, set, replicate,
  length,
}
use rustc_codegen_cranelift.Codegen.{Result, ok, panic}
use rustc_codegen_cranelift.ValueAndPlace.{align_to}
use rustc_codegen_cranelift.InlineAsm.{
  AsmTarget, RegOrRegClass, reg, class, Operand, input, output, in_out, any,
}

pub record Slots : Type 0 where
  pub clobber : List (Option ℕ)
  pub input : List (Option ℕ)
  pub output : List (Option ℕ)
  pub slot_size : ℕ

-- The greatest number of the list, if there is one.
unfoldable pub greatest : List ℕ → Option ℕ
greatest [] = none
greatest (n ∷ ns) = elim (greatest ns) [ none ↦ some n | some m ↦ some (max n m) ]

module _ (target : AsmTarget) where
  -- The class of an operand's register.
  unfoldable pub class_of : RegOrRegClass → ℕ
  class_of (reg r) = target.reg_class r
  class_of (class k) = k

  -- `new_slot_fn`: the place of the slot, and the size with it.
  unfoldable pub new_slot : ℕ → ℕ → Result (ℕ × ℕ)
  unfolding greatest align_to
  new_slot slot_size k = elim (greatest (target.supported_sizes k)) [
    | none ↦ panic
    | some reg_size ↦ elim (target.align_from_bytes reg_size) [
      | none ↦ panic
      | some align ↦ ok (align_to slot_size align, align_to slot_size align + reg_size)
    ]
  ]

  -- A register that a call clobbers need not be saved.
  unfoldable pub need_save : ℕ → Bool
  unfolding any
  need_save r = not (any (λ x. any (λ y. y == r) (target.overlapping_regs x)) target.clobbered_regs)

  -- The class of the slot that is wanted, if one is, for a register, and in the three rounds for the
  -- operands.
  unfoldable pub wants_save : Option ℕ → Option ℕ
  unfolding need_save
  wants_save none = none
  wants_save (some r) = if need_save r then some (target.reg_class r) else none

  unfoldable pub wants_in_out : {V P : Type 0} → Operand V P → Option ℕ
  unfolding class_of
  wants_in_out (in_out r _ _ (some _)) = some (class_of r)
  wants_in_out _ = none

  unfoldable pub wants_input : {V P : Type 0} → Operand V P → Option ℕ
  unfolding class_of
  wants_input (input r _) = some (class_of r)
  wants_input (in_out r _ _ none) = some (class_of r)
  wants_input _ = none

  unfoldable pub wants_output : {V P : Type 0} → Operand V P → Option ℕ
  unfolding class_of
  wants_output (output r _ (some _)) = some (class_of r)
  wants_output _ = none

  -- The slot for the item at index `i`, in the list of slots.
  unfoldable pub slot_step : ℕ → Option ℕ → ℕ × List (Option ℕ) → Result (ℕ × List (Option ℕ))
  unfolding new_slot
  slot_step i none s = ok s
  slot_step i (some k) (size, slots) = elim (new_slot size k) [
    | panic ↦ panic
    | ok (offset, size') ↦ ok (size', set slots i (some offset))
  ]

  unfoldable pub round :
      {A : Type 0}
      → (A → Option ℕ)
      → ℕ
      → List A
      → ℕ × List (Option ℕ)
      → Result (ℕ × List (Option ℕ))
  unfolding slot_step
  round wants i [] s = ok s
  round wants i (x ∷ xs) s = elim (slot_step i (wants x) s) [
    | panic ↦ panic
    | ok s' ↦ round wants (i + 1) xs s'
  ]

  infixl 5 ◌then◌
  abbrev ◌then◌ : {A B : Type 0} → Result A → (A → Result B) → Result B
  r then f = elim r [ panic ↦ panic | ok a ↦ f a ]

  -- The lists of the inputs and of the outputs are one list until the inputs have their round. The
  -- outputs start where the inputs started.
  unfoldable pub allocate_stack_slots :
      {V P : Type 0} → List (Option ℕ) → List (Operand V P) → Result Slots
  unfolding round wants_save wants_in_out wants_input wants_output
  allocate_stack_slots registers os =
      let empty = replicate (length os) none in
      round wants_save 0 registers (0, empty) then λ saved.
      round wants_in_out 0 os (saved.0, empty) then λ both. round wants_input 0 os both then λ ins.
      round wants_output 0 os both then λ outs.
      ok
        (record { clobber = saved.1; input = ins.1; output = outs.1; slot_size = max outs.0 ins.0 })
