-- ===== src/Examples/Assembly.antt =====
-- The theorems on inline assembly at concrete operands.
use rustc_codegen_cranelift.Common.{
  ℕ, ◌≡◌, refl, ◌+◌, ◌≤◌, ◌<◌, ◌==◌, false, true, Option, none, some, List, [], ◌∷◌, arith,
  if◌then◌else◌, ◌⊎◌,
}
use rustc_codegen_cranelift.InlineAsm.{
  AsmTarget, class, Operand, input, output, in_out, any, first_free,
}
use rustc_codegen_cranelift.InlineAsm.Registers.{allocate_registers, take_reg}
use rustc_codegen_cranelift.InlineAsm.Clashes.{overlap, registers_never_clash}
use rustc_codegen_cranelift.InlineAsm.Slots.{allocate_stack_slots}
use rustc_codegen_cranelift.InlineAsm.SlotsApart.{
  saved, entering, together, slots_of, slot_bytes, stack_slots_never_overlap,
}

-- Three registers of one class, of which calls clobber the first.
abbrev target : AsmTarget
target = record {
  allocatable = λ k. 0 ∷ 1 ∷ 2 ∷ [];
  overlapping_regs = λ r. r ∷ [];
  reg_class = λ r. 0;
  supported_sizes = λ k. 1 ∷ 4 ∷ 8 ∷ [];
  clobbered_regs = 0 ∷ [];
  align_from_bytes = λ n. if n == 0 then none else some n;
}

abbrev operands : List (Operand ℕ ℕ)
operands =
    in_out (class 0) false 10 (some 20) ∷ input (class 0) 11 ∷ output (class 0) true (some 21) ∷ []

abbrev registers : List (Option ℕ)
registers = some 0 ∷ some 1 ∷ some 1 ∷ []

apart_both_ways : (x y : ℕ) → overlap target x y ≡ false → overlap target y x ≡ false
unfolding overlap any
apart_both_ways x y h = ground arith

never_zero : (n a : ℕ) → target.align_from_bytes n ≡ some a → 0 < a
never_zero n a h = ground arith

registers_never_clash_example : overlap target 0 1 ≡ false
unfolding allocate_registers any first_free take_reg
registers_never_clash_example =
    registers_never_clash ℕ ℕ target operands registers 0 1 (in_out (class 0) false 10 (some 20))
      (input (class 0) 11) 0 1 apart_both_ways refl (ground arith) refl refl refl refl refl

-- The input and a saved register.
stack_slots_never_overlap_example :
    ((0 + slot_bytes ℕ ℕ target registers operands saved 1 ≤ 24)
      ⊎ (24 + slot_bytes ℕ ℕ target registers operands entering 1 ≤ 0))
    × (0 + slot_bytes ℕ ℕ target registers operands saved 1 ≤ 32)
    × (24 + slot_bytes ℕ ℕ target registers operands entering 1 ≤ 32)
unfolding allocate_stack_slots slots_of together
stack_slots_never_overlap_example =
    stack_slots_never_overlap ℕ ℕ target registers operands never_zero
      (record {
        clobber = none ∷ some 0 ∷ some 8 ∷ [];
        input = some 16 ∷ some 24 ∷ none ∷ [];
        output = some 16 ∷ none ∷ some 24 ∷ [];
        slot_size = 32;
      })
      saved entering 1 1 0 24 refl refl refl refl
