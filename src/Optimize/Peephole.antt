-- ===== src/Optimize/Peephole.antt =====
-- src/optimize/peephole.rs: what is known of a value from the instruction that defines it. The data flow
-- graph of Cranelift is a parameter, with what it documents of instructions.
use rustc_codegen_cranelift.Common.{
  ℕ, ◌^◌, ◌≡◌, Bool, true, false, not, Option, none, some, bit, zero, if◌then◌else◌,
}
use rustc_codegen_cranelift.Common.Int.{ℤ, pos, eqb_ℤ}
use rustc_codegen_cranelift.Common.Word.{to_word, out_of_range}
use rustc_codegen_cranelift.Clif.{IntCc, Clif}
use rustc_codegen_cranelift.Clif.Documented.{Documented, int_cc, modulus, half}

-- cranelift_codegen::ir::InstructionData, as far as it is matched on, and ValueDef.
pub data Opcode : Type 0 where
  iconst other_opcode : Opcode

pub data InstructionData (c : Clif) : Type 0 where
  int_compare_imm : IntCc → c.Value → ℤ → InstructionData c
  unary_imm : Opcode → ℤ → InstructionData c
  other_instruction : InstructionData c

pub data ValueDef (c : Clif) : Type 0 where
  result : InstructionData c → ℕ → ValueDef c
  not_a_result : ValueDef c

module _ (c : Clif) (value_def : c.Value → ValueDef c) where
  open c use {Value}

  unwrap_inst : InstructionData c → Value → Value × Bool
  unwrap_inst (int_compare_imm IntCc.equal inner imm) arg =
      if eqb_ℤ imm (pos 0) then (inner, true) else (arg, false)
  unwrap_inst _ arg = (arg, false)

  unwrap_not : ValueDef c → Value → Value × Bool
  unfolding unwrap_inst
  unwrap_not (result inst zero) arg = unwrap_inst inst arg
  unwrap_not _ arg = (arg, false)

  unfoldable pub maybe_unwrap_bool_not : Value → Value × Bool
  unfolding unwrap_not
  maybe_unwrap_bool_not arg = unwrap_not (value_def arg) arg

  known_inst : InstructionData c → Bool → Option Bool
  known_inst (unary_imm iconst imm) test_zero =
      some (if test_zero then eqb_ℤ imm (pos 0) else not (eqb_ℤ imm (pos 0)))
  known_inst _ test_zero = none

  known_taken : ValueDef c → Bool → Option Bool
  unfolding known_inst
  known_taken (result inst zero) test_zero = known_inst inst test_zero
  known_taken _ test_zero = none

  unfoldable pub maybe_known_branch_taken : Value → Bool → Option Bool
  unfolding known_taken
  maybe_known_branch_taken arg test_zero = known_taken (value_def arg) test_zero

-- A value that an instruction defines is the one that the instruction gives. The immediate of a constant
-- is 64 bits wide and zero extended.
pub record DefsDocumented (c : Clif) (d : Documented c) (value_def : c.Value → ValueDef c)
    : Type 0 where
  pub compare_def :
      (v a : c.Value) (cc : IntCc) (n : ℤ)
      → value_def v ≡ result (int_compare_imm cc a n) 0
      → d.bits v
        ≡ bit (int_cc cc (half (c.value_type a)) (d.bits a) (to_word (modulus (c.value_type a)) n))
  pub const_def :
      (v : c.Value) (n : ℤ)
      → value_def v ≡ result (unary_imm iconst n) 0
      → (out_of_range (2 ^ 63) n ≡ false) × (d.bits v ≡ to_word (2 ^ 64) n)
