-- ===== src/InlineAsm.antt =====
-- src/inline_asm.rs: the registers and the stack slots that the operands of an inline assembly block
-- take. The tables of a target's registers are those of rustc.
pub mod Registers
pub mod Clashes
pub mod Slots
pub mod Overlaps
pub mod SlotsApart
use rustc_codegen_cranelift.Common.{
  ℕ, Bool, true, false, Option, none, some, List, [], ◌∷◌, ◌==◌, ◌||◌, if◌then◌else◌,
}

-- rustc_target::asm: the registers of a class in the order in which they are tried, the registers that
-- share bits with a register, the class of a register, the sizes in bytes of the types that a class
-- holds, and the registers that a call clobbers.
pub record AsmTarget : Type 0 where
  pub allocatable : ℕ → List ℕ
  pub overlapping_regs : ℕ → List ℕ
  pub reg_class : ℕ → ℕ
  pub supported_sizes : ℕ → List ℕ
  pub clobbered_regs : List ℕ
  -- `Align::from_bytes`
  pub align_from_bytes : ℕ → Option ℕ

pub data RegOrRegClass : Type 0 where
  reg class : ℕ → RegOrRegClass

-- CInlineAsmOperand, over the values `V` and the places `P` of code generation. The name of a constant
-- or a symbol is not read here.
pub data Operand (V P : Type 0) : Type 0 where
  input : RegOrRegClass → V → Operand V P
  output : RegOrRegClass → Bool → Option P → Operand V P
  in_out : RegOrRegClass → Bool → V → Option P → Operand V P
  constant symbol : Operand V P

-- The map of the allocated registers: used for input, used for output.
abbrev pub Allocated : Type 0
Allocated = ℕ → Option (Bool × Bool)

abbrev pub or_default : Option (Bool × Bool) → Bool × Bool
or_default none = (false, false)
or_default (some p) = p

-- `allocated.contains_key(&r)`, `allocated.get(&r).copied().unwrap_or_default().0` and `.1`
abbrev pub contains_key : Allocated → ℕ → Bool
contains_key a r = elim (a r) [ none ↦ false | some p ↦ true ]

abbrev pub used_in : Allocated → ℕ → Bool
used_in a r = (or_default (a r)).0

abbrev pub used_out : Allocated → ℕ → Bool
used_out a r = (or_default (a r)).1

-- `allocated.insert(reg, entry)`
abbrev pub insert : Allocated → ℕ → Bool × Bool → Allocated
insert a r entry s = if r == s then some entry else a s

-- `allocated.entry(reg).or_default().0 = true` and `.1 = true`
abbrev pub mark_in : Allocated → ℕ → Allocated
mark_in a r = insert a r (true, used_out a r)

abbrev pub mark_out : Allocated → ℕ → Allocated
mark_out a r = insert a r (used_in a r, true)

-- Does the test hold of a register of the list?
unfoldable pub any : (ℕ → Bool) → List ℕ → Bool
any test [] = false
any test (r ∷ rs) = test r || any test rs

-- The first register of the class that overlaps with no register of which the test holds.
unfoldable pub first_free : AsmTarget → (ℕ → Bool) → List ℕ → Option ℕ
unfolding any
first_free target test [] = none
first_free target test (r ∷ rs) =
    if any test (target.overlapping_regs r) then first_free target test rs else some r
