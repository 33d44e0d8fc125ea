-- ===== src/FunctionCx.antt =====
-- src/common.rs, the instruction sequences that the code generator shares: constants, comparisons
-- with a constant of 128 bits, and stack slots.
pub mod Slots
use rustc_codegen_cranelift.Common.{
  ℕ, ◌+◌, ◌-◌, ◌*◌, ◌/◌, ◌%◌, ◌^◌, Bool, true, false, ltb, leb, ◌<◌, ◌≡◌, arith, if◌then◌else◌,
}
use rustc_codegen_cranelift.Common.Int.{ℤ, pos, negsuc}
use rustc_codegen_cranelift.Common.Word.{to_word}
use rustc_codegen_cranelift.Clif.{
  Ty, i8, i16, i32, i64, i128, ty_eq, is_int, IntCc, Clif, iadd, band, bor, urem_imm, irsub_imm,
}
use rustc_codegen_cranelift.Codegen.{Tcx, Cg, pure, fail, assert, ◌>>=◌, ◌>>◌, ok}
use rustc_codegen_cranelift.Pointer.{Pointer}
use rustc_codegen_cranelift.Pointer

-- `n as u64 as i64` of an integer: its low 64 bits read as signed.
unfoldable pub as_i64 : ℤ → ℤ
as_i64 z =
    let low = to_word (2 ^ 64) z in if ltb low (2 ^ 63) then pos low else negsuc (2 ^ 64 - 1 - low)

pub as_i64-small : (n : ℕ) → n < 2 ^ 63 → as_i64 (pos n) ≡ pos n
unfolding as_i64
as_i64-small n h = ground arith

-- `(n as u128 >> 64) as u64 as i64`
unfoldable pub high_i64 : ℤ → ℤ
unfolding as_i64
high_i64 z = as_i64 (pos (to_word (2 ^ 128) z / 2 ^ 64))

module _ (c : Clif) where
  open c use {
    Value, Fx, value_type, iconst, binary, binary_imm, icmp_imm, select, iconcat, isplit,
    create_sized_stack_slot, stack_addr,
  }

  icmp_imm_i128 : IntCc → Value → Value → ℤ → ℤ → Value
  icmp_imm_i128 IntCc.equal lhs_lsb lhs_msb rhs_lsb rhs_msb =
      binary band (icmp_imm IntCc.equal lhs_lsb rhs_lsb) (icmp_imm IntCc.equal lhs_msb rhs_msb)
  icmp_imm_i128 IntCc.not_equal lhs_lsb lhs_msb rhs_lsb rhs_msb =
      binary bor (icmp_imm IntCc.not_equal lhs_lsb rhs_lsb)
        (icmp_imm IntCc.not_equal lhs_msb rhs_msb)
  icmp_imm_i128 intcc lhs_lsb lhs_msb rhs_lsb rhs_msb =
      select (icmp_imm IntCc.equal lhs_msb rhs_msb) (icmp_imm intcc lhs_lsb rhs_lsb)
        (icmp_imm intcc lhs_msb rhs_msb)

  unfoldable pub codegen_icmp_imm : IntCc → Value → ℤ → Value
  unfolding icmp_imm_i128 as_i64 high_i64
  codegen_icmp_imm intcc lhs rhs =
      if ty_eq (value_type lhs) i128
      then icmp_imm_i128 intcc (isplit lhs).0 (isplit lhs).1 (as_i64 rhs) (high_i64 rhs)
      else icmp_imm intcc lhs (as_i64 rhs)

  unfoldable pub type_zero_value : Ty → Value
  type_zero_value ty =
      if ty_eq ty i128 then iconcat (iconst i64 (pos 0)) (iconst i64 (pos 0)) else iconst ty (pos 0)

  -- A constant of 128 bits, in halves.
  unfoldable pub iconst_i128 : ℕ → Value
  iconst_i128 n = iconcat (iconst i64 (as_i64 (pos n))) (iconst i64 (high_i64 (pos n)))

  -- The constants that are written as `i64`: for the narrow types the bit pattern, zero extended.
  min_const : Ty → Bool → Cg c ℤ
  min_const i8 false = pure (pos 0)
  min_const i16 false = pure (pos 0)
  min_const i32 false = pure (pos 0)
  min_const i64 false = pure (pos 0)
  min_const i8 true = pure (pos (2 ^ 7))
  min_const i16 true = pure (pos (2 ^ 15))
  min_const i32 true = pure (pos (2 ^ 31))
  min_const i64 true = pure (negsuc (2 ^ 63 - 1))
  min_const _ _ = fail

  max_const : Ty → Bool → Cg c ℤ
  max_const i8 false = pure (pos (2 ^ 8 - 1))
  max_const i16 false = pure (pos (2 ^ 16 - 1))
  max_const i32 false = pure (pos (2 ^ 32 - 1))
  max_const i64 false = pure (as_i64 (pos (2 ^ 64 - 1)))
  max_const i8 true = pure (pos (2 ^ 7 - 1))
  max_const i16 true = pure (pos (2 ^ 15 - 1))
  max_const i32 true = pure (pos (2 ^ 31 - 1))
  max_const i64 true = pure (pos (2 ^ 63 - 1))
  max_const _ _ = fail

  min_max_i128 : Bool → Value × Value
  unfolding iconst_i128
  min_max_i128 true = (iconst_i128 (2 ^ 127), iconst_i128 (2 ^ 127 - 1))
  min_max_i128 false = (
    iconcat (iconst i64 (pos 0)) (iconst i64 (pos 0)),
    iconcat (iconst i64 (as_i64 (pos (2 ^ 64 - 1)))) (iconst i64 (as_i64 (pos (2 ^ 64 - 1)))),
  )

  min_max_narrow : Ty → Bool → Cg c (Value × Value)
  unfolding min_const max_const
  min_max_narrow ty signed = do
    min ← min_const ty signed
    max ← max_const ty signed
    pure (iconst ty min, iconst ty max)

  unfoldable pub type_min_max_value : Ty → Bool → Cg c (Value × Value)
  unfolding min_max_i128 min_max_narrow as_i64
  type_min_max_value ty signed = do
    assert (is_int ty)
    if ty_eq ty i128 then pure (min_max_i128 signed) else min_max_narrow ty signed

  module _ (tcx : Tcx) (pointer_type : Ty) where
    unfoldable pub abi_align : ℕ
    abi_align = if tcx.is_s390x then 8 else 16

    -- A slot of the rounded size, aligned to 16 bytes.
    unfoldable pub slot_for : ℕ → Cg c (Pointer c)
    slot_for size fx =
        let (slot, fx') = create_sized_stack_slot size 4 fx in
        ok (Pointer.stack_slot c pointer_type slot, fx')

    -- A larger slot, in which an aligned address is found at run time.
    unfoldable pub realigned : ℕ → ℕ → Cg c (Pointer c)
    realigned size align fx =
        let (slot, fx') = create_sized_stack_slot size 4 fx in
        let base_ptr = stack_addr pointer_type slot (pos 0) in
        let misalign_offset = binary_imm urem_imm base_ptr (pos align) in
        let realign_offset = binary_imm irsub_imm misalign_offset (pos align) in
        ok (Pointer.new c pointer_type (binary iadd base_ptr realign_offset), fx')

    -- The sums are those of `u32`, which wrap in a build without overflow checks.
    unfoldable pub create_stack_slot : ℕ → ℕ → Cg c (Pointer c)
    unfolding slot_for realigned abi_align
    create_stack_slot size align =
        if leb align abi_align
        then slot_for ((size + abi_align - 1) % 2 ^ 32 / abi_align * abi_align)
        else realigned ((size + align) % 2 ^ 32 / abi_align * abi_align) align
