-- ===== src/FunctionCx/Slots.antt =====
-- src/common.rs, `create_stack_slot`: where the address that it gives lies.
use rustc_codegen_cranelift.Common.{
  ℕ, ◌+◌, ◌-◌, ◌*◌, ◌/◌, ◌%◌, ◌^◌, ◌≤◌, ◌<◌, ◌≡◌, refl, ap, ◌∙◌, ◌⊎◌, inl, inr, false, leb,
  Bool-cases, leb→le, arith,
}
use native.Mathlib.Nat.{mod-lt, div-add-mod, mul-mod_right}
use rustc_codegen_cranelift.Common.Int.{pos}
use rustc_codegen_cranelift.Common.Word.{mod_below, mod_above}
use rustc_codegen_cranelift.Clif.{Ty, Clif, iadd, urem_imm, irsub_imm}
use rustc_codegen_cranelift.Clif.Documented.{Documented, modulus}
use rustc_codegen_cranelift.Codegen.{Tcx, ok}
use rustc_codegen_cranelift.Pointer.{Pointer}
use rustc_codegen_cranelift.Pointer
use rustc_codegen_cranelift.FunctionCx.{create_stack_slot, abi_align}

-- The alignments: up to 16 the powers of two, and above it multiples of 16.
unfoldable pub IsAlignment : ℕ → Type 0
IsAlignment a = ((a ≡ 1) ⊎ ((a ≡ 2) ⊎ ((a ≡ 4) ⊎ ((a ≡ 8) ⊎ (a ≡ 16))))) ⊎ ((16 < a) × (a % 16 ≡ 0))

small_aligned : (base a : ℕ) → base % 16 ≡ 0 → IsAlignment a → a ≤ 16 → base % a ≡ 0
unfolding IsAlignment
small_aligned base a h (inl k) l = ground arith
small_aligned base a h (inr k) l = absurd (omega arith)

whole_slots :
    (size align : ℕ)
    → IsAlignment align
    → 16 < align
    → size % 16 ≡ 0
    → size + align ≤ (size + align) / 16 * 16
unfolding IsAlignment
whole_slots size align (inl k) l h = absurd (ground arith)
whole_slots size align (inr k) l h = omega arith

next_multiple : (base a : ℕ) → 0 < a → (base + (a - base % a)) % a ≡ 0
next_multiple base a h =
    ap (λ x. x % a) (omega (arith, div-add-mod base a, mod-lt base h))
    ∙ mul-mod_right a (base / a + 1)

realigned_word :
    (base align m : ℕ)
    → 0 < align
    → align < m
    → base + align < m
    → (base + (align % m + m - base % align) % m) % m ≡ base + (align - base % align)
realigned_word base align m p h k =
    ap (λ x. (base + (x + m - base % align) % m) % m) (mod_below align m h)
    ∙ ap (λ x. (base + x) % m)
        (mod_above (align + m - base % align) m (omega (arith, mod-lt base p))
          (omega (arith, mod-lt base p)))
    ∙ mod_below (base + (align + m - base % align - m)) m (omega arith)
    ∙ omega (arith, mod-lt base p)

module _ (c : Clif) (d : Documented c) (tcx : Tcx) (pointer_type : Ty) where
  open d use {bits, slot_base}

  -- A slot of `n` bytes that is created in the state `fx` begins here.
  abbrev base_of : ℕ → c.Fx → ℕ
  base_of n fx = slot_base (c.create_sized_stack_slot n 4 fx).0

  base_bits :
      (s : c.StackSlot)
      → slot_base s < modulus pointer_type
      → bits (c.stack_addr pointer_type s (pos 0)) ≡ slot_base s
  base_bits s h = rw (d.stack_addr_bits pointer_type s (pos 0)) (
      ground
        (arith, mod_below 0 (modulus pointer_type), mod_below (slot_base s) (modulus pointer_type)))

  abbrev realigned_addr : c.StackSlot → ℕ → c.Value
  realigned_addr s align =
      let base_ptr = c.stack_addr pointer_type s (pos 0) in
      c.binary iadd base_ptr
        (c.binary_imm irsub_imm (c.binary_imm urem_imm base_ptr (pos align)) (pos align))

  realigned_bits :
      (s : c.StackSlot) (align : ℕ)
      → 0 < align
      → align < modulus pointer_type
      → slot_base s + align < modulus pointer_type
      → bits (realigned_addr s align) ≡ slot_base s + (align - slot_base s % align)
  realigned_bits s align p h k =
      rw
        (
          d.iadd_bits,
          d.irsub_imm_bits,
          d.imm_type,
          d.stack_addr_type,
          d.urem_imm_bits (c.stack_addr pointer_type s (pos 0)) align p (rw (d.stack_addr_type) h),
          base_bits s (omega arith),
        )
        (realigned_word (slot_base s) align (modulus pointer_type) p h k)

  -- The address that a pointer stands for lies in the slot, is aligned, and leaves `size` bytes.
  abbrev Fits : ℕ → ℕ → ℕ → c.Fx → Pointer c → Type 0
  Fits size align n fx p =
      (bits (Pointer.get_addr c pointer_type p) % align ≡ 0)
      × (base_of n fx ≤ bits (Pointer.get_addr c pointer_type p))
      × (bits (Pointer.get_addr c pointer_type p) + size ≤ base_of n fx + n)

  -- Off s390x, the pointer of a stack slot for `size` bytes has the alignment, and the bytes lie within
  -- the slot that is created, when the size with the alignment stays below 2 ^ 32 by 15 bytes, the size is a multiple
  -- of 16 wherever the alignment is over 16, the alignment fits the address type and the slot lies in the address
  -- space. The sums of `u32` do not overflow then.
  pub create_stack_slot-Fits :
      (size align : ℕ) (fx : c.Fx)
      → tcx.is_s390x ≡ false
      → IsAlignment align
      → (16 < align → size % 16 ≡ 0)
      → size + align + 15 < 2 ^ 32
      → align < modulus pointer_type
      → ((n : ℕ) → n ≤ size + align + 15 → base_of n fx + n < modulus pointer_type)
      → (n : ℕ) × (p : Pointer c) × (create_stack_slot c tcx pointer_type size align fx
          ≡ ok (p, (c.create_sized_stack_slot n 4 fx).1))
        × Fits size align n fx p
  unfolding create_stack_slot abi_align Pointer.stack_slot Pointer.new Pointer.get_addr
  create_stack_slot-Fits size align fx arch alignment whole small k space =
      elim (Bool-cases (leb align 16)) [
        | inl e ↦
            let n = (size + 16 - 1) / 16 * 16 in
            let s = (c.create_sized_stack_slot n 4 fx).0 in
            let at = base_bits s (omega (arith, space n (omega arith))) in
            (
              n,
              Pointer.stack_slot c pointer_type s,
              rw (arch, e, mod_below (size + 16 - 1) (2 ^ 32) (omega arith)) refl,
              (
                rw at (
                    small_aligned (slot_base s) align (d.slot_aligned n 4 fx) alignment
                      (leb→le align 16 e)),
                rw at (omega arith),
                rw at (omega arith),
              ),
            )
        | inr e ↦
            let n = (size + align) / 16 * 16 in
            let s = (c.create_sized_stack_slot n 4 fx).0 in
            let over : 16 < align = ground arith in
            let room : size + align ≤ n = whole_slots size align alignment over (whole over) in
            let at =
              realigned_bits s align (omega arith) k (omega (arith, space n (omega arith))) in
            (
              n,
              Pointer.new c pointer_type (realigned_addr s align),
              rw (arch, e, mod_below (size + align) (2 ^ 32) (omega arith)) refl,
              (
                rw at (next_multiple (slot_base s) align (omega arith)),
                rw at (omega arith),
                rw at (omega (arith, room)),
              ),
            )
      ]
