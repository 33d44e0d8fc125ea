-- ===== src/Pointer/Addresses.antt =====
-- src/pointer.rs: the address that a pointer stands for, and that moving the pointer moves the address.
use rustc_codegen_cranelift.Common.{
  ℕ, ◌+◌, ◌%◌, ◌^◌, ◌<◌, ◌≡◌, refl, sym, ap, subst, ◌∙◌, Bool, true, false, Option, none, some,
  if◌then◌else◌, arith,
}
use rustc_codegen_cranelift.Common.Int.{ℤ, pos, negsuc, ◌+ℤ◌, eqb_ℤ}
use rustc_codegen_cranelift.Common.Word.{out_of_range, to_word, mod_below}
use rustc_codegen_cranelift.Common.Wrap.{to_word-add}
use rustc_codegen_cranelift.Clif.{Ty, Clif, iadd, iadd_imm, ty_bits}
use rustc_codegen_cranelift.Clif.Documented.{modulus, Documented}
use rustc_codegen_cranelift.Codegen.{ok}
use rustc_codegen_cranelift.Pointer.{
  Pointer, PointerBase, addr, stack, dangling, get_addr, offset_i64, offset_value, base_addr,
  rebase, checked_add_i64,
}
use native.Mathlib.Nat.{one-le-pow, add-mod-mod, mod-add-mod}

module _ (c : Clif) (d : Documented c) (pointer_type : Ty) where
  open c use {Value, value_type, try_add_i64}
  open d use {bits}

  -- The address as a number.
  abbrev pub address : Pointer c → ℕ
  address p = bits (get_addr c pointer_type p)

  -- A pointer into memory, whose base has the type of addresses.
  unfoldable pub IsPointer : PointerBase c → Type 0
  IsPointer (addr a) = value_type a ≡ pointer_type
  IsPointer (stack s) = Unit {0}
  IsPointer (dangling _) = ⊥

  abbrev pub m : ℕ
  m = modulus pointer_type

  unfoldable pub base_bits : PointerBase c → ℕ
  base_bits (addr a) = bits a
  base_bits (stack s) = d.slot_base s
  base_bits (dangling n) = n

  some_word : 0 < m
  unfolding modulus
  some_word = one-le-pow (ty_bits pointer_type) 2 (omega arith)

  bits_if :
      (b : Bool) (x y : Value) (r : ℕ)
      → (b ≡ true → bits x ≡ r)
      → (b ≡ false → bits y ≡ r)
      → bits (if b then x else y) ≡ r
  bits_if true x y r h k = h refl
  bits_if false x y r h k = k refl

  no_offset : (n : ℤ) (a : ℕ) → eqb_ℤ n (pos 0) ≡ true → a < m → (a + to_word m n) % m ≡ a
  no_offset (pos n) a z h =
      let none_left : n % m ≡ 0 =
        rw (← mod_below 0 m some_word) (ap (λ (x : ℕ). x % m) (ground arith)) in
      rw none_left (mod_below (a + 0) m (omega arith) ∙ omega arith)
  no_offset (negsuc n) a z h = absurd (ground arith)

  -- An address is its base with the offset, in the words of addresses.
  address-base :
      (base : PointerBase c) (n : ℤ)
      → IsPointer base
      → address (record { base = base; offset = n }) ≡ (base_bits base + to_word m n) % m
  unfolding IsPointer base_bits get_addr
  address-base (addr a) n h =
      bits_if (eqb_ℤ n (pos 0)) a (c.binary_imm iadd_imm a n) ((bits a + to_word m n) % m)
        (λ z. sym (no_offset n (bits a) z (subst (λ t. bits a < modulus t) h (d.bits_lt a))))
        (λ _. rw (d.iadd_imm_bits a n, h) refl)
  address-base (stack s) n h = d.stack_addr_bits pointer_type s n
  address-base (dangling _) n h = absurd h

  -- The steps of an offset, in words.
  moved :
      (b : ℕ) (n z : ℤ) → (b + to_word m (n +ℤ z)) % m ≡ ((b + to_word m n) % m + to_word m z) % m
  moved b n z = rw (to_word-add n z m some_word) (
      add-mod-mod b (to_word m n + to_word m z) m
      ∙ ap (λ (x : ℕ). x % m) (omega arith)
      ∙ sym (mod-add-mod (b + to_word m n) m (to_word m z)))

  -- The slow path: the sum of the base and the offset is computed at run time.
  rebased :
      (base : PointerBase c) (n : ℤ)
      → IsPointer base
      → (value_type (base_addr c pointer_type base) ≡ pointer_type)
        × (bits (c.binary_imm iadd_imm (base_addr c pointer_type base) n)
            ≡ (base_bits base + to_word m n) % m)
  unfolding IsPointer base_bits base_addr
  rebased (addr a) n h = (h, rw (d.iadd_imm_bits a n, h) refl)
  rebased (stack s) n h =
      let t = d.stack_addr_type pointer_type s (pos 0) in
      (
        t,
        rw
            (
              d.iadd_imm_bits (c.stack_addr pointer_type s (pos 0)) n,
              t,
              d.stack_addr_bits pointer_type s (pos 0),
            )
            (mod-add-mod (d.slot_base s + 0 % m) m (to_word m n)
              ∙ rw (mod_below 0 m some_word) (ap (λ (x : ℕ). x % m) (omega arith))),
      )
  rebased (dangling _) n h = absurd h

  new-address : (v : Value) → address (record { base = addr v; offset = pos 0 }) ≡ bits v
  unfolding get_addr
  new-address v = refl

  abbrev pub Moves : Pointer c → ℤ → Type 0
  Moves p z =
      (q : Pointer c) × (offset_i64 c pointer_type p z ≡ ok q)
      × (address q ≡ (address p + to_word m z) % m)

  by_sum :
      (p : Pointer c) (z : ℤ) (sum : Option ℤ)
      → IsPointer p.base
      → out_of_range (2 ^ 63) (p.offset +ℤ z) ≡ false
      → try_add_i64 p.offset z ≡ sum
      → Moves p z
  unfolding offset_i64 rebase
  by_sum p z (some r) h fits e = (
    record { base = p.base; offset = r },
    rw (offset_i64, e) refl,
    (rw (address-base p.base r h, address-base p.base p.offset h, d.try_add_i64_sum p.offset z r e)
        (moved (base_bits p.base) p.offset z)),
  )
  by_sum p z none h fits e =
      let (t, sum) = rebased p.base (p.offset +ℤ z) h in
      (
        record {
          base = addr (c.binary_imm iadd_imm (base_addr c pointer_type p.base) (p.offset +ℤ z));
          offset = pos 0;
        },
        rw (offset_i64, e, rebase, checked_add_i64, fits) refl,
        rw (address-base p.base p.offset h)
            (new-address _ ∙ sum ∙ moved (base_bits p.base) p.offset z),
      )

  -- Moving a pointer into memory by a number of bytes that keeps its offset within 64 bits moves its
  -- address by as much, in the words of addresses.
  pub offset_i64-address :
      (p : Pointer c) (z : ℤ)
      → IsPointer p.base
      → out_of_range (2 ^ 63) (p.offset +ℤ z) ≡ false
      → (q : Pointer c) × (offset_i64 c pointer_type p z ≡ ok q)
        × (address q ≡ (address p + to_word m z) % m)
  offset_i64-address p z h fits = by_sum p z (try_add_i64 p.offset z) h fits refl

  by_base :
      (base : PointerBase c) (n : ℤ) (v : Value)
      → IsPointer base
      → value_type v ≡ pointer_type
      → address (offset_value c pointer_type (record { base = base; offset = n }) v)
        ≡ (address (record { base = base; offset = n }) + bits v) % m
  unfolding offset_value IsPointer base_bits get_addr
  by_base (addr a) n v h t =
      rw
        (
          address-base (addr (c.binary iadd a v)) n (d.iadd_type a v ∙ h),
          address-base (addr a) n h,
          d.iadd_bits a v,
          h,
          mod-add-mod (bits a + bits v) m (to_word m n),
          mod-add-mod (bits a + to_word m n) m (bits v),
        )
        (ap (λ (x : ℕ). x % m) (omega arith))
  by_base (stack s) n v h t =
      new-address (c.binary iadd (c.stack_addr pointer_type s n) v)
      ∙ rw (d.iadd_bits (c.stack_addr pointer_type s n) v, d.stack_addr_type pointer_type s n) refl
  by_base (dangling _) n v h t = absurd h

  -- Moving a pointer into memory by a value that is known at run time moves its address by as much.
  pub offset_value-address :
      (p : Pointer c) (v : Value)
      → IsPointer p.base
      → value_type v ≡ pointer_type
      → address (offset_value c pointer_type p v) ≡ (address p + bits v) % m
  offset_value-address p v h t = by_base p.base p.offset v h t
