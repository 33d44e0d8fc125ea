-- ===== src/Num/Overflow.antt =====
-- src/num.rs, `codegen_checked_int_binop`: the value and the overflow flag against exact arithmetic.
use rustc_codegen_cranelift.Common.{
  ℕ, ◌+◌, ◌-◌, ◌*◌, ◌%◌, ◌<◌, ◌≡◌, refl, ap, ◌∙◌, Bool, true, false, xor, Option, none, some, bit,
  arith,
}
use rustc_codegen_cranelift.Common.Int.{ℤ, pos, ltb_ℤ}
use rustc_codegen_cranelift.Common.Word.{
  signed, to_word, misfits, carry-add, borrow-sub, overflow-add, overflow-sub, wrap-signed-add,
  wrap-signed-sub, wrap-sub, misfits-sub, pos-add, pos-sub, signed_zero,
}
use Prim.Native.Nat.{bit_xor}
use native.Mathlib.Nat.{zero-mod}
use rustc_codegen_cranelift.Clif.{Ty, i8, is_int, IntCc, Clif, iadd, isub, bxor, ty_bits}
use rustc_codegen_cranelift.Clif.Documented.{Documented, modulus, half, modulus-half, int_cc}
use rustc_codegen_cranelift.Codegen.{Tcx, BinOp, Layout, ok, pair_ty, bool}
use rustc_codegen_cranelift.ValueAndPlace
use rustc_codegen_cranelift.Num.Exact.{exact}
use rustc_codegen_cranelift.Types.{type_sign}
use rustc_codegen_cranelift.ValueAndPlace.{CValue}
use rustc_codegen_cranelift.CodegenI128.{maybe_codegen_checked}
use rustc_codegen_cranelift.Num.IntOps.{checked_value, codegen_checked_int_binop}

bit_xor-bit : (p q : Bool) → bit_xor (bit p) (bit q) % modulus i8 ≡ bit (xor p q)
unfolding modulus ty_bits xor
bit_xor-bit true true = refl
bit_xor-bit true false = refl
bit_xor-bit false true = refl
bit_xor-bit false false = refl

module _ (c : Clif) (d : Documented c) (tcx : Tcx) (pointer_type : Ty) where
  open c use {Value, value_type, binary, icmp, icmp_imm}
  open d use {bits}

  -- The value and the flag are those of the exact result `z` in words of the type of `l`.
  abbrev pub Computes : Bool → Value → ℤ → Option (Value × Value) → Type 0
  Computes s l z res =
      (v : Value) × (o : Value) × (res ≡ some (v, o))
      × (value_type v ≡ value_type l)
      × (bits v ≡ to_word (modulus (value_type l)) z)
      × (value_type o ≡ i8)
      × (bits o ≡ bit (misfits s (half (value_type l)) z))

  module _ (l r : Value) (int_type : is_int (value_type l) ≡ true)
      (same : value_type l ≡ value_type r) where
    abbrev t : Ty
    t = value_type l

    l_lt : bits l < 2 * half t
    l_lt = rw (← modulus-half t int_type) (d.bits_lt l)

    r_lt : bits r < 2 * half t
    r_lt = rw (← modulus-half t int_type, same) (d.bits_lt r)

    -- The operand types, for the laws that compare with a word of `l`.
    abbrev h : ℕ
    h = half t

    sum : Value
    sum = binary iadd l r

    sum_bits : bits sum ≡ (bits l + bits r) % (2 * h)
    unfolding sum
    sum_bits = rw (← modulus-half t int_type) (d.iadd_bits l r)

    add_unsigned :
        Computes false l
          (exact BinOp.add false h (bits l) (bits r))
          (checked_value c tcx pointer_type BinOp.add false l r)
    unfolding checked_value exact sum int_cc
    add_unsigned = (
      sum,
      icmp IntCc.unsigned_less_than sum l,
      refl,
      d.iadd_type l r,
      rw (pos-add, d.iadd_bits l r),
      d.icmp_type _ _ _,
      rw (pos-add, d.icmp_bits, sum_bits) (ap bit (carry-add (bits l) (bits r) (2 * h) l_lt r_lt)),
    )

    -- `rhs_is_negative`
    r_negative :
        bits (icmp_imm IntCc.signed_less_than r (pos 0)) ≡ bit (ltb_ℤ (signed h (bits r)) (pos 0))
    unfolding int_cc
    r_negative =
        rw (d.icmp_imm_bits, ← same, zero-mod)
          (ap (λ z. bit (ltb_ℤ (signed h (bits r)) z)) (signed_zero h (omega (arith, l_lt))))

    flag_xor :
        (p q : Bool) (a b : Value)
        → value_type a ≡ i8
        → bits a ≡ bit p
        → bits b ≡ bit q
        → bits (binary bxor a b) ≡ bit (xor p q)
    flag_xor p q a b ta ha hb = rw (d.bxor_bits, ta, ha, hb) (bit_xor-bit p q)

    add_signed :
        Computes true l
          (exact BinOp.add true h (bits l) (bits r))
          (checked_value c tcx pointer_type BinOp.add true l r)
    unfolding checked_value exact sum int_cc
    add_signed = (
      sum,
      binary bxor (icmp_imm IntCc.signed_less_than r (pos 0)) (icmp IntCc.signed_less_than sum l),
      refl,
      d.iadd_type l r,
      rw (modulus-half t int_type, wrap-signed-add (bits l) (bits r) h l_lt r_lt) sum_bits,
      d.bxor_type _ _ ∙ d.icmp_imm_type _ _ _,
      flag_xor _ _ _ _ (d.icmp_imm_type _ _ _) r_negative
            (rw (d.icmp_bits, d.iadd_type, sum_bits) refl)
          ∙ ap bit (overflow-add (bits l) (bits r) h l_lt r_lt),
    )

    difference : Value
    difference = binary isub l r

    difference_bits : bits difference ≡ (bits l + 2 * h - bits r) % (2 * h)
    unfolding difference
    difference_bits = rw (← modulus-half t int_type) (d.isub_bits l r)

    sub_unsigned :
        Computes false l
          (exact BinOp.sub false h (bits l) (bits r))
          (checked_value c tcx pointer_type BinOp.sub false l r)
    unfolding checked_value exact difference int_cc
    sub_unsigned = (
      difference,
      icmp IntCc.unsigned_greater_than difference l,
      refl,
      d.isub_type l r,
      rw (pos-sub, modulus-half t int_type, wrap-sub (bits l) (bits r) (2 * h) l_lt r_lt)
          difference_bits,
      d.icmp_type _ _ _,
      rw (pos-sub, d.icmp_bits, difference_bits, misfits-sub (bits l) (bits r) h l_lt)
          (ap bit (borrow-sub (bits l) (bits r) (2 * h) l_lt r_lt)),
    )

    sub_signed :
        Computes true l
          (exact BinOp.sub true h (bits l) (bits r))
          (checked_value c tcx pointer_type BinOp.sub true l r)
    unfolding checked_value exact difference int_cc
    sub_signed = (
      difference,
      binary bxor (icmp_imm IntCc.signed_less_than r (pos 0))
          (icmp IntCc.signed_greater_than difference l),
      refl,
      d.isub_type l r,
      rw (modulus-half t int_type, wrap-signed-sub (bits l) (bits r) h l_lt r_lt) difference_bits,
      d.bxor_type _ _ ∙ d.icmp_imm_type _ _ _,
      flag_xor _ _ _ _ (d.icmp_imm_type _ _ _) r_negative
            (rw (d.icmp_bits, d.isub_type, difference_bits) refl)
          ∙ ap bit (overflow-sub (bits l) (bits r) h l_lt r_lt),
    )

-- The operations that are checked with instructions at every width.
abbrev pub AddOrSub : BinOp → Type 0
AddOrSub BinOp.add = Unit
AddOrSub BinOp.sub = Unit
AddOrSub _ = ⊥

module _ (c : Clif) (d : Documented c) (tcx : Tcx) (pointer_type : Ty) where
  open c use {Value, Fx, value_type}
  open d use {bits}

  checked_value-Computes :
      (op : BinOp) (s : Bool) (l r : Value)
      → AddOrSub op
      → is_int (value_type l) ≡ true
      → value_type l ≡ value_type r
      → Computes c d tcx pointer_type s l
          (exact op s (half (value_type l)) (bits l) (bits r))
          (checked_value c tcx pointer_type op s l r)
  checked_value-Computes BinOp.add true l r a i e = add_signed c d tcx pointer_type l r i e
  checked_value-Computes BinOp.add false l r a i e = add_unsigned c d tcx pointer_type l r i e
  checked_value-Computes BinOp.sub true l r a i e = sub_signed c d tcx pointer_type l r i e
  checked_value-Computes BinOp.sub false l r a i e = sub_unsigned c d tcx pointer_type l r i e
  checked_value-Computes _ s l r a i e = absurd a

  no_routine :
      (op : BinOp) (lhs rhs : CValue c) (s : Bool) (fx : Fx)
      → AddOrSub op
      → type_sign lhs.layout.ty ≡ ok s
      → maybe_codegen_checked c tcx pointer_type op lhs rhs fx ≡ ok (none, fx)
  unfolding maybe_codegen_checked
  no_routine BinOp.add lhs rhs s fx a e = ground arith
  no_routine BinOp.sub lhs rhs s fx a e = ground arith
  no_routine _ lhs rhs s fx a e = absurd a

  -- The pair that comes back, with its types.
  pub checked_int_binop-Computes :
      (op : BinOp) (s : Bool) (l r : Value) (layout : Layout) (fx : Fx)
      → AddOrSub op
      → type_sign layout.ty ≡ ok s
      → is_int (value_type l) ≡ true
      → value_type l ≡ value_type r
      → (v : Value) × (o : Value) × (codegen_checked_int_binop c tcx pointer_type op
            (ValueAndPlace.val c tcx pointer_type l layout)
            (ValueAndPlace.val c tcx pointer_type r layout)
            fx
          ≡ ok (
            ValueAndPlace.val_pair c tcx pointer_type v o (tcx.layout_of (pair_ty layout.ty bool)),
            fx,
          ))
        × (value_type v ≡ value_type l)
        × (bits v
            ≡ to_word (modulus (value_type l)) (exact op s (half (value_type l)) (bits l) (bits r)))
        × (value_type o ≡ i8)
        × (bits o
            ≡ bit (
                misfits s
                  (half (value_type l))
                  (exact op s (half (value_type l)) (bits l) (bits r))))
  unfolding codegen_checked_int_binop ValueAndPlace.load_scalar
  checked_int_binop-Computes op s l r layout fx a e i same =
      let (v, o, computed, type, value, flag_type, flag) =
        checked_value-Computes op s l r a i same in
      (
        v,
        o,
        ground (
          arith,
          no_routine op (ValueAndPlace.val c tcx pointer_type l layout)
              (ValueAndPlace.val c tcx pointer_type r layout) s fx a e,
        ),
        type,
        value,
        flag_type,
        flag,
      )

  -- What `codegen_checked_int_binop` emits for an addition or a subtraction of two integers of one
  -- type, signed or not and of any width: the pair of the exact result wrapped to the type, and of a
  -- flag that is 1 exactly when the exact result does not fit the type. It does not panic.
  pub checked_int_binop-exact :
      (op : BinOp) (s : Bool) (l r : Value) (layout : Layout) (fx : Fx)
      → AddOrSub op
      → type_sign layout.ty ≡ ok s
      → is_int (value_type l) ≡ true
      → value_type l ≡ value_type r
      → (v : Value) × (o : Value) × (codegen_checked_int_binop c tcx pointer_type op
            (ValueAndPlace.val c tcx pointer_type l layout)
            (ValueAndPlace.val c tcx pointer_type r layout)
            fx
          ≡ ok (
            ValueAndPlace.val_pair c tcx pointer_type v o (tcx.layout_of (pair_ty layout.ty bool)),
            fx,
          ))
        × (bits v
            ≡ to_word (modulus (value_type l)) (exact op s (half (value_type l)) (bits l) (bits r)))
        × (bits o
            ≡ bit (
                misfits s
                  (half (value_type l))
                  (exact op s (half (value_type l)) (bits l) (bits r))))
  checked_int_binop-exact op s l r layout fx a e i same =
      let (v, o, run, _, value, _, flag) =
        checked_int_binop-Computes op s l r layout fx a e i same in
      (v, o, run, value, flag)
