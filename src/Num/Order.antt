-- ===== src/Num/Order.antt =====
-- src/num.rs, comparisons of integers and of wide pointers against the order of the integers that the
-- operands stand for.
use rustc_codegen_cranelift.Common.{
  ℕ, ◌+◌, ◌-◌, ◌*◌, ◌%◌, ◌<◌, ◌≡◌, refl, Bool, true, false, bit, arith, some,
}
use rustc_codegen_cranelift.Common.Int.{ℤ, ltb_ℤ}
use rustc_codegen_cranelift.Common.Word.{signed}
use rustc_codegen_cranelift.Clif.{Ty, is_int, ty_bits, IntCc, Clif, isub}
use rustc_codegen_cranelift.Clif.Documented.{Documented, modulus, half, int_cc, word_lt, word_lt_of}
use rustc_codegen_cranelift.Codegen.{Tcx, BinOp, ok, bool}
use rustc_codegen_cranelift.ValueAndPlace
use rustc_codegen_cranelift.Num.Exact.{reading, holds, three_way}
use rustc_codegen_cranelift.Num.Compare.{
  bin_op_to_intcc, codegen_compare_bin_op, codegen_three_way_compare,
}

-- The operators that have a condition code.
abbrev pub HasCode : BinOp → Type 0
HasCode BinOp.eq = Unit
HasCode BinOp.ne = Unit
HasCode BinOp.lt = Unit
HasCode BinOp.le = Unit
HasCode BinOp.ge = Unit
HasCode BinOp.gt = Unit
HasCode _ = ⊥

-- The code of an operator tests its order.
code_holds :
    (op : BinOp) (s : Bool) (h a b : ℕ)
    → HasCode op
    → a < 2 * h
    → b < 2 * h
    → (cc : IntCc) × (bin_op_to_intcc op s ≡ some cc)
      × (int_cc cc h a b ≡ holds op (reading s h a) (reading s h b))
unfolding bin_op_to_intcc int_cc holds reading
code_holds BinOp.eq true h a b k p q = (IntCc.equal, refl, ground arith)
code_holds BinOp.eq false h a b k p q = (IntCc.equal, refl, ground arith)
code_holds BinOp.ne true h a b k p q = (IntCc.not_equal, refl, ground arith)
code_holds BinOp.ne false h a b k p q = (IntCc.not_equal, refl, ground arith)
code_holds BinOp.lt true h a b k p q = (IntCc.signed_less_than, refl, refl)
code_holds BinOp.lt false h a b k p q = (IntCc.unsigned_less_than, refl, ground arith)
code_holds BinOp.le true h a b k p q = (IntCc.signed_less_than_or_equal, refl, refl)
code_holds BinOp.le false h a b k p q = (IntCc.unsigned_less_than_or_equal, refl, ground arith)
code_holds BinOp.ge true h a b k p q = (IntCc.signed_greater_than_or_equal, refl, refl)
code_holds BinOp.ge false h a b k p q = (IntCc.unsigned_greater_than_or_equal, refl, ground arith)
code_holds BinOp.gt true h a b k p q = (IntCc.signed_greater_than, refl, refl)
code_holds BinOp.gt false h a b k p q = (IntCc.unsigned_greater_than, refl, ground arith)
code_holds _ s h a b k p q = absurd k

gt_minus_lt :
    (x y : ℤ) → signed 128 ((bit (ltb_ℤ y x) + 256 - bit (ltb_ℤ x y)) % 256) ≡ three_way x y
unfolding three_way
gt_minus_lt x y = ground arith

module _ (c : Clif) (d : Documented c) (tcx : Tcx) (pointer_type : Ty) where
  open c use {Value, Fx, value_type}
  open d use {bits}

  emitted :
      (op : BinOp) (s : Bool) (cc : IntCc) (l r : Value) (fx : Fx)
      → HasCode op
      → bin_op_to_intcc op s ≡ some cc
      → codegen_compare_bin_op c tcx pointer_type op s l r fx
        ≡ ok (ValueAndPlace.val c tcx pointer_type (c.icmp cc l r) (tcx.layout_of bool), fx)
  unfolding codegen_compare_bin_op
  emitted BinOp.cmp s cc l r fx k e = absurd k
  emitted _ s cc l r fx k e = ground arith

  -- A comparison of two integers of one type gives the bit 1 when the order that the operator names
  -- holds between the integers that the operands stand for, and else the bit 0. It does not panic.
  pub compare_bin_op-holds :
      (op : BinOp) (s : Bool) (l r : Value) (fx : Fx)
      → HasCode op
      → is_int (value_type l) ≡ true
      → value_type l ≡ value_type r
      → (v : Value) × (codegen_compare_bin_op c tcx pointer_type op s l r fx
          ≡ ok (ValueAndPlace.val c tcx pointer_type v (tcx.layout_of bool), fx))
        × (bits v
            ≡ bit (
                holds op
                  (reading s (half (value_type l)) (bits l))
                  (reading s (half (value_type l)) (bits r))))
  unfolding codegen_compare_bin_op
  compare_bin_op-holds op s l r fx k i same =
      let (cc, e, t) =
        code_holds op s (half (value_type l)) (bits l) (bits r) k (word_lt c d l i)
          (word_lt_of c d l r i same) in
      (c.icmp cc l r, emitted op s cc l r fx k e, rw (d.icmp_bits, t))

  -- `<=>` of two integers of one type gives -1, 0 or 1, as a signed byte, for the order of the
  -- integers that the operands stand for.
  pub three_way_compare-sign :
      (s : Bool) (l r : Value) (fx : Fx)
      → is_int (value_type l) ≡ true
      → value_type l ≡ value_type r
      → (v : Value) × (codegen_three_way_compare c tcx pointer_type s l r fx
          ≡ ok (ValueAndPlace.val c tcx pointer_type v (tcx.layout_of tcx.ordering_enum), fx))
        × (signed 128 (bits v)
            ≡ three_way
                (reading s (half (value_type l)) (bits l))
                (reading s (half (value_type l)) (bits r)))
  unfolding codegen_three_way_compare modulus ty_bits holds
  three_way_compare-sign s l r fx i same =
      let h = half (value_type l) in
      let (gt, e, t) =
        code_holds BinOp.gt s h (bits l) (bits r) tt (word_lt c d l i)
          (word_lt_of c d l r i same) in
      let (lt, e', t') =
        code_holds BinOp.lt s h (bits l) (bits r) tt (word_lt c d l i)
          (word_lt_of c d l r i same) in
      (
        c.binary isub (c.icmp gt l r) (c.icmp lt l r),
        ground (arith, e, e'),
        rw (d.isub_bits, d.icmp_type, d.icmp_bits, d.icmp_bits, t, t')
            (gt_minus_lt (reading s h (bits l)) (reading s h (bits r))),
      )
