-- ===== src/Num/WidePointers.antt =====
-- src/num.rs, `codegen_ptr_binop`: a wide pointer is ordered as the number whose high word is the
-- address and whose low word is the metadata.
use Prim.Native.Nat.{bit_and, bit_or}
use rustc_codegen_cranelift.Common.{
  ℕ, ◌+◌, ◌*◌, ◌%◌, ◌<◌, ◌≡◌, refl, ap, sym, ◌∙◌, Bool, true, false, not, ◌&&◌, ◌||◌, ◌==◌, bit,
  if◌then◌else◌, arith, some,
}
use rustc_codegen_cranelift.Common.Int.{pos}
use rustc_codegen_cranelift.Clif.{Ty, i8, ty_bits, IntCc, Clif, band, bor}
use rustc_codegen_cranelift.Clif.Documented.{Documented, modulus, int_cc}
use rustc_codegen_cranelift.Codegen.{Tcx, BinOp, ok}
use rustc_codegen_cranelift.Num.Exact.{holds}
use rustc_codegen_cranelift.Num.Compare.{bin_op_to_intcc}
use rustc_codegen_cranelift.Num.Order.{HasCode}
use rustc_codegen_cranelift.Num.FloatOps.{wide_ptr_compare}

high_lt : (p e q f m : ℕ) → e < m → p < q → p * m + e < q * m + f
high_lt p e q f m he h = grind arith

low_lt : (p e f m : ℕ) → e < f → p * m + e < p * m + f
low_lt p e f m h = omega arith

-- The order of the numbers, from the orders of their words.
lexicographic :
    (op : BinOp) (p e q f m : ℕ)
    → HasCode op
    → e < m
    → f < m
    → holds op (pos (p * m + e)) (pos (q * m + f))
      ≡ (if p == q then holds op (pos e) (pos f) else holds op (pos p) (pos q))
unfolding holds
lexicographic BinOp.eq p e q f m k he hf =
    ground (arith, high_lt p e q f m he, high_lt q f p e m hf, low_lt p e f m, low_lt p f e m)
lexicographic BinOp.ne p e q f m k he hf =
    ground (arith, high_lt p e q f m he, high_lt q f p e m hf, low_lt p e f m, low_lt p f e m)
lexicographic BinOp.lt p e q f m k he hf =
    ground (arith, high_lt p e q f m he, high_lt q f p e m hf, low_lt p e f m, low_lt p f e m)
lexicographic BinOp.le p e q f m k he hf =
    ground (arith, high_lt p e q f m he, high_lt q f p e m hf, low_lt p e f m, low_lt p f e m)
lexicographic BinOp.ge p e q f m k he hf =
    ground (arith, high_lt p e q f m he, high_lt q f p e m hf, low_lt p e f m, low_lt p f e m)
lexicographic BinOp.gt p e q f m k he hf =
    ground (arith, high_lt p e q f m he, high_lt q f p e m hf, low_lt p e f m, low_lt p f e m)
lexicographic _ p e q f m k he hf = absurd k

band-bit : (a b : Bool) → bit_and (bit a) (bit b) % modulus i8 ≡ bit (a && b)
unfolding modulus ty_bits
band-bit true true = refl
band-bit true false = refl
band-bit false true = refl
band-bit false false = refl

bor-bit : (a b : Bool) → bit_or (bit a) (bit b) % modulus i8 ≡ bit (a || b)
unfolding modulus ty_bits
bor-bit true true = refl
bor-bit true false = refl
bor-bit false true = refl
bor-bit false false = refl

-- An unsigned code tests the order of the words.
unsigned_code :
    (op : BinOp)
    → HasCode op
    → (cc : IntCc) × (bin_op_to_intcc op false ≡ some cc)
      × ((h a b : ℕ) → int_cc cc h a b ≡ holds op (pos a) (pos b))
unfolding bin_op_to_intcc int_cc holds
unsigned_code BinOp.eq k = (IntCc.equal, refl, λ h a b. ground arith)
unsigned_code BinOp.ne k = (IntCc.not_equal, refl, λ h a b. ground arith)
unsigned_code BinOp.lt k = (IntCc.unsigned_less_than, refl, λ h a b. ground arith)
unsigned_code BinOp.le k = (IntCc.unsigned_less_than_or_equal, refl, λ h a b. ground arith)
unsigned_code BinOp.ge k = (IntCc.unsigned_greater_than_or_equal, refl, λ h a b. ground arith)
unsigned_code BinOp.gt k = (IntCc.unsigned_greater_than, refl, λ h a b. ground arith)
unsigned_code _ k = absurd k

both_equal :
    (p q e f : ℕ)
    → ((p == q) && (e == f))
      ≡ (if p == q then holds BinOp.eq (pos e) (pos f) else holds BinOp.eq (pos p) (pos q))
unfolding holds
both_equal p q e f = ground arith

one_differs :
    (p q e f : ℕ)
    → (not (p == q) || not (e == f))
      ≡ (if p == q then holds BinOp.ne (pos e) (pos f) else holds BinOp.ne (pos p) (pos q))
unfolding holds
one_differs p q e f = ground arith

select_if : (b x y : Bool) → (if bit b == 0 then bit y else bit x) ≡ bit (if b then x else y)
select_if true x y = refl
select_if false x y = refl

module _ (c : Clif) (d : Documented c) (tcx : Tcx) (pointer_type : Ty) where
  open c use {Value, Fx, value_type, icmp, select, binary}
  open d use {bits}

  -- The emitted comparison gives the order of the numbers that the two wide pointers stand for.
  abbrev Decides : BinOp → Value → Value → Value → Value → Fx → Type 0
  Decides op lp le rp re fx =
      (v : Value) × (wide_ptr_compare c tcx pointer_type op lp le rp re fx ≡ ok (v, fx))
      × (bits v
          ≡ bit (
              holds op (pos (bits lp * modulus (value_type le) + bits le))
                (pos (bits rp * modulus (value_type le) + bits re))))

  module _ (lp le rp re : Value) (fx : Fx) (same : value_type le ≡ value_type re) where
    abbrev m : ℕ
    m = modulus (value_type le)

    re_lt : bits re < m
    re_lt = rw same (d.bits_lt re)

    same_ptr : bits (icmp IntCc.equal lp rp) ≡ bit (bits lp == bits rp)
    unfolding int_cc
    same_ptr = d.icmp_bits IntCc.equal lp rp

    by_order :
        (op : BinOp)
        → HasCode op
        → ((cc : IntCc)
            → bin_op_to_intcc op false ≡ some cc
            → wide_ptr_compare c tcx pointer_type op lp le rp re fx
              ≡ ok (select (icmp IntCc.equal lp rp) (icmp cc le re) (icmp cc lp rp), fx))
        → Decides op lp le rp re fx
    by_order op k emitted =
        let (cc, e, t) = unsigned_code op k in
        (
          select (icmp IntCc.equal lp rp) (icmp cc le re) (icmp cc lp rp),
          emitted cc e,
          rw
              (
                d.select_bits _ _ _ (d.icmp_type cc le re ∙ sym (d.icmp_type cc lp rp)),
                same_ptr,
                d.icmp_bits cc le re,
                d.icmp_bits cc lp rp,
                t,
                t,
                lexicographic op (bits lp) (bits le) (bits rp) (bits re) m k (d.bits_lt le) re_lt,
              )
              (select_if (bits lp == bits rp) (holds op (pos (bits le)) (pos (bits re)))
                (holds op (pos (bits lp)) (pos (bits rp)))),
        )

    by_eq : Decides BinOp.eq lp le rp re fx
    unfolding wide_ptr_compare int_cc
    by_eq = (
      binary band (icmp IntCc.equal lp rp) (icmp IntCc.equal le re),
      refl,
      rw
          (
            d.band_bits,
            d.icmp_type,
            same_ptr,
            d.icmp_bits IntCc.equal le re,
            band-bit,
            lexicographic BinOp.eq (bits lp) (bits le) (bits rp) (bits re) m tt (d.bits_lt le)
                re_lt,
          )
          (ap bit (both_equal (bits lp) (bits rp) (bits le) (bits re))),
    )

    by_ne : Decides BinOp.ne lp le rp re fx
    unfolding wide_ptr_compare int_cc
    by_ne = (
      binary bor (icmp IntCc.not_equal lp rp) (icmp IntCc.not_equal le re),
      refl,
      rw
          (
            d.bor_bits,
            d.icmp_type,
            d.icmp_bits IntCc.not_equal lp rp,
            d.icmp_bits IntCc.not_equal le re,
            bor-bit,
            lexicographic BinOp.ne (bits lp) (bits le) (bits rp) (bits re) m tt (d.bits_lt le)
                re_lt,
          )
          (ap bit (one_differs (bits lp) (bits rp) (bits le) (bits re))),
    )

    decides : (op : BinOp) → HasCode op → Decides op lp le rp re fx
    unfolding wide_ptr_compare
    decides BinOp.eq k = by_eq
    decides BinOp.ne k = by_ne
    decides BinOp.lt k = by_order BinOp.lt tt (λ cc e. ground arith)
    decides BinOp.le k = by_order BinOp.le tt (λ cc e. ground arith)
    decides BinOp.ge k = by_order BinOp.ge tt (λ cc e. ground arith)
    decides BinOp.gt k = by_order BinOp.gt tt (λ cc e. ground arith)
    decides _ k = absurd k

  -- A comparison of two wide pointers, whose metadata have one type, gives the bit 1 when the order
  -- that the operator names holds between the numbers with the address as the high word and the
  -- metadata as the low word, and else the bit 0. It does not panic.
  pub wide_ptr_compare-holds :
      (op : BinOp) (lp le rp re : Value) (fx : Fx)
      → HasCode op
      → value_type le ≡ value_type re
      → (v : Value) × (wide_ptr_compare c tcx pointer_type op lp le rp re fx ≡ ok (v, fx))
        × (bits v
            ≡ bit (
                holds op
                  (pos (bits lp * modulus (value_type le) + bits le))
                  (pos (bits rp * modulus (value_type le) + bits re))))
  wide_ptr_compare-holds op lp le rp re fx k same = decides lp le rp re fx same op k
