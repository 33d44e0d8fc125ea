-- ===== src/Num/FloatMinMax.antt =====
-- src/num.rs, `codegen_float_min` and `codegen_float_max`: a NaN gives way to the other operand.
use rustc_codegen_cranelift.Common.{
  ℕ, ◌≡◌, refl, sym, Bool, true, false, not, ◌||◌, ◌==◌, bit, if◌then◌else◌, arith,
}
use rustc_codegen_cranelift.Clif.{FloatCc, Clif}
use rustc_codegen_cranelift.Clif.Documented.{Documented, float_cc}
use rustc_codegen_cranelift.Num.FloatOps.{codegen_float_min, codegen_float_max}

-- The smaller by `before`, where both are numbers, and else the one that is a number.
unfoldable pub pick : Bool → Bool → Bool → ℕ → ℕ → ℕ
pick a_number b_number before a b =
    if a_number then (if b_number then (if before then b else a) else a) else b

picks :
    (same_aa same_bb ge : Bool) (a b : ℕ)
    → (ge ≡ true → (same_aa ≡ true) × (same_bb ≡ true))
    → (if bit (not same_aa) == 0 then (if bit ge == 0 then a else b) else b)
      ≡ pick same_aa same_bb ge a b
unfolding pick
picks true true true a b h = refl
picks true true false a b h = refl
picks true false true a b h = absurd (ground (arith, (h refl).1))
picks true false false a b h = refl
picks false s true a b h = refl
picks false s false a b h = refl

module _ (c : Clif) (d : Documented c) (a b : c.Value)
    (same_type : c.value_type a ≡ c.value_type b) where
  open c use {value_type, fcmp, select}
  open d use {bits, less, same}

  chosen :
      (ge : c.Value)
      → bits (select (fcmp FloatCc.not_equal a a) b (select ge b a)) ≡ (
          if bits (fcmp FloatCc.not_equal a a) == 0
          then (if bits ge == 0 then bits a else bits b)
          else bits b)
  chosen ge = rw (
    d.select_bits (fcmp FloatCc.not_equal a a) b (select ge b a) (sym (d.select_type ge b a)),
    d.select_bits ge b a (sym same_type),
  )

  ordered : (x y : c.Value) → (less y x || same x y) ≡ true → (same x x ≡ true) × (same y y ≡ true)
  ordered x y h = ground (arith, d.less_ordered y x, d.same_ordered x y)

  ordered' : (x y : c.Value) → (less x y || same x y) ≡ true → (same x x ≡ true) × (same y y ≡ true)
  ordered' x y h = ground (arith, d.less_ordered x y, d.same_ordered x y)

  -- `codegen_float_min` of two floats of one type: the smaller of two numbers (the second where they
  -- are equal), the number where one operand is a NaN, and the second operand where both are.
  pub float_min-pick :
      bits (codegen_float_min c a b)
      ≡ pick (same a a) (same b b) (less b a || same a b) (bits a) (bits b)
  unfolding codegen_float_min float_cc
  float_min-pick =
      rw
        (
          chosen (fcmp FloatCc.greater_than_or_equal a b),
          d.fcmp_bits FloatCc.not_equal a a,
          d.fcmp_bits FloatCc.greater_than_or_equal a b,
        )
        (picks (same a a) (same b b) (less b a || same a b) (bits a) (bits b) (ordered a b))

  -- `codegen_float_max` of two floats of one type: the larger of two numbers (the second where they
  -- are equal), the number where one operand is a NaN, and the second operand where both are.
  pub float_max-pick :
      bits (codegen_float_max c a b)
      ≡ pick (same a a) (same b b) (less a b || same a b) (bits a) (bits b)
  unfolding codegen_float_max float_cc
  float_max-pick =
      rw
        (
          chosen (fcmp FloatCc.less_than_or_equal a b),
          d.fcmp_bits FloatCc.not_equal a a,
          d.fcmp_bits FloatCc.less_than_or_equal a b,
        )
        (picks (same a a) (same b b) (less a b || same a b) (bits a) (bits b) (ordered' a b))
