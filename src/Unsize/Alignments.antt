-- ===== src/Unsize/Alignments.antt =====
-- src/unsize.rs: the comment on the size of a struct with a last field of unknown size. Rounding the offset up to the
-- alignment of that field and adding its size is the same as rounding once, at the end.
use rustc_codegen_cranelift.Common.{
  ℕ, zero, suc, ◌+◌, ◌-◌, ◌*◌, ◌/◌, ◌%◌, ◌^◌, ◌<◌, ◌≤◌, ◌≡◌, sym, ap, subst, ◌∙◌, arith,
}
use native.Mathlib.Nat.{
  one-le-pow, two-pow-succ, div-add-mod, div-div-eq-div-mul, add-mul-div_left, div-eq_of_lt,
  mul-add, mul_comm,
}
use rustc_codegen_cranelift.ValueAndPlace.{align_to}

-- A power of two is a multiple of the smaller ones.
pub power_multiple : (j k : ℕ) → 2 ^ j ≤ 2 ^ k → (q : ℕ) × (2 ^ k ≡ 2 ^ j * q)
power_multiple zero k h = (2 ^ k, omega arith)
power_multiple (suc j) zero h = absurd (omega (arith, two-pow-succ j, one-le-pow j 2 (omega arith)))
power_multiple (suc j) (suc k) h =
    let (q, e) = power_multiple j k (omega (arith, two-pow-succ j, two-pow-succ k)) in
    (q, rw (two-pow-succ j, two-pow-succ k) (grind (arith, e)))

-- A number of steps of size `a * q`, counted first in steps of size `a`.
steps : (n r a x q : ℕ) → 0 < a → n ≡ r + a * x → n / (a * q) ≡ (r / a + x) / q
steps n r a x q h e =
    sym (div-div-eq-div-mul n a q) ∙ ap (λ y. y / q) (ap (λ y. y / a) e ∙ add-mul-div_left r x h)

rounded_once :
    (o t a q : ℕ)
    → 0 < a
    → 0 < q
    → (align_to o a + a * t + a * q - 1) / (a * q) ≡ (o + a * t + a * q - 1) / (a * q)
unfolding align_to
rounded_once o t a zero h k = absurd (omega arith)
rounded_once o t a (suc p) h k =
    let u = (o + a - 1) / a in
    let product : a * suc p ≡ a * p + a = omega (arith, mul-add a p 1) in
    let first : u * a + a * t + a * suc p - 1 ≡ (a - 1) + a * (u + (t + p)) =
      omega (arith, product, mul-add a u (t + p), mul-add a t p, mul_comm u a) in
    let second : o + a * t + a * suc p - 1 ≡ (o + a - 1) + a * (t + p) =
      omega (arith, product, mul-add a t p) in
    let none_left : (a - 1) / a ≡ 0 = div-eq_of_lt (omega arith) in
    steps (u * a + a * t + a * suc p - 1) (a - 1) a (u + (t + p)) (suc p) h first
    ∙ ap (λ y. y / suc p) (omega (arith, none_left))
    ∙ sym (steps (o + a * t + a * suc p - 1) (o + a - 1) a (t + p) (suc p) h second)

-- For alignments that are powers of two, and a size that is a multiple of its own.
pub align_to-unadjusted :
    (o s tail full j k : ℕ)
    → tail ≡ 2 ^ j
    → full ≡ 2 ^ k
    → tail ≤ full
    → s % tail ≡ 0
    → align_to (align_to o tail + s) full ≡ align_to (o + s) full
unfolding align_to
align_to-unadjusted o s tail full j k et ef less whole =
    let (q, e) = power_multiple j k (omega (arith, et, ef)) in
    let some_tail : 0 < tail = omega (arith, et, one-le-pow j 2 (omega arith)) in
    let some_full : 0 < full = omega (arith, ef, one-le-pow k 2 (omega arith)) in
    let product : full ≡ tail * q = ef ∙ e ∙ ap (λ x. x * q) (sym et) in
    let steps_of : s ≡ tail * (s / tail) = omega (arith, div-add-mod s tail, whole) in
    ap (λ x. x * full)
      (subst (λ f. (align_to o tail + s + f - 1) / f ≡ (o + s + f - 1) / f) (sym product)
        (subst
          (λ x.
            (align_to o tail + x + tail * q - 1) / (tail * q) ≡ (o + x + tail * q - 1) / (tail * q))
          (sym steps_of)
          (rounded_once o (s / tail) tail q some_tail (positive q product some_full))))
  where
    positive : (q : ℕ) → full ≡ tail * q → 0 < full → 0 < q
    positive zero e h = absurd (omega arith)
    positive (suc q) e h = omega arith
