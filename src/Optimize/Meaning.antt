-- ===== src/Optimize/Meaning.antt =====
-- src/optimize/peephole.rs: both lookups say what the value is at run time.
use rustc_codegen_cranelift.Common.{
  ℕ, ◌^◌, ◌≡◌, refl, sym, ap, ◌∙◌, Bool, true, false, not, some, ◌==◌, bit, arith, zero, suc,
  if◌then◌else◌,
}
use rustc_codegen_cranelift.Common.Int.{ℤ, pos, negsuc, eqb_ℤ}
use rustc_codegen_cranelift.Common.Word.{to_word, out_of_range}
use rustc_codegen_cranelift.Clif.{IntCc, Clif}
use rustc_codegen_cranelift.Clif.Documented.{Documented, int_cc, modulus}
use rustc_codegen_cranelift.Optimize.Peephole.{
  iconst, other_opcode, int_compare_imm, unary_imm, other_instruction, ValueDef, result,
  not_a_result, DefsDocumented, maybe_unwrap_bool_not, maybe_known_branch_taken,
}
use native.Mathlib.Nat.{zero-mod}

is_zero-bit : (b : Bool) → (bit b == 0) ≡ not b
is_zero-bit true = refl
is_zero-bit false = refl

zero_imm : (imm : ℤ) → eqb_ℤ imm (pos 0) ≡ true → imm ≡ pos 0
zero_imm imm h = ground arith

-- A number of 64 bits is zero exactly when its bits are.
word_zero : (n : ℤ) → out_of_range (2 ^ 63) n ≡ false → (to_word (2 ^ 64) n == 0) ≡ eqb_ℤ n (pos 0)
word_zero (pos n) h = ground arith
word_zero (negsuc n) h = ground arith

module _ (c : Clif) (d : Documented c) (value_def : c.Value → ValueDef c)
    (defs : DefsDocumented c d value_def) where
  open c use {Value}
  open d use {bits}

  -- What is tested to be zero, with the answer turned round if the lowering of a `Not` is left out.
  abbrev pub tests_zero : Value × Bool → Bool
  tests_zero u = if u.1 then not (bits u.0 == 0) else bits u.0 == 0

  not-tests :
      (v a : Value) (imm : ℤ)
      → value_def v ≡ result (int_compare_imm IntCc.equal a imm) 0
      → (p : Bool) → eqb_ℤ imm (pos 0) ≡ p
      → tests_zero (if p then (a, true) else (v, false)) ≡ (bits v == 0)
  unfolding int_cc
  not-tests v a imm e false h = refl
  not-tests v a imm e true h =
      let zero_word : to_word (modulus (c.value_type a)) imm ≡ 0 =
        rw (zero_imm imm h) (zero-mod (modulus (c.value_type a))) in
      let compared : bits v ≡ bit (bits a == 0) =
        defs.compare_def v a IntCc.equal imm e ∙ ap (λ (x : ℕ). bit (bits a == x)) zero_word in
      rw compared (sym (is_zero-bit (bits a == 0)))

  pub unwrapped-tests :
      (v : Value) → tests_zero (maybe_unwrap_bool_not c value_def v) ≡ (bits v == 0)
  unfolding maybe_unwrap_bool_not
  unwrapped-tests v = by_def (value_def v) refl
    where
      by_def :
          (vd : ValueDef c)
          → value_def v ≡ vd
          → tests_zero (maybe_unwrap_bool_not c value_def v) ≡ (bits v == 0)
      by_def (result (int_compare_imm IntCc.equal a imm) zero) e = rw e (not-tests v a imm e _ refl)
      by_def (result (int_compare_imm _ a imm) zero) e = rw e refl
      by_def (result (unary_imm _ imm) zero) e = rw e refl
      by_def (result other_instruction zero) e = rw e refl
      by_def (result inst (suc n)) e = rw e refl
      by_def not_a_result e = rw e refl

  -- A branch that is known is taken exactly when the test at run time takes it.
  pub known-taken :
      (v : Value) (test_zero taken : Bool)
      → maybe_known_branch_taken c value_def v test_zero ≡ some taken
      → taken ≡ (if test_zero then bits v == 0 else not (bits v == 0))
  unfolding maybe_known_branch_taken
  known-taken v test_zero taken h = by_def (value_def v) refl
    where
      by_def :
          (vd : ValueDef c)
          → value_def v ≡ vd
          → taken ≡ (if test_zero then bits v == 0 else not (bits v == 0))
      by_def (result (unary_imm iconst imm) zero) e =
          let (fits, b) = defs.const_def v imm e in
          rw (b, word_zero imm fits) (let found = rw e at h in cc)
      by_def (result (unary_imm other_opcode imm) zero) e = absurd (let none = rw e at h in cc)
      by_def (result (int_compare_imm _ a imm) zero) e = absurd (let none = rw e at h in cc)
      by_def (result other_instruction zero) e = absurd (let none = rw e at h in cc)
      by_def (result inst (suc n)) e = absurd (let none = rw e at h in cc)
      by_def not_a_result e = absurd (let none = rw e at h in cc)
