-- ===== src/Cast/Integers.antt =====
-- src/cast.rs, `clif_intcast`: the integer that is wrapped to the type.
use rustc_codegen_cranelift.Common.{
  ℕ, ◌*◌, ◌%◌, ◌≤◌, ◌<◌, ◌≡◌, refl, sym, Bool, true, false, leb, Bool-cases, leb→le, inl, inr,
  arith, if◌then◌else◌,
}
use native.Mathlib.Nat.{pow-le-pow_right}
use rustc_codegen_cranelift.Common.Word.{signed, to_word, to_word_at, mod_below}
use rustc_codegen_cranelift.Clif.{
  Ty, i8, i16, i32, i64, i128, f32, f64, by, ty_bits, ty_eq, is_int, Clif, ireduce, sextend,
  uextend,
}
use rustc_codegen_cranelift.Clif.Documented.{Documented, modulus, half, modulus-half, word_lt}
use rustc_codegen_cranelift.Num.Exact.{reading}
use rustc_codegen_cranelift.Cast.{clif_intcast}

pub ty_eq_sound : (a b : Ty) → ty_eq a b ≡ true → a ≡ b
unfolding ty_eq
ty_eq_sound i8 i8 h = refl
ty_eq_sound i16 i16 h = refl
ty_eq_sound i32 i32 h = refl
ty_eq_sound i64 i64 h = refl
ty_eq_sound i128 i128 h = refl
ty_eq_sound f32 f32 h = refl
ty_eq_sound f64 f64 h = refl
ty_eq_sound (by t m) (by u n) h = ground (arith, ty_eq_sound t u)
ty_eq_sound _ _ h = absurd (ground arith)

-- The reading of a word wraps to the word, in its own type and in a narrower one.
reading_word : (s : Bool) (h a : ℕ) → a < 2 * h → to_word (2 * h) (reading s h a) ≡ a
unfolding reading
reading_word false h a k = mod_below a (2 * h) k
reading_word true h a k = to_word_at (signed h a) a (2 * h) k (ground arith)

-- The narrower types, each with its number of words.
narrow_word :
    (t u : Ty) (s : Bool) (a : ℕ)
    → is_int t ≡ true
    → is_int u ≡ true
    → ty_bits u < ty_bits t
    → a < modulus t
    → to_word (modulus u) (reading s (half t) a) ≡ a % modulus u
unfolding reading modulus half is_int ty_bits
narrow_word t u false a i j k h = refl
narrow_word i16 i8 true a i j k h = ground arith
narrow_word i32 i8 true a i j k h = ground arith
narrow_word i32 i16 true a i j k h = ground arith
narrow_word i64 i8 true a i j k h = ground arith
narrow_word i64 i16 true a i j k h = ground arith
narrow_word i64 i32 true a i j k h = ground arith
narrow_word i128 i8 true a i j k h = ground arith
narrow_word i128 i16 true a i j k h = ground arith
narrow_word i128 i32 true a i j k h = ground arith
narrow_word i128 i64 true a i j k h = ground arith
narrow_word _ _ true a i j k h = absurd (ground arith)

pub modulus_le : (t u : Ty) → ty_bits t ≤ ty_bits u → modulus t ≤ modulus u
unfolding modulus
modulus_le t u h = pow-le-pow_right (omega arith) h

module _ (c : Clif) (d : Documented c) where
  open c use {Value, value_type}
  open d use {bits}

  unsigned_fits :
      (v : Value) (to : Ty) → ty_bits (value_type v) ≤ ty_bits to → bits v % modulus to ≡ bits v
  unsigned_fits v to w =
      mod_below (bits v) (modulus to) (omega (arith, d.bits_lt v, modulus_le (value_type v) to w))

  extended :
      (v : Value) (to : Ty) (s : Bool)
      → ty_bits (value_type v) ≤ ty_bits to
      → bits (if s then c.convert sextend to v else c.convert uextend to v)
        ≡ to_word (modulus to) (reading s (half (value_type v)) (bits v))
  unfolding reading
  extended v to true w = d.sextend_bits to v w
  extended v to false w = rw (d.uextend_bits to v w) (sym (unsigned_fits v to w))

  extended_type :
      (v : Value) (to : Ty) (s : Bool)
      → value_type (if s then c.convert sextend to v else c.convert uextend to v) ≡ to
  extended_type v to true = d.convert_type sextend to v
  extended_type v to false = d.convert_type uextend to v

  own_word :
      (v : Value) (s : Bool)
      → is_int (value_type v) ≡ true
      → to_word (modulus (value_type v)) (reading s (half (value_type v)) (bits v)) ≡ bits v
  own_word v s i =
      rw (modulus-half (value_type v) i)
        (reading_word s (half (value_type v)) (bits v) (word_lt c d v i))

  -- A cast of an integer, read as signed or not, to an integer type: the result has the type, and its
  -- word is that of the integer wrapped to the type.
  pub clif_intcast-wraps :
      (v : Value) (to : Ty) (s : Bool)
      → is_int (value_type v) ≡ true
      → is_int to ≡ true
      → (value_type (clif_intcast c v to s) ≡ to)
        × (bits (clif_intcast c v to s)
            ≡ to_word (modulus to) (reading s (half (value_type v)) (bits v)))
  unfolding clif_intcast
  clif_intcast-wraps v to s i j = elim (Bool-cases (ty_eq (value_type v) to)) [
    | inl e ↦ rw e (
      ty_eq_sound (value_type v) to e,
      rw (← ty_eq_sound (value_type v) to e) (sym (own_word v s i)),
    )
    | inr e ↦ elim (Bool-cases (leb (ty_bits (value_type v)) (ty_bits to))) [
      | inl w ↦ rw (e, w) (extended_type v to s, extended v to s (leb→le _ _ w))
      | inr w ↦
          rw (e, w)
            (
              d.convert_type ireduce to v,
              rw (d.ireduce_bits to v)
                  (sym (narrow_word (value_type v) to s (bits v) i j (ground arith) (d.bits_lt v))),
            )
    ]
  ]
