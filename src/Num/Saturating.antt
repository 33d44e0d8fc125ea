-- ===== src/Num/Saturating.antt =====
-- src/num.rs, `codegen_saturating_int_binop`: the result against the exact one, clamped to the type.
use rustc_codegen_cranelift.Common.{
  ℕ, ◌+◌, ◌-◌, ◌*◌, ◌%◌, ◌^◌, ◌<◌, ◌≤◌, ◌≡◌, refl, sym, ap, ◌∙◌, Bool, true, false, some, bit,
  arith, if◌then◌else◌,
}
use rustc_codegen_cranelift.Common.Int.{ℤ, pos, negsuc, ltb_ℤ, leb_ℤ, ◌+ℤ◌, ◌-ℤ◌}
use rustc_codegen_cranelift.Common.Word.{signed, to_word, misfits, mod_below, signed_zero}
use native.Mathlib.Nat.{zero-mod}
use rustc_codegen_cranelift.Clif.{Ty, i8, i16, i32, i64, i128, ty_bits, ty_eq, is_int, IntCc, Clif}
use rustc_codegen_cranelift.Clif.Documented.{
  Documented, modulus, half, modulus-half, int_cc, word_lt, word_lt_of,
}
use rustc_codegen_cranelift.Codegen.{Tcx, BinOp, Layout, ok}
use rustc_codegen_cranelift.Types.{type_sign, clif_type}
use rustc_codegen_cranelift.ValueAndPlace
use rustc_codegen_cranelift.ValueAndPlace.Assignable.{rust_ty_eq_refl}
use rustc_codegen_cranelift.Num.IntOps.{saturate, codegen_saturating_int_binop}
use rustc_codegen_cranelift.Num.Overflow.{AddOrSub, checked_int_binop-Computes}
use rustc_codegen_cranelift.FunctionCx.{high_i64, type_min_max_value}
use rustc_codegen_cranelift.Num.Exact.{reading, exact}

-- The ends of a type with `2 * h` values.
abbrev pub least : Bool → ℕ → ℤ
least true h = negsuc (h - 1)
least false h = pos 0

abbrev pub greatest : Bool → ℕ → ℤ
greatest true h = pos (h - 1)
greatest false h = pos (2 * h - 1)

unfoldable pub clamp : Bool → ℕ → ℤ → ℤ
clamp s h z =
    if ltb_ℤ z (least s h) then least s h else if ltb_ℤ (greatest s h) z then greatest s h else z

-- The words of the ends.
abbrev pub least_word : Bool → ℕ → ℕ
least_word true h = h
least_word false h = 0

abbrev pub greatest_word : Bool → ℕ → ℕ
greatest_word true h = h - 1
greatest_word false h = 2 * h - 1

reading-fits :
    (s : Bool) (h : ℕ) (z : ℤ)
    → 0 < h
    → misfits s h z ≡ false
    → (reading s h (to_word (2 * h) z) ≡ z) × (clamp s h z ≡ z)
unfolding reading clamp
reading-fits true h (pos n) k fits = (ground (arith, mod_below n (2 * h)), ground arith)
reading-fits true h (negsuc n) k fits = (ground (arith, mod_below n (2 * h)), ground arith)
reading-fits false h (pos n) k fits = (ground (arith, mod_below n (2 * h)), ground arith)
reading-fits false h (negsuc n) k fits = absurd (ground arith)

least-reading : (s : Bool) (h : ℕ) → 0 < h → reading s h (least_word s h) ≡ least s h
unfolding reading
least-reading true h k = ground arith
least-reading false h k = refl

greatest-reading : (s : Bool) (h : ℕ) → 0 < h → reading s h (greatest_word s h) ≡ greatest s h
unfolding reading
greatest-reading true h k = ground arith
greatest-reading false h k = refl

-- The end that the operation takes on overflow, from the sign of the right operand.
abbrev pub end_word : BinOp → Bool → ℕ → ℕ → ℕ
end_word BinOp.add false h r = greatest_word false h
end_word BinOp.sub false h r = least_word false h
end_word BinOp.add true h r =
    if leb_ℤ (pos 0) (signed h r) then greatest_word true h else least_word true h
end_word BinOp.sub true h r =
    if leb_ℤ (pos 0) (signed h r) then least_word true h else greatest_word true h
end_word _ s h r = 0

module _ (h l r : ℕ) (k : 0 < h) (hl : l < 2 * h) (hr : r < 2 * h) where
  end_add_unsigned :
      misfits false h (pos l +ℤ pos r) ≡ true → greatest false h ≡ clamp false h (pos l +ℤ pos r)
  unfolding clamp ◌+ℤ◌
  end_add_unsigned o = ground arith

  end_sub_unsigned :
      misfits false h (pos l -ℤ pos r) ≡ true → least false h ≡ clamp false h (pos l -ℤ pos r)
  unfolding clamp ◌-ℤ◌
  end_sub_unsigned o = ground arith

  end_add_signed :
      misfits true h (signed h l +ℤ signed h r) ≡ true
      → reading true h (end_word BinOp.add true h r) ≡ clamp true h (signed h l +ℤ signed h r)
  unfolding reading clamp ◌+ℤ◌
  end_add_signed o = ground arith

  end_sub_signed :
      misfits true h (signed h l -ℤ signed h r) ≡ true
      → reading true h (end_word BinOp.sub true h r) ≡ clamp true h (signed h l -ℤ signed h r)
  unfolding reading clamp ◌-ℤ◌
  end_sub_signed o = ground arith

module _ (c : Clif) (d : Documented c) where
  open c use {Value, Fx, value_type}
  open d use {bits}

  abbrev Ends : Bool → Ty → Value × Value → Type 0
  Ends s t m =
      (value_type m.0 ≡ t)
      × (value_type m.1 ≡ t)
      × (bits m.0 ≡ least_word s (half t))
      × (bits m.1 ≡ greatest_word s (half t))

  module _ (s : Bool) (t : Ty) (narrow : ty_bits t ≤ 64) (i : is_int t ≡ true) where
    const-Ends :
        (x y : ℤ)
        → to_word (modulus t) x ≡ least_word s (half t)
        → to_word (modulus t) y ≡ greatest_word s (half t)
        → Ends s t (c.iconst t x, c.iconst t y)
    const-Ends x y hx hy = (
      d.iconst_type t x,
      d.iconst_type t y,
      d.iconst_bits t x i narrow ∙ hx,
      d.iconst_bits t y i narrow ∙ hy,
    )

  wide_const :
      (x y : ℤ)
      → bits (c.iconcat (c.iconst i64 x) (c.iconst i64 y))
        ≡ (to_word (modulus i64) x + to_word (modulus i64) y * 2 ^ 64) % 2 ^ 128
  unfolding ty_bits is_int
  wide_const x y = rw (
    d.iconcat_bits,
    d.iconst_bits i64 x refl (omega arith),
    d.iconst_bits i64 y refl (omega arith),
  )

  min_max-Ends :
      (t : Ty) (s : Bool) (fx : Fx)
      → is_int t ≡ true
      → (m : Value × Value) × (type_min_max_value c t s fx ≡ ok (m, fx)) × Ends s t m
  unfolding type_min_max_value is_int ty_bits modulus half ty_eq high_i64
  min_max-Ends i8 true fx i = (_, refl, const-Ends true i8 (omega arith) refl _ _ refl refl)
  min_max-Ends i8 false fx i = (_, refl, const-Ends false i8 (omega arith) refl _ _ refl refl)
  min_max-Ends i16 true fx i = (_, refl, const-Ends true i16 (omega arith) refl _ _ refl refl)
  min_max-Ends i16 false fx i = (_, refl, const-Ends false i16 (omega arith) refl _ _ refl refl)
  min_max-Ends i32 true fx i = (_, refl, const-Ends true i32 (omega arith) refl _ _ refl refl)
  min_max-Ends i32 false fx i = (_, refl, const-Ends false i32 (omega arith) refl _ _ refl refl)
  min_max-Ends i64 true fx i = (_, refl, const-Ends true i64 (omega arith) refl _ _ refl refl)
  min_max-Ends i64 false fx i = (_, refl, const-Ends false i64 (omega arith) refl _ _ refl refl)
  min_max-Ends i128 true fx i =
      (_, refl, (d.iconcat_type _ _, d.iconcat_type _ _, wide_const _ _, wide_const _ _))
  min_max-Ends i128 false fx i =
      (_, refl, (d.iconcat_type _ _, d.iconcat_type _ _, wide_const _ _, wide_const _ _))
  min_max-Ends _ s fx i = absurd (ground arith)

  choose :
      (t : Ty) (o a b : Value) (p : Bool)
      → value_type a ≡ t
      → value_type b ≡ t
      → bits o ≡ bit p
      → bits (c.select o a b) ≡ (if p then bits a else bits b)
  choose t o a b true ta tb e = rw (d.select_bits o a b (ta ∙ sym tb), e)
  choose t o a b false ta tb e = rw (d.select_bits o a b (ta ∙ sym tb), e)

  module _ (tcx : Tcx) (pointer_type : Ty) (l r : Value) (layout : Layout) (fx : Fx)
      (i : is_int (value_type l) ≡ true) (same : value_type l ≡ value_type r) where
    abbrev t : Ty
    t = value_type l

    rhs_ge_zero : Value
    rhs_ge_zero = c.icmp_imm IntCc.signed_greater_than_or_equal r (pos 0)

    half_pos : 0 < half t
    half_pos = omega (arith, modulus-half t i, d.bits_lt l)

    rhs_ge_zero_bits : bits rhs_ge_zero ≡ bit (leb_ℤ (pos 0) (signed (half t) (bits r)))
    unfolding rhs_ge_zero int_cc
    rhs_ge_zero_bits =
        rw (d.icmp_imm_bits, ← same, zero-mod)
          (ap (λ z. bit (leb_ℤ z (signed (half t) (bits r)))) (signed_zero (half t) half_pos))

    module _ (m : Value × Value) (v o : Value) (z : ℤ) (tv : value_type v ≡ t)
        (hv : bits v ≡ to_word (modulus t) z) where
      -- What `saturate` is to give.
      abbrev Saturates : BinOp → Bool → Type 0
      Saturates op s =
          (w : Value) × (saturate c tcx pointer_type op s m.0 m.1
              (ValueAndPlace.val c tcx pointer_type r layout) v o fx
            ≡ ok (w, fx))
          × (value_type w ≡ t)
          × (bits w ≡ (
              if misfits s (half t) z
              then end_word op s (half t) (bits r)
              else to_word (modulus t) z))

      taken :
          (e : Value) (n : ℕ) (p : Bool)
          → value_type e ≡ t
          → bits e ≡ n
          → bits o ≡ bit p
          → (value_type (c.select o e v) ≡ t)
            × (bits (c.select o e v) ≡ (if p then n else to_word (modulus t) z))
      taken e n p te he ho = (d.select_type o e v ∙ te, rw (choose t o e v p te tv ho, he, hv))

      saturate-value :
          (op : BinOp) (s : Bool)
          → AddOrSub op
          → Ends s t m
          → bits o ≡ bit (misfits s (half t) z)
          → Saturates op s
      unfolding saturate ValueAndPlace.load_scalar rhs_ge_zero
      saturate-value BinOp.add false a (tl, tg, hl, hg) ho =
          let (tw, hw) = taken m.1 _ (misfits false (half t) z) tg hg ho in (_, refl, tw, hw)
      saturate-value BinOp.sub false a (tl, tg, hl, hg) ho =
          let (tw, hw) = taken m.0 _ (misfits false (half t) z) tl hl ho in (_, refl, tw, hw)
      saturate-value BinOp.add true a (tl, tg, hl, hg) ho =
          let (tw, hw) =
            taken (c.select rhs_ge_zero m.1 m.0) _ (misfits true (half t) z)
              (d.select_type _ _ _ ∙ tg)
              (rw (choose t rhs_ge_zero m.1 m.0 _ tg tl rhs_ge_zero_bits, hg, hl)) ho in
          (_, refl, tw, hw)
      saturate-value BinOp.sub true a (tl, tg, hl, hg) ho =
          let (tw, hw) =
            taken (c.select rhs_ge_zero m.0 m.1) _ (misfits true (half t) z)
              (d.select_type _ _ _ ∙ tl)
              (rw (choose t rhs_ge_zero m.0 m.1 _ tl tg rhs_ge_zero_bits, hg, hl)) ho in
          (_, refl, tw, hw)
      saturate-value _ s a ends ho = absurd a

-- The chosen word stands for the clamped integer.
chosen-clamp :
    (op : BinOp) (s : Bool) (h l r : ℕ)
    → AddOrSub op
    → 0 < h
    → l < 2 * h
    → r < 2 * h
    → (p : Bool) → misfits s h (exact op s h l r) ≡ p
    → reading s h (if p then end_word op s h r else to_word (2 * h) (exact op s h l r))
      ≡ clamp s h (exact op s h l r)
unfolding exact reading
chosen-clamp op s h l r a k hl hr false e =
    let (same, kept) = reading-fits s h (exact op s h l r) k e in same ∙ sym kept
chosen-clamp BinOp.add true h l r a k hl hr true e = end_add_signed h l r k hl hr e
chosen-clamp BinOp.add false h l r a k hl hr true e = end_add_unsigned h l r k hl hr e
chosen-clamp BinOp.sub true h l r a k hl hr true e = end_sub_signed h l r k hl hr e
chosen-clamp BinOp.sub false h l r a k hl hr true e = end_sub_unsigned h l r k hl hr e
chosen-clamp _ s h l r a k hl hr true e = absurd a

module _ (c : Clif) (d : Documented c) (tcx : Tcx) (pointer_type : Ty) where
  open c use {Value, Fx, value_type}
  open d use {bits}

  -- A saturating addition or subtraction of two integers of one type, of any width: it comes back with a
  -- value of that type which stands for the exact result, clamped to the ends of the type.
  pub saturating_int_binop-clamps :
      (op : BinOp) (s : Bool) (l r : Value) (layout : Layout) (fx : Fx)
      → AddOrSub op
      → type_sign layout.ty ≡ ok s
      → clif_type tcx layout.ty ≡ ok (some (value_type l))
      → is_int (value_type l) ≡ true
      → value_type l ≡ value_type r
      → (w : Value) × (codegen_saturating_int_binop c tcx pointer_type op
            (ValueAndPlace.val c tcx pointer_type l layout)
            (ValueAndPlace.val c tcx pointer_type r layout)
            fx
          ≡ ok (ValueAndPlace.val c tcx pointer_type w layout, fx))
        × (value_type w ≡ value_type l)
        × (reading s (half (value_type l)) (bits w)
            ≡ clamp s (half (value_type l)) (exact op s (half (value_type l)) (bits l) (bits r)))
  unfolding codegen_saturating_int_binop ValueAndPlace.load_scalar_pair
  saturating_int_binop-clamps op s l r layout fx a sign known i same =
      let (v, o, checked, tv, hv, _, ho) =
        checked_int_binop-Computes c d tcx pointer_type op s l r layout fx a sign i same in
      let (m, ends_run, ends) = min_max-Ends c d (value_type l) s fx i in
      let z = exact op s (half (value_type l)) (bits l) (bits r) in
      let (w, chosen, tw, hw) =
        saturate-value c d tcx pointer_type l r layout fx i same m v o z tv hv op s a ends ho in
      let below : bits r < 2 * half (value_type l) = word_lt_of c d l r i same in
      (
        w,
        rw (rust_ty_eq_refl layout.ty) (ground arith),
        tw,
        rw (hw, modulus-half (value_type l) i)
            (chosen-clamp op s (half (value_type l)) (bits l) (bits r) a (omega (arith, below))
              (word_lt c d l i) below _ refl),
      )
