-- ===== src/Discriminant/Niche.antt =====
-- src/discriminant.rs, the niche encoding: the emitted decoding against the general algorithm that the
-- source's comment gives.
use rustc_codegen_cranelift.Common.{
  ℕ, ◌+◌, ◌-◌, ◌%◌, ◌≤◌, ◌<◌, ◌≡◌, refl, sym, ap, ◌∙◌, Bool, true, false, leb, ◌==◌, bit,
  Bool-cases, inl, inr, arith, subst, ==_iff, if◌then◌else◌,
}
use native.Mathlib.Nat.{add-mod-mod, mod-add-mod, mod-lt}
use rustc_codegen_cranelift.Clif.Concrete.{modulus_pos}
use rustc_codegen_cranelift.Common.Int.{pos}
use rustc_codegen_cranelift.Common.Word.{to_word, mod_below, sub_cases}
use rustc_codegen_cranelift.Clif.{
  Ty, i8, i16, i32, i64, i128, ty_bits, ty_eq, is_int, IntCc, Clif, isub,
}
use rustc_codegen_cranelift.Clif.Documented.{Documented, modulus, half, int_cc}
use rustc_codegen_cranelift.FunctionCx.{as_i64, codegen_icmp_imm}
use rustc_codegen_cranelift.Num.Exact.{reading}
use rustc_codegen_cranelift.Cast.Integers.{clif_intcast-wraps}
use rustc_codegen_cranelift.Discriminant.{
  sub_u32, iconst_of, untagged_const, relative_tag, add_delta, decode_niche,
}

-- The integer types of one machine word.
unfoldable pub is_small : Ty → Bool
is_small i8 = true
is_small i16 = true
is_small i32 = true
is_small i64 = true
is_small _ = false

small-is_int : (t : Ty) → is_small t ≡ true → is_int t ≡ true
unfolding is_small is_int
small-is_int i8 h = refl
small-is_int i16 h = refl
small-is_int i32 h = refl
small-is_int i64 h = refl
small-is_int _ h = absurd (ground arith)

small_bits : (t : Ty) → is_small t ≡ true → ty_bits t ≤ 64
unfolding is_small ty_bits
small_bits i8 h = omega arith
small_bits i16 h = omega arith
small_bits i32 h = omega arith
small_bits i64 h = omega arith
small_bits _ h = absurd (ground arith)

small_narrow : (t : Ty) → is_small t ≡ true → ty_eq t i128 ≡ false
unfolding is_small ty_eq
small_narrow i8 h = refl
small_narrow i16 h = refl
small_narrow i32 h = refl
small_narrow i64 h = refl
small_narrow _ h = absurd (ground arith)

-- The immediate for a bit pattern is that pattern.
as_i64_word :
    (t : Ty) (n : ℕ) → is_small t ≡ true → to_word (modulus t) (as_i64 (pos n)) ≡ n % modulus t
unfolding is_small as_i64 modulus ty_bits
as_i64_word i8 n h = ground arith
as_i64_word i16 n h = ground arith
as_i64_word i32 n h = ground arith
as_i64_word i64 n h = ground arith
as_i64_word _ n h = absurd (ground arith)

-- The general algorithm, on words with `m` values for the tag and `mm` values for the discriminant.
unfoldable pub general : ℕ → ℕ → ℕ → ℕ → ℕ → ℕ → ℕ → ℕ
general m mm tag untagged_variant first relative_max niche_start =
    let relative = (tag + m - niche_start % m) % m in
    if leb relative relative_max then (relative + first) % mm else untagged_variant % mm

-- A tag is the first niche value when its distance is zero.
no_distance : (a b m : ℕ) → a < m → b < m → (a == b) ≡ leb ((a + m - b) % m) 0
no_distance a b m ha hb = ground (arith, sub_cases a b m ha hb)

at_zero : (a b : ℕ) → leb a 0 ≡ true → b + 0 ≡ a + b
at_zero a b h = ground arith

zero_delta : (a delta m : ℕ) → a < m → (delta == 0) ≡ true → a ≡ (a + delta) % m
zero_delta a delta m h z = ground (arith, mod_below (a + delta) m)

module _ (c : Clif) (d : Documented c) where
  open c use {Value, value_type, select}
  open d use {bits}

  pub iconst_of_bits : (t : Ty) (n : ℕ) → is_small t ≡ true → bits (iconst_of c t n) ≡ n % modulus t
  unfolding iconst_of
  iconst_of_bits t n h =
      rw (small_narrow t h, d.iconst_bits t (as_i64 (pos n)) (small-is_int t h) (small_bits t h))
        (as_i64_word t n h)

  pub iconst_of_type : (t : Ty) (n : ℕ) → is_small t ≡ true → value_type (iconst_of c t n) ≡ t
  unfolding iconst_of
  iconst_of_type t n h = rw (small_narrow t h) (d.iconst_type t (as_i64 (pos n)))

  untagged_bits : (t : Ty) (n : ℕ) → is_small t ≡ true → bits (untagged_const c t n) ≡ n % modulus t
  unfolding untagged_const
  untagged_bits t n h =
      rw (small_narrow t h) (d.iconst_bits t (pos n) (small-is_int t h) (small_bits t h))

  untagged_type : (t : Ty) (n : ℕ) → is_small t ≡ true → value_type (untagged_const c t n) ≡ t
  unfolding untagged_const
  untagged_type t n h = rw (small_narrow t h) (d.iconst_type t (pos n))

  icmp_imm_small :
      (cc : IntCc) (v : Value) (n : ℕ)
      → is_small (value_type v) ≡ true
      → bits (codegen_icmp_imm c cc v (pos n))
        ≡ bit (int_cc cc (half (value_type v)) (bits v) (n % modulus (value_type v)))
  unfolding codegen_icmp_imm
  icmp_imm_small cc v n h =
      rw
        (
          small_narrow (value_type v) h,
          d.icmp_imm_bits cc v (as_i64 (pos n)),
          as_i64_word (value_type v) n h,
        )
        refl

  module _ (cast_to : Ty) (small_to : is_small cast_to ≡ true) where
    add_delta_bits :
        (v : Value) (delta : ℕ)
        → value_type v ≡ cast_to
        → (value_type (add_delta c cast_to v delta) ≡ cast_to)
          × (bits (add_delta c cast_to v delta) ≡ (bits v + delta) % modulus cast_to)
    unfolding add_delta
    add_delta_bits v delta e = elim (Bool-cases (delta == 0)) [
      | inl z ↦ rw z (e, zero_delta (bits v) delta (modulus cast_to) (rw (← e) (d.bits_lt v)) z)
      | inr z ↦ rw z (
        d.iadd_type v _ ∙ e,
        rw (d.iadd_bits, iconst_of_bits cast_to delta small_to, e)
            (add-mod-mod (bits v) delta (modulus cast_to)),
      )
    ]

    module _ (tag : Value) (small_tag : is_small (value_type tag) ≡ true)
        (first niche_start : ℕ) where
      abbrev m : ℕ
      m = modulus (value_type tag)

      start_lt : niche_start % m < m
      start_lt = mod-lt niche_start (modulus_pos (value_type tag))

      -- What the parts of the algorithm are, for the test, the discriminant and the rest to add.
      abbrev Parts : ℕ → Type 0
      Parts relative_max =
          let (is_niche, (tagged_discr, delta)) =
            relative_tag c tag cast_to first relative_max niche_start in
          let distance = (bits tag + m - niche_start % m) % m in
          (bits is_niche ≡ bit (leb distance relative_max))
          × (value_type tagged_discr ≡ cast_to)
          × (leb distance relative_max ≡ true
              → (bits tagged_discr + delta) % modulus cast_to
                ≡ (distance + first) % modulus cast_to)

      one_variant : Parts 0
      unfolding relative_tag int_cc
      one_variant = (
        rw (icmp_imm_small IntCc.equal tag niche_start small_tag)
            (ap bit (no_distance (bits tag) (niche_start % m) m (d.bits_lt tag) start_lt)),
        d.iconst_type cast_to (pos first),
        λ h.
            rw
              (d.iconst_bits cast_to (pos first) (small-is_int cast_to small_to)
                (small_bits cast_to small_to))
              (mod-add-mod first (modulus cast_to) 0
                ∙ ap (λ x. x % modulus cast_to) (at_zero _ first h)),
      )

      relative_bits :
          bits (c.binary isub tag (iconst_of c (value_type tag) niche_start))
          ≡ (bits tag + m - niche_start % m) % m
      relative_bits = rw (d.isub_bits, iconst_of_bits (value_type tag) niche_start small_tag) refl

      many_variants :
          (relative_max : ℕ) → (relative_max == 0) ≡ false → relative_max < m → Parts relative_max
      unfolding relative_tag int_cc reading
      many_variants relative_max z k =
          let relative = c.binary isub tag (iconst_of c (value_type tag) niche_start) in
          let small : is_small (value_type relative) ≡ true =
            rw (d.isub_type tag (iconst_of c (value_type tag) niche_start)) small_tag in
          let (to, wraps) =
            clif_intcast-wraps c d relative cast_to false (small-is_int (value_type relative) small)
              (small-is_int cast_to small_to) in
          rw z (
            rw
                (
                  icmp_imm_small IntCc.unsigned_less_than_or_equal relative relative_max small,
                  relative_bits,
                  d.isub_type,
                  mod_below relative_max m k,
                )
                refl,
            to,
            λ h. rw (wraps, relative_bits) (mod-add-mod _ (modulus cast_to) first),
          )

    select_bit :
        (b : Bool) (s x y : Value) (to_bits other : ℕ)
        → bits s ≡ bit b
        → value_type x ≡ value_type y
        → (b ≡ true → bits x ≡ to_bits)
        → bits y ≡ other
        → bits (select s x y) ≡ (if b then to_bits else other)
    select_bit true s x y p q e t f g = rw (d.select_bits s x y t, e) (f refl)
    select_bit false s x y p q e t f g = rw (d.select_bits s x y t, e) g

    select-Parts :
        (tag : Value) (small_tag : is_small (value_type tag) ≡ true)
        (untagged_variant first last niche_start : ℕ)
        → Parts tag small_tag first niche_start (sub_u32 last first)
        → bits (decode_niche c tag cast_to untagged_variant first last niche_start)
          ≡ general
              (modulus (value_type tag))
              (modulus cast_to)
              (bits tag)
              untagged_variant
              first
              (sub_u32 last first)
              niche_start
    unfolding decode_niche general
    select-Parts tag small_tag untagged_variant first last niche_start (test, to, discr) =
        let (n, (td, delta)) = relative_tag c tag cast_to first (sub_u32 last first) niche_start in
        let (type, value) = add_delta_bits td delta to in
        select_bit (leb _ (sub_u32 last first)) n (add_delta c cast_to td delta)
          (untagged_const c cast_to untagged_variant) _ _ test
          (type ∙ sym (untagged_type cast_to untagged_variant small_to)) (λ h. value ∙ discr h)
          (untagged_bits cast_to untagged_variant small_to)

  -- The emitted decoding of a niche-encoded tag computes the general algorithm, whichever of the simpler
  -- sequences is chosen: with the distance of the tag from the first niche value, a distance within the
  -- niche variants gives that variant, wrapped to the type of the discriminant, and any other the
  -- untagged variant. The tag and the discriminant have at most 64 bits, and the tag's type can count
  -- the niche variants.
  pub decode_niche-general :
      (tag : Value) (cast_to : Ty) (untagged_variant first last niche_start : ℕ)
      → is_small (value_type tag) ≡ true
      → is_small cast_to ≡ true
      → sub_u32 last first < modulus (value_type tag)
      → bits (decode_niche c tag cast_to untagged_variant first last niche_start)
        ≡ general
            (modulus (value_type tag))
            (modulus cast_to)
            (bits tag)
            untagged_variant
            first
            (sub_u32 last first)
            niche_start
  decode_niche-general tag cast_to untagged_variant first last niche_start small_tag small_to k =
      select-Parts cast_to small_to tag small_tag untagged_variant first last niche_start
        (elim (Bool-cases (sub_u32 last first == 0)) [
          | inl z ↦
              subst (Parts cast_to small_to tag small_tag first niche_start)
                (sym ((==_iff (sub_u32 last first) 0).0 z))
                (one_variant cast_to small_to tag small_tag first niche_start)
          | inr z ↦
              many_variants cast_to small_to tag small_tag first niche_start (sub_u32 last first) z
                k
        ])
