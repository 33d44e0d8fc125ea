-- ===== src/Discriminant/RoundTrip.antt =====
-- src/discriminant.rs: a discriminant that is set is the one that is read.
use rustc_codegen_cranelift.Common.{
  ℕ, ◌+◌, ◌-◌, ◌%◌, ◌^◌, ◌≤◌, ◌<◌, ◌≡◌, refl, ap, ◌∙◌, true, false, ◌==◌, arith, le→leb,
}
use native.Mathlib.Nat.{mod-lt}
use rustc_codegen_cranelift.Common.Word.{mod_below, add_cases, sub_cases}
use rustc_codegen_cranelift.Clif.{Ty, i8, i16, i32, i64, ty_bits, Clif}
use rustc_codegen_cranelift.Clif.Documented.{Documented, modulus}
use rustc_codegen_cranelift.Discriminant.{
  sub_u32, iconst_of, decode_niche, niche_tag, encode_niche, codegen_set_discriminant,
  codegen_get_discriminant, value_field,
}
use rustc_codegen_cranelift.Discriminant.Niche.{
  is_small, general, decode_niche-general, iconst_of_bits, iconst_of_type,
}
use rustc_codegen_cranelift.Codegen.{Tcx, ok, Layout, Primitive, multiple, niche}
use rustc_codegen_cranelift.Types.{clif_type}
use rustc_codegen_cranelift.ValueAndPlace.{CValue}
use rustc_codegen_cranelift.ValueAndPlace
use rustc_codegen_cranelift.Common.{some}

-- The distance of the encoded tag from the first niche value is that of the variant.
encoded_distance :
    (v first start m : ℕ)
    → first ≤ v
    → v - first < m
    → start < m
    → ((v - first + start) % m + m - start % m) % m ≡ v - first
encoded_distance v first start m h k l = ground (
  arith,
  mod_below start m,
  add_cases (v - first) start m k l,
  sub_cases ((v - first + start) % m) start m (mod-lt (v - first + start) (omega arith)) l,
)

sub_u32_lem : (a b : ℕ) → b ≤ a → a < 2 ^ 32 → sub_u32 a b ≡ a - b
unfolding sub_u32
sub_u32_lem a b h k = omega arith

encoded_tag :
    (t : Ty) (v first start : ℕ)
    → is_small t ≡ true
    → first ≤ v
    → v < 2 ^ 32
    → start < modulus t
    → niche_tag v first start ≡ v - first + start
unfolding niche_tag is_small modulus ty_bits
encoded_tag i8 v first start s h k l = rw (sub_u32_lem v first h k) (omega arith)
encoded_tag i16 v first start s h k l = rw (sub_u32_lem v first h k) (omega arith)
encoded_tag i32 v first start s h k l = rw (sub_u32_lem v first h k) (omega arith)
encoded_tag i64 v first start s h k l = rw (sub_u32_lem v first h k) (omega arith)
encoded_tag _ v first start s h k l = absurd (ground arith)

general_of_encoded :
    (m mm v untagged_variant first last start : ℕ)
    → first ≤ v
    → v ≤ last
    → last - first < m
    → start < m
    → general m mm ((v - first + start) % m) untagged_variant first (last - first) start ≡ v % mm
unfolding general
general_of_encoded m mm v untagged_variant first last start h k l s =
    rw (encoded_distance v first start m h (omega arith) s)
      (rw (le→leb (v - first) (last - first) (omega arith)) (ap (λ x. x % mm) (omega arith)))

module _ (c : Clif) (d : Documented c) where
  open c use {Value, value_type}
  open d use {bits}

  pub encode-decode_niche :
      (t cast_to : Ty) (v untagged_variant first last start : ℕ)
      → is_small t ≡ true
      → is_small cast_to ≡ true
      → first ≤ v
      → v ≤ last
      → last < 2 ^ 32
      → last - first < modulus t
      → start < modulus t
      → bits (
          decode_niche c (encode_niche c t v first start) cast_to untagged_variant first last start)
        ≡ v % modulus cast_to
  unfolding encode_niche
  encode-decode_niche t cast_to v untagged_variant first last start st sc h k l w s =
      let tag = iconst_of c t (niche_tag v first start) in
      let tag_type = iconst_of_type c d t (niche_tag v first start) st in
      let max = sub_u32_lem last first (omega arith) l in
      decode_niche-general c d tag cast_to untagged_variant first last start (rw tag_type st) sc
        (rw (tag_type, max) w)
      ∙ rw
          (
            tag_type,
            max,
            iconst_of_bits c d t (niche_tag v first start) st,
            encoded_tag t v first start st h (omega arith) s,
          )
          (general_of_encoded (modulus t) (modulus cast_to) v untagged_variant first last start h k
            w s)

  module _ (tcx : Tcx) (pointer_type : Ty) where
    -- In an enum with a niche, setting the discriminant of an inhabited variant of the niche gives the
    -- encoded tag for the tag field, and reading the discriminant of a value whose tag field holds that
    -- tag gives the variant's index, wrapped to the type of the discriminant. Neither panics. The niche
    -- variants are in order and are `u32`, the tag and the discriminant have at most 64 bits, and the
    -- tag's type holds the first niche value and can count the niche variants.
    pub niche_discriminant-round_trip :
        (dest : Layout) (value : CValue c) (prim : Primitive)
        (tag_field v untagged_variant first last start : ℕ) (t cast_to : Ty) (fx : c.Fx)
        → tcx.variants value.layout
          ≡ multiple prim tag_field (niche untagged_variant first last start)
        → tcx.variant_is_uninhabited value.layout v ≡ false
        → tcx.is_uninhabited value.layout ≡ false
        → clif_type tcx (tcx.layout_field value.layout tag_field).ty ≡ ok (some t)
        → clif_type tcx dest.ty ≡ ok (some cast_to)
        → is_small t ≡ true
        → is_small cast_to ≡ true
        → (v == untagged_variant) ≡ false
        → first ≤ v
        → v ≤ last
        → last < 2 ^ 32
        → last - first < modulus t
        → start < modulus t
        → value_field c tcx pointer_type value tag_field fx
          ≡ ok (
            ValueAndPlace.val c tcx pointer_type
                (encode_niche c t v first start)
                (tcx.layout_field value.layout tag_field),
            fx,
          )
        → (codegen_set_discriminant c tcx pointer_type value.layout v fx
            ≡ ok (
              some (
                tag_field,
                ValueAndPlace.val c tcx pointer_type
                    (encode_niche c t v first start)
                    (tcx.layout_field value.layout tag_field),
              ),
              fx,
            ))
          × ((discr : Value) × (codegen_get_discriminant c tcx pointer_type value dest fx
                ≡ ok (some (ValueAndPlace.val c tcx pointer_type discr dest), fx))
              × (bits discr ≡ v % modulus cast_to))
    unfolding codegen_set_discriminant codegen_get_discriminant ValueAndPlace.load_scalar
    niche_discriminant-round_trip dest value prim tag_field v untagged_variant first last start t
          cast_to fx variants inhabited inhabited' tag_type dest_type st sc tagged h k l w s held =
        (
          rw (variants, inhabited, tagged, tag_type) refl,
          (
            decode_niche c (encode_niche c t v first start) cast_to untagged_variant first last
                start,
            rw (variants, inhabited', dest_type) (ground (arith, held)),
            encode-decode_niche t cast_to v untagged_variant first last start st sc h k l w s,
          ),
        )
