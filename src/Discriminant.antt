-- ===== src/Discriminant.antt =====
-- src/discriminant.rs: the discriminants of enums. The place that is written is a result here: the
-- function gives the value to write, and for an enum the field of the place that it goes to.
pub mod Niche
pub mod RoundTrip
use rustc_codegen_cranelift.Common.{
  ℕ, ◌+◌, ◌-◌, ◌*◌, ◌%◌, ◌^◌, Bool, true, false, Option, none, some, ◌||◌, ◌&&◌, leb, ◌==◌,
  if◌then◌else◌,
}
use rustc_codegen_cranelift.Common.Int.{ℤ, pos}
use rustc_codegen_cranelift.Clif.{Ty, i64, i128, ty_eq, IntCc, Clif, iadd, isub}
use rustc_codegen_cranelift.Codegen.{
  Tcx, Cg, pure, fail, lift, assert, unwrap, ◌>>=◌, ◌>>◌, RustTy, uint, int, UintTy, IntTy, Layout,
  Primitive, int_prim, BackendRepr, scalar_pair, TagEncoding, direct, niche, Variants, single,
  multiple,
}
use rustc_codegen_cranelift.Types.{clif_type}
use rustc_codegen_cranelift.FunctionCx.{as_i64, iconst_i128, codegen_icmp_imm}
use rustc_codegen_cranelift.Pointer
use rustc_codegen_cranelift.ValueAndPlace.{CValue, CValueInner, by_ref, by_val, by_val_pair}
use rustc_codegen_cranelift.ValueAndPlace
use rustc_codegen_cranelift.Cast.{clif_intcast}

-- The difference of two `u32`.
unfoldable pub sub_u32 : ℕ → ℕ → ℕ
sub_u32 a b = (a + 2 ^ 32 - b) % 2 ^ 32

-- `Size::truncate`, for a size in bytes.
unfoldable pub truncate : ℕ → ℕ → ℕ
truncate size n = n % 2 ^ (8 * size)

-- The tag of a variant that is not the untagged one.
unfoldable pub niche_tag : ℕ → ℕ → ℕ → ℕ
niche_tag variant_index first niche_start = (sub_u32 variant_index first + niche_start) % 2 ^ 128

module _ (c : Clif) where
  open c use {Value, value_type, iconst, icmp, select, binary, iconcat}

  -- A constant of an integer type, given by its bit pattern.
  unfoldable pub iconst_of : Ty → ℕ → Value
  iconst_of ty n = if ty_eq ty i128 then iconst_i128 c n else iconst ty (as_i64 (pos n))

  -- A variant index as a constant.
  unfoldable pub untagged_const : Ty → ℕ → Value
  untagged_const cast_to n =
      if ty_eq cast_to i128
      then iconcat (iconst i64 (pos n)) (iconst i64 (pos 0))
      else iconst cast_to (pos n)

  -- The test for a niche value, the discriminant of a niche value, and what is to be added to it.
  unfoldable pub relative_tag : Value → Ty → ℕ → ℕ → ℕ → Value × (Value × ℕ)
  relative_tag tag cast_to first relative_max niche_start =
      if relative_max == 0
      then (codegen_icmp_imm c IntCc.equal tag (pos niche_start), (iconst cast_to (pos first), 0))
      else (let relative_discr = binary isub tag (iconst_of (value_type tag) niche_start) in
          (
            codegen_icmp_imm c IntCc.unsigned_less_than_or_equal relative_discr (pos relative_max),
            (clif_intcast c relative_discr cast_to false, first),
          ))

  unfoldable pub add_delta : Ty → Value → ℕ → Value
  add_delta cast_to tagged_discr delta =
      if delta == 0 then tagged_discr else binary iadd tagged_discr (iconst_of cast_to delta)

  -- The discriminant that a niche-encoded tag stands for.
  unfoldable pub decode_niche : Value → Ty → ℕ → ℕ → ℕ → ℕ → Value
  decode_niche tag cast_to untagged_variant first last niche_start =
      let (is_niche, (tagged_discr, delta)) =
        relative_tag tag cast_to first (sub_u32 last first) niche_start in
      select is_niche (add_delta cast_to tagged_discr delta)
        (untagged_const cast_to untagged_variant)

  unfoldable pub encode_niche : Ty → ℕ → ℕ → ℕ → Value
  encode_niche niche_type variant_index first niche_start =
      iconst_of niche_type (niche_tag variant_index first niche_start)

module _ (c : Clif) (tcx : Tcx) (pointer_type : Ty) where
  open c use {Value}

  narrow_const : Layout → ℕ → Cg c Value
  unfolding truncate clif_type as_i64
  narrow_const layout n = do
    t ← lift (clif_type tcx layout.ty)
    clif_ty ← unwrap t
    pure (c.iconst clif_ty (as_i64 (pos (truncate layout.size n))))

  discr_const_of : RustTy → Layout → ℕ → Cg c Value
  unfolding narrow_const iconst_i128
  discr_const_of (uint UintTy.u128) layout n = pure (iconst_i128 c n)
  discr_const_of (int IntTy.i128) layout n = pure (iconst_i128 c n)
  discr_const_of (uint _) layout n = narrow_const layout n
  discr_const_of (int _) layout n = narrow_const layout n
  discr_const_of _ layout n = fail

  -- A discriminant as a constant of the type of the layout.
  unfoldable pub discr_const : Layout → ℕ → Cg c Value
  unfolding discr_const_of
  discr_const layout n = discr_const_of layout.ty layout n

  write_direct : Layout → ℕ → ℕ → Cg c (Option (ℕ × CValue c))
  unfolding discr_const
  write_direct layout tag_field variant_index = do
    discr ← unwrap (tcx.discriminant_for_variant layout.ty variant_index)
    let field = tcx.layout_field layout tag_field
    to ← discr_const field discr
    pure (some (tag_field, ValueAndPlace.val c tcx pointer_type to field))

  write_niche : Layout → ℕ → ℕ → ℕ → ℕ → Cg c (Option (ℕ × CValue c))
  unfolding encode_niche clif_type
  write_niche layout tag_field variant_index first niche_start = do
    let field = tcx.layout_field layout tag_field
    t ← lift (clif_type tcx field.ty)
    niche_type ← unwrap t
    let v = encode_niche c niche_type variant_index first niche_start
    pure (some (tag_field, ValueAndPlace.val c tcx pointer_type v field))

  write_variant : Variants → Layout → ℕ → Cg c (Option (ℕ × CValue c))
  unfolding write_direct write_niche
  write_variant (single index) layout variant_index = assert (index == variant_index) >> pure none
  write_variant (multiple tag tag_field direct) layout variant_index =
      write_direct layout tag_field variant_index
  write_variant (multiple tag tag_field (niche untagged first last start)) layout variant_index =
      if variant_index == untagged
      then pure none
      else write_niche layout tag_field variant_index first start

  unfoldable pub codegen_set_discriminant : Layout → ℕ → Cg c (Option (ℕ × CValue c))
  unfolding write_variant
  codegen_set_discriminant layout variant_index =
      if tcx.variant_is_uninhabited layout variant_index
      then pure none
      else write_variant (tcx.variants layout) layout variant_index

  -- `value_field` of a field of a sized type.
  field_of : CValueInner c → BackendRepr → Layout → ℕ → Cg c (CValue c)
  field_of (by_val_pair a b) (scalar_pair _ _) layout field =
      if field == 0
      then pure (ValueAndPlace.val c tcx pointer_type a (tcx.layout_field layout 0))
      else if field == 1
      then pure (ValueAndPlace.val c tcx pointer_type b (tcx.layout_field layout 1))
      else fail
  field_of (by_ref ptr none) repr layout field = do
    q ← lift (Pointer.offset_i64 c pointer_type ptr (pos (layout.offset field)))
    pure (ValueAndPlace.at_ref c tcx pointer_type q (tcx.layout_field layout field))
  field_of _ repr layout field = fail

  unfoldable pub value_field : CValue c → ℕ → Cg c (CValue c)
  unfolding field_of
  value_field v field = field_of v.inner v.layout.backend_repr v.layout field

  tag_sign : Primitive → Bool
  tag_sign (int_prim _ signed) = signed
  tag_sign _ = false

  decode : TagEncoding → Primitive → Value → Ty → Value
  unfolding decode_niche clif_intcast tag_sign
  decode direct prim tag cast_to = clif_intcast c tag cast_to (tag_sign prim)
  decode (niche untagged first last start) prim tag cast_to =
      decode_niche c tag cast_to untagged first last start

  read_variant : Variants → CValue c → Layout → Cg c (CValue c)
  unfolding discr_const clif_type value_field decode
  read_variant (single index) value dest_layout = do
    v ← discr_const dest_layout (elim (tcx.discriminant_for_variant value.layout.ty index) [
      | none ↦ index
      | some discr ↦ discr
    ])
    pure (ValueAndPlace.val c tcx pointer_type v dest_layout)
  read_variant (multiple prim tag_field encoding) value dest_layout = do
    t ← lift (clif_type tcx dest_layout.ty)
    cast_to ← unwrap t
    field ← value_field value tag_field
    tag ← ValueAndPlace.load_scalar c tcx pointer_type field
    pure (ValueAndPlace.val c tcx pointer_type (decode encoding prim tag cast_to) dest_layout)

  -- The value that is written to the destination, if one is.
  unfoldable pub codegen_get_discriminant : CValue c → Layout → Cg c (Option (CValue c))
  unfolding read_variant
  codegen_get_discriminant value dest_layout =
      if tcx.is_uninhabited value.layout
      then pure none
      else (read_variant (tcx.variants value.layout) value dest_layout >>= λ v. pure (some v))
