-- ===== src/Unsize/Coerce.antt =====
-- src/unsize.rs: pointers to values of a known size become pointers to unsized ones. Left out: `dyn*`.
use rustc_codegen_cranelift.Common.{
  ℕ, zero, suc, ◌*◌, ◌%◌, ◌^◌, ◌==◌, ltb, Bool, true, false, not, ◌||◌, Option, none, some,
  if◌then◌else◌,
}
use rustc_codegen_cranelift.Common.Int.{pos}
use rustc_codegen_cranelift.Clif.{Ty, ty_bytes, Clif}
use rustc_codegen_cranelift.Codegen.{
  Tcx, Cg, pure, fail, lift, assert, unwrap, ◌>>=◌, ◌>>◌, Layout, RustTy, rust_ty_eq, array, slice,
  dynamic, ref, raw_ptr, adt,
}
use rustc_codegen_cranelift.Pointer
use rustc_codegen_cranelift.FunctionCx.{as_i64}
use rustc_codegen_cranelift.ValueAndPlace.{CValue}
use rustc_codegen_cranelift.ValueAndPlace
use rustc_codegen_cranelift.ValueAndPlace.Place.{CPlace}
use rustc_codegen_cranelift.ValueAndPlace.Fields.{codegen_value_field, place_field}
use rustc_codegen_cranelift.ValueAndPlace.Write.{write_cvalue}
use rustc_codegen_cranelift.ValueAndPlace.Literals.{is_zst}
use rustc_codegen_cranelift.Body.Operands.{address_of}

same_principal : Option ℕ → Option ℕ → Bool
same_principal none none = true
same_principal (some a) (some b) = a == b
same_principal _ _ = false

no_principal : Option ℕ → Bool
no_principal none = true
no_principal (some _) = false

module _ (c : Clif) (tcx : Tcx) (pointer_type : Ty) (depth : ℕ) where
  open c use {Value, iconst}

  get_vtable : RustTy → Option ℕ → Cg c Value
  unfolding address_of
  get_vtable ty trait_ref = address_of c tcx pointer_type (tcx.vtable_allocation ty trait_ref)

  -- The vtable of a supertrait, from its slot in that of the subtrait.
  upcast : Option ℕ → Value → Cg c Value
  unfolding ty_bytes
  upcast none old_info = pure old_info
  upcast (some entry_idx) old_info = do
    assert (ltb entry_idx (2 ^ 32))
    let entry_offset = entry_idx * ty_bytes pointer_type % 2 ^ 32
    q ←
        lift (
          Pointer.offset_i64 c pointer_type (Pointer.new c pointer_type old_info)
            (pos entry_offset))
    Pointer.load_ptr c pointer_type q pointer_type

  unfoldable pub info_of : RustTy → RustTy → Option Value → Cg c Value
  unfolding as_i64 same_principal no_principal upcast get_vtable
  info_of (array _ len) (slice _) old_info = pure (iconst pointer_type (as_i64 (pos len)))
  info_of (dynamic data_a) (dynamic data_b) old_info = do
    old ← unwrap old_info
    if same_principal (tcx.principal data_a) (tcx.principal data_b)
          || no_principal (tcx.principal data_b)
        then pure old
        else upcast (tcx.supertrait_vtable_slot (dynamic data_a) (dynamic data_b)) old
  info_of source (dynamic data_b) old_info = get_vtable source (tcx.principal data_b)
  info_of _ _ old_info = fail

  unfoldable pub unsized_info : RustTy → RustTy → Option Value → Cg c Value
  unfolding info_of
  unsized_info source target old_info =
      let (source', target') = tcx.lockstep_tails source target in info_of source' target' old_info

  unfoldable pub with_info : Value → RustTy → RustTy → Option Value → Cg c (Value × Value)
  unfolding unsized_info
  with_info src a b old_info = unsized_info a b old_info >>= λ info. pure (src, info)

  -- The one field that is not empty; `rec` goes on with it. The number of fields left comes first.
  unfoldable pub single_field :
      (Value → Layout → Layout → Option Value → Cg c (Value × Value))
      → ℕ
      → ℕ
      → Value
      → Layout
      → Layout
      → Option Value
      → Option (Value × Value)
      → Cg c (Value × Value)
  single_field rec zero i src src_layout dst_layout old_info res = unwrap res
  single_field rec (suc n) i src src_layout dst_layout old_info res =
      let src_f = tcx.layout_field src_layout i in
      let dst_f = tcx.layout_field dst_layout i in
      let next = single_field rec n (suc i) src src_layout dst_layout old_info in
      assert (src_layout.offset i == 0)
      >> assert (dst_layout.offset i == 0)
      >> (elim (tcx.is_1zst src_f) [
        | true ↦ next res
        | false ↦
            assert (src_layout.size == src_f.size)
            >> assert (not (rust_ty_eq src_f.ty dst_f.ty))
            >> (elim res [
              | some _ ↦ fail
              | none ↦ rec src src_f dst_f old_info >>= λ both. next (some both)
            ])
      ])

  unfoldable pub ptr_of_kinds :
      (Value → Layout → Layout → Option Value → Cg c (Value × Value))
      → RustTy
      → RustTy
      → Value
      → Layout
      → Layout
      → Option Value
      → Cg c (Value × Value)
  unfolding with_info single_field
  ptr_of_kinds rec (ref a) (ref b) src src_layout dst_layout old_info = with_info src a b old_info
  ptr_of_kinds rec (ref a) (raw_ptr b) src src_layout dst_layout old_info =
      with_info src a b old_info
  ptr_of_kinds rec (raw_ptr a) (raw_ptr b) src src_layout dst_layout old_info =
      with_info src a b old_info
  ptr_of_kinds rec (adt def_a ts) (adt def_b us) src src_layout dst_layout old_info =
      assert (def_a == def_b)
      >> (if rust_ty_eq (adt def_a ts) (adt def_b us)
          then (unwrap old_info >>= λ info. pure (src, info))
          else single_field rec (tcx.field_count src_layout) 0 src src_layout dst_layout old_info
              none)
  ptr_of_kinds rec _ _ src src_layout dst_layout old_info = fail

  -- Structs are nested as deep as the fuel says at most. A layout is told by its type.
  unfoldable pub unsize_ptr : ℕ → Value → Layout → Layout → Option Value → Cg c (Value × Value)
  unfolding ptr_of_kinds
  unsize_ptr zero src src_layout dst_layout old_info = fail
  unsize_ptr (suc fuel) src src_layout dst_layout old_info =
      ptr_of_kinds (unsize_ptr fuel) src_layout.ty dst_layout.ty src src_layout dst_layout old_info

  -- The pointer with what is known of its target.
  unfoldable pub base_and_info : ℕ → CValue c → Layout → Cg c (Value × Value)
  unfolding unsize_ptr ValueAndPlace.load_scalar ValueAndPlace.load_scalar_pair
  base_and_info fuel src dst_layout = do
    pointee ← unwrap (tcx.builtin_deref src.layout.ty)
    if tcx.is_sized (tcx.layout_of pointee).ty
        then (ValueAndPlace.load_scalar c tcx pointer_type src >>= λ base.
            unsize_ptr fuel base src.layout dst_layout none)
        else (ValueAndPlace.load_scalar_pair c tcx pointer_type src >>= λ both.
            unsize_ptr fuel both.0 src.layout dst_layout (some both.1))

  unfoldable pub coerce_ptr : ℕ → CValue c → CPlace c → Cg c (Unit {0})
  unfolding base_and_info write_cvalue
  coerce_ptr fuel src dst = do
    (base, info) ← base_and_info fuel src dst.layout
    write_cvalue c tcx pointer_type dst
        (ValueAndPlace.val_pair c tcx pointer_type base info dst.layout)

  -- Field by field, the number of fields left first.
  unfoldable pub coerce_fields :
      (CValue c → CPlace c → Cg c (Unit {0})) → ℕ → ℕ → CValue c → CPlace c → Cg c (Unit {0})
  unfolding codegen_value_field place_field write_cvalue
  coerce_fields rec zero i src dst = pure tt
  coerce_fields rec (suc n) i src dst =
      (codegen_value_field c tcx pointer_type depth src i >>= λ src_f.
      place_field c tcx pointer_type depth dst i >>= λ dst_f.
      if is_zst c tcx pointer_type dst_f.layout
      then pure tt
      else if rust_ty_eq src_f.layout.ty dst_f.layout.ty
      then write_cvalue c tcx pointer_type dst_f src_f
      else rec src_f dst_f)
      >> coerce_fields rec n (suc i) src dst

  unfoldable pub coerce_kinds :
      (CValue c → CPlace c → Cg c (Unit {0}))
      → ℕ
      → RustTy
      → RustTy
      → CValue c
      → CPlace c
      → Cg c (Unit {0})
  unfolding coerce_ptr coerce_fields
  coerce_kinds rec fuel (ref _) (ref _) src dst = coerce_ptr fuel src dst
  coerce_kinds rec fuel (ref _) (raw_ptr _) src dst = coerce_ptr fuel src dst
  coerce_kinds rec fuel (raw_ptr _) (raw_ptr _) src dst = coerce_ptr fuel src dst
  coerce_kinds rec fuel (adt def_a ts) (adt def_b us) src dst =
      assert (def_a == def_b)
      >> coerce_fields rec (tcx.first_variant_fields (adt def_a ts)) 0 src dst
  coerce_kinds rec fuel _ _ src dst = fail

  unfoldable pub coerce_unsized_into : ℕ → CValue c → CPlace c → Cg c (Unit {0})
  unfolding coerce_kinds
  coerce_unsized_into zero src dst = fail
  coerce_unsized_into (suc fuel) src dst =
      coerce_kinds (coerce_unsized_into fuel) (suc fuel) src.layout.ty dst.layout.ty src dst
