-- ===== src/Unsize/Dynamic.antt =====
-- src/unsize.rs: what `size_and_align_of` computes at run time is the size and the alignment that the layout
-- of the type has with its last field.
use rustc_codegen_cranelift.Common.{
  ℕ, zero, suc, ◌+◌, ◌-◌, ◌*◌, ◌%◌, ◌^◌, ◌<◌, ◌≤◌, ◌≡◌, ◌≢◌, min, max, false, Option, none, some,
  if◌then◌else◌,
}
use rustc_codegen_cranelift.Clif.{Ty, ty_bits, Clif}
use rustc_codegen_cranelift.Clif.Documented.{modulus, Documented}
use rustc_codegen_cranelift.Codegen.{Tcx, Layout, RustTy, dynamic, slice, str, adt, tuple}
use rustc_codegen_cranelift.Vtable.{entry_offset, vtable_size, vtable_align}
use rustc_codegen_cranelift.ValueAndPlace.{align_to}

abbrev pub capped_align : Option ℕ → ℕ → ℕ
capped_align none align = align
capped_align (some packed) align = min align packed

module _ (c : Clif) (d : Documented c) (tcx : Tcx) (pointer_type : Ty) where
  open c use {Value, Fx, value_type, load}
  open d use {bits}

  abbrev pub m : ℕ
  m = modulus pointer_type

  abbrev pub last_index : Layout → ℕ
  last_index l = tcx.field_count l - 1

  abbrev pub last_field : Layout → Layout
  last_field l = tcx.layout_field l (last_index l)

  module _ (info : Value) (fx : Fx) where
    unfoldable pub align_by : (Layout → ℕ) → RustTy → Layout → ℕ
    align_by rec (dynamic _) l =
        bits (load pointer_type info (entry_offset c tcx pointer_type vtable_align) fx)
    align_by rec (slice _) l = (tcx.layout_field l 0).align
    align_by rec str l = (tcx.layout_field l 0).align
    align_by rec (adt n ts) l =
        max l.align (capped_align (tcx.packed (adt n ts)) (rec (last_field l)))
    align_by rec (tuple _) l = max l.align (rec (last_field l))
    align_by rec _ l = 0

    -- The alignment, which is that of the last field or of the fields before it.
    unfoldable pub dyn_align : ℕ → Layout → ℕ
    unfolding align_by
    dyn_align zero l = 0
    dyn_align (suc n) l = if tcx.is_sized l.ty then l.align else align_by (dyn_align n) l.ty l

    unfoldable pub size_by : (Layout → ℕ) → (Layout → ℕ) → ℕ → RustTy → Layout → ℕ
    unfolding align_to
    size_by rec tail align (dynamic _) l =
        bits (load pointer_type info (entry_offset c tcx pointer_type vtable_size) fx)
    size_by rec tail align (slice _) l = bits info * (tcx.layout_field l 0).size
    size_by rec tail align str l = bits info * (tcx.layout_field l 0).size
    size_by rec tail align (adt n ts) l =
        align_to
          (align_to (l.offset (last_index l))
              (capped_align (tcx.packed (adt n ts)) (tail (last_field l)))
            + rec (last_field l))
          align
    size_by rec tail align (tuple _) l =
        align_to (align_to (l.offset (last_index l)) (tail (last_field l)) + rec (last_field l))
          align
    size_by rec tail align _ l = 0

    -- The size: the last field begins at its offset rounded up to its alignment, and the end of it is rounded up
    -- to the alignment of the whole.
    unfoldable pub dyn_size : ℕ → Layout → ℕ
    unfolding size_by dyn_align
    dyn_size zero l = 0
    dyn_size (suc n) l =
        if tcx.is_sized l.ty
        then l.size
        else size_by (dyn_size n) (dyn_align n) (dyn_align (suc n) l) l.ty l

    unfoldable pub PackFits : Option ℕ → ℕ → Type 0
    PackFits none align = Unit {0}
    PackFits (some packed) align = (0 < align) × (packed < m)

    -- A struct: the whole is in the address space, its alignment and that of the last field are powers of two, and
    -- the size of the last field is a multiple of its alignment.
    abbrev pub StructFits :
        (Layout → Type 0) → (Layout → ℕ) → (Layout → ℕ) → Option ℕ → ℕ → Layout → Type 0
    StructFits Fits size align pack full l =
        (tcx.is_simd l.ty ≡ false)
        × (tcx.field_count l ≢ 0)
        × Fits (last_field l)
        × PackFits pack (align (last_field l))
        × (l.align < m)
        × (l.offset (last_index l) + size (last_field l) + full ≤ m)
        × (k : ℕ) × (k ≤ ty_bits pointer_type)
        × (full ≡ 2 ^ k)
        × (j : ℕ) × (capped_align pack (align (last_field l)) ≡ 2 ^ j)
        × (size (last_field l) % capped_align pack (align (last_field l)) ≡ 0)

    unfoldable pub FitsBy :
        (Layout → Type 0) → (Layout → ℕ) → (Layout → ℕ) → ℕ → RustTy → Layout → Type 0
    unfolding PackFits
    FitsBy Fits size align full (dynamic _) l = Unit {0}
    FitsBy Fits size align full (slice _) l =
        (bits info * (tcx.layout_field l 0).size < m)
        × ((tcx.layout_field l 0).size < m)
        × ((tcx.layout_field l 0).align < m)
    FitsBy Fits size align full str l =
        (bits info * (tcx.layout_field l 0).size < m)
        × ((tcx.layout_field l 0).size < m)
        × ((tcx.layout_field l 0).align < m)
    FitsBy Fits size align full (adt n ts) l =
        StructFits Fits size align (tcx.packed (adt n ts)) full l
    FitsBy Fits size align full (tuple _) l = StructFits Fits size align none full l
    FitsBy Fits size align full _ l = ⊥

    -- The layouts are nested no deeper than the fuel, and every size is in the address space.
    unfoldable pub Fits : ℕ → Layout → Type 0
    unfolding FitsBy dyn_align dyn_size
    Fits zero l = ⊥
    Fits (suc n) l =
        if tcx.is_sized l.ty
        then (l.size < m) × (l.align < m)
        else FitsBy (Fits n) (dyn_size n) (dyn_align n) (dyn_align (suc n) l) l.ty l
