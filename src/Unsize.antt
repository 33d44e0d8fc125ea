-- ===== src/Unsize.antt =====
-- src/unsize.rs, `size_and_align_of`: the size and the alignment of a value that is known at run time only.
pub mod Alignments
pub mod Layouts
pub mod Dynamic
pub mod Computed
pub mod Coerce
pub mod Slices
use rustc_codegen_cranelift.Common.{ℕ, zero, suc, ◌-◌, ◌==◌, not, Option, none, some, if◌then◌else◌}
use rustc_codegen_cranelift.Common.Int.{ℤ, pos, negsuc}
use rustc_codegen_cranelift.Clif.{Ty, Clif, IntCc, iadd, band, iadd_imm, imul_imm}
use rustc_codegen_cranelift.Codegen.{
  Tcx, Cg, pure, fail, assert, unwrap, ◌>>=◌, ◌>>◌, Layout, RustTy, dynamic, slice, str, foreign,
  adt, tuple,
}
use rustc_codegen_cranelift.FunctionCx.{as_i64}
use rustc_codegen_cranelift.Vtable.{size_of_obj, min_align_of_obj}
use rustc_codegen_cranelift.Panics.{codegen_panic_nounwind}

module _ (c : Clif) (tcx : Tcx) (pointer_type : Ty) where
  open c use {Value, Fx, iconst, binary, binary_imm, ineg, icmp, select}

  unfoldable pub usize_const : ℕ → Value
  unfolding as_i64
  usize_const n = iconst pointer_type (as_i64 (pos n))

  -- `min` and `max` of two values, as instructions.
  unfoldable pub select_min : Value → Value → Value
  select_min a b = select (icmp IntCc.unsigned_less_than a b) a b

  unfoldable pub select_max : Value → Value → Value
  select_max a b = select (icmp IntCc.unsigned_greater_than a b) a b

  -- `repr(packed)` caps the alignment.
  unfoldable pub cap_at : Option ℕ → Value → Value
  unfolding usize_const select_min
  cap_at none align = align
  cap_at (some packed) align =
      if packed == 1 then usize_const 1 else select_min align (usize_const packed)

  -- `(size + (align - 1)) & -align`
  unfoldable pub round_up : Value → Value → Value
  round_up size align =
      binary band (binary iadd size (binary_imm iadd_imm align (negsuc 0))) (ineg align)

  -- The whole, from the size and the capped alignment of the last field.
  unfoldable pub with_tail : Layout → ℕ → Value → Value → Value × Value
  unfolding usize_const select_max round_up
  with_tail layout i unsized_size unsized_align =
      let full_align = select_max (usize_const layout.align) unsized_align in
      (round_up (binary iadd (usize_const (layout.offset i)) unsized_size) full_align, full_align)

  -- A struct or a tuple, with its packing.
  unfoldable pub with_last_field :
      (Layout → Option Value → Cg c (Value × Value))
      → Option ℕ
      → Layout
      → Option Value
      → Cg c (Value × Value)
  unfolding with_tail cap_at
  with_last_field rec packed layout info = do
    assert (not (tcx.is_simd layout.ty))
    assert (not (tcx.field_count layout == 0))
    let i = tcx.field_count layout - 1
    (unsized_size, unsized_align) ← rec (tcx.layout_field layout i) info
    pure (with_tail layout i unsized_size (cap_at packed unsized_align))

  -- The layouts are nested as deep as the fuel says at most.
  unfoldable pub unsized_size_and_align :
      (Layout → Option Value → Cg c (Value × Value))
      → RustTy
      → Layout
      → Option Value
      → Cg c (Value × Value)
  unfolding with_last_field usize_const size_of_obj min_align_of_obj codegen_panic_nounwind as_i64
  unsized_size_and_align rec (dynamic _) layout info = do
    vtable ← unwrap info
    size ← size_of_obj c tcx pointer_type vtable
    align ← min_align_of_obj c tcx pointer_type vtable
    pure (size, align)
  unsized_size_and_align rec (slice _) layout info = do
    len ← unwrap info
    let unit = tcx.layout_field layout 0
    pure (binary_imm imul_imm len (as_i64 (pos unit.size)), usize_const unit.align)
  unsized_size_and_align rec str layout info = do
    len ← unwrap info
    let unit = tcx.layout_field layout 0
    pure (binary_imm imul_imm len (as_i64 (pos unit.size)), usize_const unit.align)
  unsized_size_and_align rec foreign layout info =
      codegen_panic_nounwind c tcx pointer_type (tcx.extern_type_message foreign)
      >> pure (usize_const 42, usize_const 42)
  unsized_size_and_align rec (adt n ts) layout info =
      with_last_field rec (tcx.packed (adt n ts)) layout info
  unsized_size_and_align rec (tuple ts) layout info = with_last_field rec none layout info
  unsized_size_and_align rec _ layout info = fail

  unfoldable pub size_and_align_of : ℕ → Layout → Option Value → Cg c (Value × Value)
  unfolding unsized_size_and_align usize_const
  size_and_align_of zero layout info = fail
  size_and_align_of (suc n) layout info =
      if tcx.is_sized layout.ty
      then pure (usize_const layout.size, usize_const layout.align)
      else unsized_size_and_align (size_and_align_of n) layout.ty layout info
