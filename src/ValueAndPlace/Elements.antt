-- ===== src/ValueAndPlace/Elements.antt =====
-- src/value_and_place.rs, `place_index`: where the elements of an array or a slice lie.
use rustc_codegen_cranelift.Common.{ℕ, ◌+◌, ◌*◌, ◌%◌, ◌<◌, ◌≤◌, ◌≡◌, refl, ◌∙◌, true, none}
use rustc_codegen_cranelift.Common.Int.{pos}
use rustc_codegen_cranelift.Clif.{Ty, ty_bits, is_int, Clif, imul_imm}
use rustc_codegen_cranelift.Clif.Documented.{modulus, Documented}
use rustc_codegen_cranelift.Codegen.{Tcx, ok, Layout, RustTy}
use rustc_codegen_cranelift.FunctionCx.{as_i64}
use rustc_codegen_cranelift.Pointer.{Pointer, offset_value}
use rustc_codegen_cranelift.Pointer.Addresses.{address, IsPointer, offset_value-address}
use rustc_codegen_cranelift.Unsize.Layouts.{const_word}
use rustc_codegen_cranelift.ValueAndPlace.Place.{
  CPlace, CPlaceInner, place_addr, place_index, indexed,
}
use native.Mathlib.Nat.{add-mod-mod}

module _ (c : Clif) (d : Documented c) (tcx : Tcx) (pointer_type : Ty) where
  open c use {Value, value_type}
  open d use {bits}

  -- The code gives the place in memory that lies at the address, with the layout.
  abbrev pub IsAt : CPlace c → Value → c.Fx → Layout → ℕ → Type 0
  IsAt place i fx l at =
      (q : Pointer c) × (place_index c tcx pointer_type place i fx
        ≡ ok (record { inner = place_addr q none; layout = l }, fx))
      × (address c d pointer_type q ≡ at)

  -- The element of an array or a slice in memory lies the index times the size of an element behind the
  -- first one, in the words of addresses, and has the layout of the element type.
  pub place_index-address :
      (i : CPlaceInner c) (l : Layout) (elem : RustTy) (p : Pointer c) (index : Value) (fx : c.Fx)
      → indexed c tcx pointer_type l.ty i ≡ ok (tcx.layout_of elem, p)
      → is_int pointer_type ≡ true
      → ty_bits pointer_type ≤ 64
      → (tcx.layout_of elem).size < modulus pointer_type
      → IsPointer c d pointer_type p.base
      → value_type index ≡ pointer_type
      → IsAt
          (record { inner = i; layout = l })
          index
          fx
          (tcx.layout_of elem)
          ((address c d pointer_type p + bits index * (tcx.layout_of elem).size)
            % modulus pointer_type)
  unfolding place_index
  place_index-address i l elem p index fx found word narrow small h t =
      let size = (tcx.layout_of elem).size in
      let offset = c.binary_imm imul_imm index (as_i64 (pos size)) in
      let offset_t : value_type offset ≡ pointer_type =
        d.imm_type imul_imm index (as_i64 (pos size)) ∙ t in
      let scaled : bits offset ≡ bits index * size % modulus pointer_type =
        rw
          (
            d.imul_imm_bits index (as_i64 (pos size)),
            t,
            const_word pointer_type size word narrow small,
          )
          refl in
      (
        offset_value c pointer_type p offset,
        rw found refl,
        offset_value-address c d pointer_type p offset h offset_t
            ∙ rw scaled (
                add-mod-mod (address c d pointer_type p) (bits index * size)
                  (modulus pointer_type)),
      )
