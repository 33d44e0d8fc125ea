-- ===== src/Unsize/Slices.antt =====
-- src/unsize.rs: a pointer to an array becomes a pointer to a slice.
use rustc_codegen_cranelift.Common.{
  ℕ, suc, ◌≡◌, ◌≢◌, ◌∙◌, refl, ap, true, Option, none, some, ◌<◌, ◌≤◌, ◌^◌,
}
use rustc_codegen_cranelift.Common.Int.{pos}
use rustc_codegen_cranelift.Common.Word.{mod_below}
use rustc_codegen_cranelift.Clif.{Ty, ty_bytes, ty_bits, is_int, Clif}
use rustc_codegen_cranelift.Clif.Documented.{Documented, modulus}
use rustc_codegen_cranelift.Codegen.{
  Tcx, Cg, ok, bind-ok, >>=-eq-ok, ◌>>=◌, ◌>>◌, Layout, Primitive, scalar_pair, RustTy, ref,
  raw_ptr, array, slice,
}
use rustc_codegen_cranelift.Types.{scalar_to_clif_type, clif_pair_type}
use rustc_codegen_cranelift.FunctionCx.{as_i64, as_i64-small}
use rustc_codegen_cranelift.ValueAndPlace
use rustc_codegen_cranelift.ValueAndPlace.{
  CValue, CValueInner, by_val_pair, scalar_pair_calculate_b_offset,
}
use rustc_codegen_cranelift.ValueAndPlace.Place.{CPlace, CPlaceInner, to_cvalue}
use rustc_codegen_cranelift.ValueAndPlace.Write.{write_cvalue}
use rustc_codegen_cranelift.ValueAndPlace.ReadBackPair.{HoldsPair, pair_read_back}
use rustc_codegen_cranelift.Unsize.Coerce.{
  info_of, unsized_info, with_info, ptr_of_kinds, unsize_ptr, base_and_info, coerce_ptr,
  coerce_kinds, coerce_unsized_into,
}

-- The types of a pointer before and after the coercion, with what they point to.
pub data Pointers : RustTy → RustTy → RustTy → RustTy → Type 0 where
  refs : {a b : RustTy} → Pointers (ref a) (ref b) a b
  ref_to_raw : {a b : RustTy} → Pointers (ref a) (raw_ptr b) a b
  raws : {a b : RustTy} → Pointers (raw_ptr a) (raw_ptr b) a b

module _ (c : Clif) (d : Documented c) (tcx : Tcx) (pointer_type : Ty) (depth : ℕ) where
  open c use {Value, Fx, value_type, iconst}

  coerce_kinds-Pointers :
      (rec : CValue c → CPlace c → Cg c (Unit {0})) (fuel : ℕ) (s t a b : RustTy) (src : CValue c)
      (dst : CPlace c)
      → Pointers s t a b
      → coerce_kinds c tcx pointer_type depth rec fuel s t src dst
        ≡ coerce_ptr c tcx pointer_type depth fuel src dst
  unfolding coerce_kinds
  coerce_kinds-Pointers rec fuel _ _ _ _ src dst refs = refl
  coerce_kinds-Pointers rec fuel _ _ _ _ src dst ref_to_raw = refl
  coerce_kinds-Pointers rec fuel _ _ _ _ src dst raws = refl

  ptr_of_kinds-Pointers :
      (rec : Value → Layout → Layout → Option Value → Cg c (Value × Value)) (s t a b : RustTy)
      (v : Value) (src_layout dst_layout : Layout) (old : Option Value)
      → Pointers s t a b
      → ptr_of_kinds c tcx pointer_type depth rec s t v src_layout dst_layout old
        ≡ with_info c tcx pointer_type depth v a b old
  unfolding ptr_of_kinds
  ptr_of_kinds-Pointers rec _ _ _ _ v src_layout dst_layout old refs = refl
  ptr_of_kinds-Pointers rec _ _ _ _ v src_layout dst_layout old ref_to_raw = refl
  ptr_of_kinds-Pointers rec _ _ _ _ v src_layout dst_layout old raws = refl

  info-length :
      (v : Value) (a b x y : RustTy) (n : ℕ) (old : Option Value) (fx : Fx)
      → tcx.lockstep_tails a b ≡ (array x n, slice y)
      → with_info c tcx pointer_type depth v a b old fx
        ≡ ok ((v, iconst pointer_type (as_i64 (pos n))), fx)
  unfolding with_info unsized_info info_of
  info-length v a b x y n old fx tails = rw tails refl

  unsized_pointer :
      (fuel : ℕ) (v : Value) (src : CValue c) (dst_layout : Layout) (a b x y : RustTy) (n : ℕ)
      (fx fx1 : Fx)
      → Pointers src.layout.ty dst_layout.ty a b
      → tcx.builtin_deref src.layout.ty ≡ some a
      → tcx.is_sized (tcx.layout_of a).ty ≡ true
      → tcx.lockstep_tails a b ≡ (array x n, slice y)
      → ValueAndPlace.load_scalar c tcx pointer_type src fx ≡ ok (v, fx1)
      → base_and_info c tcx pointer_type depth (suc fuel) src dst_layout fx
        ≡ ok ((v, iconst pointer_type (as_i64 (pos n))), fx1)
  unfolding base_and_info unsize_ptr
  unsized_pointer fuel v src dst_layout a b x y n fx fx1 kinds deref sized tails loaded =
      rw (deref, sized)
        (bind-ok (ValueAndPlace.load_scalar c tcx pointer_type src) _ v fx fx1 _ loaded (
          ap (λ k. k fx1)
            (ptr_of_kinds-Pointers (unsize_ptr c tcx pointer_type depth fuel) _ _ a b v src.layout
              dst_layout none kinds)
          ∙ info-length v a b x y n none fx1 tails))

  -- The coercion, and a load of what it left in the place.
  abbrev pub read_coerced : ℕ → CValue c → CPlace c → Cg c (Value × Value)
  read_coerced fuel src dst =
      coerce_unsized_into c tcx pointer_type depth fuel src dst
      >> (to_cvalue c tcx pointer_type dst >>= ValueAndPlace.load_scalar_pair c tcx pointer_type)

  -- Coercing a pointer to an array of known length, also one at the end of structs, into a place for a pointer to
  -- a slice leaves the same address and the length of the array there.
  pub coerce_unsized_into-slice :
      (fuel : ℕ) (src : CValue c) (i : CPlaceInner c) (l : Layout) (a b x y : RustTy) (n : ℕ)
      (p q : Primitive) (v : Value) (fx fx1 : Fx)
      → Pointers src.layout.ty l.ty a b
      → tcx.builtin_deref src.layout.ty ≡ some a
      → tcx.is_sized (tcx.layout_of a).ty ≡ true
      → tcx.lockstep_tails a b ≡ (array x n, slice y)
      → n < 2 ^ 63
      → n < modulus pointer_type
      → ValueAndPlace.load_scalar c tcx pointer_type src fx ≡ ok (v, fx1)
      → is_int pointer_type ≡ true
      → ty_bits pointer_type ≤ 64
      → HoldsPair c d tcx pointer_type i (scalar_pair_calculate_b_offset c tcx pointer_type p q)
      → l.size ≢ 0
      → l.backend_repr ≡ scalar_pair p q
      → scalar_to_clif_type tcx p ≡ ok (value_type v)
      → scalar_to_clif_type tcx q ≡ ok pointer_type
      → clif_pair_type tcx l.ty ≡ ok (some (value_type v, pointer_type))
      → 0 < ty_bytes (value_type v)
      → ty_bytes (value_type v) ≤ scalar_pair_calculate_b_offset c tcx pointer_type p q
      → (len : Value) × (fx' : Fx) × (read_coerced
            (suc fuel)
            src
            (record { inner = i; layout = l })
            fx
          ≡ ok ((v, len), fx'))
        × (d.bits len ≡ n)
  unfolding coerce_unsized_into coerce_ptr
  coerce_unsized_into-slice fuel src i l a b x y n p q v fx fx1 kinds deref sized tails small fits
        loaded int narrow holds size repr t1 t2 t some_bytes apart =
      let dst : CPlace c = record { inner = i; layout = l } in
      let len = iconst pointer_type (as_i64 (pos n)) in
      let t_len : value_type len ≡ pointer_type = d.iconst_type pointer_type (as_i64 (pos n)) in
      let (fx', back) =
        pair_read_back c d tcx pointer_type i (by_val_pair v len) l p q v len fx1 holds size repr t1
          (rw t_len t2) (rw t_len t) some_bytes apart refl in
      let (_, fx2, written, read) =
        >>=-eq-ok
          (write_cvalue c tcx pointer_type dst (record { inner = by_val_pair v len; layout = l })) _
          (v, len) fx1 fx' back in
      (
        len,
        fx',
        bind-ok (coerce_unsized_into c tcx pointer_type depth (suc fuel) src dst) _ tt fx fx2 _
            (ap (λ k. k fx) (coerce_kinds-Pointers _ (suc fuel) _ _ a b src dst kinds)
              ∙ bind-ok (base_and_info c tcx pointer_type depth (suc fuel) src l) _ (v, len) fx fx1
                  _ (unsized_pointer fuel v src l a b x y n fx fx1 kinds deref sized tails loaded)
                  written)
            read,
        rw (d.iconst_bits pointer_type (as_i64 (pos n)) int narrow, as_i64-small n small)
            (mod_below n _ fits),
      )
