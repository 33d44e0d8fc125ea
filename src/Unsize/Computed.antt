-- ===== src/Unsize/Computed.antt =====
-- src/unsize.rs: `size_and_align_of` computes the size and the alignment of Unsize/Dynamic.
use rustc_codegen_cranelift.Common.{
  ℕ, zero, suc, ◌+◌, ◌*◌, ◌^◌, ◌<◌, ◌≤◌, ◌≡◌, refl, sym, subst, ◌∙◌, min, max, true, false, ◌==◌,
  Option, none, some, arith, Bool-cases, inl, inr,
}
use rustc_codegen_cranelift.Common.Int.{pos}
use rustc_codegen_cranelift.Common.Word.{mod_below}
use native.Mathlib.Nat.{one-le-pow}
use rustc_codegen_cranelift.Clif.{Ty, ty_bits, is_int, Clif, iadd, imul_imm}
use rustc_codegen_cranelift.Clif.Documented.{modulus, Documented}
use rustc_codegen_cranelift.Codegen.{
  Tcx, Cg, ok, bind-ok, pure, Layout, RustTy, dynamic, slice, str, adt, tuple,
}
use rustc_codegen_cranelift.FunctionCx.{as_i64}
use rustc_codegen_cranelift.Vtable.{
  entry_offset, vtable_size, vtable_align, size_of_obj, min_align_of_obj,
}
use rustc_codegen_cranelift.ValueAndPlace.{align_to}
use rustc_codegen_cranelift.Unsize.{
  usize_const, select_max, cap_at, with_tail, with_last_field, unsized_size_and_align,
  size_and_align_of,
}
use rustc_codegen_cranelift.Unsize.Alignments.{align_to-unadjusted}
use rustc_codegen_cranelift.Unsize.Layouts.{
  const_word, Means, usize_const-Means, select_min-Means, select_max-Means, round_up-Means,
}
use rustc_codegen_cranelift.Unsize.Dynamic.{
  capped_align, last_index, last_field, align_by, dyn_align, size_by, dyn_size, PackFits, FitsBy,
  Fits, StructFits,
}

module _ (c : Clif) (d : Documented c) (tcx : Tcx) (pointer_type : Ty) where
  open c use {Value, Fx}

  abbrev pub Is : Value → ℕ → Type 0
  Is v n = Means c d tcx pointer_type v n

  -- The instructions give the size and the alignment.
  abbrev pub Gives : Fx → Cg c (Value × Value) → ℕ → ℕ → Type 0
  Gives fx code size align = (s a : Value) × (code fx ≡ ok ((s, a), fx)) × Is s size × Is a align

module _ (c : Clif) (d : Documented c) (tcx : Tcx) (pointer_type : Ty)
    (int_pointer : is_int pointer_type ≡ true) (narrow : ty_bits pointer_type ≤ 64) where
  open c use {Value, Fx, value_type, load}
  open d use {bits}

  abbrev const_Is :
      (n : ℕ)
      → n < modulus pointer_type
      → Is c d tcx pointer_type (usize_const c tcx pointer_type n) n
  const_Is = usize_const-Means c d tcx pointer_type int_pointer narrow

  cap_at-Is :
      (info : Value) (fx : Fx) (pack : Option ℕ) (v : Value) (a : ℕ)
      → PackFits c d tcx pointer_type info fx pack a
      → Is c d tcx pointer_type v a
      → Is c d tcx pointer_type (cap_at c tcx pointer_type pack v) (capped_align pack a)
  unfolding cap_at PackFits
  cap_at-Is info fx none v a h e = e
  cap_at-Is info fx (some packed) v a (some_align, fits) e = elim (Bool-cases (packed == 1)) [
    | inl one ↦
        let least : min a packed ≡ 1 = ground arith in rw (one, least) (const_Is 1 (omega arith))
    | inr more ↦ rw more (
        select_min-Means c d tcx pointer_type int_pointer narrow v
          (usize_const c tcx pointer_type packed) a packed e (const_Is packed fits))
  ]

  with_tail-Is :
      (l : Layout) (i k : ℕ) (us ua : Value) (s a : ℕ)
      → Is c d tcx pointer_type us s
      → Is c d tcx pointer_type ua a
      → l.align < modulus pointer_type
      → l.offset i + s + max l.align a ≤ modulus pointer_type
      → k ≤ ty_bits pointer_type
      → max l.align a ≡ 2 ^ k
      → Is c d tcx pointer_type
          (with_tail c tcx pointer_type l i us ua).0
          (align_to (l.offset i + s) (max l.align a))
        × Is c d tcx pointer_type (with_tail c tcx pointer_type l i us ua).1 (max l.align a)
  unfolding with_tail
  with_tail-Is l i k us ua s a es ea al room h power =
      let offset = usize_const c tcx pointer_type (l.offset i) in
      let full = select_max c tcx pointer_type (usize_const c tcx pointer_type l.align) ua in
      let some_bit : 0 < 2 ^ k = one-le-pow k 2 (omega arith) in
      let at : Is c d tcx pointer_type offset (l.offset i) = const_Is (l.offset i) (omega arith) in
      let whole : Is c d tcx pointer_type full (max l.align a) =
        select_max-Means c d tcx pointer_type int_pointer narrow
          (usize_const c tcx pointer_type l.align) ua l.align a (const_Is l.align al) ea in
      let sum : Is c d tcx pointer_type (c.binary iadd offset us) (l.offset i + s) = (
        rw (d.iadd_bits offset us, at.0, at.1, es.0)
            (mod_below (l.offset i + s) (modulus pointer_type) (omega arith)),
        d.iadd_type offset us ∙ at.1,
      ) in
      (
        rw power (
            round_up-Means c d tcx pointer_type int_pointer narrow (c.binary iadd offset us) full
              (l.offset i + s) k sum (rw (← power) whole) h (omega arith)),
        whole,
      )

  module _ (info : Value) (fx : Fx) (size_t : value_type info ≡ pointer_type) where
    abbrev pub size_of : ℕ → Layout → ℕ
    size_of = dyn_size c d tcx pointer_type info fx

    abbrev pub align_of : ℕ → Layout → ℕ
    align_of = dyn_align c d tcx pointer_type info fx

    struct-Gives :
        (n : ℕ) (l : Layout) (pack : Option ℕ) (rec : Layout → Option Value → Cg c (Value × Value))
        → ((l : Layout)
            → Fits c d tcx pointer_type info fx n l
            → Gives c d tcx pointer_type fx (rec l (some info)) (size_of n l) (align_of n l))
        → StructFits c d tcx pointer_type info fx
            (Fits c d tcx pointer_type info fx n)
            (size_of n)
            (align_of n)
            pack
            (max l.align (capped_align pack (align_of n (last_field c d tcx pointer_type l))))
            l
        → Gives c d tcx pointer_type fx
            (with_last_field c tcx pointer_type rec pack l (some info))
            (align_to
              (align_to
                  (l.offset (last_index c d tcx pointer_type l))
                  (capped_align pack (align_of n (last_field c d tcx pointer_type l)))
                + size_of n (last_field c d tcx pointer_type l))
              (max l.align (capped_align pack (align_of n (last_field c d tcx pointer_type l)))))
            (max l.align (capped_align pack (align_of n (last_field c d tcx pointer_type l))))
    unfolding with_last_field
    struct-Gives n l pack rec ih
          (simd, fields, fits, packs, al, room, k, few, power, j, tail, multiple) =
        let last = last_field c d tcx pointer_type l in
        let i = last_index c d tcx pointer_type l in
        let (s, a, run, es, ea) = ih last fits in
        let capped = cap_at c tcx pointer_type pack a in
        let (whole, full) =
          with_tail-Is l i k s capped (size_of n last) (capped_align pack (align_of n last)) es
            (cap_at-Is info fx pack a (align_of n last) packs ea) al room few power in
        let once =
          align_to-unadjusted (l.offset i) (size_of n last) (capped_align pack (align_of n last))
            (max l.align (capped_align pack (align_of n last))) j k tail power (omega arith)
            multiple in
        let some_field : (tcx.field_count l == 0) ≡ false = ground arith in
        (
          (with_tail c tcx pointer_type l i s capped).0,
          (with_tail c tcx pointer_type l i s capped).1,
          rw (simd, some_field)
              (bind-ok (rec last (some info))
                (λ q.
                  pure (with_tail c tcx pointer_type l i q.0 (cap_at c tcx pointer_type pack q.1)))
                (s, a) fx fx _ run refl),
          subst (Is c d tcx pointer_type (with_tail c tcx pointer_type l i s capped).0) (sym once)
              whole,
          full,
        )

    array-Gives :
        (unit : Layout)
        → (bits info * unit.size < modulus pointer_type)
        → unit.size < modulus pointer_type
        → unit.align < modulus pointer_type
        → Is c d tcx pointer_type
            (c.binary_imm imul_imm info (as_i64 (pos unit.size)))
            (bits info * unit.size)
          × Is c d tcx pointer_type (usize_const c tcx pointer_type unit.align) unit.align
    array-Gives unit fits size align = (
      (
        rw
            (
              d.imul_imm_bits info (as_i64 (pos unit.size)),
              size_t,
              const_word pointer_type unit.size int_pointer narrow size,
            )
            (mod_below (bits info * unit.size) (modulus pointer_type) fits),
        d.imm_type imul_imm info (as_i64 (pos unit.size)) ∙ size_t,
      ),
      const_Is unit.align align,
    )

    unsized-Gives :
        (n : ℕ) (ty : RustTy) (l : Layout) (rec : Layout → Option Value → Cg c (Value × Value))
        → ((l : Layout)
            → Fits c d tcx pointer_type info fx n l
            → Gives c d tcx pointer_type fx (rec l (some info)) (size_of n l) (align_of n l))
        → FitsBy c d tcx pointer_type info fx
            (Fits c d tcx pointer_type info fx n)
            (size_of n)
            (align_of n)
            (align_by c d tcx pointer_type info fx (align_of n) ty l)
            ty
            l
        → Gives c d tcx pointer_type fx
            (unsized_size_and_align c tcx pointer_type rec ty l (some info))
            (size_by c d tcx pointer_type info fx
              (size_of n)
              (align_of n)
              (align_by c d tcx pointer_type info fx (align_of n) ty l)
              ty
              l)
            (align_by c d tcx pointer_type info fx (align_of n) ty l)
    unfolding unsized_size_and_align size_by align_by FitsBy size_of_obj min_align_of_obj
    unsized-Gives n (dynamic ps) l rec ih h = (
      load pointer_type info (entry_offset c tcx pointer_type vtable_size) fx,
      load pointer_type info (entry_offset c tcx pointer_type vtable_align) fx,
      refl,
      (refl, d.load_type pointer_type info (entry_offset c tcx pointer_type vtable_size) fx),
      (refl, d.load_type pointer_type info (entry_offset c tcx pointer_type vtable_align) fx),
    )
    unsized-Gives n (slice t) l rec ih (fits, size, align) =
        let (s, a) = array-Gives (tcx.layout_field l 0) fits size align in (_, _, refl, s, a)
    unsized-Gives n str l rec ih (fits, size, align) =
        let (s, a) = array-Gives (tcx.layout_field l 0) fits size align in (_, _, refl, s, a)
    unsized-Gives n (adt i ts) l rec ih h = struct-Gives n l (tcx.packed (adt i ts)) rec ih h
    unsized-Gives n (tuple ts) l rec ih h = struct-Gives n l none rec ih h
    unsized-Gives n _ l rec ih h = absurd h

    -- Where every size is in the address space, alignments are powers of two and the size of a last field is a multiple
    -- of its alignment, the instructions give the full formula: the last field begins at its offset rounded up to
    -- its alignment, the size is its end rounded up to the alignment of the whole, and that is the larger of
    -- the alignments, capped where the type is packed. The code generator does not panic.
    pub size_and_align_of-dynamic :
        (n : ℕ) (l : Layout)
        → Fits c d tcx pointer_type info fx n l
        → Gives c d tcx pointer_type fx
            (size_and_align_of c tcx pointer_type n l (some info))
            (size_of n l)
            (align_of n l)
    unfolding size_and_align_of Fits dyn_size dyn_align
    size_and_align_of-dynamic zero l h = absurd h
    size_and_align_of-dynamic (suc n) l h = elim (Bool-cases (tcx.is_sized l.ty)) [
      | inl sized ↦
          let (size, align) = rw sized at h in
          rw sized (_, _, refl, const_Is l.size size, const_Is l.align align)
      | inr unsized ↦ rw unsized (
          unsized-Gives n l.ty l (size_and_align_of c tcx pointer_type n)
            (size_and_align_of-dynamic n) (rw unsized at h))
    ]
