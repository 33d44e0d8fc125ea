-- ===== src/Constants/Defines.antt =====
-- src/constant.rs: what `define_item` leaves in the module for each item.
use Prim.Native.String.{◌++◌}
use rustc_codegen_cranelift.Common.{
  ℕ, ◌≡◌, refl, ◌∙◌, Bool, true, false, not, ◌==◌, some, List, [], ◌∷◌, if◌then◌else◌, arith, inl,
  inr,
}
use rustc_codegen_cranelift.Codegen.{◌>>=◌}
use rustc_codegen_cranelift.Linkage.{Linkage, RLinkage}
use rustc_codegen_cranelift.Constants.{
  Allocation, GlobalAlloc, function, memory, vtable, Program, StaticAttrs, DataDescription, Module,
  TodoItem, alloc, must_define, data_id_for_vtable, null_pointer, is_weak, import_static,
  static_linkage, own_static, data_id_for_static, with_data, relocated, relocations, memory_item,
  chosen, define_item,
}
use rustc_codegen_cranelift.Constants.Worklist.{S, Steps, Option-cases}
use rustc_codegen_cranelift.Constants.Kept.{
  Documented, entry, Later, After, After-bind, After-pure, After-map, After-assert, After-lift,
  After-unwrap, After-in_module, After-must_define, After-may_define, After-anon_entry,
  After-data_id_for_alloc_id,
}

module _ (objects_of : Module) (program : Program) (d : Documented objects_of) where
  open d use {
    HasContents, Named, Keeps, declare_data_Named, declare_function_Keeps, contents_kept,
    names_kept,
  }

  abbrev Learns :
      {A : Type 0}
      → Steps objects_of program A
      → S objects_of program
      → (A → S objects_of program → Type 0)
      → Type 0
  Learns f s P = After objects_of program d f s P

  chained :
      {A B : Type 0} {P : A → S objects_of program → Type 0} {Q : B → S objects_of program → Type 0}
      {m : Steps objects_of program A} {f : A → Steps objects_of program B}
      {s : S objects_of program}
      → Learns m s P
      → ((a : A) (t : S objects_of program) → P a t → Learns (f a) t Q)
      → Learns (m >>= f) s Q
  chained {m} {f} {s} h k = After-bind objects_of program d m f s h k

  own_static-Named :
      (attrs : StaticAttrs) (definition writable : Bool) (s : S objects_of program)
      → Learns
          (own_static objects_of program attrs definition writable)
          s
          (λ id t. Named t.objects attrs.symbol_name id)
  unfolding own_static
  own_static-Named attrs definition writable s =
      chained
        (After-lift objects_of program d (static_linkage objects_of program attrs definition) s)
        (λ linkage t _.
          After-map objects_of program d _ t
            (After-in_module objects_of program d
              (objects_of.declare_data attrs.symbol_name linkage writable attrs.thread_local) t
              (λ id m e.
                declare_data_Named attrs.symbol_name linkage writable attrs.thread_local t.objects
                  id m e))
            (λ id u kept p. p.0))

  import_static-declares :
      (attrs : StaticAttrs) (import_linkage : RLinkage) (definition : Bool)
      (s : S objects_of program)
      → Learns
          (import_static objects_of program attrs import_linkage definition)
          s
          (λ id t. definition ≡ false)
  unfolding import_static
  import_static-declares attrs import_linkage definition s =
      let linkage = if is_weak (some import_linkage) then Linkage.preemptible else Linkage.import in
      let reference = "_rust_extern_with_linkage_" ++ attrs.symbol_name in
      chained (After-assert objects_of program d (not definition) s) (λ _ t declared.
        chained (After-assert objects_of program d (not attrs.is_mutable) t) (λ _ t _.
          chained
            (After-in_module objects_of program d
              (objects_of.declare_data attrs.symbol_name linkage false attrs.thread_local) t
              (λ id m e.
                declare_data_Named attrs.symbol_name linkage false attrs.thread_local t.objects id m
                  e))
            (λ data_id t _.
              chained
                (After-in_module objects_of program d
                  (objects_of.declare_data reference Linkage.local false false) t
                  (λ id m e.
                    declare_data_Named reference Linkage.local false false t.objects id m e))
                (λ ref_data_id t _.
                  chained
                    (After-may_define objects_of program d ref_data_id
                      (null_pointer objects_of program attrs data_id) t)
                    (λ _ t _.
                      After-pure objects_of program d (λ _ _. definition ≡ false) ref_data_id t
                        (ground arith))))))

  -- The data object that is to be defined has the name of the static.
  data_id_for_static-Named :
      (def_id : ℕ) (definition writable : Bool) (s : S objects_of program)
      → Learns
          (data_id_for_static objects_of program def_id definition writable)
          s
          (λ id t. definition ≡ true → Named t.objects (program.static_attrs def_id).symbol_name id)
  unfolding data_id_for_static
  data_id_for_static-Named def_id definition writable s =
      let attrs = program.static_attrs def_id in
      elim (Option-cases objects_of program attrs.import_linkage) [
        | inl own ↦ record {
          leaves = λ id t e.
              let (kept, named) =
                (own_static-Named attrs definition writable s).leaves id t
                  (rw (data_id_for_static, own) at e) in
              (kept, λ _. named);
        }
        | inr (l, imported) ↦ record {
          leaves = λ id t e.
              let (kept, declared) =
                (import_static-declares attrs l definition s).leaves id t
                  (rw (data_id_for_static, imported) at e) in
              (kept, λ wanted. absurd (ground arith));
        }
      ]

  -- The contents with more addresses.
  abbrev pub SameBytes : DataDescription → DataDescription → Type 0
  SameBytes c c' = (c'.contents ≡ c.contents) × (c'.align ≡ c.align)

  relocated-SameBytes :
      (g : GlobalAlloc) (a offset addend : ℕ) (c : DataDescription) (s : S objects_of program)
      → Learns (relocated objects_of program g a offset addend c) s (λ c' _. SameBytes c c')
  unfolding relocated data_id_for_vtable with_data
  relocated-SameBytes (function instance) a offset addend c s =
      chained (After-assert objects_of program d (addend == 0) s) (λ _ t _.
        chained
          (After-in_module objects_of program d (objects_of.declare_function instance) t
            (λ id m e. (declare_function_Keeps instance t.objects id m e, tt {0})))
          (λ id t _. After-pure objects_of program d (λ c' _. SameBytes c c') _ t (refl, refl)))
  relocated-SameBytes (memory target) a offset addend c s =
      chained (After-data_id_for_alloc_id objects_of program d a target.is_mut s)
        (λ id t _. After-pure objects_of program d (λ c' _. SameBytes c c') _ t (refl, refl))
  relocated-SameBytes (vtable ty trait_ref) a offset addend c s =
      chained
        (After-data_id_for_alloc_id objects_of program d (program.vtable_allocation ty trait_ref)
          false s)
        (λ id t _. After-pure objects_of program d (λ c' _. SameBytes c c') _ t (refl, refl))
  relocated-SameBytes (GlobalAlloc.static def_id) a offset addend c s =
      chained (After-assert objects_of program d (not (program.static_attrs def_id).thread_local) s)
        (λ _ t _.
          chained (data_id_for_static-Named def_id false false t)
            (λ id t _. After-pure objects_of program d (λ c' _. SameBytes c c') _ t (refl, refl)))

  relocations-SameBytes :
      (m : Allocation) (ptrs : List (ℕ × ℕ)) (c : DataDescription) (s : S objects_of program)
      → Learns (relocations objects_of program m ptrs c) s (λ c' _. SameBytes c c')
  unfolding relocations
  relocations-SameBytes m [] c s =
      After-pure objects_of program d (λ c' _. SameBytes c c') c s (refl, refl)
  relocations-SameBytes m ((offset, a) ∷ ptrs) c s =
      chained
        (relocated-SameBytes (program.global_alloc a) a offset
          (program.read_target_uint m.bytes offset) c s)
        (λ c1 t one.
          After-map objects_of program d (relocations objects_of program m ptrs c1) t
            (relocations-SameBytes m ptrs c1 t) (λ c2 _ _ two. (two.0 ∙ one.0, two.1 ∙ one.1)))

  -- The data object and the memory of an item: that of the entry of an allocation, that of the name of a static.
  pub data Stands : TodoItem → ℕ → Allocation → S objects_of program → Type 0 where
    of_alloc :
        (k id : ℕ) (a : Allocation) (s : S objects_of program)
        → program.global_alloc k ≡ memory a
        → entry objects_of program d k s ≡ some id
        → Stands (alloc k) id a s
    of_static :
        (def_id id : ℕ) (a : Allocation) (s : S objects_of program)
        → program.eval_static_initializer def_id ≡ some a
        → Named s.objects (program.static_attrs def_id).symbol_name id
        → Stands (TodoItem.static def_id) id a s

  Stands-Later :
      {x : TodoItem} {id : ℕ} {a : Allocation} {s : S objects_of program} (t : S objects_of program)
      → Later objects_of program d s t
      → Stands x id a s
      → Stands x id a t
  Stands-Later t later (of_alloc k id a s h e) = of_alloc k id a t h (later.entries_kept k id e)
  Stands-Later t later (of_static f id a s h e) =
      of_static f id a t h (names_kept s.objects t.objects later.module_kept _ id e)

  memory_item-Stands :
      (g : GlobalAlloc) (k : ℕ) (s : S objects_of program)
      → program.global_alloc k ≡ g
      → Learns (memory_item objects_of program g k) s (λ r t. Stands (alloc k) r.0 r.1 t)
  unfolding memory_item
  memory_item-Stands (memory a) k s h =
      chained (After-anon_entry objects_of program d k a.is_mut s) (λ id t e.
        After-pure objects_of program d (λ r t. Stands (alloc k) r.0 r.1 t) (id, a) t
          (of_alloc k id a t h e))
  memory_item-Stands (function i) k s h = record { leaves = λ r t e. absurd cc }
  memory_item-Stands (vtable ty r) k s h = record { leaves = λ r t e. absurd cc }
  memory_item-Stands (GlobalAlloc.static f) k s h = record { leaves = λ r t e. absurd cc }

  chosen-Stands :
      (x : TodoItem) (s : S objects_of program)
      → Learns (chosen objects_of program x) s (λ r t. Stands x r.0 r.1 t)
  unfolding chosen
  chosen-Stands (alloc k) s = memory_item-Stands (program.global_alloc k) k s refl
  chosen-Stands (TodoItem.static f) s =
      chained (After-unwrap objects_of program d (program.eval_static_initializer f) s) (λ a t h.
        chained (data_id_for_static-Named f true a.is_mut t) (λ id t named.
          After-pure objects_of program d (λ r t. Stands (TodoItem.static f) r.0 r.1 t) (id, a) t
            (of_static f id a t h (named refl))))

  -- The data object of the item has the bytes and the alignment of its memory.
  pub record HasData (x : TodoItem) (s : S objects_of program) : Type 0 where
    pub id : ℕ
    pub a : Allocation
    pub c : DataDescription
    pub stands : Stands x id a s
    pub given : HasContents s.objects id c
    pub bytes_same : c.contents ≡ a.bytes
    pub align_same : c.align ≡ a.align

  pub HasData-Later :
      (x : TodoItem) (s t : S objects_of program)
      → Later objects_of program d s t
      → HasData x s
      → HasData x t
  HasData-Later x s t later h = record {
    id = h.id;
    a = h.a;
    c = h.c;
    stands = Stands-Later t later h.stands;
    given = contents_kept s.objects t.objects later.module_kept h.id h.c h.given;
    bytes_same = h.bytes_same;
    align_same = h.align_same;
  }

  -- `define_item` gives the data object of the item its contents.
  pub define_item-HasData :
      (x : TodoItem) (s : S objects_of program)
      → Learns (define_item objects_of program x) s (λ _ t. HasData x t)
  unfolding define_item
  define_item-HasData x s = chained (chosen-Stands x s) (λ (id, a) t stands.
      chained {P = λ c u. Stands x id a u × (c.contents ≡ a.bytes) × (c.align ≡ a.align)}
        (After-map objects_of program d _ t (relocations-SameBytes a a.ptrs _ t)
          (λ c u later same. (Stands-Later u later stands, same.0, same.1)))
        (λ c u (now, bytes, align).
          After-map objects_of program d (must_define objects_of program id c) u
            (After-must_define objects_of program d id c u)
            (λ _ v later given. record {
              id = id;
              a = a;
              c = c;
              stands = Stands-Later v later now;
              given = given;
              bytes_same = bytes;
              align_same = align;
            })))
