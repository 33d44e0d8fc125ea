-- ===== src/Constants/References.antt =====
-- src/constant.rs: defining an item asks for exactly the memory that it points to.
use rustc_codegen_cranelift.Common.{
  ℕ, Bool, false, not, ◌==◌, some, List, [], ◌∷◌, if◌then◌else◌, inl, inr,
}
use Prim.Native.String.{◌++◌}
use rustc_codegen_cranelift.Codegen.{◌>>=◌}
use rustc_codegen_cranelift.Linkage.{Linkage, RLinkage}
use rustc_codegen_cranelift.Constants.{
  Allocation, GlobalAlloc, function, memory, vtable, static, Program, StaticAttrs, DataDescription,
  Module, TodoItem, alloc, data_id_for_alloc_id, data_id_for_vtable, import_static, static_linkage,
  own_static, data_id_for_static, with_data, relocated, relocations, null_pointer, is_weak,
}
use rustc_codegen_cranelift.Constants.Worklist.{
  Steps, Leaves, same, Leaves-bind, Leaves-pure, Leaves-assert, Leaves-lift, Leaves-in_module,
  Leaves-may_define, Leaves-data_id_for_alloc_id, Option-cases,
}

module _ (objects_of : Module) (program : Program) where
  -- Two steps that leave the worklist alone.
  keep_bind :
      {A B : Type 0} {m : Steps objects_of program A} {f : A → Steps objects_of program B}
      → Leaves objects_of program m (same objects_of program)
      → ((a : A) → Leaves objects_of program (f a) (same objects_of program))
      → Leaves objects_of program (m >>= f) (same objects_of program)
  keep_bind {m} {f} h k =
      Leaves-bind objects_of program m f (same objects_of program) (same objects_of program) h k

  Leaves-own_static :
      (attrs : StaticAttrs) (definition writable : Bool)
      → Leaves objects_of program
          (own_static objects_of program attrs definition writable)
          (same objects_of program)
  unfolding own_static
  Leaves-own_static attrs definition writable =
      keep_bind
        (Leaves-lift objects_of program (static_linkage objects_of program attrs definition))
        (λ linkage.
          Leaves-in_module objects_of program
            (objects_of.declare_data attrs.symbol_name linkage writable attrs.thread_local))

  Leaves-import_static :
      (attrs : StaticAttrs) (import_linkage : RLinkage) (definition : Bool)
      → Leaves objects_of program
          (import_static objects_of program attrs import_linkage definition)
          (same objects_of program)
  unfolding import_static
  Leaves-import_static attrs import_linkage definition =
      keep_bind (Leaves-assert objects_of program (not definition)) (λ _.
        keep_bind (Leaves-assert objects_of program (not attrs.is_mutable)) (λ _.
          keep_bind
            (Leaves-in_module objects_of program (
              objects_of.declare_data attrs.symbol_name
                (if is_weak (some import_linkage) then Linkage.preemptible else Linkage.import)
                false attrs.thread_local))
            (λ data_id.
              keep_bind
                (Leaves-in_module objects_of program (
                  objects_of.declare_data ("_rust_extern_with_linkage_" ++ attrs.symbol_name)
                    Linkage.local false false))
                (λ ref_data_id.
                  keep_bind
                    (Leaves-may_define objects_of program ref_data_id
                      (null_pointer objects_of program attrs data_id))
                    (λ _. Leaves-pure objects_of program ref_data_id)))))

  pub Leaves-data_id_for_static :
      (def_id : ℕ) (definition writable : Bool)
      → Leaves objects_of program
          (data_id_for_static objects_of program def_id definition writable)
          (same objects_of program)
  unfolding data_id_for_static
  Leaves-data_id_for_static def_id definition writable s s' id e =
      elim (Option-cases objects_of program (program.static_attrs def_id).import_linkage) [
        | inl own ↦
            Leaves-own_static (program.static_attrs def_id) definition writable s s' id
              (rw (data_id_for_static, own) at e)
        | inr (l, imported) ↦
            Leaves-import_static (program.static_attrs def_id) l definition s s' id
              (rw (data_id_for_static, imported) at e)
      ]

  -- What memory asks for: the memory and the vtables that it points to.
  unfoldable pub asked : GlobalAlloc → ℕ → List TodoItem → List TodoItem
  asked (memory _) a t = alloc a ∷ t
  asked (vtable ty trait_ref) a t = alloc (program.vtable_allocation ty trait_ref) ∷ t
  asked _ a t = t

  unfoldable pub asked_by : List (ℕ × ℕ) → List TodoItem → List TodoItem
  unfolding asked
  asked_by [] t = t
  asked_by ((offset, a) ∷ ptrs) t = asked_by ptrs (asked (program.global_alloc a) a t)

  Leaves-relocated :
      (g : GlobalAlloc) (a offset addend : ℕ) (contents : DataDescription)
      → Leaves objects_of program
          (relocated objects_of program g a offset addend contents)
          (asked g a)
  unfolding relocated asked data_id_for_vtable
  Leaves-relocated (function instance) a offset addend contents =
      keep_bind (Leaves-assert objects_of program (addend == 0)) (λ _.
        keep_bind (Leaves-in_module objects_of program (objects_of.declare_function instance))
          (λ id. Leaves-pure objects_of program _))
  Leaves-relocated (memory target) a offset addend contents =
      Leaves-bind objects_of program (data_id_for_alloc_id objects_of program a target.is_mut) _
        (λ t. alloc a ∷ t) (same objects_of program)
        (Leaves-data_id_for_alloc_id objects_of program a target.is_mut)
        (λ id.
          Leaves-pure objects_of program (with_data objects_of program contents offset id addend))
  Leaves-relocated (vtable ty trait_ref) a offset addend contents =
      let table = program.vtable_allocation ty trait_ref in
      Leaves-bind objects_of program (data_id_for_alloc_id objects_of program table false) _
        (λ t. alloc table ∷ t) (same objects_of program)
        (Leaves-data_id_for_alloc_id objects_of program table false)
        (λ id.
          Leaves-pure objects_of program (with_data objects_of program contents offset id addend))
  Leaves-relocated (static def_id) a offset addend contents =
      keep_bind (Leaves-assert objects_of program (not (program.static_attrs def_id).thread_local))
        (λ _.
          keep_bind (Leaves-data_id_for_static def_id false false)
            (λ id. Leaves-pure objects_of program _))

  pub Leaves-relocations :
      (m : Allocation) (ptrs : List (ℕ × ℕ)) (contents : DataDescription)
      → Leaves objects_of program (relocations objects_of program m ptrs contents) (asked_by ptrs)
  unfolding relocations asked_by
  Leaves-relocations m [] contents = Leaves-pure objects_of program contents
  Leaves-relocations m ((offset, a) ∷ ptrs) contents =
      Leaves-bind objects_of program
        (relocated objects_of program (program.global_alloc a) a offset
          (program.read_target_uint m.bytes offset) contents)
        (relocations objects_of program m ptrs) (asked (program.global_alloc a) a) (asked_by ptrs)
        (Leaves-relocated (program.global_alloc a) a offset
          (program.read_target_uint m.bytes offset) contents)
        (Leaves-relocations m ptrs)
