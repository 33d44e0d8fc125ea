-- ===== src/Constants/Items.antt =====
-- src/constant.rs: the memory of an item, and what defining the item leaves on the worklist.
use rustc_codegen_cranelift.Common.{
  ℕ, ◌≡◌, refl, sym, ap, ◌∙◌, true, Option, none, some, List, [], arith, inl, inr,
}
use rustc_codegen_cranelift.Codegen.{Result-cases, bind-ok, ok, ◌>>=◌}
use rustc_codegen_cranelift.Constants.{
  Allocation, GlobalAlloc, function, memory, vtable, static, Program, DataDescription, Module,
  TodoItem, alloc, must_define, anon_entry, data_id_for_static, relocations, memory_item, chosen,
  define_item,
}
use rustc_codegen_cranelift.Constants.Worklist.{
  S, Steps, todo_of, Leaves, same, Leaves-bind, Leaves-must_define, Leaves-anon_entry, Option-cases,
}
use rustc_codegen_cranelift.Constants.References.{
  asked_by, Leaves-data_id_for_static, Leaves-relocations,
}

module _ (objects_of : Module) (program : Program) where
  ptrs_in : GlobalAlloc → List (ℕ × ℕ)
  ptrs_in (memory m) = m.ptrs
  ptrs_in _ = []

  ptrs_of_static : Option Allocation → List (ℕ × ℕ)
  ptrs_of_static none = []
  ptrs_of_static (some m) = m.ptrs

  -- The pointers in the memory of an item.
  unfoldable pub ptrs_of : TodoItem → List (ℕ × ℕ)
  unfolding ptrs_in ptrs_of_static
  ptrs_of (alloc a) = ptrs_in (program.global_alloc a)
  ptrs_of (static d) = ptrs_of_static (program.eval_static_initializer d)

  abbrev Chosen : List (ℕ × ℕ) → S objects_of program → S objects_of program → Allocation → Type 0
  Chosen ptrs s s' a =
      (todo_of objects_of program s' ≡ todo_of objects_of program s) × (a.ptrs ≡ ptrs)

  memory_item-Chosen :
      (g : GlobalAlloc) (k : ℕ) (s s' : S objects_of program) (id : ℕ) (a : Allocation)
      → memory_item objects_of program g k s ≡ ok ((id, a), s')
      → Chosen (ptrs_in g) s s' a
  unfolding memory_item ptrs_in
  memory_item-Chosen (memory m) k s s' id a e =
      elim (Result-cases (anon_entry objects_of program k m.is_mut s)) [
        | inl stop ↦ absurd (ground arith)
        | inr ((n, t), found) ↦
            let kept : t ≡ s' = ground arith in
            let chosen_one : m ≡ a = ground arith in
            (
              ap (todo_of objects_of program) (sym kept)
                  ∙ Leaves-anon_entry objects_of program k m.is_mut s t n found,
              ap (λ (x : Allocation). x.ptrs) (sym chosen_one),
            )
      ]
  memory_item-Chosen (function i) k s s' id a e = absurd cc
  memory_item-Chosen (vtable t r) k s s' id a e = absurd cc
  memory_item-Chosen (static d) k s s' id a e = absurd cc

  static-Chosen :
      (d : ℕ) (s s' : S objects_of program) (id : ℕ) (a : Allocation)
      → chosen objects_of program (static d) s ≡ ok ((id, a), s')
      → Chosen (ptrs_of (static d)) s s' a
  unfolding chosen ptrs_of
  static-Chosen d s s' id a e =
      elim (Option-cases objects_of program (program.eval_static_initializer d)) [
        | inl nothing ↦ absurd (ground arith)
        | inr (m, there) ↦
            elim (Result-cases (data_id_for_static objects_of program d true m.is_mut s)) [
              | inl stop ↦ absurd (ground arith)
              | inr ((n, t), found) ↦
                  let kept : t ≡ s' = ground arith in
                  let chosen_one : m ≡ a = ground arith in
                  (
                    ap (todo_of objects_of program) (sym kept)
                        ∙ Leaves-data_id_for_static objects_of program d true m.is_mut s t n found,
                    rw there (ap (λ (x : Allocation). x.ptrs) (sym chosen_one)),
                  )
            ]
      ]

  chosen-Chosen :
      (item : TodoItem) (s s' : S objects_of program) (id : ℕ) (a : Allocation)
      → chosen objects_of program item s ≡ ok ((id, a), s')
      → Chosen (ptrs_of item) s s' a
  unfolding chosen ptrs_of
  chosen-Chosen (alloc k) s s' id a e = memory_item-Chosen (program.global_alloc k) k s s' id a e
  chosen-Chosen (static d) s s' id a e = static-Chosen d s s' id a e

  abbrev start_of : Allocation → DataDescription
  start_of a = record { align = a.align; contents = a.bytes; function_addrs = []; data_addrs = [] }

  abbrev defined_from : ℕ × Allocation → Steps objects_of program (Unit {0})
  defined_from (id, a) =
      relocations objects_of program a a.ptrs (start_of a) >>= must_define objects_of program id

  Leaves-defined_from :
      (id : ℕ) (a : Allocation)
      → Leaves objects_of program (defined_from (id, a)) (asked_by objects_of program a.ptrs)
  Leaves-defined_from id a =
      Leaves-bind objects_of program (relocations objects_of program a a.ptrs (start_of a))
        (must_define objects_of program id) (asked_by objects_of program a.ptrs)
        (same objects_of program) (Leaves-relocations objects_of program a a.ptrs (start_of a))
        (Leaves-must_define objects_of program id)

  -- Defining an item pushes what its memory points to.
  pub Leaves-define_item :
      (item : TodoItem)
      → Leaves objects_of program
          (define_item objects_of program item)
          (asked_by objects_of program (ptrs_of item))
  unfolding define_item
  Leaves-define_item item s s' u e = elim (Result-cases (chosen objects_of program item s)) [
    | inl stop ↦ absurd (ground arith)
    | inr (((id, a), t), found) ↦
        let (kept, ptrs) = chosen-Chosen item s t id a found in
        let rest : defined_from (id, a) t ≡ ok (u, s') =
          sym (
            bind-ok (chosen objects_of program item) defined_from (id, a) s t
              (defined_from (id, a) t) found refl)
          ∙ e in
        Leaves-defined_from id a t s' u rest ∙ rw (kept, ptrs) refl
  ]
