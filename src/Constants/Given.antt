-- ===== src/Constants/Given.antt =====
-- src/constant.rs: when `define_all_allocs` has finished, everything that can be reached has its data.
use rustc_codegen_cranelift.Common.{
  ℕ, zero, suc, ◌≡◌, sym, subst, ◌∙◌, true, List, [], ◌∷◌, arith, Bool-cases, inl, inr,
}
use rustc_codegen_cranelift.Codegen.{Result-cases, ok, panic}
use rustc_codegen_cranelift.Constants.{
  Program, Module, TodoItem, item_eq, define_item, next, popped, Outcome, finished,
  define_all_allocs,
}
use rustc_codegen_cranelift.Constants.Worklist.{S, todo_of}
use rustc_codegen_cranelift.Constants.Ends.{
  has, has-cons, item_eq_sound, List-cases, define_all_allocs-worklist_round,
  define_all_allocs-next,
}
use rustc_codegen_cranelift.Constants.Kept.{Documented, Later}
use rustc_codegen_cranelift.Constants.Defines.{HasData, HasData-Later, define_item-HasData}
use rustc_codegen_cranelift.Constants.Reachable.{
  Reachable, Reachable-done, empty, no_fuel, no_panic,
}

module _ (objects_of : Module) (program : Program) (documented : Documented objects_of) where
  open documented use {Keeps_refl}

  -- Whatever is done has its data.
  abbrev AllGiven : List TodoItem → S objects_of program → Type 0
  AllGiven done s =
      (x : TodoItem)
      → has objects_of program x done ≡ true
      → HasData objects_of program documented x s

  Later-popped :
      (s : S objects_of program) (rest : List TodoItem)
      → Later objects_of program documented s (popped objects_of program s rest)
  Later-popped s rest = record { module_kept = Keeps_refl s.objects; entries_kept = λ a id e. e }

  next-AllGiven :
      (done done' : List TodoItem) (s s' : S objects_of program) (item : TodoItem)
      (rest : List TodoItem)
      → next objects_of program done s item rest ≡ ok (done', s')
      → AllGiven done s
      → AllGiven done' s'
  unfolding next
  next-AllGiven done done' s s' item rest e given =
      let start = popped objects_of program s rest in
      let kept : AllGiven done start = λ x h.
        HasData-Later objects_of program documented x s start (Later-popped s rest) (given x h) in
      elim (Bool-cases (has objects_of program item done)) [
        | inl old ↦
            let ended : ok (done, start) ≡ ok (done', s') = rw (next, old) at e in
            let same_done : done ≡ done' = cc in
            let same_state : start ≡ s' = cc in rw (← same_done, ← same_state) kept
        | inr new ↦ elim (Result-cases (define_item objects_of program item start)) [
          | inl stop ↦ absurd (ground arith)
          | inr ((u, t), found) ↦
              let ended : ok (item ∷ done, t) ≡ ok (done', s') = rw (next, new, found) at e in
              let same_done : item ∷ done ≡ done' = cc in
              let same_state : t ≡ s' = cc in
              let (later, has_data) =
                (define_item-HasData objects_of program documented item start).leaves u t found in
              rw (← same_done, ← same_state)
                (λ x h. elim (Bool-cases (item_eq item x)) [
                  | inl e ↦
                      subst (λ y. HasData objects_of program documented y t)
                        (item_eq_sound objects_of program item x e) has_data
                  | inr e ↦
                      HasData-Later objects_of program documented x start t later
                        (kept x (ground (arith, h, has-cons objects_of program x item done)))
                ])
        ]
      ]

  define_all_allocs-AllGiven :
      (n : ℕ) (done d : List TodoItem) (s t : S objects_of program)
      → define_all_allocs objects_of program n done s ≡ finished d t
      → AllGiven done s
      → AllGiven d t
  define_all_allocs-AllGiven zero done d s t e given =
      absurd (no_fuel objects_of program done d s t e)
  define_all_allocs-AllGiven (suc n) done d s t e given =
      elim (List-cases (todo_of objects_of program s)) [
        | inl nothing ↦
            let last : ◌≡◌ {A = Outcome objects_of program} (finished done s) (finished d t) =
              sym (define_all_allocs-worklist_round objects_of program n done s [] nothing) ∙ e in
            let same_done : done ≡ d = cc in
            let same_state : s ≡ t = cc in rw (← same_done, ← same_state) given
        | inr (item, rest, work) ↦ elim (Result-cases (next objects_of program done s item rest)) [
          | inl stop ↦ absurd (
              no_panic objects_of program d t (
                sym (define_all_allocs-next objects_of program n done s item rest panic work stop)
                ∙ e))
          | inr ((done', s'), step) ↦
              let again : define_all_allocs objects_of program n done' s' ≡ finished d t =
                sym (
                  define_all_allocs-next objects_of program n done s item rest (ok (done', s')) work
                    step)
                ∙ e in
              define_all_allocs-AllGiven n done' d s' t again
                (next-AllGiven done done' s s' item rest step given)
        ]
      ]

  -- With a module that keeps names and contents as cranelift_module documents it: when `define_all_allocs` has
  -- finished, each item that can be reached from the worklist through the pointers of memory to memory and vtables
  -- has a data object, that of its entry if it is an allocation and that of its symbol if it is a static of the
  -- worklist, which was defined with the bytes and the alignment of its memory. Statics that memory points to are
  -- declared only, and no items of the worklist.
  pub define_all_allocs-HasData :
      (n : ℕ) (d : List TodoItem) (s t : S objects_of program) (x : TodoItem)
      → define_all_allocs objects_of program n [] s ≡ finished d t
      → Reachable objects_of program (todo_of objects_of program s) x
      → HasData objects_of program documented x t
  define_all_allocs-HasData n d s t x e r =
      define_all_allocs-AllGiven n [] d s t e
        (λ y h. absurd (let none_done = empty objects_of program y in ground arith)) x
        (Reachable-done objects_of program n d s t e r)
