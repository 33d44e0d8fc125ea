-- ===== src/Constants/Reachable.antt =====
-- src/constant.rs: what can be reached through the pointers of memory, and that `define_all_allocs` has been at
-- all of it when it has come to an end.
use rustc_codegen_cranelift.Common.{
  ℕ, zero, suc, ◌≡◌, ◌≢◌, refl, sym, subst, ◌∙◌, true, false, ◌||◌, List, [], ◌∷◌, arith,
  Bool-cases, inl, inr,
}
use rustc_codegen_cranelift.Codegen.{Result-cases, ok, panic}
use rustc_codegen_cranelift.Constants.{
  Program, Module, TodoItem, item_eq, next, Outcome, finished, panicked, define_all_allocs,
  contains,
}
use rustc_codegen_cranelift.Constants.Worklist.{S, todo_of}
use rustc_codegen_cranelift.Constants.Ends.{
  has, has-append, has-cons, item_eq_sound, List-cases, refers, next_cases,
  define_all_allocs-worklist_round, define_all_allocs-next,
}

module _ (objects_of : Module) (program : Program) where
  -- What the items of a worklist refer to, and what that refers to, and so on.
  pub data Reachable (todo : List TodoItem) : TodoItem → Type 0 where
    listed : (x : TodoItem) → has objects_of program x todo ≡ true → Reachable todo x
    referred :
        (x y : TodoItem)
        → Reachable todo x
        → has objects_of program y (refers objects_of program x) ≡ true
        → Reachable todo y

  -- Whatever is done refers to what is done or on the worklist.
  abbrev pub Covered : List TodoItem → List TodoItem → Type 0
  Covered done todo =
      (x y : TodoItem)
      → has objects_of program x done ≡ true
      → has objects_of program y (refers objects_of program x) ≡ true
      → (has objects_of program y done || has objects_of program y todo) ≡ true

  pub record Complete (done todo d : List TodoItem) : Type 0 where
    pub grown :
        (x : TodoItem)
        → (has objects_of program x done || has objects_of program x todo) ≡ true
        → has objects_of program x d ≡ true
    pub closed :
        (x y : TodoItem)
        → has objects_of program x d ≡ true
        → has objects_of program y (refers objects_of program x) ≡ true
        → has objects_of program y d ≡ true

  next_Covered :
      (done done' : List TodoItem) (s s' : S objects_of program) (item : TodoItem)
      (rest : List TodoItem)
      → next objects_of program done s item rest ≡ ok (done', s')
      → Covered done (item ∷ rest)
      → Covered done' (todo_of objects_of program s')
  next_Covered done done' s s' item rest step covered x y h k =
      elim (next_cases objects_of program done done' s s' item rest step) [
        | inl (old, same, left) ↦
            let before = covered x y (rw same at h) k in
            rw (same, left)
              (elim (Bool-cases (item_eq item y)) [
                | inl e ↦
                    let here : item ≡ y = item_eq_sound objects_of program item y e in
                    let defined : has objects_of program y done ≡ true =
                      subst (λ z. has objects_of program z done ≡ true) here old in
                    ground arith
                | inr e ↦ ground (arith, before, has-cons objects_of program y item rest)
              ])
        | inr (new, same, left) ↦
            rw (same, left)
              (let seen : has objects_of program x (item ∷ done) ≡ true = rw same at h in
                elim (Bool-cases (item_eq item x)) [
                  | inl e ↦
                      let here : item ≡ x = item_eq_sound objects_of program item x e in
                      let asked : has objects_of program y (refers objects_of program item) ≡ true =
                        subst (λ z. has objects_of program y (refers objects_of program z) ≡ true)
                          (sym here) k in
                      ground (
                        arith,
                        has-append objects_of program y (refers objects_of program item) rest,
                      )
                  | inr e ↦
                      let earlier : has objects_of program x done ≡ true =
                        ground (arith, has-cons objects_of program x item done) in
                      ground (
                        arith,
                        covered x y earlier k,
                        has-cons objects_of program y item rest,
                        has-cons objects_of program y item done,
                        has-append objects_of program y (refers objects_of program item) rest,
                      )
                ])
      ]

  -- Nothing that was done or listed is lost.
  next_keeps :
      (done done' : List TodoItem) (s s' : S objects_of program) (item : TodoItem)
      (rest : List TodoItem)
      → next objects_of program done s item rest ≡ ok (done', s')
      → (x : TodoItem)
      → (has objects_of program x done || has objects_of program x (item ∷ rest)) ≡ true
      → (has objects_of program x done' || has objects_of program x (todo_of objects_of program s'))
        ≡ true
  next_keeps done done' s s' item rest step x h =
      elim (next_cases objects_of program done done' s s' item rest step) [
        | inl (old, same, left) ↦
            rw (same, left)
              (elim (Bool-cases (item_eq item x)) [
                | inl e ↦
                    let here : item ≡ x = item_eq_sound objects_of program item x e in
                    let defined : has objects_of program x done ≡ true =
                      subst (λ z. has objects_of program z done ≡ true) here old in
                    ground arith
                | inr e ↦ ground (arith, h, has-cons objects_of program x item rest)
              ])
        | inr (new, same, left) ↦
            rw (same, left)
              (ground (
                arith,
                h,
                has-cons objects_of program x item rest,
                has-cons objects_of program x item done,
                has-append objects_of program x (refers objects_of program item) rest,
              ))
      ]

  pub empty : (x : TodoItem) → has objects_of program x [] ≡ false
  unfolding contains
  empty x = refl

  pub no_fuel :
      (done d : List TodoItem) (s t : S objects_of program)
      → define_all_allocs objects_of program zero done s ≢ finished d t
  unfolding define_all_allocs
  no_fuel done d s t e = cc

  pub no_panic : (d : List TodoItem) (t : S objects_of program) → panicked ≢ finished d t
  no_panic d t e = cc

  pub define_all_allocs-Complete :
      (n : ℕ) (done d : List TodoItem) (s t : S objects_of program)
      → define_all_allocs objects_of program n done s ≡ finished d t
      → Covered done (todo_of objects_of program s)
      → Complete done (todo_of objects_of program s) d
  define_all_allocs-Complete zero done d s t e covered = absurd (no_fuel done d s t e)
  define_all_allocs-Complete (suc n) done d s t e covered =
      elim (List-cases (todo_of objects_of program s)) [
        | inl nothing ↦
            let last : ◌≡◌ {A = Outcome objects_of program} (finished done s) (finished d t) =
              sym (define_all_allocs-worklist_round objects_of program n done s [] nothing) ∙ e in
            let same : done ≡ d = cc in
            let now : Covered done [] = rw nothing at covered in
            rw (← same, nothing)
              (record {
                grown = λ x h. ground (arith, h, empty x);
                closed = λ x y h k. ground (arith, now x y h k, empty y);
              })
        | inr (item, rest, work) ↦ elim (Result-cases (next objects_of program done s item rest)) [
          | inl stop ↦ absurd (
              no_panic d t (
                sym (define_all_allocs-next objects_of program n done s item rest panic work stop)
                ∙ e))
          | inr ((done', s'), step) ↦
              let again : define_all_allocs objects_of program n done' s' ≡ finished d t =
                sym (
                  define_all_allocs-next objects_of program n done s item rest (ok (done', s')) work
                    step)
                ∙ e in
              let whole =
                define_all_allocs-Complete n done' d s' t again
                  (next_Covered done done' s s' item rest step (rw work at covered)) in
              record {
                grown = λ x h.
                    whole.grown x (next_keeps done done' s s' item rest step x (rw work at h));
                closed = whole.closed;
              }
        ]
      ]

  -- Whatever can be reached from the worklist has been taken from it when the loop has finished.
  pub Reachable-done :
      (n : ℕ) (d : List TodoItem) (s t : S objects_of program)
      → define_all_allocs objects_of program n [] s ≡ finished d t
      → {x : TodoItem} → Reachable (todo_of objects_of program s) x
      → has objects_of program x d ≡ true
  Reachable-done n d s t e r = reached r
    where
      nothing : (x : TodoItem) → has objects_of program x [] ≡ true → ⊥
      nothing x h = ground (arith, empty x)

      whole : Complete [] (todo_of objects_of program s) d
      whole = define_all_allocs-Complete n [] d s t e (λ x y h k. absurd (nothing x h))

      reached :
          {x : TodoItem}
          → Reachable (todo_of objects_of program s) x
          → has objects_of program x d ≡ true
      reached (listed x h) = whole.grown x (ground (arith, h, empty x))
      reached (referred x y r h) = whole.closed x y (reached r) h
