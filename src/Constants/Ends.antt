-- ===== src/Constants/Ends.antt =====
-- src/constant.rs: `define_all_allocs` comes to an end.
use rustc_codegen_cranelift.Common.{
  ℕ, zero, suc, ◌+◌, ◌<◌, ◌≤◌, ◌≡◌, ◌≢◌, refl, sym, ap, ◌∙◌, Bool, true, false, ◌||◌, List, [], ◌∷◌,
  ◌++◌, if◌then◌else◌, arith, Bool-cases, inl, inr, ◌⊎◌, length, length-append,
}
use rustc_codegen_cranelift.Codegen.{Result-cases, Result, ok, panic}
use rustc_codegen_cranelift.Constants.{
  Program, Module, GlobalAlloc, function, memory, vtable, TodoItem, alloc, item_eq, define_item,
  contains, next, popped, Outcome, finished, panicked, out_of_fuel, define_all_allocs,
}
use rustc_codegen_cranelift.Constants.Worklist.{S, todo_of}
use rustc_codegen_cranelift.Constants.References.{asked, asked_by}
use rustc_codegen_cranelift.Constants.Items.{ptrs_of, Leaves-define_item}

pub List-cases : {A : Type 0} (xs : List A) → (xs ≡ []) ⊎ ((x : A) × (ys : List A) × (xs ≡ x ∷ ys))
List-cases [] = inl refl
List-cases (x ∷ ys) = inr (x, ys, refl)

append_assoc : {A : Type 0} (xs ys zs : List A) → (xs ++ ys) ++ zs ≡ xs ++ (ys ++ zs)
append_assoc [] ys zs = refl
append_assoc (x ∷ xs) ys zs = ap (λ l. x ∷ l) (append_assoc xs ys zs)

module _ (objects_of : Module) (program : Program) where
  abbrev pub has : TodoItem → List TodoItem → Bool
  has x xs = contains objects_of program x xs

  pub has-append :
      (x : TodoItem) (xs ys : List TodoItem) → has x (xs ++ ys) ≡ (has x xs || has x ys)
  unfolding contains
  has-append x [] ys = refl
  has-append x (z ∷ xs) ys = ground (arith, has-append x xs ys)

  -- What the memory of an item points to.
  abbrev pub refers : TodoItem → List TodoItem
  refers x = asked_by objects_of program (ptrs_of objects_of program x) []

  asked-append :
      (g : GlobalAlloc) (a : ℕ) (t u : List TodoItem)
      → asked objects_of program g a (t ++ u) ≡ asked objects_of program g a t ++ u
  unfolding asked
  asked-append (memory m) a t u = refl
  asked-append (vtable ty r) a t u = refl
  asked-append (function i) a t u = refl
  asked-append (GlobalAlloc.static d) a t u = refl

  asked_by-append :
      (ptrs : List (ℕ × ℕ)) (t u : List TodoItem)
      → asked_by objects_of program ptrs (t ++ u) ≡ asked_by objects_of program ptrs t ++ u
  unfolding asked_by asked
  asked_by-append [] t u = refl
  asked_by-append ((offset, a) ∷ ptrs) t u =
      ap (asked_by objects_of program ptrs) (asked-append (program.global_alloc a) a t u)
      ∙ asked_by-append ptrs (asked objects_of program (program.global_alloc a) a t) u

  -- A worklist_round of the loop: the item was defined before, or it is defined now and what it refers to is added.
  pub next_cases :
      (done done' : List TodoItem) (s s' : S objects_of program) (item : TodoItem)
      (rest : List TodoItem)
      → next objects_of program done s item rest ≡ ok (done', s')
      → ((has item done ≡ true) × (done' ≡ done) × (todo_of objects_of program s' ≡ rest))
        ⊎ ((has item done ≡ false)
            × (done' ≡ item ∷ done)
            × (todo_of objects_of program s' ≡ refers item ++ rest))
  unfolding next
  next_cases done done' s s' item rest e = elim (Bool-cases (has item done)) [
    | inl old ↦
        let kept : ok (done, popped objects_of program s rest) ≡ ok (done', s') =
          rw (next, old) at e in
        let same_done : done ≡ done' = cc in
        let same_state : popped objects_of program s rest ≡ s' = cc in
        inl (old, sym same_done, ap (todo_of objects_of program) (sym same_state))
    | inr new ↦
        elim (Result-cases
          (define_item objects_of program item (popped objects_of program s rest))) [
            | inl stop ↦ absurd (ground arith)
            | inr ((u, t), found) ↦
                let kept : ok (item ∷ done, t) ≡ ok (done', s') = rw (next, new, found) at e in
                let same_done : item ∷ done ≡ done' = cc in
                let same_state : t ≡ s' = cc in
                inr (
                  new,
                  sym same_done,
                  ap (todo_of objects_of program) (sym same_state)
                      ∙ Leaves-define_item objects_of program item
                          (popped objects_of program s rest) t u found
                      ∙ asked_by-append (ptrs_of objects_of program item) [] rest,
                )
          ]
  ]

  -- What the items of `u` that are not done may still add to the worklist.
  unfoldable pub pending : List TodoItem → List TodoItem → ℕ
  pending [] done = 0
  pending (x ∷ u) done = (if has x done then 0 else length (refers x)) + pending u done

  pub has-cons :
      (x y : TodoItem) (done : List TodoItem) → has x (y ∷ done) ≡ (item_eq y x || has x done)
  unfolding contains
  has-cons x y done = refl

  pub item_eq_sound : (x y : TodoItem) → item_eq x y ≡ true → x ≡ y
  unfolding item_eq
  item_eq_sound (alloc a) (alloc b) e = ap alloc (ground arith)
  item_eq_sound (alloc a) (TodoItem.static b) e = absurd cc
  item_eq_sound (TodoItem.static a) (alloc b) e = absurd cc
  item_eq_sound (TodoItem.static a) (TodoItem.static b) e = ap TodoItem.static (ground arith)

  item_eq_refl : (x : TodoItem) → item_eq x x ≡ true
  unfolding item_eq
  item_eq_refl (alloc a) = ground arith
  item_eq_refl (TodoItem.static a) = ground arith

  item_eq_comm : (x y : TodoItem) → item_eq x y ≡ item_eq y x
  unfolding item_eq
  item_eq_comm (alloc a) (alloc b) = ground arith
  item_eq_comm (alloc a) (TodoItem.static b) = refl
  item_eq_comm (TodoItem.static a) (alloc b) = refl
  item_eq_comm (TodoItem.static a) (TodoItem.static b) = ground arith

  pending-less : (u done : List TodoItem) (y : TodoItem) → pending u (y ∷ done) ≤ pending u done
  unfolding pending
  pending-less [] done y = omega arith
  pending-less (x ∷ u) done y = ground (arith, has-cons x y done, pending-less u done y)

  pending-drop :
      (u done : List TodoItem) (y : TodoItem)
      → has y u ≡ true
      → has y done ≡ false
      → pending u (y ∷ done) + length (refers y) ≤ pending u done
  unfolding pending contains
  pending-drop [] done y h k = absurd cc
  pending-drop (x ∷ u) done y h k = elim (Bool-cases (item_eq x y)) [
    | inl e ↦
        let same : x ≡ y = item_eq_sound x y e in
        let now : has x (y ∷ done) ≡ true = rw (has-cons x y done, same, item_eq_refl y) refl in
        let before : has x done ≡ false = rw same k in
        let counts : length (refers x) ≡ length (refers y) =
          ap (λ (z : TodoItem). length (refers z)) same in
        ground (arith, now, before, counts, pending-less u done y)
    | inr e ↦
        let there : has y u ≡ true = ground arith in
        ground (arith, has-cons x y done, pending-drop u done y there k, item_eq_comm x y)
  ]

  -- A worklist_round of the loop, by the worklist.
  abbrev pub worklist_round :
      ℕ → List TodoItem → S objects_of program → List TodoItem → Outcome objects_of program
  worklist_round n done s w = elim w [
    | [] ↦ finished done s
    | item ∷ rest ↦ elim (next objects_of program done s item rest) [
      | panic ↦ panicked
      | ok (done', s') ↦ define_all_allocs objects_of program n done' s'
    ]
  ]

  pub define_all_allocs-worklist_round :
      (n : ℕ) (done : List TodoItem) (s : S objects_of program) (w : List TodoItem)
      → todo_of objects_of program s ≡ w
      → define_all_allocs objects_of program (suc n) done s ≡ worklist_round n done s w
  unfolding define_all_allocs
  define_all_allocs-worklist_round n done s w e = ap (worklist_round n done s) e

  abbrev pub after : ℕ → Result (List TodoItem × S objects_of program) → Outcome objects_of program
  after n r = elim r [
    | panic ↦ panicked
    | ok (done', s') ↦ define_all_allocs objects_of program n done' s'
  ]

  pub define_all_allocs-next :
      (n : ℕ) (done : List TodoItem) (s : S objects_of program) (item : TodoItem)
      (rest : List TodoItem) (r : Result (List TodoItem × S objects_of program))
      → todo_of objects_of program s ≡ item ∷ rest
      → next objects_of program done s item rest ≡ r
      → define_all_allocs objects_of program (suc n) done s ≡ after n r
  define_all_allocs-next n done s item rest r e h =
      define_all_allocs-worklist_round n done s (item ∷ rest) e ∙ ap (after n) h

  within_u :
      (u : List TodoItem)
      → ((x y : TodoItem) → has x u ≡ true → has y (refers x) ≡ true → has y u ≡ true)
      → (item : TodoItem) (rest : List TodoItem) → has item u ≡ true
      → ((y : TodoItem) → has y rest ≡ true → has y u ≡ true)
      → (done done' : List TodoItem) (s s' : S objects_of program)
      → next objects_of program done s item rest ≡ ok (done', s')
      → (y : TodoItem) → has y (todo_of objects_of program s') ≡ true
      → has y u ≡ true
  within_u u closed item rest at_hand others done done' s s' step y h =
      elim (next_cases done done' s s' item rest step) [
        | inl (_, _, left) ↦ others y (rw left at h)
        | inr (_, _, left) ↦ elim (Bool-cases (has y (refers item))) [
          | inl e ↦ closed item y at_hand e
          | inr e ↦ others y (
              let there : has y (refers item ++ rest) ≡ true = rw left at h in
              ground (arith, has-append y (refers item) rest))
        ]
      ]

  enough :
      (u done done' : List TodoItem) (s s' : S objects_of program) (item : TodoItem)
      (rest : List TodoItem) (n : ℕ)
      → has item u ≡ true
      → length (item ∷ rest) + pending u done < suc n
      → next objects_of program done s item rest ≡ ok (done', s')
      → length (todo_of objects_of program s') + pending u done' < n
  enough u done done' s s' item rest n at_hand fuel step =
      elim (next_cases done done' s s' item rest step) [
        | inl (_, same, left) ↦ rw (same, left) (omega arith)
        | inr (new, same, left) ↦
            rw (same, left)
              (omega
                (arith, length-append (refers item) rest, pending-drop u done item at_hand new))
      ]

  finished_fuel : (d : List TodoItem) (t : S objects_of program) → finished d t ≢ out_of_fuel
  finished_fuel d t e = cc

  panicked_fuel : ◌≢◌ {A = Outcome objects_of program} panicked out_of_fuel
  panicked_fuel e = cc

  -- `define_all_allocs` comes to an end with fuel for the worklist and for all that the items of `u` may
  -- add to it, when `u` has the items of the worklist and whatever its items refer to.
  pub define_all_allocs-ends :
      (u : List TodoItem)
      → ((x y : TodoItem) → has x u ≡ true → has y (refers x) ≡ true → has y u ≡ true)
      → (n : ℕ) (done : List TodoItem) (s : S objects_of program)
      → ((y : TodoItem) → has y (todo_of objects_of program s) ≡ true → has y u ≡ true)
      → length (todo_of objects_of program s) + pending u done < n
      → define_all_allocs objects_of program n done s ≢ out_of_fuel
  define_all_allocs-ends u closed zero done s within fuel stuck = absurd (omega arith)
  define_all_allocs-ends u closed (suc n) done s within fuel stuck =
      elim (List-cases (todo_of objects_of program s)) [
        | inl nothing ↦ absurd (
            finished_fuel done s
              (sym (define_all_allocs-worklist_round n done s [] nothing) ∙ stuck))
        | inr (item, rest, work) ↦ elim (Result-cases (next objects_of program done s item rest)) [
          | inl stop ↦ absurd (
              panicked_fuel
                (sym (define_all_allocs-next n done s item rest panic work stop) ∙ stuck))
          | inr ((done', s'), step) ↦
              let again : define_all_allocs objects_of program n done' s' ≡ out_of_fuel =
                sym (define_all_allocs-next n done s item rest (ok (done', s')) work step)
                ∙ stuck in
              let at_hand : has item u ≡ true =
                within item
                  (rw work (ground (arith, has-cons item item rest, item_eq_refl item))) in
              let others : (y : TodoItem) → has y rest ≡ true → has y u ≡ true =
                λ y h. within y (rw work (ground (arith, has-cons y item rest))) in
              define_all_allocs-ends u closed n done' s'
                (within_u u closed item rest at_hand others done done' s s' step)
                (enough u done done' s s' item rest n at_hand (rw work at fuel) step) again
        ]
      ]
