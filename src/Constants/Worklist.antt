-- ===== src/Constants/Worklist.antt =====
-- src/constant.rs: what each step leaves on the worklist, which is what the defined memory points to.
use rustc_codegen_cranelift.Common.{
  ℕ, ◌≡◌, refl, sym, ap, ◌∙◌, Bool, true, false, Option, none, some, List, ◌∷◌, arith, inl, inr,
  ◌⊎◌,
}
use rustc_codegen_cranelift.Codegen.{
  Result-cases, bind-ok, Result, ok, panic, pure, lift, assert, unwrap, ◌>>=◌,
}
use rustc_codegen_cranelift.Constants.{
  Program, DataDescription, Defined, defined, duplicate, failed, Module, TodoItem, alloc, State,
  Step, in_module, must_define, may_define, find_anon, remember, anon_entry, push,
  data_id_for_alloc_id,
}

module _ (objects_of : Module) (program : Program) where
  abbrev pub S : Type 0
  S = State objects_of program

  abbrev pub Steps : Type 0 → Type 0
  Steps A = Step objects_of program A

  abbrev pub todo_of : S → List TodoItem
  todo_of s = s.cx.todo

  -- The step turns the worklist into what `g` makes of it.
  abbrev pub Leaves : {A : Type 0} → Steps A → (List TodoItem → List TodoItem) → Type 0
  Leaves {A} f g = (s s' : S) (a : A) → f s ≡ ok (a, s') → todo_of s' ≡ g (todo_of s)

  abbrev pub same : List TodoItem → List TodoItem
  same t = t

  pub Leaves-bind :
      {A B : Type 0} (m : Steps A) (f : A → Steps B) (g h : List TodoItem → List TodoItem)
      → Leaves m g
      → ((a : A) → Leaves (f a) h)
      → Leaves (m >>= f) (λ t. h (g t))
  Leaves-bind m f g h lm lf s s' b e = elim (Result-cases (m s)) [
    | inl stop ↦ absurd (ground arith)
    | inr ((a, mid), done) ↦
        let rest : f a mid ≡ ok (b, s') = sym (bind-ok m f a s mid (f a mid) done refl) ∙ e in
        lf a mid s' b rest ∙ ap h (lm s mid a done)
  ]

  pub Leaves-pure : {A : Type 0} (a : A) → Leaves (pure a) same
  Leaves-pure a s s' b e = let kept : s ≡ s' = cc in ap todo_of (sym kept)

  pub Leaves-assert : (b : Bool) → Leaves (assert b) same
  Leaves-assert true s s' u e = let kept : s ≡ s' = cc in ap todo_of (sym kept)
  Leaves-assert false s s' u e = absurd cc

  pub Leaves-lift : {A : Type 0} (r : Result A) → Leaves (lift r) same
  Leaves-lift (ok a) s s' b e = let kept : s ≡ s' = cc in ap todo_of (sym kept)
  Leaves-lift panic s s' b e = absurd cc

  pub Leaves-unwrap : {A : Type 0} (r : Option A) → Leaves (unwrap r) same
  Leaves-unwrap (some a) s s' b e = let kept : s ≡ s' = cc in ap todo_of (sym kept)
  Leaves-unwrap none s s' b e = absurd cc

  pub Leaves-in_module :
      {A : Type 0} (f : objects_of.M → Result (A × objects_of.M))
      → Leaves (in_module objects_of program f) same
  unfolding in_module
  Leaves-in_module f s s' a e = elim (Result-cases (f s.objects)) [
    | inl stop ↦ absurd (ground arith)
    | inr ((b, m), done) ↦
        let kept : record s { objects = m } ≡ s' = ground arith in ap todo_of (sym kept)
  ]

  pub Defined-cases :
      {M : Type 0} (x : Defined M) → ((m : M) × (x ≡ defined m)) ⊎ ((x ≡ duplicate) ⊎ (x ≡ failed))
  Defined-cases (defined m) = inl (m, refl)
  Defined-cases duplicate = inr (inl refl)
  Defined-cases failed = inr (inr refl)

  pub Leaves-must_define :
      (id : ℕ) (contents : DataDescription)
      → Leaves (must_define objects_of program id contents) same
  unfolding must_define
  Leaves-must_define id contents s s' u e =
      elim (Defined-cases (objects_of.define_data id contents s.objects)) [
        | inl (m, done) ↦
            let kept : record s { objects = m } ≡ s' = ground arith in ap todo_of (sym kept)
        | inr (inl stop) ↦ absurd (ground arith)
        | inr (inr stop) ↦ absurd (ground arith)
      ]

  pub Leaves-may_define :
      (id : ℕ) (contents : DataDescription)
      → Leaves (may_define objects_of program id contents) same
  unfolding may_define
  Leaves-may_define id contents s s' u e =
      elim (Defined-cases (objects_of.define_data id contents s.objects)) [
        | inl (m, done) ↦
            let kept : record s { objects = m } ≡ s' = ground arith in ap todo_of (sym kept)
        | inr (inl stop) ↦ let kept : s ≡ s' = ground arith in ap todo_of (sym kept)
        | inr (inr stop) ↦ absurd (ground arith)
      ]

  pub Leaves-remember : (a id : ℕ) → Leaves (remember objects_of program a id) same
  unfolding remember
  Leaves-remember a id s s' b e =
      let kept : record s { cx = record s.cx { anon_allocs = (a, id) ∷ s.cx.anon_allocs } } ≡ s' =
        cc in
      ap todo_of (sym kept)

  pub Option-cases : {A : Type 0} (x : Option A) → (x ≡ none) ⊎ ((a : A) × (x ≡ some a))
  Option-cases none = inl refl
  Option-cases (some a) = inr (a, refl)

  pub Leaves-anon_entry :
      (a : ℕ) (is_mut : Bool) → Leaves (anon_entry objects_of program a is_mut) same
  unfolding anon_entry
  Leaves-anon_entry a is_mut s s' b e =
      elim (Option-cases (find_anon objects_of program a s.cx.anon_allocs)) [
        | inr (id, found) ↦ let kept : s ≡ s' = ground arith in ap todo_of (sym kept)
        | inl absent ↦
            Leaves-bind (in_module objects_of program (objects_of.declare_anonymous_data is_mut))
              (remember objects_of program a) same same
              (Leaves-in_module (objects_of.declare_anonymous_data is_mut)) (Leaves-remember a) s s'
              b (rw (anon_entry, absent) at e)
      ]

  pub Leaves-push : (item : TodoItem) → Leaves (push objects_of program item) (λ t. item ∷ t)
  Leaves-push item s s' u e = ground arith

  pub Leaves-data_id_for_alloc_id :
      (a : ℕ) (is_mut : Bool)
      → Leaves (data_id_for_alloc_id objects_of program a is_mut) (λ t. alloc a ∷ t)
  unfolding data_id_for_alloc_id
  Leaves-data_id_for_alloc_id a is_mut =
      Leaves-bind (push objects_of program (alloc a)) (λ _. anon_entry objects_of program a is_mut)
        (λ t. alloc a ∷ t) same (Leaves-push (alloc a)) (λ _. Leaves-anon_entry a is_mut)
