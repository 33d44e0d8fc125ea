-- ===== src/Constants/Kept.antt =====
-- src/constant.rs: what the steps of the worklist find and keep in the module, with the documented behaviour of
-- cranelift_module as hypotheses.
use Prim.Native.String.{String}
use rustc_codegen_cranelift.Common.{
  ℕ, ◌≡◌, refl, Bool, true, false, Option, none, some, List, ◌∷◌, arith, inl, inr, ◌==◌, Bool-cases,
}
use rustc_codegen_cranelift.Codegen.{
  Result-cases, >>=-eq-ok, Result, ok, panic, pure, lift, assert, unwrap, ◌>>=◌,
}
use rustc_codegen_cranelift.Linkage.{Linkage}
use rustc_codegen_cranelift.Constants.{
  Program, DataDescription, defined, Module, alloc, in_module, must_define, may_define, find_anon,
  remember, anon_entry, push, data_id_for_alloc_id,
}
use rustc_codegen_cranelift.Constants.Worklist.{S, Steps, Option-cases, Defined-cases}

-- cranelift_module: a data object that was given contents keeps them, and a name that was declared keeps its
-- data object. `HasContents m id c` says that the data object was defined with the contents, `Named m n id` that
-- the name was declared and stands for the data object.
pub record Documented (objects_of : Module) : Type 1 where
  pub HasContents : objects_of.M → ℕ → DataDescription → Type 0
  pub Named : objects_of.M → String → ℕ → Type 0
  pub Keeps : objects_of.M → objects_of.M → Type 0
  pub Keeps_refl : (m : objects_of.M) → Keeps m m
  pub Keeps_trans : (l m n : objects_of.M) → Keeps l m → Keeps m n → Keeps l n
  pub contents_kept :
      (m m' : objects_of.M)
      → Keeps m m'
      → (id : ℕ) (c : DataDescription) → HasContents m id c
      → HasContents m' id c
  pub names_kept :
      (m m' : objects_of.M) → Keeps m m' → (n : String) (id : ℕ) → Named m n id → Named m' n id
  pub declare_data_Named :
      (n : String) (linkage : Linkage) (writable tls : Bool) (m : objects_of.M) (id : ℕ)
      (m' : objects_of.M)
      → objects_of.declare_data n linkage writable tls m ≡ ok (id, m')
      → Keeps m m' × Named m' n id
  pub declare_anonymous_data_Keeps :
      (is_mut : Bool) (m : objects_of.M) (id : ℕ) (m' : objects_of.M)
      → objects_of.declare_anonymous_data is_mut m ≡ ok (id, m')
      → Keeps m m'
  pub declare_function_Keeps :
      (instance : ℕ) (m : objects_of.M) (id : ℕ) (m' : objects_of.M)
      → objects_of.declare_function instance m ≡ ok (id, m')
      → Keeps m m'
  pub define_data_HasContents :
      (id : ℕ) (c : DataDescription) (m m' : objects_of.M)
      → objects_of.define_data id c m ≡ defined m'
      → Keeps m m' × HasContents m' id c

module _ (objects_of : Module) (program : Program) (d : Documented objects_of) where
  open d use {
    HasContents, Named, Keeps, Keeps_refl, Keeps_trans, declare_data_Named,
    declare_anonymous_data_Keeps, declare_function_Keeps, define_data_HasContents,
  }

  abbrev pub entry : ℕ → S objects_of program → Option ℕ
  entry a s = find_anon objects_of program a s.cx.anon_allocs

  -- The module keeps what it has, and the allocations their data objects.
  pub record Later (s t : S objects_of program) : Type 0 where
    pub module_kept : Keeps s.objects t.objects
    pub entries_kept : (a id : ℕ) → entry a s ≡ some id → entry a t ≡ some id

  pub Later-refl : (s : S objects_of program) → Later s s
  Later-refl s = record { module_kept = Keeps_refl s.objects; entries_kept = λ a id e. e }

  pub Later-trans : (s t u : S objects_of program) → Later s t → Later t u → Later s u
  Later-trans s t u h k = record {
    module_kept = Keeps_trans s.objects t.objects u.objects h.module_kept k.module_kept;
    entries_kept = λ a id e. k.entries_kept a id (h.entries_kept a id e);
  }

  -- When the step comes back it has kept everything, and `P` holds of what it gives.
  pub record After {A : Type 0} (f : Steps objects_of program A) (s : S objects_of program)
      (P : A → S objects_of program → Type 0) : Type 0 where
    pub leaves : (a : A) (t : S objects_of program) → f s ≡ ok (a, t) → Later s t × P a t

  pub After-bind :
      {A B : Type 0} {P : A → S objects_of program → Type 0} {Q : B → S objects_of program → Type 0}
      (m : Steps objects_of program A) (f : A → Steps objects_of program B)
      (s : S objects_of program)
      → After m s P
      → ((a : A) (t : S objects_of program) → P a t → After (f a) t Q)
      → After (m >>= f) s Q
  After-bind {P} {Q} m f s h k = record {
    leaves = λ b u e.
        let (a, t, one, two) = >>=-eq-ok m f b s u e in
        let (first, p) = h.leaves a t one in
        let (second, q) = (k a t p).leaves b u two in (Later-trans s t u first second, q);
  }

  pub After-pure :
      {A : Type 0} (P : A → S objects_of program → Type 0) (a : A) (s : S objects_of program)
      → P a s
      → After (pure a) s P
  After-pure P a s p = record {
    leaves = λ b t e.
        let same_state : s ≡ t = cc in
        let same_value : a ≡ b = cc in rw (← same_state, ← same_value) (Later-refl s, p);
  }

  -- What is learnt later may use that everything was kept.
  pub After-map :
      {A : Type 0} {P Q : A → S objects_of program → Type 0} (m : Steps objects_of program A)
      (s : S objects_of program)
      → After m s P
      → ((a : A) (t : S objects_of program) → Later s t → P a t → Q a t)
      → After m s Q
  After-map m s h k = record {
    leaves = λ a t e. let (kept, p) = h.leaves a t e in (kept, k a t kept p);
  }

  pub After-assert : (b : Bool) (s : S objects_of program) → After (assert b) s (λ _ _. b ≡ true)
  After-assert true s = After-pure (λ _ _. true ≡ true) tt s refl
  After-assert false s = record { leaves = λ u t e. absurd cc }

  pub After-lift :
      {A : Type 0} (r : Result A) (s : S objects_of program) → After (lift r) s (λ a _. r ≡ ok a)
  After-lift (ok a) s = After-pure (λ b _. ok a ≡ ok b) a s refl
  After-lift panic s = record { leaves = λ a t e. absurd cc }

  pub After-unwrap :
      {A : Type 0} (r : Option A) (s : S objects_of program)
      → After (unwrap r) s (λ a _. r ≡ some a)
  After-unwrap (some a) s = After-pure (λ b _. some a ≡ some b) a s refl
  After-unwrap none s = record { leaves = λ a t e. absurd cc }

  pub After-in_module :
      {A : Type 0} {Q : A → objects_of.M → Type 0} (f : objects_of.M → Result (A × objects_of.M))
      (s : S objects_of program)
      → ((a : A) (m : objects_of.M) → f s.objects ≡ ok (a, m) → Keeps s.objects m × Q a m)
      → After
          (in_module objects_of program f)
          s
          (λ a t. Q a t.objects × (t.cx.anon_allocs ≡ s.cx.anon_allocs))
  unfolding in_module
  After-in_module f s h = record {
    leaves = λ a t e. elim (Result-cases (f s.objects)) [
      | inl stop ↦ absurd (ground arith)
      | inr ((b, m), done) ↦
          let moved : record s { objects = m } ≡ t = ground arith in
          let same_value : b ≡ a = ground arith in
          let (kept, q) = h b m done in
          rw (← moved, ← same_value)
            (record { module_kept = kept; entries_kept = λ k id found. found }, (q, refl))
    ];
  }

  pub After-must_define :
      (id : ℕ) (c : DataDescription) (s : S objects_of program)
      → After (must_define objects_of program id c) s (λ _ t. HasContents t.objects id c)
  unfolding must_define
  After-must_define id c s = record {
    leaves = λ u t e.
        elim (Defined-cases objects_of program (objects_of.define_data id c s.objects)) [
          | inl (m, done) ↦
              let moved : record s { objects = m } ≡ t = ground arith in
              let (kept, has) = define_data_HasContents id c s.objects m done in
              rw (← moved) (record { module_kept = kept; entries_kept = λ k n found. found }, has)
          | inr (inl stop) ↦ absurd (ground arith)
          | inr (inr stop) ↦ absurd (ground arith)
        ];
  }

  pub After-may_define :
      (id : ℕ) (c : DataDescription) (s : S objects_of program)
      → After (may_define objects_of program id c) s (λ _ _. Unit {0})
  unfolding may_define
  After-may_define id c s = record {
    leaves = λ u t e.
        elim (Defined-cases objects_of program (objects_of.define_data id c s.objects)) [
          | inl (m, done) ↦
              let moved : record s { objects = m } ≡ t = ground arith in
              let (kept, has) = define_data_HasContents id c s.objects m done in
              rw (← moved) (record { module_kept = kept; entries_kept = λ k n found. found }, tt)
          | inr (inl stop) ↦ let unmoved : s ≡ t = ground arith in rw (← unmoved) (Later-refl s, tt)
          | inr (inr stop) ↦ absurd (ground arith)
        ];
  }

  -- A new entry hides none that was there.
  entry_kept :
      (a n : ℕ) (l : List (ℕ × ℕ))
      → find_anon objects_of program a l ≡ none
      → (b id : ℕ) → find_anon objects_of program b l ≡ some id
      → find_anon objects_of program b ((a, n) ∷ l) ≡ some id
  unfolding find_anon
  entry_kept a n l absent b id e = elim (Bool-cases (b == a)) [
    | inl eq ↦ let same : b ≡ a = ground arith in absurd (let found = rw (same, absent) at e in cc)
    | inr ne ↦ rw (find_anon, ne) e
  ]

  pub After-anon_entry :
      (a : ℕ) (is_mut : Bool) (s : S objects_of program)
      → After (anon_entry objects_of program a is_mut) s (λ id t. entry a t ≡ some id)
  unfolding anon_entry in_module remember find_anon
  After-anon_entry a is_mut s = record {
    leaves = λ id t e. elim (Option-cases objects_of program (entry a s)) [
      | inr (n, found) ↦
          let unmoved : s ≡ t = ground arith in
          let same_id : n ≡ id = ground arith in rw (← unmoved, ← same_id) (Later-refl s, found)
      | inl absent ↦ elim (Result-cases (objects_of.declare_anonymous_data is_mut s.objects)) [
        | inl stop ↦ absurd (ground arith)
        | inr ((n, m), done) ↦
            let moved : record s {
              objects = m;
              cx = record s.cx { anon_allocs = (a, n) ∷ s.cx.anon_allocs };
            }
                ≡ t =
              ground arith in
            let same_id : n ≡ id = ground arith in
            let own : (a == a) ≡ true = ground arith in
            rw (← moved, ← same_id)
              (
                record {
                  module_kept = declare_anonymous_data_Keeps is_mut s.objects n m done;
                  entries_kept = entry_kept a n s.cx.anon_allocs absent;
                },
                ground arith,
              )
      ]
    ];
  }

  pub After-data_id_for_alloc_id :
      (a : ℕ) (is_mut : Bool) (s : S objects_of program)
      → After (data_id_for_alloc_id objects_of program a is_mut) s (λ _ _. Unit {0})
  unfolding data_id_for_alloc_id
  After-data_id_for_alloc_id a is_mut s =
      After-bind (push objects_of program (alloc a)) (λ _. anon_entry objects_of program a is_mut) s
        (pushed s)
        (λ _ t _.
          After-map (anon_entry objects_of program a is_mut) t (After-anon_entry a is_mut t)
            (λ _ _ _ _. tt))
    where
      pushed :
          (s : S objects_of program) → After (push objects_of program (alloc a)) s (λ _ _. Unit {0})
      pushed s = record {
        leaves = λ u t e.
            let moved : record s { cx = record s.cx { todo = alloc a ∷ s.cx.todo } } ≡ t = cc in
            rw (← moved)
              (record { module_kept = Keeps_refl s.objects; entries_kept = λ k id f. f }, tt);
      }
