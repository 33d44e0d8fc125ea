-- ===== src/InlineAsm/Clashes.antt =====
-- src/inline_asm.rs, `allocate_registers`: operands that are live together do not share bits.
use rustc_codegen_cranelift.Common.{
  ℕ, suc, ◌+◌, ◌≡◌, ◌≢◌, refl, sym, subst, ◌∙◌, Bool, true, false, ◌&&◌, ◌||◌, ◌==◌, ==_iff, Option,
  none, some, List, [], ◌∷◌, if◌then◌else◌, Bool-cases, Option-cases, ◌⊎◌, inl, inr, arith,
  get_elem?, set, length, get_elem?-set_self, get_elem?-set_other, get_elem?-replicate,
}
use native.Mathlib.Decide.{ℕ_discrete}
use native.Mathlib.Nat.{zero-add}
use rustc_codegen_cranelift.Codegen.{Result-cases, Result, ok}
use rustc_codegen_cranelift.InlineAsm.{
  AsmTarget, RegOrRegClass, reg, class, Operand, input, output, in_out, constant, symbol, Allocated,
  contains_key, used_in, used_out, insert, mark_in, mark_out, any, first_free,
}
use rustc_codegen_cranelift.InlineAsm.Registers.{
  Allocation, assigned, explicit_step, take_reg, both_step, single_step, pass, no_registers,
  allocate_registers,
}

-- An operand's register is live where the block is entered, and where it is left.
abbrev pub live_in : {V P : Type 0} → Operand V P → Bool
live_in (input _ _) = true
live_in (output _ late _) = if late then false else true
live_in (in_out _ _ _ _) = true
live_in _ = false

abbrev pub live_out : {V P : Type 0} → Operand V P → Bool
live_out (output _ _ _) = true
live_out (in_out _ _ _ _) = true
live_out _ = false

abbrev pub of_class : RegOrRegClass → Bool
of_class (reg _) = false
of_class (class _) = true

-- The operand leaves the choice of the register open.
abbrev pub is_open : {V P : Type 0} → Operand V P → Bool
is_open (input r _) = of_class r
is_open (output r _ _) = of_class r
is_open (in_out r _ _ _) = of_class r
is_open _ = false

-- Two operands are live together, and the choice of one of them was open. (Explicit registers that
-- clash are refused before code generation.)
abbrev pub compete : {V P : Type 0} → Operand V P → Operand V P → Bool
compete o o' =
    ((live_in o && live_in o') || (live_out o && live_out o')) && (is_open o || is_open o')

unfoldable pub overlap : AsmTarget → ℕ → ℕ → Bool
overlap target r s = any (λ x. x == s) (target.overlapping_regs r)

any-overlap :
    (test : ℕ → Bool) (rs : List ℕ) (s : ℕ)
    → any test rs ≡ false
    → any (λ x. x == s) rs ≡ true
    → test s ≡ false
unfolding any
any-overlap test [] s h k = cc
any-overlap test (r ∷ rs) s h k = elim (Bool-cases (r == s)) [
  | inl e ↦ rw (← (==_iff r s).0 e) (ground arith)
  | inr e ↦ any-overlap test rs s (ground arith) (ground arith)
]

-- A register that is found overlaps with none of which the test holds.
first_free-overlap :
    (target : AsmTarget) (test : ℕ → Bool) (rs : List ℕ) (r s : ℕ)
    → first_free target test rs ≡ some r
    → overlap target r s ≡ true
    → test s ≡ false
unfolding first_free overlap
first_free-overlap target test [] r s h k = cc
first_free-overlap target test (x ∷ rs) r s h k =
    elim (Bool-cases (any test (target.overlapping_regs x))) [
      | inl e ↦ first_free-overlap target test rs r s (rw e at h) k
      | inr e ↦
          any-overlap test (target.overlapping_regs x) s e
            (let same : x ≡ r = ground arith in rw same k)
    ]

shift : (i k : ℕ) → i + 1 + k ≡ i + suc k
shift i k = omega arith

plus_zero : (i : ℕ) → i + 0 ≡ i
plus_zero i = omega arith

none-some : (r : ℕ) → ◌≡◌ {A = Option ℕ} none (some r) → ⊥
none-some r h = cc

module _ (V P : Type 0) (target : AsmTarget) (os : List (Operand V P)) where
  -- Operand `i` is `o` and has the register `r`.
  abbrev Holds : Allocation → ℕ → Operand V P → ℕ → Type 0
  Holds s i o r = (get_elem? os i ≡ some o) × (get_elem? s.regs i ≡ some (some r))

  -- The map has the registers in use, and competing operands have registers that do not overlap.
  record Inv (s : Allocation) : Type 0 where
    ins :
        (i : ℕ) (o : Operand V P) (r : ℕ)
        → Holds s i o r
        → live_in o ≡ true
        → used_in s.allocated r ≡ true
    outs :
        (i : ℕ) (o : Operand V P) (r : ℕ)
        → Holds s i o r
        → live_out o ≡ true
        → used_out s.allocated r ≡ true
    apart :
        (i j : ℕ) (o o' : Operand V P) (r r' : ℕ)
        → i ≢ j
        → Holds s i o r
        → Holds s j o' r'
        → compete o o' ≡ true
        → overlap target r r' ≡ false

  compete_comm : (o o' : Operand V P) → compete o o' ≡ true → compete o' o ≡ true
  compete_comm o o' h = ground arith

  -- The new assignment, at an operand that held nothing that matters.
  record Fresh (s : Allocation) (i : ℕ) (o : Operand V P) (r : ℕ) (a : Allocated) : Type 0 where
    here : get_elem? os i ≡ some o
    mark_in : live_in o ≡ true → used_in a r ≡ true
    mark_out : live_out o ≡ true → used_out a r ≡ true
    grow_in : (x : ℕ) → used_in s.allocated x ≡ true → used_in a x ≡ true
    grow_out : (x : ℕ) → used_out s.allocated x ≡ true → used_out a x ≡ true
    free :
        (j : ℕ) (o' : Operand V P) (r' : ℕ)
        → i ≢ j
        → Holds s j o' r'
        → compete o o' ≡ true
        → overlap target r r' ≡ false

  same_operand :
      (i : ℕ) {o o' : Operand V P} → get_elem? os i ≡ some o' → get_elem? os i ≡ some o → o ≡ o'
  same_operand i h k = cc

  same_register : {r r' : ℕ} → ◌≡◌ {A = Option ℕ} (some r) (some r') → r ≡ r'
  same_register h = cc

  -- What an operand holds after an assignment to operand `i`.
  Held :
      (s : Allocation) (i : ℕ) (o : Operand V P) (r : ℕ) (a : Allocated) (j : ℕ) (o' : Operand V P)
      (r' : ℕ)
      → Type 0
  Held s i o r a j o' r' = ((i ≡ j) × (o ≡ o') × (r ≡ r')) ⊎ ((i ≢ j) × Holds s j o' r')

  held :
      (s : Allocation) (i : ℕ) (o : Operand V P) (r : ℕ) (a : Allocated) (j : ℕ) (o' : Operand V P)
      (r' : ℕ)
      → get_elem? os i ≡ some o
      → Holds (assigned s i r a) j o' r'
      → Held s i o r a j o' r'
  unfolding Held
  held s i o r a j o' r' h (e, k) = elim (ℕ_discrete i j) [
    | yes p ↦ inl (
      p,
      same_operand i (rw p e) h,
      same_register (
          get_elem?-set_self s.regs i (some r) (some r')
            (subst (λ x. get_elem? (set s.regs i (some r)) x ≡ some (some r')) (sym p) k)),
    )
    | no p ↦ inr (p, (e, rw (← get_elem?-set_other s.regs i j (some r) p) k))
  ]

  assigned-Inv :
      (comm : (r r' : ℕ) → overlap target r r' ≡ false → overlap target r' r ≡ false)
      (s : Allocation) (i : ℕ) (o : Operand V P) (r : ℕ) (a : Allocated)
      → Fresh s i o r a
      → Inv s
      → Inv (assigned s i r a)
  unfolding Held
  assigned-Inv comm s i o r a f inv = record {
    ins = λ j o' r' h l. elim (held s i o r a j o' r' f.here h) [
      | inl (e, q, t) ↦ rw (← t) (f.mark_in (rw q l))
      | inr (n, g) ↦ f.grow_in r' (inv.ins j o' r' g l)
    ];
    outs = λ j o' r' h l. elim (held s i o r a j o' r' f.here h) [
      | inl (e, q, t) ↦ rw (← t) (f.mark_out (rw q l))
      | inr (n, g) ↦ f.grow_out r' (inv.outs j o' r' g l)
    ];
    apart = λ j k o' o'' r' r'' n h g c. elim (held s i o r a j o' r' f.here h) [
      | inl (e, q, t) ↦ elim (held s i o r a k o'' r'' f.here g) [
        | inl (e', q', t') ↦ absurd (n (sym e ∙ e'))
        | inr (m', g') ↦ rw (← t) (f.free k o'' r'' m' g' (rw q c))
      ]
      | inr (m, h') ↦ elim (held s i o r a k o'' r'' f.here g) [
        | inl (e', q', t') ↦
            rw (← t') (comm r r' (f.free j o' r' m h' (rw q' (compete_comm o' o'' c))))
        | inr (m', g') ↦ inv.apart j k o' o'' r' r'' n h' g' c
      ]
    ];
  }

  -- Nothing that is held so far leaves a choice open: the state of the first pass.
  abbrev Closed : Allocation → Type 0
  Closed s = (i : ℕ) (o : Operand V P) (r : ℕ) → Holds s i o r → is_open o ≡ false

  module _ (comm : (r r' : ℕ) → overlap target r r' ≡ false → overlap target r' r ≡ false) where
    no_competition :
        (o o' : Operand V P) → is_open o ≡ false → is_open o' ≡ false → compete o o' ≡ true → ⊥
    no_competition o o' h k c = ground arith

    assigned-Closed :
        (s : Allocation) (i : ℕ) (o : Operand V P) (r : ℕ) (a : Allocated)
        → get_elem? os i ≡ some o
        → is_open o ≡ false
        → Closed s
        → Closed (assigned s i r a)
    unfolding Held
    assigned-Closed s i o r a h p closed j o' r' g = elim (held s i o r a j o' r' h g) [
      | inl (e, q, t) ↦ rw (← q) p
      | inr (n, g') ↦ closed j o' r' g'
    ]

    -- An explicit register that is marked as the operand needs.
    explicit_lem :
        (s : Allocation) (i : ℕ) (o : Operand V P) (r : ℕ) (a : Allocated)
        → get_elem? os i ≡ some o
        → is_open o ≡ false
        → Inv s
        → Closed s
        → (live_in o ≡ true → used_in a r ≡ true)
        → (live_out o ≡ true → used_out a r ≡ true)
        → ((x : ℕ) → used_in s.allocated x ≡ true → used_in a x ≡ true)
        → ((x : ℕ) → used_out s.allocated x ≡ true → used_out a x ≡ true)
        → Inv (assigned s i r a) × Closed (assigned s i r a)
    explicit_lem s i o r a h p inv closed m n g g' = (
      assigned-Inv comm s i o r a
          (record {
            here = h;
            mark_in = m;
            mark_out = n;
            grow_in = g;
            grow_out = g';
            free = λ j o' r' d held_by c. absurd (no_competition o o' p (closed j o' r' held_by) c);
          })
          inv,
      assigned-Closed s i o r a h p closed,
    )

    explicit_Inv :
        (s : Allocation) (i : ℕ) (o : Operand V P)
        → get_elem? os i ≡ some o
        → Inv s
        → Closed s
        → Inv (explicit_step i o s) × Closed (explicit_step i o s)
    unfolding explicit_step
    explicit_Inv s i (input (reg r) v) h inv closed =
        explicit_lem s i (input (reg r) v) r (mark_in s.allocated r) h refl inv closed
          (λ l. ground arith) (λ l. ground arith) (λ x u. ground arith) (λ x u. ground arith)
    explicit_Inv s i (input (class k) v) h inv closed = (inv, closed)
    explicit_Inv s i (output (reg r) true p) h inv closed =
        explicit_lem s i (output (reg r) true p) r (mark_out s.allocated r) h refl inv closed
          (λ l. ground arith) (λ l. ground arith) (λ x u. ground arith) (λ x u. ground arith)
    explicit_Inv s i (output (reg r) false p) h inv closed =
        explicit_lem s i (output (reg r) false p) r (insert s.allocated r (true, true)) h refl inv
          closed (λ l. ground arith) (λ l. ground arith) (λ x u. ground arith) (λ x u. ground arith)
    explicit_Inv s i (output (class k) late p) h inv closed = (inv, closed)
    explicit_Inv s i (in_out (reg r) late v p) h inv closed =
        explicit_lem s i (in_out (reg r) late v p) r (insert s.allocated r (true, true)) h refl inv
          closed (λ l. ground arith) (λ l. ground arith) (λ x u. ground arith) (λ x u. ground arith)
    explicit_Inv s i (in_out (class k) late v p) h inv closed = (inv, closed)
    explicit_Inv s i constant h inv closed = (inv, closed)
    explicit_Inv s i symbol h inv closed = (inv, closed)

    compete_cases :
        (o o' : Operand V P)
        → compete o o' ≡ true
        → ((live_in o ≡ true) × (live_in o' ≡ true)) ⊎ ((live_out o ≡ true) × (live_out o' ≡ true))
    compete_cases o o' c = elim (Bool-cases (live_in o && live_in o')) [
      | inl e ↦ inl (ground arith, ground arith)
      | inr e ↦ inr (ground arith, ground arith)
    ]

    -- A register that was found free under a test that holds of every register in use.
    found_Inv :
        (s s' : Allocation) (i : ℕ) (o : Operand V P) (mark : ℕ → Allocated) (test : ℕ → Bool)
        (regs : List ℕ)
        → get_elem? os i ≡ some o
        → Inv s
        → ((r : ℕ) → live_in o ≡ true → used_in (mark r) r ≡ true)
        → ((r : ℕ) → live_out o ≡ true → used_out (mark r) r ≡ true)
        → ((r x : ℕ) → used_in s.allocated x ≡ true → used_in (mark r) x ≡ true)
        → ((r x : ℕ) → used_out s.allocated x ≡ true → used_out (mark r) x ≡ true)
        → ((x : ℕ) → test x ≡ false → live_in o ≡ true → used_in s.allocated x ≡ true → ⊥)
        → ((x : ℕ) → test x ≡ false → live_out o ≡ true → used_out s.allocated x ≡ true → ⊥)
        → take_reg s i mark (first_free target test regs) ≡ ok s'
        → Inv s'
    unfolding take_reg
    found_Inv s s' i o mark test regs h inv m n g g' t t' e =
        elim (Option-cases (first_free target test regs)) [
          | inl no_reg ↦ absurd (ground arith)
          | inr (r, found) ↦
              let same : assigned s i r (mark r) ≡ s' = ground arith in
              rw (← same) (
                assigned-Inv comm s i o r (mark r)
                  (record {
                    here = h;
                    mark_in = m r;
                    mark_out = n r;
                    grow_in = g r;
                    grow_out = g' r;
                    free = λ j o' r' d held_by c. elim (Bool-cases (overlap target r r')) [
                      | inr no_overlap ↦ no_overlap
                      | inl clash ↦
                          let unused = first_free-overlap target test regs r r' found clash in
                          elim (compete_cases o o' c) [
                            | inl (l, l') ↦ absurd (t r' unused l (inv.ins j o' r' held_by l'))
                            | inr (l, l') ↦ absurd (t' r' unused l (inv.outs j o' r' held_by l'))
                          ]
                    ];
                  })
                  inv)
        ]

    both_Inv :
        (s s' : Allocation) (i : ℕ) (o : Operand V P)
        → get_elem? os i ≡ some o
        → Inv s
        → both_step target i o s ≡ ok s'
        → Inv s'
    unfolding both_step
    both_Inv s s' i (output (class k) false p) h inv e =
        found_Inv s s' i (output (class k) false p) (λ r. insert s.allocated r (true, true))
          (contains_key s.allocated) (target.allocatable k) h inv (λ r l. ground arith)
          (λ r l. ground arith) (λ r x u. ground arith) (λ r x u. ground arith)
          (λ x f l u. ground arith) (λ x f l u. ground arith) e
    both_Inv s s' i (in_out (class k) late v p) h inv e =
        found_Inv s s' i (in_out (class k) late v p) (λ r. insert s.allocated r (true, true))
          (contains_key s.allocated) (target.allocatable k) h inv (λ r l. ground arith)
          (λ r l. ground arith) (λ r x u. ground arith) (λ r x u. ground arith)
          (λ x f l u. ground arith) (λ x f l u. ground arith) e
    both_Inv s s' i (output (class k) true p) h inv e = let same : s ≡ s' = cc in rw (← same) inv
    both_Inv s s' i (output (reg r) late p) h inv e = let same : s ≡ s' = cc in rw (← same) inv
    both_Inv s s' i (in_out (reg r) late v p) h inv e = let same : s ≡ s' = cc in rw (← same) inv
    both_Inv s s' i (input r v) h inv e = let same : s ≡ s' = cc in rw (← same) inv
    both_Inv s s' i constant h inv e = let same : s ≡ s' = cc in rw (← same) inv
    both_Inv s s' i symbol h inv e = let same : s ≡ s' = cc in rw (← same) inv

    single_Inv :
        (s s' : Allocation) (i : ℕ) (o : Operand V P)
        → get_elem? os i ≡ some o
        → Inv s
        → single_step target i o s ≡ ok s'
        → Inv s'
    unfolding single_step
    single_Inv s s' i (input (class k) v) h inv e =
        found_Inv s s' i (input (class k) v) (mark_in s.allocated) (used_in s.allocated)
          (target.allocatable k) h inv (λ r l. ground arith) (λ r l. ground arith)
          (λ r x u. ground arith) (λ r x u. ground arith) (λ x f l u. ground arith)
          (λ x f l u. ground arith) e
    single_Inv s s' i (output (class k) true p) h inv e =
        found_Inv s s' i (output (class k) true p) (mark_out s.allocated) (used_out s.allocated)
          (target.allocatable k) h inv (λ r l. ground arith) (λ r l. ground arith)
          (λ r x u. ground arith) (λ r x u. ground arith) (λ x f l u. ground arith)
          (λ x f l u. ground arith) e
    single_Inv s s' i (output (class k) false p) h inv e = let same : s ≡ s' = cc in rw (← same) inv
    single_Inv s s' i (output (reg r) late p) h inv e = let same : s ≡ s' = cc in rw (← same) inv
    single_Inv s s' i (in_out r late v p) h inv e = let same : s ≡ s' = cc in rw (← same) inv
    single_Inv s s' i (input (reg r) v) h inv e = let same : s ≡ s' = cc in rw (← same) inv
    single_Inv s s' i constant h inv e = let same : s ≡ s' = cc in rw (← same) inv
    single_Inv s s' i symbol h inv e = let same : s ≡ s' = cc in rw (← same) inv

  -- What each step of a pass keeps, the pass keeps.
  pass_keeps :
      (Q : Allocation → Type 0) (step : ℕ → Operand V P → Allocation → Result Allocation)
      → ((s s' : Allocation) (i : ℕ) (o : Operand V P)
          → get_elem? os i ≡ some o
          → Q s
          → step i o s ≡ ok s'
          → Q s')
      → (rest : List (Operand V P)) (i : ℕ)
      → ((k : ℕ) (o : Operand V P) → get_elem? rest k ≡ some o → get_elem? os (i + k) ≡ some o)
      → (s s' : Allocation) → Q s
      → pass step i rest s ≡ ok s'
      → Q s'
  unfolding pass
  pass_keeps Q step keep [] i at s s' q e = let same : s ≡ s' = cc in rw (← same) q
  pass_keeps Q step keep (o ∷ rest) i at s s' q e = elim (Result-cases (step i o s)) [
    | inl failed ↦ absurd (ground arith)
    | inr (t, done) ↦
        pass_keeps Q step keep rest (i + 1) (λ k o' h. rw (shift i k) (at (suc k) o' h)) t s'
          (keep s t i o (rw (← plus_zero i) (at 0 o refl)) q done) (ground arith)
  ]

  abbrev Both : Allocation → Type 0
  Both s = Inv s × Closed s

  nothing_held : (i : ℕ) (o : Operand V P) (r : ℕ) → Holds (no_registers os) i o r → ⊥
  nothing_held i o r h = none-some r (get_elem?-replicate (length os) i none (some r) h.1)

  start_Inv : Both (no_registers os)
  start_Inv = (
    record {
      ins = λ i o r h l. absurd (nothing_held i o r h);
      outs = λ i o r h l. absurd (nothing_held i o r h);
      apart = λ i j o o' r r' n h h' c. absurd (nothing_held i o r h);
    },
    λ i o r h. absurd (nothing_held i o r h),
  )

  from_start : (k : ℕ) (o : Operand V P) → get_elem? os k ≡ some o → get_elem? os (0 + k) ≡ some o
  from_start k o h = rw (zero-add k) h

  explicit_pass :
      (comm : (r r' : ℕ) → overlap target r r' ≡ false → overlap target r' r ≡ false)
      (s s' : Allocation) (i : ℕ) (o : Operand V P)
      → get_elem? os i ≡ some o
      → Both s
      → ok (explicit_step i o s) ≡ ok s'
      → Both s'
  explicit_pass comm s s' i o h q e =
      let same : explicit_step i o s ≡ s' = cc in rw (← same) (explicit_Inv comm s i o h q.0 q.1)

  allocation_Inv :
      (comm : (r r' : ℕ) → overlap target r r' ≡ false → overlap target r' r ≡ false)
      (regs : List (Option ℕ))
      → allocate_registers target os ≡ ok regs
      → (s : Allocation) × (s.regs ≡ regs) × Inv s
  unfolding allocate_registers
  allocation_Inv comm regs e =
      elim (Result-cases (pass (λ i o s. ok (explicit_step i o s)) 0 os (no_registers os))) [
        | inl failed ↦ absurd (ground arith)
        | inr (s, p) ↦ elim (Result-cases (pass (both_step target) 0 os s)) [
          | inl failed ↦ absurd (ground arith)
          | inr (s', p') ↦ elim (Result-cases (pass (single_step target) 0 os s')) [
            | inl failed ↦ absurd (ground arith)
            | inr (s'', p'') ↦ (
              s'',
              ground arith,
              pass_keeps Inv (single_step target) (single_Inv comm) os 0 from_start s' s''
                  (pass_keeps Inv (both_step target) (both_Inv comm) os 0 from_start s s'
                    (pass_keeps Both (λ i o s. ok (explicit_step i o s)) (explicit_pass comm) os 0
                      from_start (no_registers os) s start_Inv p).0
                    p')
                  p'',
            )
          ]
        ]
      ]

-- Operands that are live together, of which one left the choice of its register open, are given
-- registers that do not overlap, whenever an allocation is found. Overlapping is symmetric.
pub registers_never_clash :
    (V P : Type 0) (target : AsmTarget) (os : List (Operand V P)) (regs : List (Option ℕ)) (i j : ℕ)
    (o o' : Operand V P) (r r' : ℕ)
    → ((x y : ℕ) → overlap target x y ≡ false → overlap target y x ≡ false)
    → allocate_registers target os ≡ ok regs
    → i ≢ j
    → get_elem? os i ≡ some o
    → get_elem? regs i ≡ some (some r)
    → get_elem? os j ≡ some o'
    → get_elem? regs j ≡ some (some r')
    → compete o o' ≡ true
    → overlap target r r' ≡ false
registers_never_clash V P target os regs i j o o' r r' comm e n h g h' g' c =
    let (s, same, inv) = allocation_Inv V P target os comm regs e in
    inv.apart i j o o' r r' n (h, rw same g) (h', rw same g') c
