-- ===== src/InlineAsm/Overlaps.antt =====
-- src/inline_asm.rs: the stack slots that are used at the same time do not overlap.
use rustc_codegen_cranelift.Common.{
  Option-cases, ℕ, suc, ◌+◌, ◌-◌, ◌/◌, ◌<◌, ◌≤◌, ◌≡◌, ◌≢◌, refl, sym, subst, ap, ◌∙◌, Option, none,
  some, List, [], ◌∷◌, ◌==◌, arith, Bool-cases, ◌⊎◌, inl, inr, set, get_elem?, get_elem?-set_self,
  get_elem?-set_other,
}
use rustc_codegen_cranelift.Codegen.{Result-cases, ok}
use rustc_codegen_cranelift.ValueAndPlace.{align_to}
use rustc_codegen_cranelift.InlineAsm.{AsmTarget}
use rustc_codegen_cranelift.InlineAsm.Slots.{greatest, new_slot, slot_step, round}
use native.Mathlib.Nat.{div-add-mod, mul_comm, mod-lt}

align_to-above : (n a : ℕ) → 0 < a → n ≤ align_to n a
unfolding align_to
align_to-above n a h =
    omega (arith, div-add-mod (n + a - 1) a, mod-lt (n + a - 1) h, mul_comm a ((n + a - 1) / a))

shift : (i k : ℕ) → i + 1 + k ≡ i + suc k
shift i k = omega arith

plus_zero : (i : ℕ) → i + 0 ≡ i
plus_zero i = omega arith

-- What stands at an index after a write.
entry :
    (slots : List (Option ℕ)) (i j n m : ℕ)
    → get_elem? (set slots i (some n)) j ≡ some (some m)
    → ((i ≡ j) × (n ≡ m)) ⊎ ((i ≢ j) × (get_elem? slots j ≡ some (some m)))
entry slots i j n m h = elim (Bool-cases (i == j)) [
  | inl e ↦
      let here : i ≡ j = ground arith in
      let there : get_elem? (set slots i (some n)) i ≡ some (some m) =
        subst (λ x. get_elem? (set slots i (some n)) x ≡ some (some m)) (sym here) h in
      let written = get_elem?-set_self slots i (some n) (some m) there in inl (here, cc)
  | inr e ↦
      let other : i ≢ j = ground arith in
      inr (other, sym (get_elem?-set_other slots i j (some n) other) ∙ h)
]

or_zero : Option ℕ → ℕ
or_zero none = 0
or_zero (some n) = n

module _ (target : AsmTarget) where
  -- The size of a slot for a class of registers.
  unfoldable pub class_bytes : ℕ → ℕ
  unfolding greatest or_zero
  class_bytes k = or_zero (greatest (target.supported_sizes k))

  -- The slots lie between the bounds, and apart, where slot `i` has `size i` bytes.
  pub record Packed (size : ℕ → ℕ) (lo hi : ℕ) (slots : List (Option ℕ)) : Type 0 where
    pub within : (i n : ℕ) → get_elem? slots i ≡ some (some n) → (lo ≤ n) × (n + size i ≤ hi)
    pub apart :
        (i j n n' : ℕ)
        → i ≢ j
        → get_elem? slots i ≡ some (some n)
        → get_elem? slots j ≡ some (some n')
        → (n + size i ≤ n') ⊎ (n' + size j ≤ n)

  module _ (aligned : (n a : ℕ) → target.align_from_bytes n ≡ some a → 0 < a) where
    new_slot-after :
        (size k n size' : ℕ)
        → new_slot target size k ≡ ok (n, size')
        → (size ≤ n) × (n + class_bytes k ≡ size')
    unfolding new_slot class_bytes
    new_slot-after size k n size' e = elim (Option-cases (greatest (target.supported_sizes k))) [
      | inl nothing ↦ absurd (ground arith)
      | inr (b, found) ↦ elim (Option-cases (target.align_from_bytes b)) [
        | inl nothing ↦ absurd (ground arith)
        | inr (a, fine) ↦
            let at : ok (align_to size a, align_to size a + b) ≡ ok (n, size') =
              rw (new_slot, found, fine) at e in
            let first : align_to size a ≡ n = cc in
            let second : align_to size a + b ≡ size' = cc in
            let above = align_to-above size a (aligned b a fine) in
            (omega (arith, first, above), rw found (omega (arith, first, second)))
      ]
    ]

    module _ (size : ℕ → ℕ) where
      -- A slot behind all the others.
      add_slot :
          (lo hi i n hi' : ℕ) (slots : List (Option ℕ))
          → Packed size lo hi slots
          → lo ≤ hi
          → hi ≤ n
          → n + size i ≡ hi'
          → Packed size lo hi' (set slots i (some n))
      add_slot lo hi i n hi' slots p l h e = record {
        within = λ j m at. elim (entry slots i j n m at) [
          | inl (here, same) ↦
              let sizes : size i ≡ size j = ap size here in omega (arith, sizes, same)
          | inr (_, before) ↦ omega (arith, p.within j m before)
        ];
        apart = λ j j' m m' differ at at'. elim (entry slots i j n m at) [
          | inl (here, same) ↦ elim (entry slots i j' n m' at') [
            | inl (here', _) ↦ absurd (differ (sym here ∙ here'))
            | inr (_, before) ↦ inr (omega (arith, same, p.within j' m' before))
          ]
          | inr (_, before) ↦ elim (entry slots i j' n m' at') [
            | inl (_, same) ↦ inl (omega (arith, same, p.within j m before))
            | inr (_, before') ↦ p.apart j j' m m' differ before before'
          ]
        ];
      }

      pub wider :
          (lo hi hi' : ℕ) (slots : List (Option ℕ))
          → Packed size lo hi slots
          → hi ≤ hi'
          → Packed size lo hi' slots
      wider lo hi hi' slots p h = record {
        within = λ i n at. omega (arith, p.within i n at);
        apart = p.apart;
      }

      step_Packed :
          (lo i : ℕ) (w : Option ℕ) (hi hi' : ℕ) (slots slots' : List (Option ℕ))
          → ((k : ℕ) → w ≡ some k → size i ≡ class_bytes k)
          → slot_step target i w (hi, slots) ≡ ok (hi', slots')
          → lo ≤ hi
          → Packed size lo hi slots
          → (hi ≤ hi') × Packed size lo hi' slots'
      unfolding slot_step
      step_Packed lo i none hi hi' slots slots' sized e l p =
          let same : hi ≡ hi' = cc in
          let same' : slots ≡ slots' = cc in (omega (arith, same), rw (← same, ← same') p)
      step_Packed lo i (some k) hi hi' slots slots' sized e l p =
          elim (Result-cases (new_slot target hi k)) [
            | inl failed ↦ absurd (ground arith)
            | inr ((n, top), found) ↦
                let (above, ends) = new_slot-after hi k n top found in
                let whole : ok (top, set slots i (some n)) ≡ ok (hi', slots') =
                  rw (slot_step, found) at e in
                let same : top ≡ hi' = cc in
                let same' : set slots i (some n) ≡ slots' = cc in
                (
                  omega (arith, above, ends, same),
                  rw (← same, ← same')
                      (add_slot lo hi i n top slots p l above (omega (arith, ends, sized k refl))),
                )
          ]

      -- A round keeps the slots apart, and adds none below the size that it starts with.
      pub round-Packed :
          {A : Type 0} (wants : A → Option ℕ) (lo i : ℕ) (xs : List A) (hi hi' : ℕ)
          (slots slots' : List (Option ℕ))
          → ((j k : ℕ) (x : A)
              → get_elem? xs j ≡ some x
              → wants x ≡ some k
              → size (i + j) ≡ class_bytes k)
          → round target wants i xs (hi, slots) ≡ ok (hi', slots')
          → lo ≤ hi
          → Packed size lo hi slots
          → (hi ≤ hi') × Packed size lo hi' slots'
      unfolding round
      round-Packed wants lo i [] hi hi' slots slots' sized e l p =
          let same : hi ≡ hi' = cc in
          let same' : slots ≡ slots' = cc in (omega (arith, same), rw (← same, ← same') p)
      round-Packed wants lo i (x ∷ xs) hi hi' slots slots' sized e l p =
          elim (Result-cases (slot_step target i (wants x) (hi, slots))) [
            | inl failed ↦ absurd (ground arith)
            | inr ((mid, slots''), done) ↦
                let (above, packed) =
                  step_Packed lo i (wants x) hi mid slots slots''
                    (λ k w. rw (← plus_zero i) (sized 0 k x refl w)) done l p in
                let (above', packed') =
                  round-Packed wants lo (i + 1) xs mid hi' slots'' slots'
                    (λ j k y at w. rw (shift i j) (sized (suc j) k y at w)) (rw (round, done) at e)
                    (omega (arith, l, above)) packed in
                (omega (arith, above, above'), packed')
          ]
