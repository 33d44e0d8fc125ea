-- ===== src/InlineAsm/SlotsApart.antt =====
-- src/inline_asm.rs: the stack slots of an inline assembly block that are used at the same time lie apart, within
-- the stack that the block is given.
use rustc_codegen_cranelift.Common.{
  ℕ, ◌+◌, ◌≤◌, ◌≡◌, refl, Bool, true, false, not, max, Option, none, some, List, ◌==◌, arith, subst,
  ap, ◌∙◌, ◌⊎◌, inl, inr, ◌<◌, replicate, length, get_elem?, get_elem?-replicate,
}
use rustc_codegen_cranelift.Codegen.{Result-cases, ok}
use rustc_codegen_cranelift.InlineAsm.{AsmTarget, RegOrRegClass, Operand, input, output, in_out}
use rustc_codegen_cranelift.InlineAsm.Slots.{
  Slots, class_of, wants_save, wants_in_out, wants_input, wants_output, round, allocate_stack_slots,
}
use rustc_codegen_cranelift.InlineAsm.Overlaps.{class_bytes, Packed, wider, round-Packed}

-- What a slot is for: a saved register, or the value of an operand on the way in or out.
pub data SlotKind : Type 0 where
  saved entering leaving : SlotKind

unfoldable pub slots_of : Slots → SlotKind → List (Option ℕ)
slots_of s saved = s.clobber
slots_of s entering = s.input
slots_of s leaving = s.output

-- Slots `i` and `j` of these kinds are two slots that are used at the same time. What enters is read
-- before what leaves is written.
unfoldable pub together : SlotKind → SlotKind → ℕ → ℕ → Bool
together saved saved i j = not (i == j)
together entering entering i j = not (i == j)
together leaving leaving i j = not (i == j)
together entering leaving i j = false
together leaving entering i j = false
together _ _ i j = true

module _ (V P : Type 0) (target : AsmTarget) (registers : List (Option ℕ))
    (os : List (Operand V P)) where
  register_bytes : Option (Option ℕ) → ℕ
  unfolding class_bytes
  register_bytes (some (some r)) = class_bytes target (target.reg_class r)
  register_bytes _ = 0

  operand_bytes : Option (Operand V P) → ℕ
  unfolding class_bytes class_of
  operand_bytes (some (input r _)) = class_bytes target (class_of target r)
  operand_bytes (some (output r _ _)) = class_bytes target (class_of target r)
  operand_bytes (some (in_out r _ _ _)) = class_bytes target (class_of target r)
  operand_bytes _ = 0

  -- The bytes of a slot: the largest type of the class of the register.
  unfoldable pub slot_bytes : SlotKind → ℕ → ℕ
  unfolding register_bytes operand_bytes
  slot_bytes saved i = register_bytes (get_elem? registers i)
  slot_bytes entering i = operand_bytes (get_elem? os i)
  slot_bytes leaving i = operand_bytes (get_elem? os i)

  from_zero : (j : ℕ) → 0 + j ≡ j
  from_zero j = omega arith

  save_size :
      (j k : ℕ) (x : Option ℕ)
      → get_elem? registers j ≡ some x
      → wants_save target x ≡ some k
      → slot_bytes saved (0 + j) ≡ class_bytes target k
  unfolding wants_save slot_bytes
  save_size j k none at w = cc
  save_size j k (some r) at w =
      let same : target.reg_class r ≡ k = ground arith in
      rw (from_zero j, at) (ap (class_bytes target) same)

  operand_size :
      (r : RegOrRegClass) (o : Operand V P) (j k : ℕ)
      → operand_bytes (some o) ≡ class_bytes target (class_of target r)
      → get_elem? os j ≡ some o
      → ◌≡◌ {A = Option ℕ} (some (class_of target r)) (some k)
      → operand_bytes (get_elem? os (0 + j)) ≡ class_bytes target k
  operand_size r o j k sized at w =
      let same : class_of target r ≡ k = cc in
      rw (from_zero j, at) (sized ∙ ap (class_bytes target) same)

  in_out_size :
      (j k : ℕ) (o : Operand V P)
      → get_elem? os j ≡ some o
      → wants_in_out target o ≡ some k
      → operand_bytes (get_elem? os (0 + j)) ≡ class_bytes target k
  unfolding wants_in_out operand_bytes
  in_out_size j k (in_out r l v (some p)) at w =
      operand_size r (in_out r l v (some p)) j k refl at w
  in_out_size j k _ at w = absurd cc

  input_size :
      (j k : ℕ) (o : Operand V P)
      → get_elem? os j ≡ some o
      → wants_input target o ≡ some k
      → operand_bytes (get_elem? os (0 + j)) ≡ class_bytes target k
  unfolding wants_input operand_bytes
  input_size j k (input r v) at w = operand_size r (input r v) j k refl at w
  input_size j k (in_out r l v none) at w = operand_size r (in_out r l v none) j k refl at w
  input_size j k _ at w = absurd cc

  output_size :
      (j k : ℕ) (o : Operand V P)
      → get_elem? os j ≡ some o
      → wants_output target o ≡ some k
      → operand_bytes (get_elem? os (0 + j)) ≡ class_bytes target k
  unfolding wants_output operand_bytes
  output_size j k (output r l (some p)) at w = operand_size r (output r l (some p)) j k refl at w
  output_size j k _ at w = absurd cc

  no_slots : (size : ℕ → ℕ) (n : ℕ) → Packed target size n n (replicate (length os) none)
  no_slots size n = record {
    within = λ i m at. absurd (nothing i m at);
    apart = λ i j m m' differ at at'. absurd (nothing i m at);
  }
    where
      nothing : (i m : ℕ) → get_elem? (replicate (length os) none) i ≡ some (some m) → ⊥
      nothing i m at =
          let same : ◌≡◌ {A = Option ℕ} none (some m) =
            get_elem?-replicate (length os) i none (some m) at in
          cc

  -- The slots for saved registers come first, and all lie within the stack.
  record Placed (s : Slots) : Type 0 where
    border : ℕ
    first : Packed target (slot_bytes saved) 0 border s.clobber
    ins : Packed target (slot_bytes entering) border s.slot_size s.input
    outs : Packed target (slot_bytes leaving) border s.slot_size s.output
    fits : border ≤ s.slot_size

  module _ (aligned : (n a : ℕ) → target.align_from_bytes n ≡ some a → 0 < a) where
    allocate_stack_slots-Placed :
        (s : Slots) → allocate_stack_slots target registers os ≡ ok s → Placed s
    unfolding allocate_stack_slots slot_bytes
    allocate_stack_slots-Placed s e =
        let empty = replicate (length os) none in
        elim (Result-cases (round target (wants_save target) 0 registers (0, empty))) [
          | inl failed ↦ absurd (ground arith)
          | inr ((n1, clobber), r1) ↦
              elim (Result-cases (round target (wants_in_out target) 0 os (n1, empty))) [
                | inl failed ↦ absurd (ground arith)
                | inr ((n2, both), r2) ↦
                    elim (Result-cases (round target (wants_input target) 0 os (n2, both))) [
                      | inl failed ↦ absurd (ground arith)
                      | inr ((n3, ins), r3) ↦
                          elim (Result-cases (round target (wants_output target) 0 os (n2, both))) [
                            | inl failed ↦ absurd (ground arith)
                            | inr ((n4, outs), r4) ↦
                                let sizes = slot_bytes entering in
                                let (c1, p1) =
                                  round-Packed target aligned (slot_bytes saved) (wants_save target)
                                    0 0 registers 0 n1 empty clobber save_size r1 (omega arith)
                                    (no_slots (slot_bytes saved) 0) in
                                let (c2, p2) =
                                  round-Packed target aligned sizes (wants_in_out target) n1 0 os n1
                                    n2 empty both in_out_size r2 (omega arith)
                                    (no_slots sizes n1) in
                                let (c3, p3) =
                                  round-Packed target aligned sizes (wants_input target) n1 0 os n2
                                    n3 both ins input_size r3 c2 p2 in
                                let (c4, p4) =
                                  round-Packed target aligned sizes (wants_output target) n1 0 os n2
                                    n4 both outs output_size r4 c2 p2 in
                                let result : Slots = record {
                                  clobber = clobber;
                                  input = ins;
                                  output = outs;
                                  slot_size = max n4 n3;
                                } in
                                let same : result ≡ s = ground arith in
                                let placed : Placed result = record {
                                  border = n1;
                                  first = p1;
                                  ins =
                                      wider target aligned sizes n1 n3 (max n4 n3) ins p3
                                        (omega arith);
                                  outs =
                                      wider target aligned sizes n1 n4 (max n4 n3) outs p4
                                        (omega arith);
                                  fits = omega (arith, c2, c3);
                                } in
                                subst Placed same placed
                          ]
                    ]
              ]
        ]

    -- Of two slots of one kind, one ends before the other starts, and a saved register lies before what
    -- enters or leaves.
    apart_of :
        (s : Slots) (k k' : SlotKind) (i j n n' : ℕ)
        → Placed s
        → get_elem? (slots_of s k) i ≡ some (some n)
        → get_elem? (slots_of s k') j ≡ some (some n')
        → together k k' i j ≡ true
        → (n + slot_bytes k i ≤ n') ⊎ (n' + slot_bytes k' j ≤ n)
    unfolding slots_of together
    apart_of s saved saved i j n n' p at at' t = p.first.apart i j n n' (ground arith) at at'
    apart_of s entering entering i j n n' p at at' t = p.ins.apart i j n n' (ground arith) at at'
    apart_of s leaving leaving i j n n' p at at' t = p.outs.apart i j n n' (ground arith) at at'
    apart_of s saved entering i j n n' p at at' t =
        inl (omega (arith, p.first.within i n at, p.ins.within j n' at'))
    apart_of s saved leaving i j n n' p at at' t =
        inl (omega (arith, p.first.within i n at, p.outs.within j n' at'))
    apart_of s entering saved i j n n' p at at' t =
        inr (omega (arith, p.ins.within i n at, p.first.within j n' at'))
    apart_of s leaving saved i j n n' p at at' t =
        inr (omega (arith, p.outs.within i n at, p.first.within j n' at'))
    apart_of s entering leaving i j n n' p at at' t = absurd cc
    apart_of s leaving entering i j n n' p at at' t = absurd cc

    ends_of :
        (s : Slots) (k : SlotKind) (i n : ℕ)
        → Placed s
        → get_elem? (slots_of s k) i ≡ some (some n)
        → n + slot_bytes k i ≤ s.slot_size
    unfolding slots_of
    ends_of s saved i n p at = omega (arith, p.first.within i n at, p.fits)
    ends_of s entering i n p at = omega (arith, p.ins.within i n at)
    ends_of s leaving i n p at = omega (arith, p.outs.within i n at)

    -- Two slots that are used at the same time do not overlap, and end within the stack that is reserved,
    -- whenever slots are found. An alignment is never zero.
    pub stack_slots_never_overlap :
        (s : Slots) (k k' : SlotKind) (i j n n' : ℕ)
        → allocate_stack_slots target registers os ≡ ok s
        → get_elem? (slots_of s k) i ≡ some (some n)
        → get_elem? (slots_of s k') j ≡ some (some n')
        → together k k' i j ≡ true
        → ((n + slot_bytes k i ≤ n') ⊎ (n' + slot_bytes k' j ≤ n))
          × (n + slot_bytes k i ≤ s.slot_size)
          × (n' + slot_bytes k' j ≤ s.slot_size)
    stack_slots_never_overlap s k k' i j n n' e at at' t =
        let placed = allocate_stack_slots-Placed s e in
        (
          apart_of s k k' i j n n' placed at at' t,
          ends_of s k i n placed at,
          ends_of s k' j n' placed at',
        )
