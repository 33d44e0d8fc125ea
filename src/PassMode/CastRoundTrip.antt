-- ===== src/PassMode/CastRoundTrip.antt =====
-- src/abi/pass_mode.rs: the parameters that a cast argument is stored from are what it is passed on as.
use rustc_codegen_cranelift.Common.{
  ℕ, ◌+◌, ◌^◌, ◌<◌, ◌≤◌, ◌≡◌, refl, ap, ◌∙◌, true, false, Option, none, some, List, [], ◌∷◌, arith,
  max, Bool, lt→ltb, if◌then◌else◌,
}
use rustc_codegen_cranelift.Common.Int.{pos, ◌+ℤ◌, ◌≤ℤ◌}
use rustc_codegen_cranelift.Clif.{ty_bytes, Ty, Clif, AbiParam}
use rustc_codegen_cranelift.Clif.Documented.{Documented}
use rustc_codegen_cranelift.Codegen.{Tcx, Cg, ok, pure, bind-ok, Layout}
use rustc_codegen_cranelift.Pointer.{
  Pointer, PointerBase, addr, stack, dangling, load_ptr, store_ptr, offset_i64,
}
use rustc_codegen_cranelift.Pointer
use rustc_codegen_cranelift.FunctionCx.{create_stack_slot, slot_for, realigned}
use rustc_codegen_cranelift.ValueAndPlace.{CValue}
use rustc_codegen_cranelift.ValueAndPlace
use rustc_codegen_cranelift.ValueAndPlace.ReadBack.{IsMemory}
use rustc_codegen_cranelift.ValueAndPlace.Write.{force_stack}
use rustc_codegen_cranelift.PassMode.Params.{CastTarget, cast_target_to_abi_params}
use rustc_codegen_cranelift.PassMode.Values.{param_bytes, store_params, from_casted_value}
use rustc_codegen_cranelift.PassMode.Casted.{load_params, unmeta, to_casted_value}

-- The values have the types of the parameters, none of which is empty.
abbrev pub Fit : (c : Clif) → List AbiParam → List c.Value → Type 0
Fit c [] [] = Unit {0}
Fit c (p ∷ ps) (v ∷ vs) =
    (c.value_type v ≡ p.value_type) × (0 < ty_bytes p.value_type) × Fit c ps vs
Fit c _ _ = ⊥

at_zero : (n : ℕ) → pos 0 +ℤ pos n ≡ pos n
unfolding ◌+ℤ◌
at_zero n = ground arith

before : (n k m : ℕ) → n + k ≤ m → pos n +ℤ pos k ≤ℤ pos m
unfolding ◌+ℤ◌
before n k m h = ground arith

module _ (c : Clif) (d : Documented c) (pointer_type : Ty) where
  open c use {Value, Fx, value_type}

  abbrev at : PointerBase c → ℕ → Pointer c
  at base n = record { base = base; offset = pos n }

  -- Memory at a distance from a base, read and written.
  read_at : PointerBase c → Ty → ℕ → Fx → Option Value
  read_at (addr a) t n fx = some (c.load t a (pos n) fx)
  read_at (stack s) t n fx = some (c.stack_load t s (pos n) fx)
  read_at (dangling _) t n fx = none

  put_at : PointerBase c → Value → ℕ → Fx → Fx
  put_at (addr a) v n fx = c.store v a (pos n) fx
  put_at (stack s) v n fx = c.stack_store v s (pos n) fx
  put_at (dangling _) v n fx = fx

  read-put :
      (base : PointerBase c) (v : Value) (n : ℕ) (fx : Fx)
      → IsMemory c base
      → read_at base (value_type v) n (put_at base v n fx) ≡ some v
  unfolding read_at put_at IsMemory
  read-put (addr a) v n fx h = ap some (d.load_store v a (pos n) fx)
  read-put (stack s) v n fx h = ap some (d.stack_load_store v s (pos n) fx)
  read-put (dangling _) v n fx h = absurd h

  read-put_after :
      (base : PointerBase c) (t : Ty) (v : Value) (n m : ℕ) (fx : Fx)
      → 0 < ty_bytes t
      → n + ty_bytes t ≤ m
      → read_at base t n (put_at base v m fx) ≡ read_at base t n fx
  unfolding read_at put_at
  read-put_after (addr a) t v n m fx h k =
      ap some (d.load_store_apart t v a (pos n) (pos m) fx h (before n (ty_bytes t) m k))
  read-put_after (stack s) t v n m fx h k =
      ap some (d.stack_load_store_apart t v s (pos n) (pos m) fx h (before n (ty_bytes t) m k))
  read-put_after (dangling _) t v n m fx h k = refl

  store_ptr-put :
      (base : PointerBase c) (v : Value) (n : ℕ) (fx : Fx)
      → IsMemory c base
      → store_ptr c pointer_type (at base n) v fx ≡ ok (tt, put_at base v n fx)
  unfolding store_ptr put_at IsMemory
  store_ptr-put (addr a) v n fx h = refl
  store_ptr-put (stack s) v n fx h = refl
  store_ptr-put (dangling _) v n fx h = absurd h

  load_ptr-read :
      (base : PointerBase c) (t : Ty) (v : Value) (n : ℕ) (fx : Fx)
      → read_at base t n fx ≡ some v
      → load_ptr c pointer_type (at base n) t fx ≡ ok (v, fx)
  unfolding load_ptr read_at
  load_ptr-read (addr a) t v n fx e = let same : c.load t a (pos n) fx ≡ v = cc in rw same refl
  load_ptr-read (stack s) t v n fx e =
      let same : c.stack_load t s (pos n) fx ≡ v = cc in rw same refl
  load_ptr-read (dangling _) t v n fx e = absurd (cc)

  -- An offset of 32 bits is added to the pointer itself.
  offset_i64-at :
      (base : PointerBase c) (n : ℕ)
      → n < 2 ^ 31
      → offset_i64 c pointer_type (at base 0) (pos n) ≡ ok (at base n)
  unfolding offset_i64
  offset_i64-at base n h =
      let summed : c.try_add_i64 (pos 0) (pos n) ≡ some (pos n) =
        rw (at_zero n) at (d.try_add_i64_fits (pos 0) (pos n) (rw (at_zero n) (ground arith))) in
      rw (summed, offset_i64) refl

  module _ (tcx : Tcx) where
    -- What the stores leave behind: the values, and all that lies before them.
    abbrev Stored : PointerBase c → ℕ → List AbiParam → List Value → Fx → Fx → Type 0
    Stored base off ps vs fx fx' =
        (store_params c tcx pointer_type (at base 0) off ps vs fx ≡ ok (tt, fx'))
        × (load_params c tcx pointer_type (at base 0) off ps fx' ≡ ok (vs, fx'))
        × ((t : Ty) (n : ℕ)
            → 0 < ty_bytes t
            → n + ty_bytes t ≤ off
            → read_at base t n fx' ≡ read_at base t n fx)

    store_params-Stored :
        (base : PointerBase c) (off : ℕ) (ps : List AbiParam) (vs : List Value) (fx : Fx)
        → IsMemory c base
        → Fit c ps vs
        → off + param_bytes ps < 2 ^ 31
        → (fx' : Fx) × Stored base off ps vs fx fx'
    unfolding store_params load_params param_bytes
    store_params-Stored base off [] [] fx h fit small = (fx, (refl, refl, λ t n p k. refl))
    store_params-Stored base off (p ∷ ps) (v ∷ vs) fx h (same, some_bytes, fit) small =
        let b = ty_bytes p.value_type in
        let (fx', (stores, loads, kept)) =
          store_params-Stored base (off + b) ps vs (put_at base v off fx) h fit (omega arith) in
        let moved = offset_i64-at base off (omega arith) in
        let first : read_at base p.value_type off fx' ≡ some v =
          kept p.value_type off some_bytes (omega arith)
          ∙ subst_type base p.value_type v off fx same h in
        (
          fx',
          (
            rw moved (
                bind-ok (store_ptr c pointer_type (at base off) v) _ tt fx (put_at base v off fx) _
                  (store_ptr-put base v off fx h) stores),
            rw moved (
                bind-ok (load_ptr c pointer_type (at base off) p.value_type) _ v fx' fx' _
                  (load_ptr-read base p.value_type v off fx' first)
                  (bind-ok (load_params c tcx pointer_type (at base 0) (off + b) ps)
                    (λ vs'. pure (v ∷ vs')) vs fx' fx' _ loads refl)),
            λ t n q k. kept t n q (omega arith) ∙ read-put_after base t v n off fx q k,
          ),
        )
      where
        subst_type :
            (base : PointerBase c) (t : Ty) (v : Value) (off : ℕ) (fx : Fx)
            → value_type v ≡ t
            → IsMemory c base
            → read_at base t off (put_at base v off fx) ≡ some v
        subst_type base t v off fx same h = rw (← same) (read-put base v off fx h)
    store_params-Stored base off [] (v ∷ vs) fx h fit small = absurd fit
    store_params-Stored base off (p ∷ ps) [] fx h fit small = absurd fit

    -- The slot of `from_casted_value`.
    abbrev InMemory : Cg c (Pointer c) → Fx → Type 0
    InMemory m fx =
        (base : PointerBase c) × (fx' : Fx) × (m fx ≡ ok (at base 0, fx')) × IsMemory c base

    either-InMemory :
        (b : Bool) (m n : Cg c (Pointer c)) (fx : Fx)
        → InMemory m fx
        → InMemory n fx
        → InMemory (if b then m else n) fx
    either-InMemory true m n fx h k = h
    either-InMemory false m n fx h k = k

    slot-InMemory :
        (size align : ℕ) (fx : Fx) → InMemory (create_stack_slot c tcx pointer_type size align) fx
    unfolding create_stack_slot slot_for realigned IsMemory Pointer.stack_slot Pointer.new
    slot-InMemory size align fx =
        either-InMemory _ (slot_for c tcx pointer_type _) (realigned c tcx pointer_type _ _) fx
          (_, _, refl, tt) (_, _, refl, tt)

    -- Parameters that come from a cast argument or result and are passed on as one are the same again. This
    -- holds of parameters of the types that the target asks for, of less than 2 ^ 31 bytes in all.
    pub casted_round_trip :
        (target : CastTarget) (layout : Layout) (ps : List AbiParam) (vs : List Value) (fx : Fx)
        → cast_target_to_abi_params tcx target ≡ ok ps
        → Fit c ps vs
        → param_bytes ps < 2 ^ 31
        → layout.size < 2 ^ 32
        → layout.pref_align < 2 ^ 32
        → (v : CValue c) × (fx' : Fx) × (from_casted_value c tcx pointer_type vs layout target fx
            ≡ ok (v, fx'))
          × (to_casted_value c tcx pointer_type v target fx' ≡ ok (vs, fx'))
    unfolding from_casted_value to_casted_value force_stack unmeta
    casted_round_trip target layout ps vs fx e fit small size align =
        let (base, fx1, slot, memory) =
          slot-InMemory (max (param_bytes ps) layout.size) layout.pref_align fx in
        let (fx', (stores, loads, _)) =
          store_params-Stored base 0 ps vs fx1 memory fit (omega arith) in
        (
          ValueAndPlace.at_ref c tcx pointer_type (at base 0) layout,
          fx',
          rw (e, lt→ltb _ _ size, lt→ltb _ _ align)
              (bind-ok
                (create_stack_slot c tcx pointer_type (max (param_bytes ps) layout.size)
                  layout.pref_align)
                _ (at base 0) fx fx1 _ slot
                (bind-ok (store_params c tcx pointer_type (at base 0) 0 ps vs) _ tt fx1 fx' _ stores
                  refl)),
          rw e loads,
        )
