-- ===== src/ValueAndPlace/ReadBackPair.antt =====
-- src/value_and_place.rs: a place gives back the pair of scalars that was written to it.
use rustc_codegen_cranelift.Common.{ℕ, ◌<◌, ◌≤◌, ◌≡◌, ◌≢◌, refl, ◌∙◌, false, none, some, arith}
use rustc_codegen_cranelift.Common.Int.{ℤ, pos, ◌+ℤ◌, ◌≤ℤ◌}
use rustc_codegen_cranelift.Clif.{Ty, ty_bytes, Clif}
use rustc_codegen_cranelift.Clif.Documented.{Documented}
use rustc_codegen_cranelift.Codegen.{
  Tcx, bind-ok, Cg, ok, pure, lift, ◌>>=◌, ◌>>◌, Layout, BackendRepr, scalar_pair, Primitive,
}
use rustc_codegen_cranelift.Types.{clif_pair_type, scalar_to_clif_type}
use rustc_codegen_cranelift.Pointer.{
  Pointer, PointerBase, addr, stack, dangling, load_ptr, store_ptr, offset_i64,
}
use rustc_codegen_cranelift.ValueAndPlace.{
  CValue, CValueInner, by_ref, by_val, by_val_pair, load_scalar_pair, load_pair_at,
  scalar_pair_calculate_b_offset,
}
use rustc_codegen_cranelift.ValueAndPlace.Place.{
  CPlace, CPlaceInner, var, var_pair, place_addr, to_cvalue,
}
use rustc_codegen_cranelift.ValueAndPlace.Write.{
  write_cvalue, write_place, write_addr, define_vars, transmute_scalar, copy_from, store_pair,
  seen_as_pair, is_uninhabited_repr,
}
use rustc_codegen_cranelift.ValueAndPlace.ReadBack.{
  IsMemory, positive, transmute_scalar-same, write_cvalue-same,
}

further : (n : ℤ) (k o : ℕ) → k ≤ o → n +ℤ pos k ≤ℤ n +ℤ pos o
unfolding ◌+ℤ◌
further n k o h = ground arith

module _ (c : Clif) (d : Documented c) (tcx : Tcx) (pointer_type : Ty) where
  open c use {Value, Fx, value_type, def_var, try_add_i64}

  -- Two variables, or memory in which the offset of the second scalar fits 32 bits.
  unfoldable pub HoldsPair : CPlaceInner c → ℕ → Type 0
  unfolding IsMemory
  HoldsPair (var_pair _ n m) o = n ≢ m
  HoldsPair (place_addr ptr none) o =
      IsMemory c ptr.base × (q : ℤ) × (try_add_i64 ptr.offset (pos o) ≡ some q)
  HoldsPair _ o = ⊥

  -- Two stores from one base, of which the first ends before the second starts.
  stored_apart :
      (base : PointerBase c) (n q : ℤ) (v1 v2 : Value) (fx : Fx)
      → IsMemory c base
      → 0 < ty_bytes (value_type v1)
      → n +ℤ pos (ty_bytes (value_type v1)) ≤ℤ q
      → (fx1 fx2 : Fx) × (store_ptr c pointer_type (record { base = base; offset = n }) v1 fx
          ≡ ok (tt, fx1))
        × (store_ptr c pointer_type (record { base = base; offset = q }) v2 fx1 ≡ ok (tt, fx2))
        × (load_ptr c pointer_type (record { base = base; offset = n }) (value_type v1) fx2
            ≡ ok (v1, fx2))
        × (load_ptr c pointer_type (record { base = base; offset = q }) (value_type v2) fx2
            ≡ ok (v2, fx2))
  unfolding IsMemory store_ptr load_ptr
  stored_apart (addr a) n q v1 v2 fx h k apart = (
    c.store v1 a n fx,
    c.store v2 a q (c.store v1 a n fx),
    refl,
    refl,
    rw
        (
          d.load_store_apart (value_type v1) v2 a n q (c.store v1 a n fx) k apart,
          d.load_store v1 a n fx,
        )
        refl,
    rw (d.load_store v2 a q (c.store v1 a n fx)) refl,
  )
  stored_apart (stack s) n q v1 v2 fx h k apart = (
    c.stack_store v1 s n fx,
    c.stack_store v2 s q (c.stack_store v1 s n fx),
    refl,
    refl,
    rw
        (
          d.stack_load_store_apart (value_type v1) v2 s n q (c.stack_store v1 s n fx) k apart,
          d.stack_load_store v1 s n fx,
        )
        refl,
    rw (d.stack_load_store v2 s q (c.stack_store v1 s n fx)) refl,
  )
  stored_apart (dangling _) n q v1 v2 fx h k apart = absurd h

  abbrev pub b_offset : Primitive → Primitive → ℕ
  b_offset a b = scalar_pair_calculate_b_offset c tcx pointer_type a b

  offset-fits :
      (ptr : Pointer c) (o q : ℤ)
      → try_add_i64 ptr.offset o ≡ some q
      → offset_i64 c pointer_type ptr o ≡ ok (record { base = ptr.base; offset = q })
  unfolding offset_i64
  offset-fits ptr o q e = rw (offset_i64, e) refl

  store_pair-steps :
      (ptr p : Pointer c) (repr : BackendRepr) (a b : Primitive) (w1 w2 : Value) (fx fx1 fx2 : Fx)
      → repr ≡ scalar_pair a b
      → offset_i64 c pointer_type ptr (pos (b_offset a b)) ≡ ok p
      → store_ptr c pointer_type ptr w1 fx ≡ ok (tt, fx1)
      → store_ptr c pointer_type p w2 fx1 ≡ ok (tt, fx2)
      → store_pair c tcx pointer_type ptr repr (w1, w2) fx ≡ ok (tt, fx2)
  unfolding store_pair
  store_pair-steps ptr p repr a b w1 w2 fx fx1 fx2 re at s1 s2 = rw re (
      bind-ok (store_ptr c pointer_type ptr w1)
        (λ _. lift (offset_i64 c pointer_type ptr (pos (b_offset a b))) >>= λ q.
          store_ptr c pointer_type q w2)
        tt fx fx1 (ok (tt, fx2)) s1 (rw at s2))

  load_pair-steps :
      (ptr p : Pointer c) (repr : BackendRepr) (a b : Primitive) (w1 w2 : Value) (fx : Fx)
      → repr ≡ scalar_pair a b
      → scalar_to_clif_type tcx a ≡ ok (value_type w1)
      → scalar_to_clif_type tcx b ≡ ok (value_type w2)
      → offset_i64 c pointer_type ptr (pos (b_offset a b)) ≡ ok p
      → load_ptr c pointer_type ptr (value_type w1) fx ≡ ok (w1, fx)
      → load_ptr c pointer_type p (value_type w2) fx ≡ ok (w2, fx)
      → load_pair_at c tcx pointer_type ptr repr fx ≡ ok ((w1, w2), fx)
  unfolding load_pair_at
  load_pair-steps ptr p repr a b w1 w2 fx re t1 t2 at l1 l2 =
      rw (re, t1, t2)
        (bind-ok (load_ptr c pointer_type ptr (value_type w1))
          (λ v1. lift (offset_i64 c pointer_type ptr (pos (b_offset a b))) >>= λ q.
            load_ptr c pointer_type q (value_type w2) >>= λ v2. pure (v1, v2))
          w1 fx fx (ok ((w1, w2), fx)) l1
          (rw at (
            bind-ok (load_ptr c pointer_type p (value_type w2)) (λ v2. pure (w1, v2)) w2 fx fx
              (ok ((w1, w2), fx)) l2 refl)))

  define_vars-steps :
      (n m : ℕ) (l : Layout) (w1 w2 : Value) (fx : Fx)
      → clif_pair_type tcx l.ty ≡ ok (some (value_type w1, value_type w2))
      → define_vars c tcx pointer_type n m l (w1, w2) fx ≡ ok (tt, def_var m w2 (def_var n w1 fx))
  unfolding define_vars
  define_vars-steps n m l w1 w2 fx t = rw t (
      bind-ok (transmute_scalar c tcx pointer_type n w1 (value_type w1))
        (λ _. transmute_scalar c tcx pointer_type m w2 (value_type w2)) tt fx (def_var n w1 fx)
        (ok (tt, def_var m w2 (def_var n w1 fx)))
        (transmute_scalar-same c d tcx pointer_type n w1 fx)
        (transmute_scalar-same c d tcx pointer_type m w2 (def_var n w1 fx)))

  pair_stored :
      (ptr : Pointer c) (repr : BackendRepr) (a b : Primitive) (w1 w2 : Value) (q : ℤ) (fx : Fx)
      → IsMemory c ptr.base
      → try_add_i64 ptr.offset (pos (b_offset a b)) ≡ some q
      → repr ≡ scalar_pair a b
      → scalar_to_clif_type tcx a ≡ ok (value_type w1)
      → scalar_to_clif_type tcx b ≡ ok (value_type w2)
      → 0 < ty_bytes (value_type w1)
      → ty_bytes (value_type w1) ≤ b_offset a b
      → (fx' : Fx) × (store_pair c tcx pointer_type ptr repr (w1, w2) fx ≡ ok (tt, fx'))
        × (load_pair_at c tcx pointer_type ptr repr fx' ≡ ok ((w1, w2), fx'))
  pair_stored ptr repr a b w1 w2 q fx h e re t1 t2 k fits =
      let at : offset_i64 c pointer_type ptr (pos (b_offset a b))
          ≡ ok (record { base = ptr.base; offset = q }) =
        offset-fits ptr (pos (b_offset a b)) q e in
      let apart : ptr.offset +ℤ pos (ty_bytes (value_type w1)) ≤ℤ q =
        rw (d.try_add_i64_sum ptr.offset (pos (b_offset a b)) q e)
          (further ptr.offset (ty_bytes (value_type w1)) (b_offset a b) fits) in
      let p : Pointer c = record { base = ptr.base; offset = q } in
      let (fx1, fx2, s1, s2, l1, l2) = stored_apart ptr.base ptr.offset q w1 w2 fx h k apart in
      (
        fx2,
        store_pair-steps ptr p repr a b w1 w2 fx fx1 fx2 re at s1 s2,
        load_pair-steps ptr p repr a b w1 w2 fx2 re t1 t2 at l1 l2,
      )

  load_pair-seen :
      (l : Layout) (j : CValueInner c) (repr : BackendRepr) (a b : Primitive) (fx : Fx)
      → repr ≡ scalar_pair a b
      → seen_as_pair c tcx pointer_type l (record { inner = j; layout = l }) repr fx
        ≡ ok (record { inner = j; layout = l }, fx)
  unfolding seen_as_pair
  load_pair-seen l j repr a b fx e = rw e refl

  -- What memory is written with is the pair that the value has.
  copy_from-pair :
      (ptr x : Pointer c) (dst src : Layout) (repr : BackendRepr) (a b : Primitive)
      (ws : Value × Value) (fx : Fx)
      → repr ≡ scalar_pair a b
      → load_scalar_pair c tcx pointer_type (record { inner = by_ref x none; layout = src }) fx
        ≡ ok (ws, fx)
      → copy_from c tcx pointer_type ptr dst x src repr fx
        ≡ store_pair c tcx pointer_type ptr repr ws fx
  unfolding copy_from
  copy_from-pair ptr x dst src repr a b ws fx e r = rw e (
      bind-ok (load_scalar_pair c tcx pointer_type (record { inner = by_ref x none; layout = src }))
        (store_pair c tcx pointer_type ptr (scalar_pair a b)) ws fx fx _ r refl)

  inhabited :
      (repr : BackendRepr) (a b : Primitive)
      → repr ≡ scalar_pair a b
      → is_uninhabited_repr repr ≡ false
  unfolding is_uninhabited_repr
  inhabited repr a b e = rw e refl

  write_addr-pair :
      (ptr : Pointer c) (j : CValueInner c) (l : Layout) (a b : Primitive) (ws : Value × Value)
      (fx : Fx)
      → l.size ≢ 0
      → l.backend_repr ≡ scalar_pair a b
      → load_scalar_pair c tcx pointer_type (record { inner = j; layout = l }) fx ≡ ok (ws, fx)
      → write_addr c tcx pointer_type ptr l (record { inner = j; layout = l }) fx
        ≡ store_pair c tcx pointer_type ptr l.backend_repr ws fx
  unfolding write_addr load_scalar_pair
  write_addr-pair ptr (by_val x) l a b ws fx k repr r = absurd cc
  write_addr-pair ptr (by_val_pair x y) l a b ws fx k repr r =
      let same : (x, y) ≡ ws = ground arith in
      rw (positive l.size k, inhabited l.backend_repr a b repr, same) refl
  write_addr-pair ptr (by_ref x (some _)) l a b ws fx k repr r = absurd cc
  write_addr-pair ptr (by_ref x none) l a b ws fx k repr r =
      rw (positive l.size k, inhabited l.backend_repr a b repr)
        (copy_from-pair ptr x l l l.backend_repr a b ws fx repr r)

  abbrev pub read_pair_back : CPlace c → CValue c → Cg c (Value × Value)
  read_pair_back place v =
      write_cvalue c tcx pointer_type place v
      >> (to_cvalue c tcx pointer_type place >>= load_scalar_pair c tcx pointer_type)

  read_pair_back-stages :
      (i : CPlaceInner c) (j : CValueInner c) (l : Layout) (ws : Value × Value) (fx fx' : Fx)
      → write_place c tcx pointer_type i l (record { inner = j; layout = l }) fx ≡ ok (tt, fx')
      → (to_cvalue c tcx pointer_type (record { inner = i; layout = l })
            >>= load_scalar_pair c tcx pointer_type)
          fx'
        ≡ ok (ws, fx')
      → read_pair_back (record { inner = i; layout = l }) (record { inner = j; layout = l }) fx
        ≡ ok (ws, fx')
  read_pair_back-stages i j l ws fx fx' e r =
      bind-ok
        (write_cvalue c tcx pointer_type (record { inner = i; layout = l })
          (record { inner = j; layout = l }))
        (λ _.
          to_cvalue c tcx pointer_type (record { inner = i; layout = l })
          >>= load_scalar_pair c tcx pointer_type)
        tt fx fx' (ok (ws, fx')) (write_cvalue-same c d tcx pointer_type i j l fx ∙ e) r

  -- The pair of scalars that is read from a value is read back from two variables, or from memory,
  -- that the value is written to, when the first scalar ends before the second starts.
  pub pair_read_back :
      (i : CPlaceInner c) (j : CValueInner c) (l : Layout) (a b : Primitive) (w1 w2 : Value)
      (fx : Fx)
      → HoldsPair i (b_offset a b)
      → l.size ≢ 0
      → l.backend_repr ≡ scalar_pair a b
      → scalar_to_clif_type tcx a ≡ ok (value_type w1)
      → scalar_to_clif_type tcx b ≡ ok (value_type w2)
      → clif_pair_type tcx l.ty ≡ ok (some (value_type w1, value_type w2))
      → 0 < ty_bytes (value_type w1)
      → ty_bytes (value_type w1) ≤ b_offset a b
      → load_scalar_pair c tcx pointer_type (record { inner = j; layout = l }) fx
        ≡ ok ((w1, w2), fx)
      → (fx' : Fx) × (read_pair_back
            (record { inner = i; layout = l })
            (record { inner = j; layout = l })
            fx
          ≡ ok ((w1, w2), fx'))
  unfolding HoldsPair to_cvalue load_scalar_pair write_place
  pair_read_back (var _ _) j l a b w1 w2 fx h k repr t1 t2 t pos_ty fits r = absurd h
  pair_read_back (var_pair loc n m) j l a b w1 w2 fx h k repr t1 t2 t pos_ty fits r =
      let v : CValue c = record { inner = j; layout = l } in
      let fx1 = def_var n w1 fx in
      let fx2 = def_var m w2 fx1 in
      let defined = define_vars-steps n m l w1 w2 fx t in
      (
        fx2,
        read_pair_back-stages (var_pair loc n m) j l (w1, w2) fx fx2
            (bind-ok (seen_as_pair c tcx pointer_type l v l.backend_repr)
              (λ u. load_scalar_pair c tcx pointer_type u >>= define_vars c tcx pointer_type n m l)
              v fx fx _ (load_pair-seen l j l.backend_repr a b fx repr)
              (bind-ok (load_scalar_pair c tcx pointer_type v)
                (define_vars c tcx pointer_type n m l) (w1, w2) fx fx _ r defined))
            (rw (d.use_def_other n m w2 fx1 h, d.use_def n w1 fx, d.use_def m w2 fx1) refl),
      )
  pair_read_back (place_addr ptr none) j l a b w1 w2 fx (mem, q, e) k repr t1 t2 t pos_ty fits r =
      let (fx', put, get) =
        pair_stored ptr l.backend_repr a b w1 w2 q fx mem e repr t1 t2 pos_ty fits in
      (
        fx',
        read_pair_back-stages (place_addr ptr none) j l (w1, w2) fx fx'
            (write_addr-pair ptr j l a b (w1, w2) fx k repr r ∙ put) get,
      )
  pair_read_back (place_addr ptr (some _)) j l a b w1 w2 fx h k repr t1 t2 t pos_ty fits r =
      absurd h
