-- ===== src/ValueAndPlace/ReadBack.antt =====
-- src/value_and_place.rs: a place gives back what was written to it.
use rustc_codegen_cranelift.Common.{ℕ, ◌≡◌, ◌≢◌, refl, ◌∙◌, true, false, none, some, arith, ◌==◌}
use rustc_codegen_cranelift.Common.Int.{ℤ}
use rustc_codegen_cranelift.Clif.{Ty, ty_eq, ty_bytes, Clif}
use rustc_codegen_cranelift.Clif.Documented.{Documented}
use rustc_codegen_cranelift.Codegen.{
  Tcx, bind-ok, Cg, ok, ◌>>=◌, ◌>>◌, Layout, BackendRepr, scalar, Primitive,
}
use rustc_codegen_cranelift.Types.{clif_type, scalar_to_clif_type}
use rustc_codegen_cranelift.Pointer.{
  Pointer, PointerBase, addr, stack, dangling, load_ptr, store_ptr,
}
use rustc_codegen_cranelift.ValueAndPlace.{
  CValue, CValueInner, by_ref, by_val, by_val_pair, load_scalar,
}
use rustc_codegen_cranelift.ValueAndPlace.Assignable.{assignable_refl}
use rustc_codegen_cranelift.ValueAndPlace.Place.{
  CPlace, CPlaceInner, var, var_pair, place_addr, to_cvalue,
}
use rustc_codegen_cranelift.ValueAndPlace.Write.{
  write_cvalue, write_cvalue_transmute, transmute_scalar, write_place, write_addr, define_var,
  copy_from, seen_as_scalar, is_uninhabited_repr,
}

module _ (c : Clif) where
  -- Places of a known size: a variable, or memory at an address.
  unfoldable pub IsMemory : PointerBase c → Type 0
  IsMemory (dangling _) = ⊥
  IsMemory _ = Unit {0}

  unfoldable pub HoldsScalar : CPlaceInner c → Type 0
  unfolding IsMemory
  HoldsScalar (var _ _) = Unit {0}
  HoldsScalar (place_addr ptr none) = IsMemory ptr.base
  HoldsScalar _ = ⊥

ty_eq_refl : (t : Ty) → ty_eq t t ≡ true
unfolding ty_eq
ty_eq_refl Ty.i8 = refl
ty_eq_refl Ty.i16 = refl
ty_eq_refl Ty.i32 = refl
ty_eq_refl Ty.i64 = refl
ty_eq_refl Ty.i128 = refl
ty_eq_refl Ty.f32 = refl
ty_eq_refl Ty.f64 = refl
ty_eq_refl (Ty.by t n) = ground (arith, ty_eq_refl t)

pub positive : (n : ℕ) → n ≢ 0 → (n == 0) ≡ false
positive n h = ground arith

eq_self : (n : ℕ) → (n == n) ≡ true
eq_self n = ground arith

module _ (c : Clif) (d : Documented c) (tcx : Tcx) (pointer_type : Ty) where
  open c use {Value, Fx, value_type, def_var}

  -- Memory gives back the value that was stored.
  pub stored :
      (base : PointerBase c) (n : ℤ) (v : Value) (fx : Fx)
      → IsMemory c base
      → (fx' : Fx) × (store_ptr c pointer_type (record { base = base; offset = n }) v fx
          ≡ ok (tt, fx'))
        × (load_ptr c pointer_type (record { base = base; offset = n }) (value_type v) fx'
            ≡ ok (v, fx'))
  unfolding IsMemory store_ptr load_ptr
  stored (addr a) n v fx h = (c.store v a n fx, refl, rw (d.load_store v a n fx) refl)
  stored (stack s) n v fx h = (c.stack_store v s n fx, refl, rw (d.stack_load_store v s n fx) refl)
  stored (dangling _) n v fx h = absurd h

  -- A variable of the value's type becomes the value itself.
  pub transmute_scalar-same :
      (n : ℕ) (v : Value) (fx : Fx)
      → transmute_scalar c tcx pointer_type n v (value_type v) fx ≡ ok (tt, def_var n v fx)
  unfolding transmute_scalar
  transmute_scalar-same n v fx =
      rw (ty_eq_refl (value_type v), eq_self (ty_bytes (value_type v))) refl

  -- What `write_cvalue` checks of a value with the place's own layout holds.
  pub write_cvalue-same :
      (i : CPlaceInner c) (j : CValueInner c) (l : Layout) (fx : Fx)
      → write_cvalue c tcx pointer_type
          (record { inner = i; layout = l })
          (record { inner = j; layout = l })
          fx
        ≡ write_place c tcx pointer_type i l (record { inner = j; layout = l }) fx
  unfolding write_cvalue write_cvalue_transmute
  write_cvalue-same i j l fx = rw (assignable_refl tcx 16 l.ty, eq_self l.size) refl

  abbrev pub read_back : CPlace c → CValue c → Cg c Value
  read_back place v =
      write_cvalue c tcx pointer_type place v
      >> (to_cvalue c tcx pointer_type place >>= load_scalar c tcx pointer_type)

  read_back-stages :
      (i : CPlaceInner c) (j : CValueInner c) (l : Layout) (w : Value) (fx fx' fx'' : Fx)
      → write_place c tcx pointer_type i l (record { inner = j; layout = l }) fx ≡ ok (tt, fx')
      → (to_cvalue c tcx pointer_type (record { inner = i; layout = l })
            >>= load_scalar c tcx pointer_type)
          fx'
        ≡ ok (w, fx'')
      → read_back (record { inner = i; layout = l }) (record { inner = j; layout = l }) fx
        ≡ ok (w, fx'')
  read_back-stages i j l w fx fx' fx'' e r =
      bind-ok
        (write_cvalue c tcx pointer_type (record { inner = i; layout = l })
          (record { inner = j; layout = l }))
        (λ _.
          to_cvalue c tcx pointer_type (record { inner = i; layout = l })
          >>= load_scalar c tcx pointer_type)
        tt fx fx' (ok (w, fx'')) (write_cvalue-same i j l fx ∙ e) r

  inhabited : (b : BackendRepr) (p : Primitive) → b ≡ scalar p → is_uninhabited_repr b ≡ false
  unfolding is_uninhabited_repr
  inhabited b p repr = rw repr refl

  copy_from-scalar :
      (ptr : Pointer c) (dst : Layout) (x : Pointer c) (src : Layout) (b : BackendRepr)
      (p : Primitive) (w : Value) (fx : Fx)
      → b ≡ scalar p
      → load_scalar c tcx pointer_type (record { inner = by_ref x none; layout = src }) fx
        ≡ ok (w, fx)
      → copy_from c tcx pointer_type ptr dst x src b fx ≡ store_ptr c pointer_type ptr w fx
  unfolding copy_from
  copy_from-scalar ptr dst x src b p w fx repr r = rw repr (
      bind-ok (load_scalar c tcx pointer_type (record { inner = by_ref x none; layout = src }))
        (store_ptr c pointer_type ptr) w fx fx (store_ptr c pointer_type ptr w fx) r refl)

  seen-scalar :
      (l : Layout) (j : CValueInner c) (b : BackendRepr) (p : Primitive) (fx : Fx)
      → b ≡ scalar p
      → seen_as_scalar c tcx pointer_type l (record { inner = j; layout = l }) b fx
        ≡ ok (record { inner = j; layout = l }, fx)
  unfolding seen_as_scalar
  seen-scalar l j b p fx repr = rw repr refl

  write_addr-scalar :
      (ptr : Pointer c) (j : CValueInner c) (l : Layout) (p : Primitive) (w : Value) (fx : Fx)
      → l.size ≢ 0
      → l.backend_repr ≡ scalar p
      → load_scalar c tcx pointer_type (record { inner = j; layout = l }) fx ≡ ok (w, fx)
      → write_addr c tcx pointer_type ptr l (record { inner = j; layout = l }) fx
        ≡ store_ptr c pointer_type ptr w fx
  unfolding write_addr load_scalar
  write_addr-scalar ptr (by_val x) l p w fx k repr r =
      let same : x ≡ w = cc in rw (positive l.size k, repr, same) refl
  write_addr-scalar ptr (by_val_pair x y) l p w fx k repr r = absurd cc
  write_addr-scalar ptr (by_ref x (some _)) l p w fx k repr r = absurd cc
  write_addr-scalar ptr (by_ref x none) l p w fx k repr r =
      rw (positive l.size k, inhabited l.backend_repr p repr)
        (copy_from-scalar ptr l x l l.backend_repr p w fx repr r)

  -- The scalar that is read from a value is read back from a variable, or from memory, that the value
  -- is written to.
  pub scalar_read_back :
      (i : CPlaceInner c) (j : CValueInner c) (l : Layout) (p : Primitive) (w : Value) (fx : Fx)
      → HoldsScalar c i
      → l.size ≢ 0
      → l.backend_repr ≡ scalar p
      → scalar_to_clif_type tcx p ≡ ok (value_type w)
      → clif_type tcx l.ty ≡ ok (some (value_type w))
      → load_scalar c tcx pointer_type (record { inner = j; layout = l }) fx ≡ ok (w, fx)
      → (fx' : Fx) × (read_back
            (record { inner = i; layout = l })
            (record { inner = j; layout = l })
            fx
          ≡ ok (w, fx'))
  unfolding HoldsScalar to_cvalue load_scalar write_place define_var
  scalar_read_back (var loc n) j l p w fx h k repr t1 t2 r =
      let v : CValue c = record { inner = j; layout = l } in
      let defined : define_var c tcx pointer_type n l w fx ≡ ok (tt, def_var n w fx) =
        rw t2 (transmute_scalar-same n w fx) in
      (
        def_var n w fx,
        read_back-stages (var loc n) j l w fx (def_var n w fx) (def_var n w fx)
            (bind-ok (seen_as_scalar c tcx pointer_type l v l.backend_repr)
              (λ u. load_scalar c tcx pointer_type u >>= define_var c tcx pointer_type n l) v fx fx
              _ (seen-scalar l j l.backend_repr p fx repr)
              (bind-ok (load_scalar c tcx pointer_type v) (define_var c tcx pointer_type n l) w fx
                fx _ r defined))
            (rw (d.use_def n w fx) refl),
      )
  scalar_read_back (var_pair _ _ _) j l p w fx h k repr t1 t2 r = absurd h
  scalar_read_back (place_addr ptr none) j l p w fx h k repr t1 t2 r =
      let (fx', put, get) = stored ptr.base ptr.offset w fx h in
      (
        fx',
        read_back-stages (place_addr ptr none) j l w fx fx' fx'
            (write_addr-scalar ptr j l p w fx k repr r ∙ put) (rw (repr, t1) get),
      )
  scalar_read_back (place_addr ptr (some _)) j l p w fx h k repr t1 t2 r = absurd h
