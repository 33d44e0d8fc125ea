-- ===== src/ValueAndPlace/Assignable.antt =====
-- src/value_and_place.rs, `assert_assignable`: which types may be written to a place, to a limited depth.
use rustc_codegen_cranelift.Common.{
  ℕ, zero, suc, ◌≡◌, refl, Bool, true, false, ◌&&◌, ◌||◌, ◌==◌, List, [], ◌∷◌, arith,
}
use rustc_codegen_cranelift.Codegen.{
  RustTy, bool, char, str, foreign, param, uint, int, float, raw_ptr, ref, slice, array, dynamic,
  fn_ptr, tuple, adt, closure, coroutine, coroutine_witness, Tys, nil, cons, UintTy, IntTy, FloatTy,
  uint_eq, int_eq, float_eq, nats_eq, bool_eq, rust_ty_eq, tys_eq, Tcx,
}

-- Two lists of types, one by one; they have one length.
unfoldable pub all_tys : (RustTy → RustTy → Bool) → Tys → Tys → Bool
all_tys test nil nil = true
all_tys test (cons a ts) (cons b us) = test a b && all_tys test ts us
all_tys test _ _ = false

-- The predicates of two trait objects, as far as both go.
unfoldable pub zip_eq : List ℕ → List ℕ → Bool
zip_eq (m ∷ ms) (n ∷ ns) = m == n && zip_eq ms ns
zip_eq _ _ = true

module _ (tcx : Tcx) where
  -- Without an assertion for the types, they are equal; a type parameter is let through when
  -- polymorphization is on.
  unfoldable pub same_ty : RustTy → RustTy → Bool
  unfolding rust_ty_eq
  same_ty param b = tcx.polymorphize || rust_ty_eq param b
  same_ty a param = tcx.polymorphize || rust_ty_eq a param
  same_ty a b = rust_ty_eq a b

  -- Does `assert_assignable` come back, with the given limit?
  unfoldable pub assignable : ℕ → RustTy → RustTy → Bool
  unfolding all_tys zip_eq same_ty
  assignable zero from to = true
  assignable (suc n) (ref a) (ref b) = assignable n a b
  assignable (suc n) (raw_ptr a) (raw_ptr b) = assignable n a b
  assignable (suc n) (ref a) (raw_ptr b) = assignable n a b
  assignable (suc n) (raw_ptr a) (ref b) = assignable n a b
  assignable (suc n) (fn_ptr ts v s a) (fn_ptr us w r b) =
      all_tys (assignable n) ts us && bool_eq v w && bool_eq s r && a == b
  assignable (suc n) (dynamic ms) (dynamic ns) = zip_eq ms ns
  assignable (suc n) (tuple ts) (tuple us) = all_tys (assignable n) ts us
  assignable (suc n) (adt d ts) (adt e us) = d == e && all_tys (assignable n) ts us
  assignable (suc n) (array a _) (array b _) = assignable n a b
  assignable (suc n) (closure d ts) (closure e us) = d == e && all_tys (assignable n) ts us
  assignable (suc n) (coroutine d ts) (coroutine e us) = d == e && all_tys (assignable n) ts us
  assignable (suc n) (coroutine_witness d ts) (coroutine_witness e us) =
      d == e && all_tys (assignable n) ts us
  assignable (suc n) from to = same_ty from to

bool_eq_refl : (b : Bool) → bool_eq b b ≡ true
bool_eq_refl true = refl
bool_eq_refl false = refl

zip_eq_refl : (ns : List ℕ) → zip_eq ns ns ≡ true
unfolding zip_eq
zip_eq_refl [] = refl
zip_eq_refl (n ∷ ns) = ground (arith, zip_eq_refl ns)

all_tys_refl :
    (test : RustTy → RustTy → Bool)
    → ((t : RustTy) → test t t ≡ true)
    → (ts : Tys) → all_tys test ts ts ≡ true
unfolding all_tys
all_tys_refl test h nil = refl
all_tys_refl test h (cons t ts) = ground (arith, h t, all_tys_refl test h ts)

uint_eq_refl : (t : UintTy) → uint_eq t t ≡ true
unfolding uint_eq
uint_eq_refl UintTy.u8 = refl
uint_eq_refl UintTy.u16 = refl
uint_eq_refl UintTy.u32 = refl
uint_eq_refl UintTy.u64 = refl
uint_eq_refl UintTy.u128 = refl
uint_eq_refl UintTy.usize = refl

int_eq_refl : (t : IntTy) → int_eq t t ≡ true
unfolding int_eq
int_eq_refl IntTy.i8 = refl
int_eq_refl IntTy.i16 = refl
int_eq_refl IntTy.i32 = refl
int_eq_refl IntTy.i64 = refl
int_eq_refl IntTy.i128 = refl
int_eq_refl IntTy.isize = refl

float_eq_refl : (t : FloatTy) → float_eq t t ≡ true
unfolding float_eq
float_eq_refl FloatTy.f16 = refl
float_eq_refl FloatTy.f32 = refl
float_eq_refl FloatTy.f64 = refl
float_eq_refl FloatTy.f128 = refl

nats_eq_refl : (ns : List ℕ) → nats_eq ns ns ≡ true
unfolding nats_eq
nats_eq_refl [] = refl
nats_eq_refl (n ∷ ns) = ground (arith, nats_eq_refl ns)

mutual
  unfolding rust_ty_eq

  pub rust_ty_eq_refl : (t : RustTy) → rust_ty_eq t t ≡ true
  rust_ty_eq_refl bool = refl
  rust_ty_eq_refl char = refl
  rust_ty_eq_refl str = refl
  rust_ty_eq_refl foreign = refl
  rust_ty_eq_refl param = refl
  rust_ty_eq_refl (uint t) = uint_eq_refl t
  rust_ty_eq_refl (int t) = int_eq_refl t
  rust_ty_eq_refl (float t) = float_eq_refl t
  rust_ty_eq_refl (raw_ptr t) = rust_ty_eq_refl t
  rust_ty_eq_refl (ref t) = rust_ty_eq_refl t
  rust_ty_eq_refl (slice t) = rust_ty_eq_refl t
  rust_ty_eq_refl (array t n) = ground (arith, rust_ty_eq_refl t)
  rust_ty_eq_refl (dynamic ns) = nats_eq_refl ns
  rust_ty_eq_refl (fn_ptr ts v s a) = ground (arith, bool_eq_refl v, bool_eq_refl s, tys_eq_refl ts)
  rust_ty_eq_refl (tuple ts) = tys_eq_refl ts
  rust_ty_eq_refl (adt n ts) = ground (arith, tys_eq_refl ts)
  rust_ty_eq_refl (closure n ts) = ground (arith, tys_eq_refl ts)
  rust_ty_eq_refl (coroutine n ts) = ground (arith, tys_eq_refl ts)
  rust_ty_eq_refl (coroutine_witness n ts) = ground (arith, tys_eq_refl ts)

  tys_eq_refl : (ts : Tys) → tys_eq ts ts ≡ true
  tys_eq_refl nil = refl
  tys_eq_refl (cons t ts) = ground (arith, rust_ty_eq_refl t, tys_eq_refl ts)

-- A value may be written to a place of its own type, at every depth of the check.
pub assignable_refl : (tcx : Tcx) (n : ℕ) (t : RustTy) → assignable tcx n t t ≡ true
unfolding assignable
assignable_refl tcx zero t = refl
assignable_refl tcx (suc n) bool = refl
assignable_refl tcx (suc n) char = refl
assignable_refl tcx (suc n) str = refl
assignable_refl tcx (suc n) foreign = refl
assignable_refl tcx (suc n) param = ground arith
assignable_refl tcx (suc n) (uint t) = uint_eq_refl t
assignable_refl tcx (suc n) (int t) = int_eq_refl t
assignable_refl tcx (suc n) (float t) = float_eq_refl t
assignable_refl tcx (suc n) (raw_ptr t) = assignable_refl tcx n t
assignable_refl tcx (suc n) (ref t) = assignable_refl tcx n t
assignable_refl tcx (suc n) (slice t) = rust_ty_eq_refl t
assignable_refl tcx (suc n) (array t k) = assignable_refl tcx n t
assignable_refl tcx (suc n) (dynamic ns) = zip_eq_refl ns
assignable_refl tcx (suc n) (fn_ptr ts v s a) = ground (
  arith,
  all_tys_refl (assignable tcx n) (assignable_refl tcx n) ts,
  bool_eq_refl v,
  bool_eq_refl s,
)
assignable_refl tcx (suc n) (tuple ts) = all_tys_refl (assignable tcx n) (assignable_refl tcx n) ts
assignable_refl tcx (suc n) (adt d ts) =
    ground (arith, all_tys_refl (assignable tcx n) (assignable_refl tcx n) ts)
assignable_refl tcx (suc n) (closure d ts) =
    ground (arith, all_tys_refl (assignable tcx n) (assignable_refl tcx n) ts)
assignable_refl tcx (suc n) (coroutine d ts) =
    ground (arith, all_tys_refl (assignable tcx n) (assignable_refl tcx n) ts)
assignable_refl tcx (suc n) (coroutine_witness d ts) =
    ground (arith, all_tys_refl (assignable tcx n) (assignable_refl tcx n) ts)
