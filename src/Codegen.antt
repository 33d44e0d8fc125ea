-- ===== src/Codegen.antt =====
-- The compiler's side of the model: rustc's types, layouts and operators as src/ matches on them, the
-- queries that it asks of rustc as parameters, and the state and failure of code generation.
use rustc_codegen_cranelift.Common.{
  ◌≡◌, refl, ◌⊎◌, inl, inr, ap, ◌∙◌, ℕ, ◌==◌, ◌&&◌, Bool, true, false, Option, none, some, List, [],
  ◌∷◌, if◌then◌else◌,
}
use Prim.Native.String.{String}
use rustc_codegen_cranelift.Clif.{Ty, Clif}

-- A panic: `unreachable!`, `bug!`, `unimplemented!`, a failed `assert!` or an `unwrap` of nothing.
pub data Result {ℓ} (A : Type ℓ) : Type ℓ where
  ok : A → Result A
  panic : Result A

pub Result-cases {ℓ} : {A : Type ℓ} (x : Result A) → (x ≡ panic) ⊎ ((a : A) × (x ≡ ok a))
Result-cases panic = inl refl
Result-cases (ok a) = inr (a, refl)

-- What generates code runs on the state `Fx` of the function that is built.
module _ (c : Clif) where
  abbrev pub Cg : Type 0 → Type 0
  Cg A = c.Fx → Result (A × c.Fx)

module _ {S : Type 0} where
  abbrev pub pure : {A : Type 0} → A → S → Result (A × S)
  pure a fx = ok (a, fx)

  abbrev pub fail : {A : Type 0} → S → Result (A × S)
  fail fx = panic

  infixl 5 ◌>>=◌ ◌>>◌
  abbrev pub ◌>>=◌ :
      {A B : Type 0} → (S → Result (A × S)) → (A → S → Result (B × S)) → S → Result (B × S)
  ◌>>=◌ m f fx = elim (m fx) [ ok (a, fx') ↦ f a fx' | panic ↦ panic ]

  abbrev pub ◌>>◌ :
      {B : Type 0} → (S → Result (Unit {0} × S)) → (S → Result (B × S)) → S → Result (B × S)
  m >> k = m >>= λ _. k

  abbrev pub lift : {A : Type 0} → Result A → S → Result (A × S)
  lift (ok a) fx = ok (a, fx)
  lift panic fx = panic

  abbrev pub assert : Bool → S → Result (Unit {0} × S)
  assert b fx = if b then ok (tt, fx) else panic

  abbrev pub unwrap : {A : Type 0} → Option A → S → Result (A × S)
  unwrap none fx = panic
  unwrap (some a) fx = ok (a, fx)

  -- A step that comes back, and what follows it.
  pub bind-ok :
      {A B : Type 0} (m : S → Result (A × S)) (f : A → S → Result (B × S)) (a : A) (fx fx' : S)
      (r : Result (B × S))
      → m fx ≡ ok (a, fx')
      → f a fx' ≡ r
      → (m >>= f) fx ≡ r
  bind-ok m f a fx fx' r e h = ap (λ x. elim x [ ok (b, s) ↦ f b s | panic ↦ panic ]) e ∙ h

  -- The steps of a chain that comes back.
  pub >>=-eq-ok :
      {A B : Type 0} (m : S → Result (A × S)) (f : A → S → Result (B × S)) (b : B) (fx fx' : S)
      → (m >>= f) fx ≡ ok (b, fx')
      → (a : A) × (fx1 : S) × (m fx ≡ ok (a, fx1)) × (f a fx1 ≡ ok (b, fx'))
  >>=-eq-ok {A} {B} m f b fx fx' e = elim (Result-cases (m fx)) [
    | inl stop ↦ absurd (let stopped = rw (stop, ◌>>=◌) at e in cc)
    | inr ((a, fx1), done) ↦ (a, fx1, done, rw (done, ◌>>=◌) at e)
  ]

  -- A read of the state, and a change of it.
  abbrev pub reads : {A : Type 0} → (S → A) → S → Result (A × S)
  reads f fx = ok (f fx, fx)

  abbrev pub writes : (S → S) → S → Result (Unit {0} × S)
  writes f fx = ok (tt, f fx)

pub data UintTy : Type 0 where
  u8 u16 u32 u64 u128 usize : UintTy

pub data IntTy : Type 0 where
  i8 i16 i32 i64 i128 isize : IntTy

pub data FloatTy : Type 0 where
  f16 f32 f64 f128 : FloatTy

-- rustc_middle::ty::TyKind, as far as src/ tells the kinds apart, with regions erased: `adt n` is a
-- nominal type by its definition, with its type arguments, `dynamic` has the predicates of a trait
-- object, and `fn_ptr` the inputs and the output, whether it is variadic and safe, and its ABI.
mutual
  pub data RustTy : Type 0 where
    bool char str foreign param : RustTy
    uint : UintTy → RustTy
    int : IntTy → RustTy
    float : FloatTy → RustTy
    raw_ptr ref slice : RustTy → RustTy
    array : RustTy → ℕ → RustTy
    dynamic : List ℕ → RustTy
    fn_ptr : Tys → Bool → Bool → ℕ → RustTy
    tuple : Tys → RustTy
    adt closure coroutine coroutine_witness : ℕ → Tys → RustTy

  pub data Tys : Type 0 where
    nil : Tys
    cons : RustTy → Tys → Tys

abbrev pub pair_ty : RustTy → RustTy → RustTy
pair_ty a b = tuple (cons a (cons b nil))

unfoldable pub uint_eq : UintTy → UintTy → Bool
uint_eq UintTy.u8 UintTy.u8 = true
uint_eq UintTy.u16 UintTy.u16 = true
uint_eq UintTy.u32 UintTy.u32 = true
uint_eq UintTy.u64 UintTy.u64 = true
uint_eq UintTy.u128 UintTy.u128 = true
uint_eq UintTy.usize UintTy.usize = true
uint_eq _ _ = false

unfoldable pub int_eq : IntTy → IntTy → Bool
int_eq IntTy.i8 IntTy.i8 = true
int_eq IntTy.i16 IntTy.i16 = true
int_eq IntTy.i32 IntTy.i32 = true
int_eq IntTy.i64 IntTy.i64 = true
int_eq IntTy.i128 IntTy.i128 = true
int_eq IntTy.isize IntTy.isize = true
int_eq _ _ = false

unfoldable pub float_eq : FloatTy → FloatTy → Bool
float_eq FloatTy.f16 FloatTy.f16 = true
float_eq FloatTy.f32 FloatTy.f32 = true
float_eq FloatTy.f64 FloatTy.f64 = true
float_eq FloatTy.f128 FloatTy.f128 = true
float_eq _ _ = false

unfoldable pub nats_eq : List ℕ → List ℕ → Bool
nats_eq [] [] = true
nats_eq (m ∷ ms) (n ∷ ns) = m == n && nats_eq ms ns
nats_eq _ _ = false

abbrev pub bool_eq : Bool → Bool → Bool
bool_eq true b = b
bool_eq false true = false
bool_eq false false = true

-- `==` on rustc's types, which are interned: equality of structure.
unfoldable mutual
  unfolding uint_eq int_eq float_eq nats_eq

  pub rust_ty_eq : RustTy → RustTy → Bool
  rust_ty_eq bool bool = true
  rust_ty_eq char char = true
  rust_ty_eq str str = true
  rust_ty_eq foreign foreign = true
  rust_ty_eq param param = true
  rust_ty_eq (uint a) (uint b) = uint_eq a b
  rust_ty_eq (int a) (int b) = int_eq a b
  rust_ty_eq (float a) (float b) = float_eq a b
  rust_ty_eq (raw_ptr a) (raw_ptr b) = rust_ty_eq a b
  rust_ty_eq (ref a) (ref b) = rust_ty_eq a b
  rust_ty_eq (slice a) (slice b) = rust_ty_eq a b
  rust_ty_eq (array a m) (array b n) = m == n && rust_ty_eq a b
  rust_ty_eq (dynamic ms) (dynamic ns) = nats_eq ms ns
  rust_ty_eq (fn_ptr ts v s a) (fn_ptr us w r b) =
      bool_eq v w && bool_eq s r && a == b && tys_eq ts us
  rust_ty_eq (tuple ts) (tuple us) = tys_eq ts us
  rust_ty_eq (adt m ts) (adt n us) = m == n && tys_eq ts us
  rust_ty_eq (closure m ts) (closure n us) = m == n && tys_eq ts us
  rust_ty_eq (coroutine m ts) (coroutine n us) = m == n && tys_eq ts us
  rust_ty_eq (coroutine_witness m ts) (coroutine_witness n us) = m == n && tys_eq ts us
  rust_ty_eq _ _ = false

  pub tys_eq : Tys → Tys → Bool
  tys_eq nil nil = true
  tys_eq (cons a ts) (cons b us) = rust_ty_eq a b && tys_eq ts us
  tys_eq _ _ = false

-- rustc_middle::mir::BinOp
pub data BinOp : Type 0 where
  add add_unchecked add_with_overflow sub sub_unchecked sub_with_overflow : BinOp
  mul mul_unchecked mul_with_overflow div rem bit_xor bit_and bit_or : BinOp
  shl shl_unchecked shr shr_unchecked eq lt le ne ge gt cmp offset : BinOp

-- rustc_abi: how a value of the type is represented.
pub data Integer : Type 0 where
  i8 i16 i32 i64 i128 : Integer

pub data Primitive : Type 0 where
  int_prim : Integer → Bool → Primitive
  float_prim : FloatTy → Primitive
  pointer_prim : Primitive

pub data BackendRepr : Type 0 where
  scalar : Primitive → BackendRepr
  scalar_pair : Primitive → Primitive → BackendRepr
  vector : Primitive → ℕ → BackendRepr
  memory uninhabited : BackendRepr

-- TyAndLayout: sizes, alignments and offsets are in bytes.
pub record Layout : Type 0 where
  pub ty : RustTy
  pub size : ℕ
  pub align : ℕ
  pub pref_align : ℕ
  pub backend_repr : BackendRepr
  pub offset : ℕ → ℕ

-- rustc_abi::Variants: one variant, or a tag in a field that tells the variants apart. The niche
-- encoding has the untagged variant, the first and the last niche variant, and the tag of the first.
pub data TagEncoding : Type 0 where
  direct : TagEncoding
  niche : ℕ → ℕ → ℕ → ℕ → TagEncoding

pub data Variants : Type 0 where
  single : ℕ → Variants
  multiple : Primitive → ℕ → TagEncoding → Variants

-- What the code asks of rustc: `TyCtxt`, the session and the target.
pub record Tcx : Type 0 where
  pub pointer_bits : ℕ
  pub pointer_align : ℕ
  pub is_sized : RustTy → Bool
  pub struct_tail : RustTy → RustTy
  pub layout_of : RustTy → Layout
  pub layout_field : Layout → ℕ → Layout
  pub prim_size : Primitive → ℕ
  pub prim_align : Primitive → ℕ
  pub ordering_enum : RustTy
  pub is_like_windows : Bool
  pub is_s390x : Bool
  pub saturating_float_casts : Option Bool
  -- `Type::by`: a vector type, where Cranelift has one of so many lanes.
  pub type_by : Ty → ℕ → Option Ty
  -- The variants of an enum.
  pub variants : Layout → Variants
  pub is_uninhabited : Layout → Bool
  pub variant_is_uninhabited : Layout → ℕ → Bool
  pub discriminant_for_variant : RustTy → ℕ → Option ℕ
  pub for_variant : Layout → ℕ → Layout
  pub field_count : Layout → ℕ
  -- `repr(packed)`, with its alignment.
  pub packed : RustTy → Option ℕ
  pub is_simd : RustTy → Bool
  pub simd_size_and_type : RustTy → ℕ × RustTy
  pub builtin_deref : RustTy → Option RustTy
  pub polymorphize : Bool
  -- The panic that does not unwind: its symbol, and whether compiler-builtins may not call it. The
  -- message for a type of unknown size.
  pub panic_nounwind_symbol : String
  pub is_upstream_call : Bool
  pub extern_type_message : RustTy → String
  -- The session: are overflows and undefined behaviour checked at run time?
  pub overflow_checks : Bool
  pub ub_checks : Bool
  pub new_box : RustTy → RustTy
  -- `pointee_info_at` the offset 0, the size.
  pub pointee_size : Layout → Option ℕ
  pub offset_of_subfield : Layout → List ℕ → ℕ
  pub caller_location_ty : RustTy
  -- Unsizing: the tails of two types that differ, the principal trait of a trait object, the slot of a
  -- supertrait's vtable, the allocation of a vtable, and the fields of the first variant.
  pub lockstep_tails : RustTy → RustTy → RustTy × RustTy
  pub principal : List ℕ → Option ℕ
  pub supertrait_vtable_slot : RustTy → RustTy → Option ℕ
  pub vtable_allocation : RustTy → Option ℕ → ℕ
  pub is_1zst : Layout → Bool
  pub first_variant_fields : RustTy → ℕ
