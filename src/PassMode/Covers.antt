-- ===== src/PassMode/Covers.antt =====
-- src/abi/pass_mode.rs, `cast_target_to_abi_params`: the parameters cover the bytes of the argument.
use rustc_codegen_cranelift.Common.{
  ℕ, zero, suc, ◌+◌, ◌*◌, ◌/◌, ◌%◌, ◌^◌, ◌≤◌, ◌<◌, ◌≡◌, refl, ◌⊎◌, inl, inr, some, List, [], ◌∷◌,
  ◌++◌, arith, ◌==◌, if◌then◌else◌,
}
use native.Mathlib.Nat.{mod-lt, div-add-mod}
use native.Mathlib.Decide.{dec_lt}
use rustc_codegen_cranelift.Clif.{
  ty_bytes, Ty, i8, i16, i32, i64, i128, f32, f64, ty_bits, AbiParam, abi_param,
}
use rustc_codegen_cranelift.Codegen.{Tcx, Result, ok}
use rustc_codegen_cranelift.PassMode.Params.{
  Reg, RegKind, integer, float, vector_reg, CastTarget, flatten, each, replicate, integer_reg,
  float_reg, vector_reg_type, reg_type, reg_to_abi_param, rest_count, rem_bytes, final_integer,
  cast_target_to_abi_params,
}
use rustc_codegen_cranelift.PassMode.Values.{param_bytes}

unfoldable pub reg_bytes : List Reg → ℕ
reg_bytes [] = 0
reg_bytes (r ∷ rs) = r.size + reg_bytes rs

param_bytes-append :
    (ps qs : List AbiParam) → param_bytes (ps ++ qs) ≡ param_bytes ps + param_bytes qs
unfolding param_bytes
param_bytes-append [] qs = omega arith
param_bytes-append (p ∷ ps) qs = ground (arith, param_bytes-append ps qs)

reg_bytes-replicate : (n : ℕ) (r : Reg) → reg_bytes (replicate n r) ≡ n * r.size
unfolding reg_bytes replicate
reg_bytes-replicate zero r = omega arith
reg_bytes-replicate (suc n) r = ground (arith, reg_bytes-replicate n r)

each_step :
    (f : Reg → Result AbiParam) (r : Reg) (rs : List Reg) (p : AbiParam) (ps : List AbiParam)
    → f r ≡ ok p
    → each f rs ≡ ok ps
    → each f (r ∷ rs) ≡ ok (p ∷ ps)
unfolding each
each_step f r rs p ps e e' = ground arith

integer_reg-covers : (n : ℕ) → 1 ≤ n → n ≤ 16 → (t : Ty) × (integer_reg n ≡ ok t) × (n ≤ ty_bytes t)
unfolding integer_reg ty_bytes ty_bits
integer_reg-covers n h k = elim (dec_lt n 2) [
  | yes a ↦ (i8, ground arith, omega arith)
  | no a ↦ elim (dec_lt n 3) [
    | yes b ↦ (i16, ground arith, omega arith)
    | no b ↦ elim (dec_lt n 5) [
      | yes d ↦ (i32, ground arith, omega arith)
      | no d ↦ elim (dec_lt n 9) [
        | yes e ↦ (i64, ground arith, omega arith)
        | no e ↦ (i128, ground arith, omega arith)
      ]
    ]
  ]
]

combine :
    (heads hs us fs total size : ℕ)
    → heads ≤ hs
    → total / size * size ≤ us
    → total % size ≤ fs
    → heads + total ≤ hs + us + fs
combine heads hs us fs total size b b' b'' = omega (arith, div-add-mod total size)

module _ (tcx : Tcx) where
  -- The registers that Cranelift has a type for.
  unfoldable pub SupportedSize : RegKind → ℕ → Type 0
  SupportedSize integer n = (1 ≤ n) × (n ≤ 16)
  SupportedSize float n = (n ≡ 4) ⊎ (n ≡ 8)
  SupportedSize vector_reg n =
      (n < 2 ^ 32) × ((t : Ty) × (tcx.type_by i8 n ≡ some t) × (ty_bits t ≡ 8 * n))

  abbrev pub Supported : Reg → Type 0
  Supported r = SupportedSize r.kind r.size

  unfoldable pub AllSupported : List Reg → Type 0
  AllSupported [] = Unit
  AllSupported (r ∷ rs) = Supported r × AllSupported rs

  reg_type-covers :
      (k : RegKind) (n : ℕ)
      → SupportedSize k n
      → (t : Ty) × (reg_type tcx k n ≡ ok t) × (n ≤ ty_bytes t)
  unfolding SupportedSize reg_type float_reg vector_reg_type ty_bytes ty_bits
  reg_type-covers integer n h = integer_reg-covers n h.0 h.1
  reg_type-covers float n (inl e) = (f32, ground arith, omega arith)
  reg_type-covers float n (inr e) = (f64, ground arith, omega arith)
  reg_type-covers vector_reg n (small, (t, e, b)) = (t, ground arith, ground arith)

  reg-covers :
      (r : Reg)
      → Supported r
      → (p : AbiParam) × (reg_to_abi_param tcx r ≡ ok p) × (r.size ≤ ty_bytes p.value_type)
  unfolding reg_to_abi_param
  reg-covers r h = let (t, e, b) = reg_type-covers r.kind r.size h in (abi_param t, rw e refl, b)

  each-covers :
      (rs : List Reg)
      → AllSupported rs
      → (ps : List AbiParam) × (each (reg_to_abi_param tcx) rs ≡ ok ps)
        × (reg_bytes rs ≤ param_bytes ps)
  unfolding each AllSupported reg_bytes param_bytes
  each-covers [] h = ([], refl, omega arith)
  each-covers (r ∷ rs) (h, hs) =
      let (p, e, b) = reg-covers r h in
      let (ps, e', b') = each-covers rs hs in
      (p ∷ ps, each_step (reg_to_abi_param tcx) r rs p ps e e', omega (arith, b, b'))

  replicate-AllSupported : (n : ℕ) (r : Reg) → Supported r → AllSupported (replicate n r)
  unfolding replicate AllSupported
  replicate-AllSupported zero r h = tt
  replicate-AllSupported (suc n) r h = (h, replicate-AllSupported n r h)

  -- The bytes after the last whole unit.
  final-covers :
      (k : RegKind) (size n : ℕ)
      → SupportedSize k size
      → n < size
      → (n ≡ 0) ⊎ (k ≡ integer)
      → (ps : List AbiParam) × ((if n == 0 then ok [] else final_integer tcx k n) ≡ ok ps)
        × (n ≤ param_bytes ps)
  unfolding final_integer SupportedSize param_bytes reg_to_abi_param reg_type
  final-covers integer size n h l o = elim (dec_lt 0 n) [
    | no z ↦ ([], ground arith, omega arith)
    | yes p ↦
        let (t, e, b) = integer_reg-covers n p (omega arith) in
        (abi_param t ∷ [], ground (arith, e), omega (arith, b))
  ]
  final-covers float size n h l (inl e) = ([], ground arith, omega arith)
  final-covers float size n h l (inr e) = absurd (ground arith)
  final-covers vector_reg size n h l (inl e) = ([], ground arith, omega arith)
  final-covers vector_reg size n h l (inr e) = absurd (ground arith)

  rest_count_lem :
      (target : CastTarget)
      → 0 < target.unit.size
      → rest_count tcx target ≡ target.total / target.unit.size
  unfolding rest_count
  rest_count_lem target h = ground arith

  rem_bytes_lem :
      (target : CastTarget)
      → 0 < target.unit.size
      → rem_bytes tcx target ≡ target.total % target.unit.size
  unfolding rem_bytes
  rem_bytes_lem target h = ground arith

  -- When Cranelift has a type for every register of the prefix and for the unit, which is not empty, and
  -- what is left after the whole units is nothing or the units are integers, the parameters exist, and
  -- they have at least the bytes of the prefix and of the rest.
  pub cast_target-covers :
      (target : CastTarget)
      → AllSupported (flatten target.prefix)
      → Supported target.unit
      → 0 < target.unit.size
      → (target.total % target.unit.size ≡ 0) ⊎ (target.unit.kind ≡ integer)
      → (ps : List AbiParam) × (cast_target_to_abi_params tcx target ≡ ok ps)
        × (reg_bytes (flatten target.prefix) + target.total ≤ param_bytes ps)
  unfolding cast_target_to_abi_params
  cast_target-covers target heads unit h split =
      let (hs, e, b) = each-covers (flatten target.prefix) heads in
      let count = target.total / target.unit.size in
      let (us, e', b') =
        each-covers (replicate count target.unit) (replicate-AllSupported count target.unit unit) in
      let (fs, e'', b'') =
        final-covers target.unit.kind target.unit.size (target.total % target.unit.size) unit
          (mod-lt target.total h) split in
      (
        hs ++ us ++ fs,
        rw (rest_count_lem target h, rem_bytes_lem target h, e, e', e'') refl,
        rw (param_bytes-append (hs ++ us) fs, param_bytes-append hs us)
            (combine (reg_bytes (flatten target.prefix)) (param_bytes hs) (param_bytes us)
              (param_bytes fs) target.total target.unit.size b
              (rw (← reg_bytes-replicate count target.unit) b') b''),
      )
