-- ===== src/Clif/Concrete.antt =====
-- A machine that meets the documented laws: a value is a type with a bit pattern. It shows that the
-- laws can hold together, and the examples run on it.
use Prim.Native.Nat.{bit_and, bit_or, bit_xor}
use rustc_codegen_cranelift.Common.{
  ℕ, ◌+◌, ◌-◌, ◌*◌, ◌/◌, ◌%◌, ◌^◌, ◌<◌, ◌≤◌, ◌≡◌, refl, ap, Bool, true, false, not, ◌&&◌, ltb, ◌==◌,
  bit, if◌then◌else◌, arith, List, [], ◌∷◌, length, ◌≢◌, Bool-cases, inl, inr, some, none,
}
use rustc_codegen_cranelift.Common.Int.{ℤ, pos, negsuc, ◌*ℤ◌, ◌+ℤ◌, ◌≤ℤ◌, eqb_ℤ, pos_part}
use rustc_codegen_cranelift.Common.Word.{signed, out_of_range, to_word, high_word}
use rustc_codegen_cranelift.Clif.{
  Ty, i8, i64, i128, ty_bits, ty_bytes, ty_eq, Binary, BinaryImm, Unary, Convert, Clif,
}
use rustc_codegen_cranelift.Clif.Documented.{modulus, half, int_cc, float_cc, Documented}
use native.Mathlib.Nat.{
  mod-lt, mod-eq_of_lt, div-le_self, mod-mod, mul-mod_left, pow-le-pow_right, one-le-pow,
}

pub record Word : Type 0 where
  pub ty : Ty
  pub raw : ℕ

abbrev pub pattern_of : Word → ℕ
pattern_of v = v.raw % modulus v.ty

abbrev pub word : Ty → ℕ → Word
word t n = record { ty = t; raw = n }

unfoldable pub binary : Binary → Word → Word → Word
binary Binary.iadd a b = word a.ty (pattern_of a + pattern_of b)
binary Binary.isub a b = word a.ty (pattern_of a + modulus a.ty - pattern_of b)
binary Binary.imul a b = word a.ty (pattern_of a * pattern_of b)
binary Binary.umulhi a b = word a.ty (pattern_of a * pattern_of b / modulus a.ty)
binary Binary.smulhi a b = word a.ty (
    to_word (modulus a.ty) (
      high_word (modulus a.ty)
        (signed (half a.ty) (pattern_of a) *ℤ signed (half a.ty) (pattern_of b))))
binary Binary.band a b = word a.ty (bit_and (pattern_of a) (pattern_of b))
binary Binary.bor a b = word a.ty (bit_or (pattern_of a) (pattern_of b))
binary Binary.bxor a b = word a.ty (bit_xor (pattern_of a) (pattern_of b))
binary _ a b = a

unfoldable pub binary_imm : BinaryImm → Word → ℤ → Word
binary_imm BinaryImm.sshr_imm a n =
    word a.ty (if ltb (pattern_of a) (half a.ty) then 0 else modulus a.ty - 1)
binary_imm BinaryImm.iadd_imm a n = word a.ty (pattern_of a + to_word (modulus a.ty) n)
binary_imm BinaryImm.imul_imm a n = word a.ty (pattern_of a * to_word (modulus a.ty) n)
binary_imm BinaryImm.urem_imm a n = word a.ty (pattern_of a % pos_part n)
binary_imm BinaryImm.irsub_imm a n =
    word a.ty (to_word (modulus a.ty) n + modulus a.ty - pattern_of a)
binary_imm BinaryImm.udiv_imm a n = word a.ty (pattern_of a / pos_part n)
binary_imm _ a n = a

unfoldable pub unary : Unary → Word → Word
unary Unary.bnot a = word a.ty (modulus a.ty - 1 - pattern_of a)
unary _ a = a

unfoldable pub convert : Convert → Ty → Word → Word
convert Convert.sextend t a = word t (to_word (modulus t) (signed (half a.ty) (pattern_of a)))
convert _ t a = word t (pattern_of a)

-- Every bit pattern but the last of its type is a float here, in the order of the patterns, and the
-- last is the NaN.
abbrev pub is_number : Word → Bool
is_number v = ltb (pattern_of v + 1) (modulus v.ty)

abbrev pub below : Word → Word → Bool
below a b = is_number a && is_number b && ltb (pattern_of a) (pattern_of b)

abbrev pub alike : Word → Word → Bool
alike a b = is_number a && is_number b && (pattern_of a == pattern_of b)

abbrev pub fits_i32 : ℤ → Bool
fits_i32 z = not (out_of_range (2 ^ 31) z)

-- The state: the end of the frame, the variables, and the stores, the last one first.
pub record Frame : Type 0 where
  pub next : ℕ
  pub vars : List (ℕ × Word)
  pub stores : List (ℕ × ℤ × Word)
  pub slots : List (ℕ × ℤ × Word)

abbrev pub frame : ℕ → Frame
frame n = record { next = n; vars = []; stores = []; slots = [] }

pub find_var : ℕ → List (ℕ × Word) → Word
find_var n [] = word i8 0
find_var n ((m, v) ∷ vs) = if m == n then v else find_var n vs

-- The last store of the type at the very place.
pub find_store : Ty → ℕ → ℤ → List (ℕ × ℤ × Word) → Word
find_store t a n [] = word t 0
find_store t a n ((b, m, v) ∷ l) =
    if a == b && eqb_ℤ n m && ty_eq v.ty t then v else find_store t a n l

-- A slot is its address.
abbrev pub machine : Clif
machine = record {
  Value = Word;
  value_type = λ v. v.ty;
  iconst = λ t n. word t (to_word (modulus t) n);
  fconst = word;
  unary = unary;
  binary = binary;
  binary_imm = binary_imm;
  ineg = λ a. word a.ty (modulus a.ty - pattern_of a);
  icmp = λ cc a b. word i8 (bit (int_cc cc (half a.ty) (pattern_of a) (pattern_of b)));
  icmp_imm =
      λ cc a n. word i8 (bit (int_cc cc (half a.ty) (pattern_of a) (to_word (modulus a.ty) n)));
  fcmp = λ cc a b. word i8 (bit (float_cc below alike cc a b));
  select = λ s a b. if pattern_of s == 0 then word a.ty (pattern_of b) else a;
  convert = convert;
  iconcat = λ a b. word i128 (pattern_of a + pattern_of b * 2 ^ 64);
  isplit = λ a. (word i64 (pattern_of a), word i64 (pattern_of a / 2 ^ 64));
  is_nonzero = λ v. not (pattern_of v == 0);
  Fx = Frame;
  StackSlot = ℕ;
  create_sized_stack_slot =
      λ size shift fx. (fx.next * 2 ^ shift, record fx { next = fx.next * 2 ^ shift + size + 1 });
  stack_addr = λ t slot n. word t (slot + to_word (modulus t) n);
  load = λ t a n fx. word t (find_store t (pattern_of a) n fx.stores).raw;
  store = λ v a n fx. record fx { stores = (pattern_of a, n, v) ∷ fx.stores };
  stack_load = λ t slot n fx. find_store t slot n fx.slots;
  stack_store = λ v slot n fx. record fx { slots = (slot, n, v) ∷ fx.slots };
  use_var = λ n fx. find_var n fx.vars;
  def_var = λ n v fx. record fx { vars = (n, v) ∷ fx.vars };
  declare_var = λ t fx. (length fx.vars, record fx { vars = (length fx.vars, word t 0) ∷ fx.vars });
  trap = λ code fx. fx;
  anonymous_data = λ s fx. (word i64 0, fx);
  alloc_address = λ n fx. (word i64 n, fx);
  func_addr = λ n fx. (word i64 n, fx);
  call_memset = λ to byte n fx. fx;
  call_memcpy = λ to from n fx. fx;
  call_memmove = λ to from n fx. fx;
  debugtrap = λ fx. fx;
  fence = λ fx. fx;
  emit_small_memory_copy = λ to from size dst src fx. fx;
  try_add_i64 = λ a x. if fits_i32 (a +ℤ x) then some (a +ℤ x) else none;
  call = λ name params returns args fx. ([], fx);
}

pub modulus_pos : (t : Ty) → 0 < modulus t
unfolding modulus
modulus_pos t = one-le-pow (ty_bits t) 2 (omega arith)

pub pattern_lt : (v : Word) → pattern_of v < modulus v.ty
pattern_lt v = mod-lt v.raw (modulus_pos v.ty)

-- The value of a word below the modulus is the word itself.
to_word_lt : (t : Ty) (n : ℤ) → to_word (modulus t) n < modulus t
to_word_lt t (pos n) = mod-lt n (modulus_pos t)
to_word_lt t (negsuc n) = omega (arith, modulus_pos t)

pub to_word_word : (t : Ty) (n : ℤ) → to_word (modulus t) n % modulus t ≡ to_word (modulus t) n
to_word_word t n = mod-eq_of_lt (to_word_lt t n)

pub bit_word : (b : Bool) → bit b % modulus i8 ≡ bit b
unfolding modulus ty_bits
bit_word true = refl
bit_word false = refl

pub signs_word :
    (b : Bool) (t : Ty)
    → (if b then 0 else modulus t - 1) % modulus t ≡ (if b then 0 else modulus t - 1)
signs_word true t = mod-eq_of_lt (modulus_pos t)
signs_word false t = mod-eq_of_lt (omega (arith, modulus_pos t))

wider : (s t : Ty) → ty_bits s ≤ ty_bits t → modulus s ≤ modulus t
unfolding modulus
wider s t h = pow-le-pow_right (omega arith) h

pub extend_word :
    (t : Ty) (v : Word) → ty_bits v.ty ≤ ty_bits t → pattern_of v % modulus t ≡ pattern_of v
extend_word t v h = mod-eq_of_lt (omega (arith, pattern_lt v, wider v.ty t h))

pub select_word :
    (s a b : Word)
    → a.ty ≡ b.ty
    → pattern_of (if pattern_of s == 0 then word a.ty (pattern_of b) else a)
      ≡ (if pattern_of s == 0 then pattern_of b else pattern_of a)
select_word s a b same = elim (Bool-cases (pattern_of s == 0)) [
  | inl e ↦ rw e (rw same (mod-mod b.raw (modulus b.ty)))
  | inr e ↦ rw e
]

pub select_ty : (s : Bool) (a b : Word) → (if s then word a.ty (pattern_of b) else a).ty ≡ a.ty
select_ty true a b = refl
select_ty false a b = refl

pub convert_ty : (o : Convert) (t : Ty) (a : Word) → (convert o t a).ty ≡ t
unfolding convert
convert_ty Convert.sextend t a = refl
convert_ty _ t a = refl

pub split_bits :
    (a : Word)
    → (pattern_of (word i64 (pattern_of a)) ≡ pattern_of a % 2 ^ 64)
      × (pattern_of (word i64 (pattern_of a / 2 ^ 64)) ≡ pattern_of a / 2 ^ 64 % 2 ^ 64)
unfolding modulus ty_bits
split_bits a = (refl, refl)

pub below_ordered : (a b : Word) → below a b ≡ true → (alike a a ≡ true) × (alike b b ≡ true)
below_ordered a b h = ground arith

pub alike_ordered : (a b : Word) → alike a b ≡ true → (alike a a ≡ true) × (alike b b ≡ true)
alike_ordered a b h = ground arith

pub imm_ty : (o : BinaryImm) (a : Word) (n : ℤ) → (binary_imm o a n).ty ≡ a.ty
unfolding binary_imm
imm_ty BinaryImm.sshr_imm a n = refl
imm_ty BinaryImm.iadd_imm a n = refl
imm_ty _ a n = refl

pub unary_ty : (o : Unary) (a : Word) → (unary o a).ty ≡ a.ty
unfolding unary
unary_ty Unary.bnot a = refl
unary_ty _ a = refl

pub not_word :
    (a : Word) → (modulus a.ty - 1 - pattern_of a) % modulus a.ty ≡ modulus a.ty - 1 - pattern_of a
not_word a = mod-eq_of_lt (omega (arith, modulus_pos a.ty))

pub div_word : (a : Word) (n : ℕ) → 0 < n → pattern_of a / n % modulus a.ty ≡ pattern_of a / n
div_word a n h = mod-eq_of_lt (omega (arith, div-le_self (pattern_of a) n, pattern_lt a))

pub rem_word :
    (a : Word) (n : ℕ)
    → 0 < n
    → n < modulus a.ty
    → pattern_of a % n % modulus a.ty ≡ pattern_of a % n
rem_word a n h k = mod-eq_of_lt (omega (arith, mod-lt (pattern_of a) h))

pub offset_sum :
    (a b r : ℤ) → (if fits_i32 (a +ℤ b) then some (a +ℤ b) else none) ≡ some r → r ≡ a +ℤ b
offset_sum a b r h = ground arith

pub offset_fits :
    (a b : ℤ)
    → out_of_range (2 ^ 31) (a +ℤ b) ≡ false
    → (if fits_i32 (a +ℤ b) then some (a +ℤ b) else none) ≡ some (a +ℤ b)
offset_fits a b h = rw h

pub found_var : (n : ℕ) (v : Word) (vs : List (ℕ × Word)) → find_var n ((n, v) ∷ vs) ≡ v
unfolding find_var
found_var n v vs = ground arith

pub other_var :
    (m n : ℕ) (v : Word) (vs : List (ℕ × Word)) → m ≢ n → find_var m ((n, v) ∷ vs) ≡ find_var m vs
unfolding find_var
other_var m n v vs h = ground arith

ty_eq_refl : (t : Ty) → ty_eq t t ≡ true
unfolding ty_eq
ty_eq_refl Ty.i8 = refl
ty_eq_refl Ty.i16 = refl
ty_eq_refl Ty.i32 = refl
ty_eq_refl Ty.i64 = refl
ty_eq_refl Ty.i128 = refl
ty_eq_refl Ty.f32 = refl
ty_eq_refl Ty.f64 = refl
ty_eq_refl (Ty.by t n) = ground (arith, ty_eq_refl t)

pub found_store :
    (v : Word) (a : ℕ) (n : ℤ) (l : List (ℕ × ℤ × Word)) → find_store v.ty a n ((a, n, v) ∷ l) ≡ v
unfolding find_store
found_store v a n l = ground (arith, ty_eq_refl v.ty)

pub other_store :
    (t : Ty) (v : Word) (a : ℕ) (n n' : ℤ) (l : List (ℕ × ℤ × Word))
    → 0 < ty_bytes t
    → n +ℤ pos (ty_bytes t) ≤ℤ n'
    → find_store t a n ((a, n', v) ∷ l) ≡ find_store t a n l
unfolding find_store ◌+ℤ◌
other_store t v a n n' l h k = ground arith

unfoldable pub documented : Documented machine
unfolding modulus ty_bits unary binary binary_imm convert
documented = record {
  bits = pattern_of;
  bits_lt = pattern_lt;
  iconst_type = λ t n. refl;
  iconst_bits = λ t n h k. to_word_word t n;
  iadd_type = λ a b. refl;
  iadd_bits = λ a b. refl;
  isub_type = λ a b. refl;
  isub_bits = λ a b. refl;
  imul_type = λ a b. refl;
  imul_bits = λ a b. refl;
  umulhi_type = λ a b. refl;
  umulhi_bits = λ a b. refl;
  smulhi_type = λ a b. refl;
  smulhi_bits = λ a b. to_word_word a.ty _;
  ineg_type = λ a. refl;
  ineg_bits = λ a. refl;
  band_type = λ a b. refl;
  band_bits = λ a b. refl;
  bor_type = λ a b. refl;
  bor_bits = λ a b. refl;
  bxor_type = λ a b. refl;
  bxor_bits = λ a b. refl;
  sshr_imm_bits = λ a. signs_word (ltb (pattern_of a) (half a.ty)) a.ty;
  icmp_type = λ cc a b. refl;
  icmp_bits = λ cc a b. bit_word _;
  icmp_imm_type = λ cc a n. refl;
  icmp_imm_bits = λ cc a n. bit_word _;
  select_type = λ s a b. select_ty (pattern_of s == 0) a b;
  select_bits = select_word;
  convert_type = convert_ty;
  uextend_bits = extend_word;
  sextend_bits = λ t a h. to_word_word t _;
  ireduce_bits = λ t a. refl;
  iconcat_type = λ a b. refl;
  iconcat_bits = λ a b. refl;
  isplit_types = λ a. (refl, refl);
  isplit_bits = split_bits;
  imm_type = imm_ty;
  iadd_imm_bits = λ a n. refl;
  imul_imm_bits = λ a n. refl;
  urem_imm_bits = rem_word;
  irsub_imm_bits = λ a n. refl;
  udiv_imm_bits = λ a n h. div_word a n h;
  is_nonzero_bits = λ v. refl;
  unary_type = unary_ty;
  bnot_bits = not_word;
  slot_base = λ s. s;
  slot_aligned = λ size shift fx. mul-mod_left fx.next (2 ^ shift);
  stack_addr_type = λ t s n. refl;
  stack_addr_bits = λ t s n. refl;
  use_def = λ n v fx. found_var n v fx.vars;
  use_def_other = λ m n v fx h. other_var m n v fx.vars h;
  load_type = λ t a n fx. refl;
  load_store = λ v a n fx. ap (λ x. word v.ty x.raw) (found_store v (pattern_of a) n fx.stores);
  load_store_apart = λ t v a n n' fx h k.
      ap (λ x. word t x.raw) (other_store t v (pattern_of a) n n' fx.stores h k);
  stack_load_store = λ v s n fx. found_store v s n fx.slots;
  stack_load_store_apart = λ t v s n n' fx h k. other_store t v s n n' fx.slots h k;
  try_add_i64_fits = offset_fits;
  try_add_i64_sum = offset_sum;
  less = below;
  same = alike;
  less_ordered = below_ordered;
  same_ordered = alike_ordered;
  fcmp_type = λ cc a b. refl;
  fcmp_bits = λ cc a b. bit_word _;
}
