-- ===== src/Unsize/Layouts.antt =====
-- src/unsize.rs: the instructions of `size_and_align_of` against the formula for the layout of a type with a
-- last field of unknown size.
use Prim.Native.Nat.{bit_and}
use rustc_codegen_cranelift.Common.{
  ℕ, ◌+◌, ◌-◌, ◌*◌, ◌/◌, ◌%◌, ◌^◌, ◌<◌, ◌≤◌, ◌≡◌, sym, ◌∙◌, bit, min, max, true, ◌==◌, ltb,
  if◌then◌else◌, arith,
}
use native.Mathlib.Nat.{one-le-pow, div-add-mod}
use rustc_codegen_cranelift.Common.Int.{pos, negsuc}
use rustc_codegen_cranelift.Common.Word.{to_word, mod_below, mod_above}
use rustc_codegen_cranelift.Common.Bits.{bit_and-high}
use rustc_codegen_cranelift.Clif.{
  Ty, i8, i16, i32, i64, i128, ty_bits, is_int, Clif, IntCc, iadd, iadd_imm,
}
use rustc_codegen_cranelift.Clif.Documented.{modulus, int_cc, Documented}
use rustc_codegen_cranelift.Codegen.{Tcx}
use rustc_codegen_cranelift.FunctionCx.{as_i64}
use rustc_codegen_cranelift.ValueAndPlace.{align_to}
use rustc_codegen_cranelift.Unsize.{usize_const, select_min, select_max, round_up}

-- A number that fits the type is the bits of the constant.
pub const_word :
    (t : Ty) (n : ℕ)
    → is_int t ≡ true
    → ty_bits t ≤ 64
    → n < modulus t
    → to_word (modulus t) (as_i64 (pos n)) ≡ n
unfolding as_i64 modulus ty_bits is_int
const_word i8 n i w h = ground arith
const_word i16 n i w h = ground arith
const_word i32 n i w h = ground arith
const_word i64 n i w h = ground arith
const_word i128 n i w h = absurd (omega arith)
const_word _ n i w h = absurd (ground arith)

picked_max : (x y : ℕ) → (if bit (ltb y x) == 0 then y else x) ≡ max x y
picked_max x y = ground arith

picked_min : (x y : ℕ) → (if bit (ltb x y) == 0 then y else x) ≡ min x y
picked_min x y = ground arith

-- What the instructions of `round_up` compute, when nothing wraps.
rounded :
    (w k x : ℕ)
    → k ≤ w
    → x + 2 ^ k ≤ 2 ^ w
    → bit_and ((x + (2 ^ k + (2 ^ w - 1 - 0 % 2 ^ w)) % 2 ^ w) % 2 ^ w) ((2 ^ w - 2 ^ k) % 2 ^ w)
        % 2 ^ w
      ≡ (x + 2 ^ k - 1) / 2 ^ k * 2 ^ k
rounded w k x h room =
    let some_bit : 0 < 2 ^ k = one-le-pow k 2 (omega arith) in
    let none_left : 0 % 2 ^ w ≡ 0 = mod_below 0 (2 ^ w) (omega arith) in
    let less : (2 ^ k + (2 ^ w - 1 - 0)) % 2 ^ w ≡ 2 ^ k - 1 =
      mod_above (2 ^ k + (2 ^ w - 1 - 0)) (2 ^ w) (omega arith) (omega arith) ∙ omega arith in
    let sum : (x + (2 ^ k - 1)) % 2 ^ w ≡ x + 2 ^ k - 1 =
      mod_below (x + (2 ^ k - 1)) (2 ^ w) (omega arith) ∙ omega arith in
    let mask = mod_below (2 ^ w - 2 ^ k) (2 ^ w) (omega arith) in
    rw (none_left, less, sum, mask, bit_and-high w k (x + 2 ^ k - 1) h (omega arith))
      (mod_below ((x + 2 ^ k - 1) / 2 ^ k * 2 ^ k) (2 ^ w)
        (omega (arith, div-add-mod (x + 2 ^ k - 1) (2 ^ k))))

module _ (c : Clif) (d : Documented c) (tcx : Tcx) (pointer_type : Ty) where
  open c use {Value, value_type}
  open d use {bits}

  -- The value is the number, as an address.
  abbrev pub Means : Value → ℕ → Type 0
  Means v n = (bits v ≡ n) × (value_type v ≡ pointer_type)

module _ (c : Clif) (d : Documented c) (tcx : Tcx) (pointer_type : Ty)
    (int_pointer : is_int pointer_type ≡ true) (narrow : ty_bits pointer_type ≤ 64) where
  open c use {Value, Fx, value_type, load, icmp}
  open d use {bits}

  abbrev m : ℕ
  m = modulus pointer_type

  abbrev Is : Value → ℕ → Type 0
  Is v n = Means c d tcx pointer_type v n

  pub usize_const-Means : (n : ℕ) → n < m → Is (usize_const c tcx pointer_type n) n
  unfolding usize_const
  usize_const-Means n h = (
    rw (d.iconst_bits pointer_type (as_i64 (pos n)) int_pointer narrow)
        (const_word pointer_type n int_pointer narrow h),
    d.iconst_type pointer_type (as_i64 (pos n)),
  )

  pub select_max-Means :
      (a b : Value) (x y : ℕ) → Is a x → Is b y → Is (select_max c tcx pointer_type a b) (max x y)
  unfolding select_max int_cc
  select_max-Means a b x y (ea, ta) (eb, tb) = (
    rw
        (
          d.select_bits (icmp IntCc.unsigned_greater_than a b) a b (ta ∙ sym tb),
          d.icmp_bits IntCc.unsigned_greater_than a b,
          ea,
          eb,
        )
        (picked_max x y),
    d.select_type (icmp IntCc.unsigned_greater_than a b) a b ∙ ta,
  )

  pub select_min-Means :
      (a b : Value) (x y : ℕ) → Is a x → Is b y → Is (select_min c tcx pointer_type a b) (min x y)
  unfolding select_min int_cc
  select_min-Means a b x y (ea, ta) (eb, tb) = (
    rw
        (
          d.select_bits (icmp IntCc.unsigned_less_than a b) a b (ta ∙ sym tb),
          d.icmp_bits IntCc.unsigned_less_than a b,
          ea,
          eb,
        )
        (picked_min x y),
    d.select_type (icmp IntCc.unsigned_less_than a b) a b ∙ ta,
  )

  pub round_up-Means :
      (s a : Value) (x k : ℕ)
      → Is s x
      → Is a (2 ^ k)
      → k ≤ ty_bits pointer_type
      → x + 2 ^ k ≤ m
      → Is (round_up c tcx pointer_type s a) (align_to x (2 ^ k))
  unfolding round_up align_to modulus
  round_up-Means s a x k (es, ts) (ea, ta) h room = (
    (let addend = c.binary_imm iadd_imm a (negsuc 0) in
        rw
          (
            d.band_bits (c.binary iadd s addend) (c.ineg a),
            d.iadd_type s addend,
            d.iadd_bits s addend,
            d.iadd_imm_bits a (negsuc 0),
            d.ineg_bits a,
            ts,
            ta,
            es,
            ea,
          )
          (rounded (ty_bits pointer_type) k x h room)),
    d.band_type _ _ ∙ d.iadd_type _ _ ∙ ts,
  )
