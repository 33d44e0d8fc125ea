-- ===== src/Clif/Documented.antt =====
-- What Cranelift documents of the instructions, as laws over the bit pattern that a value has at run
-- time. `signed` is the two's complement reading, and an immediate is sign extended to the type.
use Prim.Native.Nat.{bit_and, bit_or, bit_xor}
use rustc_codegen_cranelift.Common.{
  ℕ, ◌+◌, ◌-◌, ◌*◌, ◌/◌, ◌%◌, ◌^◌, ◌<◌, ◌≤◌, ◌≡◌, ◌≢◌, refl, Bool, some, true, false, not, ◌||◌,
  ltb, leb, ◌==◌, bit, if◌then◌else◌, arith,
}
use rustc_codegen_cranelift.Common.Int.{ℤ, pos, ltb_ℤ, leb_ℤ, ◌*ℤ◌, ◌+ℤ◌, ◌≤ℤ◌}
use rustc_codegen_cranelift.Common.Word.{signed, to_word, high_word, out_of_range}
use rustc_codegen_cranelift.Clif.{
  Ty, i8, i16, i32, i64, i128, ty_bits, ty_bytes, is_int, IntCc, FloatCc, Convert, Clif, iadd, isub,
  imul, umulhi, smulhi, band, bor, bxor, uextend, sextend, ireduce, sshr_imm, iadd_imm, imul_imm,
  urem_imm, irsub_imm, udiv_imm, bnot, Unary, BinaryImm,
}

-- `2 ^ w` and `2 ^ (w - 1)` for a type of `w` bits.
unfoldable pub modulus : Ty → ℕ
unfolding ty_bits
modulus t = 2 ^ ty_bits t

unfoldable pub half : Ty → ℕ
unfolding ty_bits
half t = 2 ^ (ty_bits t - 1)

pub modulus-half : (t : Ty) → is_int t ≡ true → modulus t ≡ 2 * half t
unfolding modulus half is_int
modulus-half i8 h = refl
modulus-half i16 h = refl
modulus-half i32 h = refl
modulus-half i64 h = refl
modulus-half i128 h = refl
modulus-half _ h = absurd (ground arith)

-- The order that a condition code tests, on two words with `2 * h` values.
unfoldable pub int_cc : IntCc → ℕ → ℕ → ℕ → Bool
int_cc IntCc.equal h a b = a == b
int_cc IntCc.not_equal h a b = not (a == b)
int_cc IntCc.signed_less_than h a b = ltb_ℤ (signed h a) (signed h b)
int_cc IntCc.signed_greater_than_or_equal h a b = leb_ℤ (signed h b) (signed h a)
int_cc IntCc.signed_greater_than h a b = ltb_ℤ (signed h b) (signed h a)
int_cc IntCc.signed_less_than_or_equal h a b = leb_ℤ (signed h a) (signed h b)
int_cc IntCc.unsigned_less_than h a b = ltb a b
int_cc IntCc.unsigned_greater_than_or_equal h a b = leb b a
int_cc IntCc.unsigned_greater_than h a b = ltb b a
int_cc IntCc.unsigned_less_than_or_equal h a b = leb a b

-- Comparisons of floats: `less` and `same` are the order and the equality of IEEE 754, in which a
-- NaN is neither less than nor the same as anything, and "not equal" holds of a NaN.
unfoldable pub float_cc : {V : Type 0} → (V → V → Bool) → (V → V → Bool) → FloatCc → V → V → Bool
float_cc less same FloatCc.equal a b = same a b
float_cc less same FloatCc.not_equal a b = not (same a b)
float_cc less same FloatCc.less_than a b = less a b
float_cc less same FloatCc.less_than_or_equal a b = less a b || same a b
float_cc less same FloatCc.greater_than a b = less b a
float_cc less same FloatCc.greater_than_or_equal a b = less b a || same a b

module _ (c : Clif) where
  open c use {
    Value, value_type, iconst, is_nonzero, unary, binary, binary_imm, icmp, icmp_imm, fcmp, select,
    convert, iconcat, ineg, isplit, Fx, StackSlot, create_sized_stack_slot, stack_addr, try_add_i64,
    use_var, def_var, load, store, stack_load, stack_store,
  }

  pub record Documented : Type 0 where
    pub bits : Value → ℕ
    pub bits_lt : (v : Value) → bits v < modulus (value_type v)
    pub iconst_type : (t : Ty) (n : ℤ) → value_type (iconst t n) ≡ t
    -- A constant of at most 64 bits; there is no `iconst.i128`.
    pub iconst_bits :
        (t : Ty) (n : ℤ)
        → is_int t ≡ true
        → ty_bits t ≤ 64
        → bits (iconst t n) ≡ to_word (modulus t) n
    pub iadd_type : (a b : Value) → value_type (binary iadd a b) ≡ value_type a
    pub iadd_bits :
        (a b : Value) → bits (binary iadd a b) ≡ (bits a + bits b) % modulus (value_type a)
    pub isub_type : (a b : Value) → value_type (binary isub a b) ≡ value_type a
    pub isub_bits :
        (a b : Value)
        → bits (binary isub a b)
          ≡ (bits a + modulus (value_type a) - bits b) % modulus (value_type a)
    pub imul_type : (a b : Value) → value_type (binary imul a b) ≡ value_type a
    pub imul_bits :
        (a b : Value) → bits (binary imul a b) ≡ bits a * bits b % modulus (value_type a)
    pub umulhi_type : (a b : Value) → value_type (binary umulhi a b) ≡ value_type a
    pub umulhi_bits :
        (a b : Value)
        → bits (binary umulhi a b)
          ≡ bits a * bits b / modulus (value_type a) % modulus (value_type a)
    pub smulhi_type : (a b : Value) → value_type (binary smulhi a b) ≡ value_type a
    pub smulhi_bits :
        (a b : Value)
        → bits (binary smulhi a b)
          ≡ to_word (modulus (value_type a)) (
              high_word
                (modulus (value_type a))
                (signed (half (value_type a)) (bits a) *ℤ signed (half (value_type a)) (bits b)))
    pub ineg_type : (a : Value) → value_type (ineg a) ≡ value_type a
    pub ineg_bits :
        (a : Value) → bits (ineg a) ≡ (modulus (value_type a) - bits a) % modulus (value_type a)
    pub band_type : (a b : Value) → value_type (binary band a b) ≡ value_type a
    pub band_bits :
        (a b : Value) → bits (binary band a b) ≡ bit_and (bits a) (bits b) % modulus (value_type a)
    pub bor_type : (a b : Value) → value_type (binary bor a b) ≡ value_type a
    pub bor_bits :
        (a b : Value) → bits (binary bor a b) ≡ bit_or (bits a) (bits b) % modulus (value_type a)
    pub bxor_type : (a b : Value) → value_type (binary bxor a b) ≡ value_type a
    pub bxor_bits :
        (a b : Value) → bits (binary bxor a b) ≡ bit_xor (bits a) (bits b) % modulus (value_type a)
    -- The sign of the operand in every bit, for a shift by all bits but one.
    pub sshr_imm_bits :
        (a : Value)
        → bits (binary_imm sshr_imm a (pos (ty_bits (value_type a) - 1)))
          ≡ (if ltb (bits a) (half (value_type a)) then 0 else modulus (value_type a) - 1)
    pub imm_type :
        (o : BinaryImm) (a : Value) (n : ℤ) → value_type (binary_imm o a n) ≡ value_type a
    pub iadd_imm_bits :
        (a : Value) (n : ℤ)
        → bits (binary_imm iadd_imm a n)
          ≡ (bits a + to_word (modulus (value_type a)) n) % modulus (value_type a)
    pub imul_imm_bits :
        (a : Value) (n : ℤ)
        → bits (binary_imm imul_imm a n)
          ≡ bits a * to_word (modulus (value_type a)) n % modulus (value_type a)
    -- A remainder by zero traps.
    pub urem_imm_bits :
        (a : Value) (n : ℕ)
        → 0 < n
        → n < modulus (value_type a)
        → bits (binary_imm urem_imm a (pos n)) ≡ bits a % n
    -- The immediate less the operand.
    pub irsub_imm_bits :
        (a : Value) (n : ℤ)
        → bits (binary_imm irsub_imm a n)
          ≡ (to_word (modulus (value_type a)) n + modulus (value_type a) - bits a)
            % modulus (value_type a)
    -- A division by zero traps.
    pub udiv_imm_bits :
        (a : Value) (n : ℕ) → 0 < n → bits (binary_imm udiv_imm a (pos n)) ≡ bits a / n
    pub is_nonzero_bits : (v : Value) → is_nonzero v ≡ not (bits v == 0)
    pub unary_type : (o : Unary) (a : Value) → value_type (unary o a) ≡ value_type a
    pub bnot_bits : (a : Value) → bits (unary bnot a) ≡ modulus (value_type a) - 1 - bits a
    pub icmp_type : (cc : IntCc) (a b : Value) → value_type (icmp cc a b) ≡ i8
    pub icmp_bits :
        (cc : IntCc) (a b : Value)
        → bits (icmp cc a b) ≡ bit (int_cc cc (half (value_type a)) (bits a) (bits b))
    pub icmp_imm_type : (cc : IntCc) (a : Value) (n : ℤ) → value_type (icmp_imm cc a n) ≡ i8
    pub icmp_imm_bits :
        (cc : IntCc) (a : Value) (n : ℤ)
        → bits (icmp_imm cc a n)
          ≡ bit (int_cc cc (half (value_type a)) (bits a) (to_word (modulus (value_type a)) n))
    -- The condition of a select is any non-zero value.
    pub select_type : (s a b : Value) → value_type (select s a b) ≡ value_type a
    pub select_bits :
        (s a b : Value)
        → value_type a ≡ value_type b
        → bits (select s a b) ≡ (if bits s == 0 then bits b else bits a)
    pub convert_type : (o : Convert) (t : Ty) (a : Value) → value_type (convert o t a) ≡ t
    pub uextend_bits :
        (t : Ty) (a : Value)
        → ty_bits (value_type a) ≤ ty_bits t
        → bits (convert uextend t a) ≡ bits a
    pub sextend_bits :
        (t : Ty) (a : Value)
        → ty_bits (value_type a) ≤ ty_bits t
        → bits (convert sextend t a) ≡ to_word (modulus t) (signed (half (value_type a)) (bits a))
    pub ireduce_bits : (t : Ty) (a : Value) → bits (convert ireduce t a) ≡ bits a % modulus t
    pub iconcat_type : (a b : Value) → value_type (iconcat a b) ≡ i128
    pub iconcat_bits : (a b : Value) → bits (iconcat a b) ≡ (bits a + bits b * 2 ^ 64) % 2 ^ 128
    pub isplit_types :
        (a : Value) → (value_type (isplit a).0 ≡ i64) × (value_type (isplit a).1 ≡ i64)
    pub isplit_bits :
        (a : Value)
        → (bits (isplit a).0 ≡ bits a % 2 ^ 64) × (bits (isplit a).1 ≡ bits a / 2 ^ 64 % 2 ^ 64)
    -- A stack slot lies at an address that is a multiple of `2 ^ align_shift`.
    pub slot_base : StackSlot → ℕ
    pub slot_aligned :
        (size shift : ℕ) (fx : Fx)
        → slot_base (create_sized_stack_slot size shift fx).0 % 2 ^ shift ≡ 0
    pub stack_addr_type : (t : Ty) (s : StackSlot) (n : ℤ) → value_type (stack_addr t s n) ≡ t
    pub stack_addr_bits :
        (t : Ty) (s : StackSlot) (n : ℤ)
        → bits (stack_addr t s n) ≡ (slot_base s + to_word (modulus t) n) % modulus t
    -- A variable has the value that was defined last, and memory the value that was stored last where
    -- nothing else was stored over it. Accesses with one base are told apart by their offsets.
    pub use_def : (n : ℕ) (v : Value) (fx : Fx) → use_var n (def_var n v fx) ≡ v
    pub use_def_other :
        (m n : ℕ) (v : Value) (fx : Fx) → m ≢ n → use_var m (def_var n v fx) ≡ use_var m fx
    pub load_type : (t : Ty) (a : Value) (n : ℤ) (fx : Fx) → value_type (load t a n fx) ≡ t
    pub load_store : (v a : Value) (n : ℤ) (fx : Fx) → load (value_type v) a n (store v a n fx) ≡ v
    pub load_store_apart :
        (t : Ty) (v a : Value) (n n' : ℤ) (fx : Fx)
        → 0 < ty_bytes t
        → n +ℤ pos (ty_bytes t) ≤ℤ n'
        → load t a n (store v a n' fx) ≡ load t a n fx
    pub stack_load_store :
        (v : Value) (s : StackSlot) (n : ℤ) (fx : Fx)
        → stack_load (value_type v) s n (stack_store v s n fx) ≡ v
    pub stack_load_store_apart :
        (t : Ty) (v : Value) (s : StackSlot) (n n' : ℤ) (fx : Fx)
        → 0 < ty_bytes t
        → n +ℤ pos (ty_bytes t) ≤ℤ n'
        → stack_load t s n (stack_store v s n' fx) ≡ stack_load t s n fx
    pub try_add_i64_fits :
        (a b : ℤ) → out_of_range (2 ^ 31) (a +ℤ b) ≡ false → try_add_i64 a b ≡ some (a +ℤ b)
    pub try_add_i64_sum : (a b r : ℤ) → try_add_i64 a b ≡ some r → r ≡ a +ℤ b
    -- IEEE 754: the order and the equality of floats hold between numbers only.
    pub less : Value → Value → Bool
    pub same : Value → Value → Bool
    pub less_ordered : (a b : Value) → less a b ≡ true → (same a a ≡ true) × (same b b ≡ true)
    pub same_ordered : (a b : Value) → same a b ≡ true → (same a a ≡ true) × (same b b ≡ true)
    pub fcmp_type : (cc : FloatCc) (a b : Value) → value_type (fcmp cc a b) ≡ i8
    pub fcmp_bits :
        (cc : FloatCc) (a b : Value) → bits (fcmp cc a b) ≡ bit (float_cc less same cc a b)

-- The words of an integer type, with the modulus as twice the half.
module _ (c : Clif) (d : Documented c) where
  open c use {Value, value_type}

  pub word_lt : (v : Value) → is_int (value_type v) ≡ true → d.bits v < 2 * half (value_type v)
  word_lt v i = rw (← modulus-half (value_type v) i) (d.bits_lt v)

  pub word_lt_of :
      (l r : Value)
      → is_int (value_type l) ≡ true
      → value_type l ≡ value_type r
      → d.bits r < 2 * half (value_type l)
  word_lt_of l r i same = rw (← modulus-half (value_type l) i, same) (d.bits_lt r)
