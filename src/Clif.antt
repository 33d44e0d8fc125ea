-- ===== src/Clif.antt =====
-- The part of Cranelift's instruction builder that src/ calls, as an interface: Cranelift is a
-- dependency and not part of this repository. A `Value` is an SSA value of the function that is
-- built, and an operation is the instruction that `fx.bcx.ins()` appends, read as the value that it
-- gives at run time. `Fx` stands for what changes: the stack slots and the memory.
pub mod Documented
pub mod Concrete
use rustc_codegen_cranelift.Common.{ℕ, ◌+◌, ◌*◌, ◌/◌, ◌==◌, ◌&&◌, Option, List, Bool, true, false}
use rustc_codegen_cranelift.Common.Int.{ℤ}
use Prim.Native.String.{String}

-- cranelift_codegen::ir::types; `by t n` is the vector of `n` lanes of `t`.
pub data Ty : Type 0 where
  i8 i16 i32 i64 i128 f32 f64 : Ty
  by : Ty → ℕ → Ty

unfoldable pub ty_bits : Ty → ℕ
ty_bits i8 = 8
ty_bits i16 = 16
ty_bits i32 = 32
ty_bits i64 = 64
ty_bits i128 = 128
ty_bits f32 = 32
ty_bits f64 = 64
ty_bits (by t n) = ty_bits t * n

-- `Type::bytes`
unfoldable pub ty_bytes : Ty → ℕ
unfolding ty_bits
ty_bytes t = (ty_bits t + 7) / 8

unfoldable pub is_int : Ty → Bool
is_int i8 = true
is_int i16 = true
is_int i32 = true
is_int i64 = true
is_int i128 = true
is_int _ = false

unfoldable pub is_float : Ty → Bool
is_float f32 = true
is_float f64 = true
is_float _ = false

unfoldable pub is_vector : Ty → Bool
is_vector (by _ _) = true
is_vector _ = false

-- `==` on types.
unfoldable pub ty_eq : Ty → Ty → Bool
ty_eq i8 i8 = true
ty_eq i16 i16 = true
ty_eq i32 i32 = true
ty_eq i64 i64 = true
ty_eq i128 i128 = true
ty_eq f32 f32 = true
ty_eq f64 f64 = true
ty_eq (by t m) (by u n) = m == n && ty_eq t u
ty_eq _ _ = false

pub data IntCc : Type 0 where
  equal not_equal : IntCc
  signed_less_than signed_greater_than_or_equal : IntCc
  signed_greater_than signed_less_than_or_equal : IntCc
  unsigned_less_than unsigned_greater_than_or_equal : IntCc
  unsigned_greater_than unsigned_less_than_or_equal : IntCc

pub data FloatCc : Type 0 where
  equal not_equal less_than less_than_or_equal greater_than greater_than_or_equal : FloatCc

-- Instructions with two operands of one type.
pub data Binary : Type 0 where
  iadd isub imul umulhi smulhi sdiv udiv srem urem : Binary
  band bor bxor ishl sshr ushr rotl rotr fadd fsub fmul fdiv : Binary

-- Instructions with an operand and an immediate.
pub data BinaryImm : Type 0 where
  iadd_imm imul_imm urem_imm irsub_imm sshr_imm : BinaryImm
  band_imm udiv_imm sdiv_imm : BinaryImm

-- Instructions with one operand.
pub data Unary : Type 0 where
  bnot fneg clz ctz popcnt bitrev bswap fabs floor ceil trunc nearest sqrt : Unary

-- Conversions to a type.
pub data Convert : Type 0 where
  uextend sextend ireduce fpromote fdemote : Convert
  fcvt_from_sint fcvt_from_uint fcvt_to_sint_sat fcvt_to_uint_sat bitcast : Convert

-- cranelift_codegen::ir::AbiParam
pub data ArgumentPurpose : Type 0 where
  normal struct_return : ArgumentPurpose
  struct_argument : ℕ → ArgumentPurpose

pub data ArgumentExtension : Type 0 where
  no_extension uext sext : ArgumentExtension

pub record AbiParam : Type 0 where
  pub value_type : Ty
  pub purpose : ArgumentPurpose
  pub extension : ArgumentExtension

abbrev pub abi_param : Ty → AbiParam
abi_param t = record { value_type = t; purpose = normal; extension = no_extension }

abbrev pub special_param : Ty → ArgumentPurpose → AbiParam
special_param t p = record { value_type = t; purpose = p; extension = no_extension }

pub record Clif : Type 1 where
  pub Value : Type 0
  pub value_type : Value → Ty
  pub iconst : Ty → ℤ → Value
  -- `f32const` and `f64const`, by the bits.
  pub fconst : Ty → ℕ → Value
  pub unary : Unary → Value → Value
  pub binary : Binary → Value → Value → Value
  pub binary_imm : BinaryImm → Value → ℤ → Value
  pub ineg : Value → Value
  pub icmp : IntCc → Value → Value → Value
  pub icmp_imm : IntCc → Value → ℤ → Value
  pub fcmp : FloatCc → Value → Value → Value
  pub select : Value → Value → Value → Value
  pub convert : Convert → Ty → Value → Value
  pub iconcat : Value → Value → Value
  pub isplit : Value → Value × Value
  -- Does `brif` take its first branch?
  pub is_nonzero : Value → Bool
  pub Fx : Type 0
  pub StackSlot : Type 0
  pub create_sized_stack_slot : ℕ → ℕ → Fx → StackSlot × Fx
  pub stack_addr : Ty → StackSlot → ℤ → Value
  pub load : Ty → Value → ℤ → Fx → Value
  pub store : Value → Value → ℤ → Fx → Fx
  pub stack_load : Ty → StackSlot → ℤ → Fx → Value
  pub stack_store : Value → StackSlot → ℤ → Fx → Fx
  -- The variables that become SSA values.
  pub use_var : ℕ → Fx → Value
  pub def_var : ℕ → Value → Fx → Fx
  -- A variable that is new, by the counter `next_ssa_var`.
  pub declare_var : Ty → Fx → ℕ × Fx
  -- `trap`: the program stops here, whatever follows. The code is that of `TrapCode::user`.
  pub trap : ℕ → Fx → Fx
  -- `declare_anonymous_data` and `define_data` of a string, and its address.
  pub anonymous_data : String → Fx → Value × Fx
  -- The address of an allocation that `data_id_for_alloc_id` names, and of a function that is imported.
  pub alloc_address : ℕ → Fx → Value × Fx
  pub func_addr : ℕ → Fx → Value × Fx
  -- The destination, the source or the byte, and the number of bytes.
  pub call_memset : Value → Value → Value → Fx → Fx
  pub call_memcpy : Value → Value → Value → Fx → Fx
  pub call_memmove : Value → Value → Value → Fx → Fx
  pub debugtrap : Fx → Fx
  pub fence : Fx → Fx
  pub emit_small_memory_copy : Value → Value → ℕ → ℕ → ℕ → Fx → Fx
  -- `Offset32::try_add_i64`
  pub try_add_i64 : ℤ → ℤ → Option ℤ
  pub call : String → List AbiParam → List AbiParam → List Value → Fx → List Value × Fx
