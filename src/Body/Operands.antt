-- ===== src/Body/Operands.antt =====
-- src/base.rs, `codegen_operand`, with `codegen_constant_operand` and `codegen_const_value` of src/constant.rs. A constant of
-- MIR comes with its value, which rustc evaluates. The address of an allocation is `alloc_address` of the
-- interface; what is put on the worklist for it is in Constants.
use rustc_codegen_cranelift.Common.{ℕ, ◌^◌, ◌==◌, ltb, Option, none, some, List, if◌then◌else◌}
use rustc_codegen_cranelift.Common.Int.{pos}
use rustc_codegen_cranelift.Clif.{Ty, i8, i16, i32, i64, Clif, iadd_imm}
use rustc_codegen_cranelift.Codegen.{
  Tcx, Cg, ok, pure, fail, lift, assert, ◌>>=◌, ◌>>◌, Layout, RustTy,
}
use rustc_codegen_cranelift.Types.{clif_type}
use rustc_codegen_cranelift.Pointer.{Pointer}
use rustc_codegen_cranelift.Pointer
use rustc_codegen_cranelift.FunctionCx.{as_i64, iconst_i128}
use rustc_codegen_cranelift.Discriminant.{truncate}
use rustc_codegen_cranelift.ValueAndPlace.{CValue}
use rustc_codegen_cranelift.ValueAndPlace
use rustc_codegen_cranelift.ValueAndPlace.Place.{CPlace, new_stack_slot, to_ptr, to_cvalue}
use rustc_codegen_cranelift.ValueAndPlace.Literals.{is_zst, zst, const_val}
use rustc_codegen_cranelift.Body.Places.{PlaceElem, codegen_place}

-- rustc_middle::mir::interpret::GlobalAlloc: memory with its length and alignment, a function, or
-- what has its data elsewhere, a vtable or a static.
pub data ConstAlloc : Type 0 where
  memory : ℕ → ℕ → ConstAlloc
  function elsewhere : ConstAlloc

-- rustc_middle::mir::ConstValue: the scalar of an integer has its size in bytes and its bits, that of a
-- pointer the allocation and the offset in it.
pub data ConstValue : Type 0 where
  zero_sized : ConstValue
  scalar_int : ℕ → ℕ → ConstValue
  scalar_ptr : ℕ → ConstAlloc → ℕ → ConstValue
  indirect : ℕ → ℕ → ConstValue
  slice : ℕ → ℕ → ConstValue

pub data Operand : Type 0 where
  move copy : ℕ → List PlaceElem → Operand
  constant : ConstValue → RustTy → Operand

module _ (c : Clif) (tcx : Tcx) (pointer_type : Ty) where
  open c use {Value, iconst, binary_imm, alloc_address, func_addr}

  unfoldable pub address_of : ℕ → Cg c Value
  address_of alloc_id fx = let (v, fx') = alloc_address alloc_id fx in ok (v, fx')

  function_address : ℕ → Cg c Value
  function_address instance_id fx = let (v, fx') = func_addr instance_id fx in ok (v, fx')

  pointer_for_allocation : ℕ → Cg c (Pointer c)
  unfolding address_of
  pointer_for_allocation alloc_id = address_of alloc_id >>= λ v. pure (Pointer.new c pointer_type v)

  -- An integer for a type that is no scalar of Cranelift's.
  raw_int : ℕ → ℕ → Cg c Value
  unfolding truncate as_i64 iconst_i128
  raw_int size n =
      let raw_val = truncate size n in
      if size == 1
      then pure (iconst i8 (as_i64 (pos raw_val)))
      else if size == 2
      then pure (iconst i16 (as_i64 (pos raw_val)))
      else if size == 4
      then pure (iconst i32 (as_i64 (pos raw_val)))
      else if size == 8
      then pure (iconst i64 (as_i64 (pos raw_val)))
      else if size == 16
      then pure (iconst_i128 c raw_val)
      else fail

  spilled_int : Layout → ℕ → ℕ → Cg c (CValue c)
  unfolding raw_int new_stack_slot to_ptr to_cvalue
  spilled_int layout size n = do
    v ← raw_int size n
    place ← new_stack_slot c tcx pointer_type layout
    ptr ← lift (to_ptr c tcx pointer_type place)
    Pointer.store_ptr c pointer_type ptr v
    to_cvalue c tcx pointer_type place

  int_const : Option Ty → Layout → ℕ → ℕ → Cg c (CValue c)
  unfolding const_val spilled_int
  int_const (some _) layout size n = const_val c tcx pointer_type layout size n
  int_const none layout size n = spilled_int layout size n

  base_of : ℕ → ConstAlloc → ℕ → Cg c Value
  unfolding address_of function_address as_i64
  base_of alloc_id (memory len align) offset =
      if len == 0
      then (assert (offset == 0) >> pure (iconst pointer_type (as_i64 (pos align))))
      else address_of alloc_id
  base_of alloc_id function offset = function_address alloc_id
  base_of alloc_id elsewhere offset = address_of alloc_id

  value_of_const : ConstValue → Layout → Cg c (CValue c)
  unfolding int_const clif_type base_of pointer_for_allocation as_i64
  value_of_const zero_sized layout = fail
  value_of_const (scalar_int size n) layout = do
    t ← lift (clif_type tcx layout.ty)
    int_const t layout size n
  value_of_const (scalar_ptr alloc_id alloc offset) layout = do
    base_addr ← base_of alloc_id alloc offset
    assert (ltb offset (2 ^ 63))
    let val = if offset == 0 then base_addr else binary_imm iadd_imm base_addr (pos offset)
    pure (ValueAndPlace.val c tcx pointer_type val layout)
  value_of_const (indirect alloc_id offset) layout = do
    ptr ← pointer_for_allocation alloc_id
    assert (ltb offset (2 ^ 63))
    q ← lift (Pointer.offset_i64 c pointer_type ptr (pos offset))
    pure (ValueAndPlace.at_ref c tcx pointer_type q layout)
  value_of_const (slice alloc_id meta) layout = do
    ptr ← pointer_for_allocation alloc_id
    let len = iconst pointer_type (as_i64 (pos meta))
    pure
        (ValueAndPlace.val_pair c tcx pointer_type (Pointer.get_addr c pointer_type ptr) len layout)

  unfoldable pub codegen_const_value : ConstValue → RustTy → Cg c (CValue c)
  unfolding value_of_const zst
  codegen_const_value const_value ty =
      let layout = tcx.layout_of ty in
      assert (tcx.is_sized ty)
      >> (if is_zst c tcx pointer_type layout
          then zst c tcx pointer_type layout
          else value_of_const const_value layout)

  module _ (depth : ℕ) (local_map : ℕ → Option (CPlace c)) where
    unfoldable pub codegen_operand : Operand → Cg c (CValue c)
    unfolding codegen_place to_cvalue codegen_const_value
    codegen_operand (move n elems) =
        codegen_place c tcx pointer_type depth local_map n elems >>= to_cvalue c tcx pointer_type
    codegen_operand (copy n elems) =
        codegen_place c tcx pointer_type depth local_map n elems >>= to_cvalue c tcx pointer_type
    codegen_operand (constant const_value ty) = codegen_const_value const_value ty
