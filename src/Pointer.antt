-- ===== src/Pointer.antt =====
-- src/pointer.rs: an address, a stack slot or nothing, with a constant offset of 32 bits.
pub mod Addresses
use rustc_codegen_cranelift.Common.{ℕ, ◌^◌, Option, none, some, if◌then◌else◌}
use rustc_codegen_cranelift.Common.Int.{ℤ, pos, ◌+ℤ◌, eqb_ℤ}
use rustc_codegen_cranelift.Common.Word.{out_of_range}
use rustc_codegen_cranelift.Clif.{Ty, Clif, iadd, iadd_imm}
use rustc_codegen_cranelift.Codegen.{Result, ok, panic, Cg, fail, reads, writes}

pub data PointerBase (c : Clif) : Type 0 where
  addr : c.Value → PointerBase c
  stack : c.StackSlot → PointerBase c
  dangling : ℕ → PointerBase c

pub record Pointer (c : Clif) : Type 0 where
  pub base : PointerBase c
  pub offset : ℤ

-- `i64::checked_add_i64`
abbrev pub checked_add_i64 : ℤ → ℤ → Option ℤ
checked_add_i64 a b = if out_of_range (2 ^ 63) (a +ℤ b) then none else some (a +ℤ b)

-- `pointer_type` is a field of `FunctionCx`.
module _ (c : Clif) (pointer_type : Ty) where
  open c use {
    Value, StackSlot, Fx, iconst, binary, binary_imm, stack_addr, load, store, stack_load,
    stack_store, try_add_i64,
  }

  unfoldable pub new : Value → Pointer c
  new a = record { base = addr a; offset = pos 0 }

  unfoldable pub stack_slot : StackSlot → Pointer c
  stack_slot s = record { base = stack s; offset = pos 0 }

  unfoldable pub dangling_at : ℕ → Pointer c
  dangling_at align = record { base = dangling align; offset = pos 0 }

  unfoldable pub base_addr : PointerBase c → Value
  base_addr (addr a) = a
  base_addr (stack s) = stack_addr pointer_type s (pos 0)
  base_addr (dangling align) = iconst pointer_type (pos align)

  addr_at : PointerBase c → ℤ → Value
  addr_at (addr a) offset = if eqb_ℤ offset (pos 0) then a else binary_imm iadd_imm a offset
  addr_at (stack s) offset = stack_addr pointer_type s offset
  addr_at (dangling align) offset = iconst pointer_type (pos align)

  unfoldable pub get_addr : Pointer c → Value
  unfolding addr_at
  get_addr p = addr_at p.base p.offset

  -- The slow path: the offset no longer fits 32 bits and is added to the base at run time.
  unfoldable pub rebase : Pointer c → Option ℤ → Result (Pointer c)
  unfolding base_addr
  rebase p (some offset) =
      ok (record { base = addr (binary_imm iadd_imm (base_addr p.base) offset); offset = pos 0 })
  rebase p none = panic

  unfoldable pub offset_i64 : Pointer c → ℤ → Result (Pointer c)
  unfolding rebase
  offset_i64 p extra = elim (try_add_i64 p.offset extra) [
    | some offset ↦ ok (record { base = p.base; offset = offset })
    | none ↦ rebase p (checked_add_i64 p.offset extra)
  ]

  value_at : PointerBase c → ℤ → Value → Pointer c
  value_at (addr a) offset extra = record { base = addr (binary iadd a extra); offset = offset }
  value_at (stack s) offset extra = record {
    base = addr (binary iadd (stack_addr pointer_type s offset) extra);
    offset = pos 0;
  }
  value_at (dangling align) offset extra = record {
    base = addr (binary iadd (iconst pointer_type (pos align)) extra);
    offset = offset;
  }

  unfoldable pub offset_value : Pointer c → Value → Pointer c
  unfolding value_at
  offset_value p extra = value_at p.base p.offset extra

  load_at : PointerBase c → ℤ → Ty → Cg c Value
  load_at (addr a) offset ty = reads (load ty a offset)
  load_at (stack s) offset ty = reads (stack_load ty s offset)
  load_at (dangling _) offset ty = fail

  unfoldable pub load_ptr : Pointer c → Ty → Cg c Value
  unfolding load_at
  load_ptr p ty = load_at p.base p.offset ty

  store_at : PointerBase c → ℤ → Value → Cg c (Unit {0})
  store_at (addr a) offset v = writes (store v a offset)
  store_at (stack s) offset v = writes (stack_store v s offset)
  store_at (dangling _) offset v = fail

  unfoldable pub store_ptr : Pointer c → Value → Cg c (Unit {0})
  unfolding store_at
  store_ptr p v = store_at p.base p.offset v
