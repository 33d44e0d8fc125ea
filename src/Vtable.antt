-- ===== src/Vtable.antt =====
-- src/vtable.rs: what a vtable holds before the methods, the drop function, the size and the alignment.
use rustc_codegen_cranelift.Common.{ℕ, ◌*◌, ◌^◌}
use rustc_codegen_cranelift.Common.Int.{ℤ, pos}
use rustc_codegen_cranelift.Common.Word.{signed, to_word}
use rustc_codegen_cranelift.Clif.{Ty, Clif}
use rustc_codegen_cranelift.Codegen.{Tcx, Cg, reads, uint, UintTy}

-- rustc_middle::ty, the places of the common entries.
abbrev pub vtable_drop_in_place : ℕ
vtable_drop_in_place = 0

abbrev pub vtable_size : ℕ
vtable_size = 1

abbrev pub vtable_align : ℕ
vtable_align = 2

-- `n as i32` of a `usize`.
unfoldable pub as_i32 : ℕ → ℤ
as_i32 n = signed (2 ^ 31) (to_word (2 ^ 32) (pos n))

module _ (c : Clif) (tcx : Tcx) (pointer_type : Ty) where
  open c use {Value, load}

  unfoldable pub entry_offset : ℕ → ℤ
  unfolding as_i32
  entry_offset idx = as_i32 (idx * (tcx.layout_of (uint UintTy.usize)).size)

  unfoldable pub drop_fn_of_obj : Value → Cg c Value
  unfolding entry_offset
  drop_fn_of_obj vtable = reads (load pointer_type vtable (entry_offset vtable_drop_in_place))

  unfoldable pub size_of_obj : Value → Cg c Value
  unfolding entry_offset
  size_of_obj vtable = reads (load pointer_type vtable (entry_offset vtable_size))

  unfoldable pub min_align_of_obj : Value → Cg c Value
  unfolding entry_offset
  min_align_of_obj vtable = reads (load pointer_type vtable (entry_offset vtable_align))
