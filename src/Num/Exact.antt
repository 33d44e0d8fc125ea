-- ===== src/Num/Exact.antt =====
-- What src/num.rs is to compute: the operations on the integers that words stand for.
use rustc_codegen_cranelift.Common.{ℕ, Bool, true, false, not, if◌then◌else◌}
use rustc_codegen_cranelift.Common.Int.{ℤ, pos, negsuc, ltb_ℤ, leb_ℤ, eqb_ℤ, ◌+ℤ◌, ◌-ℤ◌, ◌*ℤ◌}
use rustc_codegen_cranelift.Common.Word.{signed}
use rustc_codegen_cranelift.Codegen.{BinOp}

-- The integer that a word stands for, with `h` half the number of words.
unfoldable pub reading : Bool → ℕ → ℕ → ℤ
reading true h a = signed h a
reading false h a = pos a

-- The exact result, with no wrapping.
unfoldable pub exact : BinOp → Bool → ℕ → ℕ → ℕ → ℤ
unfolding reading
exact BinOp.add s h a b = reading s h a +ℤ reading s h b
exact BinOp.sub s h a b = reading s h a -ℤ reading s h b
exact BinOp.mul s h a b = reading s h a *ℤ reading s h b
exact _ s h a b = pos 0

-- The order that an operator names.
unfoldable pub holds : BinOp → ℤ → ℤ → Bool
holds BinOp.eq x y = eqb_ℤ x y
holds BinOp.ne x y = not (eqb_ℤ x y)
holds BinOp.lt x y = ltb_ℤ x y
holds BinOp.le x y = leb_ℤ x y
holds BinOp.ge x y = leb_ℤ y x
holds BinOp.gt x y = ltb_ℤ y x
holds _ x y = false

unfoldable pub three_way : ℤ → ℤ → ℤ
three_way x y = if ltb_ℤ x y then negsuc 0 else if ltb_ℤ y x then pos 1 else pos 0
