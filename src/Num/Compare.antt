-- ===== src/Num/Compare.antt =====
-- src/num.rs, comparisons: the condition codes, and `<=>`.
use rustc_codegen_cranelift.Common.{Bool, true, false, Option, none, some}
use rustc_codegen_cranelift.Clif.{Ty, IntCc, Clif, isub}
use rustc_codegen_cranelift.Codegen.{Tcx, Cg, pure, unwrap, ◌>>=◌, bool, BinOp}
use rustc_codegen_cranelift.ValueAndPlace.{CValue}
use rustc_codegen_cranelift.ValueAndPlace

unfoldable pub bin_op_to_intcc : BinOp → Bool → Option IntCc
bin_op_to_intcc BinOp.eq signed = some IntCc.equal
bin_op_to_intcc BinOp.lt true = some IntCc.signed_less_than
bin_op_to_intcc BinOp.lt false = some IntCc.unsigned_less_than
bin_op_to_intcc BinOp.le true = some IntCc.signed_less_than_or_equal
bin_op_to_intcc BinOp.le false = some IntCc.unsigned_less_than_or_equal
bin_op_to_intcc BinOp.ne signed = some IntCc.not_equal
bin_op_to_intcc BinOp.ge true = some IntCc.signed_greater_than_or_equal
bin_op_to_intcc BinOp.ge false = some IntCc.unsigned_greater_than_or_equal
bin_op_to_intcc BinOp.gt true = some IntCc.signed_greater_than
bin_op_to_intcc BinOp.gt false = some IntCc.unsigned_greater_than
bin_op_to_intcc _ _ = none

module _ (c : Clif) (tcx : Tcx) (pointer_type : Ty) where
  open c use {Value, binary, icmp}

  -- `(lhs > rhs) - (lhs < rhs)`
  unfoldable pub codegen_three_way_compare : Bool → Value → Value → Cg c (CValue c)
  unfolding bin_op_to_intcc
  codegen_three_way_compare signed lhs rhs = do
    gt_cc ← unwrap (bin_op_to_intcc BinOp.gt signed)
    lt_cc ← unwrap (bin_op_to_intcc BinOp.lt signed)
    pure (
        ValueAndPlace.val c tcx pointer_type (binary isub (icmp gt_cc lhs rhs) (icmp lt_cc lhs rhs))
          (tcx.layout_of tcx.ordering_enum))

  two_way_compare : BinOp → Bool → Value → Value → Cg c (CValue c)
  unfolding bin_op_to_intcc
  two_way_compare bin_op signed lhs rhs = do
    intcc ← unwrap (bin_op_to_intcc bin_op signed)
    pure (ValueAndPlace.val c tcx pointer_type (icmp intcc lhs rhs) (tcx.layout_of bool))

  unfoldable pub codegen_compare_bin_op : BinOp → Bool → Value → Value → Cg c (CValue c)
  unfolding codegen_three_way_compare two_way_compare
  codegen_compare_bin_op BinOp.cmp signed lhs rhs = codegen_three_way_compare signed lhs rhs
  codegen_compare_bin_op bin_op signed lhs rhs = two_way_compare bin_op signed lhs rhs
