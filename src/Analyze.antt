-- ===== src/Analyze.antt =====
-- src/analyze.rs: which locals may be SSA values.
pub mod Taken
use rustc_codegen_cranelift.Common.{
  ℕ, Bool, true, false, ◌&&◌, ◌||◌, ltb, Option, none, some, List, [], ◌∷◌, if◌then◌else◌, set,
  replicate, length,
}
use rustc_codegen_cranelift.Codegen.{Result, ok, panic, Tcx, RustTy}
use rustc_codegen_cranelift.Types.{clif_type, clif_pair_type}
use rustc_codegen_cranelift.Body.Syntax.{ref_to, raw_ptr_to, Statement, assign, BasicBlockData}

pub data SsaKind : Type 0 where
  not_ssa maybe_ssa : SsaKind

is_maybe : SsaKind → Bool
is_maybe maybe_ssa = true
is_maybe not_ssa = false

is_some : {A : Type 0} → Result (Option A) → Result Bool
is_some panic = panic
is_some (ok none) = ok false
is_some (ok (some _)) = ok true

-- A value or a pair of values of Cranelift's types. The second question is asked when the first says no.
unfoldable pub is_ssa : Tcx → SsaKind → RustTy → Result Bool
unfolding is_maybe is_some clif_type clif_pair_type
is_ssa tcx kind ty =
    if is_maybe kind
    then elim (is_some (clif_type tcx ty)) [
      | panic ↦ panic
      | ok true ↦ ok true
      | ok false ↦ is_some (clif_pair_type tcx ty)
    ]
    else ok false

-- `flag_map[local] = NotSsa`
unfoldable pub flag : ℕ → List SsaKind → Result (List SsaKind)
flag local flags = if ltb local (length flags) then ok (set flags local not_ssa) else panic

unfoldable pub analyze_statement : Statement → List SsaKind → Result (List SsaKind)
unfolding flag
analyze_statement (assign to (ref_to place)) flags = flag place.base flags
analyze_statement (assign to (raw_ptr_to place)) flags = flag place.base flags
analyze_statement _ flags = ok flags

unfoldable pub analyze_block : List Statement → List SsaKind → Result (List SsaKind)
unfolding analyze_statement
analyze_block [] flags = ok flags
analyze_block (s ∷ ss) flags = elim (analyze_statement s flags) [
  | panic ↦ panic
  | ok flags' ↦ analyze_block ss flags'
]

unfoldable pub analyze_blocks : List BasicBlockData → List SsaKind → Result (List SsaKind)
unfolding analyze_block
analyze_blocks [] flags = ok flags
analyze_blocks (b ∷ bs) flags = elim (analyze_block b.statements flags) [
  | panic ↦ panic
  | ok flags' ↦ analyze_blocks bs flags'
]

-- The locals are counted by `local_count`.
unfoldable pub analyze : ℕ → List BasicBlockData → Result (List SsaKind)
unfolding analyze_blocks
analyze local_count blocks = analyze_blocks blocks (replicate local_count maybe_ssa)
