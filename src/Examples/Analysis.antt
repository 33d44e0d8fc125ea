-- ===== src/Examples/Analysis.antt =====
-- The theorem on src/analyze.rs at a concrete body: the place behind the second of two locals is borrowed.
use rustc_codegen_cranelift.Common.{◌≡◌, refl, false, some, List, [], ◌∷◌, arith, get_elem?}
use rustc_codegen_cranelift.Analyze.{SsaKind, not_ssa, maybe_ssa, analyze}
use rustc_codegen_cranelift.Analyze.Taken.{body_takes, analyze-taken}
use rustc_codegen_cranelift.Body.Places.{deref}
use rustc_codegen_cranelift.Body.Syntax.{ref_to, assign, storage_live, goto, return, BasicBlockData}

-- _0 = &*_1
abbrev borrowing : List BasicBlockData
borrowing =
    record { statements = storage_live 1 ∷ []; terminator = goto 1; is_cleanup = false }
    ∷ record {
      statements =
          assign (record { base = 0; elems = [] })
            (ref_to (record { base = 1; elems = deref ∷ [] }))
          ∷ [];
      terminator = return;
      is_cleanup = false;
    }
    ∷ []

abbrev flags : List SsaKind
flags = maybe_ssa ∷ not_ssa ∷ []

analyze-taken_example : get_elem? flags 1 ≡ some not_ssa
unfolding analyze body_takes
analyze-taken_example = analyze-taken 2 1 borrowing flags refl (omega arith)
