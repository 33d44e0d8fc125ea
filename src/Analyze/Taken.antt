-- ===== src/Analyze/Taken.antt =====
-- src/analyze.rs: a local may be an SSA value exactly when no statement takes the address of a place that starts at it.
use rustc_codegen_cranelift.Common.{
  ℕ, zero, suc, ◌<◌, ◌≡◌, refl, ap, ◌∙◌, Bool, true, false, ◌||◌, ◌==◌, ltb, Option, some, none,
  List, [], ◌∷◌, if◌then◌else◌, arith, Bool-cases, inl, inr, set, replicate, length, get_elem?,
  get_elem?-set_other,
}
use rustc_codegen_cranelift.Codegen.{Result-cases, ok}
use rustc_codegen_cranelift.Analyze.{
  SsaKind, not_ssa, maybe_ssa, flag, analyze_statement, analyze_block, analyze_blocks, analyze,
}
use rustc_codegen_cranelift.Body.Syntax.{
  MirPlace, Rvalue, ref_to, raw_ptr_to, Statement, assign, BasicBlockData,
}

-- The place whose address a right-hand side takes, and that of a statement.
unfoldable pub borrowed : Rvalue → Option MirPlace
borrowed (ref_to place) = some place
borrowed (raw_ptr_to place) = some place
borrowed _ = none

unfoldable pub borrowed_by : Statement → Option MirPlace
unfolding borrowed
borrowed_by (assign to rvalue) = borrowed rvalue
borrowed_by _ = none

abbrev pub starts_at : ℕ → Option MirPlace → Bool
starts_at l none = false
starts_at l (some place) = place.base == l

-- Does the statement take the address of the local or, by projections, of a place that starts at it? Does one of a
-- block, or of the body?
unfoldable pub takes : ℕ → Statement → Bool
unfolding borrowed_by
takes l s = starts_at l (borrowed_by s)

unfoldable pub block_takes : ℕ → List Statement → Bool
unfolding takes
block_takes l [] = false
block_takes l (s ∷ ss) = takes l s || block_takes l ss

unfoldable pub body_takes : ℕ → List BasicBlockData → Bool
unfolding block_takes
body_takes l [] = false
body_takes l (b ∷ bs) = block_takes l b.statements || body_takes l bs

abbrev pub flagged : Bool → Option SsaKind → Option SsaKind
flagged taken before = if taken then some not_ssa else before

written :
    {A : Type 0} (xs : List A) (i : ℕ) (v : A) → i < length xs → get_elem? (set xs i v) i ≡ some v
written [] i v h = absurd (omega arith)
written (x ∷ xs) zero v h = refl
written (x ∷ xs) (suc i) v h = written xs i v (omega arith)

flag-flagged :
    (local l : ℕ) (flags flags' : List SsaKind)
    → flag local flags ≡ ok flags'
    → get_elem? flags' l ≡ flagged (local == l) (get_elem? flags l)
unfolding flag
flag-flagged local l flags flags' e = elim (Bool-cases (ltb local (length flags))) [
  | inr outside ↦ absurd (ground arith)
  | inl inside ↦
      let same : set flags local not_ssa ≡ flags' = ground arith in
      rw (← same) (elim (Bool-cases (local == l)) [
        | inl e ↦
            let here : local ≡ l = ground arith in
            rw (e, ← here) (written flags local not_ssa (ground arith))
        | inr e ↦ rw e (get_elem?-set_other flags local l not_ssa (ground arith))
      ])
]

statement-flagged :
    (l : ℕ) (s : Statement) (flags flags' : List SsaKind)
    → analyze_statement s flags ≡ ok flags'
    → get_elem? flags' l ≡ flagged (takes l s) (get_elem? flags l)
unfolding analyze_statement takes borrowed_by borrowed
statement-flagged l (assign to (ref_to place)) flags flags' e =
    flag-flagged place.base l flags flags' e
statement-flagged l (assign to (raw_ptr_to place)) flags flags' e =
    flag-flagged place.base l flags flags' e
statement-flagged l (assign to _) flags flags' e = let same : flags ≡ flags' = cc in rw same refl
statement-flagged l _ flags flags' e = let same : flags ≡ flags' = cc in rw same refl

twice : (a b : Bool) (x : Option SsaKind) → flagged b (flagged a x) ≡ flagged (a || b) x
twice true true x = refl
twice true false x = refl
twice false b x = refl

block-flagged :
    (l : ℕ) (ss : List Statement) (flags flags' : List SsaKind)
    → analyze_block ss flags ≡ ok flags'
    → get_elem? flags' l ≡ flagged (block_takes l ss) (get_elem? flags l)
unfolding analyze_block block_takes
block-flagged l [] flags flags' e = let same : flags ≡ flags' = cc in rw same refl
block-flagged l (s ∷ ss) flags flags' e = elim (Result-cases (analyze_statement s flags)) [
  | inl stop ↦ absurd (ground arith)
  | inr (mid, done) ↦
      block-flagged l ss mid flags' (rw (analyze_block, done) at e)
      ∙ ap (flagged (block_takes l ss)) (statement-flagged l s flags mid done)
      ∙ twice (takes l s) (block_takes l ss) (get_elem? flags l)
]

body-flagged :
    (l : ℕ) (bs : List BasicBlockData) (flags flags' : List SsaKind)
    → analyze_blocks bs flags ≡ ok flags'
    → get_elem? flags' l ≡ flagged (body_takes l bs) (get_elem? flags l)
unfolding analyze_blocks body_takes
body-flagged l [] flags flags' e = let same : flags ≡ flags' = cc in rw same refl
body-flagged l (b ∷ bs) flags flags' e = elim (Result-cases (analyze_block b.statements flags)) [
  | inl stop ↦ absurd (ground arith)
  | inr (mid, done) ↦
      body-flagged l bs mid flags' (rw (analyze_blocks, done) at e)
      ∙ ap (flagged (body_takes l bs)) (block-flagged l b.statements flags mid done)
      ∙ twice (block_takes l b.statements) (body_takes l bs) (get_elem? flags l)
]

get_elem?-replicate_in :
    {A : Type 0} (n i : ℕ) (a : A) → i < n → get_elem? (replicate n a) i ≡ some a
get_elem?-replicate_in zero i a h = absurd (omega arith)
get_elem?-replicate_in (suc n) zero a h = refl
get_elem?-replicate_in (suc n) (suc i) a h = get_elem?-replicate_in n i a (omega arith)

-- When `analyze` comes back, a local is flagged exactly when a statement borrows, or takes a raw pointer to, a place
-- that starts at it: the local itself or any projection of it, one behind a pointer in it included.
pub analyze-taken :
    (n l : ℕ) (blocks : List BasicBlockData) (flags : List SsaKind)
    → analyze n blocks ≡ ok flags
    → l < n
    → get_elem? flags l ≡ (if body_takes l blocks then some not_ssa else some maybe_ssa)
unfolding analyze
analyze-taken n l blocks flags e h =
    body-flagged l blocks (replicate n maybe_ssa) flags e
    ∙ ap (flagged (body_takes l blocks)) (get_elem?-replicate_in n l maybe_ssa h)
