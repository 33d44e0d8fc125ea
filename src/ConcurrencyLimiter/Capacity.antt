-- ===== src/ConcurrencyLimiter/Capacity.antt =====
-- src/concurrency_limiter.rs: the invariant of the guarded state, and that every operation keeps it.
use rustc_codegen_cranelift.Common.{
  ℕ, suc, ◌+◌, ◌-◌, ◌≤◌, ◌<◌, ◌≡◌, refl, max, min, Bool, Option, none, some, List, [], ◌∷◌, ◌++◌,
  length, take, arith, length-take, length-append, le→leb, ap, zero,
}
use rustc_codegen_cranelift.Codegen.{ok}
use rustc_codegen_cranelift.ConcurrencyLimiter.State.{
  ConcurrencyLimiterState, new, ◌>>=◌, checked_pred, assert_invariants, truncated,
  drop_excess_capacity, add_new_token, job_started, job_finished,
}

-- The implicit token is there, no job runs without a token, no more jobs run than are pending, and
-- the tokens that are kept are at most two more than the running jobs and no more than the pending.
pub record Inv {Acquired : Type 0} (s : ConcurrencyLimiterState Acquired) : Type 0 where
  pub implicit : (rest : List (Option Acquired)) × (s.tokens ≡ none ∷ rest)
  pub active_le_pending : s.active_jobs ≤ s.pending_jobs
  pub active_le_tokens : s.active_jobs ≤ length s.tokens
  pub tokens_le_pending : length s.tokens ≤ max s.pending_jobs 1
  pub tokens_le_active : length s.tokens ≤ s.active_jobs + 2

pred_pos : (n : ℕ) → 0 < n → checked_pred n ≡ ok (n - 1)
unfolding checked_pred
pred_pos zero h = elim h [ ]
pred_pos (suc n) h = ground arith

module _ {Acquired : Type 0} where
  length-take_two :
      (n m : ℕ) (xs : List (Option Acquired))
      → length (take n (take m xs)) ≡ min n (min m (length xs))
  length-take_two n m xs = omega (arith, length-take n (take m xs), length-take m xs)

  -- What every operation establishes before it drops the excess tokens.
  pub record Ready (s : ConcurrencyLimiterState Acquired) : Type 0 where
    pub kept : (rest : List (Option Acquired)) × (s.tokens ≡ none ∷ rest)
    pub within_pending : s.active_jobs ≤ s.pending_jobs
    pub within_tokens : s.active_jobs ≤ length s.tokens

  take_head :
      (n : ℕ) (x : Option Acquired) (xs : List (Option Acquired))
      → 0 < n
      → take n (x ∷ xs) ≡ x ∷ take (n - 1) xs
  take_head zero x xs h = elim h [ ]
  take_head (suc n) x xs h = ap (λ k. x ∷ take k xs) (omega arith)

  implicit_stays :
      (n m : ℕ) (xs rest : List (Option Acquired))
      → xs ≡ none ∷ rest
      → take (max n 1) (take (max m 1) xs) ≡ none ∷ take (max n 1 - 1) (take (max m 1 - 1) rest)
  implicit_stays n m xs rest e =
      rw (e, take_head (max m 1) none rest (omega arith))
        (take_head (max n 1) none (take (max m 1 - 1) rest) (omega arith))

  truncated-Inv : (s : ConcurrencyLimiterState Acquired) → Ready s → Inv (truncated s)
  unfolding truncated
  truncated-Inv s r =
      let lengths = length-take_two (max (s.active_jobs + 2) 1) (max s.pending_jobs 1) s.tokens in
      record {
        implicit =
            (_, implicit_stays (s.active_jobs + 2) s.pending_jobs s.tokens r.kept.0 r.kept.1);
        active_le_pending = r.within_pending;
        active_le_tokens = omega (arith, lengths, r.within_pending, r.within_tokens);
        tokens_le_pending = omega (arith, lengths);
        tokens_le_active = omega (arith, lengths);
      }

  pub assert_holds :
      (s : ConcurrencyLimiterState Acquired)
      → s.active_jobs ≤ s.pending_jobs
      → s.active_jobs ≤ length s.tokens
      → assert_invariants s ≡ ok s
  unfolding assert_invariants
  assert_holds s p q = rw (le→leb _ _ p, le→leb _ _ q)

  drop-truncated :
      (s : ConcurrencyLimiterState Acquired) → Ready s → drop_excess_capacity s ≡ ok (truncated s)
  unfolding drop_excess_capacity
  drop-truncated s r =
      let v = truncated-Inv s r in
      rw (assert_holds s r.within_pending r.within_tokens, ◌>>=◌)
        (assert_holds (truncated s) v.active_le_pending v.active_le_tokens)

  pub new-Inv : (n : ℕ) → Inv (new {Acquired = Acquired} n)
  unfolding new
  new-Inv n = record {
    implicit = ([], refl);
    active_le_pending = omega arith;
    active_le_tokens = omega arith;
    tokens_le_pending = omega arith;
    tokens_le_active = omega arith;
  }

  -- The counters after an operation: the rest of the state is in the tokens.
  abbrev pub Counts : ConcurrencyLimiterState Acquired → ℕ → ℕ → Bool → Type 0
  Counts s pending active poisoned =
      (s.pending_jobs ≡ pending) × (s.active_jobs ≡ active) × (s.poisoned ≡ poisoned)

  pub add_new_token-Inv :
      (s : ConcurrencyLimiterState Acquired) (t : Acquired)
      → Inv s
      → (s' : ConcurrencyLimiterState Acquired) × (add_new_token s t ≡ ok s')
        × Inv s'
        × Counts s' s.pending_jobs s.active_jobs s.poisoned
  unfolding add_new_token truncated
  add_new_token-Inv s t v =
      let grown = record s { tokens = s.tokens ++ some t ∷ [] } in
      let r : Ready grown = record {
        kept = (v.implicit.0 ++ some t ∷ [], ap (λ ts. ts ++ some t ∷ []) v.implicit.1);
        within_pending = v.active_le_pending;
        within_tokens = omega (arith, length-append s.tokens (some t ∷ []), v.active_le_tokens);
      } in
      (truncated grown, drop-truncated grown r, truncated-Inv grown r, (refl, refl, refl))

  pub job_started-Inv :
      (s : ConcurrencyLimiterState Acquired)
      → Inv s
      → s.active_jobs < length s.tokens
      → s.active_jobs < s.pending_jobs
      → (s' : ConcurrencyLimiterState Acquired) × (job_started s ≡ ok s')
        × Inv s'
        × Counts s' s.pending_jobs (s.active_jobs + 1) s.poisoned
  unfolding job_started truncated
  job_started-Inv s v free room =
      let more = record s { active_jobs = s.active_jobs + 1 } in
      let r : Ready more = record {
        kept = v.implicit;
        within_pending = omega arith;
        within_tokens = omega arith;
      } in
      let w = truncated-Inv more r in
      (
        truncated more,
        rw (assert_holds s v.active_le_pending v.active_le_tokens, ◌>>=◌, drop-truncated more r)
            (assert_holds (truncated more) w.active_le_pending w.active_le_tokens),
        w,
        (refl, refl, refl),
      )

  pub job_finished-Inv :
      (s : ConcurrencyLimiterState Acquired)
      → Inv s
      → 0 < s.active_jobs
      → (s' : ConcurrencyLimiterState Acquired) × (job_finished s ≡ ok s')
        × Inv s'
        × Counts s' (s.pending_jobs - 1) (s.active_jobs - 1) s.poisoned
  unfolding job_finished truncated
  job_finished-Inv s v busy =
      let fewer = record s { pending_jobs = s.pending_jobs - 1; active_jobs = s.active_jobs - 1 } in
      let r : Ready fewer = record {
        kept = v.implicit;
        within_pending = omega arith;
        within_tokens = omega arith;
      } in
      let w = truncated-Inv fewer r in
      (
        truncated fewer,
        rw
            (
              assert_holds s v.active_le_pending v.active_le_tokens,
              ◌>>=◌,
              pred_pos s.pending_jobs (omega arith),
              pred_pos s.active_jobs busy,
              assert_holds fewer r.within_pending r.within_tokens,
              drop-truncated fewer r,
            )
            (assert_holds (truncated fewer) w.active_le_pending w.active_le_tokens),
        w,
        (refl, refl, refl),
      )
