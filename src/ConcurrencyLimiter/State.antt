-- ===== src/ConcurrencyLimiter/State.antt =====
-- src/concurrency_limiter.rs, `mod state`: the state that the mutex guards. `Acquired` is a token of
-- the jobserver; `none` among the tokens is the implicit token of the process. `panic` is a failed
-- assertion, or a counter of type `usize` below zero.
use Prim.Native.String.{String}
use rustc_codegen_cranelift.Common.{
  ℕ, ◌+◌, ◌-◌, ◌==◌, ◌&&◌, max, Bool, true, false, Option, none, some, List, [], ◌∷◌, ◌++◌, ltb,
  leb, if◌then◌else◌, length, take,
}
use rustc_codegen_cranelift.Codegen.{Result, ok, panic}

pub record ConcurrencyLimiterState (Acquired : Type 0) : Type 0 where
  pub pending_jobs : ℕ
  pub active_jobs : ℕ
  pub poisoned : Bool
  pub stored_error : Option String
  pub tokens : List (Option Acquired)

-- The result of `try_start_job`: `Ok(b)` or `Err(message)`.
pub data Start : Type 0 where
  started waits : Start
  failed : Option String → Start

infixl 5 ◌>>=◌
abbrev pub ◌>>=◌ : {A B : Type 0} → Result A → (A → Result B) → Result B
ok a >>= f = f a
panic >>= f = panic

abbrev max_extra_capacity : ℕ
max_extra_capacity = 2

-- `n -= 1` on a `usize`, with overflow checks.
unfoldable pub checked_pred : ℕ → Result ℕ
checked_pred n = if n == 0 then panic else ok (n - 1)

module _ {Acquired : Type 0} where
  unfoldable pub new : ℕ → ConcurrencyLimiterState Acquired
  new pending_jobs = record {
    pending_jobs = pending_jobs;
    active_jobs = 0;
    poisoned = false;
    stored_error = none;
    tokens = none ∷ [];
  }

  unfoldable pub assert_invariants :
      ConcurrencyLimiterState Acquired → Result (ConcurrencyLimiterState Acquired)
  assert_invariants s =
      if leb s.active_jobs s.pending_jobs && leb s.active_jobs (length s.tokens)
      then ok s
      else panic

  unfoldable pub assert_done :
      ConcurrencyLimiterState Acquired → Result (ConcurrencyLimiterState Acquired)
  assert_done s = if s.pending_jobs == 0 && s.active_jobs == 0 then ok s else panic

  unfoldable pub truncated : ConcurrencyLimiterState Acquired → ConcurrencyLimiterState Acquired
  truncated s = record s {
    tokens =
        take (max (s.active_jobs + max_extra_capacity) 1) (take (max s.pending_jobs 1) s.tokens);
  }

  unfoldable pub drop_excess_capacity :
      ConcurrencyLimiterState Acquired → Result (ConcurrencyLimiterState Acquired)
  drop_excess_capacity s = do s' ← assert_invariants s; assert_invariants (truncated s')

  unfoldable pub add_new_token :
      ConcurrencyLimiterState Acquired → Acquired → Result (ConcurrencyLimiterState Acquired)
  add_new_token s token = drop_excess_capacity (record s { tokens = s.tokens ++ some token ∷ [] })

  unfoldable pub job_started :
      ConcurrencyLimiterState Acquired → Result (ConcurrencyLimiterState Acquired)
  job_started s = do
    s' ← assert_invariants s
    s'' ← drop_excess_capacity (record s' { active_jobs = s'.active_jobs + 1 })
    assert_invariants s''

  unfoldable pub try_start_job :
      ConcurrencyLimiterState Acquired → Result (Start × ConcurrencyLimiterState Acquired)
  try_start_job s =
      if s.poisoned
      then ok (failed s.stored_error, record s { stored_error = none })
      else if ltb s.active_jobs (length s.tokens)
      then (job_started s >>= λ s'. ok (started, s'))
      else ok (waits, s)

  unfoldable pub job_finished :
      ConcurrencyLimiterState Acquired → Result (ConcurrencyLimiterState Acquired)
  job_finished s = do
    s' ← assert_invariants s
    pending ← checked_pred s'.pending_jobs
    active ← checked_pred s'.active_jobs
    s'' ← assert_invariants (record s' { pending_jobs = pending; active_jobs = active })
    s''' ← drop_excess_capacity s''
    assert_invariants s'''

  unfoldable pub poison :
      ConcurrencyLimiterState Acquired → String → ConcurrencyLimiterState Acquired
  poison s error = record s { poisoned = true; stored_error = some error }
