-- ===== src/ConcurrencyLimiter/System.antt =====
-- src/concurrency_limiter.rs: the limiter among the threads that use it. A run is any order of the
-- events below, each of them under the mutex. An attempt to acquire is one round of the loop of
-- `acquire`: its first round, or the round after a wake-up, which may be spurious. The client holds a
-- `ConcurrencyLimiterToken` for every running job and asks for as many as it announced to `new`.
use Prim.Native.String.{String}
use rustc_codegen_cranelift.Common.{ℕ, ◌+◌, ◌-◌, ◌<◌, ◌≡◌, Option, List, [], ◌∷◌}
use rustc_codegen_cranelift.Codegen.{Result, ok}
use rustc_codegen_cranelift.ConcurrencyLimiter.State.{
  ConcurrencyLimiterState, Start, started, waits, failed, new, assert_invariants, add_new_token,
  try_start_job, job_finished, poison, ◌>>=◌,
}

pub record System (Acquired : Type 0) : Type 0 where
  pub state : ConcurrencyLimiterState Acquired
  -- Jobs that are still to be admitted, and jobs that run.
  pub to_start : ℕ
  pub running : ℕ
  -- Requests to the jobserver, and the fatal errors that were raised.
  pub requests : ℕ
  pub raised : List (Option String)

pub data Event (Acquired : Type 0) : Type 0 where
  attempt : Event Acquired
  token_arrives : Acquired → Event Acquired
  token_fails : String → Event Acquired
  job_ends : Event Acquired

module _ {Acquired : Type 0} where
  unfoldable pub init : ℕ → System Acquired
  init n = record { state = new n; to_start = n; running = 0; requests = 0; raised = [] }

  after_start : System Acquired → Start × ConcurrencyLimiterState Acquired → System Acquired
  after_start y (started, s) = record y {
    state = s;
    to_start = y.to_start - 1;
    running = y.running + 1;
  }
  after_start y (waits, s) = record y { state = s; requests = y.requests + 1 }
  after_start y (failed e, s) = record y { state = s; raised = e ∷ y.raised }

  -- One round of the loop of `acquire`.
  unfoldable pub acquire_round : System Acquired → Result (System Acquired)
  unfolding after_start
  acquire_round y = do s ← assert_invariants y.state; r ← try_start_job s; ok (after_start y r)

  unfoldable pub run_event : System Acquired → Event Acquired → Result (System Acquired)
  unfolding acquire_round
  run_event y attempt = acquire_round y
  run_event y (token_arrives t) = add_new_token y.state t >>= λ s. ok (record y { state = s })
  run_event y (token_fails e) = ok (record y { state = poison y.state e })
  run_event y job_ends =
      job_finished y.state >>= λ s. ok (record y { state = s; running = y.running - 1 })

  -- The events that the client can cause: an attempt needs a job to start, an end a running job.
  abbrev pub Enabled : System Acquired → Event Acquired → Type 0
  Enabled y attempt = 0 < y.to_start
  Enabled y (token_arrives t) = Unit
  Enabled y (token_fails e) = Unit
  Enabled y job_ends = 0 < y.running

  pub data Reach (n : ℕ) : System Acquired → Type 0 where
    start : Reach n (init n)
    then_event :
        {y z : System Acquired} (e : Event Acquired)
        → Reach n y
        → Enabled y e
        → run_event y e ≡ ok z
        → Reach n z
