-- ===== src/Examples/Limiter.antt =====
-- The theorems on the concurrency limiter at concrete histories.
use rustc_codegen_cranelift.Common.{
  ℕ, ◌≡◌, refl, true, false, arith, Option, none, some, List, [], ◌∷◌, ◌≤◌, ◌+◌, length, max,
}
use rustc_codegen_cranelift.Codegen.{ok, panic}
use rustc_codegen_cranelift.ConcurrencyLimiter.State.{
  new, add_new_token, try_start_job, assert_done, poison, job_started, assert_invariants,
  drop_excess_capacity, truncated, job_finished, checked_pred,
}
use rustc_codegen_cranelift.ConcurrencyLimiter.System.{
  System, Event, token_fails, attempt, token_arrives, job_ends, init, run_event, Reach, start,
  then_event,
}
use rustc_codegen_cranelift.ConcurrencyLimiter.Safety.{
  limiter_never_panics, limiter_capacity, limiter_progress, limiter_finishes,
}
use rustc_codegen_cranelift.ConcurrencyLimiter.Poison.{
  After, here, then_attempt, then_token, then_end, poison_reports_once,
}

-- The limiter for three jobs, after one of them was admitted on the implicit token.
abbrev one_running : System ℕ
one_running = record {
  state = record {
    pending_jobs = 3;
    active_jobs = 1;
    poisoned = false;
    stored_error = none;
    tokens = none ∷ [];
  };
  to_start = 2;
  running = 1;
  requests = 0;
  raised = [];
}

one_running-Reach : Reach 3 one_running
unfolding init run_event new try_start_job assert_invariants job_started drop_excess_capacity
    truncated
one_running-Reach = then_event attempt start (omega arith) refl

limiter_never_panics_example : (z : System ℕ) × (run_event one_running (token_arrives 7) ≡ ok z)
limiter_never_panics_example =
    limiter_never_panics 3 one_running (token_arrives 7) one_running-Reach tt

limiter_capacity_example :
    ((rest : List (Option ℕ)) × (one_running.state.tokens ≡ none ∷ rest))
    × (one_running.running ≤ length one_running.state.tokens)
    × (length one_running.state.tokens ≤ one_running.running + 2)
    × (length one_running.state.tokens ≤ max (one_running.running + one_running.to_start) 1)
limiter_capacity_example = limiter_capacity 3 one_running one_running-Reach

limiter_progress_example :
    (z : System ℕ) × (run_event (init 3) attempt ≡ ok z)
    × (z.running ≡ 0 + 1)
    × (z.to_start + 1 ≡ 3)
unfolding init new
limiter_progress_example = limiter_progress 3 (init 3) start (omega arith) refl refl

-- One job, started and ended.
abbrev one_done : System ℕ
one_done = record {
  state = record {
    pending_jobs = 0;
    active_jobs = 0;
    poisoned = false;
    stored_error = none;
    tokens = none ∷ [];
  };
  to_start = 0;
  running = 0;
  requests = 0;
  raised = [];
}

one_done-Reach : Reach 1 one_done
unfolding init run_event new try_start_job assert_invariants job_started drop_excess_capacity
    truncated job_finished checked_pred
one_done-Reach =
    then_event job_ends (then_event attempt start (omega arith) refl) (omega arith) refl

limiter_finishes_example : assert_done one_done.state ≡ ok one_done.state
limiter_finishes_example = limiter_finishes 1 one_done one_done-Reach refl refl

-- A token arrives and a job ends between the two attempts that fail.
abbrev broken : System ℕ
broken = elim (run_event one_running (token_fails "no jobserver")) [
  | ok y ↦ y
  | panic ↦ one_running
]

abbrev after_event : System ℕ → Event ℕ → System ℕ
after_event y e = elim (run_event y e) [ ok z ↦ z | panic ↦ y ]

abbrev told_twice : System ℕ
told_twice =
    after_event (after_event (after_event (after_event broken attempt) (token_arrives 7)) job_ends)
      attempt

told_twice-After : After broken 2 told_twice
unfolding run_event try_start_job poison assert_invariants add_new_token drop_excess_capacity
    truncated job_finished checked_pred
told_twice-After = then_attempt (then_end (then_token 7 (then_attempt here refl) refl) refl) refl

poison_reports_once_example :
    (told_twice.state.poisoned ≡ true)
    × (told_twice.to_start ≡ one_running.to_start)
    × (told_twice.raised ≡ none ∷ some "no jobserver" ∷ one_running.raised)
unfolding run_event
poison_reports_once_example =
    poison_reports_once one_running broken told_twice "no jobserver" 2 refl told_twice-After
