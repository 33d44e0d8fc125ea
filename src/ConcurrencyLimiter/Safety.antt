-- ===== src/ConcurrencyLimiter/Safety.antt =====
-- src/concurrency_limiter.rs: no order of events breaks an assertion, and the limiter never stops a
-- build that could go on.
use Prim.Native.String.{String}
use rustc_codegen_cranelift.Common.{
  ℕ, max, subst, ◌+◌, ◌-◌, ◌<◌, ◌≤◌, ◌≡◌, refl, ap, ◌∙◌, Bool, true, false, Bool-cases, inl, inr,
  Option, some, none, List, ◌∷◌, length, arith, lt→ltb, ltb→lt, ltb,
}
use rustc_codegen_cranelift.Codegen.{Result, ok}
use rustc_codegen_cranelift.ConcurrencyLimiter.State.{
  ConcurrencyLimiterState, new, assert_invariants, assert_done, try_start_job, poison, ◌>>=◌,
}
use rustc_codegen_cranelift.ConcurrencyLimiter.Capacity.{
  Inv, new-Inv, add_new_token-Inv, job_started-Inv, job_finished-Inv, assert_holds,
}
use rustc_codegen_cranelift.ConcurrencyLimiter.System.{
  System, Event, attempt, token_arrives, token_fails, job_ends, init, run_event, Enabled, Reach,
  start, then_event,
}

-- The counters of the limiter are the jobs of the client.
pub record IsSound {Acquired : Type 0} (y : System Acquired) : Type 0 where
  pub inv : Inv y.state
  pub active_running : y.state.active_jobs ≡ y.running
  pub pending_left : y.state.pending_jobs ≡ y.running + y.to_start

ok_unique : {A : Type 0} (r : Result A) (y z : A) → r ≡ ok y → r ≡ ok z → y ≡ z
ok_unique r y z p q = cc

module _ {Acquired : Type 0} where
  init-IsSound : (n : ℕ) → IsSound (init {Acquired = Acquired} n)
  unfolding init new
  init-IsSound n = record { inv = new-Inv n; active_running = refl; pending_left = omega arith }

  -- An enabled event ends without a panic and keeps the invariant.
  abbrev pub Succeeds : System Acquired → Event Acquired → Type 0
  Succeeds y e = (z : System Acquired) × (run_event y e ≡ ok z) × IsSound z

  -- The invariant does not speak of errors.
  Inv-error :
      (s : ConcurrencyLimiterState Acquired) (p : Bool) (e : Option String)
      → Inv s
      → Inv (record s { poisoned = p; stored_error = e })
  Inv-error s p e v = record {
    implicit = v.implicit;
    active_le_pending = v.active_le_pending;
    active_le_tokens = v.active_le_tokens;
    tokens_le_pending = v.tokens_le_pending;
    tokens_le_active = v.tokens_le_active;
  }

  module _ (y : System Acquired) (v : IsSound y) where
    checked : assert_invariants y.state ≡ ok y.state
    checked = assert_holds y.state v.inv.active_le_pending v.inv.active_le_tokens

    -- A round after the jobserver failed raises the stored error.
    round_poisoned : y.state.poisoned ≡ true → Succeeds y attempt
    unfolding run_event try_start_job
    round_poisoned p = (
      record y {
        state = record y.state { stored_error = none };
        raised = y.state.stored_error ∷ y.raised;
      },
      rw (checked, ◌>>=◌, p),
      record {
        inv = Inv-error y.state y.state.poisoned none v.inv;
        active_running = v.active_running;
        pending_left = v.pending_left;
      },
    )

    round_full :
        y.state.poisoned ≡ false
        → ltb y.state.active_jobs (length y.state.tokens) ≡ false
        → Succeeds y attempt
    unfolding run_event try_start_job
    round_full p full = (
      record y { requests = y.requests + 1 },
      rw (checked, ◌>>=◌, p, full),
      record { inv = v.inv; active_running = v.active_running; pending_left = v.pending_left },
    )

    round_free :
        0 < y.to_start
        → y.state.poisoned ≡ false
        → ltb y.state.active_jobs (length y.state.tokens) ≡ true
        → (z : System Acquired) × (run_event y attempt ≡ ok z)
          × IsSound z
          × (z.running ≡ y.running + 1)
          × (z.to_start + 1 ≡ y.to_start)
    unfolding run_event try_start_job
    round_free left p free =
        let (s', eq, v', (pending, active, _)) =
          job_started-Inv y.state v.inv (ltb→lt _ _ free)
            (omega (arith, v.active_running, v.pending_left)) in
        (
          record y { state = s'; to_start = y.to_start - 1; running = y.running + 1 },
          ground (arith, checked, eq),
          record {
            inv = v';
            active_running = active ∙ omega (arith, v.active_running);
            pending_left = pending ∙ omega (arith, v.pending_left);
          },
          refl,
          omega arith,
        )

    attempt_sound : 0 < y.to_start → Succeeds y attempt
    attempt_sound left = elim (Bool-cases y.state.poisoned) [
      | inl p ↦ round_poisoned p
      | inr p ↦ elim (Bool-cases (ltb y.state.active_jobs (length y.state.tokens))) [
        | inl free ↦ let (z, eq, w, _, _) = round_free left p free in (z, eq, w)
        | inr full ↦ round_full p full
      ]
    ]

    arrival_sound : (t : Acquired) → Succeeds y (token_arrives t)
    unfolding run_event
    arrival_sound t =
        let (s', eq, v', (pending, active, _)) = add_new_token-Inv y.state t v.inv in
        (
          record y { state = s' },
          rw (eq, ◌>>=◌),
          record {
            inv = v';
            active_running = active ∙ v.active_running;
            pending_left = pending ∙ v.pending_left;
          },
        )

    failure_sound : (e : String) → Succeeds y (token_fails e)
    unfolding run_event poison
    failure_sound e = (
      record y { state = poison y.state e },
      refl,
      record {
        inv = Inv-error y.state true (some e) v.inv;
        active_running = v.active_running;
        pending_left = v.pending_left;
      },
    )

    end_sound : 0 < y.running → Succeeds y job_ends
    unfolding run_event
    end_sound busy =
        let (s', eq, v', (pending, active, _)) =
          job_finished-Inv y.state v.inv (omega (arith, v.active_running)) in
        (
          record y { state = s'; running = y.running - 1 },
          rw (eq, ◌>>=◌),
          record {
            inv = v';
            active_running = active ∙ omega (arith, v.active_running);
            pending_left = pending ∙ omega (arith, v.pending_left);
          },
        )

    -- Every event that the client or the jobserver can cause runs without a failed assertion and
    -- without a counter below zero, and keeps the limiter's counters those of the client.
    pub run_event-IsSound : (e : Event Acquired) → Enabled y e → Succeeds y e
    run_event-IsSound attempt h = attempt_sound h
    run_event-IsSound (token_arrives t) h = arrival_sound t
    run_event-IsSound (token_fails e) h = failure_sound e
    run_event-IsSound job_ends h = end_sound h

    -- While no job runs, the next one is admitted at once, on the implicit token: the limiter alone
    -- never stops a build, unless the jobserver failed.
    pub acquire_idle :
        0 < y.to_start
        → y.running ≡ 0
        → y.state.poisoned ≡ false
        → (z : System Acquired) × (run_event y attempt ≡ ok z)
          × IsSound z
          × (z.running ≡ y.running + 1)
          × (z.to_start + 1 ≡ y.to_start)
    acquire_idle left idle p = round_free left p (
        lt→ltb y.state.active_jobs (length y.state.tokens)
          (omega (arith, v.active_running, ap length v.inv.implicit.1)))

    -- When every job has started and ended, the assertions of `finished` hold.
    pub finished_holds : y.to_start ≡ 0 → y.running ≡ 0 → assert_done y.state ≡ ok y.state
    unfolding assert_done
    finished_holds none_left idle = ground (arith, v.active_running, v.pending_left)

  Reach-IsSound : {n : ℕ} {y : System Acquired} → Reach n y → IsSound y
  Reach-IsSound {n} start = init-IsSound n
  Reach-IsSound (then_event {y = y} {z = z} e r h eq) =
      let (z', eq', w) = run_event-IsSound y (Reach-IsSound r) e h in
      subst IsSound (ok_unique (run_event y e) z' z eq' eq) w

-- After any history of `new n`, every event that can happen next (an attempt while jobs are left to
-- start, the end of a running job, a token, a failure of the jobserver) runs without a failed
-- assertion and without a counter below zero.
pub limiter_never_panics :
    {Acquired : Type 0} (n : ℕ) (y : System Acquired) (e : Event Acquired)
    → Reach n y
    → Enabled y e
    → (z : System Acquired) × (run_event y e ≡ ok z)
limiter_never_panics n y e r h =
    let (z, eq, _) = run_event-IsSound y (Reach-IsSound r) e h in (z, eq)

-- After any history the implicit token is the first of the tokens, no more jobs run than there are
-- tokens, and the limiter keeps at most two tokens more than jobs run, and no more than the larger of
-- 1 and the number of jobs that are not done.
pub limiter_capacity :
    {Acquired : Type 0} (n : ℕ) (y : System Acquired)
    → Reach n y
    → ((rest : List (Option Acquired)) × (y.state.tokens ≡ none ∷ rest))
      × (y.running ≤ length y.state.tokens)
      × (length y.state.tokens ≤ y.running + 2)
      × (length y.state.tokens ≤ max (y.running + y.to_start) 1)
limiter_capacity n y r =
    let v = Reach-IsSound r in
    (
      v.inv.implicit,
      omega (arith, v.active_running, v.inv.active_le_tokens),
      omega (arith, v.active_running, v.inv.tokens_le_active),
      omega (arith, v.pending_left, v.inv.tokens_le_pending),
    )

-- After any history in which the jobserver has not failed: while jobs are left and none runs, an
-- attempt is admitted at once, and starts one job. So the limiter alone never stops a build.
pub limiter_progress :
    {Acquired : Type 0} (n : ℕ) (y : System Acquired)
    → Reach n y
    → 0 < y.to_start
    → y.running ≡ 0
    → y.state.poisoned ≡ false
    → (z : System Acquired) × (run_event y attempt ≡ ok z)
      × (z.running ≡ y.running + 1)
      × (z.to_start + 1 ≡ y.to_start)
limiter_progress n y r left idle p =
    let (z, eq, _, run, left') = acquire_idle y (Reach-IsSound r) left idle p in (z, eq, run, left')

-- After any history in which every job was started and has ended, the assertions of `finished` hold.
pub limiter_finishes :
    {Acquired : Type 0} (n : ℕ) (y : System Acquired)
    → Reach n y
    → y.to_start ≡ 0
    → y.running ≡ 0
    → assert_done y.state ≡ ok y.state
limiter_finishes n y r left idle = finished_holds y (Reach-IsSound r) left idle
