-- ===== src/ConcurrencyLimiter/Poison.antt =====
-- src/concurrency_limiter.rs: what is reported after the jobserver failed.
use Prim.Native.String.{String}
use rustc_codegen_cranelift.Common.{
  ℕ, zero, suc, ◌-◌, ◌≡◌, refl, sym, ap, ◌∙◌, true, Bool-cases, inl, inr, Option, some, none, List,
  [], ◌∷◌, ◌++◌, replicate, leb, ◌&&◌, length,
}
use rustc_codegen_cranelift.Codegen.{Result, ok, panic}
use rustc_codegen_cranelift.ConcurrencyLimiter.State.{
  ConcurrencyLimiterState, assert_invariants, drop_excess_capacity, truncated, add_new_token,
  try_start_job, job_finished, checked_pred, poison, ◌>>=◌,
}
use rustc_codegen_cranelift.ConcurrencyLimiter.System.{
  System, attempt, token_arrives, token_fails, job_ends, acquire_round, run_event,
}

>>=-back :
    {A B : Type 0} (r : Result A) (f : A → Result B) (b : B)
    → (r >>= f) ≡ ok b
    → (a : A) × (r ≡ ok a) × (f a ≡ ok b)
>>=-back (ok a) f b e = (a, refl, e)
>>=-back panic f b e = absurd (cc)

-- The messages of as many attempts after a failure with a message, the latest first, and the error that is left to
-- report after them.
abbrev pub reported : String → ℕ → List (Option String)
reported e zero = []
reported e (suc k) = replicate k none ++ some e ∷ []

abbrev pub unreported : String → ℕ → Option String
unreported e zero = some e
unreported e (suc k) = none

one_more :
    (e : String) (n : ℕ) (m : Option String) (before : List (Option String))
    → m ≡ unreported e n
    → m ∷ (reported e n ++ before) ≡ reported e (suc n) ++ before
one_more e zero m before h = ap (λ x. x ∷ before) h
one_more e (suc k) m before h = ap (λ x. x ∷ ((replicate k none ++ some e ∷ []) ++ before)) h

module _ {Acquired : Type 0} where
  -- What went on after a failure, with the number of attempts to acquire: tokens may arrive and jobs may end
  -- in between.
  pub data After (w : System Acquired) : ℕ → System Acquired → Type 0 where
    here : After w 0 w
    then_attempt :
        {n : ℕ} {y z : System Acquired}
        → After w n y
        → run_event y attempt ≡ ok z
        → After w (suc n) z
    then_token :
        {n : ℕ} {y z : System Acquired} (t : Acquired)
        → After w n y
        → run_event y (token_arrives t) ≡ ok z
        → After w n z
    then_end :
        {n : ℕ} {y z : System Acquired} → After w n y → run_event y job_ends ≡ ok z → After w n z

  -- The error is as it was.
  abbrev SameError : ConcurrencyLimiterState Acquired → ConcurrencyLimiterState Acquired → Type 0
  SameError s s' = (s'.poisoned ≡ s.poisoned) × (s'.stored_error ≡ s.stored_error)

  assert-back : (s s' : ConcurrencyLimiterState Acquired) → assert_invariants s ≡ ok s' → s ≡ s'
  unfolding assert_invariants
  assert-back s s' e =
      elim (Bool-cases (leb s.active_jobs s.pending_jobs && leb s.active_jobs (length s.tokens))) [
        | inl h ↦ let ran = rw h at e in cc
        | inr h ↦ absurd (let ran = rw h at e in cc)
      ]

  assert-SameError :
      (s s' : ConcurrencyLimiterState Acquired) → assert_invariants s ≡ ok s' → SameError s s'
  assert-SameError s s' e = (
    ap (λ x. x.poisoned) (sym (assert-back s s' e)),
    ap (λ x. x.stored_error) (sym (assert-back s s' e)),
  )

  SameError-trans :
      (s1 s2 s3 : ConcurrencyLimiterState Acquired)
      → SameError s1 s2
      → SameError s2 s3
      → SameError s1 s3
  SameError-trans s1 s2 s3 (p, q) (p', q') = (p' ∙ p, q' ∙ q)

  drop_excess-SameError :
      (s s' : ConcurrencyLimiterState Acquired) → drop_excess_capacity s ≡ ok s' → SameError s s'
  unfolding drop_excess_capacity truncated
  drop_excess-SameError s s' e =
      let (s1, first, second) = >>=-back (assert_invariants s) _ s' e in
      let same = assert-back s s1 first in
      let kept = assert-back (truncated s1) s' second in rw (← kept, ← same) (refl, refl)

  add_new_token-SameError :
      (s s' : ConcurrencyLimiterState Acquired) (t : Acquired)
      → add_new_token s t ≡ ok s'
      → SameError s s'
  unfolding add_new_token
  add_new_token-SameError s s' t e =
      drop_excess-SameError (record s { tokens = s.tokens ++ some t ∷ [] }) s' e

  job_finished-SameError :
      (s s' : ConcurrencyLimiterState Acquired) → job_finished s ≡ ok s' → SameError s s'
  unfolding job_finished
  job_finished-SameError s s' e =
      let (s1, e1, r1) = >>=-back (assert_invariants s) _ s' e in
      let (pending, _, r2) = >>=-back (checked_pred s1.pending_jobs) _ s' r1 in
      let (active, _, r3) = >>=-back (checked_pred s1.active_jobs) _ s' r2 in
      let (s2, e2, r4) =
        >>=-back (assert_invariants (record s1 { pending_jobs = pending; active_jobs = active })) _
          s' r3 in
      let (s3, e3, e4) = >>=-back (drop_excess_capacity s2) _ s' r4 in
      SameError-trans s s1 s' (assert-SameError s s1 e1) (
        SameError-trans s1 s2 s'
          (assert-SameError (record s1 { pending_jobs = pending; active_jobs = active }) s2 e2)
          (SameError-trans s2 s3 s' (drop_excess-SameError s2 s3 e3) (assert-SameError s3 s' e4)))

  -- Nothing but the messages is reported, and no job was admitted.
  record Told (y : System Acquired) (e : String) (n : ℕ) (z : System Acquired) : Type 0 where
    poisoned : z.state.poisoned ≡ true
    stored : z.state.stored_error ≡ unreported e n
    waiting : z.to_start ≡ y.to_start
    raised : z.raised ≡ reported e n ++ y.raised

  attempt_fails :
      (y z : System Acquired)
      → y.state.poisoned ≡ true
      → run_event y attempt ≡ ok z
      → record y {
        state = record y.state { stored_error = none };
        raised = y.state.stored_error ∷ y.raised;
      }
        ≡ z
  unfolding run_event acquire_round try_start_job
  attempt_fails y z p e =
      let (s1, e1, r1) = >>=-back (assert_invariants y.state) _ z e in
      let same = assert-back y.state s1 e1 in let ran = rw (← same, p) at r1 in cc

  attempt-Told :
      (y z z' : System Acquired) (e : String) (n : ℕ)
      → Told y e n z
      → run_event z attempt ≡ ok z'
      → Told y e (suc n) z'
  attempt-Told y z z' e n t run =
      let same = attempt_fails z z' t.poisoned run in
      rw (← same) (record {
        poisoned = t.poisoned;
        stored = refl;
        waiting = t.waiting;
        raised =
            ap (λ l. z.state.stored_error ∷ l) t.raised
            ∙ one_more e n z.state.stored_error y.raised t.stored;
      })

  same-Told :
      (y z z' : System Acquired) (e : String) (n : ℕ)
      → Told y e n z
      → SameError z.state z'.state
      → z'.to_start ≡ z.to_start
      → z'.raised ≡ z.raised
      → Told y e n z'
  same-Told y z z' e n t (p, q) w r = record {
    poisoned = p ∙ t.poisoned;
    stored = q ∙ t.stored;
    waiting = w ∙ t.waiting;
    raised = r ∙ t.raised;
  }

  token-Told :
      (y z z' : System Acquired) (e : String) (n : ℕ) (a : Acquired)
      → Told y e n z
      → run_event z (token_arrives a) ≡ ok z'
      → Told y e n z'
  unfolding run_event
  token-Told y z z' e n a t run =
      let (s, added, rest) = >>=-back (add_new_token z.state a) _ z' run in
      let same : record z { state = s } ≡ z' = cc in
      rw (← same) (
        same-Told y z (record z { state = s }) e n t (add_new_token-SameError z.state s a added)
          refl refl)

  end-Told :
      (y z z' : System Acquired) (e : String) (n : ℕ)
      → Told y e n z
      → run_event z job_ends ≡ ok z'
      → Told y e n z'
  unfolding run_event
  end-Told y z z' e n t run =
      let (s, ended, rest) = >>=-back (job_finished z.state) _ z' run in
      let same : record z { state = s; running = z.running - 1 } ≡ z' = cc in
      rw (← same) (
        same-Told y z (record z { state = s; running = z.running - 1 }) e n t
          (job_finished-SameError z.state s ended) refl refl)

  failure-Told :
      (y w : System Acquired) (e : String) → run_event y (token_fails e) ≡ ok w → Told y e 0 w
  unfolding run_event poison
  failure-Told y w e run =
      let same : record y { state = poison y.state e } ≡ w = cc in
      rw (← same) (record { poisoned = refl; stored = refl; waiting = refl; raised = refl })

  After-Told :
      (y w z : System Acquired) (e : String) (n : ℕ) → Told y e 0 w → After w n z → Told y e n z
  After-Told y w _ e _ t here = t
  After-Told y w z e _ t (then_attempt {n} {y = x} h run) =
      attempt-Told y x z e n (After-Told y w x e n t h) run
  After-Told y w z e n t (then_token {y = x} a h run) =
      token-Told y x z e n a (After-Told y w x e n t h) run
  After-Told y w z e n t (then_end {y = x} h run) =
      end-Told y x z e n (After-Told y w x e n t h) run

-- After the jobserver failed with a message, whatever tokens arrive and jobs end, and however often an attempt is
-- made: the limiter stays poisoned and admits no job, the first attempt raises the message, and every later
-- one raises an error without a message; nothing else is raised.
pub poison_reports_once :
    {Acquired : Type 0} (y w z : System Acquired) (e : String) (n : ℕ)
    → run_event y (token_fails e) ≡ ok w
    → After w n z
    → (z.state.poisoned ≡ true) × (z.to_start ≡ y.to_start) × (z.raised ≡ reported e n ++ y.raised)
poison_reports_once y w z e n run h =
    let t = After-Told y w z e n (failure-Told y w e run) h in (t.poisoned, t.waiting, t.raised)
