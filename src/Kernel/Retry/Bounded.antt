-- ===== src/Kernel/Retry/Bounded.antt =====
-- How often RetryHandler of packages/kernel/monitor/handlers.py restarts an agent.
use ai_devops.Common.{
  ℕ, suc, ◌+◌, ◌≤◌, String, none, some, List, [], ◌∷◌, ◌++◌, length, length-append, ◌≡◌, refl, ap,
  ◌∙◌, arith, All, leb, ◌||◌, Bool-cases, Option-cases, inl, inr,
}
use ai_devops.PlanSchema.Text.{is_empty}
use ai_devops.Kernel.Retry.{
  RetryTask, RetryUpdate, RetryContext, RetryFaults, max_attempts, updated_task, report, retry,
  handle_retry,
}

abbrev pub limit : RetryContext → ℕ
limit c = max_attempts c.task.max_attempts_camel c.task.max_attempts_snake

-- The limit stays, each restart counts as an attempt, and the attempts stay within the limit.
pub record Counts (c c' : RetryContext) : Type 0 where
  pub limit_kept : limit c' ≡ limit c
  pub counted : length c'.restarts + c.task.attempts ≡ length c.restarts + c'.task.attempts
  pub bounded : c.task.attempts ≤ limit c → c'.task.attempts ≤ limit c

Counts-refl : (c : RetryContext) → Counts c c
Counts-refl c = record { limit_kept = refl; counted = refl; bounded = λ h. h }

Counts-trans : (a b c : RetryContext) → Counts a b → Counts b c → Counts a c
Counts-trans a b c p q = record {
  limit_kept = q.limit_kept ∙ p.limit_kept;
  counted = omega (arith, p.counted, q.counted);
  bounded = λ h.
      let step = p.bounded h in
      let next = q.bounded (omega (arith, step, p.limit_kept)) in omega (arith, next, p.limit_kept);
}

Counts-logged :
    (c : RetryContext) (logs : List (String × String)) → Counts c (record c { failure_logs = logs })
Counts-logged c logs = record { limit_kept = refl; counted = refl; bounded = λ h. h }

-- A restart that is recorded in the task.
restarted-Counts :
    (c c' : RetryContext)
    → suc c.task.attempts ≤ limit c
    → c'.task
      ≡ updated_task (record { status = "running"; attempts = some (c.task.attempts + 1) }) c.task
    → c'.restarts ≡ c.restarts ++ (c.task.attempts + 1) ∷ []
    → Counts c c'
unfolding updated_task
restarted-Counts c c' h e f = record {
  limit_kept = ap (λ (t : RetryTask). max_attempts t.max_attempts_camel t.max_attempts_snake) e;
  counted = omega (
    arith,
    ap length f,
    ap (λ (t : RetryTask). t.attempts) e,
    length-append c.restarts ((c.task.attempts + 1) ∷ []),
  );
  bounded = λ k. omega (arith, h, ap (λ (t : RetryTask). t.attempts) e);
}

-- A task that is reported as blocked.
blocked-Counts :
    (c c' : RetryContext)
    → c'.task ≡ updated_task (record { status = "blocked"; attempts = none }) c.task
    → c'.restarts ≡ c.restarts
    → Counts c c'
unfolding updated_task
blocked-Counts c c' e f = record {
  limit_kept = ap (λ (t : RetryTask). max_attempts t.max_attempts_camel t.max_attempts_snake) e;
  counted = omega (arith, ap length f, ap (λ (t : RetryTask). t.attempts) e);
  bounded = λ k. omega (arith, k, ap (λ (t : RetryTask). t.attempts) e);
}

module _ {E : Type 0} (faults : RetryFaults E) (saved : faults.on_update ≡ none) where
  -- what a report without an exception of update_task leaves of the task and of the restarts
  report-task :
      (u : RetryUpdate) (c : RetryContext)
      → ((report faults u c).0.task ≡ updated_task u c.task)
        × ((report faults u c).0.restarts ≡ c.restarts)
  unfolding report
  report-task u c = elim (Option-cases faults.on_publish) [
    | inl e ↦ rw (report, saved, e) (refl, refl)
    | inr (x, e) ↦ rw (report, saved, e) (refl, refl)
  ]

  retry-Counts :
      (summary : String) (c : RetryContext)
      → suc c.task.attempts ≤ limit c
      → Counts c (retry faults summary c).0
  unfolding retry updated_task
  retry-Counts summary c h = elim (Option-cases faults.on_run_failure) [
    | inr (x, e) ↦ rw (retry, e) (Counts-refl c)
    | inl e1 ↦ elim (Option-cases faults.on_log) [
      | inr (x, e) ↦ rw (retry, e1, e) (Counts-refl c)
      | inl e2 ↦ elim (Option-cases faults.on_prompt) [
        | inr (x, e) ↦ rw (retry, e1, e2, e) (Counts-logged c _)
        | inl e3 ↦ elim (Option-cases faults.on_restart) [
          | inr (x, e) ↦ rw (retry, e1, e2, e3, e) (Counts-logged c _)
          | inl e4 ↦
              let u : RetryUpdate = record {
                status = "running";
                attempts = some (c.task.attempts + 1);
              } in
              let c2 : RetryContext = record c {
                failure_logs = c.failure_logs ++ (c.task.id, summary) ∷ [];
                restarts = c.restarts ++ (c.task.attempts + 1) ∷ [];
              } in
              rw (retry, e1, e2, e3, e4)
                (restarted-Counts c (report faults u c2).0 h (report-task u c2).0
                  (report-task u c2).1)
        ]
      ]
    ]
  ]

  handle-Counts : (summary : String) (c : RetryContext) → Counts c (handle_retry faults summary c).0
  unfolding handle_retry
  handle-Counts summary c = elim (Bool-cases (is_empty c.task.id || is_empty summary)) [
    | inl e ↦ rw (handle_retry, e) (Counts-refl c)
    | inr e ↦ elim (Bool-cases (leb (limit c) c.task.attempts)) [
      | inl f ↦
          let u : RetryUpdate = record { status = "blocked"; attempts = none } in
          let done = report-task u c in
          rw (handle_retry, e, f) (blocked-Counts c (report faults u c).0 done.0 done.1)
      | inr f ↦ rw (handle_retry, e, f) (retry-Counts summary c (ground (arith, f)))
    ]
  ]

-- The context after a list of failures, each with what raises while it is handled.
abbrev pub handle_failures :
    {E : Type 0} → List (RetryFaults E × String) → RetryContext → RetryContext
handle_failures [] c = c
handle_failures ((faults, summary) ∷ calls) c =
    handle_failures calls (handle_retry faults summary c).0

failures-Counts :
    {E : Type 0} (calls : List (RetryFaults E × String)) (c : RetryContext)
    → All (λ x. x.0.on_update ≡ none) calls
    → Counts c (handle_failures calls c)
failures-Counts [] c s = Counts-refl c
failures-Counts ((faults, summary) ∷ calls) c s =
    let c1 = (handle_retry faults summary c).0 in
    Counts-trans c c1 (handle_failures calls c1) (handle-Counts faults s.0 summary c)
      (failures-Counts calls c1 s.1)

-- However many failures are handled, and whatever else raises, as long as the update of the task
-- does not raise: a task that starts within its limit stays within it, and its agent is restarted
-- at most as often as there are attempts left.
pub retries_bounded :
    {E : Type 0} (calls : List (RetryFaults E × String)) (c : RetryContext)
    → All (λ x. x.0.on_update ≡ none) calls
    → c.task.attempts ≤ limit c
    → ((handle_failures calls c).task.attempts ≤ limit c)
      × (length (handle_failures calls c).restarts + c.task.attempts ≤ length c.restarts + limit c)
retries_bounded calls c s h =
    let k = failures-Counts calls c s in let b = k.bounded h in (b, omega (arith, k.counted, b))
