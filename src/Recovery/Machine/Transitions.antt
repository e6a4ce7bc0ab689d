-- ===== src/Recovery/Machine/Transitions.antt =====
-- Which moves the machine makes: only those of VALID_TRANSITIONS, and a refused move changes no
-- context; the recovered state is left by a reset alone; the backoff is capped.
use ai_devops.Common.{
  ℕ, ◌<◌, String, str_eq, eq_iff, Bool, true, false, All, ◌⊎◌, Option, none, some, List, [], ◌∷◌,
  ◌≡◌, arith, if◌then◌else◌, Option-cases, Bool-cases, inl, inr, ◌∙◌, ap,
}
use ai_devops.Common.Assoc.{lookup, lookup-insert}
use ai_devops.PlanSchema.Json.{end}
use ai_devops.Recovery.Seconds.{Seconds}
use ai_devops.Recovery.Data.{RecoveryState, valid_transition, RecoveryConfig, RecoveryContext}
use ai_devops.Recovery.Machine.Steps.{get_context_hit, get_context_miss, get_context-rows}
use ai_devops.Recovery.Machine.Attempts.{
  Call, query, move, detect, recover, complete, fail, restart, run_call, run_calls,
}
use ai_devops.Recovery.Machine.{
  stored_context, or_fresh, Machine, Callbacks, Readings, get_context, refusal, can_transition,
  persist_context, transition, calculate_backoff, start_detection, start_recovery,
  complete_recovery, fail_recovery, reset,
}
use ai_devops.Recovery.Machine.Moves.{HasRoom, attempts_after, transition_cases, transition-rows}

module _ (S : Seconds) (cfg : RecoveryConfig S.F) where
  open S use {F, lt, lt_irrefl}

  -- After the first attempt the wait before the next is never above the configured maximum.
  pub calculate_backoff-capped :
      (n : ℕ) → 0 < n → lt cfg.max_backoff_seconds (calculate_backoff S cfg n) ≡ false
  unfolding calculate_backoff
  calculate_backoff-capped n h = ground (arith, lt_irrefl cfg.max_backoff_seconds)

  -- For a task whose context, as it is found or loaded, carries the task's own id: a transition that
  -- succeeds follows the table of valid transitions, and into `recovering` finds the attempts below
  -- the limit. The task then has the new state and error, and one attempt more if the state is
  -- `recovering`; no other task has changed, neither its cached context nor its stored row. A
  -- transition that fails has done no more than to load the task's context, and changes no row.
  pub transition_outcome :
      (hooks : Callbacks) (m : Machine F) (task_id : String) (new : RecoveryState)
      (error : Option String) (now : Readings F)
      → (get_context m task_id).1.task_id ≡ task_id
      → ((c' : RecoveryContext F) × ((transition S cfg hooks m task_id new error now).1 ≡ true)
          × (valid_transition (get_context m task_id).1.state new ≡ true)
          × HasRoom S cfg new (get_context m task_id).1.attempts
          × (c'.state ≡ new)
          × (c'.last_error ≡ error)
          × (c'.attempts ≡ attempts_after S cfg new (get_context m task_id).1.attempts)
          × ((k : String)
              → lookup k (transition S cfg hooks m task_id new error now).0.contexts ≡ (
                  if str_eq task_id k
                  then some c'
                  else lookup k (get_context m task_id).0.contexts))
          × ((k : String)
              → (transition S cfg hooks m task_id new error now).0.rows k ≡ (
                  if str_eq task_id k
                  then (transition S cfg hooks m task_id new error now).0.rows task_id
                  else m.rows k)))
        ⊎ (((transition S cfg hooks m task_id new error now).1 ≡ false)
            × ((transition S cfg hooks m task_id new error now).0 ≡ (get_context m task_id).0)
            × ((transition S cfg hooks m task_id new error now).0.rows ≡ m.rows))
  transition_outcome hooks m task_id new error now own =
      elim (transition_cases S cfg hooks m task_id new error now) [
        | inl (c', ok', valid, fits, state, err, count, looked) ↦ inl (
          c',
          ok',
          valid,
          fits,
          state,
          err,
          count,
          looked,
          λ k. transition-rows S cfg hooks m task_id new error now k own,
        )
        | inr (ok', same) ↦
            inr (ok', same, ap (λ (x : Machine F). x.rows) same ∙ get_context-rows m task_id)
      ]

module _ (S : Seconds) (cfg : RecoveryConfig S.F) (hooks : Callbacks) where
  open S use {F}

  get_context_other :
      (m : Machine F) (k j : String)
      → str_eq k j ≡ false
      → lookup j (get_context m k).0.contexts ≡ lookup j m.contexts
  get_context_other m k j n = elim (Option-cases (lookup k m.contexts)) [
    | inl e ↦
        rw (get_context_miss m k e)
          (ground (arith, lookup-insert k j (or_fresh k (stored_context (m.rows k))) m.contexts, n))
    | inr (c, e) ↦ rw (get_context_hit m k c e)
  ]

  -- A call that is no reset of the task.
  abbrev pub Spares : String → Call F → Type 0
  Spares task_id (restart k) = str_eq k task_id ≡ false
  Spares task_id call = Unit

  module _ (task_id : String) (c : RecoveryContext F)
      (done : c.state ≡ RecoveryState.recovered) where
    abbrev Kept : Machine F → Type 0
    Kept m = lookup task_id m.contexts ≡ some c

    get_context-Kept : (m : Machine F) (k : String) → Kept m → Kept (get_context m k).0
    get_context-Kept m k h = elim (Bool-cases (str_eq k task_id)) [
      | inl e ↦ rw ((eq_iff k task_id).0 e, get_context_hit m task_id c h) h
      | inr n ↦ get_context_other m k task_id n ∙ h
    ]

    transition-Kept :
        (m : Machine F) (k : String) (new : RecoveryState) (error : Option String)
        (now : Readings F)
        → Kept m
        → Kept (transition S cfg hooks m k new error now).0
    transition-Kept m k new error now h = elim (transition_cases S cfg hooks m k new error now) [
      | inl (c', ok', valid, fits, state, err, count, looked) ↦
          elim (Bool-cases (str_eq k task_id)) [
            | inl e ↦ absurd (clash m k new e h valid)
            | inr n ↦ looked task_id ∙ rw n (get_context_other m k task_id n ∙ h)
          ]
      | inr (ok', same) ↦ rw same (get_context-Kept m k h)
    ]
      where
        clash :
            (m : Machine F) (k : String) (new : RecoveryState)
            → str_eq k task_id ≡ true
            → lookup task_id m.contexts ≡ some c
            → valid_transition (get_context m k).1.state new ≡ true
            → ⊥
        clash m k new e h v =
            no_way new (rw ((eq_iff k task_id).0 e, get_context_hit m task_id c h, done) at v)
          where
            no_way : (new : RecoveryState) → valid_transition RecoveryState.recovered new ≡ true → ⊥
            no_way new v = unfold valid_transition in cc v

    same : (m : Machine F) → Kept m → (now : F) → Kept (start_detection S m task_id now).0
    unfolding start_detection
    same m h now =
        let still : start_detection S m task_id now ≡ (m, false) =
          ground (arith, get_context_hit m task_id c h, done) in
        ap (λ (r : Machine F × Bool). lookup task_id r.0.contexts) still ∙ h

    start_detection-Kept :
        (m : Machine F) (k : String) (now : F) → Kept m → Kept (start_detection S m k now).0
    unfolding start_detection persist_context
    start_detection-Kept m k now h =
        let held = get_context-Kept m k h in
        elim (Bool-cases (str_eq k task_id)) [
          | inl e ↦ rw ((eq_iff k task_id).0 e) (same m h now)
          | inr n ↦ go (get_context m k).1.state _ _ held (
              ground (
                arith,
                held,
                n,
                lookup-insert k task_id (record (get_context m k).1 { started_at = some now })
                    (get_context m k).0.contexts,
              ))
        ]
      where
        go :
            (s : RecoveryState) (m₁ m₂ : Machine F)
            → Kept m₁
            → Kept m₂
            → Kept
                (elim s as (λ x. Machine F × Bool) [
                  | RecoveryState.detecting ↦ (m₂, true)
                  | _ ↦ (m₁, false)
                ]).0
        go RecoveryState.detecting m₁ m₂ p q = q
        go _ m₁ m₂ p q = p

    start_recovery-Kept :
        (m : Machine F) (k : String) (now : F) (again : Readings F)
        → Kept m
        → Kept (start_recovery S cfg hooks m k now again).0
    unfolding start_recovery can_transition
    start_recovery-Kept m k now again h =
        let held = get_context-Kept m k h in
        elim (Option-cases (refusal S cfg (get_context m k).1 RecoveryState.recovering now)) [
          | inl e ↦
              rw (e, start_recovery)
                (transition-Kept (get_context m k).0 k RecoveryState.recovering none again held)
          | inr (why, e) ↦ rw (e, start_recovery) held
        ]

    reset-Kept :
        (m : Machine F) (k : String) → str_eq k task_id ≡ false → Kept m → Kept (reset S m k)
    unfolding reset persist_context
    reset-Kept m k n h = elim (Option-cases (lookup k m.contexts)) [
      | inl e ↦ rw (e, reset) h
      | inr (d, e) ↦
          rw (e, reset)
            (ground (
              arith,
              n,
              h,
              lookup-insert k task_id
                  (record d {
                    state = RecoveryState.detecting;
                    attempts = 0;
                    started_at = none;
                    last_attempt_at = none;
                    last_error = none;
                    recovery_metadata = end;
                  })
                  m.contexts,
            ))
    ]

    run_call-Kept :
        (m : Machine F) (call : Call F)
        → Spares task_id call
        → Kept m
        → Kept (run_call S cfg hooks m call)
    unfolding run_call complete_recovery fail_recovery
    run_call-Kept m (query k) p h = get_context-Kept m k h
    run_call-Kept m (move k new error now) p h = transition-Kept m k new error now h
    run_call-Kept m (detect k now) p h = start_detection-Kept m k now h
    run_call-Kept m (recover k now again) p h = start_recovery-Kept m k now again h
    run_call-Kept m (complete k now) p h = transition-Kept m k RecoveryState.recovered none now h
    run_call-Kept m (fail k error now) p h =
        transition-Kept m k RecoveryState.failed (some error) now h
    run_call-Kept m (restart k) p h = reset-Kept m k p h

  -- A task whose cached context has recovered keeps this context in the cache, whatever is called for
  -- it or for other tasks, until it is reset.
  pub recovered_stays :
      (m : Machine F) (task_id : String) (c : RecoveryContext F) (calls : List (Call F))
      → c.state ≡ RecoveryState.recovered
      → lookup task_id m.contexts ≡ some c
      → All (Spares task_id) calls
      → lookup task_id (run_calls S cfg hooks m calls).contexts ≡ some c
  unfolding run_calls
  recovered_stays m task_id c [] done h p = h
  recovered_stays m task_id c (call ∷ calls) done h p =
      recovered_stays (run_call S cfg hooks m call) task_id c calls done
        (run_call-Kept task_id c done m call p.0 h) p.1
