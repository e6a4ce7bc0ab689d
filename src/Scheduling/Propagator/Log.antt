-- ===== src/Scheduling/Propagator/Log.antt =====
-- The bound of the event log of orchestrator/bin/status_propagator.py.
use ai_devops.Common.{
  ℕ, ◌≤◌, ◌-◌, zero, suc, String, Option, List, [], ◌∷◌, ◌++◌, length, drop, ◌≡◌, str_eq, arith,
  Bool-cases, Option-cases, inl, inr,
}
use ai_devops.Scheduling.Store.{are_plan_dependencies_completed}
use ai_devops.Scheduling.Propagator.{
  PropagationEvent, PropagationResult, Propagator, Call, last_events, log_event, emit_event,
  find_dependent_plans, trigger_plan_dispatch, process_dependent, process_dependents,
  mark_completed, on_plan_completed, on_plan_failed, on_plan_status_change,
}

-- The log holds at most _max_event_log events.
abbrev pub IsCapped : Propagator → Type 0
IsCapped p = length p.event_log ≤ 1000

length-drop {ℓ} : {A : Type ℓ} (n : ℕ) (xs : List A) → length (drop n xs) ≡ length xs - n
length-drop zero xs = omega arith
length-drop (suc n) [] = omega arith
length-drop (suc n) (x ∷ xs) = omega (arith, length-drop n xs)

log_event-capped :
    (log : List PropagationEvent) (e : PropagationEvent) → length (log_event log e) ≤ 1000
unfolding log_event last_events
log_event-capped log e = ground (arith, length-drop (length (log ++ e ∷ []) - 1000) (log ++ e ∷ []))

emit_event-IsCapped : (e : PropagationEvent) (p : Propagator) → IsCapped (emit_event e p)
unfolding emit_event
emit_event-IsCapped e p = log_event-capped p.event_log e

module _ (raises : Call → Option String) where
  trigger-IsCapped :
      (id : String) (now : ℕ) (p : Propagator)
      → IsCapped p
      → IsCapped (trigger_plan_dispatch raises id now p)
  unfolding trigger_plan_dispatch emit_event
  trigger-IsCapped id now p h = elim (Option-cases (raises (Call.update id))) [
    | inl e ↦ rw (e, trigger_plan_dispatch) (log_event-capped p.event_log _)
    | inr (m, e) ↦ rw (e, trigger_plan_dispatch) h
  ]

  process_dependent-IsCapped :
      (dep : String) (now : ℕ) (p : Propagator) (r : PropagationResult)
      → IsCapped p
      → IsCapped (process_dependent raises dep now (p, r)).0
  unfolding process_dependent
  process_dependent-IsCapped dep now p r h = elim (Option-cases (raises (Call.check dep))) [
    | inr (m, e) ↦ rw (e, process_dependent) h
    | inl e ↦ elim (Bool-cases (are_plan_dependencies_completed p.rows dep).0) [
      | inl b ↦ rw (e, b, process_dependent) (trigger-IsCapped dep now p h)
      | inr b ↦ rw (e, b, process_dependent) h
    ]
  ]

  process_dependents-IsCapped :
      (deps : List String) (now : ℕ) (p : Propagator) (r : PropagationResult)
      → IsCapped p
      → IsCapped (process_dependents raises deps now (p, r)).0
  unfolding process_dependents
  process_dependents-IsCapped [] now p r h = h
  process_dependents-IsCapped (dep ∷ deps) now p r h =
      process_dependents-IsCapped deps now (process_dependent raises dep now (p, r)).0
        (process_dependent raises dep now (p, r)).1 (process_dependent-IsCapped dep now p r h)

  completed-IsCapped :
      (id : String) (now : ℕ) (p : Propagator)
      → IsCapped p
      → IsCapped (on_plan_completed raises id now p).0
  unfolding on_plan_completed mark_completed emit_event
  completed-IsCapped id now p h = elim (Option-cases (raises (Call.update id))) [
    | inr (m, e) ↦ rw (e, on_plan_completed) h
    | inl e ↦
        rw (e, on_plan_completed)
          (process_dependents-IsCapped
            (find_dependent_plans raises id (mark_completed raises id now p).rows) now
            (mark_completed raises id now p) _ (log_event-capped p.event_log _))
  ]

  failed-IsCapped :
      (id error : String) (now : ℕ) (p : Propagator)
      → IsCapped p
      → IsCapped (on_plan_failed raises id error now p).0
  unfolding on_plan_failed emit_event
  failed-IsCapped id error now p h = elim (Option-cases (raises (Call.update id))) [
    | inr (m, e) ↦ rw (e, on_plan_failed) h
    | inl e ↦ rw (e, on_plan_failed) (log_event-capped p.event_log _)
  ]

  -- After any change of a plan's status the event log holds at most 1000 events, whichever calls of
  -- the database raise and whatever the log held before.
  pub on_plan_status_change-IsCapped :
      (id old_status new_status : String) (now : ℕ) (p : Propagator)
      → IsCapped (on_plan_status_change raises id old_status new_status now p)
  unfolding on_plan_status_change
  on_plan_status_change-IsCapped id old_status new_status now p =
      elim (Bool-cases (str_eq new_status "completed")) [
        | inl b ↦
            rw (b, on_plan_status_change) (completed-IsCapped id now _ (emit_event-IsCapped _ p))
        | inr b ↦ elim (Bool-cases (str_eq new_status "failed")) [
          | inl c ↦
              rw (b, c, on_plan_status_change)
                (failed-IsCapped id _ now _ (emit_event-IsCapped _ p))
          | inr c ↦ rw (b, c, on_plan_status_change) (emit_event-IsCapped _ p)
        ]
      ]
