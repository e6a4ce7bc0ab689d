-- ===== src/Scheduling/Propagator/Frame.antt =====
-- Which rows on_plan_completed of orchestrator/bin/status_propagator.py leaves alone.
use ai_devops.Common.{
  ℕ, String, false, Option, List, [], ◌∷◌, ◌≡◌, refl, ap, ◌∙◌, str_eq, arith, Bool-cases,
  Option-cases, inl, inr,
}
use ai_devops.Common.Names.{mem, mem-append}
use ai_devops.Scheduling.Store.{get_plan_status, are_plan_dependencies_completed}
use ai_devops.Scheduling.Store.Statuses.{marked, update_plan-status, get_plan_status-other}
use ai_devops.Scheduling.Propagator.{
  PropagationResult, Propagator, Call, find_dependent_plans, trigger_plan_dispatch,
  process_dependent, process_dependents, mark_completed, on_plan_completed,
}

pub mark_completed-rows :
    (raises : Call → Option String) (id : String) (now : ℕ) (p : Propagator)
    → (mark_completed raises id now p).rows ≡ marked id "completed" now p.rows
unfolding mark_completed
mark_completed-rows raises id now p = update_plan-status id "completed" now p.rows

module _ (raises : Call → Option String) (now : ℕ) (k : String) where
  trigger-other :
      (id : String) (p : Propagator)
      → str_eq k id ≡ false
      → get_plan_status k (trigger_plan_dispatch raises id now p).rows ≡ get_plan_status k p.rows
  unfolding trigger_plan_dispatch
  trigger-other id p n = elim (Option-cases (raises (Call.update id))) [
    | inl e ↦
        rw (e, trigger_plan_dispatch)
          (ap (get_plan_status k) (update_plan-status id "ready" now p.rows)
            ∙ get_plan_status-other id "ready" now k p.rows n)
    | inr (m, e) ↦ rw (e, trigger_plan_dispatch) refl
  ]

  -- A plan that is not reported after a turn was not before, and its status is the old one.
  process_dependent-other :
      (dep : String) (p : Propagator) (r : PropagationResult)
      → mem k (process_dependent raises dep now (p, r)).1.triggered_plans ≡ false
      → (mem k r.triggered_plans ≡ false)
        × (get_plan_status k (process_dependent raises dep now (p, r)).0.rows
            ≡ get_plan_status k p.rows)
  unfolding process_dependent
  process_dependent-other dep p r = elim (Option-cases (raises (Call.check dep))) [
    | inr (m, e) ↦ rw (e, process_dependent) λ h. (h, refl)
    | inl e ↦ elim (Bool-cases (are_plan_dependencies_completed p.rows dep).0) [
      | inr b ↦ rw (e, b, process_dependent) λ h. (h, refl)
      | inl b ↦
          rw (e, b, process_dependent)
            λ h.
              let both = mem-append k r.triggered_plans (dep ∷ []) in
              (ground (arith, h, both), trigger-other dep p (ground (arith, h, both)))
    ]
  ]

  process_dependents-other :
      (deps : List String) (p : Propagator) (r : PropagationResult)
      → mem k (process_dependents raises deps now (p, r)).1.triggered_plans ≡ false
      → (mem k r.triggered_plans ≡ false)
        × (get_plan_status k (process_dependents raises deps now (p, r)).0.rows
            ≡ get_plan_status k p.rows)
  unfolding process_dependents
  process_dependents-other [] p r h = (h, refl)
  process_dependents-other (dep ∷ deps) p r h =
      let p' = (process_dependent raises dep now (p, r)).0 in
      let r' = (process_dependent raises dep now (p, r)).1 in
      let after = process_dependents-other deps p' r' h in
      let step = process_dependent-other dep p r after.0 in (step.0, after.1 ∙ step.1)

-- Completing a plan changes the status of no plan but itself and the plans that it reports as
-- triggered, whichever calls of the database raise.
pub on_plan_completed-frame :
    (raises : Call → Option String) (id : String) (now : ℕ) (p : Propagator) (k : String)
    → str_eq k id ≡ false
    → mem k (on_plan_completed raises id now p).1.triggered_plans ≡ false
    → get_plan_status k (on_plan_completed raises id now p).0.rows ≡ get_plan_status k p.rows
unfolding on_plan_completed
on_plan_completed-frame raises id now p k n = elim (Option-cases (raises (Call.update id))) [
  | inr (m, e) ↦ rw (e, on_plan_completed) λ h. refl
  | inl e ↦
      rw (e, on_plan_completed)
        λ h.
          (process_dependents-other raises now k
            (find_dependent_plans raises id (mark_completed raises id now p).rows)
            (mark_completed raises id now p)
            (record { triggered_plans = []; blocked_plans = []; errors = [] }) h).1
          ∙ ap (get_plan_status k) (mark_completed-rows raises id now p)
          ∙ get_plan_status-other id "completed" now k p.rows n
]
