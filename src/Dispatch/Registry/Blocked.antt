-- ===== src/Dispatch/Registry/Blocked.antt =====
-- can_dispatch of orchestrator/bin/dispatch.py and are_plan_dependencies_completed of
-- orchestrator/bin/db.py, which the scheduling cycle asks: two checks of the same thing.
use ai_devops.Common.{
  ℕ, String, false, some, List, [], ◌∷◌, ◌≡◌, refl, ◌∙◌, str_eq, Bool-cases, Option-cases, inl, inr,
  eq_refl,
}
use ai_devops.PlanSchema.Types.{Plan}
use ai_devops.Scheduling.Store.{
  PlanRow, get_plan, get_plan_status, depends_on, is_completed, incomplete, no_names,
  are_plan_dependencies_completed, new_row,
}
use ai_devops.Scheduling.Store.Rows.{get_plan-insert_plan}
use ai_devops.Dispatch.Registry.{
  blocking_reasons, no_reasons, can_dispatch, plan_record, register_plan,
}

reasons_agree :
    (rows : List PlanRow) (deps : List String)
    → no_reasons (blocking_reasons rows deps) ≡ no_names (incomplete rows deps)
unfolding blocking_reasons no_reasons incomplete is_completed no_names
reasons_agree rows [] = refl
reasons_agree rows (dep ∷ deps) =
    let rest = reasons_agree rows deps in
    elim (Option-cases (get_plan_status dep rows)) [
      | inl e ↦ rw (blocking_reasons, incomplete, is_completed, e) refl
      | inr (s, e) ↦ elim (Bool-cases (str_eq s "completed")) [
        | inl b ↦ rw (blocking_reasons, incomplete, is_completed, e, b) rest
        | inr b ↦ rw (blocking_reasons, incomplete, is_completed, e, b) refl
      ]
    ]

can_dispatch-agrees :
    (rows : List PlanRow) (plan : Plan) (r : PlanRow)
    → get_plan plan.plan_id rows ≡ some r
    → depends_on r ≡ plan.plan_depends_on
    → (can_dispatch false rows plan).0 ≡ (are_plan_dependencies_completed rows plan.plan_id).0
unfolding can_dispatch are_plan_dependencies_completed
can_dispatch-agrees rows plan r e d =
    rw (are_plan_dependencies_completed, e, d) (reasons_agree rows plan.plan_depends_on)

-- On the table that register_plan leaves when nothing raises, the dispatcher lets the plan through exactly when the
-- scheduling cycle takes its dependencies for completed.
pub register-can_dispatch :
    (plan : Plan) (now : ℕ) (rows : List PlanRow)
    → (can_dispatch false (register_plan false plan now rows) plan).0
      ≡ (are_plan_dependencies_completed (register_plan false plan now rows) plan.plan_id).0
unfolding register_plan plan_record depends_on new_row
register-can_dispatch plan now rows =
    let rows' = register_plan false plan now rows in
    let row = new_row (plan_record plan) now in
    let found : get_plan plan.plan_id rows' ≡ some row =
      get_plan-insert_plan (plan_record plan) now rows plan.plan_id
      ∙ (rw (eq_refl plan.plan_id) refl) in
    can_dispatch-agrees rows' plan row found refl
