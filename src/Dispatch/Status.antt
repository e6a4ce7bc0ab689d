-- ===== src/Dispatch/Status.antt =====
-- update_plan_status_from_tasks of orchestrator/bin/dispatch.py. Its call of update_plan, a name
-- that the file does not import, always raises inside its `try` and has no effect.
pub mod Computed
use ai_devops.Common.{
  ℕ, String, Bool, true, false, Option, none, some, List, str_eq, if◌then◌else◌, length, ◌==◌,
}
use ai_devops.PlanSchema.Types.{Plan}
use ai_devops.Scheduling.Store.{get_plan_status}
use ai_devops.Scheduling.Propagator.{Propagator, Call, on_plan_status_change}
use ai_devops.Dispatch.Paths.{Env}
use ai_devops.Dispatch.Registry.{TaskItem, plan_tasks, plan_status_from_tasks}

-- old_status != plan_status, for a status that may be None
unfoldable pub differs : Option String → String → Bool
differs none s = true
differs (some old) s = if str_eq old s then false else true

-- old_status or "unknown"
unfoldable pub or_unknown : Option String → String
or_unknown none = "unknown"
or_unknown (some s) = if str_eq s "" then "unknown" else s

-- update_plan_status_from_tasks; `unread`: get_plan_status raises
unfoldable pub update_plan_status_from_tasks :
    (Call → Option String)
    → Bool
    → Env
    → Plan
    → List TaskItem
    → ℕ
    → Propagator
    → Propagator × String
update_plan_status_from_tasks raises unread env plan items now p =
    let status = plan_status_from_tasks env plan items in
    if length (plan_tasks env plan.plan_id items) == 0
    then (p, status)
    else (let old : Option String = if unread then none else get_plan_status plan.plan_id p.rows in
        if differs old status
        then (on_plan_status_change raises plan.plan_id (or_unknown old) status now p, status)
        else (p, status))
