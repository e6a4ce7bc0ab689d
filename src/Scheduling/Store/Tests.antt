-- ===== src/Scheduling/Store/Tests.antt =====
-- A plan inserted into an empty table, and its status updated.
use ai_devops.Common.{none, some, [], ◌∷◌, ◌≡◌, str_eq, if◌then◌else◌}
use ai_devops.Common.Int.{ℤ}
use ai_devops.PlanSchema.Json.{end}
use ai_devops.Scheduling.Store.{NewPlan, Update, insert_plan, update_plan, get_plan}
use ai_devops.Scheduling.Store.Statuses.{restatus}
use ai_devops.Scheduling.Store.Rows.{get_plan-insert_plan, get_plan-update_plan}

abbrev request : NewPlan
request = record {
  plan_id = "p1";
  repo = "r";
  title = "t";
  requested_by = "u";
  requested_at = ℤ.pos 3;
  objective = none;
  constraints = none;
  context = none;
  version = "1";
  plan_depends_on = some ("p0" ∷ []);
  global_priority = none;
  status = none;
  created_at = none;
}

get_plan-insert_plan_example : get_plan "p1" (insert_plan request 9 []) ≡ (
    if str_eq "p1" "p1"
    then some (record {
      plan_id = "p1";
      repo = "r";
      title = "t";
      requested_by = "u";
      objective = "";
      constraints = end;
      context = end;
      version = "1";
      plan_depends_on = some ("p0" ∷ []);
      global_priority = ℤ.pos 0;
      status = "pending";
      requested_at = ℤ.pos 3;
      created_at = 9;
      updated_at = 9;
    })
    else get_plan "p1" [])
get_plan-insert_plan_example = get_plan-insert_plan request 9 [] "p1"

get_plan-update_plan_example :
    get_plan "p1" (update_plan "p1" (Update.status "ready" ∷ []) 10 (insert_plan request 9 []))
    ≡ elim (get_plan "p1" (insert_plan request 9 [])) [
      | none ↦ none
      | some r ↦ some (if str_eq "p1" "p1" then restatus "ready" 10 r else r)
    ]
get_plan-update_plan_example = get_plan-update_plan "p1" "ready" 10 (insert_plan request 9 []) "p1"
