-- ===== src/Scheduling/Propagator/Tests.antt =====
-- A plan with two plans that wait for it, one of them for another plan too.
use ai_devops.Common.{ℕ, String, false, some, List, [], ◌∷◌, ◌≡◌, refl, sym, ap, subst, arith}
use ai_devops.Common.Int.{ℤ}
use ai_devops.Common.Names.{mem}
use ai_devops.PlanSchema.Json.{end}
use ai_devops.Scheduling.Store.{
  PlanRow, allowed, any_allowed, set_columns, set_column, update_where, update_plan, get_plan,
  get_plan_status, insert_recent, by_created, get_all_plans, depends_on, is_completed, incomplete,
  no_names, are_plan_dependencies_completed,
}
use ai_devops.Scheduling.Store.Statuses.{marked}
use ai_devops.Scheduling.Propagator.{
  Propagator, emit_event, dependents, find_dependent_plans, trigger_plan_dispatch,
  process_dependent, process_dependents, mark_completed, on_plan_completed, on_plan_status_change,
}
use ai_devops.Scheduling.Propagator.Log.{IsCapped, on_plan_status_change-IsCapped}
use ai_devops.Scheduling.Propagator.Frame.{on_plan_completed-frame}
use ai_devops.Scheduling.Propagator.Exact.{
  silent, Open, select, waiting_plans, satisfied, unsatisfied, on_plan_completed-splits,
}

abbrev plan : String → List String → ℕ → PlanRow
plan id deps created_at = record {
  plan_id = id;
  repo = "r";
  title = id;
  requested_by = "u";
  objective = "";
  constraints = end;
  context = end;
  version = "1";
  plan_depends_on = some deps;
  global_priority = ℤ.pos 0;
  status = "running";
  requested_at = ℤ.pos 0;
  created_at = created_at;
  updated_at = 0;
}

abbrev three_plans : List PlanRow
three_plans = plan "api" [] 1 ∷ plan "web" ("api" ∷ []) 2 ∷ plan "docs" ("api" ∷ "web" ∷ []) 3 ∷ []

abbrev idle : Propagator
idle = record { rows = three_plans; listeners = "l" ∷ []; event_log = []; delivered = [] }

web_triggered : (on_plan_completed silent "api" 7 idle).1.triggered_plans ≡ "web" ∷ []
unfolding on_plan_completed mark_completed emit_event find_dependent_plans dependents
    process_dependents process_dependent trigger_plan_dispatch update_plan any_allowed allowed
    set_columns set_column update_where get_plan get_plan_status insert_recent by_created
    get_all_plans depends_on is_completed incomplete no_names are_plan_dependencies_completed
web_triggered = refl

docs_not_triggered : mem "docs" (on_plan_completed silent "api" 7 idle).1.triggered_plans ≡ false
docs_not_triggered = ap (mem "docs") web_triggered

on_plan_completed-frame_example :
    get_plan_status "docs" (on_plan_completed silent "api" 7 idle).0.rows
    ≡ get_plan_status "docs" three_plans
on_plan_completed-frame_example =
    on_plan_completed-frame silent "api" 7 idle "docs" refl docs_not_triggered

abbrev api_completed : List PlanRow
api_completed = marked "api" "completed" 7 three_plans

waiting : waiting_plans "api" (by_created api_completed) ≡ "docs" ∷ "web" ∷ []
unfolding update_where insert_recent by_created
waiting = refl

waiting-Open : Open api_completed ("docs" ∷ "web" ∷ [])
unfolding update_where is_completed get_plan_status get_plan
waiting-Open = (refl, (refl, tt))

on_plan_completed-splits_example :
    ((on_plan_completed silent "api" 7 idle).1.triggered_plans
      ≡ select (satisfied api_completed) (waiting_plans "api" (by_created api_completed)))
    × ((on_plan_completed silent "api" 7 idle).1.blocked_plans
        ≡ select (unsatisfied api_completed) (waiting_plans "api" (by_created api_completed)))
on_plan_completed-splits_example =
    on_plan_completed-splits "api" 7 idle (omega arith)
      (subst (Open api_completed) (sym waiting) waiting-Open)

on_plan_status_change-IsCapped_example :
    IsCapped (on_plan_status_change silent "api" "running" "completed" 7 idle)
on_plan_status_change-IsCapped_example =
    on_plan_status_change-IsCapped silent "api" "running" "completed" 7 idle
