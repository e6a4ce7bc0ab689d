-- ===== src/Scheduling/Scheduler/Tests.antt =====
-- A table of two plans of different priority, and a scheduler with one free slot for tasks.
use ai_devops.Common.{ℕ, String, true, none, some, List, [], ◌∷◌, map, ◌≡◌, refl}
use ai_devops.Common.Int.{ℤ}
use ai_devops.PlanSchema.Json.{end}
use ai_devops.Scheduling.Store.{
  PlanRow, get_all_plans, by_created, insert_recent, get_plan, get_plan_status, depends_on,
  is_completed, incomplete, no_names, are_plan_dependencies_completed,
}
use ai_devops.Scheduling.Scheduler.{
  Tasks, Scheduler, is_pending, only_pending, goes_first, insert_plan_by_key, sort_plans,
  get_pending_plans, active_plan_ids, check_resource_availability, verdict_of, should_dispatch_plan,
  is_dispatched, count_dispatch, decide, schedule,
}
use ai_devops.Scheduling.Scheduler.Cycle.{outcome, rule, schedule-rule}

abbrev waiting : String → ℕ → ℕ → PlanRow
waiting id priority created_at = record {
  plan_id = id;
  repo = "r";
  title = id;
  requested_by = "u";
  objective = "";
  constraints = end;
  context = end;
  version = "1";
  plan_depends_on = none;
  global_priority = ℤ.pos priority;
  status = "pending";
  requested_at = ℤ.pos 5;
  created_at = created_at;
  updated_at = 0;
}

abbrev two_plans : List PlanRow
two_plans = waiting "low" 1 9 ∷ waiting "high" 4 8 ∷ []

-- four of five tasks run
abbrev busy : Tasks
busy = record { running_count = 4; queued_count = 0; running_plans = some "p" ∷ none ∷ [] }

abbrev scheduler : Scheduler
scheduler = record {
  config = record { max_concurrent_tasks = ℤ.pos 5; max_concurrent_plans = ℤ.pos 3 };
  decision_log = [];
  last_scheduling_time = 0;
}

both_dispatched :
    map outcome (schedule two_plans busy 7 scheduler).1 ≡ ("high", true) ∷ ("low", true) ∷ []
unfolding schedule decide count_dispatch is_dispatched should_dispatch_plan verdict_of
    check_resource_availability active_plan_ids get_pending_plans sort_plans insert_plan_by_key
    goes_first only_pending is_pending get_all_plans by_created insert_recent get_plan
    get_plan_status depends_on is_completed incomplete no_names are_plan_dependencies_completed
both_dispatched = refl

schedule-rule_example :
    map outcome (schedule two_plans busy 7 scheduler).1
    ≡ map
        (rule two_plans (check_resource_availability scheduler.config busy).0)
        (get_pending_plans two_plans)
schedule-rule_example = schedule-rule two_plans busy 7 scheduler
