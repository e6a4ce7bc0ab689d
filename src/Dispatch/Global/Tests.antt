-- ===== src/Dispatch/Global/Tests.antt =====
-- Two plans for the scheduler, with room for one.
use ai_devops.Common.{ℕ, String, false, none, List, [], ◌∷◌, ◌≡◌, str_eq, if◌then◌else◌}
use ai_devops.Common.Int.{ℤ}
use ai_devops.Common.Names.{count}
use ai_devops.PlanSchema.Json.{end}
use ai_devops.PlanSchema.Graph.Tests.{three}
use ai_devops.PlanSchema.Types.{Plan}
use ai_devops.Scheduling.Scheduler.{SchedulerConfig}
use ai_devops.Dispatch.Paths.{Env}
use ai_devops.Dispatch.Global.{Base, Turn, dispatch_with_global_scheduler}
use ai_devops.Dispatch.Global.Partition.{listed, plan_ids, plans_listed}

abbrev env : Plan → Env
env p = record {
  shown = λ v. "value";
  loads = λ s. none;
  relative = λ s. s;
  resolve = λ s. none;
  fnmatch = str_eq;
}

abbrev plan : String → ℕ → Plan
plan id priority = record {
  plan_id = id;
  repo = "r";
  title = "title";
  requested_by = "u";
  requested_at = ℤ.pos 5;
  objective = "o";
  constraints = end;
  context = end;
  subtasks = three;
  routing = record { agent = none; model = none; effort = none };
  version = "1";
  plan_depends_on = [];
  global_priority = ℤ.pos priority;
}

abbrev plans : List Plan
plans = plan "low" 1 ∷ plan "high" 5 ∷ []

abbrev cfg : SchedulerConfig
cfg = record { max_concurrent_tasks = ℤ.pos 2; max_concurrent_plans = ℤ.pos 2 }

abbrev turn : Plan → Turn
turn p = record {
  outside = record { down = false; now = 9 };
  items = [];
  tasks = record {
    running_count = if str_eq p.plan_id "high" then 0 else 2;
    queued_count = 0;
    running_plans = [];
  };
}

abbrev base : Base
base = record { queue = []; rows = []; plans = λ k. none }

plans_listed_example :
    ((k : String)
      → listed k (dispatch_with_global_scheduler env cfg turn plans base).1
        ≡ count k (plan_ids plans))
    × ((dispatch_with_global_scheduler env cfg turn plans base).1.total_plans ≡ 2)
plans_listed_example = plans_listed env cfg turn plans base
