-- ===== src/PlanSchema/Print/Tests.antt =====
-- Reading and writing at a plan of three subtasks, and the theorems about them there.
use ai_devops.Common.{String, List, [], ◌∷◌, none, some, ◌≡◌, refl, true, arith, All}
use ai_devops.Common.Int.{pos, negsuc}
use ai_devops.Common.Result.{ok}
use ai_devops.PlanSchema.Json.{obj, end, field, bool}
use ai_devops.PlanSchema.Types.{Plan, RoutingDefaults}
use ai_devops.PlanSchema.Text.{identifier_match, strip}
use ai_devops.PlanSchema.Graph.Tests.{sample, three, three_valid}
use ai_devops.PlanSchema.Parse.{subtask_from_dict, plan_from_dict, text_length, check_default}
use ai_devops.PlanSchema.Parse.FieldLaws.{IsTrimmed}
use ai_devops.PlanSchema.Parse.SubtaskValid.{
  IsValidSubtask, TrimmedRouting, subtask_from_dict-IsValid,
}
use ai_devops.PlanSchema.Parse.PlanValid.{IsValidPlan, plan_from_dict-IsValid}
use ai_devops.PlanSchema.Print.{subtask_to_dict, plan_to_dict}
use ai_devops.PlanSchema.Print.SubtaskTrip.{subtask_from_dict-to_dict}
use ai_devops.PlanSchema.Print.PlanTrip.{plan_round_trip, plan_from_dict-to_dict}

abbrev routing : RoutingDefaults
routing = record { agent = some "claude"; model = none; effort = none }

routing_trimmed : TrimmedRouting routing
unfolding strip
routing_trimmed = record {
  agent = record { stripped = refl; filled = refl };
  model = tt;
  effort = tt;
}

build-IsTrimmed : IsTrimmed "build"
unfolding strip
build-IsTrimmed = record { stripped = refl; filled = refl }

test-IsTrimmed : IsTrimmed "test"
unfolding strip
test-IsTrimmed = record { stripped = refl; filled = refl }

sample_valid :
    (id : String) (deps : List String)
    → IsTrimmed id
    → identifier_match id ≡ true
    → All IsTrimmed deps
    → IsValidSubtask (sample id deps)
unfolding strip text_length
sample_valid id deps t m d = record {
  id_trimmed = t;
  id_matches = m;
  title_trimmed = record { stripped = refl; filled = refl };
  description_trimmed = record { stripped = refl; filled = refl };
  agent_trimmed = record { stripped = refl; filled = refl };
  agent_allowed = refl;
  model_trimmed = record { stripped = refl; filled = refl };
  effort_trimmed = record { stripped = refl; filled = refl };
  effort_allowed = refl;
  strategy_trimmed = record { stripped = refl; filled = refl };
  strategy_allowed = refl;
  prompt_trimmed = record { stripped = refl; filled = refl };
  prompt_short = omega arith;
  deps_trimmed = d;
  files_trimmed = tt;
  done_trimmed = tt;
}

three_valid_subtasks : All IsValidSubtask three
unfolding strip identifier_match
three_valid_subtasks = (
  sample_valid "ship" ("build" ∷ "test" ∷ []) (record { stripped = refl; filled = refl }) refl
      (build-IsTrimmed, (test-IsTrimmed, tt)),
  (
    sample_valid "build" [] build-IsTrimmed refl tt,
    (sample_valid "test" ("build" ∷ []) test-IsTrimmed refl (build-IsTrimmed, tt), tt),
  ),
)

build_valid : IsValidSubtask (sample "build" [])
build_valid = three_valid_subtasks.1.0

abbrev sample_plan : Plan
sample_plan = record {
  plan_id = "plan-1";
  repo = "ai-devops";
  title = "title";
  requested_by = "zoe";
  requested_at = pos 1700000000000;
  objective = "ship it";
  constraints = field "strict" (bool true) end;
  context = end;
  subtasks = three;
  routing = routing;
  version = "1.0";
  plan_depends_on = "build" ∷ [];
  global_priority = negsuc 2;
}

sample_plan_valid : IsValidPlan sample_plan
unfolding strip identifier_match
sample_plan_valid = record {
  id_trimmed = record { stripped = refl; filled = refl };
  id_matches = refl;
  repo_trimmed = record { stripped = refl; filled = refl };
  title_trimmed = record { stripped = refl; filled = refl };
  requester_trimmed = record { stripped = refl; filled = refl };
  objective_trimmed = record { stripped = refl; filled = refl };
  version_trimmed = record { stripped = refl; filled = refl };
  subtasks_valid = three_valid_subtasks;
  some_subtask = λ e. cc e;
  graph_valid = three_valid;
  routing_trimmed = routing_trimmed;
  agent_checked = unfold check_default in refl;
  effort_checked = unfold check_default in refl;
  depends_trimmed = (build-IsTrimmed, tt);
}

sample_plan_read : plan_from_dict (obj (plan_to_dict sample_plan)) ≡ ok sample_plan
sample_plan_read = plan_from_dict-to_dict sample_plan sample_plan_valid

plan_from_dict-IsValid_example : IsValidPlan sample_plan
plan_from_dict-IsValid_example =
    plan_from_dict-IsValid (obj (plan_to_dict sample_plan)) sample_plan_read

plan_round_trip_example : plan_from_dict (obj (plan_to_dict sample_plan)) ≡ ok sample_plan
plan_round_trip_example = plan_round_trip (obj (plan_to_dict sample_plan)) sample_plan_read

subtask_from_dict-to_dict_example :
    subtask_from_dict (subtask_to_dict (sample "build" [])) routing ≡ ok (sample "build" [])
subtask_from_dict-to_dict_example =
    subtask_from_dict-to_dict (sample "build" []) routing build_valid

subtask_from_dict-IsValid_example : IsValidSubtask (sample "build" [])
subtask_from_dict-IsValid_example =
    subtask_from_dict-IsValid (subtask_to_dict (sample "build" [])) routing routing_trimmed
      (subtask_from_dict-to_dict (sample "build" []) routing build_valid)
