-- ===== src/PlanSchema/Types.antt =====
-- The data of orchestrator/bin/plan_schema.py and the exceptions that its functions raise.
use ai_devops.Common.{ℕ, String, Option, List, Bool, true, false}
use ai_devops.Common.Int.{ℤ}
use ai_devops.PlanSchema.Json.{Fields}

-- TaskType
pub data TaskType : Type 0 where
  code_generation code_review bug_fix refactor : TaskType
  documentation test_generation planning incident_analysis : TaskType

-- Subtask
pub record Subtask : Type 0 where
  pub id : String
  pub title : String
  pub description : String
  pub agent : String
  pub model : String
  pub effort : String
  pub worktree_strategy : String
  pub depends_on : List String
  pub files_hint : List String
  pub prompt : String
  pub definition_of_done : List String
  pub task_type : TaskType

-- RoutingDefaults
pub record RoutingDefaults : Type 0 where
  pub agent : Option String
  pub model : Option String
  pub effort : Option String

-- The class of a whole plan
pub record Plan : Type 0 where
  pub plan_id : String
  pub repo : String
  pub title : String
  pub requested_by : String
  pub requested_at : ℤ
  pub objective : String
  pub constraints : Fields
  pub context : Fields
  pub subtasks : List Subtask
  pub routing : RoutingDefaults
  pub version : String
  pub plan_depends_on : List String
  pub global_priority : ℤ

-- One constructor for each `raise` of the file, with the values that its message shows, and the
-- exceptions of the language that the code lets pass.
pub data Error : Type 0 where
  missing_string invalid_string invalid_object invalid_string_array : String → Error
  unsupported_agent unsupported_effort : String → Error
  invalid_subtask_id bad_agent missing_model bad_effort : String → Error
  bad_worktree_strategy : String → String → Error
  prompt_too_long : String → ℕ → Error
  plan_not_object bad_requested_at no_subtasks subtask_not_object : Error
  invalid_plan_id : String → Error
  duplicate_ids cycle : Error
  unknown_dependency : String → String → Error
  -- ValueError of `TaskType(raw)`
  value_error : String → Error
  -- KeyError of `d[k]`
  key_error : String → Error
  -- no exception of the program: the fuel of a loop ran out
  out_of_fuel : Error

-- Whether the exception is an `InvalidPlan`.
unfoldable pub is_invalid_plan : Error → Bool
is_invalid_plan (value_error s) = false
is_invalid_plan (key_error s) = false
is_invalid_plan out_of_fuel = false
is_invalid_plan e = true
