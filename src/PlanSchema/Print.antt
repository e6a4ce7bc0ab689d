-- ===== src/PlanSchema/Print.antt =====
-- The writers of orchestrator/bin/plan_schema.py: `to_dict` of RoutingDefaults, Subtask and Plan.
pub mod SubtaskTrip
pub mod RoutingTrip
pub mod PlanTrip
mod Tests
use ai_devops.Common.{
  String, List, [], ◌∷◌, map, Option, none, some, Bool, true, false, if◌then◌else◌,
}
use ai_devops.Common.Int.{ℤ, is_zero}
use ai_devops.PlanSchema.Json.{Value, int, str, arr, obj, Items, of_list, Fields, end, field}
use ai_devops.PlanSchema.Text.{is_empty}
use ai_devops.PlanSchema.Parse.{task_type_value}
use ai_devops.PlanSchema.Types.{Subtask, RoutingDefaults, Plan}

-- list(xs)
abbrev pub texts : List String → Value
texts xs = arr (of_list (map str xs))

-- Subtask.to_dict
unfoldable pub subtask_to_dict : Subtask → Fields
subtask_to_dict t = field "id" (str t.id) (
    field "title" (str t.title) (
      field "description" (str t.description) (
        field "agent" (str t.agent) (
          field "model" (str t.model) (
            field "effort" (str t.effort) (
              field "worktreeStrategy" (str t.worktree_strategy) (
                field "dependsOn" (texts t.depends_on) (
                  field "filesHint" (texts t.files_hint) (
                    field "prompt" (str t.prompt) (
                      field "definitionOfDone" (texts t.definition_of_done)
                        (field "taskType" (str (task_type_value t.task_type)) end)))))))))))

-- if value: payload[key] = value
optional_field : String → Option String → Fields → Fields
optional_field key none rest = rest
optional_field key (some s) rest = if is_empty s then rest else field key (str s) rest

-- RoutingDefaults.to_dict
unfoldable pub routing_to_dict : RoutingDefaults → Fields
unfolding optional_field
routing_to_dict r =
    optional_field "agent" r.agent
      (optional_field "model" r.model (optional_field "effort" r.effort end))

pub routing_part : Fields → Fields → Fields
routing_part end rest = rest
routing_part (field k v fs) rest = field "routing" (obj (field k v fs)) rest

pub depends_part : List String → Fields → Fields
depends_part [] rest = rest
depends_part (x ∷ xs) rest = field "planDependsOn" (texts (x ∷ xs)) rest

pub priority_part : ℤ → Fields
priority_part n = if is_zero n then end else field "globalPriority" (int n) end

-- to_dict of the class Plan
unfoldable pub plan_to_dict : Plan → Fields
unfolding routing_part depends_part priority_part
plan_to_dict p = field "planId" (str p.plan_id) (
    field "repo" (str p.repo) (
      field "title" (str p.title) (
        field "requestedBy" (str p.requested_by) (
          field "requestedAt" (int p.requested_at) (
            field "objective" (str p.objective) (
              field "constraints" (obj p.constraints) (
                field "context" (obj p.context) (
                  field "subtasks" (arr (of_list (map (λ t. obj (subtask_to_dict t)) p.subtasks))) (
                    field "version" (str p.version) (
                      routing_part (routing_to_dict p.routing)
                        (depends_part p.plan_depends_on (priority_part p.global_priority))))))))))))
