-- ===== src/PlanSchema/Print/SubtaskTrip.antt =====
-- A subtask that satisfies the schema is read back from its `to_dict`.
use ai_devops.Common.{
  String, List, [], ◌∷◌, map, Option, some, true, ◌≡◌, refl, arith, not, ltb, ◌≤◌, All,
}
use ai_devops.Common.Result.{ok}
use ai_devops.Common.Names.{mem}
use ai_devops.PlanSchema.Json.{obj, get}
use ai_devops.PlanSchema.Text.{strip}
use ai_devops.PlanSchema.Parse.{
  or_else, needed, needed_in, task_type_of, task_type_value, subtask_from_dict, text_length,
  prompt_max_chars, parse_subtasks, allowed_agents, allowed_efforts,
}
use ai_devops.PlanSchema.Parse.FieldLaws.{
  IsTrimmed, require_string-get, optional_string-get, optional_string_list-get,
}
use ai_devops.PlanSchema.Parse.SubtaskValid.{IsValidSubtask}
use ai_devops.PlanSchema.Print.{subtask_to_dict}
use ai_devops.PlanSchema.Types.{Subtask, RoutingDefaults, TaskType, Error}

task_type-IsTrimmed : (t : TaskType) → IsTrimmed (task_type_value t)
unfolding strip task_type_value
task_type-IsTrimmed TaskType.code_generation = record { stripped = refl; filled = refl }
task_type-IsTrimmed TaskType.code_review = record { stripped = refl; filled = refl }
task_type-IsTrimmed TaskType.bug_fix = record { stripped = refl; filled = refl }
task_type-IsTrimmed TaskType.refactor = record { stripped = refl; filled = refl }
task_type-IsTrimmed TaskType.documentation = record { stripped = refl; filled = refl }
task_type-IsTrimmed TaskType.test_generation = record { stripped = refl; filled = refl }
task_type-IsTrimmed TaskType.planning = record { stripped = refl; filled = refl }
task_type-IsTrimmed TaskType.incident_analysis = record { stripped = refl; filled = refl }

task_type_of-value : (t : TaskType) → task_type_of (some (task_type_value t)) ≡ ok t
unfolding task_type_of
task_type_of-value TaskType.code_generation = refl
task_type_of-value TaskType.code_review = refl
task_type_of-value TaskType.bug_fix = refl
task_type_of-value TaskType.refactor = refl
task_type_of-value TaskType.documentation = refl
task_type_of-value TaskType.test_generation = refl
task_type_of-value TaskType.planning = refl
task_type_of-value TaskType.incident_analysis = refl

or_else_own : (s : String) (b : Option String) → IsTrimmed s → or_else (some s) b ≡ some s
unfolding or_else
or_else_own s b v = rw v.filled

needed_own : (s : String) (e : Error) → IsTrimmed s → needed (some s) e ≡ ok s
unfolding needed
needed_own s e v = rw v.filled

needed_in_own :
    (allowed : List String) (s : String) (e : Error)
    → IsTrimmed s
    → mem s allowed ≡ true
    → needed_in allowed (some s) e ≡ ok s
unfolding needed_in
needed_in_own allowed s e v m = rw (v.filled, m)

not_long :
    (s : String)
    → text_length s ≤ prompt_max_chars
    → not (ltb prompt_max_chars (text_length s)) ≡ true
not_long s h = ground arith

-- A subtask that is valid by the rules of the schema (IsValidSubtask: trimmed texts, an id that is
-- an identifier, a known agent, effort and worktree strategy, and a prompt within its limit) is read
-- back as it was written, whatever the plan's defaults.
pub subtask_from_dict-to_dict :
    (t : Subtask) (routing : RoutingDefaults)
    → IsValidSubtask t
    → subtask_from_dict (subtask_to_dict t) routing ≡ ok t
unfolding subtask_from_dict subtask_to_dict get
subtask_from_dict-to_dict t routing v =
    let d = subtask_to_dict t in
    rw
      (
        require_string-get d "id" t.id v.id_trimmed refl,
        optional_string-get d "agent" t.agent v.agent_trimmed refl,
        optional_string-get d "model" t.model v.model_trimmed refl,
        optional_string-get d "effort" t.effort v.effort_trimmed refl,
        require_string-get d "worktreeStrategy" t.worktree_strategy v.strategy_trimmed refl,
        require_string-get d "prompt" t.prompt v.prompt_trimmed refl,
        optional_string_list-get d "dependsOn" t.depends_on v.deps_trimmed refl,
        optional_string_list-get d "filesHint" t.files_hint v.files_trimmed refl,
        optional_string_list-get d "definitionOfDone" t.definition_of_done v.done_trimmed refl,
        optional_string-get d "taskType" (task_type_value t.task_type)
            (task_type-IsTrimmed t.task_type) refl,
      )
      (rw (
        v.id_matches,
        or_else_own t.agent routing.agent v.agent_trimmed,
        or_else_own t.model routing.model v.model_trimmed,
        or_else_own t.effort routing.effort v.effort_trimmed,
        needed_in_own allowed_agents t.agent (Error.bad_agent t.id) v.agent_trimmed v.agent_allowed,
        needed_own t.model (Error.missing_model t.id) v.model_trimmed,
        needed_in_own allowed_efforts t.effort (Error.bad_effort t.id) v.effort_trimmed
            v.effort_allowed,
        v.strategy_allowed,
        not_long t.prompt v.prompt_short,
        task_type_of-value t.task_type,
        require_string-get d "title" t.title v.title_trimmed refl,
        require_string-get d "description" t.description v.description_trimmed refl,
      ))

-- The subtasks of a plan are read back in their order.
pub parse_subtasks-to_dict :
    (routing : RoutingDefaults) (ts : List Subtask)
    → All IsValidSubtask ts
    → parse_subtasks routing (map (λ t. obj (subtask_to_dict t)) ts) ≡ ok ts
unfolding parse_subtasks
parse_subtasks-to_dict routing [] v = refl
parse_subtasks-to_dict routing (t ∷ ts) v =
    rw (subtask_from_dict-to_dict t routing v.0, parse_subtasks-to_dict routing ts v.1)
