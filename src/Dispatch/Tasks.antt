-- ===== src/Dispatch/Tasks.antt =====
-- The tasks that orchestrator/bin/dispatch.py queues, and the archive of the subtasks.
use ai_devops.Common.{ℕ, String, none, some, List, [], ◌∷◌, map, str_eq, if◌then◌else◌, concat}
use ai_devops.Common.Int.{pos}
use ai_devops.Common.Assoc.{Assoc, lookup, insert}
use ai_devops.PlanSchema.Json.{
  Value, Fields, end, field, get, has, str, obj, arr, int, null, of_list,
}
use ai_devops.PlanSchema.Text.{sanitize_identifier}
use ai_devops.PlanSchema.Types.{Plan, Subtask}
use ai_devops.PlanSchema.Print.{subtask_to_dict}
use ai_devops.Dispatch.Paths.{Env, constraint_path_list}
use ai_devops.Dispatch.Scope.{dict_or_empty, no_fields}

-- payload[key] = value
unfoldable pub put_field : String → Value → Fields → Fields
put_field key v end = field key v end
put_field key v (field k w rest) =
    if str_eq k key then field k v rest else field k w (put_field key v rest)

abbrev pub texts : List String → Value
texts xs = arr (of_list (map str xs))

-- execution_task_id
unfoldable pub execution_task_id : Plan → Subtask → String
execution_task_id plan t = sanitize_identifier (concat plan.plan_id (concat "-" t.id))

-- _build_task_spec
unfoldable pub build_task_spec : Env → Plan → Subtask → Fields
unfolding dict_or_empty no_fields put_field
build_task_spec env plan t =
    let source = dict_or_empty (get plan.context "taskSpec") in
    let rules = if no_fields source then plan.constraints else source in
    put_field "definitionOfDone" (texts t.definition_of_done) (
      put_field "mustTouch"
        (texts (constraint_path_list env rules ("mustTouch" ∷ "requiredTouchedPaths" ∷ [])))
        (put_field "forbiddenPaths"
          (texts (constraint_path_list env rules ("forbiddenPaths" ∷ "blockedPaths" ∷ [])))
          (put_field "allowedPaths" (texts (constraint_path_list env rules ("allowedPaths" ∷ []))) (
            put_field "filesHint" (texts t.files_hint) (
              put_field "subtaskTitle" (str t.title) (
                put_field "subtaskId" (str t.id) (
                  put_field "planId" (str plan.plan_id)
                    (put_field "repo" (str plan.repo) source))))))))

-- the value of "metadata"
unfoldable pub task_metadata : Env → Plan → Subtask → Fields
unfolding build_task_spec
task_metadata env plan t = field "planId" (str plan.plan_id) (
    field "subtaskId" (str t.id) (
      field "dependsOn" (texts t.depends_on) (
        field "worktreeStrategy" (str t.worktree_strategy) (
          field "filesHint" (texts t.files_hint) (
            field "plannedBy" (str "zoe") (
              field "definitionOfDone" (texts t.definition_of_done) (
                field "planVersion" (str plan.version) (
                  field "objective" (str plan.objective) (
                    field "constraints" (obj plan.constraints) (
                      field "context" (obj plan.context)
                        (field "taskSpec" (obj (build_task_spec env plan t)) end)))))))))))

-- build_execution_task
unfoldable pub build_execution_task : Env → Plan → Subtask → Fields
unfolding execution_task_id task_metadata
build_execution_task env plan t = field "id" (str (execution_task_id plan t)) (
    field "repo" (str plan.repo) (
      field "title" (str t.title) (
        field "description" (str t.description) (
          field "agent" (str t.agent) (
            field "model" (str t.model) (
              field "effort" (str t.effort) (
                field "prompt" (str t.prompt) (
                  field "requested_by" (str plan.requested_by) (
                    field "requested_at" (int plan.requested_at)
                      (field "metadata" (obj (task_metadata env plan t)) end))))))))))

-- An entry of the dispatch state.
pub record Entry : Type 0 where
  pub state : String
  pub queued_task_id : String
  pub queued_at : ℕ

-- payload["dispatch"] of a queued subtask
unfoldable pub dispatch_value : Entry → Value
dispatch_value e = obj (
    field "state" (str e.state)
      (field "queuedTaskId" (str e.queued_task_id) (field "queuedAt" (int (pos e.queued_at)) end)))

-- the "dispatch" of a subtask that waits
abbrev pub planned : Value
planned =
    obj (field "state" (str "planned") (field "queuedTaskId" null (field "queuedAt" null end)))

-- payload = subtask.to_dict(), with the plan's id
unfoldable pub archive_payload : Plan → Subtask → Fields
unfolding put_field
archive_payload plan t = put_field "planId" (str plan.plan_id) (subtask_to_dict t)

-- update_subtask_archive
unfoldable pub update_subtask_archive : Plan → Subtask → Entry → Assoc Fields → Assoc Fields
unfolding archive_payload put_field dispatch_value
update_subtask_archive plan t e archive =
    let payload : Fields = elim (lookup t.id archive) [
      | none ↦ archive_payload plan t
      | some old ↦ old
    ] in
    insert t.id (put_field "dispatch" (dispatch_value e) payload) archive

-- archive_subtasks
unfoldable pub archive_subtasks : Plan → List Subtask → Assoc Fields → Assoc Fields
unfolding archive_payload put_field
archive_subtasks plan [] archive = archive
archive_subtasks plan (t ∷ ts) archive =
    let dispatch : Value = elim (lookup t.id archive) [
      | none ↦ planned
      | some old ↦ if has old "dispatch" then get old "dispatch" else obj end
    ] in
    archive_subtasks plan ts
      (insert t.id (put_field "dispatch" dispatch (archive_payload plan t)) archive)
