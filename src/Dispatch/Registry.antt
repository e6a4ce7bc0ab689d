-- ===== src/Dispatch/Registry.antt =====
-- What orchestrator/bin/dispatch.py reads of the task table and of the plans table.
pub mod Ready
pub mod Blocked
use ai_devops.Common.{
  ℕ, ◌+◌, String, Bool, true, false, Option, none, some, List, [], ◌∷◌, ◌++◌, map, str_eq,
  if◌then◌else◌, not, ◌||◌, ◌&&◌, ◌==◌, length,
}
use ai_devops.Common.Names.{mem}
use ai_devops.PlanSchema.Json.{Value, Fields, end, get, str, obj}
use ai_devops.PlanSchema.Graph.{ids}
use ai_devops.PlanSchema.Types.{Plan, Subtask}
use ai_devops.Scheduling.Store.{PlanRow, NewPlan, insert_plan, get_plan_status}
use ai_devops.Dispatch.Paths.{Env, any_of}
use ai_devops.Dispatch.Scope.{dict_or_empty}

-- What is read of a row of the task table: item.get("status") and item.get("metadata").
pub record TaskItem : Type 0 where
  pub status : Option String
  pub metadata : Value

-- _COMPLETED_STATUSES
abbrev pub completed_statuses : List String
completed_statuses = "ready" ∷ "merged" ∷ []

-- _extract_plan_metadata
unfoldable pub extract_plan_metadata : Env → Value → Fields
unfolding dict_or_empty
extract_plan_metadata env (str text) = elim (env.loads text) [
  | none ↦ end
  | some v ↦ dict_or_empty v
]
extract_plan_metadata env (obj fields) = fields
extract_plan_metadata env v = end

-- value == text
unfoldable pub is_text : Value → String → Bool
is_text (str s) text = str_eq s text
is_text v text = false

-- the status is one of the completed ones
unfoldable pub is_done : TaskItem → Bool
is_done item = elim item.status [ none ↦ false | some s ↦ mem s completed_statuses ]

-- metadata.get("planId") == plan_id
unfoldable pub of_plan : Env → String → TaskItem → Bool
unfolding extract_plan_metadata is_text
of_plan env plan_id item = is_text (get (extract_plan_metadata env item.metadata) "planId") plan_id

-- the id that one item of the plan adds to the set
unfoldable pub completed_id : List String → Bool → Value → List String
completed_id known done (str id) = if mem id known && done then id ∷ [] else []
completed_id known done v = []

-- the loop of ready_subtask_ids
unfoldable pub ready_ids : Env → String → List String → List TaskItem → List String
unfolding completed_id extract_plan_metadata of_plan is_done
ready_ids env plan_id known [] = []
ready_ids env plan_id known (item ∷ items) =
    let rest = ready_ids env plan_id known items in
    let id = get (extract_plan_metadata env item.metadata) "subtaskId" in
    if of_plan env plan_id item then completed_id known (is_done item) id ++ rest else rest

-- ready_subtask_ids: a set
unfoldable pub ready_subtask_ids : Env → Plan → List TaskItem → List String
unfolding ready_ids
ready_subtask_ids env plan items = ready_ids env plan.plan_id (ids plan.subtasks) items

-- A blocking reason: the dependency and its status, if the table has it.
pub record Reason : Type 0 where
  pub dependency : String
  pub found : Option String

-- the loop of can_dispatch
unfoldable pub blocking_reasons : List PlanRow → List String → List Reason
unfolding get_plan_status
blocking_reasons rows [] = []
blocking_reasons rows (dep ∷ deps) =
    let rest = blocking_reasons rows deps in
    let found = get_plan_status dep rows in
    elim found [
      | none ↦ record { dependency = dep; found = none } ∷ rest
      | some s ↦
          if str_eq s "completed" then rest else record { dependency = dep; found = some s } ∷ rest
    ]

unfoldable pub no_reasons : List Reason → Bool
no_reasons [] = true
no_reasons (r ∷ rs) = false

-- can_dispatch; `down`: init_db raises. The warning that then stands in the list is left out.
unfoldable pub can_dispatch : Bool → List PlanRow → Plan → Bool × List Reason
unfolding blocking_reasons no_reasons
can_dispatch down rows plan =
    if down
    then (true, [])
    else (let reasons = blocking_reasons rows plan.plan_depends_on in (no_reasons reasons, reasons))

-- the dictionary plan_record
unfoldable pub plan_record : Plan → NewPlan
plan_record plan = record {
  plan_id = plan.plan_id;
  repo = plan.repo;
  title = plan.title;
  requested_by = plan.requested_by;
  requested_at = plan.requested_at;
  objective = some plan.objective;
  constraints = some plan.constraints;
  context = some plan.context;
  version = plan.version;
  plan_depends_on = some plan.plan_depends_on;
  global_priority = some plan.global_priority;
  status = some "pending";
  created_at = none;
}

-- register_plan
unfoldable pub register_plan : Bool → Plan → ℕ → List PlanRow → List PlanRow
unfolding plan_record insert_plan
register_plan down plan now rows = if down then rows else insert_plan (plan_record plan) now rows

-- plan_tasks
unfoldable pub plan_tasks : Env → String → List TaskItem → List TaskItem
unfolding of_plan
plan_tasks env plan_id [] = []
plan_tasks env plan_id (item ∷ items) =
    let rest = plan_tasks env plan_id items in
    if of_plan env plan_id item then item ∷ rest else rest

-- task.get("status", "unknown"), and whether it is one of the names; a status that is null is none
unfoldable pub has_status : List String → TaskItem → Bool
has_status names item = elim item.status [ none ↦ false | some s ↦ mem s names ]

-- the sum of the counts of the names
unfoldable pub count_status : List String → List TaskItem → ℕ
unfolding has_status
count_status names [] = 0
count_status names (item ∷ items) =
    (if has_status names item then 1 else 0) + count_status names items

-- what update_plan_status_from_tasks computes and returns
unfoldable pub plan_status_from_tasks : Env → Plan → List TaskItem → String
unfolding plan_tasks count_status any_of has_status
plan_status_from_tasks env plan items =
    let tasks = plan_tasks env plan.plan_id items in
    if length tasks == 0
    then "pending"
    else if count_status completed_statuses tasks == length tasks
    then "completed"
    else if any_of (has_status ("running" ∷ "pr_created" ∷ "retrying" ∷ [])) tasks
    then "running"
    else if any_of (has_status ("failed" ∷ "agent_dead" ∷ "blocked" ∷ [])) tasks
    then "failed"
    else "pending"
