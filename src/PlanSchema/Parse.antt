-- ===== src/PlanSchema/Parse.antt =====
-- The readers of orchestrator/bin/plan_schema.py: `_require_string` and its kin, the `from_dict`
-- of RoutingDefaults, Subtask and Plan, and `load_plan` behind the JSON parser.
pub mod FieldLaws
pub mod SubtaskValid
pub mod PlanValid
use ai_devops.Common.{
  ℕ, zero, suc, String, List, [], ◌∷◌, map, Option, none, some, Bool, true, false, ◌&&◌, not, ltb,
  if◌then◌else◌, str_eq, length, ◌==◌,
}
use ai_devops.Common.Names.{mem}
use ai_devops.Common.Int.{ℤ, pos}
use ai_devops.Common.Result.{Result, ok, err, ◌>>=◌, ◌>>◌}
use ai_devops.PlanSchema.Json.{
  Value, null, bool, int, float, str, arr, obj, Items, Fields, end, get, has, to_list,
}
use ai_devops.PlanSchema.Text.{strip, is_empty, identifier_match}
use ai_devops.PlanSchema.Graph.{validate_dependencies}
use ai_devops.PlanSchema.Types.{Subtask, RoutingDefaults, Plan, TaskType, Error}

abbrev pub allowed_agents : List String
allowed_agents = "codex" ∷ "claude" ∷ []

abbrev pub allowed_efforts : List String
allowed_efforts = "low" ∷ "medium" ∷ "high" ∷ []

abbrev pub allowed_worktree_strategies : List String
allowed_worktree_strategies = "shared" ∷ "isolated" ∷ []

abbrev pub prompt_max_chars : ℕ
prompt_max_chars = 20000

-- if not test: raise error
abbrev pub guard : Bool → Error → Result Error (Unit {0})
guard true e = ok tt
guard false e = err e

-- len(s): the number of characters
unfoldable pub text_length : String → ℕ
text_length String.[] = 0
text_length (String.◌∷◌ c s) = suc (text_length s)

-- not value.strip()
abbrev pub is_blank : String → Bool
is_blank s = is_empty (strip s)

string_of : String → Value → Result Error String
string_of key (str s) = if is_blank s then err (Error.missing_string key) else ok (strip s)
string_of key v = err (Error.missing_string key)

-- _require_string
pub require_string : Fields → String → Result Error String
unfolding string_of
require_string d key = string_of key (get d key)

optional_of : String → Value → Result Error (Option String)
optional_of key null = ok none
optional_of key (str s) = if is_blank s then err (Error.invalid_string key) else ok (some (strip s))
optional_of key v = err (Error.invalid_string key)

-- _optional_string
unfoldable pub optional_string : Fields → String → Result Error (Option String)
unfolding optional_of
optional_string d key = optional_of key (get d key)

unfoldable pub dict_of : String → Value → Result Error Fields
dict_of key null = ok end
dict_of key (obj fs) = ok fs
dict_of key v = err (Error.invalid_object key)

-- _optional_dict
unfoldable pub optional_dict : Fields → String → Result Error Fields
unfolding dict_of
optional_dict d key = dict_of key (get d key)

-- any(not isinstance(item, str) or not item.strip() for item in value), else the stripped items
strings_of : String → List Value → Result Error (List String)
strings_of key [] = ok []
strings_of key (str s ∷ vs) = do
  rest ← strings_of key vs
  if is_blank s then err (Error.invalid_string_array key) else ok (strip s ∷ rest)
strings_of key (v ∷ vs) = err (Error.invalid_string_array key)

unfoldable pub list_of : String → Value → Result Error (List String)
unfolding strings_of
list_of key null = ok []
list_of key (arr items) = strings_of key (to_list items)
list_of key v = err (Error.invalid_string_array key)

-- _optional_string_list
unfoldable pub optional_string_list : Fields → String → Result Error (List String)
unfolding list_of
optional_string_list d key = list_of key (get d key)

-- if value and value not in allowed: raise
unfoldable pub check_default :
    List String → (String → Error) → Option String → Result Error (Unit {0})
check_default allowed e none = ok tt
check_default allowed e (some s) = if is_empty s then ok tt else guard (mem s allowed) (e s)

-- RoutingDefaults.from_dict
unfoldable pub routing_from_dict : Fields → Result Error RoutingDefaults
unfolding check_default
routing_from_dict d = do
  agent ← optional_string d "agent"
  model ← optional_string d "model"
  effort ← optional_string d "effort"
  check_default allowed_agents Error.unsupported_agent agent
  check_default allowed_efforts Error.unsupported_effort effort
  ok (record { agent = agent; model = model; effort = effort })

-- a or b, of two optional texts: the empty text counts as missing
unfoldable pub or_else : Option String → Option String → Option String
or_else none b = b
or_else (some s) b = if is_empty s then b else some s

-- if not value: raise error
unfoldable pub needed : Option String → Error → Result Error String
needed none e = err e
needed (some s) e = if is_empty s then err e else ok s

-- if not value or value not in allowed: raise error
unfoldable pub needed_in : List String → Option String → Error → Result Error String
unfolding needed
needed_in allowed o e = do s ← needed o e; guard (mem s allowed) e; ok s

-- the value of a TaskType
unfoldable pub task_type_value : TaskType → String
task_type_value TaskType.code_generation = "code_generation"
task_type_value TaskType.code_review = "code_review"
task_type_value TaskType.bug_fix = "bug_fix"
task_type_value TaskType.refactor = "refactor"
task_type_value TaskType.documentation = "documentation"
task_type_value TaskType.test_generation = "test_generation"
task_type_value TaskType.planning = "planning"
task_type_value TaskType.incident_analysis = "incident_analysis"

abbrev task_types : List TaskType
task_types =
    TaskType.code_generation ∷ TaskType.code_review ∷ TaskType.bug_fix ∷ TaskType.refactor
    ∷ TaskType.documentation ∷ TaskType.test_generation ∷ TaskType.planning
    ∷ TaskType.incident_analysis ∷ []

find_task_type : String → List TaskType → Result Error TaskType
unfolding task_type_value
find_task_type raw [] = err (Error.value_error raw)
find_task_type raw (t ∷ ts) = if str_eq raw (task_type_value t) then ok t else find_task_type raw ts

-- TaskType(raw) if raw else TaskType.CODE_GENERATION
unfoldable pub task_type_of : Option String → Result Error TaskType
unfolding find_task_type
task_type_of none = ok TaskType.code_generation
task_type_of (some raw) =
    if is_empty raw then ok TaskType.code_generation else find_task_type raw task_types

-- Subtask.from_dict
unfoldable pub subtask_from_dict : Fields → RoutingDefaults → Result Error Subtask
unfolding or_else needed_in text_length
subtask_from_dict d routing = do
  id ← require_string d "id"
  guard (identifier_match id) (Error.invalid_subtask_id id)
  own_agent ← optional_string d "agent"
  own_model ← optional_string d "model"
  own_effort ← optional_string d "effort"
  agent ← needed_in allowed_agents (or_else own_agent routing.agent) (Error.bad_agent id)
  model ← needed (or_else own_model routing.model) (Error.missing_model id)
  effort ← needed_in allowed_efforts (or_else own_effort routing.effort) (Error.bad_effort id)
  worktree_strategy ← require_string d "worktreeStrategy"
  guard (mem worktree_strategy allowed_worktree_strategies)
      (Error.bad_worktree_strategy id worktree_strategy)
  prompt ← require_string d "prompt"
  guard (not (ltb prompt_max_chars (text_length prompt)))
      (Error.prompt_too_long id (text_length prompt))
  depends_on ← optional_string_list d "dependsOn"
  files_hint ← optional_string_list d "filesHint"
  definition_of_done ← optional_string_list d "definitionOfDone"
  raw_task_type ← optional_string d "taskType"
  task_type ← task_type_of raw_task_type
  title ← require_string d "title"
  description ← require_string d "description"
  ok (record {
    id = id;
    title = title;
    description = description;
    agent = agent;
    model = model;
    effort = effort;
    worktree_strategy = worktree_strategy;
    depends_on = depends_on;
    files_hint = files_hint;
    prompt = prompt;
    definition_of_done = definition_of_done;
    task_type = task_type;
  })

-- isinstance(value, int), which holds of the Booleans too: they are the numbers 0 and 1
unfoldable pub as_int : Value → Option ℤ
as_int (int n) = some n
as_int (bool true) = some (pos 1)
as_int (bool false) = some (pos 0)
as_int v = none

unfoldable pub required_int : Value → Result Error ℤ
unfolding as_int
required_int v = elim (as_int v) [ none ↦ err Error.bad_requested_at | some n ↦ ok n ]

-- a non-empty array
unfoldable pub raw_subtasks_of : Value → Result Error (List Value)
raw_subtasks_of (arr (Items.cons v vs)) = ok (v ∷ to_list vs)
raw_subtasks_of v = err Error.no_subtasks

-- Subtask.from_dict(item, routing) for item in raw_subtasks if isinstance(item, dict)
unfoldable pub parse_subtasks : RoutingDefaults → List Value → Result Error (List Subtask)
parse_subtasks routing [] = ok []
parse_subtasks routing (obj d ∷ vs) = do
  t ← subtask_from_dict d routing
  ts ← parse_subtasks routing vs
  ok (t ∷ ts)
parse_subtasks routing (v ∷ vs) = parse_subtasks routing vs

-- data["globalPriority"] if it is there and an integer, else 0
unfoldable pub priority_of : Fields → ℤ
unfolding as_int
priority_of d =
    if has d "globalPriority"
    then elim (as_int (get d "globalPriority")) [ none ↦ pos 0 | some n ↦ n ]
    else pos 0

unfoldable pub plan_of_fields : Fields → Result Error Plan
unfolding required_int raw_subtasks_of parse_subtasks priority_of
plan_of_fields d = do
  plan_id ← require_string d "planId"
  guard (identifier_match plan_id) (Error.invalid_plan_id plan_id)
  requested_at ← required_int (get d "requestedAt")
  routing_fields ← optional_dict d "routing"
  routing ← routing_from_dict routing_fields
  raw_subtasks ← raw_subtasks_of (get d "subtasks")
  subtasks ← parse_subtasks routing raw_subtasks
  guard (length subtasks == length raw_subtasks) Error.subtask_not_object
  validate_dependencies subtasks
  plan_depends_on ← optional_string_list d "planDependsOn"
  repo ← require_string d "repo"
  title ← require_string d "title"
  requested_by ← require_string d "requestedBy"
  objective ← require_string d "objective"
  constraints ← optional_dict d "constraints"
  context ← optional_dict d "context"
  version ← require_string d "version"
  ok (record {
    plan_id = plan_id;
    repo = repo;
    title = title;
    requested_by = requested_by;
    requested_at = requested_at;
    objective = objective;
    constraints = constraints;
    context = context;
    subtasks = subtasks;
    routing = routing;
    version = version;
    plan_depends_on = plan_depends_on;
    global_priority = priority_of d;
  })

-- from_dict of the class Plan
unfoldable pub plan_from_dict : Value → Result Error Plan
unfolding plan_of_fields
plan_from_dict (obj d) = plan_of_fields d
plan_from_dict v = err Error.plan_not_object
