-- ===== src/Dispatch/Tests.antt =====
-- A plan of three subtasks, dispatched to workers that complete what is queued.
use ai_devops.Common.{
  ℕ, suc, ◌≤◌, ◌<◌, map, String, true, false, none, some, List, [], ◌∷◌, ◌≡◌, refl, sym, ap, ◌∙◌,
  ◌↔◌, ◌⊎◌, ◌≢◌, inl, inr, All, length, str_eq, if◌then◌else◌, eq_iff, arith, Bool-cases, subst,
}
use ai_devops.Common.Int.{ℤ}
use ai_devops.Common.Names.{mem, distinct}
use ai_devops.Common.Assoc.{lookup}
use ai_devops.Common.Result.{ok}
use ai_devops.PlanSchema.Json.{end, field, arr, cons, nil, str, obj, get}
use ai_devops.PlanSchema.Text.{sanitize_identifier}
use ai_devops.PlanSchema.Graph.{ids, topologically_sorted_subtasks}
use ai_devops.PlanSchema.Graph.Run.{IsTopologicalOrder}
use ai_devops.PlanSchema.Graph.Tests.{sample, three, three_valid, three_sorted}
use ai_devops.PlanSchema.Types.{Plan, Subtask}
use ai_devops.Scheduling.Store.{are_plan_dependencies_completed}
use ai_devops.Dispatch.Paths.{Env, constraint_path_list, values_under, stripped, items_of, dedup}
use ai_devops.Dispatch.Scope.{validate_subtask_scope, no_paths}
use ai_devops.Dispatch.Scope.Exact.{Unscoped, InScope, scope_iff}
use ai_devops.Dispatch.Registry.{
  TaskItem, ready_subtask_ids, ready_ids, can_dispatch, blocking_reasons, no_reasons, register_plan,
  completed_statuses, plan_tasks, plan_status_from_tasks, has_status,
}
use ai_devops.Dispatch.Registry.Ready.{built_task-ready}
use ai_devops.Dispatch.Registry.Blocked.{register-can_dispatch}
use ai_devops.Dispatch.Tasks.{
  task_metadata, build_task_spec, execution_task_id, build_execution_task,
}
use ai_devops.Dispatch.Queue.{
  Site, Outside, Poll, is_queued, all_in, load_dispatch_state, finish, queue_subtask,
  dispatch_ready_subtasks, watch_and_dispatch,
}
use ai_devops.Dispatch.Queue.Select.{is_due, selected, queue_until}
use ai_devops.Dispatch.Queue.Outcome.{Ends, dispatch_now-sorted, ready-now, dispatch_outcome}
use ai_devops.Dispatch.Queue.Files.{file_of}
use ai_devops.Dispatch.Queue.History.{site_at}
use ai_devops.Dispatch.Queue.Again.{IsIdle, dispatch_again}
use ai_devops.Dispatch.Queue.Archived.{SaysQueued, dispatch_archives}
use ai_devops.Dispatch.Queue.Rounds.{watch_finishes}
use ai_devops.Dispatch.Queue.Turn.{IsResponsive}
use ai_devops.Dispatch.Status.Computed.{status-completed}

abbrev plan : Plan
plan = record {
  plan_id = "p1";
  repo = "r";
  title = "title";
  requested_by = "u";
  requested_at = ℤ.pos 5;
  objective = "o";
  constraints = end;
  context = end;
  subtasks = three;
  routing = record { agent = none; model = none; effort = none };
  version = "1";
  plan_depends_on = [];
  global_priority = ℤ.pos 0;
}

abbrev ship : Subtask
ship = sample "ship" ("build" ∷ "test" ∷ [])

abbrev build : Subtask
build = sample "build" []

abbrev test : Subtask
test = sample "test" ("build" ∷ [])

abbrev no_json : Env
no_json = record {
  shown = λ v. "value";
  loads = λ s. none;
  relative = λ s. s;
  resolve = λ s. none;
  fnmatch = str_eq;
}

-- the metadata of a task is written as the name of its subtask
abbrev env : Env
env = record no_json {
  loads = λ s.
      if str_eq s "ship"
      then some (obj (task_metadata no_json plan ship))
      else if str_eq s "build"
      then some (obj (task_metadata no_json plan build))
      else if str_eq s "test"
      then some (obj (task_metadata no_json plan test))
      else none;
}

ship_loaded : env.loads "ship" ≡ some (obj (task_metadata env plan ship))
unfolding task_metadata build_task_spec constraint_path_list values_under get
ship_loaded = refl

build_loaded : env.loads "build" ≡ some (obj (task_metadata env plan build))
unfolding task_metadata build_task_spec constraint_path_list values_under get
build_loaded = refl

test_loaded : env.loads "test" ≡ some (obj (task_metadata env plan test))
unfolding task_metadata build_task_spec constraint_path_list values_under get
test_loaded = refl

abbrev outside : Outside
outside = record { down = false; now = 9 }

abbrev fresh : Site
fresh = record { queue = []; dispatch_state = none; archive = []; rows = [] }

-- the row of a subtask's task: ready if the subtask was queued before
abbrev row : Site → Subtask → TaskItem
row s t = record {
  status = some (if is_queued t.id (load_dispatch_state s) then "ready" else "running");
  metadata = str t.id;
}

abbrev observe : ℕ → Site → Poll
observe n s = record {
  outside = record { down = false; now = n };
  items = row s ship ∷ row s build ∷ row s test ∷ [];
  queue = [];
  rows = s.rows;
}

done_row :
    (s : Site) (t : Subtask)
    → is_queued t.id (load_dispatch_state s) ≡ true
    → mem (if is_queued t.id (load_dispatch_state s) then "ready" else "running") completed_statuses
      ≡ true
done_row s t q = rw q refl

observe-IsResponsive : IsResponsive env plan observe
unfolding can_dispatch blocking_reasons no_reasons
observe-IsResponsive = record {
  allowed = λ n s. refl;
  completes = λ n s k m q. elim (Bool-cases (str_eq k "ship")) [
    | inl e ↦
        let is_ship = (eq_iff k "ship").0 e in
        subst (λ x. mem x (ready_subtask_ids env plan (observe n s).items) ≡ true) (sym is_ship)
          (built_task-ready env plan ship _ "ship" [] (row s build ∷ row s test ∷ []) ship_loaded
            refl (done_row s ship (rw is_ship at q)))
    | inr e ↦ elim (Bool-cases (str_eq k "build")) [
      | inl f ↦
          let is_build = (eq_iff k "build").0 f in
          subst (λ x. mem x (ready_subtask_ids env plan (observe n s).items) ≡ true) (sym is_build)
            (built_task-ready env plan build _ "build" (row s ship ∷ []) (row s test ∷ [])
              build_loaded refl (done_row s build (rw is_build at q)))
      | inr f ↦
          let is_test = (eq_iff k "test").0 (ground (arith, m, e, f)) in
          subst (λ x. mem x (ready_subtask_ids env plan (observe n s).items) ≡ true) (sym is_test)
            (built_task-ready env plan test _ "test" (row s ship ∷ row s build ∷ []) [] test_loaded
              refl (done_row s test (rw is_test at q)))
    ]
  ];
}

plan_scoped : All (λ t. validate_subtask_scope env plan t ≡ ok tt) three
unfolding validate_subtask_scope constraint_path_list values_under stripped items_of dedup no_paths
    get
plan_scoped = (refl, (refl, (refl, tt)))

plan_allowed : (can_dispatch false [] plan).0 ≡ true
unfolding can_dispatch blocking_reasons no_reasons
plan_allowed = refl

first_run :
    (dispatch_ready_subtasks env plan outside false [] fresh).1 ≡ ok (file_of plan build ∷ [])
unfolding dispatch_ready_subtasks can_dispatch blocking_reasons no_reasons finish queue_until
    queue_subtask selected is_due is_queued lookup all_in ready_subtask_ids ready_ids
    load_dispatch_state validate_subtask_scope constraint_path_list values_under stripped items_of
    dedup no_paths get
first_run =
    ap (λ r. r.1)
      (ready-now env plan outside false [] fresh plan_allowed
        ∙ dispatch_now-sorted env plan outside [] fresh (build ∷ test ∷ ship ∷ []) three_sorted
            refl)

dispatch_outcome_example :
    (((can_dispatch false [] plan).0 ≡ false)
      × (dispatch_ready_subtasks env plan outside false [] fresh ≡ (fresh, ok [])))
    ⊎ (((can_dispatch false [] plan).0 ≡ true)
        × (order : List Subtask) × (topologically_sorted_subtasks three ≡ ok order)
        × IsTopologicalOrder three order
        × Ends env plan outside
            (selected (ready_subtask_ids env plan []) (load_dispatch_state fresh) order)
            fresh
            (dispatch_ready_subtasks env plan outside false [] fresh))
dispatch_outcome_example = dispatch_outcome env plan outside false [] fresh three_valid

dispatch_again_example : IsIdle (dispatch_ready_subtasks env plan outside false [] fresh).0 (
    dispatch_ready_subtasks env plan outside true []
      (dispatch_ready_subtasks env plan outside false [] fresh).0)
dispatch_again_example =
    dispatch_again env plan outside outside false true [] fresh (file_of plan build ∷ [])
      three_valid plan_allowed first_run

dispatch_archives_example :
    ((is_queued "build"
          (load_dispatch_state (dispatch_ready_subtasks env plan outside false [] fresh).0)
        ≡ is_queued "build" (load_dispatch_state fresh))
      × (lookup "build" (dispatch_ready_subtasks env plan outside false [] fresh).0.archive
          ≡ lookup "build" []))
    ⊎ ((is_queued "build" (load_dispatch_state fresh) ≡ false)
        × (is_queued "build"
              (load_dispatch_state (dispatch_ready_subtasks env plan outside false [] fresh).0)
            ≡ true)
        × SaysQueued env plan outside "build"
            (lookup "build" (dispatch_ready_subtasks env plan outside false [] fresh).0.archive))
dispatch_archives_example =
    dispatch_archives env plan outside false [] fresh (file_of plan build ∷ []) "build" three_valid
      plan_allowed first_run

own_files : distinct (map (file_of plan) three) ≡ true
unfolding execution_task_id sanitize_identifier ai_devops.Common.concat
own_files = refl

watch_finishes_example :
    (paths : List String) × ((watch_and_dispatch env plan none observe 4 0 [] fresh).1
      ≡ some (ok paths))
    × (length paths ≡ 3)
    × ((k : String)
        → mem k (ids three) ≡ true
        → is_queued k
            (load_dispatch_state (watch_and_dispatch env plan none observe 4 0 [] fresh).0)
          ≡ true)
    × (polls : ℕ) × (polls ≤ 4)
    × ((watch_and_dispatch env plan none observe 4 0 [] fresh).0
        ≡ site_at env plan observe fresh polls)
    × All
        (λ t.
          (n : ℕ) × (n < polls)
          × (lookup (file_of plan t) (site_at env plan observe fresh (suc n)).queue
              ≡ some (build_execution_task env plan t)))
        three
watch_finishes_example =
    watch_finishes env plan observe fresh three_valid plan_scoped own_files observe-IsResponsive
      refl

built_task-ready_example :
    mem "test" (
      ready_subtask_ids env plan
        (row fresh ship ∷ record { status = some "merged"; metadata = str "test" } ∷ []))
    ≡ true
built_task-ready_example =
    built_task-ready env plan test "merged" "test" (row fresh ship ∷ []) [] test_loaded refl refl

-- a plan that waits for another one
abbrev waiting : Plan
waiting = record plan { plan_depends_on = "p0" ∷ [] }

register-can_dispatch_example :
    (can_dispatch false (register_plan false waiting 3 []) waiting).0
    ≡ (are_plan_dependencies_completed (register_plan false waiting 3 []) "p1").0
register-can_dispatch_example = register-can_dispatch waiting 3 []

-- a plan whose files are bounded
abbrev bounded : Plan
bounded = record plan {
  constraints = field "allowedPaths" (arr (cons (str "src") nil)) end;
  context = field "taskSpec" (obj (field "goal" (str "g") end)) end;
}

abbrev in_src : Subtask
in_src = record test { files_hint = "src/a.py" ∷ [] }

scope_iff_example :
    (validate_subtask_scope env bounded in_src ≡ ok tt)
    ↔ (Unscoped env bounded ⊎ InScope env bounded in_src)
scope_iff_example = scope_iff env bounded in_src

status-completed_example : (plan_status_from_tasks env plan (row fresh ship ∷ []) ≡ "completed") ↔ (
    (length (plan_tasks env "p1" (row fresh ship ∷ [])) ≢ 0)
    × All (λ i. has_status completed_statuses i ≡ true) (plan_tasks env "p1" (row fresh ship ∷ [])))
status-completed_example = status-completed env plan (row fresh ship ∷ [])
