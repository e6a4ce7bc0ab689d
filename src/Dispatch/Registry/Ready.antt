-- ===== src/Dispatch/Registry/Ready.antt =====
-- ready_subtask_ids of orchestrator/bin/dispatch.py against the rows of the task table.
use ai_devops.Common.{
  String, Bool, true, false, some, List, [], ◌∷◌, ◌++◌, ◌≡◌, refl, ap, arith, eq_iff, eq_refl, ◌&&◌,
  Bool-cases, inl, inr,
}
use ai_devops.Common.Names.{mem, mem-append}
use ai_devops.PlanSchema.Json.{Value, Fields, null, bool, int, float, str, obj, arr, get}
use ai_devops.PlanSchema.Graph.{ids}
use ai_devops.PlanSchema.Types.{Plan, Subtask}
use ai_devops.Dispatch.Paths.{Env, any_of}
use ai_devops.Dispatch.Scope.{dict_or_empty}
use ai_devops.Dispatch.Registry.{
  TaskItem, completed_statuses, extract_plan_metadata, is_text, is_done, of_plan, completed_id,
  ready_ids, ready_subtask_ids,
}
use ai_devops.Dispatch.Tasks.{task_metadata}

-- The row is of this plan and of the subtask `k`, and its status is a completed one.
abbrev pub shows_done : Env → Plan → String → TaskItem → Bool
shows_done env plan k item =
    of_plan env plan.plan_id item
    && is_text (get (extract_plan_metadata env item.metadata) "subtaskId") k
    && is_done item

completed_id-mem :
    (known : List String) (done : Bool) (v : Value) (k : String)
    → mem k known ≡ true
    → mem k (completed_id known done v) ≡ (is_text v k && done)
unfolding completed_id is_text
completed_id-mem known done (str id) k m =
    ground (arith, m, eq_iff id k, eq_iff k id, ap (λ x. mem x known) {x = k} {y = id})
completed_id-mem known done null k m = refl
completed_id-mem known done (bool b) k m = refl
completed_id-mem known done (int i) k m = refl
completed_id-mem known done (float f) k m = refl
completed_id-mem known done (obj o) k m = refl
completed_id-mem known done (arr a) k m = refl

completed_id-known :
    (known : List String) (done : Bool) (v : Value) (k : String)
    → mem k known ≡ false
    → mem k (completed_id known done v) ≡ false
unfolding completed_id
completed_id-known known done (str id) k m =
    ground (arith, m, eq_iff id k, eq_iff k id, ap (λ x. mem x known) {x = k} {y = id})
completed_id-known known done null k m = refl
completed_id-known known done (bool b) k m = refl
completed_id-known known done (int i) k m = refl
completed_id-known known done (float f) k m = refl
completed_id-known known done (obj o) k m = refl
completed_id-known known done (arr a) k m = refl

ready_ids-known :
    (env : Env) (plan_id : String) (known : List String) (items : List TaskItem) (k : String)
    → mem k known ≡ false
    → mem k (ready_ids env plan_id known items) ≡ false
unfolding ready_ids
ready_ids-known env plan_id known [] k m = refl
ready_ids-known env plan_id known (item ∷ items) k m =
    let rest = ready_ids-known env plan_id known items k m in
    let id = get (extract_plan_metadata env item.metadata) "subtaskId" in
    let own = completed_id-known known (is_done item) id k m in
    let split =
      mem-append k (completed_id known (is_done item) id) (ready_ids env plan_id known items) in
    elim (Bool-cases (of_plan env plan_id item)) [
      | inl e ↦ rw (ready_ids, e) (ground (arith, split, own, rest))
      | inr e ↦ rw (ready_ids, e) rest
    ]

ready_ids-mem :
    (env : Env) (plan : Plan) (known : List String) (items : List TaskItem) (k : String)
    → mem k known ≡ true
    → mem k (ready_ids env plan.plan_id known items) ≡ any_of (shows_done env plan k) items
unfolding ready_ids any_of
ready_ids-mem env plan known [] k m = refl
ready_ids-mem env plan known (item ∷ items) k m =
    let rest = ready_ids-mem env plan known items k m in
    let id = get (extract_plan_metadata env item.metadata) "subtaskId" in
    let own = completed_id-mem known (is_done item) id k m in
    let split =
      mem-append k (completed_id known (is_done item) id)
        (ready_ids env plan.plan_id known items) in
    elim (Bool-cases (of_plan env plan.plan_id item)) [
      | inl e ↦ rw (ready_ids, any_of, e) (ground (arith, split, own, rest))
      | inr e ↦ rw (ready_ids, any_of, e) rest
    ]

-- An id counts as completed exactly if it is a subtask of the plan and some row of the task table
-- names the plan and the subtask in its metadata and has a completed status.
pub ready-mem :
    (env : Env) (plan : Plan) (items : List TaskItem) (k : String)
    → mem k (ready_subtask_ids env plan items)
      ≡ (mem k (ids plan.subtasks) && any_of (shows_done env plan k) items)
unfolding ready_subtask_ids
ready-mem env plan items k = elim (Bool-cases (mem k (ids plan.subtasks))) [
  | inl m ↦ rw (ready_subtask_ids, m) (ready_ids-mem env plan (ids plan.subtasks) items k m)
  | inr m ↦
      rw (ready_subtask_ids, m) (ready_ids-known env plan.plan_id (ids plan.subtasks) items k m)
]

built-shows :
    (env : Env) (plan : Plan) (t : Subtask) (status : String)
    → mem status completed_statuses ≡ true
    → shows_done env plan t.id
        (record { status = some status; metadata = obj (task_metadata env plan t) })
      ≡ true
unfolding of_plan extract_plan_metadata task_metadata is_text get is_done
built-shows env plan t status m = ground (arith, m, eq_refl plan.plan_id, eq_refl t.id)

extract-text :
    (env : Env) (text : String) (fields : Fields)
    → env.loads text ≡ some (obj fields)
    → extract_plan_metadata env (str text) ≡ fields
unfolding extract_plan_metadata dict_or_empty
extract-text env text fields e = rw (extract_plan_metadata, e) refl

text-shows :
    (env : Env) (plan : Plan) (t : Subtask) (status text : String)
    → env.loads text ≡ some (obj (task_metadata env plan t))
    → mem status completed_statuses ≡ true
    → shows_done env plan t.id (record { status = some status; metadata = str text }) ≡ true
unfolding of_plan extract_plan_metadata is_done
text-shows env plan t status text e m =
    rw (extract-text env text (task_metadata env plan t) e) (built-shows env plan t status m)

any_of-middle :
    (p : TaskItem → Bool) (before behind : List TaskItem) (item : TaskItem)
    → p item ≡ true
    → any_of p (before ++ item ∷ behind) ≡ true
unfolding any_of
any_of-middle p [] behind item e = ground (arith, e)
any_of-middle p (i ∷ is) behind item e =
    let rest = any_of-middle p is behind item e in ground (arith, rest)

-- A row whose metadata is a text that is read as the metadata of the task built for a subtask of
-- the plan, with a completed status, makes the subtask count as completed, whatever the other rows
-- are.
pub built_task-ready :
    (env : Env) (plan : Plan) (t : Subtask) (status text : String) (before behind : List TaskItem)
    → env.loads text ≡ some (obj (task_metadata env plan t))
    → mem t.id (ids plan.subtasks) ≡ true
    → mem status completed_statuses ≡ true
    → mem t.id (
        ready_subtask_ids env plan
          (before ++ record { status = some status; metadata = str text } ∷ behind))
      ≡ true
built_task-ready env plan t status text before behind e m s =
    let item : TaskItem = record { status = some status; metadata = str text } in
    let found =
      any_of-middle (shows_done env plan t.id) before behind item
        (text-shows env plan t status text e s) in
    rw (ready-mem env plan (before ++ item ∷ behind) t.id, m, found) refl
