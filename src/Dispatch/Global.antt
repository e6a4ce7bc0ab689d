-- ===== src/Dispatch/Global.antt =====
-- dispatch_with_global_scheduler and dispatch_plan_file of orchestrator/bin/dispatch.py, for the
-- plans of one base directory.
pub mod Partition
mod Tests
use ai_devops.Common.{
  ℕ, String, Bool, true, false, Option, none, some, List, [], ◌∷◌, ◌++◌, map, length, str_eq,
  if◌then◌else◌, not,
}
use ai_devops.Common.Int.{ℤ, ltb_ℤ}
use ai_devops.Common.Assoc.{Assoc}
use ai_devops.Common.Dict.{Dict, put}
use ai_devops.Common.Result.{Result, ok, err, ◌>>=◌}
use ai_devops.PlanSchema.Json.{Value, Fields, obj}
use ai_devops.PlanSchema.Print.{plan_to_dict}
use ai_devops.PlanSchema.Types.{Plan, Error}
use ai_devops.Scheduling.Store.{PlanRow}
use ai_devops.Scheduling.Scheduler.{
  SchedulerConfig, Tasks, ResourceInfo, check_resource_availability,
}
use ai_devops.Dispatch.Paths.{Env}
use ai_devops.Dispatch.Scope.{DispatchError}
use ai_devops.Dispatch.Registry.{TaskItem, Reason, can_dispatch}
use ai_devops.Dispatch.Tasks.{Entry, archive_subtasks}
use ai_devops.Dispatch.Queue.{Site, Outside, Poll, dispatch_ready_subtasks, watch_and_dispatch}

-- The files in a plan's directory.
pub record PlanFiles : Type 0 where
  pub dispatch_state : Option (Assoc Entry)
  pub archive : Assoc Fields

-- The queue, the plans table, and the directories of the plans.
pub record Base : Type 0 where
  pub queue : Assoc Fields
  pub rows : List PlanRow
  pub plans : Dict PlanFiles

unfoldable pub files_of : Option PlanFiles → PlanFiles
files_of none = record { dispatch_state = none; archive = [] }
files_of (some f) = f

-- what a dispatch of the plan works on
unfoldable pub site_of : Base → String → Site
unfolding files_of
site_of b id = record {
  queue = b.queue;
  dispatch_state = (files_of (b.plans id)).dispatch_state;
  archive = (files_of (b.plans id)).archive;
  rows = b.rows;
}

unfoldable pub put_site : Base → String → Site → Base
put_site b id s = record {
  queue = s.queue;
  rows = s.rows;
  plans = put b.plans id (record { dispatch_state = s.dispatch_state; archive = s.archive });
}

-- "reasons" of a blocked plan
pub data Block : Type 0 where
  waits : List Reason → Block
  failed : DispatchError → Block

-- results
pub record Results : Type 0 where
  pub dispatched : List (String × List String)
  pub blocked : List (String × Block)
  pub deferred : List (String × ResourceInfo)
  pub total_plans : ℕ

-- The keys (-global_priority, requested_at): the first is at most the second.
unfoldable pub plan_first : Plan → Plan → Bool
plan_first a b =
    if ltb_ℤ b.global_priority a.global_priority
    then true
    else if ltb_ℤ a.global_priority b.global_priority
    then false
    else not (ltb_ℤ b.requested_at a.requested_at)

unfoldable pub insert_by_priority : Plan → List Plan → List Plan
unfolding plan_first
insert_by_priority p [] = p ∷ []
insert_by_priority p (q ∷ qs) = if plan_first p q then p ∷ q ∷ qs else q ∷ insert_by_priority p qs

-- sorted(plans, key=...), which is stable
unfoldable pub sort_by_priority : List Plan → List Plan
unfolding insert_by_priority
sort_by_priority [] = []
sort_by_priority (p ∷ ps) = insert_by_priority p (sort_by_priority ps)

-- What is found outside at a plan's turn: the clock and the tables, as a dispatch and the scheduler
-- read them.
pub record Turn : Type 0 where
  pub outside : Outside
  pub items : List TaskItem
  pub tasks : Tasks

-- the results with what the dispatch of a plan gives
unfoldable pub dispatched_result : String → Result DispatchError (List String) → Results → Results
dispatched_result id (ok paths) r = record r { dispatched = r.dispatched ++ (id, paths) ∷ [] }
dispatched_result id (err e) r = record r { blocked = r.blocked ++ (id, Block.failed e) ∷ [] }

module _ (env_of : Plan → Env) (cfg : SchedulerConfig) (turn_of : Plan → Turn) where
  -- one turn of the loop
  unfoldable pub dispatch_one : Plan → Base × Results → Base × Results
  unfolding dispatched_result site_of put_site
  dispatch_one p (b, r) =
      let turn = turn_of p in
      let (allowed, reasons) = can_dispatch turn.outside.down b.rows p in
      let (available, info) = check_resource_availability cfg turn.tasks in
      if not allowed
      then (b, record r { blocked = r.blocked ++ (p.plan_id, Block.waits reasons) ∷ [] })
      else if not available
      then (b, record r { deferred = r.deferred ++ (p.plan_id, info) ∷ [] })
      else (let (s, done) =
            dispatch_ready_subtasks (env_of p) p turn.outside true turn.items
              (site_of b p.plan_id) in
          (put_site b p.plan_id s, dispatched_result p.plan_id done r))

  unfoldable pub dispatch_each : List Plan → Base × Results → Base × Results
  unfolding dispatch_one
  dispatch_each [] s = s
  dispatch_each (p ∷ ps) s = dispatch_each ps (dispatch_one p s)

  -- dispatch_with_global_scheduler
  unfoldable pub dispatch_with_global_scheduler : List Plan → Base → Base × Results
  unfolding dispatch_each sort_by_priority
  dispatch_with_global_scheduler plans b =
      dispatch_each (sort_by_priority plans)
        (b, record { dispatched = []; blocked = []; deferred = []; total_plans = length plans })

-- The exceptions of dispatch_plan_file.
pub data PlanFileError : Type 0 where
  invalid : Error → PlanFileError
  invalid_archive invalid_payload collision no_daemon no_checkout : PlanFileError
  dispatch : DispatchError → PlanFileError

-- What dispatch_plan_file finds: the plan's file as load_plan reads it, the archived plan.json if
-- there is one, and what it holds if it can be read, the daemon and the checkout.
pub record PlanFile : Type 0 where
  pub loaded : Result Error Plan
  pub archived : Option (Option Value)
  pub daemon_running : Bool
  pub checkout_exists : Bool

-- _validate_plan_id_collision; `canonical` is _canonical_json
unfoldable pub validate_plan_id_collision :
    (Fields → String) → Option (Option Value) → Plan → Result PlanFileError (Unit {0})
validate_plan_id_collision canonical none p = ok tt
validate_plan_id_collision canonical (some none) p = err PlanFileError.invalid_archive
validate_plan_id_collision canonical (some (some (obj fields))) p =
    if str_eq (canonical fields) (canonical (plan_to_dict p))
    then ok tt
    else err PlanFileError.collision
validate_plan_id_collision canonical (some (some v)) p = err PlanFileError.invalid_payload

-- preflight_dispatch
unfoldable pub preflight_dispatch : Bool → Bool → Result PlanFileError (Unit {0})
preflight_dispatch false checkout = err PlanFileError.no_daemon
preflight_dispatch true false = err PlanFileError.no_checkout
preflight_dispatch true true = ok tt

unfoldable pub plan_error : {A : Type 0} → Result Error A → Result PlanFileError A
plan_error (ok a) = ok a
plan_error (err e) = err (PlanFileError.invalid e)

unfoldable pub dispatch_error :
    Result DispatchError (List String) → Result PlanFileError (List String)
dispatch_error (ok paths) = ok paths
dispatch_error (err e) = err (PlanFileError.dispatch e)

-- what dispatch_plan_file does before it writes
unfoldable pub check_plan_file : (Fields → String) → PlanFile → Result PlanFileError Plan
unfolding plan_error validate_plan_id_collision preflight_dispatch
check_plan_file canonical f = do
  p ← plan_error f.loaded
  _ ← validate_plan_id_collision canonical f.archived p
  _ ← preflight_dispatch f.daemon_running f.checkout_exists
  ok p

-- dispatch_plan_file: `watch` gives the polls that it may take and what each finds
unfoldable pub dispatch_plan_file :
    (Fields → String)
    → Env
    → Outside
    → List TaskItem
    → Option (ℕ × (ℕ → Site → Poll))
    → PlanFile
    → Site
    → Site × Option (Result PlanFileError (List String))
unfolding check_plan_file archive_subtasks dispatch_ready_subtasks watch_and_dispatch
dispatch_plan_file canonical env outside items watch f s = elim (check_plan_file canonical f) [
  | err e ↦ (s, some (err e))
  | ok p ↦
      let s1 = record s { archive = archive_subtasks p p.subtasks s.archive } in
      elim watch [
        | none ↦
            let (s2, done) = dispatch_ready_subtasks env p outside false items s1 in
            (s2, some (dispatch_error done))
        | some (polls, observe) ↦
            let (s2, done) = watch_and_dispatch env p none observe polls 0 [] s1 in
            (s2, elim done [ none ↦ none | some r ↦ some (dispatch_error r) ])
      ]
]
