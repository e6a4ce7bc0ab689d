-- ===== src/Dispatch/Queue.antt =====
-- dispatch_ready_subtasks and watch_and_dispatch of orchestrator/bin/dispatch.py, for one plan and
-- one base directory.
pub mod Select
pub mod Files
pub mod History
pub mod Archived
pub mod Outcome
pub mod Again
pub mod Keys
pub mod Front
pub mod Turn
pub mod Rounds
use ai_devops.Common.{
  ℕ, zero, suc, ◌+◌, String, Bool, true, false, Option, none, some, List, [], ◌∷◌, ◌++◌, map,
  str_eq, if◌then◌else◌, not, ◌&&◌, ◌||◌, ◌==◌, leb, length, concat,
}
use ai_devops.Common.Names.{mem}
use ai_devops.Common.Assoc.{Assoc, lookup, insert}
use ai_devops.Common.Result.{Result, ok, err}
use ai_devops.PlanSchema.Json.{Fields}
use ai_devops.PlanSchema.Graph.{topologically_sorted_subtasks}
use ai_devops.PlanSchema.Types.{Plan, Subtask}
use ai_devops.Scheduling.Store.{PlanRow}
use ai_devops.Dispatch.Paths.{Env}
use ai_devops.Dispatch.Scope.{DispatchError, validate_subtask_scope}
use ai_devops.Dispatch.Registry.{TaskItem, ready_subtask_ids, can_dispatch, register_plan}
use ai_devops.Dispatch.Tasks.{
  Entry, execution_task_id, build_execution_task, update_subtask_archive,
}

-- What a dispatch of the plan writes: the files of the queue, the plan's dispatch-state.json and
-- its archived subtasks, and the plans table.
pub record Site : Type 0 where
  pub queue : Assoc Fields
  pub dispatch_state : Option (Assoc Entry)
  pub archive : Assoc Fields
  pub rows : List PlanRow

-- What a call finds outside: whether init_db raises, and the clock.
pub record Outside : Type 0 where
  pub down : Bool
  pub now : ℕ

-- The local variables of the loop, and the files that it writes.
pub record Loop : Type 0 where
  pub queue : Assoc Fields
  pub archive : Assoc Fields
  pub dispatched : Assoc Entry
  pub queued_paths : List String

-- load_dispatch_state, and state.setdefault("dispatched", {})
unfoldable pub load_dispatch_state : Site → Assoc Entry
load_dispatch_state s = elim s.dispatch_state [ none ↦ [] | some dispatched ↦ dispatched ]

-- dispatched.get(id, {}).get("state") == "queued"
unfoldable pub is_queued : String → Assoc Entry → Bool
unfolding lookup
is_queued id dispatched = elim (lookup id dispatched) [
  | none ↦ false
  | some e ↦ str_eq e.state "queued"
]

-- all(dep in completed for dep in deps)
unfoldable pub all_in : List String → List String → Bool
all_in completed [] = true
all_in completed (dep ∷ deps) = mem dep completed && all_in completed deps

-- the name of the queue's file
abbrev pub queue_file : String → String
queue_file id = concat id ".json"

-- what is on disk after the loop: the state is saved only if nothing was raised
unfoldable pub finish :
    Site → Loop × Option DispatchError → Site × Result DispatchError (List String)
finish s (l, some e) = (record s { queue = l.queue; archive = l.archive }, err e)
finish s (l, none) = (
  record s { queue = l.queue; archive = l.archive; dispatch_state = some l.dispatched },
  ok l.queued_paths,
)

module _ (env : Env) (plan : Plan) (outside : Outside) where
  abbrev pub entry_of : Subtask → Entry
  entry_of t = record {
    state = "queued";
    queued_task_id = execution_task_id plan t;
    queued_at = outside.now;
  }

  -- what the loop does with a subtask that is ready
  unfoldable pub queue_subtask : Subtask → Loop → Loop
  unfolding insert update_subtask_archive build_execution_task execution_task_id
  queue_subtask t l =
      let path = queue_file (execution_task_id plan t) in
      record {
        queue = insert path (build_execution_task env plan t) l.queue;
        archive = update_subtask_archive plan t (entry_of t) l.archive;
        dispatched = insert t.id (entry_of t) l.dispatched;
        queued_paths = l.queued_paths ++ path ∷ [];
      }

  -- one turn of the loop
  unfoldable pub dispatch_subtask : List String → Subtask → Loop → Loop × Option DispatchError
  unfolding is_queued all_in validate_subtask_scope queue_subtask
  dispatch_subtask completed t l =
      if is_queued t.id l.dispatched
      then (l, none)
      else if not (all_in completed t.depends_on)
      then (l, none)
      else elim (validate_subtask_scope env plan t) [
        | err e ↦ (l, some e)
        | ok _ ↦ (queue_subtask t l, none)
      ]

  -- the loop
  unfoldable pub dispatch_loop : List String → List Subtask → Loop → Loop × Option DispatchError
  unfolding dispatch_subtask
  dispatch_loop completed [] l = (l, none)
  dispatch_loop completed (t ∷ ts) l =
      let (l', raised) = dispatch_subtask completed t l in
      elim raised [ some e ↦ (l', some e) | none ↦ dispatch_loop completed ts l' ]

  -- dispatch_ready_subtasks, behind the check of the other plans
  unfoldable pub dispatch_now : List TaskItem → Site → Site × Result DispatchError (List String)
  unfolding register_plan load_dispatch_state ready_subtask_ids dispatch_loop finish
  dispatch_now items s =
      let s1 = record s { rows = register_plan outside.down plan outside.now s.rows } in
      elim (topologically_sorted_subtasks plan.subtasks) [
        | err e ↦ (s1, err (DispatchError.invalid_plan e))
        | ok order ↦ finish s1 (
            dispatch_loop (ready_subtask_ids env plan items) order (record {
              queue = s.queue;
              archive = s.archive;
              dispatched = load_dispatch_state s;
              queued_paths = [];
            }))
      ]

  -- dispatch_ready_subtasks
  unfoldable pub dispatch_ready_subtasks :
      Bool → List TaskItem → Site → Site × Result DispatchError (List String)
  unfolding can_dispatch dispatch_now
  dispatch_ready_subtasks skip_check items s =
      if skip_check || (can_dispatch outside.down s.rows plan).0
      then dispatch_now items s
      else (s, ok [])

-- What a poll of watch_and_dispatch finds: what the daemon has left of the queue, the tables, and
-- the clock.
pub record Poll : Type 0 where
  pub outside : Outside
  pub items : List TaskItem
  pub queue : Assoc Fields
  pub rows : List PlanRow

-- one dispatch of the loop
unfoldable pub poll_dispatch : Env → Plan → Poll → Site → Site × Result DispatchError (List String)
unfolding dispatch_ready_subtasks
poll_dispatch env plan poll s =
    dispatch_ready_subtasks env plan poll.outside false poll.items
      (record s { queue = poll.queue; rows = poll.rows })

-- loops >= max_loops
unfoldable pub limit_reached : Option ℕ → ℕ → Bool
limit_reached none loops = false
limit_reached (some limit) loops = leb limit loops

-- watch_and_dispatch: `observe` gives what a poll finds, by its number and what is on disk; `none`
-- when the fuel runs out
unfoldable pub watch_and_dispatch :
    Env
    → Plan
    → Option ℕ
    → (ℕ → Site → Poll)
    → ℕ
    → ℕ
    → List String
    → Site
    → Site × Option (Result DispatchError (List String))
unfolding poll_dispatch load_dispatch_state limit_reached
watch_and_dispatch env plan max_loops observe zero loops all_queued s = (s, none)
watch_and_dispatch env plan max_loops observe (suc fuel) loops all_queued s =
    let (s', result) = poll_dispatch env plan (observe loops s) s in
    elim result [
      | err e ↦ (s', some (err e))
      | ok paths ↦
          let rest =
            watch_and_dispatch env plan max_loops observe fuel (suc loops) (all_queued ++ paths)
              s' in
          if length (load_dispatch_state s') == length plan.subtasks
          then (s', some (ok (all_queued ++ paths)))
          else if limit_reached max_loops (suc loops)
          then (s', some (ok (all_queued ++ paths)))
          else rest
    ]
