-- ===== src/Scheduling/Scheduler.antt =====
-- GlobalScheduler of orchestrator/bin/global_scheduler.py. What a cycle reads of the task table is
-- the argument `tasks`; the publisher of events and the console are left out, the decision log that
-- they repeat is kept. The call of wake_blocked_plans, a method that StatusPropagator lacks, always
-- raises inside its `try` and has no effect.
pub mod Cycle
pub mod Pending
mod Tests
use ai_devops.Common.{
  ℕ, zero, suc, ◌+◌, String, Bool, true, false, Option, none, some, List, [], ◌∷◌, ◌++◌, length,
  str_eq, ltb, leb, if◌then◌else◌, not, ◌||◌, ◌&&◌, ◌-◌, drop,
}
use ai_devops.Common.Int.{ℤ, ltb_ℤ}
use ai_devops.Common.Names.{mem}
use ai_devops.Scheduling.Store.{PlanRow, get_all_plans, are_plan_dependencies_completed}

-- SchedulerConfig, without the interval and the log file
pub record SchedulerConfig : Type 0 where
  pub max_concurrent_tasks : ℤ
  pub max_concurrent_plans : ℤ

-- What check_resource_availability reads: the count of running tasks, the number of queued ones,
-- and the plan of every running task.
pub record Tasks : Type 0 where
  pub running_count : ℕ
  pub queued_count : ℕ
  pub running_plans : List (Option String)

-- resource_info
pub record ResourceInfo : Type 0 where
  pub running_tasks : ℕ
  pub queued_tasks : ℕ
  pub active_plans : ℕ
  pub max_concurrent_tasks : ℤ
  pub max_concurrent_plans : ℤ
  pub task_slots_available : Bool
  pub plan_slots_available : Bool

-- The field `decision`, with what `reason` and `details` tell apart.
pub data Verdict : Type 0 where
  blocked : List String → Verdict
  task_capacity : ResourceInfo → Verdict
  plan_capacity : ResourceInfo → Verdict
  dispatched : ResourceInfo → Verdict

-- SchedulingDecision
pub record SchedulingDecision : Type 0 where
  pub plan_id : String
  pub verdict : Verdict
  pub timestamp : ℕ
  pub priority : ℤ

-- GlobalScheduler
pub record Scheduler : Type 0 where
  pub config : SchedulerConfig
  pub decision_log : List SchedulingDecision
  pub last_scheduling_time : ℕ

-- status in ("pending", "running")
unfoldable pub is_pending : PlanRow → Bool
is_pending r = str_eq r.status "pending" || str_eq r.status "running"

unfoldable pub only_pending : List PlanRow → List PlanRow
only_pending [] = []
only_pending (r ∷ rs) = let rest = only_pending rs in if is_pending r then r ∷ rest else rest

-- The keys (-global_priority, requested_at): the first is at most the second.
unfoldable pub goes_first : PlanRow → PlanRow → Bool
goes_first a b =
    if ltb_ℤ b.global_priority a.global_priority
    then true
    else if ltb_ℤ a.global_priority b.global_priority
    then false
    else not (ltb_ℤ b.requested_at a.requested_at)

-- `list.sort(key=...)`, which is stable
unfoldable pub insert_plan_by_key : PlanRow → List PlanRow → List PlanRow
insert_plan_by_key r [] = r ∷ []
insert_plan_by_key r (s ∷ rs) = if goes_first r s then r ∷ s ∷ rs else s ∷ insert_plan_by_key r rs

unfoldable pub sort_plans : List PlanRow → List PlanRow
unfolding insert_plan_by_key
sort_plans [] = []
sort_plans (r ∷ rs) = insert_plan_by_key r (sort_plans rs)

-- get_pending_plans
unfoldable pub get_pending_plans : List PlanRow → List PlanRow
unfolding only_pending sort_plans
get_pending_plans rows = sort_plans (only_pending (get_all_plans 100 rows))

-- active_plan_ids: a set, of the ids that are neither None nor empty
unfoldable pub active_plan_ids : List (Option String) → List String
active_plan_ids [] = []
active_plan_ids (none ∷ ids) = active_plan_ids ids
active_plan_ids (some id ∷ ids) =
    let rest = active_plan_ids ids in
    if str_eq id "" then rest else if mem id rest then rest else id ∷ rest

-- check_resource_availability
unfoldable pub check_resource_availability : SchedulerConfig → Tasks → Bool × ResourceInfo
unfolding active_plan_ids
check_resource_availability cfg tasks =
    let active = length (active_plan_ids tasks.running_plans) in
    let task_slots = ltb_ℤ (ℤ.pos tasks.running_count) cfg.max_concurrent_tasks in
    let plan_slots = ltb_ℤ (ℤ.pos active) cfg.max_concurrent_plans in
    (
      task_slots && plan_slots,
      record {
        running_tasks = tasks.running_count;
        queued_tasks = tasks.queued_count;
        active_plans = active;
        max_concurrent_tasks = cfg.max_concurrent_tasks;
        max_concurrent_plans = cfg.max_concurrent_plans;
        task_slots_available = task_slots;
        plan_slots_available = plan_slots;
      },
    )

unfoldable pub verdict_of : Bool × List String → ResourceInfo → Verdict
verdict_of (false, unmet) info = Verdict.blocked unmet
verdict_of (true, unmet) info =
    if not info.task_slots_available
    then Verdict.task_capacity info
    else if not info.plan_slots_available
    then Verdict.plan_capacity info
    else Verdict.dispatched info

-- should_dispatch_plan
unfoldable pub should_dispatch_plan : List PlanRow → PlanRow → ResourceInfo → ℕ → SchedulingDecision
unfolding verdict_of
should_dispatch_plan rows plan info now = record {
  plan_id = plan.plan_id;
  verdict = verdict_of (are_plan_dependencies_completed rows plan.plan_id) info;
  timestamp = now;
  priority = plan.global_priority;
}

unfoldable pub is_dispatched : Verdict → Bool
is_dispatched (Verdict.dispatched info) = true
is_dispatched v = false

-- resource_info["runningTasks"] += 1, after a dispatch
unfoldable pub count_dispatch : Verdict → ResourceInfo → ResourceInfo
unfolding is_dispatched
count_dispatch v info =
    if is_dispatched v then record info { running_tasks = info.running_tasks + 1 } else info

-- The loop of schedule. A decision keeps the resource_info at its turn; in the source all decisions
-- hold one dictionary, in which the later turns go on counting.
unfoldable pub decide : List PlanRow → List PlanRow → ResourceInfo → ℕ → List SchedulingDecision
unfolding should_dispatch_plan count_dispatch
decide rows [] info now = []
decide rows (plan ∷ plans) info now =
    let decision = should_dispatch_plan rows plan info now in
    decision ∷ decide rows plans (count_dispatch decision.verdict info) now

-- schedule
unfoldable pub schedule : List PlanRow → Tasks → ℕ → Scheduler → Scheduler × List SchedulingDecision
unfolding get_pending_plans check_resource_availability decide
schedule rows tasks now s =
    let decisions =
      decide rows (get_pending_plans rows) (check_resource_availability s.config tasks).1 now in
    (record s { last_scheduling_time = now; decision_log = s.decision_log ++ decisions }, decisions)

reverse_onto : List SchedulingDecision → List SchedulingDecision → List SchedulingDecision
reverse_onto [] done = done
reverse_onto (d ∷ ds) done = reverse_onto ds (d ∷ done)

-- get_decision_log, for a limit that is not negative
pub get_decision_log : ℕ → Scheduler → List SchedulingDecision
unfolding reverse_onto
get_decision_log zero s = reverse_onto s.decision_log []
get_decision_log (suc n) s = reverse_onto (drop (length s.decision_log - suc n) s.decision_log) []

-- clear_decision_log
pub clear_decision_log : Scheduler → Scheduler
clear_decision_log s = record s { decision_log = [] }
