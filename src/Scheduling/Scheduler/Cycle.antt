-- ===== src/Scheduling/Scheduler/Cycle.antt =====
-- What one cycle of orchestrator/bin/global_scheduler.py decides for each plan.
use ai_devops.Common.{
  ℕ, String, Bool, true, false, List, [], ◌∷◌, map, ◌≡◌, refl, ap, ◌∙◌, ◌&&◌, arith, Bool-cases,
  inl, inr,
}
use ai_devops.Scheduling.Store.{PlanRow, are_plan_dependencies_completed}
use ai_devops.Scheduling.Scheduler.{
  Tasks, ResourceInfo, SchedulingDecision, Verdict, Scheduler, get_pending_plans,
  check_resource_availability, verdict_of, should_dispatch_plan, is_dispatched, count_dispatch,
  decide, schedule,
}

-- The plan of a decision, and whether it is dispatched.
abbrev pub outcome : SchedulingDecision → String × Bool
outcome d = (d.plan_id, is_dispatched d.verdict)

-- The same by the documented rule: the dependencies are completed and there is room.
abbrev pub rule : List PlanRow → Bool → PlanRow → String × Bool
rule rows room plan = (plan.plan_id, (are_plan_dependencies_completed rows plan.plan_id).0 && room)

abbrev pub room_in : ResourceInfo → Bool
room_in info = info.task_slots_available && info.plan_slots_available

verdict_of-is_dispatched :
    (deps : Bool × List String) (info : ResourceInfo)
    → is_dispatched (verdict_of deps info) ≡ (deps.0 && room_in info)
unfolding verdict_of is_dispatched
verdict_of-is_dispatched (false, unmet) info = refl
verdict_of-is_dispatched (true, unmet) info = ground arith

count_dispatch-room :
    (v : Verdict) (info : ResourceInfo) → room_in (count_dispatch v info) ≡ room_in info
unfolding count_dispatch
count_dispatch-room v info = elim (Bool-cases (is_dispatched v)) [
  | inl e ↦ rw e refl
  | inr e ↦ rw e refl
]

decide-rule :
    (rows plans : List PlanRow) (info : ResourceInfo) (now : ℕ)
    → map outcome (decide rows plans info now) ≡ map (rule rows (room_in info)) plans
unfolding decide should_dispatch_plan
decide-rule rows [] info now = refl
decide-rule rows (plan ∷ plans) info now =
    let deps = are_plan_dependencies_completed rows plan.plan_id in
    let rest =
      decide-rule rows plans (count_dispatch (verdict_of deps info) info) now
      ∙ ap (λ room. map (rule rows room) plans) (count_dispatch-room (verdict_of deps info) info) in
    cc (rest, verdict_of-is_dispatched deps info)

-- A cycle makes one decision for each pending plan, in the order of get_pending_plans, and
-- dispatches exactly the plans whose dependencies are all completed if both kinds of slots are
-- available when the cycle starts, however many they are, and no plan otherwise.
pub schedule-rule :
    (rows : List PlanRow) (tasks : Tasks) (now : ℕ) (s : Scheduler)
    → map outcome (schedule rows tasks now s).1
      ≡ map (rule rows (check_resource_availability s.config tasks).0) (get_pending_plans rows)
unfolding schedule check_resource_availability
schedule-rule rows tasks now s =
    decide-rule rows (get_pending_plans rows) (check_resource_availability s.config tasks).1 now
