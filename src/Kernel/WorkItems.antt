-- ===== src/Kernel/WorkItems.antt =====
-- prepare_agent_run and transition_work_item_status of WorkItemService,
-- packages/kernel/services/work_items.py.
pub mod Gated
mod Tests
use ai_devops.Common.{
  ℕ, String, Bool, true, false, Option, none, some, List, not, if◌then◌else◌, concat, ◌&&◌,
}
use ai_devops.Common.Result.{Result, ok, err}
use ai_devops.PlanSchema.Json.{Fields, end, field, str, null}
use ai_devops.PlanSchema.Text.{is_empty}
use ai_devops.Kernel.Models.{
  WorkItem, WorkItemStatus, status_value, QualityRun, QualityRunStatus, AgentRun, agent_run_to_dict,
}
use ai_devops.Kernel.Bus.{EventBus, EventEnvelope, publish}

-- MissingContextPackError and MissingQualityRunError
pub data ServiceError : Type 0 where
  missing_context_pack : ServiceError
  missing_quality_run : String → WorkItemStatus → ServiceError

-- the envelope of an event of the service
unfoldable pub kernel_event : String → Fields → ℕ → EventEnvelope
kernel_event event_type payload now = record {
  event_type = event_type;
  payload = payload;
  created_at = now;
  source = some "kernel.work_items";
  actor_id = "system:kernel";
  actor_type = "system";
}

-- prepare_agent_run; of the context pack, if there is one, its id
unfoldable pub prepare_agent_run :
    WorkItem
    → Option String
    → String
    → String
    → List String
    → ℕ
    → EventBus
    → EventBus × Result ServiceError AgentRun
unfolding kernel_event publish agent_run_to_dict
prepare_agent_run item none agent model steps now bus = (bus, err ServiceError.missing_context_pack)
prepare_agent_run item (some pack_id) agent model steps now bus =
    if is_empty pack_id
    then (bus, err ServiceError.missing_context_pack)
    else (let run : AgentRun = record {
      run_id = concat "run_" (concat item.work_item_id (concat "_" agent));
      work_item_id = item.work_item_id;
      context_pack_id = pack_id;
      agent = agent;
      model = model;
      planned_steps = steps;
    } in
        (publish (kernel_event "agent_run.prepared" (agent_run_to_dict run) now) bus, ok run))

-- target_status in {RELEASED, CLOSED}
unfoldable pub needs_quality : WorkItemStatus → Bool
needs_quality WorkItemStatus.released = true
needs_quality WorkItemStatus.closed = true
needs_quality s = false

-- quality_run is not None and its status is PASSED
unfoldable pub has_passed : Option QualityRun → Bool
has_passed none = false
has_passed (some q) = elim q.status [ QualityRunStatus.passed ↦ true | _ ↦ false ]

-- the new WorkItem: it is built without the key for duplicates
unfoldable pub transitioned : WorkItem → WorkItemStatus → WorkItem
transitioned item target = record item { status = target; dedup_key = none }

unfoldable pub status_changed : WorkItem → WorkItemStatus → Option QualityRun → Fields
unfolding status_value
status_changed item target quality_run = field "workItemId" (str item.work_item_id) (
    field "oldStatus" (str (status_value item.status)) (
      field "newStatus" (str (status_value target)) (
        field "qualityRunId" (elim quality_run [ none ↦ null | some q ↦ str q.quality_run_id ])
          end)))

-- transition_work_item_status
unfoldable pub transition_work_item_status :
    WorkItem
    → WorkItemStatus
    → Option QualityRun
    → ℕ
    → EventBus
    → EventBus × Result ServiceError WorkItem
unfolding needs_quality has_passed transitioned status_changed kernel_event publish
transition_work_item_status item target quality_run now bus =
    if needs_quality target && not (has_passed quality_run)
    then (bus, err (ServiceError.missing_quality_run item.work_item_id target))
    else (
      publish (kernel_event "work_item.status_changed" (status_changed item target quality_run) now)
          bus,
      ok (transitioned item target),
    )
