-- ===== src/Kernel/Models.antt =====
-- The data of packages/shared/domain/models.py that the work item service uses.
use ai_devops.Common.{String, Option, List, map}
use ai_devops.Common.Int.{ℤ}
use ai_devops.PlanSchema.Json.{Fields, end, field, str, arr, of_list}

-- WorkItemType
pub data WorkItemType : Type 0 where
  feature bugfix incident release_note experiment ops : WorkItemType

-- WorkItemPriority
pub data WorkItemPriority : Type 0 where
  low medium high critical : WorkItemPriority

-- WorkItemStatus
pub data WorkItemStatus : Type 0 where
  queued planning running blocked ready released closed : WorkItemStatus

unfoldable pub status_value : WorkItemStatus → String
status_value WorkItemStatus.queued = "queued"
status_value WorkItemStatus.planning = "planning"
status_value WorkItemStatus.running = "running"
status_value WorkItemStatus.blocked = "blocked"
status_value WorkItemStatus.ready = "ready"
status_value WorkItemStatus.released = "released"
status_value WorkItemStatus.closed = "closed"

-- WorkItem
pub record WorkItem : Type 0 where
  pub work_item_id : String
  pub type : WorkItemType
  pub title : String
  pub goal : String
  pub priority : WorkItemPriority
  pub status : WorkItemStatus
  pub repo : String
  pub constraints : Fields
  pub acceptance_criteria : List String
  pub requested_by : String
  pub requested_at : ℤ
  pub source : String
  pub metadata : Fields
  pub dedup_key : Option String

-- QualityRunStatus
pub data QualityRunStatus : Type 0 where
  passed failed blocked : QualityRunStatus

-- QualityRun
pub record QualityRun : Type 0 where
  pub quality_run_id : String
  pub work_item_id : String
  pub gate_type : String
  pub status : QualityRunStatus
  pub summary : String
  pub payload : Fields

-- AgentRun, whose status is pending when it is prepared
pub record AgentRun : Type 0 where
  pub run_id : String
  pub work_item_id : String
  pub context_pack_id : String
  pub agent : String
  pub model : String
  pub planned_steps : List String

-- AgentRun.to_dict
unfoldable pub agent_run_to_dict : AgentRun → Fields
agent_run_to_dict r = field "runId" (str r.run_id) (
    field "workItemId" (str r.work_item_id) (
      field "contextPackId" (str r.context_pack_id) (
        field "agent" (str r.agent) (
          field "model" (str r.model) (
            field "status" (str "pending")
              (field "plannedSteps" (arr (of_list (map str r.planned_steps))) end))))))
