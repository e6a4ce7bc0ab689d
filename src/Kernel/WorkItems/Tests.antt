-- ===== src/Kernel/WorkItems/Tests.antt =====
-- A work item with two gates, one of which fails.
use ai_devops.Common.{true, false, some, [], ◌∷◌}
use ai_devops.Common.Assoc.{Assoc}
use ai_devops.Common.Int.{ℤ}
use ai_devops.PlanSchema.Json.{Fields, end, field, bool}
use ai_devops.Kernel.Models.{WorkItem, WorkItemType, WorkItemPriority, WorkItemStatus}
use ai_devops.Kernel.Bus.{EventBus}

abbrev item : WorkItem
item = record {
  work_item_id = "wi_1";
  type = WorkItemType.feature;
  title = "t";
  goal = "g";
  priority = WorkItemPriority.medium;
  status = WorkItemStatus.ready;
  repo = "r";
  constraints = end;
  acceptance_criteria = [];
  requested_by = "u";
  requested_at = ℤ.pos 1;
  source = "platform";
  metadata = end;
  dedup_key = some "k";
}

abbrev gates : Assoc Fields
gates = ("lint", field "passed" (bool true) end) ∷ ("tests", field "passed" (bool false) end) ∷ []

abbrev bus : EventBus
bus = record { subscribers = "audit" ∷ []; history = []; max_history = 200; delivered = [] }
