-- ===== src/Kernel/WorkItems/Gated.antt =====
-- The quality gates of packages/quality/gates/service.py before the release of a work item by
-- packages/kernel/services/work_items.py.
use ai_devops.Common.{String, Bool, true, ◌≡◌, All}
use ai_devops.Common.Assoc.{Assoc}
use ai_devops.PlanSchema.Json.{Fields}
use ai_devops.Kernel.Gates.{gate_passed}

-- Every gate has passed.
abbrev pub AllPassed : (String → Bool) → Assoc Fields → Type 0
AllPassed nonzero results = All (λ g. gate_passed nonzero g.1 ≡ true) results
