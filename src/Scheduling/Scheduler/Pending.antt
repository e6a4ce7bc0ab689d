-- ===== src/Scheduling/Scheduler/Pending.antt =====
-- The order of get_pending_plans of orchestrator/bin/global_scheduler.py.
use ai_devops.Common.{true, false, List, [], ◌∷◌, ◌≡◌, ◌⊎◌, All}
use ai_devops.Common.Int.{ltb_ℤ}
use mathlib.Core.List.{Perm}
use mathlib.Core.List.Perm
use ai_devops.Scheduling.Store.{PlanRow}

-- a has a higher priority than b, or the same priority and a request that is not later.
abbrev pub Precedes : PlanRow → PlanRow → Type 0
Precedes a b =
    (ltb_ℤ b.global_priority a.global_priority ≡ true)
    ⊎ ((a.global_priority ≡ b.global_priority) × (ltb_ℤ b.requested_at a.requested_at ≡ false))

-- Every plan precedes all the later ones.
abbrev pub IsSorted : List PlanRow → Type 0
IsSorted [] = Unit
IsSorted (r ∷ rs) = All (Precedes r) rs × IsSorted rs

abbrev pub IsWaiting : PlanRow → Type 0
IsWaiting r = (r.status ≡ "pending") ⊎ (r.status ≡ "running")
