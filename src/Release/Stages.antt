-- ===== src/Release/Stages.antt =====
-- RolloutController and RollbackController of packages/release. `str.lower` of the language is the
-- argument `lower`; the metrics are floats, of which the code only asks whether one is greater.
pub mod Order
use ai_devops.Common.{
  ℕ, suc, String, Bool, true, false, Option, none, some, List, [], ◌∷◌, ◌≡◌, str_eq, if◌then◌else◌,
  All,
}
use ai_devops.Common.Assoc.{Assoc, lookup}
use ai_devops.PlanSchema.Text.{strip}

-- STAGES
abbrev pub stages : List String
stages = "team-only" ∷ "beta" ∷ "1%" ∷ "5%" ∷ "20%" ∷ "full" ∷ []

-- The stage behind `current` in `rest`, the last one behind itself; `first` if it is not there.
unfoldable pub stage_after : String → String → List String → String
stage_after first current [] = first
stage_after first current (s ∷ []) = if str_eq s current then s else first
stage_after first current (s ∷ t ∷ rest) =
    let later = stage_after first current (t ∷ rest) in if str_eq s current then t else later

-- next_stage
unfoldable pub next_stage : (String → String) → String → String
unfolding stage_after
next_stage lower current = stage_after "team-only" (lower (strip current)) stages

-- RollbackDecision: the metric, its value and its threshold, which the reason shows
pub data RollbackDecision (N : Type 0) : Type 0 where
  within : RollbackDecision N
  breach : String → N → N → RollbackDecision N

-- RollbackController.evaluate
unfoldable pub evaluate : {N : Type 0} → (N → N → Bool) → Assoc N → Assoc N → RollbackDecision N
evaluate greater guardrails [] = within
evaluate greater guardrails ((metric, threshold) ∷ rest) =
    let later = evaluate greater guardrails rest in
    elim (lookup metric guardrails) [
      | none ↦ later
      | some value ↦ if greater value threshold then breach metric value threshold else later
    ]
