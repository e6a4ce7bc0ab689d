-- ===== src/Release/Stages/Order.antt =====
-- The stages in the order in which RolloutController goes through them.
use ai_devops.Common.{ℕ, zero, suc, String, ◌∷◌, ◌≡◌, refl, All}
use ai_devops.PlanSchema.Text.{strip}
use ai_devops.Release.Stages.{stages, next_stage, stage_after}

-- The stage at a position, the last one from there on.
abbrev pub stage_name : ℕ → String
stage_name zero = "team-only"
stage_name (suc zero) = "beta"
stage_name (suc (suc zero)) = "1%"
stage_name (suc (suc (suc zero))) = "5%"
stage_name (suc (suc (suc (suc zero)))) = "20%"
stage_name (suc (suc (suc (suc (suc n))))) = "full"

-- str.lower leaves the names of the stages as they are.
abbrev pub Lowers : (String → String) → Type 0
Lowers lower = All (λ s. lower s ≡ s) ("unknown" ∷ stages)

pub next_stage-stage_name :
    (lower : String → String) (n : ℕ)
    → Lowers lower
    → next_stage lower (stage_name n) ≡ stage_name (suc n)
unfolding next_stage stage_after strip
next_stage-stage_name lower zero h = rw h.1.0 refl
next_stage-stage_name lower (suc zero) h = rw h.1.1.0 refl
next_stage-stage_name lower (suc (suc zero)) h = rw h.1.1.1.0 refl
next_stage-stage_name lower (suc (suc (suc zero))) h = rw h.1.1.1.1.0 refl
next_stage-stage_name lower (suc (suc (suc (suc zero)))) h = rw h.1.1.1.1.1.0 refl
next_stage-stage_name lower (suc (suc (suc (suc (suc n))))) h = rw h.1.1.1.1.1.1.0 refl

pub next_stage-unknown :
    (lower : String → String) → Lowers lower → next_stage lower "unknown" ≡ stage_name 0
unfolding next_stage stage_after strip
next_stage-unknown lower h = rw h.0 refl
