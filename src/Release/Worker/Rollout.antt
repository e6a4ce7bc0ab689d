-- ===== src/Release/Worker/Rollout.antt =====
-- The rollout of a release, without its representation: what the events and the advances of
-- apps/release_worker/service.py may do to one work item.
use ai_devops.Common.{
  ℕ, zero, suc, ◌<◌, ltb, String, true, false, Option, none, some, ◌≡◌, refl, ◌∙◌, arith, str_eq,
  if◌then◌else◌,
}
use ai_devops.PlanSchema.Text.{is_empty}
use ai_devops.Release.Stages.Order.{stage_name, Lowers, next_stage-stage_name}
use ai_devops.Release.Store.{Release}
use ai_devops.Release.Worker.{advanced, is_final}

-- Where the rollout of a work item stands.
pub data Phase : Type 0 where
  rolling : ℕ → Phase
  succeeded revoked : Phase

-- One change of it: a start, a stage further, the last stage, or a rollback at any time.
pub data Step : Option Phase → Option Phase → Type 0 where
  begin : Step none (some (Phase.rolling 0))
  next : (n : ℕ) → n < 4 → Step (some (Phase.rolling n)) (some (Phase.rolling (suc n)))
  finish : Step (some (Phase.rolling 4)) (some Phase.succeeded)
  revoke : (p : Phase) → Step (some p) (some Phase.revoked)

pub data Reach (p : Option Phase) : Option Phase → Type 0 where
  here : Reach p p
  later : {q r : Option Phase} → Reach p q → Step q r → Reach p r

-- The release's fields show the phase.
abbrev pub Shows : Release → Phase → Type 0
Shows r (Phase.rolling n) = (n < 5) × (r.stage ≡ stage_name n) × (r.status ≡ "rolling_out")
Shows r Phase.succeeded = (r.stage ≡ "full") × (r.status ≡ "succeeded")
Shows r Phase.revoked = r.status ≡ "rolled_back"

abbrev pub Abstracts : Option Release → Option Phase → Type 0
Abstracts none none = Unit
Abstracts (some r) (some p) = Shows r p
Abstracts r p = ⊥

pub rolling_not_final : (r : Release) (n : ℕ) → Shows r (Phase.rolling n) → is_final r ≡ false
unfolding is_final
rolling_not_final r n (b, s, t) = rw t refl

pub final_of :
    (r : Release) (s : String)
    → r.status ≡ s
    → is_final (record r { status = s }) ≡ true
    → is_final r ≡ true
unfolding is_final
final_of r s e f = rw e f

named : (n : ℕ) → is_empty (stage_name n) ≡ false
named zero = refl
named (suc zero) = refl
named (suc (suc zero)) = refl
named (suc (suc (suc zero))) = refl
named (suc (suc (suc (suc zero)))) = refl
named (suc (suc (suc (suc (suc n))))) = refl

advanced-stage :
    (lower : String → String) (r : Release) (n : ℕ)
    → Lowers lower
    → r.stage ≡ stage_name n
    → (advanced lower r).stage ≡ stage_name (suc n)
unfolding advanced
advanced-stage lower r n l s = rw (s, named n) (next_stage-stage_name lower n l)

not_full : (n : ℕ) → n < 4 → str_eq (stage_name (suc n)) "full" ≡ false
not_full zero h = refl
not_full (suc zero) h = refl
not_full (suc (suc zero)) h = refl
not_full (suc (suc (suc zero))) h = refl
not_full (suc (suc (suc (suc n)))) h = absurd (omega arith)

advanced-status :
    (lower : String → String) (r : Release)
    → (advanced lower r).status
      ≡ (if str_eq (advanced lower r).stage "full" then "succeeded" else r.status)
unfolding advanced
advanced-status lower r = refl

-- Before the last stage, an advance goes one stage further; at the last but one it succeeds.
pub advanced-Shows :
    (lower : String → String) (r : Release) (n : ℕ)
    → Lowers lower
    → n < 4
    → Shows r (Phase.rolling n)
    → Shows (advanced lower r) (Phase.rolling (suc n))
advanced-Shows lower r n l h (b, s, t) =
    let stage = advanced-stage lower r n l s in
    (omega arith, stage, advanced-status lower r ∙ rw (stage, not_full n h) t)

pub advanced-Shows_last :
    (lower : String → String) (r : Release)
    → Lowers lower
    → Shows r (Phase.rolling 4)
    → Shows (advanced lower r) Phase.succeeded
advanced-Shows_last lower r l (b, s, t) =
    let stage = advanced-stage lower r 4 l s in (stage, advanced-status lower r ∙ rw stage refl)

-- The phase that an advance leads to.
abbrev pub next_phase : Phase → Phase
next_phase (Phase.rolling n) = if ltb n 4 then Phase.rolling (suc n) else Phase.succeeded
next_phase p = p
