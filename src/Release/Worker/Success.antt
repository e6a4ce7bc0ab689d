-- ===== src/Release/Worker/Success.antt =====
-- The worker of apps/release_worker/service.py with nothing raising: a rollout comes to its end.
use ai_devops.Common.{
  ℕ, zero, suc, ◌+◌, ◌++◌, String, Bool, false, Option, none, some, [], ◌∷◌, ◌≡◌, refl, ap, ◌∙◌,
  subst, arith, str_eq, if◌then◌else◌,
}
use ai_devops.Release.Mutation.{Action, apply}
use ai_devops.Release.Stages.Order.{Lowers}
use ai_devops.Release.Store.{Release}
use ai_devops.Release.Worker.{
  Worker, Audit, Faults, Env, read_release, persist_release, record_audit, publish_stage, change,
  advance, advanced, is_final,
}
use ai_devops.Release.Worker.Reads.{IsValid, Belongs, read-Belongs}
use ai_devops.Release.Worker.Changes.{read-save_ok}
use ai_devops.Release.Worker.Steps.{Quiet, publish_stage-Quiet, publish-state}
use ai_devops.Release.Worker.Restores.{persist-clear}
use ai_devops.Release.Worker.Rollout.{
  Phase, Shows, rolling_not_final, advanced-Shows, advanced-Shows_last,
}
use ai_devops.Release.Worker.Refines.{advance-Refines}

-- Nothing raises.
abbrev pub clear : {E : Type 0} → Faults E
clear = record { on_save = none; on_restore = none; on_audit = none; on_publish = none }

persist_reads :
    (E : Type 0) (later : String → String → Bool) (wid : String) (r : Release) (w : Worker)
    → IsValid w
    → Belongs wid r
    → read_release later wid (persist_release {E = E} none wid r w).0 ≡ some r
unfolding read_release persist_release
persist_reads E later wid r w v b = read-save_ok later E wid r w.store w.releases b v.stored

Quiet-reads :
    (later : String → String → Bool) (wid : String) (w w' : Worker)
    → w'.releases ≡ w.releases
    → w'.store ≡ w.store
    → read_release later wid w' ≡ read_release later wid w
unfolding read_release
Quiet-reads later wid w w' e f = rw (e, f) refl

change_reads :
    {E : Type 0} (later : String → String → Bool) (wid : String) (previous : Option Release)
    (updated : Release) (audit : Audit) (publish : Action Worker E) (w : Worker)
    → IsValid w
    → Belongs wid updated
    → Quiet publish
    → read_release later wid (change clear wid previous updated audit publish w).0 ≡ some updated
unfolding change apply record_audit
change_reads {E} later wid previous updated audit publish w v b q =
    let w1 = (persist_release {E = E} none wid updated w).0 in
    let w2 : Worker = record w1 { audits = w1.audits ++ audit ∷ [] } in
    let one = persist-clear E wid updated w in
    rw (apply, one)
      (ap (read_release later wid) (publish-state later publish w2)
        ∙ Quiet-reads later wid w2 (publish w2).0 (q w2).0 (q w2).1
        ∙ Quiet-reads later wid w1 w2 refl refl
        ∙ persist_reads E later wid updated w v b)

module _ {N : Type 0} (E : Type 0) (env : Env N) where
  -- A number of advances of one work item.
  abbrev pub advances : ℕ → String → Worker → Worker
  advances zero wid w = w
  advances (suc m) wid w = advances m wid (advance {E = E} env wid clear w).0

  advance_reads :
      (wid : String) (w : Worker) (r : Release)
      → IsValid w
      → read_release env.later wid w ≡ some r
      → is_final r ≡ false
      → read_release env.later wid (advance {E = E} env wid clear w).0 ≡ some (advanced env.lower r)
  unfolding advance advanced
  advance_reads wid w r v p f =
      let b = read-Belongs env.later wid w r v p in
      let updated = advanced env.lower r in
      let audit : Audit = record {
        entity_id = updated.release_id;
        action =
            if str_eq updated.status "succeeded"
            then "release_succeeded"
            else "release_stage_advanced";
        work_item_id = wid;
        detail = updated.stage;
      } in
      rw (p, f, advance)
        (change_reads env.later wid (some r) updated audit
          (publish_stage {E = E} none updated.release_id updated.stage) w v b
          (publish_stage-Quiet none updated.release_id updated.stage))

  -- For a worker whose releases stand under their own work items, and a str.lower that leaves the
  -- names of the stages as they are: a release that is rolling out at its n-th stage has succeeded,
  -- at the stage "full", after 5 - n advances in which nothing raises.
  pub advances-succeeded :
      (m n : ℕ) (wid : String) (w : Worker) (r : Release)
      → Lowers env.lower
      → IsValid w
      → n + m ≡ 5
      → read_release env.later wid w ≡ some r
      → Shows r (Phase.rolling n)
      → (r' : Release) × (read_release env.later wid (advances m wid w) ≡ some r')
        × Shows r' Phase.succeeded
  advances-succeeded zero n wid w r l v e p s = absurd (omega (arith, e, s.0))
  advances-succeeded (suc zero) n wid w r l v e p s =
      let last : n ≡ 4 = omega (arith, e) in
      (
        advanced env.lower r,
        advance_reads wid w r v p (rolling_not_final r n s),
        advanced-Shows_last env.lower r l (subst (λ k. Shows r (Phase.rolling k)) last s),
      )
  advances-succeeded (suc (suc m)) n wid w r l v e p s =
      advances-succeeded (suc m) (suc n) wid (advance {E = E} env wid clear w).0
        (advanced env.lower r) l (advance-Refines env l wid clear w v).valid (omega (arith, e))
        (advance_reads wid w r v p (rolling_not_final r n s))
        (advanced-Shows env.lower r n l (omega (arith, e)) s)
