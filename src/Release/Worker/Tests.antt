-- ===== src/Release/Worker/Tests.antt =====
-- A worker with a table, and a release at its third stage.
use ai_devops.Common.{
  ℕ, ltb, String, false, none, some, List, [], ◌∷◌, ◌≡◌, refl, concat, arith, eq_iff,
}
use ai_devops.Common.Assoc.{lookup}
use ai_devops.Common.Result.{err}
use ai_devops.Release.Stages.Order.{Lowers}
use ai_devops.Release.Store.{Release, get_release, newest}
use ai_devops.Release.Worker.{
  Worker, Faults, Env, Event, read_release, read_from, is_final, advance,
}
use ai_devops.Release.Worker.Reads.{IsValid}
use ai_devops.Release.Worker.Restores.{Untouched, advance_restores}
use ai_devops.Release.Worker.Rollout.{Phase, Shows}
use ai_devops.Release.Worker.Refines.{Refines, Call, run, run-Refines}
use ai_devops.Release.Worker.Success.{advances, advances-succeeded}

abbrev env : Env ℕ
env = record {
  lower = λ s. s;
  later = λ a b. false;
  greater = λ a b. ltb b a;
  shown = λ metric a b. metric;
}

lowers : Lowers env.lower
lowers = (refl, (refl, (refl, (refl, (refl, (refl, (refl, tt)))))))

abbrev third : Release
third = record {
  release_id = "rel_w1";
  work_item_id = "w1";
  stage = "1%";
  status = "rolling_out";
  rollback_reason = none;
}

abbrev worker : Worker
worker = record {
  releases = [];
  store = some (("rel_w1", third) ∷ []);
  audits = [];
  applied = [];
  alerts = [];
}

third_read : read_release env.later "w1" worker ≡ some third
unfolding read_release read_from get_release newest
third_read = refl

third-Shows : Shows third (Phase.rolling 2)
third-Shows = (omega arith, refl, refl)

third_rolling : is_final third ≡ false
unfolding is_final
third_rolling = refl

worker-IsValid : IsValid worker
unfolding concat lookup
worker-IsValid = record {
  cached = λ k r h. cc;
  stored = ((refl, refl, tt), λ k r h. ground (arith, h, eq_iff "rel_w1" k));
}

abbrev audit_down : Faults String
audit_down = record {
  on_save = none;
  on_restore = none;
  on_audit = some "audit down";
  on_publish = none;
}

advance_restores_example :
    ((advance env "w1" audit_down worker).1 ≡ err "audit down")
    × Untouched env.later worker (advance env "w1" audit_down worker).0
advance_restores_example =
    advance_restores env "w1" audit_down worker third "audit down" worker-IsValid third_read
      third_rolling refl refl refl

abbrev calls : List (Call String ℕ)
calls =
    Call.advances "w1" audit_down
    ∷ Call.receives
        (Event.system (record {
          type = some "guardrail_breach";
          work_item_id = some "w1";
          guardrails = ("errors", 7) ∷ [];
          thresholds = ("errors", 5) ∷ [];
        }))
        audit_down
    ∷ []

run-Refines_example : Refines env.later worker (run env calls worker)
run-Refines_example = run-Refines env calls worker lowers worker-IsValid

advances-succeeded_example :
    (r : Release) × (read_release env.later "w1" (advances String env 3 "w1" worker) ≡ some r)
    × Shows r Phase.succeeded
advances-succeeded_example =
    advances-succeeded String env 3 2 "w1" worker third lowers worker-IsValid refl third_read
      third-Shows
