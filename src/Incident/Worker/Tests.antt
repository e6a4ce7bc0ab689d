-- ===== src/Incident/Worker/Tests.antt =====
-- A worker with one incident, which is reported again, with the recorder of audits out of order.
use ai_devops.Common.{String, true, none, some, List, [], ◌∷◌, ◌≡◌, refl, arith, eq_iff}
use ai_devops.Common.Assoc.{lookup}
use ai_devops.PlanSchema.Json.{end}
use ai_devops.PlanSchema.Text.{strip}
use ai_devops.Incident.Worker.{
  Incident, IncidentWorker, IncidentFaults, IncidentEvent, alert, system, identity, backfill,
}
use ai_devops.Incident.Worker.Changes.{IsValid}
use ai_devops.Incident.Worker.Sticks.{Stays, handle_all, incidents-Stays}

abbrev known : Incident
known = record {
  incident_id = "inc_db down";
  message = "db down";
  severity = "high";
  status = "open";
  occurrence_count = 3;
  details = end;
  source_system = some "pager";
  dedup_key = none;
}

abbrev worker : IncidentWorker
worker = record { incidents = []; store = some (("inc_db down", known) ∷ []); audits = [] }

worker-IsValid : IsValid worker
unfolding lookup
worker-IsValid = record {
  cached = record { keyed = λ k i e. cc };
  stored = record { keyed = λ k i e. ground (arith, e, eq_iff "inc_db down" k) };
}

abbrev broken : IncidentFaults String
broken = record { on_save = none; on_restore = some "store down"; on_audit = some "no recorder" }

abbrev events : List (IncidentEvent × IncidentFaults String)
events =
    (
      alert (record {
        message = some "db  down ";
        level = some "error";
        details = none;
        source_system_camel = some "other";
        source_system_snake = none;
        dedup_key_camel = none;
        dedup_key_snake = some "k1";
      }),
      broken,
    )
    ∷ (
      system (record {
        type = some "incident_verify";
        incident_id = some "inc_db down";
        resolved = true;
      }),
      broken,
    )
    ∷ []

first_source_kept : backfill (some "pager") (identity (some "other") none) ≡ some "pager"
unfolding backfill identity strip
first_source_kept = refl

incidents-Stays_example : Stays worker (handle_all (λ s. s) (λ s. s) events worker)
incidents-Stays_example = incidents-Stays (λ s. s) (λ s. s) events worker worker-IsValid
