-- ===== src/Incident/Worker.antt =====
-- IncidentWorker of apps/incident_worker/service.py, with the incidents table of
-- packages/kernel/storage/postgres.py, whose rows stand under their incident_id. Which of its
-- outside calls raise in a call, and what, is the argument `faults`.
pub mod Changes
pub mod Sticks
mod Tests
use ai_devops.Common.{
  ℕ, ◌+◌, String, Bool, true, false, Option, none, some, List, [], ◌∷◌, ◌++◌, str_eq, not,
  if◌then◌else◌,
}
use ai_devops.Common.Assoc.{Assoc, lookup, insert, remove}
use ai_devops.PlanSchema.Json.{Fields, end}
use ai_devops.PlanSchema.Text.{strip, is_empty}
use ai_devops.Release.Mutation.{Action, apply}
use ai_devops.Incident.Triage.{fingerprint, score}

-- The dictionary of an incident.
pub record Incident : Type 0 where
  pub incident_id : String
  pub message : String
  pub severity : String
  pub status : String
  pub occurrence_count : ℕ
  pub details : Fields
  pub source_system : Option String
  pub dedup_key : Option String

-- AuditEvent: the incident, the action, and the value of the payload
pub record IncidentAudit : Type 0 where
  pub entity_id : String
  pub action : String
  pub detail : String

-- What the store's save of a new value, its save or delete of the old one, and the recorder raise.
pub record IncidentFaults (E : Type 0) : Type 0 where
  pub on_save : Option E
  pub on_restore : Option E
  pub on_audit : Option E

-- The fields of IncidentWorker, and the table behind its store if there is one.
pub record IncidentWorker : Type 0 where
  pub incidents : Assoc Incident
  pub store : Option (Assoc Incident)
  pub audits : List IncidentAudit

-- The payload of an alert, with both spellings of its keys.
pub record Alert : Type 0 where
  pub message : Option String
  pub level : Option String
  pub details : Option Fields
  pub source_system_camel : Option String
  pub source_system_snake : Option String
  pub dedup_key_camel : Option String
  pub dedup_key_snake : Option String

-- The payload of a system event.
pub record Verification : Type 0 where
  pub type : Option String
  pub incident_id : Option String
  pub resolved : Bool

pub data IncidentEvent : Type 0 where
  alert : Alert → IncidentEvent
  system : Verification → IncidentEvent

-- a or b, for texts that may be None
unfoldable pub or_else : Option String → String → String
or_else none s = s
or_else (some t) s = if is_empty t then s else t

-- str(a or b or "").strip() or None
unfoldable pub identity : Option String → Option String → Option String
unfolding or_else
identity a b =
    let text = strip (or_else a (or_else b "")) in if is_empty text then none else some text

-- the value that stays: the old one if it is set, else the new one if it is given
unfoldable pub backfill : Option String → Option String → Option String
backfill none given = given
backfill (some old) none = some old
backfill (some old) (some given) = if is_empty old then some given else some old

unfoldable pub read_in : Option (Assoc Incident) → Assoc Incident → String → Option Incident
read_in none cache id = lookup id cache
read_in (some rows) cache id = elim (lookup id rows) [ some i ↦ some i | none ↦ lookup id cache ]

-- get_incident
unfoldable pub read_incident : String → IncidentWorker → Option Incident
unfolding read_in
read_incident id w = read_in w.store w.incidents id

module _ {E : Type 0} where
  -- store.save_incident
  unfoldable pub save_incident :
      Option E → Incident → Option (Assoc Incident) → Option (Assoc Incident) × Option E
  save_incident fault i none = (none, none)
  save_incident (some e) i (some rows) = (some rows, some e)
  save_incident none i (some rows) = (some (insert i.incident_id i rows), none)

  -- store.delete_incident
  unfoldable pub delete_incident :
      Option E → String → Option (Assoc Incident) → Option (Assoc Incident) × Option E
  delete_incident fault id none = (none, none)
  delete_incident (some e) id (some rows) = (some rows, some e)
  delete_incident none id (some rows) = (some (remove id rows), none)

  -- _persist_incident, and the branch of _rollback_incident that restores
  unfoldable pub persist_incident : Option E → String → Incident → Action IncidentWorker E
  unfolding save_incident
  persist_incident fault id i w =
      let saved = save_incident fault i w.store in
      (record w { incidents = insert id i w.incidents; store = saved.0 }, saved.1)

  -- _rollback_incident
  unfoldable pub rollback_incident : Option E → String → Option Incident → Action IncidentWorker E
  unfolding persist_incident delete_incident
  rollback_incident fault id none w =
      let deleted = delete_incident fault id w.store in
      (record w { incidents = remove id w.incidents; store = deleted.0 }, deleted.1)
  rollback_incident fault id (some previous) w = persist_incident fault id previous w

  unfoldable pub record_incident_audit : Option E → IncidentAudit → Action IncidentWorker E
  record_incident_audit (some e) a w = (w, some e)
  record_incident_audit none a w = (record w { audits = w.audits ++ a ∷ [] }, none)

  -- `audit=lambda: None`
  unfoldable pub no_audit : Action IncidentWorker E
  no_audit w = (w, none)

  -- the call of MutationService.apply
  unfoldable pub change_incident :
      IncidentFaults E
      → String
      → Option Incident
      → Incident
      → Action IncidentWorker E
      → Action IncidentWorker E
  change_incident faults id previous updated audit =
      apply (persist_incident faults.on_save id updated) audit []
        (some (rollback_incident faults.on_restore id previous))

-- the incident that the first alert opens
unfoldable pub opened : (String → String) → String → String → Alert → Incident
unfolding identity
opened lower id message a = record {
  incident_id = id;
  message = message;
  severity =
      score lower (elim a.level [ none ↦ "warning" | some l ↦ if is_empty l then "warning" else l ])
        message;
  status = "open";
  occurrence_count = 1;
  details = elim a.details [ none ↦ end | some d ↦ d ];
  source_system = identity a.source_system_camel a.source_system_snake;
  dedup_key = identity a.dedup_key_camel a.dedup_key_snake;
}

-- the incident after one more alert
unfoldable pub repeated : Alert → Incident → Incident
unfolding identity backfill
repeated a i = record i {
  source_system = backfill i.source_system (identity a.source_system_camel a.source_system_snake);
  dedup_key = backfill i.dedup_key (identity a.dedup_key_camel a.dedup_key_snake);
  occurrence_count = i.occurrence_count + 1;
}

-- the incident when it is closed
unfoldable pub closed : Incident → Incident
closed i = record i { status = "closed" }

module _ {E : Type 0} (lower digest : String → String) where
  -- _ingest_alert
  unfoldable pub ingest_alert : Alert → IncidentFaults E → Action IncidentWorker E
  unfolding or_else
  ingest_alert a faults w =
      let message = strip (or_else a.message "") in
      if is_empty message
      then (w, none)
      else (let id = fingerprint lower digest message in
          elim (read_incident id w) [
            | none ↦
                let i = opened lower id message a in
                change_incident faults id none i
                  (record_incident_audit faults.on_audit
                    (record { entity_id = id; action = "incident_opened"; detail = i.severity }))
                  w
            | some i ↦ change_incident faults id (some i) (repeated a i) no_audit w
          ])

  -- _verify_incident; VerifyEngine.should_close gives what it is given
  unfoldable pub verify_incident : Verification → IncidentFaults E → Action IncidentWorker E
  unfolding or_else
  verify_incident v faults w =
      if not (str_eq (or_else v.type "") "incident_verify")
      then (w, none)
      else (let id = strip (or_else v.incident_id "") in
          elim (read_incident id w) [
            | none ↦ (w, none)
            | some i ↦
                if v.resolved
                then change_incident faults id (some i) (closed i)
                    (record_incident_audit faults.on_audit
                      (record { entity_id = id; action = "incident_closed"; detail = "resolved" }))
                    w
                else (w, none)
          ])

  -- _handle_event
  unfoldable pub handle_incident_event : IncidentEvent → IncidentFaults E → Action IncidentWorker E
  handle_incident_event (alert a) faults w = ingest_alert a faults w
  handle_incident_event (system v) faults w = verify_incident v faults w
