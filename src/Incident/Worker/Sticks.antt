-- ===== src/Incident/Worker/Sticks.antt =====
-- What of an incident stays, whatever the worker of apps/incident_worker/service.py is sent.
use ai_devops.Common.{
  ◌≤◌, String, false, Option, none, some, List, [], ◌∷◌, ◌≡◌, refl, sym, ◌∙◌, ◌⊎◌, inl, inr, arith,
  Bool-cases, Option-cases, subst, str_eq,
}
use ai_devops.PlanSchema.Text.{is_empty, strip}
use ai_devops.Incident.Triage.{fingerprint}
use ai_devops.Incident.Worker.{
  Incident, IncidentWorker, IncidentFaults, IncidentEvent, IncidentAudit, alert, system, Alert,
  Verification, or_else, backfill, read_incident, record_incident_audit, no_audit, opened, repeated,
  closed, ingest_alert, verify_incident, handle_incident_event,
}
use ai_devops.Incident.Worker.Changes.{IsValid, Outcome, Quiet, read-id, change-Outcome}

-- A text that is set is kept.
abbrev pub IsKept : Option String → Option String → Type 0
IsKept none b = Unit
IsKept (some s) b = is_empty s ≡ false → b ≡ some s

-- How an incident may change: its message, its severity and its details stay, so do a source and a
-- key for duplicates once they are set, it is never reopened, and its alerts are counted up.
pub record Follows (i j : Incident) : Type 0 where
  pub incident_id : j.incident_id ≡ i.incident_id
  pub message : j.message ≡ i.message
  pub severity : j.severity ≡ i.severity
  pub details : j.details ≡ i.details
  pub source_system : IsKept i.source_system j.source_system
  pub dedup_key : IsKept i.dedup_key j.dedup_key
  pub status : (j.status ≡ i.status) ⊎ (j.status ≡ "closed")
  pub count : i.occurrence_count ≤ j.occurrence_count

-- No incident that can be read is lost, and each follows what it was.
abbrev pub Sticks : Option Incident → Option Incident → Type 0
Sticks none q = Unit
Sticks (some i) none = ⊥
Sticks (some i) (some j) = Follows i j

IsKept-refl : (a : Option String) → IsKept a a
IsKept-refl none = tt
IsKept-refl (some s) = λ h. refl

IsKept-trans : (a b c : Option String) → IsKept a b → IsKept b c → IsKept a c
IsKept-trans none b c h k = tt
IsKept-trans (some s) none c h k = λ f. cc (h f)
IsKept-trans (some s) (some t) c h k = λ f.
    let same : some t ≡ some s = h f in let e : t ≡ s = ground (arith, same) in k (rw e f) ∙ same

backfill-IsKept : (old given : Option String) → IsKept old (backfill old given)
unfolding backfill
backfill-IsKept none given = tt
backfill-IsKept (some s) none = λ h. refl
backfill-IsKept (some s) (some t) = λ h. rw (backfill, h) refl

Follows-refl : (i : Incident) → Follows i i
Follows-refl i = record {
  incident_id = refl;
  message = refl;
  severity = refl;
  details = refl;
  source_system = IsKept-refl i.source_system;
  dedup_key = IsKept-refl i.dedup_key;
  status = inl refl;
  count = omega arith;
}

Follows-trans : (i j k : Incident) → Follows i j → Follows j k → Follows i k
Follows-trans i j k a b = record {
  incident_id = b.incident_id ∙ a.incident_id;
  message = b.message ∙ a.message;
  severity = b.severity ∙ a.severity;
  details = b.details ∙ a.details;
  source_system =
      IsKept-trans i.source_system j.source_system k.source_system a.source_system b.source_system;
  dedup_key = IsKept-trans i.dedup_key j.dedup_key k.dedup_key a.dedup_key b.dedup_key;
  status = elim b.status [
    | inr e ↦ inr e
    | inl e ↦ elim a.status [ inl f ↦ inl (e ∙ f) | inr f ↦ inr (e ∙ f) ]
  ];
  count = omega (arith, a.count, b.count);
}

Sticks-refl : (p : Option Incident) → Sticks p p
Sticks-refl none = tt
Sticks-refl (some i) = Follows-refl i

Sticks-trans : (p q r : Option Incident) → Sticks p q → Sticks q r → Sticks p r
Sticks-trans none q r a b = tt
Sticks-trans (some i) none r a b = absurd a
Sticks-trans (some i) (some j) none a b = absurd b
Sticks-trans (some i) (some j) (some k) a b = Follows-trans i j k a b

repeated-Follows : (a : Alert) (i : Incident) → Follows i (repeated a i)
unfolding repeated
repeated-Follows a i = record {
  incident_id = refl;
  message = refl;
  severity = refl;
  details = refl;
  source_system = backfill-IsKept i.source_system _;
  dedup_key = backfill-IsKept i.dedup_key _;
  status = inl refl;
  count = omega arith;
}

closed-Follows : (i : Incident) → Follows i (closed i)
unfolding closed
closed-Follows i = record {
  incident_id = refl;
  message = refl;
  severity = refl;
  details = refl;
  source_system = IsKept-refl i.source_system;
  dedup_key = IsKept-refl i.dedup_key;
  status = inr refl;
  count = omega arith;
}

-- Every incident that the worker reads sticks, and the worker stays valid.
pub record Stays (w w' : IncidentWorker) : Type 0 where
  pub valid : IsValid w'
  pub sticks : (k : String) → Sticks (read_incident k w) (read_incident k w')

Stays-refl : (w : IncidentWorker) → IsValid w → Stays w w
Stays-refl w v = record { valid = v; sticks = λ k. Sticks-refl (read_incident k w) }

Outcome-Stays :
    (id : String) (i : Incident) (w w' : IncidentWorker)
    → Outcome id i w w'
    → Sticks (read_incident id w) (some i)
    → Stays w w'
Outcome-Stays id i w w' o s = record {
  valid = o.valid;
  sticks = λ k. elim (o.reads k) [
    | inl e ↦ subst (Sticks (read_incident k w)) (sym e) (Sticks-refl (read_incident k w))
    | inr (f, e) ↦
        subst (Sticks (read_incident k w)) (sym e)
          (subst (λ x. Sticks (read_incident x w) (some i)) f s)
  ];
}

audit-Quiet :
    {E : Type 0} (fault : Option E) (a : IncidentAudit) → Quiet (record_incident_audit fault a)
unfolding record_incident_audit
audit-Quiet none a = λ w. (refl, refl)
audit-Quiet (some e) a = λ w. (refl, refl)

no_audit-Quiet : (E : Type 0) → Quiet {E = E} no_audit
unfolding no_audit
no_audit-Quiet E = λ w. (refl, refl)

module _ {E : Type 0} (lower digest : String → String) where
  ingest-Stays :
      (a : Alert) (faults : IncidentFaults E) (w : IncidentWorker)
      → IsValid w
      → Stays w (ingest_alert lower digest a faults w).0
  unfolding ingest_alert opened repeated
  ingest-Stays a faults w v =
      let message = strip (or_else a.message "") in
      let id = fingerprint lower digest message in
      elim (Bool-cases (is_empty message)) [
        | inl e ↦ rw (ingest_alert, e) (Stays-refl w v)
        | inr e ↦ elim (Option-cases (read_incident id w)) [
          | inl p ↦
              let i = opened lower id message a in
              rw (ingest_alert, e, p)
                (Outcome-Stays id i w _
                  (change-Outcome faults id none i
                    (record_incident_audit faults.on_audit
                      (record { entity_id = id; action = "incident_opened"; detail = i.severity }))
                    w v p refl (audit-Quiet faults.on_audit _))
                  (subst (λ x. Sticks x (some i)) (sym p) tt))
          | inr (i, p) ↦
              rw (ingest_alert, e, p)
                (Outcome-Stays id (repeated a i) w _
                  (change-Outcome faults id (some i) (repeated a i) no_audit w v p
                    (read-id id w i v p) (no_audit-Quiet E))
                  (subst (λ x. Sticks x (some (repeated a i))) (sym p) (repeated-Follows a i)))
        ]
      ]

  verify-Stays :
      (t : Verification) (faults : IncidentFaults E) (w : IncidentWorker)
      → IsValid w
      → Stays w (verify_incident lower digest t faults w).0
  unfolding verify_incident closed
  verify-Stays t faults w v =
      let id = strip (or_else t.incident_id "") in
      elim (Bool-cases (str_eq (or_else t.type "") "incident_verify")) [
        | inr e ↦ rw (verify_incident, e) (Stays-refl w v)
        | inl e ↦ elim (Option-cases (read_incident id w)) [
          | inl p ↦ rw (verify_incident, e, p) (Stays-refl w v)
          | inr (i, p) ↦ elim (Bool-cases t.resolved) [
            | inr r ↦ rw (verify_incident, e, p, r) (Stays-refl w v)
            | inl r ↦
                rw (verify_incident, e, p, r)
                  (Outcome-Stays id (closed i) w _
                    (change-Outcome faults id (some i) (closed i)
                      (record_incident_audit faults.on_audit (record {
                        entity_id = id;
                        action = "incident_closed";
                        detail = "resolved";
                      }))
                      w v p (read-id id w i v p) (audit-Quiet faults.on_audit _))
                    (subst (λ x. Sticks x (some (closed i))) (sym p) (closed-Follows i)))
          ]
        ]
      ]

  -- The worker after a list of events, each with what raises in its handler.
  abbrev pub handle_all : List (IncidentEvent × IncidentFaults E) → IncidentWorker → IncidentWorker
  handle_all [] w = w
  handle_all ((t, faults) ∷ ts) w = handle_all ts (handle_incident_event lower digest t faults w).0

  handle-Stays :
      (t : IncidentEvent) (faults : IncidentFaults E) (w : IncidentWorker)
      → IsValid w
      → Stays w (handle_incident_event lower digest t faults w).0
  unfolding handle_incident_event
  handle-Stays (alert a) faults w v = ingest-Stays a faults w v
  handle-Stays (system t) faults w v = verify-Stays t faults w v

  -- For a worker whose incidents stand under their own ids: whatever alerts and verifications come
  -- and whatever raises while they are handled, the incidents still stand so, no incident that can
  -- be read is lost, and each keeps its message, severity and details, its source and key for
  -- duplicates once they are set, stays closed if it was closed, and never counts fewer alerts.
  pub incidents-Stays :
      (ts : List (IncidentEvent × IncidentFaults E)) (w : IncidentWorker)
      → IsValid w
      → Stays w (handle_all ts w)
  incidents-Stays [] w v = Stays-refl w v
  incidents-Stays ((t, faults) ∷ ts) w v =
      let one = handle-Stays t faults w v in
      let w1 = (handle_incident_event lower digest t faults w).0 in
      let rest = incidents-Stays ts w1 one.valid in
      record {
        valid = rest.valid;
        sticks = λ k.
            Sticks-trans (read_incident k w) (read_incident k w1)
              (read_incident k (handle_all ts w1)) (one.sticks k) (rest.sticks k);
      }
