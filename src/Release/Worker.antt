-- ===== src/Release/Worker.antt =====
-- ReleaseWorker of apps/release_worker/service.py, with the flags of
-- packages/release/flags/statsig.py. Which of its outside calls raise in a call, and what, is the
-- argument `faults`; the event manager's alerts are recorded.
pub mod Reads
pub mod Changes
pub mod Steps
pub mod Restores
pub mod Rollout
pub mod Refines
pub mod Success
mod Tests
use ai_devops.Common.{
  String, Bool, true, false, Option, none, some, List, [], ◌∷◌, ◌++◌, str_eq, ◌||◌, not,
  if◌then◌else◌, concat,
}
use ai_devops.Common.Assoc.{Assoc, lookup, insert, remove}
use ai_devops.Common.Result.{Result, ok, err}
use ai_devops.PlanSchema.Text.{strip, is_empty}
use ai_devops.Release.Stages.{next_stage, RollbackDecision, within, breach, evaluate}
use ai_devops.Release.Mutation.{Action, apply}
use ai_devops.Release.Store.{Release, save_release, delete_release, get_release}

-- AuditEvent, with the value of its payload that tells it from others
pub record Audit : Type 0 where
  pub entity_id : String
  pub action : String
  pub work_item_id : String
  pub detail : String

-- What each outside call raises, if it does: the store's save of a new value, its save or delete of
-- the old one, the recorder of audits, and the publisher.
pub record Faults (E : Type 0) : Type 0 where
  pub on_save : Option E
  pub on_restore : Option E
  pub on_audit : Option E
  pub on_publish : Option E

-- The fields of ReleaseWorker, the table behind its store if there is one, and what it has sent.
pub record Worker : Type 0 where
  pub releases : Assoc Release
  pub store : Option (Assoc Release)
  pub audits : List Audit
  pub applied : Assoc (List String)
  pub alerts : List (String × String)

-- The payload of a task_status event.
pub record TaskStatus : Type 0 where
  pub status : Option String
  pub details_work_item : Option String
  pub task_id : Option String

-- The payload of a system event.
pub record SystemEvent (N : Type 0) : Type 0 where
  pub type : Option String
  pub work_item_id : Option String
  pub guardrails : Assoc N
  pub thresholds : Assoc N

pub data Event (N : Type 0) : Type 0 where
  task_status : TaskStatus → Event N
  system : SystemEvent N → Event N

-- str(value or "")
unfoldable pub or_empty : Option String → String
or_empty none = ""
or_empty (some s) = s

-- str(a or b or "").strip()
unfoldable pub work_item_of : TaskStatus → String
unfolding or_empty
work_item_of p =
    let own = or_empty p.details_work_item in
    strip (if is_empty own then or_empty p.task_id else own)

abbrev pub or_none {ℓ} : {A : Type ℓ} → Option A → A → Option A
or_none none a = none
or_none (some b) a = some b

-- StatsigFlagAdapter.apply_stage
unfoldable pub apply_stage : String → String → Assoc (List String) → Assoc (List String)
apply_stage id stage applied = elim (lookup id applied) [
  | none ↦ insert id (stage ∷ []) applied
  | some stages ↦ insert id (stages ++ stage ∷ []) applied
]

module _ (later : String → String → Bool) where
  unfoldable pub read_from : Option (Assoc Release) → Assoc Release → String → Option Release
  read_from none cache wid = lookup wid cache
  read_from (some rows) cache wid = elim (get_release later wid rows) [
    | some r ↦ some r
    | none ↦ lookup wid cache
  ]

  -- ReleaseWorker.get_release
  unfoldable pub read_release : String → Worker → Option Release
  unfolding read_from
  read_release wid w = read_from w.store w.releases wid

module _ {E : Type 0} where
  -- if store is not None: store.save_release(...)
  unfoldable pub save_in :
      Option E → Release → Option (Assoc Release) → Option (Assoc Release) × Option E
  save_in fault r none = (none, none)
  save_in (some e) r (some rows) = (some rows, some e)
  save_in none r (some rows) = (some (save_release r rows), none)

  -- if store is not None: store.delete_release(...)
  unfoldable pub delete_in :
      Option E → String → Option (Assoc Release) → Option (Assoc Release) × Option E
  delete_in fault wid none = (none, none)
  delete_in (some e) wid (some rows) = (some rows, some e)
  delete_in none wid (some rows) = (some (delete_release wid rows), none)

  -- _persist_release
  unfoldable pub persist_release : Option E → String → Release → Action Worker E
  unfolding save_in
  persist_release fault wid r w =
      let saved = save_in fault r w.store in
      (record w { releases = insert wid r w.releases; store = saved.0 }, saved.1)

  -- _rollback_release
  unfoldable pub rollback_release : Option E → String → Option Release → Action Worker E
  unfolding save_in delete_in
  rollback_release fault wid none w =
      let deleted = delete_in fault wid w.store in
      (record w { releases = remove wid w.releases; store = deleted.0 }, deleted.1)
  rollback_release fault wid (some previous) w =
      let saved = save_in fault previous w.store in
      (record w { releases = insert wid previous w.releases; store = saved.0 }, saved.1)

  unfoldable pub record_audit : Option E → Audit → Action Worker E
  record_audit (some e) a w = (w, some e)
  record_audit none a w = (record w { audits = w.audits ++ a ∷ [] }, none)

  unfoldable pub publish_stage : Option E → String → String → Action Worker E
  publish_stage (some e) id stage w = (w, some e)
  publish_stage none id stage w = (record w { applied = apply_stage id stage w.applied }, none)

  unfoldable pub publish_alert : Option E → String → String → Action Worker E
  publish_alert (some e) id reason w = (w, some e)
  publish_alert none id reason w = (record w { alerts = w.alerts ++ (id, reason) ∷ [] }, none)

  -- One change of a release: the call of MutationService.apply that all handlers make.
  unfoldable pub change :
      Faults E → String → Option Release → Release → Audit → Action Worker E → Action Worker E
  change faults wid previous updated audit publish =
      apply (persist_release faults.on_save wid updated) (record_audit faults.on_audit audit)
        (publish ∷ []) (some (rollback_release faults.on_restore wid previous))

-- What the worker uses of the language and the database: str.lower, the order on release ids, the
-- order of floats, and the text of a breach.
pub record Env (N : Type 0) : Type 0 where
  pub lower : String → String
  pub later : String → String → Bool
  pub greater : N → N → Bool
  pub shown : String → N → N → String

-- the release with its next stage, and "succeeded" at the last one
unfoldable pub advanced : (String → String) → Release → Release
advanced lower r =
    let stage = next_stage lower (if is_empty r.stage then "unknown" else r.stage) in
    record r { stage = stage; status = if str_eq stage "full" then "succeeded" else r.status }

-- the statuses at which advance does nothing
unfoldable pub is_final : Release → Bool
is_final r = str_eq r.status "rolled_back" || str_eq r.status "succeeded"

-- the release that _handle_task_status begins
unfoldable pub begun : (String → String) → String → Release
begun lower wid = record {
  release_id = concat "rel_" wid;
  work_item_id = wid;
  stage = next_stage lower "unknown";
  status = "rolling_out";
  rollback_reason = none;
}

-- the release rolled back, with the reason
unfoldable pub rolled_back : String → Release → Release
rolled_back reason r = record r { status = "rolled_back"; rollback_reason = some reason }

module _ {E N : Type 0} (env : Env N) where
  open env use {lower, later, greater, shown}

  -- advance
  unfoldable pub advance : String → Faults E → Worker → Worker × Result E (Option Release)
  unfolding advanced is_final
  advance wid faults w = elim (read_release later wid w) [
    | none ↦ (w, ok none)
    | some r ↦
        if is_final r
        then (w, ok (some r))
        else (let updated = advanced lower r in
            let audit : Audit = record {
              entity_id = updated.release_id;
              action =
                  if str_eq updated.status "succeeded"
                  then "release_succeeded"
                  else "release_stage_advanced";
              work_item_id = wid;
              detail = updated.stage;
            } in
            let (w', raised) =
              change faults wid (some r) updated audit
                (publish_stage faults.on_publish updated.release_id updated.stage) w in
            (w', elim raised [ none ↦ ok (some updated) | some e ↦ err e ]))
  ]

  -- _handle_task_status
  unfoldable pub handle_task_status : TaskStatus → Faults E → Action Worker E
  unfolding begun work_item_of
  handle_task_status p faults w =
      if not (str_eq (or_empty p.status) "ready")
      then (w, none)
      else (let wid = work_item_of p in
          if is_empty wid then (w, none) else elim (read_release later wid w) [
            | some r ↦ (w, none)
            | none ↦
                let r = begun lower wid in
                change faults wid none r
                  (record {
                    entity_id = r.release_id;
                    action = "release_started";
                    work_item_id = wid;
                    detail = r.stage;
                  })
                  (publish_stage faults.on_publish r.release_id r.stage) w
          ])

  -- _handle_system_event; `shown` is the text of the reason
  unfoldable pub handle_system_event : SystemEvent N → Faults E → Action Worker E
  unfolding rolled_back
  handle_system_event p faults w =
      if not (str_eq (or_empty p.type) "guardrail_breach")
      then (w, none)
      else (let wid = strip (or_empty p.work_item_id) in
          elim (read_release later wid w) [
            | none ↦ (w, none)
            | some r ↦ elim (evaluate greater p.guardrails p.thresholds) [
              | within ↦ (w, none)
              | breach metric value threshold ↦
                  let reason = shown metric value threshold in
                  let updated = rolled_back reason r in
                  change faults wid (some r) updated
                    (record {
                      entity_id = updated.release_id;
                      action = "release_rolled_back";
                      work_item_id = wid;
                      detail = reason;
                    })
                    (publish_alert faults.on_publish updated.release_id reason) w
            ]
          ])

  -- _handle_event
  unfoldable pub handle_event : Event N → Faults E → Action Worker E
  handle_event (task_status p) faults w = handle_task_status p faults w
  handle_event (system p) faults w = handle_system_event p faults w
