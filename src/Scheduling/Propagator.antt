-- ===== src/Scheduling/Propagator.antt =====
-- StatusPropagator of orchestrator/bin/status_propagator.py. Whether a call of the database raises,
-- and with which message, is the parameter `raises`; the readings of the clock during one call are
-- the argument `now`. A listener is a name, and what it is sent is recorded in `delivered`.
pub mod Log
pub mod Frame
pub mod Exact
mod Tests
use ai_devops.Common.{
  ℕ, zero, suc, String, Bool, Option, none, some, List, [], ◌∷◌, ◌++◌, map, length, drop, ◌-◌, ltb,
  str_eq, if◌then◌else◌, not,
}
use ai_devops.Common.Names.{mem}
use ai_devops.PlanSchema.Json.{Fields, end, field, str}
use ai_devops.Scheduling.Store.{
  PlanRow, Update, update_plan, get_all_plans, depends_on, are_plan_dependencies_completed,
}

-- PropagationEvent
pub record PropagationEvent : Type 0 where
  pub event_type : String
  pub plan_id : String
  pub timestamp : ℕ
  pub details : Fields

-- An entry of PropagationResult.errors, with the message of the exception.
pub data PropagationError : Type 0 where
  update_failed : String → PropagationError
  processing_failed : String → String → PropagationError

-- PropagationResult
pub record PropagationResult : Type 0 where
  pub triggered_plans : List String
  pub blocked_plans : List String
  pub errors : List PropagationError

-- The fields of StatusPropagator, and the table it works on.
pub record Propagator : Type 0 where
  pub rows : List PlanRow
  pub listeners : List String
  pub event_log : List PropagationEvent
  pub delivered : List (String × PropagationEvent)

abbrev pub max_event_log : ℕ
max_event_log = 1000

-- add_listener
pub add_listener : String → Propagator → Propagator
add_listener l p = record p { listeners = p.listeners ++ l ∷ [] }

remove_first : String → List String → List String
remove_first l [] = []
remove_first l (x ∷ xs) = if str_eq x l then xs else x ∷ remove_first l xs

-- remove_listener
pub remove_listener : String → Propagator → Propagator
unfolding remove_first
remove_listener l p = record p { listeners = remove_first l p.listeners }

-- self._event_log[-n:], for n > 0
unfoldable pub last_events : ℕ → List PropagationEvent → List PropagationEvent
last_events n log = drop (length log - n) log

-- the append of _emit_event, with its limit
unfoldable pub log_event : List PropagationEvent → PropagationEvent → List PropagationEvent
unfolding last_events
log_event log e =
    let log' = log ++ e ∷ [] in
    if ltb max_event_log (length log') then last_events max_event_log log' else log'

-- _emit_event
unfoldable pub emit_event : PropagationEvent → Propagator → Propagator
unfolding log_event
emit_event e p = record p {
  event_log = log_event p.event_log e;
  delivered = p.delivered ++ map (λ l. (l, e)) p.listeners;
}

-- The calls of the database, with their arguments.
pub data Call : Type 0 where
  update check : String → Call
  all_plans : Call

unfoldable pub dependents : String → List PlanRow → List String
dependents id [] = []
dependents id (r ∷ rs) =
    let rest = dependents id rs in
    if str_eq r.plan_id id then rest else if mem id (depends_on r) then r.plan_id ∷ rest else rest

module _ (raises : Call → Option String) where
  -- _find_dependent_plans
  unfoldable pub find_dependent_plans : String → List PlanRow → List String
  unfolding dependents
  find_dependent_plans id rows = elim (raises Call.all_plans) [
    | some e ↦ []
    | none ↦ dependents id (get_all_plans 1000 rows)
  ]

  -- _trigger_plan_dispatch
  unfoldable pub trigger_plan_dispatch : String → ℕ → Propagator → Propagator
  unfolding emit_event
  trigger_plan_dispatch id now p = elim (raises (Call.update id)) [
    | some e ↦ p
    | none ↦
        emit_event
          (record {
            event_type = "dependency_met";
            plan_id = id;
            timestamp = now;
            details = field "action" (str "dispatch_triggered") end;
          })
          (record p { rows = update_plan id (Update.status "ready" ∷ []) now p.rows })
  ]

  -- one turn of the loop of on_plan_completed
  unfoldable pub process_dependent :
      String → ℕ → Propagator × PropagationResult → Propagator × PropagationResult
  unfolding trigger_plan_dispatch
  process_dependent dep now (p, result) = elim (raises (Call.check dep)) [
    | some e ↦ (
      p,
      record result { errors = result.errors ++ PropagationError.processing_failed dep e ∷ [] },
    )
    | none ↦
        if (are_plan_dependencies_completed p.rows dep).0
        then (
          trigger_plan_dispatch dep now p,
          record result { triggered_plans = result.triggered_plans ++ dep ∷ [] },
        )
        else (p, record result { blocked_plans = result.blocked_plans ++ dep ∷ [] })
  ]

  unfoldable pub process_dependents :
      List String → ℕ → Propagator × PropagationResult → Propagator × PropagationResult
  unfolding process_dependent
  process_dependents [] now s = s
  process_dependents (dep ∷ deps) now s = process_dependents deps now (process_dependent dep now s)

  abbrev failed_update : String → PropagationResult
  failed_update e = record {
    triggered_plans = [];
    blocked_plans = [];
    errors = PropagationError.update_failed e ∷ [];
  }

  -- what on_plan_completed has done before its loop
  unfoldable pub mark_completed : String → ℕ → Propagator → Propagator
  unfolding emit_event
  mark_completed id now p =
      emit_event
        (record {
          event_type = "plan_completed";
          plan_id = id;
          timestamp = now;
          details = field "status" (str "completed") end;
        })
        (record p { rows = update_plan id (Update.status "completed" ∷ []) now p.rows })

  -- on_plan_completed
  unfoldable pub on_plan_completed : String → ℕ → Propagator → Propagator × PropagationResult
  unfolding mark_completed find_dependent_plans process_dependents
  on_plan_completed id now p = elim (raises (Call.update id)) [
    | some e ↦ (p, failed_update e)
    | none ↦
        let p1 = mark_completed id now p in
        process_dependents (find_dependent_plans id p1.rows) now
          (p1, record { triggered_plans = []; blocked_plans = []; errors = [] })
  ]

  -- on_plan_failed
  unfoldable pub on_plan_failed : String → String → ℕ → Propagator → Propagator × PropagationResult
  unfolding emit_event find_dependent_plans
  on_plan_failed id error now p = elim (raises (Call.update id)) [
    | some e ↦ (p, failed_update e)
    | none ↦
        let p1 =
          emit_event
            (record {
              event_type = "plan_failed";
              plan_id = id;
              timestamp = now;
              details = field "error" (str error) (field "status" (str "failed") end);
            })
            (record p {
              rows = update_plan id (Update.status "failed" ∷ Update.other "error" ∷ []) now p.rows;
            }) in
        (
          p1,
          record {
            triggered_plans = [];
            blocked_plans = find_dependent_plans id p1.rows;
            errors = [];
          },
        )
  ]

  -- on_plan_status_change
  unfoldable pub on_plan_status_change : String → String → String → ℕ → Propagator → Propagator
  on_plan_status_change id old_status new_status now p =
      let p1 =
        emit_event
          (record {
            event_type = "status_changed";
            plan_id = id;
            timestamp = now;
            details = field "oldStatus" (str old_status) (field "newStatus" (str new_status) end);
          })
          p in
      if str_eq new_status "completed"
      then (on_plan_completed id now p1).0
      else if str_eq new_status "failed"
      then (on_plan_failed id "Status changed to failed" now p1).0
      else p1

-- get_event_log: a limit of 0 gives the whole log, as log[-0:] is log[0:]
pub get_event_log : ℕ → Propagator → List PropagationEvent
get_event_log zero p = p.event_log
get_event_log (suc n) p = last_events (suc n) p.event_log

-- clear_event_log
pub clear_event_log : Propagator → Propagator
clear_event_log p = record p { event_log = [] }
