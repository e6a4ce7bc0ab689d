-- ===== src/Recovery/Machine.antt =====
-- The methods of RecoveryStateMachine. The readings of `time.time()` are arguments.
pub mod Steps
pub mod Attempts
pub mod Moves
pub mod Transitions
pub mod Persistence
mod Tests
use ai_devops.Common.{
  ℕ, suc, String, str_eq, Bool, true, false, not, Option, none, some, List, [], ◌∷◌, ◌++◌, leb, ◌-◌,
  if◌then◌else◌,
}
use ai_devops.Common.Dict.{Dict}
use ai_devops.Common.Assoc.{Assoc, lookup, insert}
use ai_devops.PlanSchema.Json.{end}
use ai_devops.Recovery.Seconds.{Seconds}
use ai_devops.Recovery.Data.{
  RecoveryState, state_value, valid_transition, RecoveryConfig, RecoveryContext, ContextDict,
  fresh_context, to_dict, from_dict,
}

-- The column `recovery_metadata` as `json.loads` finds it.
pub data Metadata (F : Type 0) : Type 0 where
  absent unreadable not_object : Metadata F
  context : ContextDict F → Metadata F

-- The columns of a task that the machine reads and writes.
pub record TaskRow (F : Type 0) : Type 0 where
  pub recovery_state : Option String
  pub recovery_attempts : ℕ
  pub recovery_started_at : Option ℕ
  pub recovery_metadata : Metadata F

-- What happens outside the machine, in order: the callbacks, and the writes of a context.
pub data Effect : Type 0 where
  attempt : String → ℕ → Effect
  success : String → Effect
  failure : String → String → Effect
  changed : String → RecoveryState → RecoveryState → Effect
  persisted : String → Effect

-- Which callbacks are set.
pub record Callbacks : Type 0 where
  pub on_state_change : Bool
  pub on_recovery_attempt : Bool
  pub on_recovery_success : Bool
  pub on_recovery_failed : Bool

pub record Machine (F : Type 0) : Type 0 where
  pub contexts : Assoc (RecoveryContext F)
  pub rows : Dict (TaskRow F)
  pub trace : List Effect

-- Why a transition is refused.
pub data Refusal : Type 0 where
  invalid : RecoveryState → RecoveryState → Refusal
  max_attempts_exceeded in_cooldown : Refusal

-- The context that a row holds, if it can be read.
pub stored_context : {F : Type 0} → Option (TaskRow F) → Option (RecoveryContext F)
stored_context none = none
stored_context (some row) = elim row.recovery_metadata [ context d ↦ from_dict d | _ ↦ none ]

pub or_fresh : {F : Type 0} → String → Option (RecoveryContext F) → RecoveryContext F
or_fresh task_id none = fresh_context task_id
or_fresh task_id (some c) = c

-- get_context
unfoldable pub get_context : {F : Type 0} → Machine F → String → Machine F × RecoveryContext F
unfolding stored_context or_fresh
get_context m task_id = elim (lookup task_id m.contexts) [
  | some c ↦ (m, c)
  | none ↦
      let c = or_fresh task_id (stored_context (m.rows task_id)) in
      (record m { contexts = insert task_id c m.contexts }, c)
]

-- if callback: callback(...)
abbrev pub emit : Bool → Effect → List Effect → List Effect
emit true e trace = trace ++ e ∷ []
emit false e trace = trace

pub record Readings (F : Type 0) : Type 0 where
  pub at_check : F
  pub at_start : F
  pub at_attempt : F

module _ (S : Seconds) where
  open S use {F, minus, plus, times, power, lt, truthy, millis}

  -- min(a, b)
  min_seconds : F → F → F
  min_seconds a b = if lt b a then b else a

  -- _calculate_backoff, where the power does not overflow the floats
  unfoldable pub calculate_backoff : RecoveryConfig F → ℕ → F
  unfolding min_seconds
  calculate_backoff cfg n =
      if leb n 0
      then cfg.recovery_cooldown_seconds
      else min_seconds (times cfg.recovery_cooldown_seconds (power cfg.backoff_multiplier (n - 1)))
          cfg.max_backoff_seconds

  -- if ctx.last_attempt_at is not None: ... if elapsed < cooldown
  cooling : RecoveryConfig F → RecoveryContext F → F → Bool
  cooling cfg c now = elim c.last_attempt_at [
    | none ↦ false
    | some last ↦ lt (minus now last) (calculate_backoff cfg c.attempts)
  ]

  unlimited : RecoveryConfig F → RecoveryContext F → RecoveryState → F → Option Refusal
  unfolding cooling
  unlimited cfg c RecoveryState.recovering now =
      if leb cfg.max_recovery_attempts c.attempts
      then some max_attempts_exceeded
      else if cooling cfg c now
      then some in_cooldown
      else none
  unlimited cfg c new now = none

  -- The tests of can_transition on a context.
  unfoldable pub refusal : RecoveryConfig F → RecoveryContext F → RecoveryState → F → Option Refusal
  unfolding unlimited
  refusal cfg c new now =
      if not (valid_transition c.state new)
      then some (invalid c.state new)
      else unlimited cfg c new now

  -- can_transition: `none` is (True, "OK")
  unfoldable pub can_transition :
      RecoveryConfig F → Machine F → String → RecoveryState → F → Machine F × Option Refusal
  can_transition cfg m task_id new now =
      let (m', c) = get_context m task_id in (m', refusal cfg c new now)

  -- `update_data` without its `None` values, written over the row
  pub write_row : RecoveryContext F → TaskRow F → TaskRow F
  write_row c row = record {
    recovery_state = some (state_value c.state);
    recovery_attempts = c.attempts;
    recovery_started_at = elim c.started_at [
      | none ↦ row.recovery_started_at
      | some t ↦ if truthy t then some (millis t) else row.recovery_started_at
    ];
    recovery_metadata = context (to_dict c);
  }

  -- _persist_context: an update of a task that has no row changes nothing
  unfoldable pub persist_context : Machine F → RecoveryContext F → Machine F
  unfolding write_row
  persist_context m c = record m {
    rows = λ k. elim (m.rows k) [
      | none ↦ none
      | some row ↦ if str_eq c.task_id k then some (write_row c row) else some row
    ];
    trace = m.trace ++ persisted c.task_id ∷ [];
  }

  -- The branch of `transition` for the new state: the context and the callback.
  pub enter : RecoveryContext F → RecoveryState → Option String → Readings F → RecoveryContext F
  enter c RecoveryState.recovering error now = record c {
    state = RecoveryState.recovering;
    last_error = error;
    started_at = elim c.started_at [ none ↦ some now.at_start | some t ↦ some t ];
    attempts = suc c.attempts;
    last_attempt_at = some now.at_attempt;
  }
  enter c new error now = record c { state = new; last_error = error }

  -- error or "Recovery failed"
  pub failure_message : Option String → String
  failure_message none = "Recovery failed"
  failure_message (some e) = if str_eq e "" then "Recovery failed" else e

  pub announce :
      Callbacks
      → String
      → RecoveryContext F
      → Option String
      → RecoveryState
      → List Effect
      → List Effect
  announce hooks task_id c error RecoveryState.recovering trace =
      emit hooks.on_recovery_attempt (attempt task_id c.attempts) trace
  announce hooks task_id c error RecoveryState.recovered trace =
      emit hooks.on_recovery_success (success task_id) trace
  announce hooks task_id c error RecoveryState.failed trace =
      emit hooks.on_recovery_failed (failure task_id (failure_message error)) trace
  announce hooks task_id c error RecoveryState.detecting trace = trace

  -- The part of `transition` behind its guard, on the context of the task.
  pub perform :
      Callbacks
      → Machine F
      → String
      → RecoveryContext F
      → RecoveryState
      → Option String
      → Readings F
      → Machine F
  perform hooks m task_id c new error now =
      let c' = enter c new error now in
      let m' : Machine F = record m {
        contexts = insert task_id c' m.contexts;
        trace = announce hooks task_id c' error new m.trace;
      } in
      let m'' = persist_context m' c' in
      record m'' { trace = emit hooks.on_state_change (changed task_id c.state new) m''.trace }

  -- transition
  unfoldable pub transition :
      RecoveryConfig F
      → Callbacks
      → Machine F
      → String
      → RecoveryState
      → Option String
      → Readings F
      → Machine F × Bool
  transition cfg hooks m task_id new error now =
      let (m', r) = can_transition cfg m task_id new now.at_check in
      elim r [
        | some why ↦ (m', false)
        | none ↦
            let (m'', c) = get_context m' task_id in
            (perform hooks m'' task_id c new error now, true)
      ]

  -- start_detection
  unfoldable pub start_detection : Machine F → String → F → Machine F × Bool
  start_detection m task_id now =
      let (m', c) = get_context m task_id in
      elim c.state [
        | RecoveryState.detecting ↦
            let c' : RecoveryContext F = record c { started_at = some now } in
            (persist_context (record m' { contexts = insert task_id c' m'.contexts }) c', true)
        | _ ↦ (m', false)
      ]

  -- start_recovery: true is (True, "Recovery started ...")
  unfoldable pub start_recovery :
      RecoveryConfig F → Callbacks → Machine F → String → F → Readings F → Machine F × Bool
  start_recovery cfg hooks m task_id now again =
      let (m', r) = can_transition cfg m task_id RecoveryState.recovering now in
      elim r [
        | some why ↦ (m', false)
        | none ↦ transition cfg hooks m' task_id RecoveryState.recovering none again
      ]

  -- complete_recovery
  unfoldable pub complete_recovery :
      RecoveryConfig F → Callbacks → Machine F → String → Readings F → Machine F × Bool
  complete_recovery cfg hooks m task_id now =
      transition cfg hooks m task_id RecoveryState.recovered none now

  -- fail_recovery
  unfoldable pub fail_recovery :
      RecoveryConfig F → Callbacks → Machine F → String → String → Readings F → Machine F × Bool
  fail_recovery cfg hooks m task_id error now =
      transition cfg hooks m task_id RecoveryState.failed (some error) now

  -- reset
  unfoldable pub reset : Machine F → String → Machine F
  reset m task_id = elim (lookup task_id m.contexts) [
    | none ↦ m
    | some c ↦
        let c' : RecoveryContext F = record c {
          state = RecoveryState.detecting;
          attempts = 0;
          started_at = none;
          last_attempt_at = none;
          last_error = none;
          recovery_metadata = end;
        } in
        persist_context (record m { contexts = insert task_id c' m.contexts }) c'
  ]

  -- get_next_attempt_after; `a >= b` is `not a < b`, as it is of times that are numbers
  unfoldable pub get_next_attempt_after :
      RecoveryConfig F → Machine F → String → F → Machine F × Option F
  get_next_attempt_after cfg m task_id now =
      let (m', c) = get_context m task_id in
      (
        m',
        elim c.state [
          | RecoveryState.recovering ↦ elim c.last_attempt_at [
            | none ↦ none
            | some last ↦
                let next = plus last (calculate_backoff cfg c.attempts) in
                if not (lt now next) then none else some next
          ]
          | _ ↦ none
        ],
      )

  -- active_recoveries
  count_recovering : Assoc (RecoveryContext F) → ℕ
  count_recovering [] = 0
  count_recovering ((k, c) ∷ rest) =
      let n = count_recovering rest in elim c.state [ RecoveryState.recovering ↦ suc n | _ ↦ n ]

  unfoldable pub active_recoveries : Machine F → ℕ
  unfolding count_recovering
  active_recoveries m = count_recovering m.contexts
