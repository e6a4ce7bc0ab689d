-- ===== src/Recovery/Data.antt =====
-- RecoveryState, the table of transitions, RecoveryConfig and RecoveryContext with its dictionary
-- form, of orchestrator/bin/recovery_state_machine.py.
use ai_devops.Common.{
  ℕ, String, Bool, true, false, Option, none, some, ◌≡◌, refl, str_eq, if◌then◌else◌,
}
use ai_devops.PlanSchema.Json.{Fields, end}

-- RecoveryState
pub data RecoveryState : Type 0 where
  detecting recovering recovered failed : RecoveryState

-- state.value
unfoldable pub state_value : RecoveryState → String
state_value RecoveryState.detecting = "detecting"
state_value RecoveryState.recovering = "recovering"
state_value RecoveryState.recovered = "recovered"
state_value RecoveryState.failed = "failed"

-- RecoveryState(value); `none` is the ValueError
unfoldable pub state_of : String → Option RecoveryState
state_of v =
    if str_eq v "detecting"
    then some RecoveryState.detecting
    else if str_eq v "recovering"
    then some RecoveryState.recovering
    else if str_eq v "recovered"
    then some RecoveryState.recovered
    else if str_eq v "failed"
    then some RecoveryState.failed
    else none

-- new in VALID_TRANSITIONS[old]
unfoldable pub valid_transition : RecoveryState → RecoveryState → Bool
valid_transition RecoveryState.detecting RecoveryState.recovering = true
valid_transition RecoveryState.recovering RecoveryState.recovered = true
valid_transition RecoveryState.recovering RecoveryState.failed = true
valid_transition RecoveryState.failed RecoveryState.detecting = true
valid_transition old new = false

-- The fields of RecoveryConfig that the machine reads.
pub record RecoveryConfig (F : Type 0) : Type 0 where
  pub max_recovery_attempts : ℕ
  pub recovery_cooldown_seconds : F
  pub backoff_multiplier : F
  pub max_backoff_seconds : F

-- RecoveryContext
pub record RecoveryContext (F : Type 0) : Type 0 where
  pub task_id : String
  pub state : RecoveryState
  pub attempts : ℕ
  pub started_at : Option F
  pub last_attempt_at : Option F
  pub last_error : Option String
  pub recovery_metadata : Fields

-- The dictionary form, with what each key holds, if it is there and not `None`; the state may be
-- there as `None`. The values have the types that to_dict gives them.
pub record ContextDict (F : Type 0) : Type 0 where
  pub task_id : Option String
  pub state : Option (Option String)
  pub attempts : Option ℕ
  pub started_at : Option F
  pub last_attempt_at : Option F
  pub last_error : Option String
  pub recovery_metadata : Option Fields

-- RecoveryContext(task_id=task_id)
unfoldable pub fresh_context : {F : Type 0} → String → RecoveryContext F
fresh_context task_id = record {
  task_id = task_id;
  state = RecoveryState.detecting;
  attempts = 0;
  started_at = none;
  last_attempt_at = none;
  last_error = none;
  recovery_metadata = end;
}

abbrev pub get_or : {A : Type 0} → Option A → A → A
get_or none d = d
get_or (some a) d = a

-- RecoveryContext.to_dict
unfoldable pub to_dict : {F : Type 0} → RecoveryContext F → ContextDict F
unfolding state_value
to_dict c = record {
  task_id = some c.task_id;
  state = some (some (state_value c.state));
  attempts = some c.attempts;
  started_at = c.started_at;
  last_attempt_at = c.last_attempt_at;
  last_error = c.last_error;
  recovery_metadata = some c.recovery_metadata;
}

-- RecoveryState(data.get("state", "detecting")); a null raises
state_entry : Option (Option String) → Option RecoveryState
unfolding state_of
state_entry none = state_of "detecting"
state_entry (some none) = none
state_entry (some (some s)) = state_of s

-- RecoveryContext.from_dict; `none` is the ValueError of an unknown state
unfoldable pub from_dict : {F : Type 0} → ContextDict F → Option (RecoveryContext F)
unfolding state_entry
from_dict d = elim (state_entry d.state) [
  | none ↦ none
  | some s ↦ some (record {
    task_id = get_or d.task_id "";
    state = s;
    attempts = get_or d.attempts 0;
    started_at = d.started_at;
    last_attempt_at = d.last_attempt_at;
    last_error = d.last_error;
    recovery_metadata = get_or d.recovery_metadata end;
  })
]

state_of-value : (s : RecoveryState) → state_of (state_value s) ≡ some s
unfolding state_of state_value
state_of-value RecoveryState.detecting = refl
state_of-value RecoveryState.recovering = refl
state_of-value RecoveryState.recovered = refl
state_of-value RecoveryState.failed = refl

pub from_dict-to_dict : {F : Type 0} (c : RecoveryContext F) → from_dict (to_dict c) ≡ some c
unfolding from_dict to_dict state_entry
from_dict-to_dict c = rw (state_of-value c.state, from_dict)
