-- ===== src/Recovery/Machine/Tests.antt =====
-- The recovery machine with whole seconds, at a task that crashed once.
use ai_devops.Common.{
  ℕ, suc, ◌≤◌, ◌<◌, String, str_eq, Bool, true, false, none, some, [], ◌∷◌, ◌≡◌, refl, ◌⊎◌, arith,
  if◌then◌else◌,
}
use ai_devops.Common.Assoc.{lookup, insert}
use ai_devops.PlanSchema.Json.{end}
use ai_devops.Recovery.Seconds.{whole_seconds}
use ai_devops.Recovery.Data.{
  RecoveryState, RecoveryConfig, RecoveryContext, valid_transition, fresh_context,
}
use ai_devops.Recovery.Machine.{
  Machine, TaskRow, Metadata, Callbacks, Readings, stored_context, or_fresh, get_context, refusal,
  unlimited, cooling, can_transition, transition, calculate_backoff,
}
use ai_devops.Recovery.Machine.Attempts.{Bounded, query, recover, run_calls, run_calls-Bounded}
use ai_devops.Recovery.Machine.Transitions.{
  calculate_backoff-capped, transition_outcome, recovered_stays,
}
use ai_devops.Recovery.Machine.Persistence.{restarted, transition_reloads}

abbrev config : RecoveryConfig ℕ
config = record {
  max_recovery_attempts = 3;
  recovery_cooldown_seconds = 300;
  backoff_multiplier = 2;
  max_backoff_seconds = 1800;
}

abbrev hooks : Callbacks
hooks = record {
  on_state_change = true;
  on_recovery_attempt = true;
  on_recovery_success = true;
  on_recovery_failed = true;
}

abbrev blank_row : TaskRow ℕ
blank_row = record {
  recovery_state = none;
  recovery_attempts = 0;
  recovery_started_at = none;
  recovery_metadata = Metadata.absent;
}

abbrev crashed : Machine ℕ
crashed = record {
  contexts = [];
  rows = λ k. if str_eq k "t1" then some blank_row else none;
  trace = [];
}

abbrev now : Readings ℕ
now = record { at_check = 1000; at_start = 1001; at_attempt = 1002 }

begun :
    (transition whole_seconds config hooks crashed "t1" RecoveryState.recovering none now).1 ≡ true
unfolding transition can_transition get_context lookup insert stored_context or_fresh fresh_context
    refusal valid_transition unlimited cooling calculate_backoff
begun = refl

own_id : (get_context crashed "t1").1.task_id ≡ "t1"
unfolding get_context lookup stored_context or_fresh fresh_context
own_id = refl

transition_reloads_example :
    lookup "t1"
      (transition whole_seconds config hooks crashed "t1" RecoveryState.recovering none
        now).0.contexts
    ≡ some
        (get_context
          (restarted
            (transition whole_seconds config hooks crashed "t1" RecoveryState.recovering none
              now).0)
          "t1").1
transition_reloads_example =
    transition_reloads whole_seconds config hooks crashed "t1" RecoveryState.recovering none now
      blank_row refl own_id begun

crashed-Bounded : Bounded 3 crashed
unfolding lookup stored_context
crashed-Bounded = record {
  cached = λ k c e. cc e;
  stored = λ k c e. no_context k c (str_eq k "t1") e;
}
  where
    no_context :
        (k : String) (c : RecoveryContext ℕ) (b : Bool)
        → stored_context (if b then some blank_row else none) ≡ some c
        → c.attempts ≤ 3
    no_context k c true e = cc e
    no_context k c false e = cc e

run_calls-Bounded_example :
    Bounded 3
      (run_calls whole_seconds config hooks crashed (recover "t1" 1000 now ∷ query "t2" ∷ []))
run_calls-Bounded_example =
    run_calls-Bounded whole_seconds config hooks crashed (recover "t1" 1000 now ∷ query "t2" ∷ [])
      crashed-Bounded

abbrev healed : RecoveryContext ℕ
healed = record {
  task_id = "t1";
  state = RecoveryState.recovered;
  attempts = 1;
  started_at = some 1001;
  last_attempt_at = some 1002;
  last_error = none;
  recovery_metadata = end;
}

abbrev healed_machine : Machine ℕ
healed_machine = record { contexts = ("t1", healed) ∷ []; rows = crashed.rows; trace = [] }

healed_cached : lookup "t1" healed_machine.contexts ≡ some healed
unfolding lookup
healed_cached = refl

recovered_stays_example :
    lookup "t1"
      (run_calls whole_seconds config hooks healed_machine
        (recover "t1" 5000 now ∷ query "t2" ∷ [])).contexts
    ≡ some healed
recovered_stays_example =
    recovered_stays whole_seconds config hooks healed_machine "t1" healed
      (recover "t1" 5000 now ∷ query "t2" ∷ []) refl healed_cached (tt, (tt, tt))

calculate_backoff-capped_example :
    whole_seconds.lt 1800 (calculate_backoff whole_seconds config 4) ≡ false
calculate_backoff-capped_example = calculate_backoff-capped whole_seconds config 4 (omega arith)

abbrev Outcome : Type 0
Outcome =
    ((c' : RecoveryContext ℕ) × ((transition whole_seconds config hooks crashed "t1"
          RecoveryState.recovering none now).1
        ≡ true)
      × (valid_transition (get_context crashed "t1").1.state RecoveryState.recovering ≡ true)
      × ((get_context crashed "t1").1.attempts < 3)
      × (c'.state ≡ RecoveryState.recovering)
      × (c'.last_error ≡ none)
      × (c'.attempts ≡ suc (get_context crashed "t1").1.attempts)
      × ((k : String)
          → lookup k
              (transition whole_seconds config hooks crashed "t1" RecoveryState.recovering none
                now).0.contexts
            ≡ (if str_eq "t1" k then some c' else lookup k (get_context crashed "t1").0.contexts))
      × ((k : String)
          → (transition whole_seconds config hooks crashed "t1" RecoveryState.recovering none
                now).0.rows
              k
            ≡ (if str_eq "t1" k
                then (transition whole_seconds config hooks crashed "t1" RecoveryState.recovering
                      none now).0.rows
                    "t1"
                else crashed.rows k)))
    ⊎ (((transition whole_seconds config hooks crashed "t1" RecoveryState.recovering none now).1
          ≡ false)
        × ((transition whole_seconds config hooks crashed "t1" RecoveryState.recovering none now).0
            ≡ (get_context crashed "t1").0)
        × ((transition whole_seconds config hooks crashed "t1" RecoveryState.recovering none
              now).0.rows
            ≡ crashed.rows))

transition_outcome_example : Outcome
transition_outcome_example =
    transition_outcome whole_seconds config hooks crashed "t1" RecoveryState.recovering none now
      own_id
