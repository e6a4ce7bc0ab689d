-- ===== src/Kernel/Retry.antt =====
-- RetryHandler of packages/kernel/monitor/handlers.py, with HandlerContext. Which of its outside
-- calls raise in a call, and what, is the argument `faults`; the failure logs and the restarts that
-- they make are recorded. Numbers of attempts are natural.
pub mod Bounded
mod Tests
use ai_devops.Common.{
  ℕ, zero, suc, ◌+◌, String, Bool, true, false, Option, none, some, List, [], ◌∷◌, ◌++◌, leb,
  if◌then◌else◌, ◌||◌,
}
use ai_devops.Common.Result.{Result, ok, err}
use ai_devops.PlanSchema.Text.{is_empty}

-- What the handler reads and writes of the dictionary of a task; a missing id is the empty text.
pub record RetryTask : Type 0 where
  pub id : String
  pub branch : String
  pub repo : String
  pub attempts : ℕ
  pub max_attempts_camel : Option ℕ
  pub max_attempts_snake : Option ℕ
  pub status : String

-- A payload of apply_update, and one of publish, by the values that differ.
pub record RetryUpdate : Type 0 where
  pub status : String
  pub attempts : Option ℕ

-- HandlerContext, and what the functions of the handler have done
pub record RetryContext : Type 0 where
  pub task : RetryTask
  pub updates : List RetryUpdate
  pub events : List RetryUpdate
  pub failure_logs : List (String × String)
  pub restarts : List ℕ

pub record RetryFaults (E : Type 0) : Type 0 where
  pub on_run_failure : Option E
  pub on_log : Option E
  pub on_prompt : Option E
  pub on_restart : Option E
  pub on_update : Option E
  pub on_publish : Option E

-- int(task.get("maxAttempts") or task.get("max_attempts", 3))
unfoldable pub snake_or_three : Option ℕ → ℕ
snake_or_three none = 3
snake_or_three (some n) = n

unfoldable pub max_attempts : Option ℕ → Option ℕ → ℕ
unfolding snake_or_three
max_attempts none snake = snake_or_three snake
max_attempts (some zero) snake = snake_or_three snake
max_attempts (some (suc n)) snake = suc n

-- self.task.update(payload)
unfoldable pub updated_task : RetryUpdate → RetryTask → RetryTask
updated_task u t = record t {
  status = u.status;
  attempts = elim u.attempts [ none ↦ t.attempts | some n ↦ n ];
}

module _ {E : Type 0} where
  -- apply_update and then publish, with the same values
  unfoldable pub report : RetryFaults E → RetryUpdate → RetryContext → RetryContext × Result E Bool
  unfolding updated_task
  report faults u c = elim faults.on_update [
    | some e ↦ (c, err e)
    | none ↦
        let c1 : RetryContext = record c {
          task = updated_task u c.task;
          updates = c.updates ++ u ∷ [];
        } in
        elim faults.on_publish [
          | some e ↦ (c1, err e)
          | none ↦ (record c1 { events = c1.events ++ u ∷ [] }, ok true)
        ]
  ]

  -- the part of handle behind the test of the attempts
  unfoldable pub retry : RetryFaults E → String → RetryContext → RetryContext × Result E Bool
  unfolding report
  retry faults summary c =
      let retry_n = c.task.attempts + 1 in
      elim faults.on_run_failure [
        | some e ↦ (c, err e)
        | none ↦ elim faults.on_log [
          | some e ↦ (c, err e)
          | none ↦
              let c1 : RetryContext = record c {
                failure_logs = c.failure_logs ++ (c.task.id, summary) ∷ [];
              } in
              elim faults.on_prompt [
                | some e ↦ (c1, err e)
                | none ↦ elim faults.on_restart [
                  | some e ↦ (c1, err e)
                  | none ↦
                      report faults (record { status = "running"; attempts = some retry_n })
                        (record c1 { restarts = c1.restarts ++ retry_n ∷ [] })
                ]
              ]
        ]
      ]

  -- RetryHandler.handle
  unfoldable pub handle_retry : RetryFaults E → String → RetryContext → RetryContext × Result E Bool
  unfolding retry report max_attempts
  handle_retry faults summary c =
      if is_empty c.task.id || is_empty summary
      then (c, ok false)
      else if leb (max_attempts c.task.max_attempts_camel c.task.max_attempts_snake) c.task.attempts
      then report faults (record { status = "blocked"; attempts = none }) c
      else retry faults summary c
