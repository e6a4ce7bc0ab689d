-- ===== src/Kernel/Retry/Tests.antt =====
-- A task with one attempt left, which fails three times.
use ai_devops.Common.{◌+◌, ◌≤◌, String, none, some, List, [], ◌∷◌, length, arith, refl}
use ai_devops.Kernel.Retry.{RetryContext, RetryFaults, max_attempts, snake_or_three}
use ai_devops.Kernel.Retry.Bounded.{limit, handle_failures, retries_bounded}

abbrev start : RetryContext
start = record {
  task = record {
    id = "t1";
    branch = "b";
    repo = "r";
    attempts = 2;
    max_attempts_camel = none;
    max_attempts_snake = none;
    status = "running";
  };
  updates = [];
  events = [];
  failure_logs = [];
  restarts = [];
}

abbrev clear : RetryFaults String
clear = record {
  on_run_failure = none;
  on_log = none;
  on_prompt = none;
  on_restart = none;
  on_update = none;
  on_publish = none;
}

abbrev unpublished : RetryFaults String
unpublished = record clear { on_publish = some "bus down" }

abbrev failures : List (RetryFaults String × String)
failures = (clear, "lint") ∷ (unpublished, "tests") ∷ (clear, "tests") ∷ []

start_within : start.task.attempts ≤ limit start
unfolding max_attempts snake_or_three
start_within = omega arith

retries_bounded_example :
    ((handle_failures failures start).task.attempts ≤ limit start)
    × (length (handle_failures failures start).restarts + 2 ≤ 0 + limit start)
retries_bounded_example = retries_bounded failures start (refl, (refl, (refl, tt))) start_within
