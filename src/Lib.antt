-- ===== src/Lib.antt =====
-- Verification library of the ai-devops orchestrator: the part of it that decides what runs, in
-- which order, and when a crashed task is tried again.
--
-- A planner writes a plan, a JSON object with subtasks and the dependencies between them. The plan is
-- read and validated (orchestrator/bin/plan_schema.py), stored as a row of the plans table
-- (orchestrator/bin/db.py), considered by the scheduling cycle together with the other plans
-- (orchestrator/bin/global_scheduler.py), and when it ends, the plans that wait for it are told
-- (orchestrator/bin/status_propagator.py). The dispatcher writes the subtasks of a plan
-- whose dependencies are completed into the queue (orchestrator/bin/dispatch.py), polling until all
-- of them are there. A task that crashes goes through the states of the
-- recovery machine (orchestrator/bin/recovery_state_machine.py), which keeps its attempts in the
-- task's row. Agents send each other messages over the bus, which keeps them in a table and in queues.
-- The Ralph loop keeps the state of its tasks in a table of its own. When the code of a work item is
-- ready, the release worker takes it through the stages of a rollout, and takes it back at a breach.
-- The incident worker keeps one incident for each kind of alert. A work item is released only with a
-- quality run that has passed its gates.
--
-- The files and the code they are about:
--   Common        names shared by all modules: Boolean tests (Tests), lists (Lists), signed integers
--                 (Int), lists of names (Names), code that may raise (Result), and Python's
--                 dictionaries, as functions (Dict) and in order of insertion (Assoc)
--   PlanSchema    orchestrator/bin/plan_schema.py
--     Json        what json.loads gives, and dict.get
--     Types       TaskType, Subtask, RoutingDefaults, Plan, the exceptions and the constants
--     Text        str.strip, IDENTIFIER_RE and sanitize_identifier
--     Graph       _validate_dependencies, subtasks_by_id and topologically_sorted_subtasks
--     Parse       the checks of single fields and the three from_dict
--     Print       the three to_dict
--   Recovery      orchestrator/bin/recovery_state_machine.py
--     Seconds     the floats of the clock, as a parameter
--     Data        RecoveryState, the table of transitions, RecoveryConfig, RecoveryContext
--     Machine     the methods of RecoveryStateMachine
--   Scheduling
--     Store       the operations on the plans table of orchestrator/bin/db.py
--     Propagator  StatusPropagator
--     Scheduler   GlobalScheduler
--   Messaging
--     Store       Message, and the operations on the messages table of orchestrator/bin/db.py
--     Bus         MessageBus of orchestrator/bin/message_bus.py
--   Ralph
--     State       the table of execution states of orchestrator/bin/ralph_state.py
--   Dispatch
--     Paths       the path rules of a plan, in orchestrator/bin/dispatch.py, and constraint_path_list
--                 of orchestrator/bin/task_spec.py
--     Scope       _validate_subtask_scope
--     Registry    ready_subtask_ids, can_dispatch, register_plan and the status of a plan
--     Tasks       build_execution_task and the archive of the subtasks
--     Queue       dispatch_ready_subtasks and watch_and_dispatch
--     Status      update_plan_status_from_tasks
--     Global      dispatch_with_global_scheduler and dispatch_plan_file
--   Release
--     Stages      packages/release/rollout/service.py and packages/release/rollback/service.py
--     Mutation    packages/shared/mutation/service.py
--     Store       the releases table of packages/kernel/storage/postgres.py
--     Worker      apps/release_worker/service.py, with packages/release/flags/statsig.py
--   Incident
--     Triage      packages/incident/triage/service.py
--     Worker      apps/incident_worker/service.py, with the incidents table of
--                 packages/kernel/storage/postgres.py
--   Kernel
--     Models      the data of packages/shared/domain/models.py
--     Bus         packages/kernel/events/bus.py
--     Gates       packages/quality/gates/service.py
--     WorkItems   packages/kernel/services/work_items.py
--     Retry       RetryHandler of packages/kernel/monitor/handlers.py
-- The children of a module hold the proofs about it, and its child Tests the runs at concrete inputs.
--
-- Conventions. A method is a function that takes the state of its object and gives the new one beside
-- its result; an exception is an error of Result; a mapping that is looped over is an association list
-- in order of insertion, any other is a function. Calls of the database are steps on the rows, and
-- where the code catches their exceptions, whether each call raises is a parameter. A callback or a
-- listener is recorded in a trace and changes nothing else. Readings of the clock are arguments.
--
-- Fuel. The two loops of Graph that Python writes with `while` take the number of subtasks plus one as
-- fuel. Each round takes one name off the queue, a name enters it once, and the last round finds it
-- empty; the theorems about both functions rest on the proof that this is enough. The polling loop of
-- watch_and_dispatch takes its polls as fuel, and watch_finishes says how many are enough.
--
-- Not modelled: the JSON parser, SQLite, the operating system (processes, tmux, git, files), HTTP, and
-- the logging. Floats are a parameter with the laws that the theorems name; the literal of a JSON
-- float stands for itself, since the code only asks for its type, and once whether it is zero.
pub mod Common
pub mod PlanSchema
pub mod Recovery
pub mod Scheduling
pub mod Messaging
pub mod Ralph
pub mod Release
pub mod Dispatch
pub mod Incident
pub mod Kernel
