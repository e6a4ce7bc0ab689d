-- ===== src/Scheduling.antt =====
-- Cross-plan scheduling: the plans table (orchestrator/bin/db.py), the propagation of a plan's end
-- to the plans that depend on it (status_propagator.py), and the scheduling cycle
-- (global_scheduler.py). The three share the table and nothing else.
pub mod Store
pub mod Propagator
pub mod Scheduler
