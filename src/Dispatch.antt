-- ===== src/Dispatch.antt =====
-- orchestrator/bin/dispatch.py, and constraint_path_list of orchestrator/bin/task_spec.py.
pub mod Paths
pub mod Scope
pub mod Registry
pub mod Tasks
pub mod Queue
pub mod Status
pub mod Global
mod Tests
