-- ===== src/PlanSchema.antt =====
-- orchestrator/bin/plan_schema.py: plans, their subtasks, and the dependency graph.
pub mod Json
pub mod Types
pub mod Text
pub mod Graph
pub mod Parse
pub mod Print
