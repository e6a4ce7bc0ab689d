-- ===== src/Ralph.antt =====
-- The execution states of the Ralph loop: orchestrator/bin/ralph_state.py.
pub mod State
