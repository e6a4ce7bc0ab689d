-- ===== src/Recovery.antt =====
-- orchestrator/bin/recovery_state_machine.py: the recovery of crashed tasks.
-- A method of RecoveryStateMachine is a function of the machine: its cache of contexts, the rows
-- of the task table that it reads and writes, and the trace of its outside effects. Readings of
-- the clock are arguments, in the order in which the method may take them.
pub mod Seconds
pub mod Data
pub mod Machine
