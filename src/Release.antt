-- ===== src/Release.antt =====
-- Releases: the stages of a rollout (packages/release), the service that runs a change with its audit
-- (packages/shared/mutation), the table of releases (packages/kernel/storage/postgres.py), and the
-- worker that drives them by events (apps/release_worker).
pub mod Stages
pub mod Mutation
pub mod Store
pub mod Worker
