-- ===== src/Incident.antt =====
-- The incidents of apps/incident_worker/service.py and packages/incident.
pub mod Triage
pub mod Worker
