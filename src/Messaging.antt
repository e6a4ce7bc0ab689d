-- ===== src/Messaging.antt =====
-- Messages between agents: the bus (orchestrator/bin/message_bus.py) and the table that it keeps
-- them in (orchestrator/bin/db.py).
pub mod Store
pub mod Bus
