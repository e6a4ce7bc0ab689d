-- ===== src/Kernel.antt =====
-- Work items: packages/shared/domain/models.py, packages/kernel/events/bus.py,
-- packages/kernel/services/work_items.py, packages/kernel/monitor/handlers.py and packages/quality.
pub mod Models
pub mod Bus
pub mod Gates
pub mod WorkItems
pub mod Retry
