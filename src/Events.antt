-- ===== src/Events.antt =====
-- backend/app/events/: the consumption of published events.
pub mod Consumption
