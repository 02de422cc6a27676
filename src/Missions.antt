-- ===== src/Missions.antt =====
-- backend/app/missions: the recurring schedule and the life cycle of a mission.
pub mod Data
pub mod Lookup
pub mod Schedule
pub mod Lifecycle
