-- ===== src/Core.antt =====
-- backend/app/core: the resilience primitives for external integrations.
pub mod Breaker
pub mod Retry
