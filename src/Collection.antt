-- ===== src/Collection.antt =====
-- backend/app/collection/: when a monitored item is collected, from which shop, for whom, and which
-- of the offers found go on to the classification.
pub mod Cadence
pub mod Runs
pub mod Tables
pub mod Claim
pub mod Funnel
pub mod Fairness
pub mod Batch
