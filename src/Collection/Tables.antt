-- ===== src/Collection/Tables.antt =====
-- The tables of backend/app/collection/models.py and backend/app/missions/models.py that claims
-- read and write, and the claims themselves. A table is a function of its primary key.
use aishopping_agent.Common.{ℕ, List, Option, Bool}
use aishopping_agent.Collection.Cadence.{Market, StoreActivityState}
use aishopping_agent.Collection.Runs.{CollectionRun}

pub record MonitoringItem : Type 0 where
  pub id : ℕ
  pub canonical_identity : List ℕ

pub record Store : Type 0 where
  pub id : ℕ
  pub code : List ℕ
  pub is_active : Bool

pub record MissionMonitoringItem : Type 0 where
  pub mission_id : ℕ
  pub monitoring_item_id : ℕ

pub record MonitoringItemStore : Type 0 where
  pub is_enabled : Bool
  pub next_run_at : Option ℕ
  pub last_run_at : Option ℕ
  pub next_eligible_at : Option ℕ
  pub consecutive_blocks : ℕ
  pub updated_at : ℕ

-- The unit of the path that collects for one mission: its own schedule and backoff at one shop.
pub record MissionSource : Type 0 where
  pub next_run_at : Option ℕ
  pub last_run_at : Option ℕ
  pub next_eligible_at : Option ℕ
  pub consecutive_blocks : ℕ

pub record StoreThrottleState : Type 0 where
  pub next_allowed_at : Option ℕ
  pub updated_at : ℕ

pub record SharedClaim : Type 0 where
  pub run_id : ℕ
  pub canonical_identity : List ℕ
  pub store_code : List ℕ
  pub monitoring_item_id : ℕ
  pub store_id : ℕ

-- The attempt to claim a mission's source, and the claim.
pub record ClaimAttempt : Type 0 where
  pub mission_id : ℕ
  pub store_id : ℕ
  pub source_code : List ℕ
  pub search_query : List ℕ
  pub model : Option (List ℕ)

pub record ClaimedCollection : Type 0 where
  pub run_id : ℕ
  pub attempt : ClaimAttempt
  pub claimed_at : ℕ

-- The tables that a claim only reads.
pub record Catalog : Type 0 where
  pub items : ℕ → Option MonitoringItem
  pub stores : ℕ → Option Store
  pub links : List MissionMonitoringItem
  pub market : Market

-- The tables that it writes, and whether a unit was found in high activity.
pub record Db : Type 0 where
  pub item_stores : ℕ → ℕ → Option MonitoringItemStore
  pub sources : ℕ → ℕ → Option MissionSource
  pub throttle : ℕ → Option StoreThrottleState
  pub runs : List CollectionRun
  pub activity : List StoreActivityState
  pub high_activity_notify : Bool
