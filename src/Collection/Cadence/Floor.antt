-- ===== src/Collection/Cadence/Floor.antt =====
-- backend/app/collection/cadence.py: the bounds of the time to the next collection.
use aishopping_agent.Common.{ℕ, ◌≤◌, ◌≡◌, List, none, arith}
use Prim.Native.Nat.{min, max}
use aishopping_agent.Collection.Cadence.{
  CadenceConfig, CadenceDecision, Market, StoreActivityState, post_init, promo_decision,
  normal_decision, resolve_collection_cadence,
}

-- What the checks of `__post_init__` leave.
valid_config :
    (c : CadenceConfig)
    → post_init c ≡ none
    → (1 ≤ c.normal_min_minutes)
      × (c.normal_min_minutes ≤ c.normal_max_minutes)
      × (30 ≤ c.promo_min_minutes)
      × (c.promo_min_minutes ≤ c.promo_max_minutes)
unfolding post_init
valid_config c h = ground arith

-- The band of a decision.
abbrev pub IsBand : CadenceConfig → CadenceDecision → Type 0
IsBand c d =
    (min 30 c.normal_min_minutes ≤ d.min_minutes)
    × (d.min_minutes ≤ d.max_minutes)
    × (d.max_minutes ≤ max c.normal_max_minutes c.promo_max_minutes)

pub resolve_collection_cadence-IsBand :
    (c : CadenceConfig) (m : Market) (activity : List StoreActivityState) (store scope : ℕ)
    (missions : List ℕ) (now : ℕ)
    → post_init c ≡ none
    → IsBand c (resolve_collection_cadence c m activity store scope missions now).0
unfolding resolve_collection_cadence promo_decision normal_decision
resolve_collection_cadence-IsBand c m activity store scope missions now h =
    ground (arith, valid_config c h)
