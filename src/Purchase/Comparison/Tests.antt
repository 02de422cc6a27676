-- ===== src/Purchase/Comparison/Tests.antt =====
-- The comparison of two offers.
use aishopping_agent.Common.{some, ◌≢◌}
use aishopping_agent.Purchase.Comparison.{raises_invalid, compare_offers_for_mission}
use aishopping_agent.Purchase.Comparison.Valid.{compare_offers_valid}
use aishopping_agent.Purchase.Tests.{mission, rows}

compare_offers_valid_example :
    compare_offers_for_mission (λ t. t) (some mission) rows ≢ raises_invalid
compare_offers_valid_example = compare_offers_valid (λ t. t) (some mission) rows
