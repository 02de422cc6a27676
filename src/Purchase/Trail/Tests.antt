-- ===== src/Purchase/Trail/Tests.antt =====
-- One confirmation, from its request to its decision.
use aishopping_agent.Common.Time.{minutes}
use aishopping_agent.Common.Texts.{same_text}
use aishopping_agent.Alerts.Evaluator.{is_available}
use aishopping_agent.Purchase.{recommend_for_mission}
use aishopping_agent.Purchase.Comparison.{compare_offers_for_mission}
use aishopping_agent.Common.{
  find_first, any_of, keep, sort_by, ℕ, List, [], Option, none, some, ◌≡◌, refl,
}
use aishopping_agent.Purchase.Confirmation.{
  build_request, PurchaseConfirmationRequest, MissionEntry, confirm, cancel, ok,
  PurchaseConfirmationResult, confirmed, evaluate_confirmation,
}
use aishopping_agent.Purchase.Confirmation.Safe.{IsRevalidated, evaluate_confirmation-IsRevalidated}
use aishopping_agent.Purchase.Trail.{
  Db, Outcome, request_purchase_confirmation, resolve_purchase_confirmation,
  recover_purchase_confirmation,
}
use aishopping_agent.Purchase.Tests.{cheap, mission, rows}
use aishopping_agent.Purchase.Trail.Recovery.{recover_purchase_confirmation_requested}
use aishopping_agent.Purchase.Trail.Once.{answer, resolve_purchase_confirmation_once}
use aishopping_agent.Purchase.Trail.Settled.{IsWinner}

abbrev folded : List ℕ → List ℕ
folded t = t

abbrev missions : ℕ → Option MissionEntry
missions m = some (record { user_id = 4; mission = mission; rows = rows })

abbrev no_rows : Db
no_rows = record { confirmations = []; trail = [] }

abbrev request : PurchaseConfirmationRequest
request = record {
  confirmation_id = 70;
  mission_id = 5;
  owner_user_id = 4;
  offer_id = 2;
  price_observation_id = 11;
  position = 1;
  product = cheap.product;
  store = cheap.store;
  seller_id = none;
  seller_name = none;
  url = [];
  amount = 1000;
  shipping_amount = 0;
  total_amount = 1000;
  currency = cheap.currency;
  availability = cheap.availability;
  fulfillment = none;
  observed_at = 50;
  requested_at = 60;
  expires_at = 900000060;
}

abbrev asked : Outcome PurchaseConfirmationRequest
asked = request_purchase_confirmation folded missions no_rows 70 5 2 4 60

asks : asked.result ≡ ok request
unfolding request_purchase_confirmation build_request compare_offers_for_mission
    recommend_for_mission sort_by keep is_available same_text any_of find_first minutes
asks = refl

recover_purchase_confirmation_requested_example :
    recover_purchase_confirmation asked.db 70 4 ≡ ok request
recover_purchase_confirmation_requested_example =
    recover_purchase_confirmation_requested folded missions no_rows 70 5 2 4 60 request asks

abbrev done : PurchaseConfirmationResult
done = record {
  request = request;
  decision = confirm;
  status = confirmed;
  stale_reason = none;
  resolved_at = 100;
}

abbrev decided : Outcome PurchaseConfirmationResult
decided = resolve_purchase_confirmation folded missions none asked.db 70 4 confirm 100

decides : decided.result ≡ ok done
unfolding request_purchase_confirmation resolve_purchase_confirmation build_request
    compare_offers_for_mission recommend_for_mission sort_by keep is_available same_text any_of
    find_first evaluate_confirmation minutes
decides = refl

evaluates : evaluate_confirmation folded missions request 4 confirm 100 ≡ ok done
unfolding evaluate_confirmation compare_offers_for_mission recommend_for_mission sort_by keep
    is_available same_text any_of find_first
evaluates = refl

resolve_purchase_confirmation_once_example :
    resolve_purchase_confirmation folded missions none decided.db 70 4 cancel 200
    ≡ record { result = answer confirm done cancel; db = decided.db }
unfolding IsWinner
resolve_purchase_confirmation_once_example =
    resolve_purchase_confirmation_once folded missions none asked.db 70 4 confirm 100 done none
      cancel 200 refl decides

evaluate_confirmation-IsRevalidated_example : IsRevalidated folded missions request 4 confirm 100
evaluate_confirmation-IsRevalidated_example =
    evaluate_confirmation-IsRevalidated folded missions request 4 confirm 100 done evaluates refl
