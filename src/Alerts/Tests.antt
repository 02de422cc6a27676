-- ===== src/Alerts/Tests.antt =====
-- A price that falls after an earlier alert.
use aishopping_agent.Common.{ℕ, ◌≡◌, ◌≢◌, refl, arith, true, false, none, some, List, [], ◌∷◌, All}
use aishopping_agent.Common.Texts.{same_text}
use aishopping_agent.Alerts.{
  PriceObservation, MissionCriteria, AlertCheckpoint, available, PriceAlertCandidate,
  price_decreased, alerts, catalog_error, CatalogError, is_currency, validate_coupon_snapshot,
}
use aishopping_agent.Alerts.Evaluator.{
  Options, MissionFacts, evaluate_price_alerts, gate_open, should_rearm, policy_or_default,
}
use aishopping_agent.Alerts.Decisions.{Permits, IsTrue, evaluate_price_alerts_sound}
use aishopping_agent.Alerts.Rearm.{evaluate_price_alerts_accepted, should_rearm_silent}

abbrev mission : MissionFacts
mission = record { id = some 1; is_active = true }

abbrev criteria : MissionCriteria
criteria = record { mission_id = some 1; target_amount = none; target_currency = none }

abbrev brl : List ℕ
brl = 66 ∷ 82 ∷ 76 ∷ []

abbrev previous : PriceObservation
previous = record {
  id = some 10;
  offer_id = some 4;
  amount = 20000000;
  currency = brl;
  availability = available;
  observed_at = 100;
}

abbrev current : PriceObservation
current = record previous { id = some 11; amount = 19000000; observed_at = 200 }

abbrev checkpoint : AlertCheckpoint
checkpoint = record {
  best_notified_amount = 20000000;
  last_notified_amount = 20000000;
  last_notified_at = 50;
  rearmed_at = none;
}

abbrev options : Options
options = record {
  checkpoint = some checkpoint;
  material_improvement_policy = none;
  market_assessment_supports_realert = false;
  realert_window = some 1000;
  now = some 210;
  coupon = none;
}

abbrev announced : PriceAlertCandidate
announced = price_decreased (record {
  offer_id = some 4;
  observation_id = some 11;
  previous_observation_id = some 10;
  previous_total = 20000000;
  current_total = 19000000;
  currency = brl;
  coupon = none;
})

announces :
    evaluate_price_alerts mission criteria current (some previous) options ≡ alerts (announced ∷ [])
unfolding evaluate_price_alerts same_text is_currency validate_coupon_snapshot
announces = refl

evaluate_price_alerts_sound_example :
    (mission.is_active ≡ true)
    × (current.availability ≡ available)
    × All (IsTrue criteria current (some previous)) (announced ∷ [])
    × Permits options 19000000 (some checkpoint)
evaluate_price_alerts_sound_example =
    evaluate_price_alerts_sound mission criteria current (some previous) options announced []
      announces

brl-is_currency : is_currency brl ≡ true
unfolding is_currency
brl-is_currency = refl

without_coupon : validate_coupon_snapshot none 19000000 brl ≡ none
unfolding validate_coupon_snapshot
without_coupon = refl

evaluate_price_alerts_accepted_example :
    evaluate_price_alerts mission criteria current (some previous) options
    ≢ catalog_error CatalogError.not_lower
evaluate_price_alerts_accepted_example =
    evaluate_price_alerts_accepted mission criteria current (some previous) options
      CatalogError.not_lower brl-is_currency without_coupon

rearms : should_rearm (some checkpoint) 22000000 50000 ≡ true
unfolding should_rearm
rearms = refl

should_rearm_silent_example : gate_open options 22000000 (some checkpoint) ≡ false
unfolding policy_or_default
should_rearm_silent_example =
    should_rearm_silent options checkpoint 22000000 50000 rearms (omega arith) (omega arith)
      (omega arith)
