-- ===== src/Purchase/Tests.antt =====
-- Two offers, of which one ships for free.
use aishopping_agent.Purchase.Buyable.{IsBuyable, IsBetter}
use aishopping_agent.Alerts.Evaluator.{is_available}
use aishopping_agent.Common.{
  none, sort_by, keep, any_of, ℕ, ◌≡◌, ◌≢◌, ◌⊎◌, refl, true, some, List, [], ◌∷◌, Elem,
}
use aishopping_agent.Common.Texts.{same_text}
use aishopping_agent.Alerts.{available}
use aishopping_agent.Purchase.{
  ObservationRow, OfferRecommendationEvidence, MissionRow, offer_evidence, recommended, index_error,
  recommend_for_mission, build_evidence,
}
use aishopping_agent.Purchase.Best.{recommend_for_mission_best, recommend_for_mission_total}

abbrev pub brl : List ℕ
brl = 66 ∷ 82 ∷ 76 ∷ []

abbrev pub dear : ObservationRow
dear = record {
  offer_id = 1;
  url = [];
  product = record { id = 3; name = []; brand = none; model = none };
  store = record { id = 9; code = []; name = [] };
  seller = none;
  fulfillment = none;
  observation_id = 10;
  amount = 1000;
  shipping_amount = some 200;
  total_amount = 1200;
  currency = brl;
  availability = available;
  observed_at = 50;
}

abbrev pub cheap : ObservationRow
cheap = record dear {
  offer_id = 2;
  observation_id = 11;
  shipping_amount = some 0;
  total_amount = 1000;
}

abbrev pub mission : MissionRow
mission = record { is_active = true; target_currency = some brl }

abbrev pub rows : List ObservationRow
rows = dear ∷ cheap ∷ []

abbrev best : OfferRecommendationEvidence
best = offer_evidence (some brl) (record { latest = cheap; older = [] })

recommends :
    recommend_for_mission (some mission) rows ≡ recommended best (build_evidence rows (some brl))
unfolding recommend_for_mission sort_by keep is_available same_text any_of
recommends = refl

recommend_for_mission_best_example :
    ((row : ObservationRow)
      → Elem row rows
      → (e : OfferRecommendationEvidence) × Elem e (build_evidence rows (some brl))
        × (e.latest.offer_id ≡ row.offer_id))
    × Elem best (build_evidence rows (some brl))
    × IsBuyable brl best
    × ((e : OfferRecommendationEvidence)
        → Elem e (build_evidence rows (some brl))
        → IsBuyable brl e
        → (e ≡ best) ⊎ IsBetter best e)
recommend_for_mission_best_example =
    recommend_for_mission_best mission brl rows best (build_evidence rows (some brl)) refl
      recommends

recommend_for_mission_total_example : recommend_for_mission (some mission) rows ≢ index_error
recommend_for_mission_total_example = recommend_for_mission_total (some mission) rows
