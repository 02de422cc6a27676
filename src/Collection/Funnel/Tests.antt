-- ===== src/Collection/Funnel/Tests.antt =====
-- Three offers, of which one is not available.
use aishopping_agent.Common.{keep, sort_by, ◌≡◌, refl, List, [], ◌∷◌, none, some, arith}
use aishopping_agent.Alerts.{available, unavailable}
use aishopping_agent.Collection.Funnel.{
  condition_rank, popularity_points, Item, FunnelSelection, brand_new, select_for_ai,
}
use aishopping_agent.Collection.Funnel.Selection.{IsSelection, select_for_ai-IsSelection}

abbrev liked : Item
liked = record {
  source_code = [];
  external_id = none;
  url = 1 ∷ [];
  rating_average = some 490;
  review_count = some 900;
  sales = none;
  condition = brand_new;
  availability = some available;
  total_amount = 30;
}

abbrev rated : Item
rated = record liked {
  url = 2 ∷ [];
  rating_average = some 400;
  review_count = some 1000;
  total_amount = 20;
}

abbrev gone : Item
gone = record liked { url = 3 ∷ []; availability = some unavailable; total_amount = 5 }

abbrev offers : List Item
offers = rated ∷ gone ∷ liked ∷ []

selects :
    select_for_ai offers 10 2
    ≡ some (record { pool = liked ∷ rated ∷ []; chosen = rated ∷ liked ∷ [] })
unfolding select_for_ai sort_by keep popularity_points condition_rank
selects = refl

select_for_ai-IsSelection_example :
    (s : FunnelSelection) × (select_for_ai offers 10 2 ≡ some s) × IsSelection offers 10 2 s
select_for_ai-IsSelection_example =
    select_for_ai-IsSelection offers 10 2 (omega arith) (omega arith)
