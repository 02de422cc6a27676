-- ===== src/Purchase/Comparison.antt =====
-- backend/app/purchase/comparison.py: the ranking of all offers of a mission, with the checks that its
-- results make of themselves. `str.casefold` is a parameter; texts are compared by code points.
pub mod Explained
pub mod Valid
mod Tests
use aishopping_agent.Common.{
  ℕ, suc, ◌+◌, List, [], ◌∷◌, ◌++◌, Option, none, some, Bool, true, false, not, ◌&&◌, ◌||◌, ◌==◌,
  ltb, leb, if◌then◌else◌, is_none, keep, sort_by, opt_eq, length, take,
}
use aishopping_agent.Common.Texts.{same_text}
use aishopping_agent.Purchase.{
  ObservationRow, OfferRecommendationEvidence, RecommendationExclusion, RecommendationReason,
  RecommendationResult, HistoricalPriceEvidence, MissionRow, recommended, insufficient_data,
  not_found, not_active, index_error, recommend_for_mission, rank_eligible_evidence, has_none,
}

-- The other columns are those of `latest`.
pub record OfferComparisonItem : Type 0 where
  pub position : Option ℕ
  pub latest : ObservationRow
  pub total_amount : Option ℕ
  pub eligible : Bool
  pub exclusions : List RecommendationExclusion

pub record OfferComparisonResult : Type 0 where
  pub recommendation_offer_id : Option ℕ
  pub reason : Option RecommendationReason
  pub items : List OfferComparisonItem

-- What the call does: raise as the recommendation does, raise because a result is not valid, or
-- return.
pub data Compared : Type 0 where
  raises_not_found raises_not_active raises_index raises_invalid : Compared
  compared : OfferComparisonResult → Compared

unfoldable pub comparison_item : Option ℕ → OfferRecommendationEvidence → OfferComparisonItem
comparison_item position e = record {
  position = position;
  latest = e.latest;
  total_amount = if is_none e.latest.shipping_amount then none else some e.latest.total_amount;
  eligible = e.eligible;
  exclusions = e.exclusions;
}

positive : Option ℕ → Bool
positive none = false
positive (some n) = leb 1 n

-- `OfferComparisonItem.__post_init__` accepts the item
unfoldable pub item_accepted : OfferComparisonItem → Bool
unfolding positive
item_accepted i =
    not (is_none i.latest.shipping_amount && not (is_none i.total_amount))
    && (if i.eligible
        then positive i.position && not (is_none i.total_amount) && has_none i.exclusions
        else is_none i.position && not (has_none i.exclusions))

unfoldable pub all_accepted : List OfferComparisonItem → Bool
unfolding item_accepted
all_accepted [] = true
all_accepted (i ∷ is) = item_accepted i && all_accepted is

-- `enumerate(ranked, start=n)`
unfoldable pub numbered : ℕ → List OfferRecommendationEvidence → List OfferComparisonItem
unfolding comparison_item
numbered n [] = []
numbered n (e ∷ es) = comparison_item (some n) e ∷ numbered (suc n) es

unfoldable pub unnumbered : List OfferRecommendationEvidence → List OfferComparisonItem
unfolding comparison_item
unnumbered [] = []
unnumbered (e ∷ es) = comparison_item none e ∷ unnumbered es

-- `positions == tuple(range(n, n + len(items)))`
unfoldable pub consecutive : ℕ → List OfferComparisonItem → Bool
consecutive n [] = true
consecutive n (i ∷ is) = opt_eq i.position (some n) && consecutive (suc n) is

-- `items[: len(eligible)] == eligible`: no item that is not eligible stands before one that is.
unfoldable pub eligible_first : List OfferComparisonItem → Bool
eligible_first [] = true
eligible_first (i ∷ is) =
    let rest = eligible_first is in
    if i.eligible then rest else has_none (keep (λ x. x.eligible) is)

unfoldable pub same_first : Option ℕ → List OfferComparisonItem → Bool
same_first id [] = false
same_first id (i ∷ is) = opt_eq id (some i.latest.offer_id)

unfoldable pub status_accepted :
    Option RecommendationReason → Option ℕ → List OfferComparisonItem → Bool
unfolding same_first
status_accepted none id eligible = same_first id eligible
status_accepted (some r) id eligible = has_none eligible && is_none id

-- `OfferComparisonResult.__post_init__` accepts the result; without a reason its status is
-- RECOMMENDED, with one INSUFFICIENT_DATA.
unfoldable pub result_accepted : OfferComparisonResult → Bool
unfolding consecutive eligible_first status_accepted
result_accepted r =
    consecutive 1 (keep (λ i. i.eligible) r.items)
    && eligible_first r.items
    && status_accepted r.reason r.recommendation_offer_id (keep (λ i. i.eligible) r.items)

unfoldable pub leb_text : List ℕ → List ℕ → Bool
leb_text [] t = true
leb_text (a ∷ as') [] = false
leb_text (a ∷ as') (b ∷ bs) = let rest = leb_text as' bs in ltb a b || (a == b && rest)

module _ (casefold : List ℕ → List ℕ) where
  -- `(store_code.casefold(), product_name.casefold(), str(offer_id))`
  unfoldable pub unranked_order : OfferRecommendationEvidence → OfferRecommendationEvidence → Bool
  unfolding leb_text
  unranked_order a b =
      if not (same_text (casefold a.latest.store.code) (casefold b.latest.store.code))
      then leb_text (casefold a.latest.store.code) (casefold b.latest.store.code)
      else if not (same_text (casefold a.latest.product.name) (casefold b.latest.product.name))
      then leb_text (casefold a.latest.product.name) (casefold b.latest.product.name)
      else leb a.latest.offer_id b.latest.offer_id

  unfoldable pub items_of : List OfferRecommendationEvidence → List OfferComparisonItem
  unfolding numbered unnumbered unranked_order
  items_of evidence =
      numbered 1 (rank_eligible_evidence evidence)
      ++ unnumbered (sort_by unranked_order (keep (λ e. not e.eligible) evidence))

  unfoldable pub checked_result :
      Option ℕ → Option RecommendationReason → List OfferRecommendationEvidence → Compared
  unfolding items_of all_accepted result_accepted
  checked_result id reason evidence =
      let r : OfferComparisonResult = record {
        recommendation_offer_id = id;
        reason = reason;
        items = items_of evidence;
      } in
      if all_accepted (items_of evidence) && result_accepted r then compared r else raises_invalid

  unfoldable pub compare_from : RecommendationResult → Compared
  unfolding checked_result
  compare_from not_found = raises_not_found
  compare_from not_active = raises_not_active
  compare_from index_error = raises_index
  compare_from (recommended best evidence) =
      checked_result (some best.latest.offer_id) none evidence
  compare_from (insufficient_data reason evidence) = checked_result none (some reason) evidence

  unfoldable pub compare_offers_for_mission : Option MissionRow → List ObservationRow → Compared
  unfolding compare_from
  compare_offers_for_mission m rows = compare_from (recommend_for_mission m rows)
