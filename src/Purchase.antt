-- ===== src/Purchase.antt =====
-- backend/app/purchase/service.py and contracts.py: which offer of a mission is recommended, and
-- why. The rows that `_load_observation_rows` selects, in its order, are an argument; amounts
-- are non-negative, and a `UUID` is a
-- number, in the order of its text.
pub mod Buyable
pub mod Shown
pub mod Best
pub mod Comparison
pub mod Confirmation
pub mod Records
pub mod Trail
mod Tests
use aishopping_agent.Common.{
  ℕ, List, [], ◌∷◌, ◌++◌, map, Option, none, some, Bool, true, false, not, ◌&&◌, ◌||◌, ◌==◌, ◌+◌,
  ltb, leb, if◌then◌else◌, is_none, keep, any_of, find_first, length, sort_by, suc,
}
use aishopping_agent.Common.Texts.{same_text}
use aishopping_agent.Alerts.{Availability}
use aishopping_agent.Alerts.Evaluator.{is_available}

pub record Product : Type 0 where
  pub id : ℕ
  pub name : List ℕ
  pub brand : Option (List ℕ)
  pub model : Option (List ℕ)

pub record Store : Type 0 where
  pub id : ℕ
  pub code : List ℕ
  pub name : List ℕ

pub record Seller : Type 0 where
  pub id : ℕ
  pub name : List ℕ

-- An observation with its offer, product, store and seller.
pub record ObservationRow : Type 0 where
  pub offer_id : ℕ
  pub url : List ℕ
  pub product : Product
  pub store : Store
  pub seller : Option Seller
  pub observation_id : ℕ
  pub amount : ℕ
  pub shipping_amount : Option ℕ
  pub total_amount : ℕ
  pub currency : List ℕ
  pub availability : Availability
  pub fulfillment : Option (List ℕ)
  pub observed_at : ℕ

pub data RecommendationReason : Type 0 where
  mission_currency_missing no_observations no_available_offers : RecommendationReason
  no_currency_compatible_offers no_determinable_totals : RecommendationReason

pub data RecommendationExclusion : Type 0 where
  currency_missing unavailable currency_mismatch shipping_unknown : RecommendationExclusion

-- Of the previous and of the lowest observation the code copies identifier, total and instant.
pub record HistoricalPriceEvidence : Type 0 where
  pub observation_count : ℕ
  pub comparable_observation_count : ℕ
  pub previous_observation : Option ObservationRow
  pub lowest_observation : Option ObservationRow

-- The columns of the latest row are copied.
pub record OfferRecommendationEvidence : Type 0 where
  pub latest : ObservationRow
  pub history : HistoricalPriceEvidence
  pub eligible : Bool
  pub exclusions : List RecommendationExclusion

-- The rows of one offer, of which there is at least one.
pub record OfferRows : Type 0 where
  pub latest : ObservationRow
  pub older : List ObservationRow

unfoldable pub add_when {ℓ} : {A : Type ℓ} → Bool → A → List A → List A
add_when true x xs = x ∷ xs
add_when false x xs = xs

unfoldable pub currency_is : Option (List ℕ) → ObservationRow → Bool
currency_is none row = false
currency_is (some c) row = same_text row.currency c

unfoldable pub exclusions_of : Option (List ℕ) → ObservationRow → List RecommendationExclusion
unfolding add_when currency_is
exclusions_of currency row = add_when (is_none currency) RecommendationExclusion.currency_missing (
    add_when (not (is_available row.availability)) RecommendationExclusion.unavailable (
      add_when (not (is_none currency) && not (currency_is currency row))
        RecommendationExclusion.currency_mismatch
        (add_when (is_none row.shipping_amount) RecommendationExclusion.shipping_unknown [])))

unfoldable pub is_comparable : Option (List ℕ) → ObservationRow → Bool
unfolding currency_is
is_comparable currency row =
    currency_is currency row && is_available row.availability && not (is_none row.shipping_amount)

-- `(total_amount, observed_at, str(id))`
cheaper_row : ObservationRow → ObservationRow → Bool
cheaper_row a b =
    ltb a.total_amount b.total_amount
    || (a.total_amount == b.total_amount
        && (ltb a.observed_at b.observed_at
            || (a.observed_at == b.observed_at && ltb a.observation_id b.observation_id)))

lowest_from : ObservationRow → List ObservationRow → ObservationRow
unfolding cheaper_row
lowest_from a [] = a
lowest_from a (b ∷ bs) = lowest_from (if cheaper_row b a then b else a) bs

unfoldable pub lowest_of : List ObservationRow → Option ObservationRow
unfolding lowest_from
lowest_of [] = none
lowest_of (a ∷ as') = some (lowest_from a as')

unfoldable pub has_none {ℓ} : {A : Type ℓ} → List A → Bool
has_none [] = true
has_none (x ∷ xs) = false

unfoldable pub offer_evidence : Option (List ℕ) → OfferRows → OfferRecommendationEvidence
unfolding exclusions_of is_comparable lowest_of has_none
offer_evidence currency rows =
    let comparable = keep (is_comparable currency) (rows.latest ∷ rows.older) in
    record {
      latest = rows.latest;
      history = record {
        observation_count = suc (length rows.older);
        comparable_observation_count = length comparable;
        previous_observation = find_first (is_comparable currency) rows.older;
        lowest_observation = lowest_of comparable;
      };
      eligible = has_none (exclusions_of currency rows.latest);
      exclusions = exclusions_of currency rows.latest;
    }

-- A row joins the rows of its offer, at the end; a `defaultdict` keeps the first's place.
unfoldable pub join_offer : ObservationRow → List OfferRows → List OfferRows
join_offer row [] = record { latest = row; older = [] } ∷ []
join_offer row (g ∷ gs) =
    let rest = join_offer row gs in
    if g.latest.offer_id == row.offer_id
    then record g { older = g.older ++ row ∷ [] } ∷ gs
    else g ∷ rest

unfoldable pub group_rows : List ObservationRow → List OfferRows → List OfferRows
unfolding join_offer
group_rows [] gs = gs
group_rows (row ∷ rows) gs = group_rows rows (join_offer row gs)

unfoldable pub by_offer_id : OfferRows → OfferRows → Bool
by_offer_id a b = leb a.latest.offer_id b.latest.offer_id

unfoldable pub build_evidence :
    List ObservationRow → Option (List ℕ) → List OfferRecommendationEvidence
unfolding offer_evidence group_rows by_offer_id
build_evidence rows currency =
    map (offer_evidence currency) (sort_by by_offer_id (group_rows rows []))

-- `(total_amount, -observed_at, str(offer_id))`
unfoldable pub rank_order : OfferRecommendationEvidence → OfferRecommendationEvidence → Bool
rank_order a b =
    ltb a.latest.total_amount b.latest.total_amount
    || (a.latest.total_amount == b.latest.total_amount
        && (ltb b.latest.observed_at a.latest.observed_at
            || (a.latest.observed_at == b.latest.observed_at
                && leb a.latest.offer_id b.latest.offer_id)))

unfoldable pub rank_eligible_evidence :
    List OfferRecommendationEvidence → List OfferRecommendationEvidence
unfolding rank_order
rank_eligible_evidence evidence = sort_by rank_order (keep (λ e. e.eligible) evidence)

unfoldable pub known_shipping : OfferRecommendationEvidence → Bool
known_shipping e = not (is_none e.latest.shipping_amount)

unfoldable pub insufficient_in :
    List OfferRecommendationEvidence → List ℕ → Option RecommendationReason
unfolding known_shipping
insufficient_in evidence currency =
    let available = keep (λ e. is_available e.latest.availability) evidence in
    let compatible = keep (λ e. same_text e.latest.currency currency) available in
    if has_none evidence
    then some no_observations
    else if has_none available
    then some no_available_offers
    else if has_none compatible
    then some no_currency_compatible_offers
    else if not (any_of known_shipping compatible)
    then some no_determinable_totals
    else none

unfoldable pub insufficient_reason :
    List OfferRecommendationEvidence → Option (List ℕ) → Option RecommendationReason
unfolding insufficient_in has_none
insufficient_reason evidence none = some mission_currency_missing
insufficient_reason evidence (some currency) = insufficient_in evidence currency

pub data RecommendationResult : Type 0 where
  not_found not_active index_error : RecommendationResult
  recommended :
      OfferRecommendationEvidence → List OfferRecommendationEvidence → RecommendationResult
  insufficient_data : RecommendationReason → List OfferRecommendationEvidence → RecommendationResult

-- The owner's mission: whether it is active, and the currency of its criteria, if any.
pub record MissionRow : Type 0 where
  pub is_active : Bool
  pub target_currency : Option (List ℕ)

-- `rank_eligible_evidence(evidence)[0]`
unfoldable pub first_of :
    List OfferRecommendationEvidence → List OfferRecommendationEvidence → RecommendationResult
first_of [] evidence = index_error
first_of (e ∷ es) evidence = recommended e evidence

unfoldable pub on_reason :
    Option RecommendationReason → List OfferRecommendationEvidence → RecommendationResult
unfolding rank_eligible_evidence first_of
on_reason (some reason) evidence = insufficient_data reason evidence
on_reason none evidence = first_of (rank_eligible_evidence evidence) evidence

unfoldable pub recommend_for_mission :
    Option MissionRow → List ObservationRow → RecommendationResult
unfolding on_reason build_evidence insufficient_reason
recommend_for_mission none rows = not_found
recommend_for_mission (some m) rows =
    if not m.is_active
    then not_active
    else on_reason (insufficient_reason (build_evidence rows m.target_currency) m.target_currency)
        (build_evidence rows m.target_currency)
