-- ===== src/Purchase/Confirmation.antt =====
-- backend/app/purchase/confirmation.py: a request to confirm one offer, bound to the evidence that was
-- shown, and what a decision on it gives. The identifier that `uuid4` draws is an argument. What
-- `session.get(Mission, …)` and the comparison read is a record. A `now` without a time zone raises;
-- the instant used is the one of a value that has one. The checks of the results' own fields that
-- follow from how they are built are not repeated.
pub mod Same
pub mod Safe
use aishopping_agent.Common.{
  ℕ, ◌+◌, List, [], ◌∷◌, Option, none, some, Bool, true, false, not, ◌&&◌, ◌||◌, ◌==◌, ltb, leb,
  if◌then◌else◌, is_none, opt_eq, find_first,
}
use aishopping_agent.Common.Texts.{same_text}
use aishopping_agent.Common.Time.{minutes}
use aishopping_agent.Alerts.{Availability, available, unavailable, unknown}
use aishopping_agent.Purchase.{is_available, Product, Store, Seller, ObservationRow, MissionRow}
use aishopping_agent.Purchase.Comparison.{
  OfferComparisonItem, OfferComparisonResult, Compared, raises_not_found, raises_not_active,
  raises_index, raises_invalid, compared, compare_offers_for_mission,
}

pub data PurchaseConfirmationDecision : Type 0 where
  confirm cancel : PurchaseConfirmationDecision

pub data PurchaseConfirmationStatus : Type 0 where
  confirmed cancelled stale : PurchaseConfirmationStatus

pub data PurchaseConfirmationStaleReason : Type 0 where
  expired evidence_changed : PurchaseConfirmationStaleReason

pub data ConfirmationError : Type 0 where
  mission_not_found owner_mismatch offer_not_eligible assertion_failed recommendation_raised :
      ConfirmationError
  confirmation_not_found conflict not_accepted : ConfirmationError

pub data Result (A : Type 0) : Type 0 where
  ok : A → Result A
  err : ConfirmationError → Result A

pub record PurchaseConfirmationRequest : Type 0 where
  pub confirmation_id : ℕ
  pub mission_id : ℕ
  pub owner_user_id : ℕ
  pub offer_id : ℕ
  pub price_observation_id : ℕ
  pub position : ℕ
  pub product : Product
  pub store : Store
  pub seller_id : Option ℕ
  pub seller_name : Option (List ℕ)
  pub url : List ℕ
  pub amount : ℕ
  pub shipping_amount : ℕ
  pub total_amount : ℕ
  pub currency : List ℕ
  pub availability : Availability
  pub fulfillment : Option (List ℕ)
  pub observed_at : ℕ
  pub requested_at : ℕ
  pub expires_at : ℕ

pub record PurchaseConfirmationResult : Type 0 where
  pub request : PurchaseConfirmationRequest
  pub decision : PurchaseConfirmationDecision
  pub status : PurchaseConfirmationStatus
  pub stale_reason : Option PurchaseConfirmationStaleReason
  pub resolved_at : ℕ

-- A mission as the session gives it: its owner, what a recommendation reads, and its observations.
pub record MissionEntry : Type 0 where
  pub user_id : ℕ
  pub mission : MissionRow
  pub rows : List ObservationRow

unfoldable pub seller_id_of : Option Seller → Option ℕ
seller_id_of none = none
seller_id_of (some s) = some s.id

unfoldable pub seller_name_of : Option Seller → Option (List ℕ)
seller_name_of none = none
seller_name_of (some s) = some s.name

unfoldable pub eligible_offer : List OfferComparisonItem → ℕ → Option OfferComparisonItem
eligible_offer items offer = find_first (λ i. i.latest.offer_id == offer && i.eligible) items

-- The request for the item that was selected; an eligible item without a position, a shipping amount or a
-- total fails an assertion, and a request that is not of an available offer is not accepted.
unfoldable pub request_of :
    ℕ
    → ℕ
    → ℕ
    → ℕ
    → ObservationRow
    → Option ℕ
    → Option ℕ
    → Option ℕ
    → Result PurchaseConfirmationRequest
unfolding seller_id_of seller_name_of
request_of id mission owner now row (some position) (some shipping) (some total) =
    let request : PurchaseConfirmationRequest = record {
      confirmation_id = id;
      mission_id = mission;
      owner_user_id = owner;
      offer_id = row.offer_id;
      price_observation_id = row.observation_id;
      position = position;
      product = row.product;
      store = row.store;
      seller_id = seller_id_of row.seller;
      seller_name = seller_name_of row.seller;
      url = row.url;
      amount = row.amount;
      shipping_amount = shipping;
      total_amount = total;
      currency = row.currency;
      availability = row.availability;
      fulfillment = row.fulfillment;
      observed_at = row.observed_at;
      requested_at = now;
      expires_at = now + minutes 15;
    } in
    if leb 1 position && is_available row.availability then ok request else err not_accepted
request_of id mission owner now row _ _ _ = err assertion_failed

unfoldable pub selected_request :
    ℕ → ℕ → ℕ → ℕ → Option OfferComparisonItem → Result PurchaseConfirmationRequest
unfolding request_of
selected_request id mission owner now none = err offer_not_eligible
selected_request id mission owner now (some i) =
    request_of id mission owner now i.latest i.position i.latest.shipping_amount i.total_amount

unfoldable pub compared_request : ℕ → ℕ → ℕ → ℕ → ℕ → Compared → Result PurchaseConfirmationRequest
unfolding selected_request eligible_offer
compared_request id mission offer owner now (compared r) =
    selected_request id mission owner now (eligible_offer r.items offer)
compared_request id mission offer owner now _ = err recommendation_raised

unfoldable pub same_opt_text : Option (List ℕ) → Option (List ℕ) → Bool
same_opt_text none none = true
same_opt_text (some a) (some b) = same_text a b
same_opt_text _ _ = false

unfoldable pub same_availability : Availability → Availability → Bool
same_availability available available = true
same_availability unavailable unavailable = true
same_availability unknown unknown = true
same_availability _ _ = false

unfoldable pub same_evidence : PurchaseConfirmationRequest → OfferComparisonItem → Bool
unfolding same_opt_text same_availability seller_id_of seller_name_of
same_evidence request current =
    current.latest.offer_id == request.offer_id
    && current.latest.product.id == request.product.id
    && same_text current.latest.product.name request.product.name
    && same_opt_text current.latest.product.brand request.product.brand
    && same_opt_text current.latest.product.model request.product.model
    && current.latest.store.id == request.store.id
    && same_text current.latest.store.code request.store.code
    && same_text current.latest.store.name request.store.name
    && opt_eq (seller_id_of current.latest.seller) request.seller_id
    && same_opt_text (seller_name_of current.latest.seller) request.seller_name
    && same_text current.latest.url request.url
    && same_availability current.latest.availability request.availability
    && same_text current.latest.currency request.currency
    && current.latest.amount == request.amount
    && opt_eq current.latest.shipping_amount (some request.shipping_amount)
    && opt_eq current.total_amount (some request.total_amount)
    && same_opt_text current.latest.fulfillment request.fulfillment

unfoldable pub resolved :
    PurchaseConfirmationRequest
    → PurchaseConfirmationDecision
    → PurchaseConfirmationStatus
    → Option PurchaseConfirmationStaleReason
    → ℕ
    → Result PurchaseConfirmationResult
resolved request decision status reason at = ok (record {
  request = request;
  decision = decision;
  status = status;
  stale_reason = reason;
  resolved_at = at;
})

unfoldable pub stale_result :
    PurchaseConfirmationRequest
    → PurchaseConfirmationStaleReason
    → ℕ
    → Result PurchaseConfirmationResult
unfolding resolved
stale_result request reason at = resolved request confirm stale (some reason) at

unfoldable pub confirm_current :
    PurchaseConfirmationRequest → ℕ → Option OfferComparisonItem → Result PurchaseConfirmationResult
unfolding stale_result resolved same_evidence
confirm_current request at none = stale_result request evidence_changed at
confirm_current request at (some current) =
    if not (same_evidence request current)
    then stale_result request evidence_changed at
    else resolved request confirm confirmed none at

-- A `RecommendationError` makes the confirmation stale; any other exception goes on.
unfoldable pub confirm_compared :
    PurchaseConfirmationRequest → ℕ → Compared → Result PurchaseConfirmationResult
unfolding confirm_current stale_result eligible_offer
confirm_compared request at raises_not_found = stale_result request evidence_changed at
confirm_compared request at raises_not_active = stale_result request evidence_changed at
confirm_compared request at raises_index = err recommendation_raised
confirm_compared request at raises_invalid = err recommendation_raised
confirm_compared request at (compared r) =
    confirm_current request at (eligible_offer r.items request.offer_id)

-- With the lookup of a mission, and `str.casefold`.
module _ (casefold : List ℕ → List ℕ) (missions : ℕ → Option MissionEntry) where
  unfoldable pub request_from :
      ℕ → ℕ → ℕ → ℕ → ℕ → Option MissionEntry → Result PurchaseConfirmationRequest
  unfolding compared_request
  request_from id mission offer owner now none = err mission_not_found
  request_from id mission offer owner now (some m) =
      if not (m.user_id == owner)
      then err owner_mismatch
      else compared_request id mission offer owner now
          (compare_offers_for_mission casefold (some m.mission) m.rows)

  -- `_build_purchase_confirmation_request`
  unfoldable pub build_request : ℕ → ℕ → ℕ → ℕ → ℕ → Result PurchaseConfirmationRequest
  unfolding request_from
  build_request id mission offer owner now =
      request_from id mission offer owner now (missions mission)

  unfoldable pub confirm_from :
      PurchaseConfirmationRequest → ℕ → Option MissionEntry → Result PurchaseConfirmationResult
  unfolding confirm_compared stale_result
  confirm_from request at none = stale_result request evidence_changed at
  confirm_from request at (some m) =
      if not (m.user_id == request.owner_user_id)
      then stale_result request evidence_changed at
      else confirm_compared request at (compare_offers_for_mission casefold (some m.mission) m.rows)

  unfoldable pub decide :
      PurchaseConfirmationRequest
      → PurchaseConfirmationDecision
      → ℕ
      → Result PurchaseConfirmationResult
  unfolding confirm_from stale_result resolved
  decide request cancel at = resolved request cancel cancelled none at
  decide request confirm at =
      if leb request.expires_at at
      then stale_result request PurchaseConfirmationStaleReason.expired at
      else confirm_from request at (missions request.mission_id)

  -- `_evaluate_purchase_confirmation`
  unfoldable pub evaluate_confirmation :
      PurchaseConfirmationRequest
      → ℕ
      → PurchaseConfirmationDecision
      → ℕ
      → Result PurchaseConfirmationResult
  unfolding decide
  evaluate_confirmation request owner decision at =
      if not (owner == request.owner_user_id)
      then err owner_mismatch
      else decide request decision at
