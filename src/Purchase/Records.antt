-- ===== src/Purchase/Records.antt =====
-- backend/app/purchase/models.py, and the rows that trail.py makes: the tables are lists of rows. In the
-- snapshot that is stored as JSON an identifier, an amount or an instant stands for its text, which is
-- not read back.
use aishopping_agent.Common.{ℕ, List, Option, none, some}
use aishopping_agent.Alerts.{Availability}
use aishopping_agent.Purchase.{Product, Store}
use aishopping_agent.Purchase.Confirmation.{
  PurchaseConfirmationRequest, PurchaseConfirmationDecision, PurchaseConfirmationStaleReason,
}

pub data PurchaseTrailEntryType : Type 0 where
  requested confirmed cancelled stale : PurchaseTrailEntryType

pub record SellerSnapshot : Type 0 where
  pub id : Option ℕ
  pub name : Option (List ℕ)

pub record OfferSnapshot : Type 0 where
  pub id : ℕ
  pub url : List ℕ
  pub position : ℕ

pub record ObservationSnapshot : Type 0 where
  pub id : ℕ
  pub amount : ℕ
  pub shipping_amount : ℕ
  pub total_amount : ℕ
  pub currency : List ℕ
  pub availability : Availability
  pub fulfillment : Option (List ℕ)
  pub observed_at : ℕ

pub record Snapshot : Type 0 where
  pub product : Product
  pub store : Store
  pub seller : Option SellerSnapshot
  pub offer : OfferSnapshot
  pub observation : ObservationSnapshot

pub record PurchaseConfirmation : Type 0 where
  pub id : ℕ
  pub mission_id : ℕ
  pub owner_user_id : ℕ
  pub offer_id : ℕ
  pub price_observation_id : ℕ
  pub product_id : ℕ
  pub store_id : ℕ
  pub seller_id : Option ℕ
  pub position : ℕ
  pub url : List ℕ
  pub amount : ℕ
  pub shipping_amount : ℕ
  pub total_amount : ℕ
  pub currency : List ℕ
  pub availability : Availability
  pub fulfillment : Option (List ℕ)
  pub observed_at : ℕ
  pub evidence_snapshot : Snapshot
  pub requested_at : ℕ
  pub expires_at : ℕ

pub record PurchaseTrailEntry : Type 0 where
  pub confirmation_id : ℕ
  pub mission_id : ℕ
  pub owner_user_id : ℕ
  pub offer_id : ℕ
  pub price_observation_id : ℕ
  pub entry_type : PurchaseTrailEntryType
  pub decision : Option PurchaseConfirmationDecision
  pub stale_reason : Option PurchaseConfirmationStaleReason
  pub resolved_at : Option ℕ

unfoldable pub seller_snapshot : Option ℕ → Option (List ℕ) → Option SellerSnapshot
seller_snapshot none name = none
seller_snapshot (some id) name = some (record { id = some id; name = name })

unfoldable pub sanitized_snapshot : PurchaseConfirmationRequest → Snapshot
unfolding seller_snapshot
sanitized_snapshot r = record {
  product = r.product;
  store = r.store;
  seller = seller_snapshot r.seller_id r.seller_name;
  offer = record { id = r.offer_id; url = r.url; position = r.position };
  observation = record {
    id = r.price_observation_id;
    amount = r.amount;
    shipping_amount = r.shipping_amount;
    total_amount = r.total_amount;
    currency = r.currency;
    availability = r.availability;
    fulfillment = r.fulfillment;
    observed_at = r.observed_at;
  };
}

unfoldable pub confirmation_model : PurchaseConfirmationRequest → PurchaseConfirmation
unfolding sanitized_snapshot
confirmation_model r = record {
  id = r.confirmation_id;
  mission_id = r.mission_id;
  owner_user_id = r.owner_user_id;
  offer_id = r.offer_id;
  price_observation_id = r.price_observation_id;
  product_id = r.product.id;
  store_id = r.store.id;
  seller_id = r.seller_id;
  position = r.position;
  url = r.url;
  amount = r.amount;
  shipping_amount = r.shipping_amount;
  total_amount = r.total_amount;
  currency = r.currency;
  availability = r.availability;
  fulfillment = r.fulfillment;
  observed_at = r.observed_at;
  evidence_snapshot = sanitized_snapshot r;
  requested_at = r.requested_at;
  expires_at = r.expires_at;
}

unfoldable pub name_of : Option SellerSnapshot → Option (List ℕ)
name_of none = none
name_of (some s) = s.name

unfoldable pub request_from_model : PurchaseConfirmation → PurchaseConfirmationRequest
unfolding name_of
request_from_model m = record {
  confirmation_id = m.id;
  mission_id = m.mission_id;
  owner_user_id = m.owner_user_id;
  offer_id = m.offer_id;
  price_observation_id = m.price_observation_id;
  position = m.position;
  product = record m.evidence_snapshot.product { id = m.product_id };
  store = record m.evidence_snapshot.store { id = m.store_id };
  seller_id = m.seller_id;
  seller_name = name_of m.evidence_snapshot.seller;
  url = m.url;
  amount = m.amount;
  shipping_amount = m.shipping_amount;
  total_amount = m.total_amount;
  currency = m.currency;
  availability = m.availability;
  fulfillment = m.fulfillment;
  observed_at = m.observed_at;
  requested_at = m.requested_at;
  expires_at = m.expires_at;
}

unfoldable pub trail_model :
    PurchaseConfirmationRequest
    → PurchaseTrailEntryType
    → Option PurchaseConfirmationDecision
    → Option PurchaseConfirmationStaleReason
    → Option ℕ
    → PurchaseTrailEntry
trail_model r entry_type decision reason at = record {
  confirmation_id = r.confirmation_id;
  mission_id = r.mission_id;
  owner_user_id = r.owner_user_id;
  offer_id = r.offer_id;
  price_observation_id = r.price_observation_id;
  entry_type = entry_type;
  decision = decision;
  stale_reason = reason;
  resolved_at = at;
}
