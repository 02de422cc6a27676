-- ===== src/Purchase/Confirmation/Same.antt =====
-- backend/app/purchase/confirmation.py, `_same_evidence`: what it compares, column by column.
use mathlib.Core.Path.{subst}
use aishopping_agent.Common.{
  ℕ, ◌≡◌, true, List, Option, none, some, refl, sym, ap, arith, opt_eq, Elem, find_first, [], ◌∷◌,
  inl, inr, ◌==◌, ◌&&◌, Bool-cases,
}
use aishopping_agent.Common.Texts.{same_text_sound}
use aishopping_agent.Alerts.{Availability, available, unavailable, unknown}
use aishopping_agent.Purchase.Comparison.{OfferComparisonItem}
use aishopping_agent.Purchase.Confirmation.{
  PurchaseConfirmationRequest, same_evidence, same_opt_text, same_availability, seller_id_of,
  seller_name_of, eligible_offer,
}

-- The item shows what the request was shown, in every column.
pub record IsSameEvidence (q : PurchaseConfirmationRequest) (item : OfferComparisonItem)
    : Type 0 where
  pub offer : item.latest.offer_id ≡ q.offer_id
  pub product_id : item.latest.product.id ≡ q.product.id
  pub product_name : item.latest.product.name ≡ q.product.name
  pub product_brand : item.latest.product.brand ≡ q.product.brand
  pub product_model : item.latest.product.model ≡ q.product.model
  pub store_id : item.latest.store.id ≡ q.store.id
  pub store_code : item.latest.store.code ≡ q.store.code
  pub store_name : item.latest.store.name ≡ q.store.name
  pub seller_id : seller_id_of item.latest.seller ≡ q.seller_id
  pub seller_name : seller_name_of item.latest.seller ≡ q.seller_name
  pub url : item.latest.url ≡ q.url
  pub availability : item.latest.availability ≡ q.availability
  pub currency : item.latest.currency ≡ q.currency
  pub amount : item.latest.amount ≡ q.amount
  pub shipping_amount : item.latest.shipping_amount ≡ some q.shipping_amount
  pub total_amount : item.total_amount ≡ some q.total_amount
  pub fulfillment : item.latest.fulfillment ≡ q.fulfillment

opt_text_sound : (a b : Option (List ℕ)) → same_opt_text a b ≡ true → a ≡ b
unfolding same_opt_text
opt_text_sound none none h = refl
opt_text_sound none (some b) h = ground arith
opt_text_sound (some a) none h = ground arith
opt_text_sound (some a) (some b) h = ap some (same_text_sound a b h)

availability_sound : (a b : Availability) → same_availability a b ≡ true → a ≡ b
unfolding same_availability
availability_sound available available h = refl
availability_sound available unavailable h = ground arith
availability_sound available unknown h = ground arith
availability_sound unavailable available h = ground arith
availability_sound unavailable unavailable h = refl
availability_sound unavailable unknown h = ground arith
availability_sound unknown available h = ground arith
availability_sound unknown unavailable h = ground arith
availability_sound unknown unknown h = refl

opt_sound : (a b : Option ℕ) → opt_eq a b ≡ true → a ≡ b
opt_sound none none h = refl
opt_sound none (some b) h = ground arith
opt_sound (some a) none h = ground arith
opt_sound (some a) (some b) h = ap some (ground arith)

pub same_evidence-IsSameEvidence :
    (q : PurchaseConfirmationRequest) (item : OfferComparisonItem)
    → same_evidence q item ≡ true
    → IsSameEvidence q item
unfolding same_evidence
same_evidence-IsSameEvidence q item h = record {
  offer = ground arith;
  product_id = ground arith;
  product_name = same_text_sound _ _ (ground arith);
  product_brand = opt_text_sound _ _ (ground arith);
  product_model = opt_text_sound _ _ (ground arith);
  store_id = ground arith;
  store_code = same_text_sound _ _ (ground arith);
  store_name = same_text_sound _ _ (ground arith);
  seller_id = opt_sound _ _ (ground arith);
  seller_name = opt_text_sound _ _ (ground arith);
  url = same_text_sound _ _ (ground arith);
  availability = availability_sound _ _ (ground arith);
  currency = same_text_sound _ _ (ground arith);
  amount = ground arith;
  shipping_amount = opt_sound _ _ (ground arith);
  total_amount = opt_sound _ _ (ground arith);
  fulfillment = opt_text_sound _ _ (ground arith);
}

-- The offer that is found is one of the items, and eligible.
pub eligible_offer-found :
    (items : List OfferComparisonItem) (offer : ℕ) (item : OfferComparisonItem)
    → eligible_offer items offer ≡ some item
    → Elem item items × (item.eligible ≡ true)
unfolding eligible_offer find_first
eligible_offer-found [] offer item h = ground arith
eligible_offer-found (i ∷ items) offer item h =
    elim (Bool-cases (i.latest.offer_id == offer && i.eligible)) [
      | inl t ↦
          let same : i ≡ item = ground arith in
          (inl (sym same), subst (λ x. x.eligible ≡ true) same (ground arith))
      | inr f ↦
          let (listed, eligible) = eligible_offer-found items offer item (ground arith) in
          (inr listed, eligible)
    ]
