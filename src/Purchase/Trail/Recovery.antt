-- ===== src/Purchase/Trail/Recovery.antt =====
-- backend/app/purchase/trail.py: a request that was stored is recovered whole.
use aishopping_agent.Common.{◌∷◌, ◌∙◌, ℕ, ◌≡◌, refl, List, Option, none, some, arith}
use aishopping_agent.Purchase.{Seller, ObservationRow}
use aishopping_agent.Purchase.Comparison.{
  OfferComparisonItem, Compared, raises_not_found, raises_not_active, raises_index, raises_invalid,
  compared, compare_offers_for_mission,
}
use aishopping_agent.Purchase.Confirmation.{
  PurchaseConfirmationRequest, Result, ok, err, MissionEntry, seller_id_of, seller_name_of,
  request_of, selected_request, compared_request, request_from, build_request, eligible_offer,
}
use aishopping_agent.Purchase.Trail.{
  Db, find_confirmation, recover_from, recover_purchase_confirmation, requested_from,
  request_purchase_confirmation,
}
use aishopping_agent.Purchase.Records.{
  PurchaseConfirmation, seller_snapshot, sanitized_snapshot, name_of, confirmation_model,
  request_from_model,
}

name-seller_snapshot :
    (s : Option Seller)
    → name_of (seller_snapshot (seller_id_of s) (seller_name_of s)) ≡ seller_name_of s
unfolding name_of seller_snapshot seller_id_of seller_name_of
name-seller_snapshot none = refl
name-seller_snapshot (some s) = refl

-- What a request carries that is stored under `id` for `owner`, and read back.
pub record IsStored (id owner : ℕ) (r : PurchaseConfirmationRequest) : Type 0 where
  pub same_id : r.confirmation_id ≡ id
  pub same_owner : r.owner_user_id ≡ owner
  pub read_back : request_from_model (confirmation_model r) ≡ r

pub Gives : (id owner : ℕ) → Result PurchaseConfirmationRequest → Type 0
Gives id owner (ok r) = IsStored id owner r
Gives id owner (err e) = e ≡ e

request_of-Gives :
    (id mission owner now : ℕ) (row : ObservationRow) (position shipping total : Option ℕ)
    → Gives id owner (request_of id mission owner now row position shipping total)
unfolding Gives request_of request_from_model confirmation_model sanitized_snapshot
request_of-Gives id mission owner now row (some p) (some s) (some t) =
    ground (arith, name-seller_snapshot row.seller)
request_of-Gives id mission owner now row (some p) (some s) none = refl
request_of-Gives id mission owner now row (some p) none t = refl
request_of-Gives id mission owner now row none s t = refl

selected-Gives :
    (id mission owner now : ℕ) (o : Option OfferComparisonItem)
    → Gives id owner (selected_request id mission owner now o)
unfolding Gives selected_request
selected-Gives id mission owner now none = refl
selected-Gives id mission owner now (some i) =
    request_of-Gives id mission owner now i.latest i.position i.latest.shipping_amount
      i.total_amount

compared-Gives :
    (id mission offer owner now : ℕ) (c : Compared)
    → Gives id owner (compared_request id mission offer owner now c)
unfolding Gives compared_request
compared-Gives id mission offer owner now raises_not_found = refl
compared-Gives id mission offer owner now raises_not_active = refl
compared-Gives id mission offer owner now raises_index = refl
compared-Gives id mission offer owner now raises_invalid = refl
compared-Gives id mission offer owner now (compared r) =
    selected-Gives id mission owner now (eligible_offer r.items offer)

find_confirmation_first :
    (id : ℕ) (c : PurchaseConfirmation) (cs : List PurchaseConfirmation)
    → c.id ≡ id
    → find_confirmation id (c ∷ cs) ≡ some c
unfolding find_confirmation
find_confirmation_first id c cs h = ground arith

recover_stored :
    (id owner : ℕ) (r : PurchaseConfirmationRequest) (cs : List PurchaseConfirmation)
    → IsStored id owner r
    → recover_from (find_confirmation id (confirmation_model r ∷ cs)) owner ≡ ok r
unfolding recover_from confirmation_model
recover_stored id owner r cs s =
    rw (find_confirmation_first id (confirmation_model r) cs s.same_id)
      (ground (arith, s.same_owner, s.read_back))

module _ (casefold : List ℕ → List ℕ) (missions : ℕ → Option MissionEntry) where
  request_from-Gives :
      (id mission offer owner now : ℕ) (m : Option MissionEntry)
      → Gives id owner (request_from casefold missions id mission offer owner now m)
  unfolding Gives request_from
  request_from-Gives id mission offer owner now none = refl
  request_from-Gives id mission offer owner now (some m) = ground (
    arith,
    compared-Gives id mission offer owner now
        (compare_offers_for_mission casefold (some m.mission) m.rows),
  )

  recover_requested :
      (db : Db) (id owner : ℕ) (b : Result PurchaseConfirmationRequest)
      (r : PurchaseConfirmationRequest)
      → Gives id owner b
      → (requested_from casefold missions db b).result ≡ ok r
      → recover_purchase_confirmation (requested_from casefold missions db b).db id owner ≡ ok r
  unfolding Gives requested_from recover_purchase_confirmation
  recover_requested db id owner (err e) r g h = ground arith
  recover_requested db id owner (ok q) r g h = recover_stored id owner q db.confirmations g ∙ h

  -- A request that is accepted and stored is recovered by its owner as it was made, with every field,
  -- whatever was stored before.
  pub recover_purchase_confirmation_requested :
      (db : Db) (id mission offer owner now : ℕ) (r : PurchaseConfirmationRequest)
      → (request_purchase_confirmation casefold missions db id mission offer owner now).result
        ≡ ok r
      → recover_purchase_confirmation
          (request_purchase_confirmation casefold missions db id mission offer owner now).db
          id
          owner
        ≡ ok r
  unfolding request_purchase_confirmation build_request
  recover_purchase_confirmation_requested db id mission offer owner now r h =
      recover_requested db id owner _ r
        (request_from-Gives id mission offer owner now (missions mission)) h
