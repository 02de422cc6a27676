-- ===== src/Purchase/Confirmation/Safe.antt =====
-- backend/app/purchase/confirmation.py: what a decision on a request gives.
use aishopping_agent.Purchase.Confirmation.Same.{
  IsSameEvidence, same_evidence-IsSameEvidence, eligible_offer-found,
}
use mathlib.Core.Path.{subst}
use aishopping_agent.Common.{true, Elem, ◌<◌, ℕ, ◌≡◌, refl, List, Option, none, some, arith}
use aishopping_agent.Purchase.Comparison.{
  OfferComparisonResult, OfferComparisonItem, Compared, raises_not_found, raises_not_active,
  raises_index, raises_invalid, compared, compare_offers_for_mission,
}
use aishopping_agent.Purchase.Confirmation.{
  same_evidence, confirmed, PurchaseConfirmationRequest, PurchaseConfirmationResult,
  PurchaseConfirmationDecision, confirm, cancel, Result, ok, err, MissionEntry, eligible_offer,
  confirm_current, confirm_compared, confirm_from, decide, stale_result, resolved,
  evaluate_confirmation,
}

-- A result as the evaluation gives it.
unfoldable pub Evaluates :
    PurchaseConfirmationRequest
    → PurchaseConfirmationDecision
    → Result PurchaseConfirmationResult
    → Type 0
Evaluates q d (ok r) = (r.request ≡ q) × (r.decision ≡ d)
Evaluates q d (err e) = e ≡ e

confirm_current-Evaluates :
    (q : PurchaseConfirmationRequest) (at : ℕ) (o : Option OfferComparisonItem)
    → Evaluates q confirm (confirm_current q at o)
unfolding Evaluates confirm_current stale_result resolved
confirm_current-Evaluates q at none = (refl, refl)
confirm_current-Evaluates q at (some i) = ground arith

confirm_compared-Evaluates :
    (q : PurchaseConfirmationRequest) (at : ℕ) (c : Compared)
    → Evaluates q confirm (confirm_compared q at c)
unfolding Evaluates confirm_compared stale_result resolved
confirm_compared-Evaluates q at raises_not_found = (refl, refl)
confirm_compared-Evaluates q at raises_not_active = (refl, refl)
confirm_compared-Evaluates q at raises_index = refl
confirm_compared-Evaluates q at raises_invalid = refl
confirm_compared-Evaluates q at (compared r) =
    confirm_current-Evaluates q at (eligible_offer r.items q.offer_id)

module _ (casefold : List ℕ → List ℕ) (missions : ℕ → Option MissionEntry) where
  confirm_from-Evaluates :
      (q : PurchaseConfirmationRequest) (at : ℕ) (m : Option MissionEntry)
      → Evaluates q confirm (confirm_from casefold missions q at m)
  unfolding Evaluates confirm_from stale_result resolved
  confirm_from-Evaluates q at none = (refl, refl)
  confirm_from-Evaluates q at (some m) = ground (
    arith,
    confirm_compared-Evaluates q at (compare_offers_for_mission casefold (some m.mission) m.rows),
  )

  decide-Evaluates :
      (q : PurchaseConfirmationRequest) (d : PurchaseConfirmationDecision) (at : ℕ)
      → Evaluates q d (decide casefold missions q d at)
  unfolding Evaluates decide stale_result resolved
  decide-Evaluates q cancel at = (refl, refl)
  decide-Evaluates q confirm at =
      ground (arith, confirm_from-Evaluates q at (missions q.mission_id))

  pub evaluate_confirmation-Evaluates :
      (q : PurchaseConfirmationRequest) (owner : ℕ) (d : PurchaseConfirmationDecision) (at : ℕ)
      → Evaluates q d (evaluate_confirmation casefold missions q owner d at)
  unfolding Evaluates evaluate_confirmation
  evaluate_confirmation-Evaluates q owner d at = ground (arith, decide-Evaluates q d at)

-- What the comparison gives now still lists the offer as an eligible one, as the request shows it.
pub record IsCurrent (q : PurchaseConfirmationRequest) (c : Compared) : Type 0 where
  pub result : OfferComparisonResult
  pub item : OfferComparisonItem
  pub is_result : c ≡ compared result
  pub listed : Elem item result.items
  pub eligible : item.eligible ≡ true
  pub same : IsSameEvidence q item

confirm_current_same :
    (q : PurchaseConfirmationRequest) (at : ℕ) (item : OfferComparisonItem)
    (r : PurchaseConfirmationResult)
    → confirm_current q at (some item) ≡ ok r
    → r.status ≡ confirmed
    → same_evidence q item ≡ true
unfolding confirm_current stale_result resolved
confirm_current_same q at item r h s = ground arith

confirm_current-IsCurrent :
    (q : PurchaseConfirmationRequest) (at : ℕ) (res : OfferComparisonResult)
    (o : Option OfferComparisonItem) (r : PurchaseConfirmationResult)
    → eligible_offer res.items q.offer_id ≡ o
    → confirm_current q at o ≡ ok r
    → r.status ≡ confirmed
    → IsCurrent q (compared res)
unfolding confirm_current stale_result resolved
confirm_current-IsCurrent q at res none r e h s = ground arith
confirm_current-IsCurrent q at res (some item) r e h s =
    let (listed, eligible) = eligible_offer-found res.items q.offer_id item e in
    record {
      result = res;
      item = item;
      is_result = refl;
      listed = listed;
      eligible = eligible;
      same = same_evidence-IsSameEvidence q item (confirm_current_same q at item r h s);
    }

confirm_compared-IsCurrent :
    (q : PurchaseConfirmationRequest) (at : ℕ) (c : Compared) (r : PurchaseConfirmationResult)
    → confirm_compared q at c ≡ ok r
    → r.status ≡ confirmed
    → IsCurrent q c
unfolding confirm_compared stale_result resolved
confirm_compared-IsCurrent q at raises_not_found r h s = ground arith
confirm_compared-IsCurrent q at raises_not_active r h s = ground arith
confirm_compared-IsCurrent q at raises_index r h s = ground arith
confirm_compared-IsCurrent q at raises_invalid r h s = ground arith
confirm_compared-IsCurrent q at (compared res) r h s =
    confirm_current-IsCurrent q at res (eligible_offer res.items q.offer_id) r refl h s

module _ (casefold : List ℕ → List ℕ) (missions : ℕ → Option MissionEntry) where
  -- What has been checked again when an offer is confirmed.
  pub record IsRevalidated (q : PurchaseConfirmationRequest) (owner : ℕ)
      (d : PurchaseConfirmationDecision) (at : ℕ) : Type 0 where
    pub entry : MissionEntry
    pub same_owner : owner ≡ q.owner_user_id
    pub confirms : d ≡ confirm
    pub unexpired : at < q.expires_at
    pub stands : missions q.mission_id ≡ some entry
    pub owned : entry.user_id ≡ q.owner_user_id
    pub current : IsCurrent q (compare_offers_for_mission casefold (some entry.mission) entry.rows)

  confirm_from_owned :
      (q : PurchaseConfirmationRequest) (at : ℕ) (m : MissionEntry) (r : PurchaseConfirmationResult)
      → confirm_from casefold missions q at (some m) ≡ ok r
      → r.status ≡ confirmed
      → (m.user_id ≡ q.owner_user_id)
        × (confirm_compared q at (compare_offers_for_mission casefold (some m.mission) m.rows)
            ≡ ok r)
  unfolding confirm_from stale_result resolved
  confirm_from_owned q at m r h s = ground arith

  confirm_from-IsRevalidated :
      (q : PurchaseConfirmationRequest) (at : ℕ) (o : Option MissionEntry)
      (r : PurchaseConfirmationResult)
      → missions q.mission_id ≡ o
      → at < q.expires_at
      → confirm_from casefold missions q at o ≡ ok r
      → r.status ≡ confirmed
      → IsRevalidated q q.owner_user_id confirm at
  unfolding confirm_from stale_result resolved
  confirm_from-IsRevalidated q at none r e l h s = ground arith
  confirm_from-IsRevalidated q at (some m) r e l h s =
      let c = confirm_from_owned q at m r h s in
      record {
        entry = m;
        same_owner = refl;
        confirms = refl;
        unexpired = l;
        stands = e;
        owned = c.0;
        current = confirm_compared-IsCurrent q at _ r c.1 s;
      }

  decide_unexpired :
      (q : PurchaseConfirmationRequest) (at : ℕ) (r : PurchaseConfirmationResult)
      → decide casefold missions q confirm at ≡ ok r
      → r.status ≡ confirmed
      → (at < q.expires_at) × (confirm_from casefold missions q at (missions q.mission_id) ≡ ok r)
  unfolding decide stale_result resolved
  decide_unexpired q at r h s = ground arith

  decide-IsRevalidated :
      (q : PurchaseConfirmationRequest) (d : PurchaseConfirmationDecision) (at : ℕ)
      (r : PurchaseConfirmationResult)
      → decide casefold missions q d at ≡ ok r
      → r.status ≡ confirmed
      → IsRevalidated q q.owner_user_id d at
  unfolding decide stale_result resolved
  decide-IsRevalidated q cancel at r h s = ground arith
  decide-IsRevalidated q confirm at r h s =
      let c = decide_unexpired q at r h s in
      confirm_from-IsRevalidated q at (missions q.mission_id) r refl c.0 c.1 s

  evaluate_owner :
      (q : PurchaseConfirmationRequest) (owner : ℕ) (d : PurchaseConfirmationDecision) (at : ℕ)
      (r : PurchaseConfirmationResult)
      → evaluate_confirmation casefold missions q owner d at ≡ ok r
      → (q.owner_user_id ≡ owner) × (decide casefold missions q d at ≡ ok r)
  unfolding evaluate_confirmation
  evaluate_owner q owner d at r h = ground arith

  -- An offer is confirmed only when the request's owner decides to confirm it, before the request
  -- expires, while the mission is still that owner's and its comparison still has the offer as
  -- an eligible one, equal to the evidence that was shown in each of these: the offer, the product,
  -- the store and the seller with their columns, the address, the availability, the currency, the
  -- amount, the shipping, the total and the fulfilment.
  pub evaluate_confirmation-IsRevalidated :
      (q : PurchaseConfirmationRequest) (owner : ℕ) (d : PurchaseConfirmationDecision) (at : ℕ)
      (r : PurchaseConfirmationResult)
      → evaluate_confirmation casefold missions q owner d at ≡ ok r
      → r.status ≡ confirmed
      → IsRevalidated q owner d at
  evaluate_confirmation-IsRevalidated q owner d at r h s =
      let e = evaluate_owner q owner d at r h in
      subst (λ o. IsRevalidated q o d at) e.0 (decide-IsRevalidated q d at r e.1 s)
