-- ===== src/Purchase/Comparison/Valid.antt =====
-- The checks that the comparison makes of its own results never fail.
use aishopping_agent.Common.{
  ℕ, suc, ◌≡◌, ◌≢◌, inl, inr, refl, true, false, not, List, [], ◌∷◌, ◌++◌, Option, none, some, All,
  arith, keep, sort_by, Elem-keep, Elem-sort, All-of_Elem, All-elem, Bool-cases, ==-refl,
}
use aishopping_agent.Purchase.{
  ObservationRow, OfferRecommendationEvidence, RecommendationReason, MissionRow, has_none,
  build_evidence, rank_order, rank_eligible_evidence, insufficient_reason, first_of, on_reason,
  recommend_for_mission,
}
use aishopping_agent.Purchase.Comparison.{
  status_accepted, same_first, OfferComparisonItem, raises_invalid, comparison_item, item_accepted,
  all_accepted, numbered, unnumbered, consecutive, eligible_first, result_accepted, items_of,
  checked_result, compare_from, compare_offers_for_mission, unranked_order,
}
use aishopping_agent.Purchase.Comparison.Explained.{IsExplained, evidence-IsExplained, no_eligible}

abbrev Ranked : Option (List ℕ) → OfferRecommendationEvidence → Type 0
Ranked currency e = IsExplained currency e × (e.eligible ≡ true)

abbrev Unranked : Option (List ℕ) → OfferRecommendationEvidence → Type 0
Unranked currency e = IsExplained currency e × (e.eligible ≡ false)

accepted-append :
    (xs ys : List OfferComparisonItem)
    → all_accepted xs ≡ true
    → all_accepted ys ≡ true
    → all_accepted (xs ++ ys) ≡ true
unfolding all_accepted
accepted-append [] ys h k = k
accepted-append (x ∷ xs) ys h k = ground (arith, accepted-append xs ys)

accepted-numbered :
    (currency : Option (List ℕ)) (n : ℕ) (es : List OfferRecommendationEvidence)
    → All (Ranked currency) es
    → all_accepted (numbered (suc n) es) ≡ true
unfolding all_accepted numbered comparison_item item_accepted
accepted-numbered currency n [] h = refl
accepted-numbered currency n (e ∷ es) ((x, t), h) =
    ground (arith, accepted-numbered currency (suc n) es h, x.0, x.1 t)

accepted-unnumbered :
    (currency : Option (List ℕ)) (es : List OfferRecommendationEvidence)
    → All (Unranked currency) es
    → all_accepted (unnumbered es) ≡ true
unfolding all_accepted unnumbered comparison_item item_accepted
accepted-unnumbered currency [] h = refl
accepted-unnumbered currency (e ∷ es) ((x, t), h) =
    ground (arith, accepted-unnumbered currency es h, x.0)

keep-unnumbered :
    (currency : Option (List ℕ)) (us : List OfferRecommendationEvidence)
    → All (Unranked currency) us
    → keep (λ i. i.eligible) (unnumbered us) ≡ []
unfolding keep unnumbered comparison_item
keep-unnumbered currency [] k = refl
keep-unnumbered currency (u ∷ us) k = rw (k.0.1) (keep-unnumbered currency us k.1)

keep-items :
    (currency : Option (List ℕ)) (n : ℕ) (es us : List OfferRecommendationEvidence)
    → All (Ranked currency) es
    → All (Unranked currency) us
    → keep (λ i. i.eligible) (numbered n es ++ unnumbered us) ≡ numbered n es
unfolding keep numbered comparison_item
keep-items currency n [] us h k = keep-unnumbered currency us k
keep-items currency n (e ∷ es) us h k = ground (arith, keep-items currency (suc n) es us h.1 k)

consecutive-numbered :
    (n : ℕ) (es : List OfferRecommendationEvidence) → consecutive n (numbered n es) ≡ true
unfolding consecutive numbered comparison_item
consecutive-numbered n [] = refl
consecutive-numbered n (e ∷ es) = ground (arith, consecutive-numbered (suc n) es)

unnumbered-eligible_first :
    (currency : Option (List ℕ)) (us : List OfferRecommendationEvidence)
    → All (Unranked currency) us
    → eligible_first (unnumbered us) ≡ true
unfolding eligible_first unnumbered comparison_item has_none
unnumbered-eligible_first currency [] k = refl
unnumbered-eligible_first currency (u ∷ us) k = rw (k.0.1, keep-unnumbered currency us k.1) refl

items-eligible_first :
    (currency : Option (List ℕ)) (n : ℕ) (es us : List OfferRecommendationEvidence)
    → All (Ranked currency) es
    → All (Unranked currency) us
    → eligible_first (numbered n es ++ unnumbered us) ≡ true
unfolding eligible_first numbered comparison_item
items-eligible_first currency n [] us h k = unnumbered-eligible_first currency us k
items-eligible_first currency n (e ∷ es) us h k =
    rw (h.0.1) (items-eligible_first currency (suc n) es us h.1 k)

module _ (casefold : List ℕ → List ℕ) (currency : Option (List ℕ))
    (evidence : List OfferRecommendationEvidence) (h : All (IsExplained currency) evidence) where
  Ranked-Ranked : All (Ranked currency) (rank_eligible_evidence evidence)
  unfolding rank_eligible_evidence
  Ranked-Ranked = All-of_Elem (Ranked currency) _ (λ e m.
      let (listed, t) = Elem-keep (λ x. x.eligible) e evidence (Elem-sort rank_order e _ m) in
      (All-elem (IsExplained currency) e evidence h listed, t))

  Unranked-Unranked :
      All
        (Unranked currency)
        (sort_by (unranked_order casefold) (keep (λ e. not e.eligible) evidence))
  Unranked-Unranked = All-of_Elem (Unranked currency) _ (λ e m.
      let (listed, t) =
        Elem-keep (λ x. not x.eligible) e evidence (Elem-sort (unranked_order casefold) e _ m) in
      (All-elem (IsExplained currency) e evidence h listed, ground arith))

  -- The items pass every check, whatever comes first, if the status fits them.
  checked-valid :
      (id : Option ℕ) (reason : Option RecommendationReason)
      → status_accepted reason id (numbered 1 (rank_eligible_evidence evidence)) ≡ true
      → checked_result casefold id reason evidence ≢ raises_invalid
  unfolding checked_result items_of result_accepted
  checked-valid id reason s =
      let r = Ranked-Ranked in
      let u = Unranked-Unranked in
      rw
        (
          accepted-append _ _ (accepted-numbered currency 0 _ r) (accepted-unnumbered currency _ u),
          keep-items currency 1 _ _ r u,
          consecutive-numbered 1 (rank_eligible_evidence evidence),
          items-eligible_first currency 1 _ _ r u,
          s,
        )
        (λ q. cc)

no_items :
    (currency : Option (List ℕ)) (es : List OfferRecommendationEvidence)
    → All (Ranked currency) es
    → All (λ e. e.eligible ≡ false) es
    → has_none (numbered 1 es) ≡ true
unfolding numbered has_none
no_items currency [] h k = refl
no_items currency (e ∷ es) h k = let t = h.0.1 in let f = k.0 in cc

module _ (casefold : List ℕ → List ℕ) (currency : Option (List ℕ))
    (evidence : List OfferRecommendationEvidence) (h : All (IsExplained currency) evidence) where
  first_of-valid :
      (ranked : List OfferRecommendationEvidence)
      → rank_eligible_evidence evidence ≡ ranked
      → compare_from casefold (first_of ranked evidence) ≢ raises_invalid
  unfolding first_of compare_from
  first_of-valid [] e = λ q. cc
  first_of-valid (x ∷ xs) e =
      checked-valid casefold currency evidence h (some x.latest.offer_id) none (
        rw e
          (unfold status_accepted same_first numbered comparison_item in ==-refl x.latest.offer_id))

  ranked-not_eligible :
      All (λ e. e.eligible ≡ false) evidence
      → All (λ e. e.eligible ≡ false) (rank_eligible_evidence evidence)
  unfolding rank_eligible_evidence
  ranked-not_eligible k =
      All-of_Elem (λ e. e.eligible ≡ false) _
        (λ e m.
          All-elem (λ x. x.eligible ≡ false) e evidence k
            (Elem-keep (λ x. x.eligible) e evidence (Elem-sort rank_order e _ m)).0)

  on_reason-valid :
      (o : Option RecommendationReason)
      → insufficient_reason evidence currency ≡ o
      → compare_from casefold (on_reason o evidence) ≢ raises_invalid
  unfolding on_reason
  on_reason-valid none e = first_of-valid (rank_eligible_evidence evidence) refl
  on_reason-valid (some r) e =
      unfold compare_from in
      checked-valid casefold currency evidence h none (some r) (
        unfold status_accepted in
        rw
          (no_items currency (rank_eligible_evidence evidence)
            (Ranked-Ranked casefold currency evidence h)
            (ranked-not_eligible (no_eligible currency evidence h e)))
          refl)

-- The comparison of a mission's offers never fails on its own checks: each eligible item has a
-- position, a total and no exclusion, and each other one an exclusion and no position; the
-- positions are consecutive from 1 and stand first; the item at position 1 is the recommended
-- offer, and without a recommendation there is a reason and no eligible item.
pub compare_offers_valid :
    (casefold : List ℕ → List ℕ) (m : Option MissionRow) (rows : List ObservationRow)
    → compare_offers_for_mission casefold m rows ≢ raises_invalid
unfolding compare_offers_for_mission recommend_for_mission
compare_offers_valid casefold none rows = λ q. unfold compare_from in cc
compare_offers_valid casefold (some m) rows = elim (Bool-cases m.is_active) [
  | inr e ↦ rw e (λ q. unfold compare_from in cc)
  | inl e ↦ rw e (
      on_reason-valid casefold m.target_currency (build_evidence rows m.target_currency)
        (evidence-IsExplained rows m.target_currency) _ refl)
]
