-- ===== src/Purchase/Best.antt =====
-- A recommendation is the best eligible offer, and is never missing.
use mathlib.Core.Path.{sym}
use aishopping_agent.Purchase.Shown.{build_evidence-shown}
use aishopping_agent.Purchase.Buyable.{
  IsConsistent, All-IsConsistent, IsBuyable, IsBetter, rank_order-IsBetter, IsBuyable-eligible,
  All-IsBuyable,
}
use aishopping_agent.Alerts.Evaluator.{is_available}
use mathlib.Core.Path.{subst}
use aishopping_agent.Common.{
  ℕ, ◌≡◌, ◌≢◌, ◌⊎◌, inl, inr, refl, true, false, List, [], ◌∷◌, map, Option, none, some, All, Elem,
  arith, Option-cases, keep, any_of, keep-Elem, Elem-keep, sort-Elem, Elem-sort, sort-IsSorted,
  sort_by, IsSorted, All-elem,
}
use aishopping_agent.Purchase.{
  group_rows, by_offer_id, same_text, ObservationRow, OfferRecommendationEvidence, index_error,
  recommended, MissionRow, rank_order, rank_eligible_evidence, insufficient_in, insufficient_reason,
  offer_evidence, first_of, on_reason, build_evidence, recommend_for_mission, known_shipping,
}

rank-total : (a b : OfferRecommendationEvidence) → rank_order a b ≡ false → rank_order b a ≡ true
unfolding rank_order
rank-total a b h = ground arith

rank_trans :
    (a b c : OfferRecommendationEvidence)
    → rank_order a b ≡ true
    → rank_order b c ≡ true
    → rank_order a c ≡ true
unfolding rank_order
rank_trans a b c h k = ground arith

any-eligible :
    (currency : List ℕ) (es : List OfferRecommendationEvidence)
    → All (IsConsistent currency) es
    → any_of known_shipping (
        keep
          (λ e. same_text e.latest.currency currency)
          (keep (λ e. is_available e.latest.availability) es))
      ≡ true
    → keep (λ e. e.eligible) es ≢ []
unfolding keep any_of
any-eligible currency [] h k = λ q. cc
any-eligible currency (e ∷ es) h k = ground (arith, any-eligible currency es h.1, h.0)

sort-non_empty : (es : List OfferRecommendationEvidence) → es ≢ [] → sort_by rank_order es ≢ []
sort-non_empty [] h q = h refl
sort-non_empty (e ∷ es) h q = subst (Elem e) q (sort-Elem rank_order e (e ∷ es) (inl refl))

reason-none :
    (c : List ℕ) (es : List OfferRecommendationEvidence)
    → insufficient_in es c ≡ none
    → any_of known_shipping (
        keep
          (λ e. same_text e.latest.currency c)
          (keep (λ e. is_available e.latest.availability) es))
      ≡ true
unfolding insufficient_in
reason-none c es h = ground arith

first-found :
    (es evidence : List OfferRecommendationEvidence) → es ≢ [] → first_of es evidence ≢ index_error
unfolding first_of
first-found [] evidence h q = h refl
first-found (e ∷ es) evidence h q = cc

reason-ranked :
    (rows : List ObservationRow) (currency : Option (List ℕ))
    → insufficient_reason (build_evidence rows currency) currency ≡ none
    → rank_eligible_evidence (build_evidence rows currency) ≢ []
unfolding rank_eligible_evidence build_evidence insufficient_reason
reason-ranked rows none h = cc
reason-ranked rows (some currency) h =
    sort-non_empty _
      (any-eligible currency _ (All-IsConsistent currency _) (reason-none currency _ h))

-- A recommendation never fails on an empty ranking: where no reason to refuse is found, at least
-- one offer is eligible.
pub recommend_for_mission_total :
    (m : Option MissionRow) (rows : List ObservationRow)
    → recommend_for_mission m rows ≢ index_error
unfolding recommend_for_mission on_reason
recommend_for_mission_total none rows = λ q. cc
recommend_for_mission_total (some m) rows =
    elim (Option-cases
      (insufficient_reason (build_evidence rows m.target_currency) m.target_currency)) [
        | inl e ↦ λ q. ground (
          arith,
          first-found (rank_eligible_evidence (build_evidence rows m.target_currency))
              (build_evidence rows m.target_currency) (reason-ranked rows m.target_currency e),
        )
        | inr (x, e) ↦ λ q. ground arith
      ]

ranked-first :
    (es : List OfferRecommendationEvidence) (r : OfferRecommendationEvidence)
    (ranked evidence : List OfferRecommendationEvidence)
    → IsSorted rank_order ranked
    → ((e : OfferRecommendationEvidence) → Elem e ranked → Elem e (keep (λ x. x.eligible) es))
    → ((e : OfferRecommendationEvidence) → Elem e (keep (λ x. x.eligible) es) → Elem e ranked)
    → first_of ranked evidence ≡ recommended r evidence
    → (r.eligible ≡ true)
      × Elem r es
      × ((e : OfferRecommendationEvidence)
          → Elem e es
          → e.eligible ≡ true
          → (e ≡ r) ⊎ (rank_order r e ≡ true))
unfolding first_of
ranked-first es r [] evidence sorted back forth q = cc
ranked-first es r (x ∷ xs) evidence sorted back forth q =
    let same : x ≡ r = cc in
    let (listed, eligible) = Elem-keep (λ e. e.eligible) x es (back x (inl refl)) in
    (
      subst (λ e. e.eligible ≡ true) same eligible,
      subst (λ e. Elem e es) same listed,
      λ e m t.
          subst (λ y. (e ≡ y) ⊎ (rank_order y e ≡ true)) same
            (first-le (forth e (keep-Elem (λ y. y.eligible) e es m t))),
    )
  where
    first-le :
        {e : OfferRecommendationEvidence} → Elem e (x ∷ xs) → (e ≡ x) ⊎ (rank_order x e ≡ true)
    first-le (inl p) = inl p
    first-le {e} (inr m) = inr (All-elem (λ y. rank_order x y ≡ true) e xs sorted.0 m)

recommended-evidence :
    (es ranked : List OfferRecommendationEvidence) {r : OfferRecommendationEvidence}
    {evidence : List OfferRecommendationEvidence}
    → first_of ranked es ≡ recommended r evidence
    → (es ≡ evidence) × (first_of ranked evidence ≡ recommended r evidence)
unfolding first_of
recommended-evidence es [] h = cc
recommended-evidence es (x ∷ xs) h = (cc, cc)

-- What a mission's recommendation is made of.
abbrev evidence_of : Option MissionRow → List ObservationRow → List OfferRecommendationEvidence
evidence_of none rows = []
evidence_of (some m) rows = build_evidence rows m.target_currency

recommended_first :
    (m : Option MissionRow) (rows : List ObservationRow) (r : OfferRecommendationEvidence)
    (evidence : List OfferRecommendationEvidence)
    → recommend_for_mission m rows ≡ recommended r evidence
    → (evidence ≡ evidence_of m rows)
      × (r.eligible ≡ true)
      × Elem r evidence
      × ((e : OfferRecommendationEvidence)
          → Elem e evidence
          → e.eligible ≡ true
          → (e ≡ r) ⊎ (rank_order r e ≡ true))
unfolding recommend_for_mission on_reason
recommended_first none rows r evidence h = cc
recommended_first (some m) rows r evidence h =
    elim (Option-cases
      (insufficient_reason (build_evidence rows m.target_currency) m.target_currency)) [
        | inr (x, e) ↦ ground arith
        | inl e ↦
            let all = build_evidence rows m.target_currency in
            let found : first_of (rank_eligible_evidence all) all ≡ recommended r evidence =
              ground arith in
            let (same, again) = recommended-evidence all (rank_eligible_evidence all) found in
            subst
              (λ es.
                (es ≡ all)
                × (r.eligible ≡ true)
                × Elem r es
                × ((e : OfferRecommendationEvidence)
                    → Elem e es
                    → e.eligible ≡ true
                    → (e ≡ r) ⊎ (rank_order r e ≡ true)))
              same (let p = ranked all r evidence again in (refl, p.0, p.1, p.2))
      ]
  where
    ranked :
        (es : List OfferRecommendationEvidence) (r : OfferRecommendationEvidence)
        (evidence : List OfferRecommendationEvidence)
        → first_of (rank_eligible_evidence es) evidence ≡ recommended r evidence
        → (r.eligible ≡ true)
          × Elem r es
          × ((e : OfferRecommendationEvidence)
              → Elem e es
              → e.eligible ≡ true
              → (e ≡ r) ⊎ (rank_order r e ≡ true))
    ranked es r evidence q =
        unfold rank_eligible_evidence in
        ranked-first es r (sort_by rank_order (keep (λ e. e.eligible) es)) evidence
          (sort-IsSorted rank_order rank-total rank_trans (keep (λ e. e.eligible) es))
          (λ e m. Elem-sort rank_order e (keep (λ e. e.eligible) es) m)
          (λ e m. sort-Elem rank_order e (keep (λ e. e.eligible) es) m) q

-- For a mission with a target currency: every offer that has an observation is shown as evidence; the
-- offer recommended is one of those shown, available, in that currency and with a known shipping;
-- and of the offers shown of which the same holds, every other costs more in total, or as much and
-- was observed earlier, or at the same time and has no smaller identifier.
pub recommend_for_mission_best :
    (m : MissionRow) (currency : List ℕ) (rows : List ObservationRow)
    (r : OfferRecommendationEvidence) (evidence : List OfferRecommendationEvidence)
    → m.target_currency ≡ some currency
    → recommend_for_mission (some m) rows ≡ recommended r evidence
    → ((row : ObservationRow)
        → Elem row rows
        → (e : OfferRecommendationEvidence) × Elem e evidence × (e.latest.offer_id ≡ row.offer_id))
      × Elem r evidence
      × IsBuyable currency r
      × ((e : OfferRecommendationEvidence)
          → Elem e evidence
          → IsBuyable currency e
          → (e ≡ r) ⊎ IsBetter r e)
unfolding build_evidence
recommend_for_mission_best m currency rows r evidence c h =
    let (shown, eligible, listed, first) = recommended_first (some m) rows r evidence h in
    let groups = sort_by by_offer_id (group_rows rows []) in
    let same : evidence ≡ map (offer_evidence (some currency)) groups = rw c at shown in
    let listed_there = subst (Elem r) same listed in
    (
      λ row there.
          subst
            (λ es.
              (e : OfferRecommendationEvidence) × Elem e es × (e.latest.offer_id ≡ row.offer_id))
            (sym shown) (build_evidence-shown rows m.target_currency row there),
      listed,
      All-elem _ r _ (All-IsBuyable currency groups) listed_there eligible,
      λ e there buyable.
          let consistent =
            All-elem _ e _ (All-IsConsistent currency groups) (subst (Elem e) same there) in
          elim (first e there (IsBuyable-eligible currency e consistent buyable)) [
            | inl q ↦ inl q
            | inr t ↦ inr (rank_order-IsBetter r e t)
          ],
    )
