-- ===== src/Purchase/Shown.antt =====
-- backend/app/purchase/service.py, `_build_evidence`: no offer that has an observation is left out.
use mathlib.Core.Path.{subst}
use aishopping_agent.Common.{
  ℕ, ◌≡◌, ◌⊎◌, ◌==◌, inl, inr, refl, sym, List, [], ◌∷◌, map, Option, arith, ap, Elem, Bool-cases,
  sort_by, sort-Elem,
}
use aishopping_agent.Purchase.{
  ObservationRow, OfferRows, OfferRecommendationEvidence, offer_evidence, join_offer, group_rows,
  by_offer_id, build_evidence,
}

-- One of the groups is that of the offer.
abbrev HasOffer : ℕ → List OfferRows → Type 0
HasOffer id [] = ⊥
HasOffer id (g ∷ gs) = (g.latest.offer_id ≡ id) ⊎ HasOffer id gs

join_offer-kept :
    (id : ℕ) (row : ObservationRow) (gs : List OfferRows)
    → HasOffer id gs
    → HasOffer id (join_offer row gs)
unfolding join_offer
join_offer-kept id row [] h = absurd h
join_offer-kept id row (g ∷ gs) h = elim (Bool-cases (g.latest.offer_id == row.offer_id)) [
  | inl e ↦ rw e h
  | inr e ↦ rw e (elim h [ inl q ↦ inl q | inr m ↦ inr (join_offer-kept id row gs m) ])
]

join_offer-own :
    (row : ObservationRow) (gs : List OfferRows) → HasOffer row.offer_id (join_offer row gs)
unfolding join_offer
join_offer-own row [] = inl refl
join_offer-own row (g ∷ gs) = elim (Bool-cases (g.latest.offer_id == row.offer_id)) [
  | inl e ↦ rw e (inl (ground arith))
  | inr e ↦ rw e (inr (join_offer-own row gs))
]

group_rows-kept :
    (id : ℕ) (rows : List ObservationRow) (gs : List OfferRows)
    → HasOffer id gs
    → HasOffer id (group_rows rows gs)
unfolding group_rows
group_rows-kept id [] gs h = h
group_rows-kept id (row ∷ rows) gs h =
    group_rows-kept id rows (join_offer row gs) (join_offer-kept id row gs h)

group_rows-own :
    (row : ObservationRow) (rows : List ObservationRow) (gs : List OfferRows)
    → Elem row rows
    → HasOffer row.offer_id (group_rows rows gs)
unfolding group_rows
group_rows-own row [] gs m = absurd m
group_rows-own row (x ∷ rows) gs (inl q) =
    group_rows-kept row.offer_id rows (join_offer x gs)
      (subst (λ y. HasOffer y.offer_id (join_offer x gs)) (sym q) (join_offer-own x gs))
group_rows-own row (x ∷ rows) gs (inr m) = group_rows-own row rows (join_offer x gs) m

offer_found :
    (id : ℕ) (gs : List OfferRows)
    → HasOffer id gs
    → (g : OfferRows) × Elem g gs × (g.latest.offer_id ≡ id)
offer_found id [] h = absurd h
offer_found id (g ∷ gs) (inl q) = (g, inl refl, q)
offer_found id (g ∷ gs) (inr h) =
    let (found, listed, same) = offer_found id gs h in (found, inr listed, same)

map-Elem :
    (f : OfferRows → OfferRecommendationEvidence) (g : OfferRows) (gs : List OfferRows)
    → Elem g gs
    → Elem (f g) (map f gs)
map-Elem f g [] m = absurd m
map-Elem f g (x ∷ gs) (inl q) = inl (ap f q)
map-Elem f g (x ∷ gs) (inr m) = inr (map-Elem f g gs m)

pub build_evidence-shown :
    (rows : List ObservationRow) (currency : Option (List ℕ)) (row : ObservationRow)
    → Elem row rows
    → (e : OfferRecommendationEvidence) × Elem e (build_evidence rows currency)
      × (e.latest.offer_id ≡ row.offer_id)
unfolding build_evidence offer_evidence
build_evidence-shown rows currency row m =
    let groups = group_rows rows [] in
    let (g, listed, same) = offer_found row.offer_id groups (group_rows-own row rows [] m) in
    (
      offer_evidence currency g,
      map-Elem (offer_evidence currency) g (sort_by by_offer_id groups)
          (sort-Elem by_offer_id g groups listed),
      same,
    )
