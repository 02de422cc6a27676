-- ===== src/Purchase/Buyable.antt =====
-- backend/app/purchase/service.py: what it means that an offer may be recommended, and goes before
-- another.
use aishopping_agent.Alerts.Evaluator.{is_available}
use aishopping_agent.Alerts.{Availability, available, unavailable, unknown}
use aishopping_agent.Common.Texts.{same_text_refl, same_text_sound}
use aishopping_agent.Common.{
  ℕ, ◌≡◌, ◌<◌, ◌≤◌, is_none, ◌⊎◌, refl, true, false, List, [], ◌∷◌, map, Option, none, some, All,
  arith,
}
use aishopping_agent.Purchase.{
  same_text, OfferRecommendationEvidence, OfferRows, rank_order, has_none, offer_evidence,
  exclusions_of, add_when, currency_is, known_shipping,
}

-- What is eligible: the currency is the mission's, and the offer available, with a known shipping.
evidence-eligible :
    (currency : List ℕ) (rows : OfferRows)
    → let e = offer_evidence (some currency) rows in
      is_available e.latest.availability ≡ true
      → same_text e.latest.currency currency ≡ true
      → known_shipping e ≡ true
      → e.eligible ≡ true
unfolding offer_evidence exclusions_of add_when has_none currency_is known_shipping
evidence-eligible currency rows h k l = ground arith

-- Every piece of evidence says of itself whether it is eligible.
abbrev pub IsConsistent : List ℕ → OfferRecommendationEvidence → Type 0
IsConsistent currency e =
    is_available e.latest.availability ≡ true
    → same_text e.latest.currency currency ≡ true
    → known_shipping e ≡ true
    → e.eligible ≡ true

pub All-IsConsistent :
    (currency : List ℕ) (gs : List OfferRows)
    → All (IsConsistent currency) (map (offer_evidence (some currency)) gs)
All-IsConsistent currency [] = tt
All-IsConsistent currency (g ∷ gs) = (evidence-eligible currency g, All-IsConsistent currency gs)

-- An offer that may be recommended: it is available, in the mission's currency, and its shipping
-- is known.
pub record IsBuyable (currency : List ℕ) (e : OfferRecommendationEvidence) : Type 0 where
  pub on_sale : e.latest.availability ≡ available
  pub same_currency : e.latest.currency ≡ currency
  pub shipping : ℕ
  pub known : e.latest.shipping_amount ≡ some shipping

-- The first costs less in total; or as much and was observed later; or that too, and its
-- identifier is not the larger one.
abbrev pub IsBetter : OfferRecommendationEvidence → OfferRecommendationEvidence → Type 0
IsBetter a b =
    (a.latest.total_amount < b.latest.total_amount)
    ⊎ ((a.latest.total_amount ≡ b.latest.total_amount)
        × ((b.latest.observed_at < a.latest.observed_at)
            ⊎ ((a.latest.observed_at ≡ b.latest.observed_at)
                × (a.latest.offer_id ≤ b.latest.offer_id))))

pub rank_order-IsBetter : (a b : OfferRecommendationEvidence) → rank_order a b ≡ true → IsBetter a b
unfolding rank_order
rank_order-IsBetter a b h = ground arith

available_of : (a : Availability) → is_available a ≡ true → a ≡ available
unfolding is_available
available_of available h = refl
available_of unavailable h = ground arith
available_of unknown h = ground arith

shipping_of : (o : Option ℕ) → is_none o ≡ false → (x : ℕ) × (o ≡ some x)
shipping_of none h = ground arith
shipping_of (some x) h = (x, refl)

pub IsBuyable-eligible :
    (currency : List ℕ) (e : OfferRecommendationEvidence)
    → IsConsistent currency e
    → IsBuyable currency e
    → e.eligible ≡ true
unfolding known_shipping is_available
IsBuyable-eligible currency e h b =
    h (rw b.on_sale refl) (rw b.same_currency (same_text_refl currency)) (rw b.known refl)

eligible-IsBuyable :
    (currency : List ℕ) (rows : OfferRows)
    → (offer_evidence (some currency) rows).eligible ≡ true
    → IsBuyable currency (offer_evidence (some currency) rows)
unfolding offer_evidence exclusions_of add_when has_none currency_is
eligible-IsBuyable currency rows h =
    let (shipping, known) = shipping_of rows.latest.shipping_amount (ground arith) in
    record {
      on_sale = available_of rows.latest.availability (ground arith);
      same_currency = same_text_sound rows.latest.currency currency (ground arith);
      shipping = shipping;
      known = known;
    }

pub All-IsBuyable :
    (currency : List ℕ) (gs : List OfferRows)
    → All (λ e. e.eligible ≡ true → IsBuyable currency e) (map (offer_evidence (some currency)) gs)
All-IsBuyable currency [] = tt
All-IsBuyable currency (g ∷ gs) = (eligible-IsBuyable currency g, All-IsBuyable currency gs)
