-- ===== src/Purchase/Comparison/Explained.antt =====
-- What the evidence of a comparison explains: an offer is eligible just when nothing excludes it.
use aishopping_agent.Common.{
  ℕ, ◌≡◌, inl, inr, refl, Bool, true, false, List, [], ◌∷◌, map, Option, none, some, All, Elem,
  arith, any_of, keep-Elem, All-of_Elem, All-elem, Bool-cases, is_none,
}
use mathlib.Core.Path.{subst}
use aishopping_agent.Common.Texts.{same_text}
use aishopping_agent.Alerts.Evaluator.{is_available}
use aishopping_agent.Purchase.{
  ObservationRow, OfferRecommendationEvidence, OfferRows, RecommendationReason, has_none,
  offer_evidence, exclusions_of, add_when, currency_is, build_evidence, insufficient_in,
  insufficient_reason, known_shipping,
}

-- What a piece of evidence says of its eligibility is so, for the mission's currency.
abbrev pub IsExplained : Option (List ℕ) → OfferRecommendationEvidence → Type 0
IsExplained currency e =
    (e.eligible ≡ has_none e.exclusions)
    × (e.eligible ≡ true
        → (is_available e.latest.availability ≡ true)
          × (currency_is currency e.latest ≡ true)
          × (is_none e.latest.shipping_amount ≡ false))

explained :
    (currency : Option (List ℕ)) (g : OfferRows) → IsExplained currency (offer_evidence currency g)
unfolding offer_evidence exclusions_of add_when has_none currency_is
explained none g = (refl, λ h. ground arith)
explained (some c) g = (refl, λ h. ground arith)

All-IsExplained :
    (currency : Option (List ℕ)) (gs : List OfferRows)
    → All (IsExplained currency) (map (offer_evidence currency) gs)
All-IsExplained currency [] = tt
All-IsExplained currency (g ∷ gs) = (explained currency g, All-IsExplained currency gs)

pub evidence-IsExplained :
    (rows : List ObservationRow) (currency : Option (List ℕ))
    → All (IsExplained currency) (build_evidence rows currency)
unfolding build_evidence
evidence-IsExplained rows currency = All-IsExplained currency _

Elem-has_none :
    (e : OfferRecommendationEvidence) (es : List OfferRecommendationEvidence)
    → Elem e es
    → has_none es ≡ false
unfolding has_none
Elem-has_none e [] m = absurd m
Elem-has_none e (x ∷ xs) m = refl

Elem-any_of :
    (p : OfferRecommendationEvidence → Bool) (e : OfferRecommendationEvidence)
    (es : List OfferRecommendationEvidence)
    → Elem e es
    → p e ≡ true
    → any_of p es ≡ true
unfolding any_of
Elem-any_of p e [] m h = absurd m
Elem-any_of p e (x ∷ xs) (inl q) h = let t : p x ≡ true = subst (λ y. p y ≡ true) q h in rw t refl
Elem-any_of p e (x ∷ xs) (inr m) h = ground (arith, Elem-any_of p e xs m h)

-- An eligible piece of evidence leaves no reason to refuse.
eligible-no_reason :
    (c : List ℕ) (e : OfferRecommendationEvidence) (es : List OfferRecommendationEvidence)
    → IsExplained (some c) e
    → Elem e es
    → e.eligible ≡ true
    → insufficient_in es c ≡ none
unfolding insufficient_in currency_is known_shipping
eligible-no_reason c e es (same, holds) m t =
    let (av, cur, ship) = holds t in
    let here = keep-Elem (λ x. is_available x.latest.availability) e es m av in
    let there = keep-Elem (λ x. same_text x.latest.currency c) e _ here cur in
    rw
      (
        Elem-has_none e es m,
        Elem-has_none e _ here,
        Elem-has_none e _ there,
        Elem-any_of known_shipping e _ there (rw ship refl),
      )
      refl

pub no_eligible :
    (currency : Option (List ℕ)) (es : List OfferRecommendationEvidence) {r : RecommendationReason}
    → All (IsExplained currency) es
    → insufficient_reason es currency ≡ some r
    → All (λ e. e.eligible ≡ false) es
unfolding insufficient_reason
no_eligible none es h k =
    All-of_Elem (λ e. e.eligible ≡ false) es
      (λ e m. elim (Bool-cases e.eligible) [
        | inl t ↦
            let c = ((All-elem (IsExplained none) e es h m).1 t).1 in
            absurd (unfold currency_is in cc)
        | inr f ↦ f
      ])
no_eligible (some c) es h k =
    All-of_Elem (λ e. e.eligible ≡ false) es
      (λ e m. elim (Bool-cases e.eligible) [
        | inl t ↦
            let no_reason =
              eligible-no_reason c e es (All-elem (IsExplained (some c)) e es h m) m t in
            absurd (cc)
        | inr f ↦ f
      ])
