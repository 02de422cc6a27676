-- ===== src/Alerts/Decisions.antt =====
-- What `evaluate_price_alerts` may announce.
use mathlib.Core.Path.{subst}
use aishopping_agent.Common.{
  ◌∙◌, ap, ◌≢◌, ◌++◌, Bool-cases, Option-cases, if◌then◌else◌, ℕ, ◌≡◌, ◌⊎◌, ◌≤◌, ◌<◌, ◌+◌, ◌*◌, inl,
  inr, refl, Bool, true, false, List, [], ◌∷◌, Option, none, some, All, arith,
}
use aishopping_agent.Alerts.{
  PriceObservation, MissionCriteria, AlertCheckpoint, Availability, available, AppliedCouponPayload,
  PriceAlertCandidate, price_decreased, price_target_reached, Evaluated, alerts, evaluation_error,
  catalog_error, unit, decreased_error, target_error,
}
use aishopping_agent.Alerts.Evaluator.{
  Options, MissionFacts, evaluate_price_alerts, candidates_of, gate_open, validate_entities,
  unless_invalid, both, decrease_part, target_part, target_from, target_was_reached,
  submit_decreased, submit_target, decreased_payload, target_payload, is_available, is_decrease,
  passes_checkpoint_gate, is_material_improvement, required_material_improvement, policy_or_default,
  window_over,
}

-- For an earlier alert: the best price is undercut by what the policy asks for, or the checkpoint
-- was rearmed, the window is over and the market assessment supports a new alert.
abbrev pub Permits : Options → ℕ → Option AlertCheckpoint → Type 0
Permits o current none = Unit
Permits o current (some k) =
    ((0 < k.best_notified_amount)
      × (current * unit
            + required_material_improvement k.best_notified_amount
                (policy_or_default o.material_improvement_policy)
          ≤ k.best_notified_amount * unit))
    ⊎ ((k.rearmed_at ≢ none)
        × (window_over o.now o.realert_window k.last_notified_at ≡ true)
        × (o.market_assessment_supports_realert ≡ true))

-- What an alert says holds of the observations it is about.
abbrev pub IsTrue :
    MissionCriteria → PriceObservation → Option PriceObservation → PriceAlertCandidate → Type 0
IsTrue criteria current none (price_decreased p) = ⊥
IsTrue criteria current (some previous) (price_decreased p) =
    (previous.availability ≡ available)
    × (p.previous_total ≡ previous.amount)
    × (p.current_total ≡ current.amount)
    × (p.current_total < p.previous_total)
IsTrue criteria current previous (price_target_reached p) =
    (criteria.target_amount ≡ some p.target_total)
    × (p.current_total ≡ current.amount)
    × (p.current_total ≤ p.target_total)

gate-Permits :
    (o : Options) (current : ℕ) (k : Option AlertCheckpoint)
    → gate_open o current k ≡ true
    → Permits o current k
unfolding gate_open passes_checkpoint_gate is_material_improvement
gate-Permits o current none h = tt
gate-Permits o current (some k) h = ground arith

-- Every alert is true, and there is none unless the gate passes.
abbrev Sound : (PriceAlertCandidate → Type 0) → Bool → Evaluated → Type 0
Sound P passes (alerts cs) = All P cs × ((cs ≡ []) ⊎ (passes ≡ true))
Sound P passes (evaluation_error e) = Unit
Sound P passes (catalog_error e) = Unit

All-append :
    (P : PriceAlertCandidate → Type 0) (xs ys : List PriceAlertCandidate)
    → All P xs
    → All P ys
    → All P (xs ++ ys)
All-append P [] ys h k = k
All-append P (x ∷ xs) ys h k = (h.0, All-append P xs ys h.1 k)

both-Sound :
    (P : PriceAlertCandidate → Type 0) (passes : Bool) (a b : Evaluated)
    → Sound P passes a
    → Sound P passes b
    → Sound P passes (both a b)
unfolding both
both-Sound P passes (alerts xs) (alerts ys) (h, inr t) (k, _) = (All-append P xs ys h k, inr t)
both-Sound P passes (alerts xs) (alerts ys) (h, inl e) (k, inr t) = (All-append P xs ys h k, inr t)
both-Sound P passes (alerts xs) (alerts ys) (h, inl e) (k, inl f) =
    (All-append P xs ys h k, inl (ap (λ l. l ++ ys) e ∙ f))
both-Sound P passes (alerts xs) (evaluation_error e) h k = tt
both-Sound P passes (alerts xs) (catalog_error e) h k = tt
both-Sound P passes (evaluation_error e) b h k = tt
both-Sound P passes (catalog_error e) b h k = tt

is_available_sound : (a : Availability) → is_available a ≡ true → a ≡ available
unfolding is_available
is_available_sound available h = refl
is_available_sound Availability.unavailable h = cc
is_available_sound Availability.unknown h = cc

decrease_part-Sound :
    (passes : Bool) (criteria : MissionCriteria) (current : PriceObservation)
    (previous : Option PriceObservation) (coupon : Option AppliedCouponPayload)
    → Sound (IsTrue criteria current previous) passes (decrease_part passes current previous coupon)
unfolding decrease_part submit_decreased decreased_payload
decrease_part-Sound passes criteria current none coupon = (tt, inl refl)
decrease_part-Sound passes criteria current (some p) coupon =
    elim (Bool-cases (is_decrease current p)) [
      | inr e ↦ rw e (tt, inl refl)
      | inl e ↦ rw e (
          when_less (unfold is_decrease in ground (arith, is_available_sound p.availability))
            passes)
    ]
  where
    when_less :
        (p.availability ≡ available) × (current.amount < p.amount)
        → (passes : Bool)
        → Sound (IsTrue criteria current (some p)) passes (
            if passes
            then submit_decreased
                (decreased_payload current p coupon)
                (decreased_error (decreased_payload current p coupon))
            else alerts [])
    when_less h false = (tt, inl refl)
    when_less h true = elim (Option-cases (decreased_error (decreased_payload current p coupon))) [
      | inl e ↦ rw e (((h.0, refl, refl, h.1), tt), inr refl)
      | inr (x, e) ↦ rw e tt
    ]

target_part-Sound :
    (passes : Bool) (mission : MissionFacts) (criteria : MissionCriteria)
    (current : PriceObservation) (previous : Option PriceObservation) (target : Option ℕ)
    (coupon : Option AppliedCouponPayload)
    → ((t : ℕ) → target ≡ some t → (criteria.target_amount ≡ some t) × (current.amount ≤ t))
    → Sound
        (IsTrue criteria current previous)
        passes
        (target_part passes mission current target coupon)
unfolding target_part submit_target target_payload
target_part-Sound passes mission criteria current previous none coupon h = (tt, inl refl)
target_part-Sound false mission criteria current previous (some t) coupon h = (tt, inl refl)
target_part-Sound true mission criteria current previous (some t) coupon h =
    elim (Option-cases (target_error (target_payload mission current t coupon))) [
      | inl e ↦ rw e ((((h t refl).0, refl, (h t refl).1), tt), inr refl)
      | inr (x, e) ↦ rw e tt
    ]

target_from_sound :
    (target : Option ℕ) (currency : Option (List ℕ)) (current : PriceObservation)
    (previous : Option PriceObservation) (t : ℕ)
    → target_from target currency current previous ≡ some t
    → (target ≡ some t) × (current.amount ≤ t)
unfolding target_from
target_from_sound (some target) (some currency) current previous t h = ground arith
target_from_sound none currency current previous t h = cc
target_from_sound (some target) none current previous t h = cc

candidates-Sound :
    (mission : MissionFacts) (criteria : MissionCriteria) (current : PriceObservation)
    (previous : Option PriceObservation) (o : Options)
    → Sound
        (IsTrue criteria current previous)
        (gate_open o current.amount o.checkpoint)
        (candidates_of mission criteria current previous o)
unfolding candidates_of target_was_reached
candidates-Sound mission criteria current previous o =
    let passes = gate_open o current.amount o.checkpoint in
    let target = target_from criteria.target_amount criteria.target_currency current previous in
    both-Sound (IsTrue criteria current previous) passes
      (decrease_part passes current previous o.coupon)
      (target_part passes mission current target o.coupon)
      (decrease_part-Sound passes criteria current previous o.coupon)
      (target_part-Sound passes mission criteria current previous target o.coupon
        (target_from_sound criteria.target_amount criteria.target_currency current previous))

evaluated-Sound :
    (mission : MissionFacts) (criteria : MissionCriteria) (current : PriceObservation)
    (previous : Option PriceObservation) (o : Options) (cs : List PriceAlertCandidate)
    → evaluate_price_alerts mission criteria current previous o ≡ alerts cs
    → (cs ≡ [])
      ⊎ ((mission.is_active ≡ true)
          × (current.availability ≡ available)
          × (candidates_of mission criteria current previous o ≡ alerts cs))
unfolding evaluate_price_alerts unless_invalid
evaluated-Sound mission criteria current previous o cs h =
    elim (Option-cases (validate_entities mission criteria current previous)) [
      | inr (e, v) ↦ ground (arith)
      | inl v ↦ ground (arith, is_available_sound current.availability)
    ]

-- Whatever is announced is true, and permitted: the mission is active and the product available; a
-- decrease is one from an available previous price to the current one, a reached target is the
-- criteria's and not below the current price; and if there was an alert before, either the best
-- price announced is undercut by the material improvement the policy asks for, or the checkpoint
-- was rearmed, the window since the last alert is over and the market assessment supports it.
pub evaluate_price_alerts_sound :
    (mission : MissionFacts) (criteria : MissionCriteria) (current : PriceObservation)
    (previous : Option PriceObservation) (o : Options) (c : PriceAlertCandidate)
    (cs : List PriceAlertCandidate)
    → evaluate_price_alerts mission criteria current previous o ≡ alerts (c ∷ cs)
    → (mission.is_active ≡ true)
      × (current.availability ≡ available)
      × All (IsTrue criteria current previous) (c ∷ cs)
      × Permits o current.amount o.checkpoint
evaluate_price_alerts_sound mission criteria current previous o c cs h =
    elim (evaluated-Sound mission criteria current previous o (c ∷ cs) h) [
      | inl e ↦ cc
      | inr (active, here, same) ↦
          (let s : Sound (IsTrue criteria current previous)
                (gate_open o current.amount o.checkpoint) (alerts (c ∷ cs)) =
              subst
                (Sound (IsTrue criteria current previous) (gate_open o current.amount o.checkpoint))
                same (candidates-Sound mission criteria current previous o) in
            (active, here, s.0, gate-Permits o current.amount o.checkpoint (passed s.1)))
    ]
  where
    passed :
        ((c ∷ cs) ≡ []) ⊎ (gate_open o current.amount o.checkpoint ≡ true)
        → gate_open o current.amount o.checkpoint ≡ true
    passed (inl e) = cc
    passed (inr t) = t
