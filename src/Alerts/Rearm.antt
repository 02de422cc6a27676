-- ===== src/Alerts/Rearm.antt =====
-- The catalogue's checks and the rearming of a checkpoint.
use aishopping_agent.Common.{
  inl, inr, ℕ, ◌≡◌, ◌≢◌, ◌≤◌, ◌<◌, ◌+◌, ◌*◌, refl, Bool, true, false, Option, none, some, List,
  arith, Option-cases,
}
use aishopping_agent.Alerts.{
  MaterialImprovementPolicy, PriceObservation, MissionCriteria, AlertCheckpoint,
  AppliedCouponPayload, CatalogError, Evaluated, alerts, evaluation_error, catalog_error, unit,
  is_currency, validate_coupon_snapshot, decreased_error, target_error,
}
use aishopping_agent.Alerts.Evaluator.{
  Options, MissionFacts, evaluate_price_alerts, candidates_of, gate_open, both, decrease_part,
  target_part, target_from, target_was_reached, submit_decreased, submit_target, decreased_payload,
  target_payload, is_decrease, unless_invalid, validate_entities, required_material_improvement,
  is_material_improvement, passes_checkpoint_gate, policy_or_default, should_rearm, rises_to,
}

both-accepts :
    (a b : Evaluated) (e : CatalogError)
    → a ≢ catalog_error e
    → b ≢ catalog_error e
    → both a b ≢ catalog_error e
unfolding both
both-accepts (alerts xs) (alerts ys) e h k q = cc
both-accepts (alerts xs) (evaluation_error x) e h k q = cc
both-accepts (alerts xs) (catalog_error x) e h k q = k q
both-accepts (evaluation_error x) b e h k q = cc
both-accepts (catalog_error x) b e h k q = h q

decrease_part-accepts :
    (passes : Bool) (current : PriceObservation) (previous : Option PriceObservation)
    (coupon : Option AppliedCouponPayload) (e : CatalogError)
    → is_currency current.currency ≡ true
    → validate_coupon_snapshot coupon current.amount current.currency ≡ none
    → decrease_part passes current previous coupon ≢ catalog_error e
unfolding decrease_part submit_decreased decreased_payload decreased_error is_decrease
decrease_part-accepts passes current none coupon e h k = λ q. cc
decrease_part-accepts passes current (some p) coupon e h k = λ q. ground arith

target_part-accepts :
    (passes : Bool) (mission : MissionFacts) (current : PriceObservation) (target : Option ℕ)
    (coupon : Option AppliedCouponPayload) (e : CatalogError)
    → is_currency current.currency ≡ true
    → validate_coupon_snapshot coupon current.amount current.currency ≡ none
    → ((t : ℕ) → target ≡ some t → current.amount ≤ t)
    → target_part passes mission current target coupon ≢ catalog_error e
unfolding target_part submit_target target_payload target_error
target_part-accepts passes mission current none coupon e h k below = λ q. cc
target_part-accepts passes mission current (some t) coupon e h k below =
    let b = below t refl in λ q. ground arith

target_from-below :
    (target : Option ℕ) (currency : Option (List ℕ)) (current : PriceObservation)
    (previous : Option PriceObservation) (t : ℕ)
    → target_from target currency current previous ≡ some t
    → current.amount ≤ t
unfolding target_from
target_from-below (some target) (some currency) current previous t h = ground arith
target_from-below none currency current previous t h = cc
target_from-below (some target) none current previous t h = cc

candidates-accept :
    (mission : MissionFacts) (criteria : MissionCriteria) (current : PriceObservation)
    (previous : Option PriceObservation) (o : Options) (e : CatalogError)
    → is_currency current.currency ≡ true
    → validate_coupon_snapshot o.coupon current.amount current.currency ≡ none
    → candidates_of mission criteria current previous o ≢ catalog_error e
unfolding candidates_of target_was_reached
candidates-accept mission criteria current previous o e h k =
    both-accepts _ _ e (decrease_part-accepts _ current previous o.coupon e h k) (
      target_part-accepts _ mission current _ o.coupon e h k
        (target_from-below criteria.target_amount criteria.target_currency current previous))

-- With a currency of three capital letters, and no coupon or one that was computed for the current
-- amount in this currency, the evaluation never fails in the event catalogue: its own conditions
-- imply what the payloads check.
pub evaluate_price_alerts_accepted :
    (mission : MissionFacts) (criteria : MissionCriteria) (current : PriceObservation)
    (previous : Option PriceObservation) (o : Options) (e : CatalogError)
    → is_currency current.currency ≡ true
    → validate_coupon_snapshot o.coupon current.amount current.currency ≡ none
    → evaluate_price_alerts mission criteria current previous o ≢ catalog_error e
unfolding evaluate_price_alerts unless_invalid
evaluate_price_alerts_accepted mission criteria current previous o e h k = λ q.
    elim (Option-cases (validate_entities mission criteria current previous)) [
      | inr (x, v) ↦ ground arith
      | inl v ↦ ground (arith, candidates-accept mission criteria current previous o e h k)
    ]

required_positive :
    (reference : ℕ) (p : MaterialImprovementPolicy)
    → 0 < p.min_amount
    → 0 < p.max_amount
    → 0 < required_material_improvement reference p
unfolding required_material_improvement
required_positive reference p h k = ground arith

product_le : (a b c n : ℕ) → a * (unit + n) ≤ b * unit → c ≤ a → c * unit ≤ b * unit
product_le a b c n h k = omega arith

-- A price that rearms the checkpoint is not announced by itself, whatever the options: with a policy
-- of positive amounts, and the best price announced not above the last one, it does not pass the
-- gate of the checkpoint it rearms.
pub should_rearm_silent :
    (o : Options) (k : AlertCheckpoint) (current rearm_rise_percent : ℕ)
    → should_rearm (some k) current rearm_rise_percent ≡ true
    → 0 < (policy_or_default o.material_improvement_policy).min_amount
    → 0 < (policy_or_default o.material_improvement_policy).max_amount
    → k.best_notified_amount ≤ k.last_notified_amount
    → gate_open o current (some k) ≡ false
unfolding should_rearm gate_open passes_checkpoint_gate is_material_improvement rises_to
should_rearm_silent o k current rise h lo hi best = ground (
  arith,
  required_positive k.best_notified_amount (policy_or_default o.material_improvement_policy) lo hi,
  product_le k.last_notified_amount current k.best_notified_amount rise,
)
