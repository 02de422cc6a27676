-- ===== src/Alerts/Evaluator.antt =====
-- backend/app/alerts/evaluator.py and material_improvement.py.
use aishopping_agent.Common.{
  ℕ, List, [], ◌∷◌, ◌++◌, Option, none, some, Bool, true, false, not, ◌&&◌, ◌||◌, ◌==◌, ◌+◌, ◌*◌,
  ltb, leb, if◌then◌else◌, opt_eq, is_none,
}
use aishopping_agent.Common.Texts.{same_text}
use aishopping_agent.Alerts.{
  PriceDecreasedPayload, PriceTargetReachedPayload, Availability, available, AlertError,
  CatalogError, PriceObservation, MissionCriteria, AlertCheckpoint, MaterialImprovementPolicy,
  AppliedCouponPayload, price_decreased, price_target_reached, Evaluated, alerts, evaluation_error,
  catalog_error, unit, decreased_error, target_error,
}

-- The keyword arguments of `evaluate_price_alerts`.
pub record Options : Type 0 where
  pub checkpoint : Option AlertCheckpoint
  pub material_improvement_policy : Option MaterialImprovementPolicy
  pub market_assessment_supports_realert : Bool
  pub realert_window : Option ℕ
  pub now : Option ℕ
  pub coupon : Option AppliedCouponPayload

-- The two fields of the mission that are read; the identifier is `none` before it is stored.
pub record MissionFacts : Type 0 where
  pub id : Option ℕ
  pub is_active : Bool

-- in units of 10^-10; `percent` in millionths
unfoldable pub required_material_improvement : ℕ → MaterialImprovementPolicy → ℕ
required_material_improvement reference p =
    let raw = reference * p.percent in
    let floored = if ltb raw p.min_amount then p.min_amount else raw in
    if ltb p.max_amount floored then p.max_amount else floored

unfoldable pub is_material_improvement : ℕ → ℕ → MaterialImprovementPolicy → Bool
unfolding required_material_improvement
is_material_improvement reference current p =
    if reference == 0
    then false
    else leb (current * unit + required_material_improvement reference p) (reference * unit)

-- `MaterialImprovementPolicy(0.01, 2.0, 50.0)`
abbrev pub default_policy : MaterialImprovementPolicy
default_policy = record { percent = 10000; min_amount = 20000000000; max_amount = 500000000000 }

unfoldable pub policy_or_default : Option MaterialImprovementPolicy → MaterialImprovementPolicy
policy_or_default none = default_policy
policy_or_default (some p) = p

-- `now - last >= window`, with both given
unfoldable pub window_over : Option ℕ → Option ℕ → ℕ → Bool
window_over (some now) (some window) last = leb (last + window) now
window_over _ _ last = false

unfoldable pub passes_checkpoint_gate : Options → ℕ → AlertCheckpoint → Bool
unfolding is_material_improvement policy_or_default window_over
passes_checkpoint_gate o current_amount k =
    is_material_improvement k.best_notified_amount current_amount
      (policy_or_default o.material_improvement_policy)
    || (not (is_none k.rearmed_at)
        && window_over o.now o.realert_window k.last_notified_at
        && o.market_assessment_supports_realert)

unfoldable pub gate_open : Options → ℕ → Option AlertCheckpoint → Bool
unfolding passes_checkpoint_gate
gate_open o current_amount none = true
gate_open o current_amount (some k) = passes_checkpoint_gate o current_amount k

unfoldable pub is_available : Availability → Bool
is_available available = true
is_available _ = false

unfoldable pub is_decrease : PriceObservation → PriceObservation → Bool
unfolding is_available
is_decrease current previous =
    is_available previous.availability
    && same_text previous.currency current.currency
    && ltb current.amount previous.amount

-- The target was met already.
previous_met : Option PriceObservation → List ℕ → ℕ → Bool
unfolding is_available
previous_met none currency target = false
previous_met (some p) currency target =
    is_available p.availability && same_text p.currency currency && leb p.amount target

unfoldable pub target_from :
    Option ℕ → Option (List ℕ) → PriceObservation → Option PriceObservation → Option ℕ
unfolding previous_met
target_from (some target) (some currency) current previous =
    if not (same_text currency current.currency)
      || ltb target current.amount
      || previous_met previous currency target
    then none
    else some target
target_from _ _ current previous = none

-- The target amount, if it was reached.
unfoldable pub target_was_reached :
    MissionCriteria → PriceObservation → Option PriceObservation → Option ℕ
unfolding target_from
target_was_reached criteria current previous =
    target_from criteria.target_amount criteria.target_currency current previous

validate_previous : PriceObservation → Option PriceObservation → Option AlertError
validate_previous current none = none
validate_previous current (some p) =
    if is_none p.id
    then some AlertError.previous_identifier_required
    else if not (opt_eq p.offer_id current.offer_id)
    then some AlertError.foreign_offer
    else if opt_eq p.id current.id
    then some AlertError.same_observation
    else if ltb current.observed_at p.observed_at
    then some AlertError.newer_previous
    else none

unfoldable pub validate_entities :
    MissionFacts → MissionCriteria → PriceObservation → Option PriceObservation → Option AlertError
unfolding validate_previous
validate_entities mission criteria current previous =
    if is_none mission.id
      || is_none criteria.mission_id
      || is_none current.id
      || is_none current.offer_id
    then some AlertError.identifiers_required
    else if not (opt_eq criteria.mission_id mission.id)
    then some AlertError.foreign_criteria
    else if not (is_none criteria.target_amount) && is_none criteria.target_currency
        || is_none criteria.target_amount && not (is_none criteria.target_currency)
    then some AlertError.unpaired_target
    else validate_previous current previous

unfoldable pub decreased_payload :
    PriceObservation → PriceObservation → Option AppliedCouponPayload → PriceDecreasedPayload
decreased_payload current p coupon = record {
  offer_id = current.offer_id;
  observation_id = current.id;
  previous_observation_id = p.id;
  previous_total = p.amount;
  current_total = current.amount;
  currency = current.currency;
  coupon = coupon;
}

unfoldable pub target_payload :
    MissionFacts → PriceObservation → ℕ → Option AppliedCouponPayload → PriceTargetReachedPayload
target_payload mission current target coupon = record {
  mission_id = mission.id;
  offer_id = current.offer_id;
  observation_id = current.id;
  target_total = target;
  current_total = current.amount;
  currency = current.currency;
  coupon = coupon;
}

-- A payload that is refused raises.
unfoldable pub submit_decreased : PriceDecreasedPayload → Option CatalogError → Evaluated
submit_decreased p none = alerts (price_decreased p ∷ [])
submit_decreased p (some e) = catalog_error e

unfoldable pub submit_target : PriceTargetReachedPayload → Option CatalogError → Evaluated
submit_target p none = alerts (price_target_reached p ∷ [])
submit_target p (some e) = catalog_error e

unfoldable pub decrease_part :
    Bool → PriceObservation → Option PriceObservation → Option AppliedCouponPayload → Evaluated
unfolding is_decrease decreased_payload submit_decreased decreased_error
decrease_part passes current none coupon = alerts []
decrease_part passes current (some p) coupon =
    if is_decrease current p && passes
    then submit_decreased (decreased_payload current p coupon)
        (decreased_error (decreased_payload current p coupon))
    else alerts []

unfoldable pub target_part :
    Bool → MissionFacts → PriceObservation → Option ℕ → Option AppliedCouponPayload → Evaluated
unfolding target_payload submit_target target_error
target_part passes mission current none coupon = alerts []
target_part passes mission current (some target) coupon =
    if passes
    then submit_target (target_payload mission current target coupon)
        (target_error (target_payload mission current target coupon))
    else alerts []

-- The second part runs only if the first did not raise.
unfoldable pub both : Evaluated → Evaluated → Evaluated
both (alerts xs) (alerts ys) = alerts (xs ++ ys)
both (alerts xs) failure = failure
both failure other = failure

unfoldable pub candidates_of :
    MissionFacts
    → MissionCriteria
    → PriceObservation
    → Option PriceObservation
    → Options
    → Evaluated
unfolding gate_open target_was_reached decrease_part target_part both
candidates_of mission criteria current previous o =
    let passes = gate_open o current.amount o.checkpoint in
    both (decrease_part passes current previous o.coupon)
      (target_part passes mission current (target_was_reached criteria current previous) o.coupon)

unfoldable pub unless_invalid : Option AlertError → Evaluated → Evaluated
unless_invalid (some e) evaluated = evaluation_error e
unless_invalid none evaluated = evaluated

unfoldable pub evaluate_price_alerts :
    MissionFacts
    → MissionCriteria
    → PriceObservation
    → Option PriceObservation
    → Options
    → Evaluated
unfolding validate_entities unless_invalid candidates_of is_available
evaluate_price_alerts mission criteria current previous o =
    unless_invalid (validate_entities mission criteria current previous) (
      if not mission.is_active
      then alerts []
      else if not (is_available current.availability)
      then alerts []
      else candidates_of mission criteria current previous o)

unfoldable pub rises_to : AlertCheckpoint → ℕ → ℕ → Bool
rises_to k current_amount rearm_rise_percent =
    not (k.last_notified_amount == 0)
    && leb (k.last_notified_amount * (unit + rearm_rise_percent)) (current_amount * unit)

-- `rearm_rise_percent` in millionths
unfoldable pub should_rearm : Option AlertCheckpoint → ℕ → ℕ → Bool
unfolding rises_to
should_rearm none current_amount rearm_rise_percent = false
should_rearm (some k) current_amount rearm_rise_percent =
    is_none k.rearmed_at && rises_to k current_amount rearm_rise_percent
