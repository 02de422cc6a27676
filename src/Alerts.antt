-- ===== src/Alerts.antt =====
-- backend/app/alerts/: when a new price observation becomes an alert; with the payloads of
-- backend/app/events/catalog.py that an alert carries and the checks they make. Amounts are
-- NUMERIC(19, 4) columns that a table check keeps non-negative: they are counted in ten-thousandths.
-- Identifiers are `none` before an entity is stored. What the settings and a coupon give as a
-- decimal is counted in units of 10^-10, a percentage in millionths.
pub mod Evaluator
pub mod Decisions
pub mod Rearm
mod Tests
use aishopping_agent.Common.{
  ℕ, List, [], ◌∷◌, Option, none, some, Bool, true, false, not, ◌&&◌, ◌||◌, ◌==◌, ◌*◌, ltb, leb,
  if◌then◌else◌,
}
use aishopping_agent.Common.Texts.{same_text}

pub data Availability : Type 0 where
  available unavailable unknown : Availability

pub data AlertError : Type 0 where
  identifiers_required foreign_criteria unpaired_target : AlertError
  previous_identifier_required foreign_offer same_observation newer_previous : AlertError

pub data CatalogError : Type 0 where
  invalid_currency not_lower above_target : CatalogError
  coupon_currency_differs coupon_amount_differs : CatalogError

pub record PriceObservation : Type 0 where
  pub id : Option ℕ
  pub offer_id : Option ℕ
  pub amount : ℕ
  pub currency : List ℕ
  pub availability : Availability
  pub observed_at : ℕ

pub record MissionCriteria : Type 0 where
  pub mission_id : Option ℕ
  pub target_amount : Option ℕ
  pub target_currency : Option (List ℕ)

pub record AlertCheckpoint : Type 0 where
  pub best_notified_amount : ℕ
  pub last_notified_amount : ℕ
  pub last_notified_at : ℕ
  pub rearmed_at : Option ℕ

pub record MaterialImprovementPolicy : Type 0 where
  pub percent : ℕ
  pub min_amount : ℕ
  pub max_amount : ℕ

-- The amounts are in units of 10^-10, since a percentage is exact there.
pub record AppliedCouponPayload : Type 0 where
  pub coupon_id : ℕ
  pub original_amount : ℕ
  pub discount_amount : ℕ
  pub final_amount : ℕ
  pub coupon_currency : List ℕ

pub record PriceDecreasedPayload : Type 0 where
  pub offer_id : Option ℕ
  pub observation_id : Option ℕ
  pub previous_observation_id : Option ℕ
  pub previous_total : ℕ
  pub current_total : ℕ
  pub currency : List ℕ
  pub coupon : Option AppliedCouponPayload

pub record PriceTargetReachedPayload : Type 0 where
  pub mission_id : Option ℕ
  pub offer_id : Option ℕ
  pub observation_id : Option ℕ
  pub target_total : ℕ
  pub current_total : ℕ
  pub currency : List ℕ
  pub coupon : Option AppliedCouponPayload

-- A candidate's event type and aggregate follow from its payload: the offer's or the mission's.
pub data PriceAlertCandidate : Type 0 where
  price_decreased : PriceDecreasedPayload → PriceAlertCandidate
  price_target_reached : PriceTargetReachedPayload → PriceAlertCandidate

pub data Evaluated : Type 0 where
  alerts : List PriceAlertCandidate → Evaluated
  evaluation_error : AlertError → Evaluated
  catalog_error : CatalogError → Evaluated

-- the units of 10^-10 in a ten-thousandth, and millionths in one
abbrev pub unit : ℕ
unit = 1000000

is_upper : ℕ → Bool
is_upper c = leb 65 c && leb c 90

unfoldable pub is_currency : List ℕ → Bool
unfolding is_upper
is_currency (a ∷ b ∷ c ∷ []) = is_upper a && is_upper b && is_upper c
is_currency _ = false

unfoldable pub validate_coupon_snapshot :
    Option AppliedCouponPayload → ℕ → List ℕ → Option CatalogError
validate_coupon_snapshot none current_total currency = none
validate_coupon_snapshot (some c) current_total currency =
    if not (same_text c.coupon_currency currency)
    then some coupon_currency_differs
    else if not (c.final_amount == current_total * unit)
    then some coupon_amount_differs
    else none

unfoldable pub decreased_error : PriceDecreasedPayload → Option CatalogError
decreased_error p =
    if not (is_currency p.currency)
    then some invalid_currency
    else if leb p.previous_total p.current_total
    then some not_lower
    else validate_coupon_snapshot p.coupon p.current_total p.currency

unfoldable pub target_error : PriceTargetReachedPayload → Option CatalogError
target_error p =
    if not (is_currency p.currency)
    then some invalid_currency
    else if ltb p.target_total p.current_total
    then some above_target
    else validate_coupon_snapshot p.coupon p.current_total p.currency
