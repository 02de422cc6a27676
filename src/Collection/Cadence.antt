-- ===== src/Collection/Cadence.antt =====
-- backend/app/collection/cadence.py: how often an item is collected. Instants are microseconds, and
-- the settings natural numbers, so that the tests `<= 0` are tests for zero. An observation's `id`
-- is its primary key, so the distinct observations of the join are those with an offer and a
-- relevance that match.
pub mod Floor
use aishopping_agent.Common.{
  ℕ, ◌+◌, List, [], ◌∷◌, Option, none, some, Bool, true, false, not, ◌&&◌, ◌||◌, ◌==◌, ltb, leb,
  if◌then◌else◌, any_of, count_of,
}
use aishopping_agent.Common.Time.{minutes}

pub record CadenceConfig : Type 0 where
  pub normal_min_minutes : ℕ
  pub normal_max_minutes : ℕ
  pub promo_min_minutes : ℕ
  pub promo_max_minutes : ℕ
  pub high_activity_window_minutes : ℕ
  pub high_activity_change_threshold : ℕ
  pub high_activity_duration_minutes : ℕ

-- The `ValueError`s of `__post_init__`, one for each message.
pub data CadenceConfigError : Type 0 where
  minimum_not_positive normal_reversed promo_reversed promo_below_floor : CadenceConfigError
  window_not_positive threshold_not_positive duration_not_positive : CadenceConfigError

unfoldable pub post_init : CadenceConfig → Option CadenceConfigError
post_init c =
    if (c.normal_min_minutes == 0) || (c.promo_min_minutes == 0)
    then some minimum_not_positive
    else if ltb c.normal_max_minutes c.normal_min_minutes
    then some normal_reversed
    else if ltb c.promo_max_minutes c.promo_min_minutes
    then some promo_reversed
    else if ltb c.promo_min_minutes 30
    then some promo_below_floor
    else if c.high_activity_window_minutes == 0
    then some window_not_positive
    else if c.high_activity_change_threshold == 0
    then some threshold_not_positive
    else if c.high_activity_duration_minutes == 0
    then some duration_not_positive
    else none

pub data CadenceMode : Type 0 where
  normal promo_calendar high_activity : CadenceMode

pub record CadenceDecision : Type 0 where
  pub min_minutes : ℕ
  pub max_minutes : ℕ
  pub mode : CadenceMode

pub record PromotionalWindow : Type 0 where
  pub starts_at : ℕ
  pub ends_at : ℕ

pub record StoreActivityState : Type 0 where
  pub store_id : ℕ
  pub scope_id : ℕ
  pub high_activity_until : Option ℕ
  pub updated_at : ℕ

pub record PriceObservation : Type 0 where
  pub id : ℕ
  pub offer_id : ℕ
  pub observed_at : ℕ

pub record Offer : Type 0 where
  pub id : ℕ
  pub store_id : ℕ

pub record MissionOfferRelevance : Type 0 where
  pub mission_id : ℕ
  pub offer_id : ℕ

-- The tables that the policy only reads.
pub record Market : Type 0 where
  pub windows : List PromotionalWindow
  pub observations : List PriceObservation
  pub offers : List Offer
  pub relevances : List MissionOfferRelevance

unfoldable pub is_promo_calendar_active : List PromotionalWindow → ℕ → Bool
is_promo_calendar_active windows now =
    any_of (λ w. leb w.starts_at now && ltb now w.ends_at) windows

unfoldable pub is_in : ℕ → List ℕ → Bool
is_in x xs = any_of (λ y. y == x) xs

-- The observation is in the window, of an offer of the shop that is relevant to one of the
-- missions, and not the first one of its offer.
unfoldable pub is_change : Market → ℕ → List ℕ → ℕ → ℕ → PriceObservation → Bool
unfolding is_in
is_change m store missions window now o =
    any_of (λ f. f.id == o.offer_id && f.store_id == store) m.offers
    && any_of (λ r. r.offer_id == o.offer_id && is_in r.mission_id missions) m.relevances
    && leb now (o.observed_at + minutes window)
    && leb o.observed_at now
    && any_of (λ e. e.offer_id == o.offer_id && ltb e.observed_at o.observed_at) m.observations

unfoldable pub count_changes : Market → ℕ → List ℕ → ℕ → ℕ → ℕ
unfolding is_change
count_changes m store missions window now =
    count_of (is_change m store missions window now) m.observations

unfoldable pub is_kept_active : List StoreActivityState → ℕ → ℕ → ℕ → Bool
is_kept_active [] store scope now = false
is_kept_active (s ∷ ss) store scope now =
    let rest = is_kept_active ss store scope now in
    if s.store_id == store && s.scope_id == scope then is_after s.high_activity_until now else rest
  where
    is_after : Option ℕ → ℕ → Bool
    is_after none now = false
    is_after (some t) now = ltb now t

-- `ON CONFLICT (store_id, scope_id) DO UPDATE`
unfoldable pub upsert_activity :
    StoreActivityState → List StoreActivityState → List StoreActivityState
upsert_activity n [] = n ∷ []
upsert_activity n (s ∷ ss) =
    let rest = upsert_activity n ss in
    if s.store_id == n.store_id && s.scope_id == n.scope_id then n ∷ ss else s ∷ rest

-- Whether the unit is in high activity, and the table that is left.
unfoldable pub is_high_activity :
    CadenceConfig
    → Market
    → List StoreActivityState
    → ℕ
    → ℕ
    → List ℕ
    → ℕ
    → Bool × List StoreActivityState
unfolding is_kept_active count_changes upsert_activity
is_high_activity c m activity store scope missions now =
    if is_kept_active activity store scope now
    then (true, activity)
    else if is_none_of missions
    then (false, activity)
    else if ltb (count_changes m store missions c.high_activity_window_minutes now)
        c.high_activity_change_threshold
    then (false, activity)
    else (
      true,
      upsert_activity
          (record {
            store_id = store;
            scope_id = scope;
            high_activity_until = some (now + minutes c.high_activity_duration_minutes);
            updated_at = now;
          })
          activity,
    )
  where
    is_none_of : List ℕ → Bool
    is_none_of [] = true
    is_none_of (x ∷ xs) = false

unfoldable pub promo_decision : CadenceConfig → CadenceMode → CadenceDecision
promo_decision c mode = record {
  min_minutes = c.promo_min_minutes;
  max_minutes = c.promo_max_minutes;
  mode = mode;
}

unfoldable pub normal_decision : CadenceConfig → CadenceDecision
normal_decision c = record {
  min_minutes = c.normal_min_minutes;
  max_minutes = c.normal_max_minutes;
  mode = normal;
}

unfoldable pub resolve_collection_cadence :
    CadenceConfig
    → Market
    → List StoreActivityState
    → ℕ
    → ℕ
    → List ℕ
    → ℕ
    → CadenceDecision × List StoreActivityState
unfolding is_promo_calendar_active is_high_activity promo_decision normal_decision
resolve_collection_cadence c m activity store scope missions now =
    let active = is_high_activity c m activity store scope missions now in
    if is_promo_calendar_active m.windows now
    then (promo_decision c promo_calendar, activity)
    else if active.0
    then (promo_decision c high_activity, active.1)
    else (normal_decision c, active.1)

-- `uniform` draws the time between two numbers of minutes.
module _ (uniform : ℕ → ℕ → ℕ) where
  unfoldable pub sample_next_run_at : ℕ → CadenceDecision → ℕ
  sample_next_run_at started_at d = started_at + uniform d.min_minutes d.max_minutes
