-- ===== src/Events/Consumption/Tests.antt =====
-- A consumer whose first attempt fails.
use aishopping_agent.Events.Consumption.Claimable.{IsClaimable, RecordedFirst}
use aishopping_agent.Common.{
  count_of, keep, sort_by, any_of, ℕ, ◌≡◌, ◌≤◌, ◌<◌, ◌↔◌, Bool, true, false, List, [], ◌∷◌, none,
  some, Elem, Ordered, take, arith, refl,
}
use aishopping_agent.Common.Texts.{codes}
use aishopping_agent.Common.Time.{aware}
use aishopping_agent.Events.Consumption.{
  count_failed_attempts, Event, EventConsumptionAttempt, failed, succeeded, ok, is_claimed,
  is_claimable, claim_unconsumed_events, terminal_of, is_failure_code, record_consumption_attempt,
}
use aishopping_agent.Events.Consumption.Codes.{IsSnakeCase, is_failure_code-IsSnakeCase}
use aishopping_agent.Events.Consumption.Claims.{claim_unconsumed_events_lem, failed_event_returns}
use aishopping_agent.Events.Consumption.Attempts.{Round, rounds, IsBounded, rounds_limited}

abbrev never_space : ℕ → Bool
never_space c = false

abbrev consumer : List ℕ
consumer = codes "telegram_notifier"

abbrev event : Event
event = record {
  id = 1;
  event_type = codes "price_decreased_v1";
  recorded_at = 10;
  is_locked = false;
}

abbrev failure : EventConsumptionAttempt
failure = record {
  event_id = 1;
  consumer_name = consumer;
  outcome = failed;
  failure_code = some (codes "send_failed");
  attempted_at = 20;
  next_retry_at = some 80;
}

claims :
    claim_unconsumed_events never_space consumer 100 none 5 (aware 20) (event ∷ []) []
    ≡ ok (event ∷ [])
unfolding claim_unconsumed_events any_of sort_by keep is_claimed count_of
claims = refl

claim_unconsumed_events_lem_example :
    (due : List Event) × ((event ∷ []) ≡ take 100 due)
    × Ordered RecordedFirst due
    × ((e : Event) → Elem e due → Elem e (event ∷ []) × IsClaimable consumer none 5 20 [] e)
    × ((e : Event) → Elem e (event ∷ []) → IsClaimable consumer none 5 20 [] e → Elem e due)
claim_unconsumed_events_lem_example =
    claim_unconsumed_events_lem never_space consumer 100 20 5 none (event ∷ []) [] claims

fails :
    record_consumption_attempt never_space 1 consumer failed
      (aware 20)
      (some (codes "send_failed"))
      (some (aware 80))
      []
    ≡ ok (failure ∷ [])
unfolding record_consumption_attempt any_of
fails = refl

claimable_now : is_claimable 1 consumer 5 20 [] ≡ true
unfolding is_claimable any_of count_of
claimable_now = refl

failed_event_returns_example :
    (80 < 80 → is_claimable 1 consumer 5 80 (failure ∷ []) ≡ false)
    × (80 ≤ 80 → is_claimable 1 consumer 5 80 (failure ∷ []) ≡ true)
unfolding count_failed_attempts count_of
failed_event_returns_example =
    failed_event_returns never_space 1 consumer 5 20 80 80 (some (codes "send_failed")) []
      (failure ∷ []) claimable_now (omega arith) fails

abbrev again : List Round
again =
    record {
      now = 20;
      outcome = failed;
      failure_code = some (codes "send_failed");
      next_retry_at = some (aware 80);
    }
    ∷ record { now = 80; outcome = succeeded; failure_code = none; next_retry_at = none }
    ∷ []

rounds_limited_example :
    IsBounded never_space 1 consumer 5 (rounds never_space 1 consumer 5 again [])
    × (terminal_of 1 consumer (rounds never_space 1 consumer 5 again []) ≡ true
        → rounds never_space 1 consumer 5 again (rounds never_space 1 consumer 5 again [])
          ≡ rounds never_space 1 consumer 5 again [])
rounds_limited_example = rounds_limited never_space 1 consumer 5 again again

is_failure_code-IsSnakeCase_example :
    (is_failure_code (codes "rate_limit2") ≡ true) ↔ IsSnakeCase (codes "rate_limit2")
is_failure_code-IsSnakeCase_example = is_failure_code-IsSnakeCase (codes "rate_limit2")
