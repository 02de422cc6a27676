-- ===== src/Events/Consumption/Claims.antt =====
-- What a claim returns, and when a failed event comes back.
use aishopping_agent.Events.Consumption.Claimable.{
  claim_order_total, claim_order_trans, claim_order-RecordedFirst, IsClaimable, RecordedFirst,
  is_claimed-IsClaimable, IsClaimable-is_claimed,
}
use mathlib.Core.Path.{subst}
use aishopping_agent.Common.Texts.{same_text_refl}
use aishopping_agent.Common.{
  ◌<◌, some, count_of, ◌+◌, sym, ℕ, ◌≤◌, ◌≡◌, Bool, true, false, List, [], ◌∷◌, Option, arith, take,
  keep, sort_by, Elem, Elem-keep, keep-Elem, Elem-sort, sort-Elem, sort-IsSorted, any_of, refl,
  Ordered, IsSorted-Ordered,
}
use aishopping_agent.Common.Time.{aware}
use aishopping_agent.Events.Consumption.{
  Event, EventConsumptionAttempt, failed, ok, claim_order, is_claimed, is_claimable, claim_at,
  claim_unconsumed_events, terminal_of, count_failed_attempts, retry_pending, is_pending_at, is_of,
  record_at, record_consumption_attempt, append_valid, validate_failure, retry_error, retry_instant,
}

claim_at-ok :
    (is_space : ℕ → Bool) (consumer : List ℕ) (limit now max_attempts : ℕ)
    (types : Option (List (List ℕ))) (events : List Event) (attempts : List EventConsumptionAttempt)
    {es : List Event}
    → claim_unconsumed_events is_space consumer limit types max_attempts (aware now) events attempts
      ≡ ok es
    → take limit
        (sort_by claim_order (keep (is_claimed consumer types max_attempts now attempts) events))
      ≡ es
unfolding claim_unconsumed_events claim_at
claim_at-ok is_space consumer limit now max_attempts types events attempts h = ground arith

-- A claim that is accepted returns a prefix, of at most `limit` events, of a list that is ordered by
-- recording and then by identity, and that holds exactly the events that the consumer may have: not
-- held by another transaction, of a wanted type, where every attempt of the consumer has failed
-- with no retry still to come, and fewer than `max_attempts` of them.
pub claim_unconsumed_events_lem :
    (is_space : ℕ → Bool) (consumer : List ℕ) (limit now max_attempts : ℕ)
    (types : Option (List (List ℕ))) (events : List Event) (attempts : List EventConsumptionAttempt)
    {es : List Event}
    → claim_unconsumed_events is_space consumer limit types max_attempts (aware now) events attempts
      ≡ ok es
    → (due : List Event) × (es ≡ take limit due)
      × Ordered RecordedFirst due
      × ((e : Event)
          → Elem e due
          → Elem e events × IsClaimable consumer types max_attempts now attempts e)
      × ((e : Event)
          → Elem e events
          → IsClaimable consumer types max_attempts now attempts e
          → Elem e due)
claim_unconsumed_events_lem is_space consumer limit now max_attempts types events attempts h =
    let p = is_claimed consumer types max_attempts now attempts in
    (
      sort_by claim_order (keep p events),
      sym (claim_at-ok is_space consumer limit now max_attempts types events attempts h),
      IsSorted-Ordered claim_order RecordedFirst claim_order-RecordedFirst _
          (sort-IsSorted claim_order claim_order_total claim_order_trans _),
      λ e m.
          let (event, claimed) = Elem-keep p e events (Elem-sort claim_order e _ m) in
          (event, is_claimed-IsClaimable consumer types max_attempts now attempts e claimed),
      λ e m c. sort-Elem claim_order e _ (
          keep-Elem p e events m
            (IsClaimable-is_claimed consumer types max_attempts now attempts e c)),
    )

pending_later :
    (event : ℕ) (consumer : List ℕ) (now later : ℕ) (attempts : List EventConsumptionAttempt)
    → now ≤ later
    → retry_pending event consumer now attempts ≡ false
    → retry_pending event consumer later attempts ≡ false
unfolding retry_pending any_of is_of is_pending_at
pending_later event consumer now later [] h k = refl
pending_later event consumer now later (a ∷ attempts) h k =
    ground (arith, pending_later event consumer now later attempts h)

append_gives :
    (event : ℕ) (consumer : List ℕ) (at retry : ℕ) (code : Option (List ℕ))
    (attempts after : List EventConsumptionAttempt) (is_space : ℕ → Bool)
    → record_consumption_attempt is_space event consumer failed
        (aware at)
        code
        (some (aware retry))
        attempts
      ≡ ok after
    → (at < retry)
      × ((record {
        event_id = event;
        consumer_name = consumer;
        outcome = failed;
        failure_code = code;
        attempted_at = at;
        next_retry_at = some retry;
      }
            ∷ attempts)
          ≡ after)
unfolding record_consumption_attempt record_at append_valid validate_failure retry_error
    retry_instant
append_gives event consumer at retry code attempts after is_space h = ground arith

failed_cons :
    (event : ℕ) (consumer : List ℕ) (max_attempts at retry now : ℕ) (code : Option (List ℕ))
    (attempts : List EventConsumptionAttempt)
    → at < retry
    → is_claimable event consumer max_attempts at attempts ≡ true
    → count_failed_attempts event consumer attempts + 1 < max_attempts
    → let after : List EventConsumptionAttempt =
        record {
          event_id = event;
          consumer_name = consumer;
          outcome = failed;
          failure_code = code;
          attempted_at = at;
          next_retry_at = some retry;
        }
        ∷ attempts in
      (now < retry → is_claimable event consumer max_attempts now after ≡ false)
      × (retry ≤ now → is_claimable event consumer max_attempts now after ≡ true)
unfolding is_claimable terminal_of count_failed_attempts retry_pending any_of count_of is_of
    is_pending_at
failed_cons event consumer max_attempts at retry now code attempts h k f = (
  λ l. ground (arith, same_text_refl consumer),
  λ l. ground (arith, same_text_refl consumer, pending_later event consumer at now attempts),
)

-- A failed event comes back: if the event could be claimed at the time of the attempt, the failed
-- attempt is accepted, and another one is left, then the event cannot be claimed before the
-- instant of the retry, and from it on it can.
pub failed_event_returns :
    (is_space : ℕ → Bool) (event : ℕ) (consumer : List ℕ) (max_attempts at retry now : ℕ)
    (code : Option (List ℕ)) (attempts after : List EventConsumptionAttempt)
    → is_claimable event consumer max_attempts at attempts ≡ true
    → count_failed_attempts event consumer attempts + 1 < max_attempts
    → record_consumption_attempt is_space event consumer failed
        (aware at)
        code
        (some (aware retry))
        attempts
      ≡ ok after
    → (now < retry → is_claimable event consumer max_attempts now after ≡ false)
      × (retry ≤ now → is_claimable event consumer max_attempts now after ≡ true)
failed_event_returns is_space event consumer max_attempts at retry now code attempts after k f h =
    let (later, same) = append_gives event consumer at retry code attempts after is_space h in
    subst
      (λ rows.
        (now < retry → is_claimable event consumer max_attempts now rows ≡ false)
        × (retry ≤ now → is_claimable event consumer max_attempts now rows ≡ true))
      same (failed_cons event consumer max_attempts at retry now code attempts later k f)
