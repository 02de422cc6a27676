-- ===== src/Events/Consumption.antt =====
-- backend/app/events/consumption.py: which events a consumer may claim, and the append-only record of
-- its attempts. The tables are lists of rows; `is_locked` marks an event whose row another
-- transaction holds, which `SKIP LOCKED` passes over. `str.isspace` on one character is a
-- parameter. `now` is the caller's, or the database's clock where the caller gives none. The check
-- that an event is stored and the `isinstance` checks hold by the types.
pub mod Codes
pub mod Claimable
pub mod Claims
pub mod Attempts
mod Tests
use aishopping_agent.Common.{
  ℕ, List, [], ◌∷◌, Option, none, some, Bool, true, false, not, ◌&&◌, ◌||◌, ◌==◌, ltb, leb,
  if◌then◌else◌, length, any_of, count_of, keep, sort_by, take, is_none,
}
use aishopping_agent.Common.Texts.{same_text, text_in}
use aishopping_agent.Common.Time.{Datetime, require_aware}

pub data ConsumptionOutcome : Type 0 where
  succeeded failed skipped dead_lettered : ConsumptionOutcome

pub record Event : Type 0 where
  pub id : ℕ
  pub event_type : List ℕ
  pub recorded_at : ℕ
  pub is_locked : Bool

pub record EventConsumptionAttempt : Type 0 where
  pub event_id : ℕ
  pub consumer_name : List ℕ
  pub outcome : ConsumptionOutcome
  pub failure_code : Option (List ℕ)
  pub attempted_at : ℕ
  pub next_retry_at : Option ℕ

pub data EventConsumptionError : Type 0 where
  bad_consumer_name bad_limit bad_max_attempts bad_event_types not_aware : EventConsumptionError
  terminal_with_failure bad_failure_code no_retry retry_not_after dead_letter_with_retry :
      EventConsumptionError
  terminal_exists : EventConsumptionError

pub data Result (A : Type 0) : Type 0 where
  ok : A → Result A
  err : EventConsumptionError → Result A

abbrev pub is_terminal : ConsumptionOutcome → Bool
is_terminal failed = false
is_terminal _ = true

abbrev pub is_failed : ConsumptionOutcome → Bool
is_failed failed = true
is_failed _ = false

-- `not text.strip()`
unfoldable pub is_blank : (ℕ → Bool) → List ℕ → Bool
is_blank is_space t = not (any_of (λ c. not (is_space c)) t)

unfoldable pub bad_name : (ℕ → Bool) → List ℕ → Bool
unfolding is_blank
bad_name is_space name = is_blank is_space name || ltb 64 (length name)

-- An attempt of this consumer on this event.
unfoldable pub is_of : ℕ → List ℕ → EventConsumptionAttempt → Bool
is_of event consumer a = a.event_id == event && same_text a.consumer_name consumer

unfoldable pub is_pending_at : ℕ → Option ℕ → Bool
is_pending_at now none = false
is_pending_at now (some t) = ltb now t

unfoldable pub terminal_of : ℕ → List ℕ → List EventConsumptionAttempt → Bool
unfolding is_of
terminal_of event consumer attempts =
    any_of (λ a. is_of event consumer a && is_terminal a.outcome) attempts

unfoldable pub count_failed_attempts : ℕ → List ℕ → List EventConsumptionAttempt → ℕ
unfolding is_of
count_failed_attempts event consumer attempts =
    count_of (λ a. is_of event consumer a && is_failed a.outcome) attempts

unfoldable pub retry_pending : ℕ → List ℕ → ℕ → List EventConsumptionAttempt → Bool
unfolding is_of is_pending_at
retry_pending event consumer now attempts =
    any_of (λ a. is_of event consumer a && is_failed a.outcome && is_pending_at now a.next_retry_at)
      attempts

-- The conditions of the statement that are about the attempts.
unfoldable pub is_claimable : ℕ → List ℕ → ℕ → ℕ → List EventConsumptionAttempt → Bool
unfolding terminal_of count_failed_attempts retry_pending
is_claimable event consumer max_attempts now attempts =
    not (terminal_of event consumer attempts)
    && ltb (count_failed_attempts event consumer attempts) max_attempts
    && not (retry_pending event consumer now attempts)

unfoldable pub type_wanted : Option (List (List ℕ)) → List ℕ → Bool
type_wanted none t = true
type_wanted (some ts) t = text_in t ts

unfoldable pub is_claimed :
    List ℕ → Option (List (List ℕ)) → ℕ → ℕ → List EventConsumptionAttempt → Event → Bool
unfolding is_claimable type_wanted
is_claimed consumer types max_attempts now attempts e =
    is_claimable e.id consumer max_attempts now attempts
    && type_wanted types e.event_type
    && not e.is_locked

-- `ORDER BY recorded_at, id`
unfoldable pub claim_order : Event → Event → Bool
claim_order a b =
    ltb a.recorded_at b.recorded_at || (a.recorded_at == b.recorded_at && leb a.id b.id)

bad_types : (ℕ → Bool) → Option (List (List ℕ)) → Bool
unfolding is_blank
bad_types is_space none = false
bad_types is_space (some []) = true
bad_types is_space (some (t ∷ ts)) = any_of (is_blank is_space) (t ∷ ts)

-- the time of the claim: `none` for a value without a time zone
unfoldable pub claim_at :
    Option ℕ
    → (ℕ → Bool)
    → List ℕ
    → ℕ
    → Option (List (List ℕ))
    → ℕ
    → List Event
    → List EventConsumptionAttempt
    → Result (List Event)
unfolding bad_name bad_types
claim_at at is_space consumer limit types max_attempts events attempts =
    if bad_name is_space consumer
    then err bad_consumer_name
    else if not (leb 1 limit && leb limit 1000)
    then err bad_limit
    else if not (leb 1 max_attempts && leb max_attempts 100)
    then err bad_max_attempts
    else on_clock at
  where
    on_clock : Option ℕ → Result (List Event)
    on_clock none = err not_aware
    on_clock (some now) =
        if bad_types is_space types
        then err bad_event_types
        else ok (
            take limit (
              sort_by claim_order
                (keep (is_claimed consumer types max_attempts now attempts) events)))

unfoldable pub claim_unconsumed_events :
    (ℕ → Bool)
    → List ℕ
    → ℕ
    → Option (List (List ℕ))
    → ℕ
    → Datetime
    → List Event
    → List EventConsumptionAttempt
    → Result (List Event)
unfolding claim_at
claim_unconsumed_events is_space consumer limit types max_attempts now =
    claim_at (require_aware now) is_space consumer limit types max_attempts

unfoldable pub is_lower : ℕ → Bool
is_lower c = leb b'a' c && leb c b'z'

unfoldable pub is_word_char : ℕ → Bool
unfolding is_lower
is_word_char c = is_lower c || (leb b'0' c && leb c b'9')

-- The rest of `[a-z][a-z0-9]*(?:_[a-z0-9]+)*`, after a character of a word, or after `_`.
unfoldable pub code_tail : Bool → List ℕ → Bool
unfolding is_word_char
code_tail in_word [] = in_word
code_tail in_word (c ∷ cs) =
    let word = code_tail true cs in
    let next = code_tail false cs in
    if is_word_char c then word else if in_word && c == b'_' then next else false

unfoldable pub is_failure_code : List ℕ → Bool
unfolding code_tail
is_failure_code [] = false
is_failure_code (c ∷ cs) = is_lower c && code_tail true cs

unfoldable pub bad_code : Option (List ℕ) → Bool
unfolding is_failure_code
bad_code none = true
bad_code (some t) = ltb 120 (length t) || not (is_failure_code t)

-- After the check of the code: the instant of the retry, if a failed attempt may have it.
unfoldable pub retry_error : ℕ → Option Datetime → Option EventConsumptionError
retry_error attempted_at none = some no_retry
retry_error attempted_at (some (Datetime.naive t)) = some not_aware
retry_error attempted_at (some (Datetime.aware t)) =
    if leb t attempted_at then some retry_not_after else none

unfoldable pub validate_failure :
    ConsumptionOutcome → Option (List ℕ) → ℕ → Option Datetime → Option EventConsumptionError
unfolding retry_error bad_code
validate_failure failed code attempted_at retry =
    if bad_code code then some bad_failure_code else retry_error attempted_at retry
validate_failure dead_lettered code attempted_at retry =
    if bad_code code
    then some bad_failure_code
    else if not (is_none retry)
    then some dead_letter_with_retry
    else none
validate_failure _ code attempted_at retry =
    if not (is_none code) || not (is_none retry) then some terminal_with_failure else none

unfoldable pub retry_instant : Option Datetime → Option ℕ
retry_instant none = none
retry_instant (some (Datetime.aware t)) = some t
retry_instant (some (Datetime.naive t)) = some t

-- The record, appended to the attempts; a unique index refuses a second terminal one.
unfoldable pub append_valid :
    Option EventConsumptionError
    → EventConsumptionAttempt
    → List EventConsumptionAttempt
    → Result (List EventConsumptionAttempt)
unfolding terminal_of
append_valid (some e) a attempts = err e
append_valid none a attempts =
    if is_terminal a.outcome && terminal_of a.event_id a.consumer_name attempts
    then err terminal_exists
    else ok (a ∷ attempts)

unfoldable pub record_at :
    Option ℕ
    → (ℕ → Bool)
    → ℕ
    → List ℕ
    → ConsumptionOutcome
    → Option (List ℕ)
    → Option Datetime
    → List EventConsumptionAttempt
    → Result (List EventConsumptionAttempt)
unfolding validate_failure append_valid retry_instant bad_name
record_at none is_space event consumer outcome code retry attempts =
    if bad_name is_space consumer then err bad_consumer_name else err not_aware
record_at (some at) is_space event consumer outcome code retry attempts =
    let row : EventConsumptionAttempt = record {
      event_id = event;
      consumer_name = consumer;
      outcome = outcome;
      failure_code = code;
      attempted_at = at;
      next_retry_at = retry_instant retry;
    } in
    if bad_name is_space consumer
    then err bad_consumer_name
    else append_valid (validate_failure outcome code at retry) row attempts

unfoldable pub record_consumption_attempt :
    (ℕ → Bool)
    → ℕ
    → List ℕ
    → ConsumptionOutcome
    → Datetime
    → Option (List ℕ)
    → Option Datetime
    → List EventConsumptionAttempt
    → Result (List EventConsumptionAttempt)
unfolding record_at
record_consumption_attempt is_space event consumer outcome at =
    record_at (require_aware at) is_space event consumer outcome
