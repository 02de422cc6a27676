-- ===== src/Core/Breaker/Laws.antt =====
-- What each method of `CircuitBreaker` keeps and refuses.
use aishopping_agent.Common.{ℕ, ◌+◌, ◌≤◌, ◌<◌, ◌≡◌, ◌≢◌, Bool, true, false, none, some, arith}
use aishopping_agent.Core.Breaker.{
  closed, opened, half_open, CircuitBreaker, new, admitted, circuit_open, probe_busy,
  assertion_failed, visible_state, before_call, record_success, record_failure,
}

-- What holds of a breaker between two method calls.
pub record IsValid (b : CircuitBreaker) : Type 0 where
  pub threshold_pos : 0 < b.failure_threshold
  pub seconds_pos : 0 < b.open_seconds
  pub opened_since : b.status ≡ opened → b.opened_at ≢ none
  pub opened_released : b.status ≡ opened → b.half_open_probe ≡ false
  pub probing : b.status ≡ half_open → b.half_open_probe ≡ true
  pub closed_released : b.status ≡ closed → b.half_open_probe ≡ false
  pub closed_below : b.status ≡ closed → b.failures < b.failure_threshold
  pub closed_clear : b.status ≡ closed → b.opened_at ≡ none

pub new-IsValid :
    (threshold seconds : ℕ) {b : CircuitBreaker} → new threshold seconds ≡ some b → IsValid b
unfolding new
new-IsValid threshold seconds e = ground arith

pub before_call-IsValid : (b : CircuitBreaker) (now : ℕ) → IsValid b → IsValid (before_call b now).0
unfolding before_call
before_call-IsValid b now v = ground arith

pub record_success-IsValid : (b : CircuitBreaker) → IsValid b → IsValid (record_success b)
unfolding record_success
record_success-IsValid b v = ground arith

pub record_failure-IsValid :
    (b : CircuitBreaker) (transient : Bool) (now : ℕ)
    → IsValid b
    → IsValid (record_failure b transient now)
unfolding record_failure
record_failure-IsValid b transient now v = ground arith

-- Under a valid breaker that was opened at an instant, a call is refused, and nothing changes,
-- until the open interval from that instant is over; a call after it is let through as the
-- half-open probe.
pub before_call_opened :
    (b : CircuitBreaker) (since now : ℕ)
    → IsValid b
    → b.status ≡ opened
    → b.opened_at ≡ some since
    → (now < since + b.open_seconds
        → (before_call b now ≡ (b, circuit_open)) × (visible_state b now ≡ opened))
      × (since + b.open_seconds ≤ now
          → (before_call b now
              ≡ (record b { status = half_open; half_open_probe = true }, admitted))
            × (visible_state b now ≡ half_open))
unfolding before_call visible_state
before_call_opened b since now v st at =
    (λ h. (ground arith, ground arith), λ h. (ground arith, ground arith))

-- The assertion on `_opened_at` in `before_call` never fails.
pub before_call_asserts :
    (b : CircuitBreaker) (now : ℕ) → IsValid b → (before_call b now).1 ≢ assertion_failed
unfolding before_call
before_call_asserts b now v = ground arith

-- A probe in flight refuses every call, at any time, and leaves the breaker as it is.
pub before_call_probing :
    (b : CircuitBreaker) (now : ℕ)
    → b.status ≡ half_open
    → b.half_open_probe ≡ true
    → before_call b now ≡ (b, probe_busy)
unfolding before_call
before_call_probing b now st pr = ground arith

-- How a probe resolves: a transient failure opens the circuit again from that moment, whatever
-- the count; a success, or a failure that is not transient, closes it with a count of zero.
pub probe_resolves :
    (b : CircuitBreaker) (now : ℕ)
    → b.status ≡ half_open
    → ((record_failure b true now).status ≡ opened)
      × ((record_failure b true now).opened_at ≡ some now)
      × ((record_failure b true now).half_open_probe ≡ false)
      × (record_failure b false now ≡ record_success b)
      × ((record_success b).status ≡ closed)
      × ((record_success b).failures ≡ 0)
unfolding record_failure record_success
probe_resolves b now st = ground arith
