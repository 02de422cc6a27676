-- ===== src/Core/Breaker.antt =====
-- backend/app/core/resilience.py: `CircuitBreaker`. Every method reads the clock once, under the
-- lock, and that reading is the argument `now`; times are natural numbers in one unit. Elapsed
-- time `now - opened_at >= open_seconds` is written as a sum, so nothing is subtracted.
pub mod Laws
pub mod Trace
mod Tests
use aishopping_agent.Common.{
  ℕ, ◌+◌, ◌≤◌, ◌<◌, ◌≡◌, ◌≢◌, Bool, true, false, ◌&&◌, ◌||◌, Option, none, some, List, [], ◌∷◌, ltb,
  leb, if◌then◌else◌,
}

pub data CircuitState : Type 0 where
  closed opened half_open : CircuitState

pub record CircuitBreaker : Type 0 where
  pub failure_threshold : ℕ
  pub open_seconds : ℕ
  pub status : CircuitState
  pub failures : ℕ
  pub opened_at : Option ℕ
  pub half_open_probe : Bool

-- `__init__`; `none` is its `ValueError`
unfoldable pub new : ℕ → ℕ → Option CircuitBreaker
new threshold seconds =
    if leb 1 threshold && leb threshold 100 && ltb 0 seconds
    then some (record {
      failure_threshold = threshold;
      open_seconds = seconds;
      status = closed;
      failures = 0;
      opened_at = none;
      half_open_probe = false;
    })
    else none

abbrev pub is_half_open : CircuitState → Bool
is_half_open half_open = true
is_half_open _ = false

-- whether the open interval that began at `since` is over
abbrev pub is_over : ℕ → CircuitBreaker → ℕ → Bool
is_over since b now = leb (since + b.open_seconds) now

-- the property `state`
abbrev visible_from : CircuitState → Option ℕ → CircuitBreaker → ℕ → CircuitState
visible_from opened (some since) b now = if is_over since b now then half_open else opened
visible_from s _ b now = s

unfoldable pub visible_state : CircuitBreaker → ℕ → CircuitState
visible_state b now = visible_from b.status b.opened_at b now

-- How `before_call` ends: it returns, it raises `CircuitOpenError` with one of its two messages,
-- or its `assert` fails.
pub data Admission : Type 0 where
  admitted circuit_open probe_busy assertion_failed : Admission

-- the second half of `before_call`
take_probe : CircuitBreaker → CircuitBreaker × Admission
take_probe b =
    if is_half_open b.status
    then if b.half_open_probe
      then (b, probe_busy)
      else (record b { half_open_probe = true }, admitted)
    else (b, admitted)

before_call_from : CircuitState → Option ℕ → CircuitBreaker → ℕ → CircuitBreaker × Admission
unfolding take_probe
before_call_from opened none b now = (b, assertion_failed)
before_call_from opened (some since) b now =
    if is_over since b now then take_probe (record b { status = half_open }) else (b, circuit_open)
before_call_from _ _ b now = take_probe b

unfoldable pub before_call : CircuitBreaker → ℕ → CircuitBreaker × Admission
unfolding before_call_from
before_call b now = before_call_from b.status b.opened_at b now

unfoldable pub record_success : CircuitBreaker → CircuitBreaker
record_success b = record b {
  status = closed;
  failures = 0;
  opened_at = none;
  half_open_probe = false;
}

unfoldable pub record_failure : CircuitBreaker → Bool → ℕ → CircuitBreaker
record_failure b transient now =
    let released = record b { half_open_probe = false } in
    if transient
    then (let counted = record released { failures = b.failures + 1 } in
        if is_half_open b.status || leb b.failure_threshold counted.failures
        then record counted { status = opened; opened_at = some now }
        else counted)
    else record released { status = closed; failures = 0; opened_at = none }
