-- ===== src/Core/Breaker/Tests.antt =====
-- Runs of one circuit breaker.
use aishopping_agent.Common.{ℕ, ◌≤◌, ◌≡◌, ◌≢◌, refl, arith, true, false, List, [], ◌∷◌, none, some}
use aishopping_agent.Core.Breaker.{
  CircuitBreaker, closed, opened, half_open, new, before_call, assertion_failed,
}
use aishopping_agent.Core.Breaker.Laws.{IsValid}
use aishopping_agent.Core.Breaker.Trace.{
  Event, call, failure, run, reachable-IsValid, calls, single_probe,
}

abbrev fresh : CircuitBreaker
fresh = record {
  failure_threshold = 3;
  open_seconds = 30;
  status = closed;
  failures = 0;
  opened_at = none;
  half_open_probe = false;
}

fresh-new : new 3 30 ≡ some fresh
unfolding new
fresh-new = refl

abbrev tripped : CircuitBreaker
tripped = record {
  failure_threshold = 3;
  open_seconds = 30;
  status = opened;
  failures = 3;
  opened_at = some 12;
  half_open_probe = false;
}

tripped-IsValid : IsValid tripped
tripped-IsValid = record {
  threshold_pos = omega arith;
  seconds_pos = omega arith;
  opened_since = λ e. λ f. cc;
  opened_released = λ e. refl;
  probing = λ e. cc;
  closed_released = λ e. refl;
  closed_below = λ e. cc;
  closed_clear = λ e. cc;
}

tripped_not_closed : tripped.status ≢ closed
tripped_not_closed e = cc

single_probe_example : (calls tripped (13 ∷ 42 ∷ 43 ∷ 90 ∷ [])).1 ≤ 1
single_probe_example =
    single_probe tripped (13 ∷ 42 ∷ 43 ∷ 90 ∷ []) tripped-IsValid tripped_not_closed

abbrev failures : List Event
failures =
    call 1 ∷ failure true 2 ∷ failure true 5 ∷ failure true 12 ∷ call 42 ∷ failure true 50 ∷ []

reachable-IsValid_example :
    IsValid (run fresh failures) × ((before_call (run fresh failures) 60).1 ≢ assertion_failed)
reachable-IsValid_example = reachable-IsValid 3 30 failures 60 fresh-new

abbrev times : List ℕ
times = 2 ∷ 5 ∷ 12 ∷ []

abbrev probing : CircuitBreaker
probing = record tripped { status = half_open; half_open_probe = true }
