-- ===== src/Core/Breaker/Trace.antt =====
-- Sequences of method calls on one breaker, in the order in which its lock lets them in.
use aishopping_agent.Common.{
  ◌∙◌, inl, ℕ, ◌+◌, ◌≤◌, ◌<◌, ◌≡◌, ◌≢◌, ◌⊎◌, refl, Bool, true, some, List, [], ◌∷◌, length, arith,
}
use aishopping_agent.Core.Breaker.{
  closed, opened, half_open, CircuitBreaker, new, Admission, admitted, circuit_open,
  assertion_failed, before_call, record_success, record_failure,
}
use aishopping_agent.Core.Breaker.Laws.{
  IsValid, new-IsValid, before_call-IsValid, record_success-IsValid, record_failure-IsValid,
  before_call_asserts, before_call_probing,
}

pub data Event : Type 0 where
  call : ℕ → Event
  success : Event
  failure : Bool → ℕ → Event

pub step : CircuitBreaker → Event → CircuitBreaker
step b (call now) = (before_call b now).0
step b success = record_success b
step b (failure transient now) = record_failure b transient now

pub run : CircuitBreaker → List Event → CircuitBreaker
unfolding step
run b [] = b
run b (e ∷ es) = run (step b e) es

step-IsValid : (b : CircuitBreaker) (e : Event) → IsValid b → IsValid (step b e)
unfolding step
step-IsValid b (call now) v = before_call-IsValid b now v
step-IsValid b success v = record_success-IsValid b v
step-IsValid b (failure transient now) v = record_failure-IsValid b transient now v

pub run-IsValid : (b : CircuitBreaker) (es : List Event) → IsValid b → IsValid (run b es)
unfolding run
run-IsValid b [] v = v
run-IsValid b (e ∷ es) v = run-IsValid (step b e) es (step-IsValid b e v)

-- After any sequence of calls and results on a breaker that `__init__` accepted, its invariant
-- holds, and the assertion in the next `before_call` does not fail.
pub reachable-IsValid :
    (threshold seconds : ℕ) (es : List Event) (now : ℕ) {b : CircuitBreaker}
    → new threshold seconds ≡ some b
    → IsValid (run b es) × ((before_call (run b es) now).1 ≢ assertion_failed)
reachable-IsValid threshold seconds es now {b} e =
    let v : IsValid (run b es) = run-IsValid b es (new-IsValid threshold seconds e) in
    (v, before_call_asserts (run b es) now v)

-- How many of the calls, made at these times with no result in between, are let through.
abbrev pub admissions : Admission → ℕ
admissions admitted = 1
admissions _ = 0

pub calls : CircuitBreaker → List ℕ → CircuitBreaker × ℕ
calls b [] = (b, 0)
calls b (now ∷ ts) =
    let (b', outcome) = before_call b now in
    let (last, n) = calls b' ts in (last, admissions outcome + n)

calls_probing :
    (b : CircuitBreaker) (ts : List ℕ)
    → b.status ≡ half_open
    → b.half_open_probe ≡ true
    → calls b ts ≡ (b, 0)
unfolding calls
calls_probing b [] st pr = refl
calls_probing b (now ∷ ts) st pr =
    ground (arith, before_call_probing b now st pr, calls_probing b ts st pr)

opened_call :
    (b : CircuitBreaker) (now : ℕ)
    → IsValid b
    → b.status ≡ opened
    → (((before_call b now).0 ≡ b) × ((before_call b now).1 ≡ circuit_open))
      ⊎ (((before_call b now).0.status ≡ half_open)
          × ((before_call b now).0.half_open_probe ≡ true)
          × ((before_call b now).1 ≡ admitted))
unfolding before_call
opened_call b now v st = ground arith

-- While the circuit of a valid breaker is not closed and no result is recorded, at most one call
-- is let through, whatever the times at which calls are made.
pub single_probe :
    (b : CircuitBreaker) (ts : List ℕ) → IsValid b → b.status ≢ closed → (calls b ts).1 ≤ 1
unfolding calls
single_probe b [] v st = omega arith
single_probe b (now ∷ ts) v st = grind (
  arith,
  single_probe b ts,
  opened_call b now v,
  calls_probing (before_call b now).0 ts,
  calls_probing b ts,
  before_call_probing b now,
)

-- Transient failures in a row, at these times.
pub failing : CircuitBreaker → List ℕ → CircuitBreaker
failing b [] = b
failing b (now ∷ ts) = failing (record_failure b true now) ts

-- The state that a run of transient failures leaves: closed below the threshold, else open.
abbrev Tripped : CircuitBreaker → Type 0
Tripped b =
    ((b.status ≡ closed) × (b.failures < b.failure_threshold))
    ⊎ ((b.status ≡ opened) × (b.failure_threshold ≤ b.failures))

record_failure-Tripped :
    (b : CircuitBreaker) (now : ℕ)
    → Tripped b
    → Tripped (record_failure b true now)
      × ((record_failure b true now).failures ≡ b.failures + 1)
      × ((record_failure b true now).failure_threshold ≡ b.failure_threshold)
unfolding record_failure
record_failure-Tripped b now t = ground arith

failing-Tripped :
    (b : CircuitBreaker) (ts : List ℕ)
    → Tripped b
    → Tripped (failing b ts)
      × ((failing b ts).failures ≡ b.failures + length ts)
      × ((failing b ts).failure_threshold ≡ b.failure_threshold)
unfolding failing
failing-Tripped b [] t = (t, omega arith, refl)
failing-Tripped b (now ∷ ts) t =
    let (t', one, same) = record_failure-Tripped b now t in
    let (rest, count, kept) = failing-Tripped (record_failure b true now) ts t' in
    (rest, omega arith, kept ∙ same)

-- From a valid closed circuit, a run of transient failures in a row, at any times, is counted one
-- by one; the circuit is open after it if the count reaches the threshold, and closed otherwise.
pub trips_exactly :
    (b : CircuitBreaker) (ts : List ℕ)
    → IsValid b
    → b.status ≡ closed
    → ((failing b ts).failures ≡ b.failures + length ts)
      × (b.failures + length ts < b.failure_threshold → (failing b ts).status ≡ closed)
      × (b.failure_threshold ≤ b.failures + length ts → (failing b ts).status ≡ opened)
trips_exactly b ts v st =
    let (t, count, kept) = failing-Tripped b ts (inl (st, v.closed_below st)) in
    (count, λ h. ground arith, λ h. ground arith)
