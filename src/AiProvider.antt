-- ===== src/AiProvider.antt =====
-- backend/app/ai_provider/manager.py: one attempt against a provider, behind its circuit breaker.
-- What `provider.generate` and `validate_provider_response` do is an argument: how they end.
pub mod Probe
mod Tests
use aishopping_agent.Common.{ℕ, Option, some, none, true, false}
use aishopping_agent.Core.Breaker.{
  CircuitBreaker, Admission, admitted, assertion_failed, before_call, record_success,
  record_failure,
}

-- The exceptions that the `except` clauses tell apart. `failed` is any other `AIProviderError`;
-- `escaped` is one that no clause catches, a cancelled task among them.
pub data Reply (R : Type 0) : Type 0 where
  response : R → Reply R
  capability_unsupported quota_exceeded unavailable failed escaped : Reply R

pub data AttemptOutcome : Type 0 where
  succeeded quota_exhausted not_available attempt_failed : AttemptOutcome

pub data Result (R : Type 0) : Type 0 where
  answers : R → Result R
  raises_unsupported raises_quota raises_unavailable raises_failed raises_escaped : Result R

-- The breaker afterwards, how the attempt ends, and what `record_ai_attempt` was told, if called.
pub record Attempted (R : Type 0) : Type 0 where
  pub circuit : CircuitBreaker
  pub result : Result R
  pub telemetry : Option AttemptOutcome

module _ {R : Type 0} where
  -- the rest of the `try` statement, once `before_call` has let the call through
  on_reply : CircuitBreaker → ℕ → Reply R → Attempted R
  on_reply b now (response r) = record {
    circuit = record_success b;
    result = answers r;
    telemetry = some succeeded;
  }
  on_reply b now capability_unsupported = record {
    circuit = b;
    result = raises_unsupported;
    telemetry = some attempt_failed;
  }
  on_reply b now quota_exceeded = record {
    circuit = record_failure b true now;
    result = raises_quota;
    telemetry = some quota_exhausted;
  }
  on_reply b now unavailable = record {
    circuit = record_failure b true now;
    result = raises_unavailable;
    telemetry = some not_available;
  }
  on_reply b now failed = record {
    circuit = record_failure b false now;
    result = raises_failed;
    telemetry = some attempt_failed;
  }
  on_reply b now escaped = record { circuit = b; result = raises_escaped; telemetry = none }

  on_admission : CircuitBreaker → Admission → ℕ → Reply R → Attempted R
  unfolding on_reply
  on_admission b admitted now reply = on_reply b now reply
  on_admission b assertion_failed now reply = record {
    circuit = b;
    result = raises_escaped;
    telemetry = none;
  }
  on_admission b _ now reply = record {
    circuit = b;
    result = raises_unavailable;
    telemetry = some not_available;
  }

  -- `_attempt_provider`: the call is made at `now`, and its result is recorded at `later`.
  unfoldable pub attempt_provider : CircuitBreaker → ℕ → ℕ → Reply R → Attempted R
  unfolding on_admission
  attempt_provider b now later reply =
      let (b', admission) = before_call b now in on_admission b' admission later reply
