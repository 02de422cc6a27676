-- ===== src/AiProvider/Probe.antt =====
-- Which attempts give the half-open probe back, and what follows where one does not.
use aishopping_agent.Common.{
  ℕ, ◌+◌, ◌≤◌, ◌≡◌, ◌≢◌, ◌⊎◌, refl, true, false, some, List, [], ◌∷◌, All, arith,
}
use aishopping_agent.Core.Breaker.{
  closed, opened, half_open, CircuitBreaker, admitted, before_call, record_success, record_failure,
}
use aishopping_agent.Core.Breaker.Laws.{IsValid, before_call_probing}
use aishopping_agent.AiProvider.{
  Reply, response, capability_unsupported, quota_exceeded, unavailable, failed, escaped, Result,
  raises_unavailable, attempt_provider, not_available,
}

module _ {R : Type 0} where
  -- The replies after which a result is recorded on the breaker.
  abbrev pub IsRecorded : Reply R → Type 0
  IsRecorded capability_unsupported = ⊥
  IsRecorded escaped = ⊥
  IsRecorded _ = Unit

  -- An attempt that a valid breaker admits, and whose reply is one of those that are recorded,
  -- leaves no probe in flight; its circuit is closed or open, and a response always closes it.
  pub attempt_releases :
      (b : CircuitBreaker) (now later : ℕ) (reply : Reply R)
      → IsValid b
      → (before_call b now).1 ≡ admitted
      → IsRecorded reply
      → let after = (attempt_provider b now later reply).circuit in
        (after.half_open_probe ≡ false)
        × (after.status ≢ half_open)
        × ((r : R) → reply ≡ response r → (after.status ≡ closed) × (after.failures ≡ 0))
  unfolding attempt_provider before_call record_success record_failure
  attempt_releases b now later (response r) v adm rec =
      (ground arith, ground arith, λ r' e. ground arith)
  attempt_releases b now later quota_exceeded v adm rec = (ground arith, ground arith, λ r' e. cc)
  attempt_releases b now later unavailable v adm rec = (ground arith, ground arith, λ r' e. cc)
  attempt_releases b now later failed v adm rec = (ground arith, ground arith, λ r' e. cc)
  attempt_releases b now later capability_unsupported v adm rec = absurd rec
  attempt_releases b now later escaped v adm rec = absurd rec

  -- Later attempts, each at its own times and with what the provider would have replied.
  pub attempts : CircuitBreaker → List (ℕ × ℕ × Reply R) → CircuitBreaker × List (Result R)
  attempts b [] = (b, [])
  attempts b ((now, later, reply) ∷ es) =
      let a = attempt_provider b now later reply in
      let (last, results) = attempts a.circuit es in (last, a.result ∷ results)

  attempt_probing :
      (b : CircuitBreaker) (now later : ℕ) (reply : Reply R)
      → b.status ≡ half_open
      → b.half_open_probe ≡ true
      → attempt_provider b now later reply
        ≡ record { circuit = b; result = raises_unavailable; telemetry = some not_available }
  unfolding attempt_provider
  attempt_probing b now later reply st pr = rw (before_call_probing b now st pr)

  attempts_probing :
      (b : CircuitBreaker) (es : List (ℕ × ℕ × Reply R))
      → b.status ≡ half_open
      → b.half_open_probe ≡ true
      → ((attempts b es).0 ≡ b) × All (λ r. r ≡ raises_unavailable) (attempts b es).1
  unfolding attempts
  attempts_probing b [] st pr = (refl, tt)
  attempts_probing b ((now, later, reply) ∷ es) st pr =
      ground (arith, attempt_probing b now later reply st pr, attempts_probing b es st pr)

  -- The probe leaks: if the open interval of a valid open circuit is over, and the attempt that
  -- becomes the probe ends with an unsupported capability or with an exception that no clause
  -- catches, then every later attempt, at any time, is refused as unavailable without reaching the
  -- provider, and the breaker never changes again.
  pub unrecorded_probe_blocks :
      (b : CircuitBreaker) (since now later : ℕ) (reply : Reply R) (es : List (ℕ × ℕ × Reply R))
      → IsValid b
      → b.status ≡ opened
      → b.opened_at ≡ some since
      → since + b.open_seconds ≤ now
      → (reply ≡ capability_unsupported) ⊎ (reply ≡ escaped)
      → let after = (attempt_provider b now later reply).circuit in
        ((attempts after es).0 ≡ after) × All (λ r. r ≡ raises_unavailable) (attempts after es).1
  unrecorded_probe_blocks b since now later reply es v st at over which =
      attempts_probing _ es (stuck.0) (stuck.1)
    where
      stuck :
          ((attempt_provider b now later reply).circuit.status ≡ half_open)
          × ((attempt_provider b now later reply).circuit.half_open_probe ≡ true)
      stuck = unfold attempt_provider before_call in ground arith
